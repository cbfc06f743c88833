-- ===== src/Policy/Evaluator/Rules.antt =====
-- What the organization policy demands of a change, said without the functions of the evaluator; of
-- the repository it uses the comparison of paths (policy/path_filter.py) and the pattern tables.
use agentic_ai_software_engi.Words
use agentic_ai_software_engi.Base.{
  ◌≤◌, Text, text_eq, true, false, ◌≡◌, ◌≢◌, ◌⊎◌, Option, none, some, List, [], ◌∷◌, Some, All,
  lower, upper, strip, opt_text, is_set, length, contains,
}
use agentic_ai_software_engi.Base.Dict.{lookup}
use agentic_ai_software_engi.Base.Glob.{fnmatch}
use agentic_ai_software_engi.Quality.Schema.{QualityCheck, QaResult}
use agentic_ai_software_engi.Policy.Schema.{PolicyConfig}
use agentic_ai_software_engi.Policy.Paths.{is_traversal_attack, matches_pattern, normalize_path}
use agentic_ai_software_engi.Policy.Patterns.{
  dependency_manifest_patterns, ci_cd_patterns, infra_config_patterns,
}
use agentic_ai_software_engi.Policy.Change.{PolicyRequest}

-- The name matches one of the patterns.
abbrev pub MatchesAny : Text → List Text → Type 0
MatchesAny name patterns = Some (λ p. fnmatch name (lower p) ≡ true) patterns

abbrev pub RepositoryOk : Option (List Text) → Option Text → Type 0
RepositoryOk none r = Unit
RepositoryOk (some allowed) r = (is_set r ≡ true) × MatchesAny (lower (opt_text r)) allowed

abbrev pub AllowedBranch : Option (List Text) → Text → Type 0
AllowedBranch none b = Unit
AllowedBranch (some allowed) b = MatchesAny b allowed

-- A branch that is named is not protected, and is allowed if there is a list of the allowed ones.
abbrev pub BranchOk : PolicyConfig → Option Text → Type 0
BranchOk p b =
    is_set b ≡ true
    → (¬ MatchesAny (lower (strip (opt_text b))) p.protected_branches)
      × AllowedBranch p.allowed_branches (lower (strip (opt_text b)))

-- The path, with all of its letters made small, holds one of the patterns, made small too.
abbrev pub Touches : List Text → Text → Type 0
Touches patterns f = Some (λ d. contains (lower (normalize_path f)) (lower d) ≡ true) patterns

pub record FileOk (p : PolicyConfig) (f : Text) : Type 0 where
  pub no_traversal : is_traversal_attack f ≡ false
  pub unprotected : All (λ pattern. matches_pattern f pattern ≡ false) p.protected_paths
  pub manifests : Touches dependency_manifest_patterns f → p.allow_dependency_changes ≡ true
  pub ci : Touches ci_cd_patterns f → p.allow_ci_changes ≡ true
  pub config : Touches infra_config_patterns f → p.allow_config_changes ≡ true

pub record LimitsOk (p : PolicyConfig) (q : PolicyRequest) : Type 0 where
  pub files : length q.changed_files ≤ p.max_files_changed
  pub added : q.lines_added ≤ p.max_lines_added
  pub deleted : q.lines_deleted ≤ p.max_lines_deleted
  pub revisions : q.revision_count ≤ p.max_revisions

-- Of the checks of that name, in any case of its letters, the last one is FAIL.
abbrev pub FailsLast : Text → List QualityCheck → Type 0
FailsLast name [] = ⊥
FailsLast name (c ∷ cs) =
    FailsLast name cs
    ⊎ ((upper c.name ≡ upper name)
        × (c.status ≡ Words.fail)
        × All (λ x. upper x.name ≢ upper name) cs)

-- The QA result, if there is one, is not FAIL, and no required check of it is; a required check that is
-- missing, or that was skipped, is no breach.
abbrev pub QualityOk : PolicyConfig → Option QaResult → Type 0
QualityOk p none = Unit
QualityOk p (some r) =
    (r.status ≢ Words.fail) × All (λ req. ¬ FailsLast req r.checks) p.required_quality_checks

abbrev pub ModelOk : Option (List Text) → Option Text → Type 0
ModelOk none m = Unit
ModelOk (some []) m = Unit
ModelOk (some (a ∷ ps)) m = is_set m ≡ true → MatchesAny (lower (opt_text m)) (a ∷ ps)

-- The level of risk: the score in capitals and without blanks around it, LOW where there is none.
abbrev pub Level : PolicyRequest → Text → Type 0
Level q l =
    (q.risk_score ≡ [] → l ≡ upper (strip Words.low))
    × (q.risk_score ≢ [] → l ≡ upper (strip q.risk_score))

-- What the thresholds of the policy say of a level, in capitals; of a level they do not name, REVIEW.
abbrev pub Threshold : PolicyConfig → Text → Text → Type 0
Threshold p l d =
    ((x : Text) × (lookup l p.risk_thresholds ≡ some x) × (d ≡ upper x))
    ⊎ ((lookup l p.risk_thresholds ≡ none) × (d ≡ upper Words.review))

pub record Complies (p : PolicyConfig) (q : PolicyRequest) : Type 0 where
  pub repository : RepositoryOk p.allowed_repositories q.repository
  pub branch : BranchOk p q.branch
  pub files : All (FileOk p) q.changed_files
  pub limits : LimitsOk p q
  pub quality : QualityOk p q.quality_results
  pub model : ModelOk p.allowed_models q.model
  pub not_critical : ¬ Level q Words.critical
  pub not_blocked : (l : Text) → Level q l → ¬ Threshold p l Words.block

-- The risk asks for no human review.
pub record RiskIsRoutine (p : PolicyConfig) (q : PolicyRequest) : Type 0 where
  pub not_medium : ¬ Level q Words.medium
  pub not_high : ¬ Level q Words.high
  pub not_review : (l : Text) → Level q l → ¬ Threshold p l Words.review
