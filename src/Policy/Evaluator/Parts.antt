-- ===== src/Policy/Evaluator/Parts.antt =====
-- Each section of the evaluator reports nothing exactly where the rule that it checks holds.
use agentic_ai_software_engi.Words
use agentic_ai_software_engi.Base.{
  Text, text_eq, Bool, true, false, ◌||◌, ◌≡◌, ◌≢◌, ◌↔◌, inl, inr, refl, Option, none, some, List,
  [], ◌∷◌, arith, All, Some, any, any-Some, Some-any, append-eq-nil, lower, upper, strip, opt_text,
  contains, ends_with, ends_with-contains, Bool-cases,
}
use agentic_ai_software_engi.Quality.Schema.{QualityCheck, QaResult}
use agentic_ai_software_engi.Policy.Schema.{PolicyConfig}
use agentic_ai_software_engi.Policy.Paths.{matches_pattern, matches_protected_path, normalize_path}
use agentic_ai_software_engi.Policy.Patterns.{
  dependency_manifest_patterns, ci_cd_patterns, infra_config_patterns,
}
use agentic_ai_software_engi.Policy.Change.{
  PolicyRequest, matches_any, repository_violations, allowed_branch_violations, branch_violations,
  touches_manifest, touches_ci, touches_config, file_violations, path_violations, limit_violations,
}
use agentic_ai_software_engi.Policy.Evaluator.{
  check_status, has_failed, required_violations, quality_violations, model_violations,
}
use agentic_ai_software_engi.Policy.Evaluator.Rules.{
  MatchesAny, RepositoryOk, AllowedBranch, BranchOk, FileOk, LimitsOk, QualityOk, ModelOk, Touches,
  FailsLast,
}

matches_any_iff : (name : Text) (ps : List Text) → (matches_any name ps ≡ true) ↔ MatchesAny name ps
unfolding matches_any
matches_any_iff name ps = (any-Some _ ps, Some-any _ ps)

-- The tests that two functions put to each element agree.
any-same-Some :
    (t u : Text → Bool)
    → ((d : Text) → t d ≡ u d)
    → (ps : List Text) → (any t ps ≡ true) ↔ Some (λ d. u d ≡ true) ps
any-same-Some t u h [] = ground arith
any-same-Some t u h (d ∷ ps) = ground (arith, h d, any-same-Some t u h ps)

pub repository_violations-nil :
    (o : Option (List Text)) (r : Option Text) → (repository_violations o r ≡ []) ↔ RepositoryOk o r
unfolding repository_violations
repository_violations-nil none r = ground arith
repository_violations-nil (some allowed) r =
    ground (arith, matches_any_iff (lower (opt_text r)) allowed)

allowed_branch_violations-nil :
    (o : Option (List Text)) (b : Text)
    → (allowed_branch_violations o b ≡ []) ↔ AllowedBranch o (lower (strip b))
unfolding allowed_branch_violations
allowed_branch_violations-nil none b = ground arith
allowed_branch_violations-nil (some allowed) b =
    ground (arith, matches_any_iff (lower (strip b)) allowed)

pub branch_violations-nil :
    (p : PolicyConfig) (b : Option Text) → (branch_violations p b ≡ []) ↔ BranchOk p b
unfolding branch_violations
branch_violations-nil p b = ground (
  arith,
  matches_any_iff (lower (strip (opt_text b))) p.protected_branches,
  allowed_branch_violations-nil p.allowed_branches (opt_text b),
)

matches_protected_path-none :
    (f : Text) (ps : List Text)
    → (matches_protected_path f ps ≡ none) ↔ All (λ pattern. matches_pattern f pattern ≡ false) ps
unfolding matches_protected_path
matches_protected_path-none f [] = ground arith
matches_protected_path-none f (p ∷ ps) = ground (arith, matches_protected_path-none f ps)

contains-or_ends : (s p : Text) → (ends_with s p || contains s p) ≡ contains s p
contains-or_ends s p = elim (Bool-cases (ends_with s p)) [
  | inl e ↦ rw (e, ends_with-contains s p e) refl
  | inr e ↦ rw e refl
]

touches_manifest-Touches :
    (f : Text) → (touches_manifest f ≡ true) ↔ Touches dependency_manifest_patterns f
unfolding touches_manifest
touches_manifest-Touches f =
    let q = λ (d : Text). contains (lower (normalize_path f)) (lower d) in
    any-same-Some _ q (λ d. contains-or_ends (lower (normalize_path f)) (lower d))
      dependency_manifest_patterns

touches_ci-Touches : (f : Text) → (touches_ci f ≡ true) ↔ Touches ci_cd_patterns f
unfolding touches_ci
touches_ci-Touches f = any-same-Some _ _ (λ d. refl) ci_cd_patterns

touches_config-Touches : (f : Text) → (touches_config f ≡ true) ↔ Touches infra_config_patterns f
unfolding touches_config
touches_config-Touches f = any-same-Some _ _ (λ d. refl) infra_config_patterns

file_violations-nil : (p : PolicyConfig) (f : Text) → (file_violations p f ≡ []) ↔ FileOk p f
unfolding file_violations
file_violations-nil p f = ground (
  arith,
  matches_protected_path-none f p.protected_paths,
  touches_manifest-Touches f,
  touches_ci-Touches f,
  touches_config-Touches f,
)

pub path_violations-nil :
    (p : PolicyConfig) (fs : List Text) → (path_violations p fs ≡ []) ↔ All (FileOk p) fs
unfolding path_violations
path_violations-nil p [] = ground arith
path_violations-nil p (f ∷ fs) = ground (
  arith,
  append-eq-nil (file_violations p f) (path_violations p fs),
  file_violations-nil p f,
  path_violations-nil p fs,
)

pub limit_violations-nil :
    (p : PolicyConfig) (q : PolicyRequest) → (limit_violations p q ≡ []) ↔ LimitsOk p q
unfolding limit_violations
limit_violations-nil p q = ground arith

-- The status of the last check of a name is FAIL.
check_status-none :
    (name : Text) (cs : List QualityCheck)
    → (check_status (upper name) cs ≡ none) ↔ All (λ x. upper x.name ≢ upper name) cs
unfolding check_status
check_status-none name [] = ground arith
check_status-none name (c ∷ cs) = ground (arith, check_status-none name cs)

check_status-FailsLast :
    (name : Text) (cs : List QualityCheck)
    → (check_status (upper name) cs ≡ some Words.fail) ↔ FailsLast name cs
unfolding check_status
check_status-FailsLast name [] = ground arith
check_status-FailsLast name (c ∷ cs) =
    ground (arith, check_status-none name cs, check_status-FailsLast name cs)

required_violations-nil :
    (cs : List QualityCheck) (reqs : List Text)
    → (required_violations cs reqs ≡ []) ↔ All (λ req. ¬ FailsLast req cs) reqs
unfolding required_violations has_failed
required_violations-nil cs [] = ground arith
required_violations-nil cs (req ∷ reqs) =
    ground (arith, required_violations-nil cs reqs, check_status-FailsLast req cs)

pub quality_violations-nil :
    (p : PolicyConfig) (r : Option QaResult) → (quality_violations p r ≡ []) ↔ QualityOk p r
unfolding quality_violations
quality_violations-nil p none = ground arith
quality_violations-nil p (some r) =
    ground (arith, required_violations-nil r.checks p.required_quality_checks)

pub model_violations-nil :
    (o : Option (List Text)) (m : Option Text) → (model_violations o m ≡ []) ↔ ModelOk o m
unfolding model_violations
model_violations-nil none m = ground arith
model_violations-nil (some []) m = ground arith
model_violations-nil (some (a ∷ ps)) m =
    ground (arith, matches_any_iff (lower (opt_text m)) (a ∷ ps))
