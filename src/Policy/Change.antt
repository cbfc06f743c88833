-- ===== src/Policy/Change.antt =====
-- The sections 1 to 4 of PolicyEvaluator.evaluate (backend/policy/evaluator.py), which look at the
-- change itself. A section returns its violations; the flags of the source are set together with a
-- violation each, so a section's mark is read off the violations.
use agentic_ai_software_engi.Base.{
  ℕ, Text, text_eq, Bool, ◌||◌, not, Option, none, some, List, [], ◌∷◌, ◌++◌, ltb, if◌then◌else◌,
  lower, strip, ends_with, contains, opt_text, is_set, decimal, length, any,
}
use agentic_ai_software_engi.Base.Glob.{fnmatch}
use agentic_ai_software_engi.Quality.Schema.{QaResult}
use agentic_ai_software_engi.Policy.Schema.{
  Rule, PolicyViolation, PolicyConfig, Mark, passed, failed,
}
use agentic_ai_software_engi.Policy.Paths.{
  is_traversal_attack, matches_protected_path, normalize_path,
}
use agentic_ai_software_engi.Policy.Patterns.{
  dependency_manifest_patterns, ci_cd_patterns, infra_config_patterns,
}

-- The arguments of `evaluate` behind the policy.
pub record PolicyRequest : Type 0 where
  pub repository : Option Text
  pub branch : Option Text
  pub changed_files : List Text
  pub lines_added : ℕ
  pub lines_deleted : ℕ
  pub risk_score : Text
  pub risk_reasons : List Text
  pub quality_results : Option QaResult
  pub revision_count : ℕ
  pub model : Option Text

abbrev pub violation : Rule → Text → PolicyViolation
violation rule target = record { rule = rule; target = some target }

-- FAIL if there is a violation, PASS if not.
abbrev pub mark_of : List PolicyViolation → Mark
mark_of [] = passed
mark_of (v ∷ vs) = failed

-- A violation if the test fails.
abbrev pub unless : Bool → PolicyViolation → List PolicyViolation
unless ok v = if ok then [] else v ∷ []

-- `any(fnmatch.fnmatch(name, p.lower()) for p in patterns)`
unfoldable pub matches_any : Text → List Text → Bool
matches_any name patterns = any (λ p. fnmatch name (lower p)) patterns

-- 1. Repository boundary
unfoldable pub repository_violations : Option (List Text) → Option Text → List PolicyViolation
repository_violations none repository = []
repository_violations (some allowed) repository =
    if is_set repository
    then unless (matches_any (lower (opt_text repository)) allowed)
        (violation Rule.allowed_repositories (opt_text repository))
    else record { rule = Rule.repository_undefined; target = none } ∷ []

-- The allowed branches count only where no protected one was hit.
unfoldable pub allowed_branch_violations : Option (List Text) → Text → List PolicyViolation
allowed_branch_violations none branch = []
allowed_branch_violations (some allowed) branch =
    unless (matches_any (lower (strip branch)) allowed) (violation Rule.allowed_branches branch)

-- 2. Branch boundary and protected branches
unfoldable pub branch_violations : PolicyConfig → Option Text → List PolicyViolation
branch_violations p branch =
    if is_set branch
    then if matches_any (lower (strip (opt_text branch))) p.protected_branches
      then violation Rule.protected_branch (opt_text branch) ∷ []
      else allowed_branch_violations p.allowed_branches (opt_text branch)
    else []

unfoldable pub touches_manifest : Text → Bool
touches_manifest f =
    let norm_f = lower (normalize_path f) in
    any (λ d. ends_with norm_f (lower d) || contains norm_f (lower d)) dependency_manifest_patterns

unfoldable pub touches_ci : Text → Bool
touches_ci f =
    let norm_f = lower (normalize_path f) in any (λ d. contains norm_f (lower d)) ci_cd_patterns

unfoldable pub touches_config : Text → Bool
touches_config f =
    let norm_f = lower (normalize_path f) in
    any (λ d. contains norm_f (lower d)) infra_config_patterns

-- One round of the loop over the changed files.
unfoldable pub file_violations : PolicyConfig → Text → List PolicyViolation
file_violations p f =
    if is_traversal_attack f
    then violation Rule.path_traversal f ∷ []
    else (elim (matches_protected_path f p.protected_paths) [
      | none ↦ []
      | some pattern ↦ violation Rule.protected_path f ∷ []
    ])
      ++ (unless (p.allow_dependency_changes || not (touches_manifest f))
            (violation Rule.dependency_changes_disallowed f)
          ++ (unless (p.allow_ci_changes || not (touches_ci f))
                (violation Rule.ci_changes_disallowed f)
              ++ unless (p.allow_config_changes || not (touches_config f))
                  (violation Rule.config_changes_disallowed f)))

-- 3. Path traversal, protected paths and file change permissions
unfoldable pub path_violations : PolicyConfig → List Text → List PolicyViolation
path_violations p [] = []
path_violations p (f ∷ fs) = file_violations p f ++ path_violations p fs

-- A violation if the value exceeds its limit.
abbrev pub over : Rule → ℕ → ℕ → List PolicyViolation
over rule value limit = unless (not (ltb limit value)) (violation rule (decimal value))

-- 4. Patch limits
unfoldable pub limit_violations : PolicyConfig → PolicyRequest → List PolicyViolation
limit_violations p q =
    over Rule.max_files_exceeded (length q.changed_files) p.max_files_changed
    ++ (over Rule.max_lines_added_exceeded q.lines_added p.max_lines_added
        ++ (over Rule.max_lines_deleted_exceeded q.lines_deleted p.max_lines_deleted
            ++ over Rule.max_revisions_exceeded q.revision_count p.max_revisions))
