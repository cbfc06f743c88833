-- ===== src/Vcs/Risk.antt =====
-- GitWorkspaceManager.evaluate_risk (backend/vcs/git_manager.py).
pub mod Score
use agentic_ai_software_engi.Words
use agentic_ai_software_engi.Base.{
  ℕ, ◌+◌, ◌-◌, ◌*◌, ◌/◌, ◌%◌, Text, codes, text_eq, nat_eq, Bool, true, false, ◌||◌, Option, none,
  some, List, [], ◌∷◌, ◌++◌, ◌==◌, elem, ltb, if◌then◌else◌, lower, contains, ends_with, decimal,
  length, any, keep, first,
}
use agentic_ai_software_engi.Policy.Paths.{forward_slashes}
use agentic_ai_software_engi.Policy.Patterns.{
  dependency_manifest_patterns, ci_cd_patterns, infra_config_patterns,
}

risk_heuristic_subset : List Text
risk_heuristic_subset =
    codes "requirements.txt"
    ∷ codes "package.json"
    ∷ codes "yarn.lock"
    ∷ codes "poetry.lock"
    ∷ codes "Pipfile"
    ∷ codes "setup.py"
    ∷ codes "setup.cfg"
    ∷ codes "pyproject.toml"
    ∷ codes ".github/"
    ∷ codes ".gitlab-ci"
    ∷ codes "Jenkinsfile"
    ∷ codes "docker-compose"
    ∷ codes "Dockerfile"
    ∷ codes "Makefile"
    ∷ codes ".env"
    ∷ codes ".env."
    ∷ []

unfoldable pub high_risk_patterns : List Text
unfolding risk_heuristic_subset text_eq
high_risk_patterns =
    keep (λ p. elem p risk_heuristic_subset)
      (dependency_manifest_patterns ++ (ci_cd_patterns ++ infra_config_patterns))
    ++ (codes "alembic/" ∷ codes "migrations/" ∷ codes "migration/" ∷ [])

unfoldable pub config_extensions : List Text
config_extensions =
    codes ".yml"
    ∷ codes ".yaml"
    ∷ codes ".toml"
    ∷ codes ".ini"
    ∷ codes ".cfg"
    ∷ codes ".conf"
    ∷ codes ".json"
    ∷ []

-- The pattern that the loop stops at, if any, and whether the extension is that of a configuration.
unfoldable pub risky_pattern : Text → Option Text
risky_pattern f = first (λ p. contains (lower (forward_slashes f)) p) high_risk_patterns

unfoldable pub is_config_file : Text → Bool
is_config_file f = any (λ e. ends_with (lower (forward_slashes f)) e) config_extensions

-- The reasons of one round of the loop over the files; each of them sets `is_high`.
unfoldable pub file_reasons : Text → List Text
file_reasons f =
    (elim (risky_pattern f) [
      | none ↦ []
      | some p ↦
          (codes "High-risk file modified: " ++ f ++ codes " (matches pattern '" ++ p ++ codes "')")
          ∷ []
    ])
    ++ (if is_config_file f then (codes "Configuration file modified: " ++ f) ∷ [] else [])

unfoldable pub files_reasons : List Text → List Text
files_reasons [] = []
files_reasons (f ∷ fs) = file_reasons f ++ files_reasons fs

-- `f"{part / whole:.0%}"`: the nearest whole percentage, the even one of two.
percent : ℕ → ℕ → Text
percent part whole =
    let q = 100 * part / whole in
    let r = 2 * (100 * part % whole) in
    decimal (if ltb r whole then q else if ltb whole r then q + 1 else q + q % 2) ++ codes "%"

-- More than half of the changed lines are deletions; with no changed line this is false.
unfoldable pub deletes_most : ℕ → ℕ → Bool
deletes_most added deleted = ltb (added + deleted) (2 * deleted)

unfoldable pub deletion_reasons : ℕ → ℕ → List Text
unfolding percent deletes_most
deletion_reasons added deleted =
    if deletes_most added deleted
    then (codes "High deletion ratio: "
        ++ decimal deleted
        ++ codes "/"
        ++ decimal (added + deleted)
        ++ codes " ("
        ++ percent deleted (added + deleted)
        ++ codes " of changes are deletions)")
      ∷ []
    else []

unfoldable pub high_reasons : List Text → ℕ → ℕ → List Text
unfolding deletion_reasons
high_reasons files added deleted = files_reasons files ++ deletion_reasons added deleted

unfoldable pub size_reasons : List Text → List Text
size_reasons files =
    if ltb 5 (length files)
    then (codes "Large changeset: " ++ decimal (length files) ++ codes " files modified") ∷ []
    else []

-- The score and the reasons; the flags of the source are set together with a reason each.
abbrev pub score : List Text → List Text → Text × List Text
score (r ∷ high) sized = (Words.high, (r ∷ high) ++ sized)
score [] (r ∷ sized) = (Words.medium, r ∷ sized)
score [] [] = (Words.low, codes "Standard code change with low risk profile." ∷ [])

unfoldable pub evaluate_risk : List Text → ℕ → ℕ → Text × List Text
evaluate_risk files added deleted = score (high_reasons files added deleted) (size_reasons files)
