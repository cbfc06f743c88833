-- ===== src/Vcs/Risk/Score.antt =====
-- What makes a change risky.
use agentic_ai_software_engi.Words
use agentic_ai_software_engi.Base.{
  ℕ, ◌<◌, ◌≤◌, Text, codes, text_eq, Bool, true, false, ◌≡◌, refl, ◌≢◌, ◌↔◌, ◌⊎◌, inl, inr, none,
  List, [], ◌∷◌, arith, Some, length, lower, contains, ends_with, first, any-Some, Some-any,
  contains-none, lower-capital, append-eq-nil, texts_differ, same_text,
}
use agentic_ai_software_engi.Policy.Paths.{forward_slashes}
use agentic_ai_software_engi.Policy.Patterns.{
  dependency_manifest_patterns, ci_cd_patterns, infra_config_patterns,
}
use agentic_ai_software_engi.Vcs.Risk.{
  high_risk_patterns, config_extensions, risky_pattern, is_config_file, file_reasons, files_reasons,
  deletes_most, deletion_reasons, high_reasons, size_reasons, score, evaluate_risk,
}

-- Words of dependency manifests, pipelines, environments and migrations.
abbrev pub risky_words : List Text
risky_words =
    codes "requirements.txt"
    ∷ codes "package.json"
    ∷ codes "yarn.lock"
    ∷ codes "poetry.lock"
    ∷ codes "pyproject.toml"
    ∷ codes "setup.py"
    ∷ codes "setup.cfg"
    ∷ codes ".github/"
    ∷ codes ".gitlab-ci"
    ∷ codes "docker-compose"
    ∷ codes ".env"
    ∷ codes ".env."
    ∷ codes "alembic/"
    ∷ codes "migrations/"
    ∷ codes "migration/"
    ∷ []

-- The path, in small letters and with slashes for backslashes, holds one of the words, or ends like a
-- configuration file.
abbrev pub IsRisky : Text → Type 0
IsRisky f =
    Some (λ w. contains (lower (forward_slashes f)) w ≡ true) risky_words
    ⊎ Some (λ e. ends_with (lower (forward_slashes f)) e ≡ true)
        (codes ".yml"
          ∷ codes ".yaml"
          ∷ codes ".toml"
          ∷ codes ".ini"
          ∷ codes ".cfg"
          ∷ codes ".conf"
          ∷ codes ".json"
          ∷ [])

first-Some : (t : Text → Bool) (xs : List Text) → (first t xs ≢ none) ↔ Some (λ x. t x ≡ true) xs
first-Some t [] = ground arith
first-Some t (x ∷ xs) = ground (arith, first-Some t xs)

capital : (s : Text) (c : ℕ) (w : Text) → 65 ≤ c → c ≤ 90 → contains (lower s) (c ∷ w) ≡ false
capital s c w l u = contains-none (lower s) w c (lower-capital s c l u)

-- Four of the patterns begin with a capital, which no path in small letters holds.
high_risk_patterns-words :
    (s : Text)
    → Some (λ w. contains (lower s) w ≡ true) high_risk_patterns
      ↔ Some (λ w. contains (lower s) w ≡ true) risky_words
unfolding high_risk_patterns dependency_manifest_patterns ci_cd_patterns infra_config_patterns
    text_eq
high_risk_patterns-words s = ground (
  arith,
  capital s b'P' (codes "ipfile") (omega arith) (omega arith),
  capital s b'J' (codes "enkinsfile") (omega arith) (omega arith),
  capital s b'D' (codes "ockerfile") (omega arith) (omega arith),
  capital s b'M' (codes "akefile") (omega arith) (omega arith),
)

is_config_file-Some :
    (f : Text)
    → (is_config_file f ≡ true)
      ↔ Some (λ e. ends_with (lower (forward_slashes f)) e ≡ true) config_extensions
unfolding is_config_file
is_config_file-Some f =
    let t = λ (e : Text). ends_with (lower (forward_slashes f)) e in
    (any-Some t config_extensions, Some-any t config_extensions)

risky_pattern-Some :
    (f : Text)
    → (risky_pattern f ≢ none)
      ↔ Some (λ w. contains (lower (forward_slashes f)) w ≡ true) high_risk_patterns
unfolding risky_pattern
risky_pattern-Some f = first-Some _ high_risk_patterns

file_reasons-nil : (f : Text) → (file_reasons f ≡ []) ↔ (¬ IsRisky f)
unfolding file_reasons config_extensions
file_reasons-nil f = ground (
  arith,
  risky_pattern-Some f,
  high_risk_patterns-words (forward_slashes f),
  is_config_file-Some f,
)

file_reasons-IsRisky : (f : Text) → (file_reasons f ≢ []) → IsRisky f
unfolding file_reasons config_extensions
file_reasons-IsRisky f h = ground (
  arith,
  h,
  risky_pattern-Some f,
  high_risk_patterns-words (forward_slashes f),
  is_config_file-Some f,
)

files_reasons-nil : (fs : List Text) → (files_reasons fs ≡ []) ↔ (¬ Some IsRisky fs)
unfolding files_reasons
files_reasons-nil [] = ground arith
files_reasons-nil (f ∷ fs) = ground (
  arith,
  append-eq-nil (file_reasons f) (files_reasons fs),
  file_reasons-nil f,
  files_reasons-nil fs,
)

list-cases : (xs : List Text) → (xs ≡ []) ⊎ (xs ≢ [])
list-cases [] = inl refl
list-cases (x ∷ xs) = inr (λ e. ground arith)

files_reasons-Some : (fs : List Text) → (files_reasons fs ≢ []) → Some IsRisky fs
unfolding files_reasons
files_reasons-Some [] h = ground arith
files_reasons-Some (f ∷ fs) h = elim (list-cases (file_reasons f)) [
  | inl e ↦ inr (files_reasons-Some fs (λ k. h (rw (e, k) refl)))
  | inr n ↦ inl (file_reasons-IsRisky f n)
]

deletion_reasons-nil :
    (added deleted : ℕ) → (deletion_reasons added deleted ≡ []) ↔ (deleted ≤ added)
unfolding deletion_reasons deletes_most
deletion_reasons-nil added deleted = ground arith

high_reasons-nil :
    (files : List Text) (added deleted : ℕ)
    → (high_reasons files added deleted ≢ []) ↔ (Some IsRisky files ⊎ (added < deleted))
unfolding high_reasons
high_reasons-nil files added deleted = ground (
  arith,
  append-eq-nil (files_reasons files) (deletion_reasons added deleted),
  files_reasons-nil files,
  files_reasons-Some files,
  deletion_reasons-nil added deleted,
)

size_reasons-nil : (files : List Text) → (size_reasons files ≡ []) ↔ (length files ≤ 5)
unfolding size_reasons
size_reasons-nil files = ground arith

low-ne-high : Words.low ≢ Words.high
unfolding Words.low Words.high same_text
low-ne-high = texts_differ _ _ refl

medium-ne-high : Words.medium ≢ Words.high
unfolding Words.medium Words.high same_text
medium-ne-high = texts_differ _ _ refl

low-ne-medium : Words.low ≢ Words.medium
unfolding Words.medium Words.low same_text
low-ne-medium = texts_differ _ _ refl

score_lem :
    (high sized : List Text)
    → (((score high sized).0 ≡ Words.high) ↔ (high ≢ []))
      × (((score high sized).0 ≡ Words.medium) ↔ ((high ≡ []) × (sized ≢ [])))
      × (((score high sized).0 ≡ Words.low) ↔ ((high ≡ []) × (sized ≡ [])))
score_lem (h ∷ high) sized = ground (arith, low-ne-high, medium-ne-high)
score_lem [] (r ∷ sized) = ground (arith, medium-ne-high, low-ne-medium)
score_lem [] [] = ground (arith, low-ne-high, low-ne-medium)

-- The score is HIGH exactly if the path of some file, its letters made small and its backslashes turned,
-- holds one of the patterns of IsRisky as it is written, or the file is one of configuration, or more
-- lines go than come. If it is not HIGH, it is MEDIUM exactly from six files on, and LOW otherwise.
-- A pattern with a capital, as Dockerfile, is found in no path.
pub evaluate_risk-score :
    (files : List Text) (added deleted : ℕ)
    → (((evaluate_risk files added deleted).0 ≡ Words.high)
        ↔ (Some IsRisky files ⊎ (added < deleted)))
      × (((evaluate_risk files added deleted).0 ≡ Words.medium)
          ↔ ((¬ (Some IsRisky files ⊎ (added < deleted))) × (5 < length files)))
      × (((evaluate_risk files added deleted).0 ≡ Words.low)
          ↔ ((¬ (Some IsRisky files ⊎ (added < deleted))) × (length files ≤ 5)))
unfolding evaluate_risk
evaluate_risk-score files added deleted = ground (
  arith,
  score_lem (high_reasons files added deleted) (size_reasons files),
  high_reasons-nil files added deleted,
  size_reasons-nil files,
)
