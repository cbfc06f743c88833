-- ===== src/Developer/Scope.antt =====
-- backend/developer/patch_scope.py: the guard against patches that delete what a request does not ask
-- to delete. Each regular expression is a phrase between word boundaries, or two phrases in one
-- sentence; letters are ASCII letters. A text behind the current position stands in reverse. Python's
-- difflib is an argument.
use agentic_ai_software_engi.Base.{
  ℕ, zero, suc, ◌+◌, ◌-◌, ◌*◌, Text, codes, nat_eq, ℕ_discrete, Bool, true, false, ◌&&◌, ◌||◌, not,
  Option, none, some, List, [], ◌∷◌, ◌++◌, ◌==◌, leb, if◌then◌else◌, starts_with, drop, length,
  lower, any, count_if, splitlines, split_code, ◌≡◌, refl,
}
use mathlib.Core.List.{reverse}

pub data Pattern : Type 0 where
  phrase : Text → Pattern
  span : Text → Text → Pattern

-- `[a-zA-Z0-9_]`
unfoldable pub is_word : ℕ → Bool
unfolding ℕ_discrete
is_word c =
    (leb b'a' c && leb c b'z')
    || ((leb b'A' c && leb c b'Z') || ((leb b'0' c && leb c b'9') || c == b'_'))

abbrev pub begins_with_word : Text → Bool
begins_with_word [] = false
begins_with_word (c ∷ s) = is_word c

-- `\bp\b` at the front of `s`, for a phrase that begins and ends with a letter.
abbrev pub phrase_at : Text → Text → Text → Bool
phrase_at past s p =
    starts_with s p && (not (begins_with_word past) && not (begins_with_word (drop (length p) s)))

-- The end of the last `q` before a full stop or the end of the line.
unfoldable pub last_end : Text → Text → ℕ → Option ℕ → Text → Option ℕ
unfolding ℕ_discrete
last_end q past n best [] = best
last_end q past n best (c ∷ s) =
    let best' = if phrase_at past (c ∷ s) q then some (n + length q) else best in
    let rest = last_end q (c ∷ past) (n + 1) best' s in if c == b'.' || c == 10 then best' else rest

-- The length of a match at the front of the rest.
abbrev pub match_length : Pattern → Text → Text → Option ℕ
match_length (phrase p) past s = if phrase_at past s p then some (length p) else none
match_length (span p q) past s =
    if phrase_at past s p
    then last_end q (reverse p ++ past) (length p) none (drop (length p) s)
    else none

-- `re.finditer`: what stands before each match; a match begins behind the one before it.
unfoldable pub matches : Pattern → Text → ℕ → Text → List Text
matches p past k [] = []
matches p past (suc k) (c ∷ s) = matches p (c ∷ past) k s
matches p past zero (c ∷ s) = elim (match_length p past (c ∷ s)) [
  | none ↦ matches p (c ∷ past) 0 s
  | some n ↦ past ∷ matches p (c ∷ past) (n - 1) s
]

-- `re.search`
abbrev pub is_found : List Text → Bool
is_found [] = false
is_found (past ∷ found) = true

unfoldable pub occurs : Pattern → Text → Bool
occurs p t = is_found (matches p [] 0 t)

unfoldable pub additive_patterns : List Pattern
additive_patterns =
    phrase (codes "add")
    ∷ phrase (codes "append")
    ∷ phrase (codes "insert")
    ∷ phrase (codes "new section")
    ∷ phrase (codes "extend")
    ∷ []

-- The alternatives of a pattern are patterns of their own.
unfoldable pub rewrite_patterns : List Pattern
rewrite_patterns =
    phrase (codes "rewrite")
    ∷ phrase (codes "replace the content")
    ∷ phrase (codes "replace the contents")
    ∷ phrase (codes "replace the file")
    ∷ phrase (codes "replace the document")
    ∷ phrase (codes "replace content")
    ∷ phrase (codes "replace contents")
    ∷ phrase (codes "replace file")
    ∷ phrase (codes "replace document")
    ∷ phrase (codes "restructure")
    ∷ phrase (codes "regenerate")
    ∷ phrase (codes "overwrite")
    ∷ phrase (codes "start over")
    ∷ phrase (codes "start from scratch")
    ∷ span (codes "remove") (codes "sections")
    ∷ span (codes "delete") (codes "sections")
    ∷ []

unfoldable pub negation_cues : List Pattern
negation_cues =
    phrase (codes "do not")
    ∷ phrase (codes "don't")
    ∷ phrase (codes "dont")
    ∷ phrase (codes "does not")
    ∷ phrase (codes "doesn't")
    ∷ phrase (codes "should not")
    ∷ phrase (codes "shouldn't")
    ∷ phrase (codes "must not")
    ∷ phrase (codes "mustn't")
    ∷ phrase (codes "cannot")
    ∷ phrase (codes "can't")
    ∷ phrase (codes "can not")
    ∷ phrase (codes "never")
    ∷ phrase (codes "without")
    ∷ phrase (codes "avoid")
    ∷ []

unfoldable pub is_additive_request : Text → Bool
is_additive_request request = any (λ p. occurs p (lower request)) additive_patterns

-- What stands between the last full stop, line end or semicolon and the match, in reverse.
unfoldable pub since_boundary : Text → Text
unfolding ℕ_discrete
since_boundary [] = []
since_boundary (c ∷ past) =
    let rest = since_boundary past in if c == b'.' || (c == 10 || c == b';') then [] else c ∷ rest

unfoldable pub is_negated_at : Text → Bool
is_negated_at past = any (λ p. occurs p (reverse (since_boundary past))) negation_cues

unfoldable pub is_explicit_rewrite_request : Text → Bool
is_explicit_rewrite_request request =
    any (λ p. any (λ past. not (is_negated_at past)) (matches p [] 0 (lower request)))
      rewrite_patterns

-- A line of the difference that counts as a deletion.
unfoldable pub is_deletion : Text → Bool
is_deletion line = starts_with line (codes "-") && not (starts_with line (codes "---"))

unfoldable pub wrapper_markers : List Text
wrapper_markers =
    codes "*** Begin Patch"
    ∷ codes "*** End Patch"
    ∷ codes "*** Update File:"
    ∷ codes "*** Add File:"
    ∷ codes "*** Delete File:"
    ∷ []

unfoldable pub detect_patch_wrapper_artifacts : Text → Bool
detect_patch_wrapper_artifacts content =
    any (λ line. any (starts_with line) wrapper_markers) (split_code 10 content)

abbrev pub has_lines : List Text → Bool
has_lines [] = false
has_lines (line ∷ lines) = true

module _ (unified_diff : List Text → List Text → List Text) where
  unfoldable pub count_deletions : Text → Text → ℕ
  count_deletions original updated =
      count_if is_deletion (unified_diff (splitlines original) (splitlines updated))

  -- `compute_deletion_fraction(…) > 0.5`; a text without lines has the fraction 0.
  unfoldable pub deletes_majority : Text → Text → Bool
  deletes_majority original updated =
      has_lines (splitlines original)
      && not (leb (2 * count_deletions original updated) (length (splitlines original)))

  unfoldable pub detect_unsafe_additive_rewrite : Text → Text → Text → Bool
  detect_unsafe_additive_rewrite request original updated =
      not (is_explicit_rewrite_request request)
      && (is_additive_request request && deletes_majority original updated)

negated_test :
    (is_explicit_rewrite_request (codes "Add a section. Do not rewrite the rest.") ≡ false)
    × (is_explicit_rewrite_request (codes "Do not rush; rewrite the file.") ≡ true)
    × (is_explicit_rewrite_request (codes "Remove all of the old sections") ≡ true)
    × (is_explicit_rewrite_request (codes "do not remove it; remove sections") ≡ false)
    × (is_additive_request (codes "Padding: append it") ≡ true)
    × (is_additive_request (codes "Padding address") ≡ false)
unfolding is_explicit_rewrite_request is_additive_request lower matches is_word starts_with drop
    last_end is_negated_at since_boundary occurs additive_patterns rewrite_patterns negation_cues
    ℕ_discrete
negated_test = (refl, refl, refl, refl, refl, refl)
