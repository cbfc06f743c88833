-- ===== src/Base/Glob.antt =====
-- Python's `fnmatch.fnmatch` on a case-sensitive platform: a pattern is read into tokens once and
-- then matched against the whole text.
use Prim.Native.Nat.{ℕ, zero, suc}
use mathlib.Core.Path.{◌≡◌, refl}
use mathlib.Core.Bool.{Bool, true, false, not, ◌&&◌, ◌||◌}
use mathlib.Core.Option.{Option, none, some}
use mathlib.Core.List.{List, [], ◌∷◌}
use native.Mathlib.Decide.{ℕ_discrete}
use agentic_ai_software_engi.Base.Equality.{◌==◌, nat_eq, leb, if◌then◌else◌}
use agentic_ai_software_engi.Base.Strings.{Text, codes}
use agentic_ai_software_engi.Base.Lists.{any}

-- One member of a bracket expression: the characters from the first to the second.
pub data Range : Type 0 where
  range : ℕ → ℕ → Range

pub data Token : Type 0 where
  lit : ℕ → Token
  any_one : Token
  any_many : Token
  one_of : Bool → List Range → Token

abbrev pub in_range : ℕ → Range → Bool
in_range c (range lo hi) = leb lo c && leb c hi

-- Does a single-character token take the character?
abbrev pub accepts : Token → ℕ → Bool
accepts (lit d) c = c == d
accepts any_one c = true
accepts any_many c = false
accepts (one_of negated rs) c = if negated then not (any (in_range c) rs) else any (in_range c) rs

-- `x-y` is a range where both ends are there; any other character stands for itself.
ranges : Text → List Range
ranges [] = []
ranges (x ∷ []) = range x x ∷ []
ranges (x ∷ m ∷ []) = range x x ∷ ranges (m ∷ [])
ranges (x ∷ m ∷ y ∷ s) =
    let as_range = range x y ∷ ranges s in
    let as_chars = range x x ∷ ranges (m ∷ y ∷ s) in if m == b'-' then as_range else as_chars

-- The text before the next `]` and the text behind it.
until_bracket : Text → Option (Text × Text)
until_bracket [] = none
until_bracket (c ∷ s) =
    let rest = until_bracket s in
    if c == b']'
    then some ([], s)
    else elim rest [ none ↦ none | some (inner, after) ↦ some (c ∷ inner, after) ]

-- As `until_bracket`, but a `]` in the first place is an ordinary character.
bracket_body : Text → Option (Text × Text)
unfolding until_bracket
bracket_body [] = none
bracket_body (c ∷ s) = elim (until_bracket s) [
  | none ↦ if c == b']' then none else until_bracket (c ∷ s)
  | some (inner, after) ↦ if c == b']' then some (c ∷ inner, after) else until_bracket (c ∷ s)
]

-- What follows a `[`: its token and the rest of the pattern, or none if no `]` closes it.
bracket : Text → Option (Token × Text)
unfolding bracket_body ranges
bracket [] = none
bracket (c ∷ s) =
    if c == b'!'
    then elim (bracket_body s) [
      | none ↦ none
      | some (inner, after) ↦ some (one_of true (ranges inner), after)
    ]
    else elim (bracket_body (c ∷ s)) [
      | none ↦ none
      | some (inner, after) ↦ some (one_of false (ranges inner), after)
    ]

-- Each round takes at least one character, so the length of the pattern is fuel enough.
tokens_from : ℕ → Text → List Token
unfolding bracket ℕ_discrete
tokens_from zero p = []
tokens_from (suc f) [] = []
tokens_from (suc f) (c ∷ p) =
    let rest = tokens_from f p in
    if c == b'*'
    then any_many ∷ rest
    else if c == b'?'
    then any_one ∷ rest
    else if c == b'['
    then elim (bracket p) [
      | none ↦ lit c ∷ rest
      | some (t, after) ↦ let behind = tokens_from f after in t ∷ behind
    ]
    else lit c ∷ rest

abbrev size : Text → ℕ
size [] = 0
size (c ∷ p) = suc (size p)

unfoldable pub tokens : Text → List Token
unfolding tokens_from
tokens p = tokens_from (size p) p

-- The match of a whole text. `*` takes nothing, or one character and stays.
unfoldable pub match_tokens : List Token → Text → Bool
unfolding ℕ_discrete
match_tokens [] [] = true
match_tokens [] (c ∷ s) = false
match_tokens (any_many ∷ ts) [] = match_tokens ts []
match_tokens (any_many ∷ ts) (c ∷ s) = match_tokens ts (c ∷ s) || match_tokens (any_many ∷ ts) s
match_tokens (t ∷ ts) [] = false
match_tokens (t ∷ ts) (c ∷ s) = accepts t c && match_tokens ts s

-- `fnmatch.fnmatch(name, pattern)`
unfoldable pub fnmatch : Text → Text → Bool
unfolding tokens match_tokens
fnmatch name pattern = match_tokens (tokens pattern) name

glob_test :
    (fnmatch (codes "release/1.0") (codes "release/*") ≡ true)
    × (fnmatch (codes "main") (codes "m[a-c]i?") ≡ true)
    × (fnmatch (codes "main") (codes "m[!a-c]in") ≡ false)
    × (fnmatch (codes "a]b") (codes "a[]]b") ≡ true)
    × (fnmatch (codes "a[b") (codes "a[b") ≡ true)
unfolding fnmatch
glob_test = (refl, refl, refl, refl, refl)
