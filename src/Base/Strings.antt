-- ===== src/Base/Strings.antt =====
-- Python's `str` as the list of its code points, with the methods that the program calls.
-- `lower`, `upper` and `strip` treat the ASCII characters.
use Prim.Native.Nat.{ℕ, zero, suc, ◌+◌, ◌-◌, ◌/◌, ◌%◌}
use Prim.Native.Char.{code}
use Prim.Native.String.{String}
use mathlib.Core.Path.{◌≡◌, refl}
use mathlib.Core.Logic.{dite, ◌≢◌}
use mathlib.Core.Bool.{Bool, true, false, ◌&&◌, ◌||◌, Bool-discrete}
use mathlib.Core.List.{List, [], ◌∷◌, ◌++◌, map, reverse}
use mathlib.Core.Option.{Option, none, some}
use native.Mathlib.Omega.{arith}
use native.Mathlib.Decide.{ℕ_discrete}
use agentic_ai_software_engi.Base.Equality.{Eq, ◌==◌, nat_eq, leb, if◌then◌else◌}

abbrev pub Text : Type 0
Text = List ℕ

abbrev pub codes : String → Text
codes String.[] = []
codes (String.◌∷◌ c s) = code c ∷ codes s

unfoldable pub same_text : Text → Text → Bool
unfolding ℕ_discrete
same_text [] [] = true
same_text (a ∷ s) (b ∷ t) = a == b && same_text s t
same_text _ _ = false

pub same_text_sound : (s t : Text) → same_text s t ≡ true → s ≡ t
unfolding same_text
same_text_sound [] [] h = refl
same_text_sound [] (b ∷ t) h = cc
same_text_sound (a ∷ s) [] h = cc
same_text_sound (a ∷ s) (b ∷ t) h = ground (arith, same_text_sound s t)

same_text_refl : (s : Text) → same_text s s ≡ true
unfolding same_text
same_text_refl [] = refl
same_text_refl (a ∷ s) = ground (arith, same_text_refl s)

pub same_text_complete : (s t : Text) → s ≡ t → same_text s t ≡ true
same_text_complete s t e = rw (← e) (same_text_refl s)

-- Shut in proofs, where a split on `s == t` yields the equation or its negation.
instance unfoldable pub text_eq : Eq Text
unfolding same_text
text_eq = record {
  decide = λ s t.
      dite (Bool-discrete (same_text s t) true) (λ same. yes (same_text_sound s t same))
        (λ differ. no (λ p. differ (same_text_complete s t p)));
}

-- Two texts that the test tells apart are different.
pub texts_differ : (s t : Text) → same_text s t ≡ false → s ≢ t
texts_differ s t h e = let same = same_text_complete s t e in cc

unfoldable pub lower_code : ℕ → ℕ
lower_code c = if leb b'A' c && leb c b'Z' then c + 32 else c

upper_code : ℕ → ℕ
upper_code c = if leb b'a' c && leb c b'z' then c - 32 else c

-- `s.lower()`
unfoldable pub lower : Text → Text
unfolding lower_code
lower s = map lower_code s

-- `s.upper()`
unfoldable pub upper : Text → Text
unfolding upper_code
upper s = map upper_code s

is_space : ℕ → Bool
is_space c = c == b' ' || (leb 9 c && leb c 13) || (leb 28 c && leb c 31)

drop_spaces : Text → Text
drop_spaces [] = []
drop_spaces (c ∷ s) = elim (is_space c) [ true ↦ drop_spaces s | false ↦ c ∷ s ]

-- `s.strip()`
unfoldable pub strip : Text → Text
unfolding is_space drop_spaces
strip s = reverse (drop_spaces (reverse (drop_spaces s)))

-- `s.startswith(p)`
unfoldable pub starts_with : Text → Text → Bool
unfolding ℕ_discrete
starts_with s [] = true
starts_with [] (c ∷ p) = false
starts_with (d ∷ s) (c ∷ p) = c == d && starts_with s p

-- `s.endswith(p)`
unfoldable pub ends_with : Text → Text → Bool
unfolding starts_with
ends_with s p = starts_with (reverse s) (reverse p)

-- `p in s`
unfoldable pub contains : Text → Text → Bool
unfolding starts_with
contains [] p = starts_with [] p
contains (d ∷ s) p = starts_with (d ∷ s) p || contains s p

-- `s.replace(a, b)` for single characters
unfoldable pub replace_code : ℕ → ℕ → Text → Text
unfolding ℕ_discrete
replace_code a b s = map (λ c. if c == a then b else c) s

-- `s.lstrip(c)` for a single character
unfoldable pub lstrip_code : ℕ → Text → Text
unfolding ℕ_discrete
lstrip_code a [] = []
lstrip_code a (c ∷ s) = elim (c == a) [ true ↦ lstrip_code a s | false ↦ c ∷ s ]

strip_test : strip (codes "  a b ") ≡ codes "a b"
unfolding strip ℕ_discrete
strip_test = refl

contains_test : contains (lower (codes "x/ABC/y")) (codes "abc") ≡ true
unfolding contains lower
contains_test = refl

eq_test : (codes "ab" == codes "ab") ≡ true
unfolding text_eq
eq_test = refl

-- The line boundaries of `str.splitlines`.
is_break : ℕ → Bool
is_break c = (leb 10 c && leb c 13) || (leb 28 c && leb c 30) || c == 133 || c == 8232 || c == 8233

-- The lines of the rest; the flag is set behind a carriage return, whose line feed belongs to it.
lines_from : Bool → Text → Text → List Text
lines_from after_cr line [] = elim line [ [] ↦ [] | c ∷ s ↦ reverse (c ∷ s) ∷ [] ]
lines_from after_cr line (c ∷ s) = elim (after_cr && c == 10) [
  | true ↦ lines_from false line s
  | false ↦ elim (is_break c) [
    | true ↦ reverse line ∷ lines_from (c == 13) [] s
    | false ↦ lines_from false (c ∷ line) s
  ]
]

-- `s.splitlines()`
unfoldable pub splitlines : Text → List Text
unfolding is_break lines_from ℕ_discrete
splitlines s = lines_from false [] s

-- `s[:n]`
unfoldable pub prefix : ℕ → Text → Text
prefix zero s = []
prefix (suc n) [] = []
prefix (suc n) (c ∷ s) = c ∷ prefix n s

-- `s[n:]`
unfoldable pub drop : ℕ → Text → Text
drop zero s = s
drop (suc n) [] = []
drop (suc n) (c ∷ s) = drop n s

-- `s[:-n]`
unfoldable pub drop_last : ℕ → Text → Text
unfolding drop
drop_last n s = reverse (drop n (reverse s))

-- The pieces of `s.split(a)`, never none: the first piece is the list's head.
unfoldable pub split_code : ℕ → Text → List Text
unfolding ℕ_discrete
split_code a [] = [] ∷ []
split_code a (c ∷ s) =
    let rest = split_code a s in
    if c == a
    then [] ∷ rest
    else elim rest [ [] ↦ (c ∷ []) ∷ [] | piece ∷ pieces ↦ (c ∷ piece) ∷ pieces ]

-- `a.join(pieces)`
unfoldable pub join_code : ℕ → List Text → Text
join_code a [] = []
join_code a (piece ∷ []) = piece
join_code a (piece ∷ next ∷ pieces) = piece ++ (a ∷ join_code a (next ∷ pieces))

-- `s or t`: an empty text is false.
abbrev pub or_text : Text → Text → Text
or_text [] t = t
or_text (c ∷ s) t = c ∷ s

-- `o or ""`
abbrev pub opt_text : Option Text → Text
opt_text none = []
opt_text (some s) = s

-- The truth value of an optional text.
abbrev pub is_set : Option Text → Bool
is_set none = false
is_set (some []) = false
is_set (some (c ∷ s)) = true

-- The decimal digits of a number in front of a text; a number has at most as many digits as its
-- successor, so that is fuel enough.
digits_onto : ℕ → ℕ → Text → Text
digits_onto zero n s = s
digits_onto (suc f) n s =
    let rest = digits_onto f (n / 10) ((b'0' + n % 10) ∷ s) in
    if leb n 9 then (b'0' + n % 10) ∷ s else rest

-- `str(n)`
unfoldable pub decimal : ℕ → Text
unfolding digits_onto
decimal n = digits_onto (suc n) n []

decimal_test : decimal 1205 ≡ codes "1205"
unfolding decimal
decimal_test = refl

splitlines_test :
    splitlines (codes "a" ++ (13 ∷ 10 ∷ []) ++ codes "b" ++ (10 ∷ [])) ≡ codes "a" ∷ codes "b" ∷ []
unfolding splitlines
splitlines_test = refl
