-- ===== src/Base/Affixes.antt =====
-- What the tests on texts mean: prefixes and suffixes as pieces, and letters that `lower` leaves out.
use Prim.Native.Nat.{ℕ, ◌≤◌}
use mathlib.Core.Path.{◌≡◌, refl, sym, ap, ◌∙◌}
use mathlib.Core.Logic.{◌≢◌}
use mathlib.Core.Bool.{true, false}
use mathlib.Core.List.{[], ◌∷◌, ◌++◌, reverse, reverse-append, reverse-reverse}
use native.Mathlib.Omega.{arith}
use agentic_ai_software_engi.Base.Equality.{nat_eq, ==_refl}
use agentic_ai_software_engi.Base.Lists.{All}
use agentic_ai_software_engi.Base.Strings.{
  Text, starts_with, ends_with, contains, lower, lower_code,
}

starts_with-split : (s p : Text) → starts_with s p ≡ true → (r : Text) × (s ≡ p ++ r)
unfolding starts_with
starts_with-split s [] h = (s, refl)
starts_with-split [] (c ∷ p) h = ground arith
starts_with-split (d ∷ s) (c ∷ p) h =
    let e : c ≡ d = ground arith in
    let (r, q) = starts_with-split s p (ground arith) in (r, rw e (ap (λ x. d ∷ x) q))

-- A text ends with another one exactly where that one stands behind some text.
pub ends_with-split : (s p : Text) → ends_with s p ≡ true → (a : Text) × (s ≡ a ++ p)
unfolding ends_with
ends_with-split s p h =
    let (r, e) = starts_with-split (reverse s) (reverse p) h in
    (
      reverse r,
      sym (reverse-reverse s)
          ∙ ap reverse e
          ∙ reverse-append (reverse p) r
          ∙ ap (λ x. reverse r ++ x) (reverse-reverse p),
    )

starts_with_refl : (p : Text) → starts_with p p ≡ true
unfolding starts_with
starts_with_refl [] = refl
starts_with_refl (c ∷ p) = rw (==_refl c) (starts_with_refl p)

contains-suffix : (a p : Text) → contains (a ++ p) p ≡ true
unfolding contains starts_with
contains-suffix [] [] = refl
contains-suffix [] (c ∷ p) = rw (==_refl c, starts_with_refl p) refl
contains-suffix (d ∷ a) p = ground (arith, contains-suffix a p)

pub ends_with-contains : (s p : Text) → ends_with s p ≡ true → contains s p ≡ true
ends_with-contains s p h = let (a, e) = ends_with-split s p h in rw e (contains-suffix a p)

-- A text without the first letter of another one does not contain it.
pub contains-none : (s p : Text) (c : ℕ) → All (λ x. x ≢ c) s → contains s (c ∷ p) ≡ false
unfolding contains starts_with
contains-none [] p c h = refl
contains-none (x ∷ s) p c h = ground (arith, contains-none s p c)

-- No letter of a text in small letters is a capital.
pub lower-capital : (s : Text) (c : ℕ) → 65 ≤ c → c ≤ 90 → All (λ x. x ≢ c) (lower s)
unfolding lower lower_code
lower-capital [] c l u = tt
lower-capital (x ∷ s) c l u = ((λ e. ground arith), lower-capital s c l u)
