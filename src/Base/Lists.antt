-- ===== src/Base/Lists.antt =====
-- Lists measured by native numbers, and the quantifiers over them: as tests (Python's `any` and
-- `all` over a generator) and as predicates.
use Prim.Native.Nat.{ℕ, suc, ◌+◌}
use mathlib.Core.Path.{◌≡◌, refl}
use mathlib.Core.Logic.{◌⊎◌, ◌↔◌, inl, inr}
use mathlib.Core.Bool.{Bool, true, false, ◌&&◌, ◌||◌}
use mathlib.Core.Option.{Option, none, some}
use mathlib.Core.List.{List, [], ◌∷◌, ◌++◌}
use native.Mathlib.Omega.{arith}
use agentic_ai_software_engi.Base.Equality.{if◌then◌else◌}

module _ {ℓ} {A : Type ℓ} where
  abbrev pub length : List A → ℕ
  length [] = 0
  length (x ∷ xs) = suc (length xs)

  abbrev pub any : (A → Bool) → List A → Bool
  any p [] = false
  any p (x ∷ xs) = p x || any p xs

  abbrev pub all : (A → Bool) → List A → Bool
  all p [] = true
  all p (x ∷ xs) = p x && all p xs

  -- `[x for x in xs if p(x)]`
  abbrev pub keep : (A → Bool) → List A → List A
  keep p [] = []
  keep p (x ∷ xs) = let rest = keep p xs in if p x then x ∷ rest else rest

  -- `next((x for x in xs if p(x)), None)`
  abbrev pub first : (A → Bool) → List A → Option A
  first p [] = none
  first p (x ∷ xs) = let rest = first p xs in if p x then some x else rest

  -- `sum(1 for x in xs if p(x))`
  abbrev pub count_if : (A → Bool) → List A → ℕ
  count_if p [] = 0
  count_if p (x ∷ xs) = let rest = count_if p xs in if p x then suc rest else rest

  pub length-append : (xs ys : List A) → length (xs ++ ys) ≡ length xs + length ys
  length-append [] ys = omega arith
  length-append (x ∷ xs) ys = omega (arith, length-append xs ys)

pub append-eq-nil {ℓ} : {A : Type ℓ} (xs ys : List A) → ((xs ++ ys) ≡ []) ↔ ((xs ≡ []) × (ys ≡ []))
append-eq-nil [] ys = ground arith
append-eq-nil (x ∷ xs) ys = ground arith

module _ {ℓ} {A : Type ℓ} where
  abbrev pub All : (A → Type 0) → List A → Type 0
  All P [] = Unit
  All P (x ∷ xs) = P x × All P xs

  abbrev pub Some : (A → Type 0) → List A → Type 0
  Some P [] = ⊥
  Some P (x ∷ xs) = P x ⊎ Some P xs

module _ {ℓ} {A : Type ℓ} (p : A → Bool) where
  pub any-Some : (xs : List A) → any p xs ≡ true → Some (λ x. p x ≡ true) xs
  any-Some [] h = cc
  any-Some (x ∷ xs) h = ground (arith, any-Some xs)

  pub Some-any : (xs : List A) → Some (λ x. p x ≡ true) xs → any p xs ≡ true
  Some-any [] h = absurd h
  Some-any (x ∷ xs) (inl h) = rw h
  Some-any (x ∷ xs) (inr h) = ground (arith, Some-any xs h)

  pub any-All : (xs : List A) → any p xs ≡ false → All (λ x. p x ≡ false) xs
  any-All [] h = tt
  any-All (x ∷ xs) h = ground (arith, any-All xs)

  pub any-append : (xs ys : List A) → any p (xs ++ ys) ≡ (any p xs || any p ys)
  any-append [] ys = refl
  any-append (x ∷ xs) ys = ground (arith, any-append xs ys)
