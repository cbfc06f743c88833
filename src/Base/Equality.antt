-- ===== src/Base/Equality.antt =====
-- Python's `==`, `in` and conditional expression, for every type whose equality is decided.
use Prim.Native.Nat.{ℕ, compare, Ordering}
use mathlib.Core.Path.{◌≡◌, refl}
use mathlib.Core.Logic.{ite, ◌≢◌, ◌⊎◌, inl, inr}
use mathlib.Core.Bool.{Bool, true, false, cond, ◌||◌}
use mathlib.Core.Option.{Option, none, some}
use mathlib.Core.List.{List, [], ◌∷◌}
use native.Mathlib.Decide.{ℕ_discrete}
use native.Mathlib.Omega.{arith}

infix 1 if◌then◌else◌
abbrev pub if◌then◌else◌ {ℓ} : {A : Type ℓ} → Bool → A → A → A
if b then x else y = cond b x y

-- Order tests that compute to `compare`.
abbrev pub ltb : ℕ → ℕ → Bool
ltb a b = elim (compare a b) [ Ordering.lt ↦ true | _ ↦ false ]

abbrev pub leb : ℕ → ℕ → Bool
leb a b = elim (compare a b) [ Ordering.gt ↦ false | _ ↦ true ]

pub record Eq {ℓ} (A : Type ℓ) : Type ℓ where
  pub decide : Discrete A

module _ {ℓ} {A : Type ℓ} ⦃e : Eq A⦄ where
  infix 50 ◌==◌
  abbrev pub ◌==◌ : A → A → Bool
  a == b = ite (e.decide a b) true false

  -- `a in xs`
  abbrev pub elem : A → List A → Bool
  elem a [] = false
  elem a (x ∷ xs) = a == x || elem a xs

  pub ==_refl : (a : A) → (a == a) ≡ true
  ==_refl a = ground arith

  pub ==_sound : (a b : A) → (a == b) ≡ true → a ≡ b
  ==_sound a b h = ground arith

  pub ==_differ : (a b : A) → (a == b) ≡ false → a ≢ b
  ==_differ a b h e = ground arith

  pub ne-== : (a b : A) → a ≢ b → (a == b) ≡ false
  ne-== a b d = ground arith

instance abbrev pub nat_eq : Eq ℕ
nat_eq = record { decide = ℕ_discrete }

pub true-ne-false : true ≢ false
true-ne-false e = ground arith

-- To split on a computed value and keep the equation.
pub Bool-cases : (b : Bool) → (b ≡ true) ⊎ (b ≡ false)
Bool-cases true = inl refl
Bool-cases false = inr refl

pub Option-cases {ℓ} : {A : Type ℓ} (o : Option A) → (o ≡ none) ⊎ ((a : A) × (o ≡ some a))
Option-cases none = inl refl
Option-cases (some a) = inr (a, refl)

pair_decide {ℓ κ} :
    {A : Type ℓ} {B : Type κ} (p q : A × B) → Dec (p.0 ≡ q.0) → Dec (p.1 ≡ q.1) → Dec (p ≡ q)
pair_decide p q (yes e) (yes f) = yes (λ i. (e i, f i))
pair_decide p q (no n) d = no (λ e. n (λ i. (e i).0))
pair_decide p q (yes e) (no n) = no (λ e'. n (λ i. (e' i).1))

instance unfoldable pub pair_eq {ℓ κ} : {A : Type ℓ} {B : Type κ} ⦃e : Eq A⦄ ⦃f : Eq B⦄ → Eq (A × B)
unfolding pair_decide
pair_eq ⦃e = e⦄ ⦃f = f⦄ = record {
  decide = λ p q. pair_decide p q (e.decide p.0 q.0) (f.decide p.1 q.1);
}
