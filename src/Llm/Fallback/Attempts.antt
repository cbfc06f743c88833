-- ===== src/Llm/Fallback/Attempts.antt =====
-- Which providers one invocation asks.
use agentic_ai_software_engi.Base.{
  Text, text_eq, Bool, true, false, ◌≡◌, refl, ◌≢◌, inl, inr, Option, none, some, List, [], ◌∷◌,
  arith, All, Bool-cases, is_set, subst, sym, ◌||◌, not, ◌==◌, opt_text, lower, strip, ℕ_discrete,
  or_text, first,
}
use agentic_ai_software_engi.Llm.Errors.{
  LlmError, Exception, is_fallback_eligible, classify_llm_exception,
}
use agentic_ai_software_engi.Llm.Provider.{
  Settings, clean, has_provider_credentials, preferred, is_known, choose, nvidia, gemini, openai,
  select, is_excluded, fallback_order, get_fallback_provider,
}
use agentic_ai_software_engi.Llm.Fallback.{
  Answer, returned, failed, asked, finish, third_client, third_attempt, after_second, second_client,
  second_attempt, after_first, is_rate_limit_error, invoke_structured,
}

-- What holds of a provider that is chosen: it is one of the known ones, spelled as they are, has
-- credentials, and is not one of the excluded.
abbrev pub IsEligible : Settings → Text → Option Text → Text → Type 0
IsEligible s primary exclude p =
    (clean p ≡ p) × (has_provider_credentials s p ≡ true) × (is_excluded primary exclude p ≡ false)

clean-nvidia : clean nvidia ≡ nvidia
unfolding clean nvidia strip lower ℕ_discrete
clean-nvidia = refl

clean-gemini : clean gemini ≡ gemini
unfolding clean gemini strip lower ℕ_discrete
clean-gemini = refl

clean-openai : clean openai ≡ openai
unfolding clean openai strip lower ℕ_discrete
clean-openai = refl

is_known-clean : (c : Text) → (is_known c ≡ true) → clean c ≡ c
is_known-clean c h = ground (arith, clean-nvidia, clean-gemini, clean-openai)

fallback_order-clean : (p : Text) → All (λ c. clean c ≡ c) (fallback_order p)
unfolding fallback_order
fallback_order-clean p = ground (arith, clean-nvidia, clean-gemini, clean-openai)

first-some :
    (p : Text → Bool) (xs : List Text) (x : Text)
    → All (λ c. clean c ≡ c) xs
    → (first p xs ≡ some x)
    → (clean x ≡ x) × (p x ≡ true)
first-some p [] x k h = ground arith
first-some p (y ∷ xs) x k h = ground (arith, first-some p xs x k.1)

preferred-IsEligible :
    (s : Settings) (primary : Text) (exclude : Option Text) (p : Text)
    → (preferred s primary exclude ≡ some p)
    → IsEligible s primary exclude p
unfolding preferred
preferred-IsEligible s primary exclude p h =
    ground (arith, first-some _ (fallback_order primary) p (fallback_order-clean primary) h)

choose-IsEligible :
    (s : Settings) (primary : Text) (c p : Text)
    → (choose s primary none c ≡ some p)
    → IsEligible s primary none p
choose-IsEligible s primary c p h =
    ground (arith, is_known-clean c, preferred-IsEligible s primary none p)

select-IsEligible :
    (s : Settings) (primary : Text) (exclude : Option Text) (p : Text)
    → (select s primary exclude ≡ some p)
    → IsEligible s primary exclude p
select-IsEligible s primary none p h = ground (
  arith,
  choose-IsEligible s primary (clean (opt_text s.explicit_fallback)) p,
  preferred-IsEligible s primary none p,
)
select-IsEligible s primary (some x) p h = preferred-IsEligible s primary (some x) p h

-- A provider that stands in for another has credentials, and is neither the primary one nor the one
-- that is excluded.
pub get_fallback_provider-IsEligible :
    (s : Settings) (primary : Text) (exclude : Option Text) (p : Text)
    → (get_fallback_provider s primary exclude ≡ some p)
    → IsEligible s (clean (or_text primary s.llm_provider)) exclude p
unfolding get_fallback_provider
get_fallback_provider-IsEligible s primary exclude p h =
    ground (arith, select-IsEligible s (clean (or_text primary s.llm_provider)) exclude p)

not_excluded :
    (p b c d : Text)
    → (is_set (some p) ≡ true)
    → (clean p ≡ p)
    → (clean b ≡ b)
    → (is_excluded (clean (or_text p d)) (some b) c ≡ false)
    → (c ≢ p) × (c ≢ b)
not_excluded [] b c d h k l e = ground arith
not_excluded (x ∷ p) b c d h k l e = ground arith

module _ {ℓ} {A : Type ℓ} (settings : Settings) (build_fails : Text → Option Exception)
    (invoke : Text → Answer A) where
  -- The first provider has failed in a way that allows for another one.
  abbrev MayFallBack : Text → Answer A → Type 0
  MayFallBack p (returned a) = ⊥
  MayFallBack p (failed e) = is_fallback_eligible (classify_llm_exception (some p) e) ≡ true

  abbrev IsRateLimited : Text → Answer A → Type 0
  IsRateLimited p (returned a) = ⊥
  IsRateLimited p (failed e) = is_rate_limit_error (classify_llm_exception (some p) e) ≡ true

  abbrev HasCredentials : Text → Type 0
  HasCredentials p = has_provider_credentials settings p ≡ true

  -- The second provider has its reasons, and the third one, where it is asked.
  abbrev pub Justified : Text → List Text → Type 0
  Justified p [] = ⊥
  Justified p (a ∷ []) = a ≡ p
  Justified p (a ∷ b ∷ []) = (a ≡ p) × (b ≢ p) × HasCredentials b × MayFallBack p (invoke p)
  Justified p (a ∷ b ∷ c ∷ []) =
      (a ≡ p)
      × (b ≢ p)
      × HasCredentials b
      × MayFallBack p (invoke p)
      × (c ≢ p)
      × (c ≢ b)
      × HasCredentials c
      × IsRateLimited b (invoke b)
  Justified p (a ∷ b ∷ c ∷ d ∷ ps) = ⊥

  abbrev SecondOk : Text → Text → Type 0
  SecondOk p b = (b ≢ p) × HasCredentials b × MayFallBack p (invoke p)

  abbrev ThirdOk : Text → Text → Text → Type 0
  ThirdOk p b c = (c ≢ p) × (c ≢ b) × HasCredentials c

  finish-Justified :
      (p b c : Text) (a : Answer A)
      → SecondOk p b
      → ThirdOk p b c
      → IsRateLimited b (invoke b)
      → Justified p (asked (finish settings build_fails invoke c (p ∷ b ∷ c ∷ []) a))
  finish-Justified p b c (returned a) h k l = (refl, h.0, h.1, h.2, k.0, k.1, k.2, l)
  finish-Justified p b c (failed e) h k l = (refl, h.0, h.1, h.2, k.0, k.1, k.2, l)

  third_client-Justified :
      (p b c : Text) (o : Option Exception)
      → SecondOk p b
      → ThirdOk p b c
      → IsRateLimited b (invoke b)
      → Justified p (asked (third_client settings build_fails invoke p b c o))
  third_client-Justified p b c none h k l = finish-Justified p b c (invoke c) h k l
  third_client-Justified p b c (some e) h k l = (refl, h.0, h.1, h.2)

  third_attempt-Justified :
      (p b : Text) (e : LlmError) (o : Option Text)
      → SecondOk p b
      → ((c : Text) → (o ≡ some c) → ThirdOk p b c)
      → IsRateLimited b (invoke b)
      → Justified p (asked (third_attempt settings build_fails invoke p b e o))
  third_attempt-Justified p b e none h k l = (refl, h.0, h.1, h.2)
  third_attempt-Justified p b e (some []) h k l = (refl, h.0, h.1, h.2)
  third_attempt-Justified p b e (some (c ∷ cs)) h k l =
      third_client-Justified p b (c ∷ cs) (build_fails (c ∷ cs)) h (k (c ∷ cs) refl) l

  after_second-Justified :
      (p b : Text) (a : Answer A)
      → (invoke b ≡ a)
      → SecondOk p b
      → ((c : Text) → (get_fallback_provider settings p (some b) ≡ some c) → ThirdOk p b c)
      → Justified p (asked (after_second settings build_fails invoke p b a))
  after_second-Justified p b (returned a) e h k = (refl, h.0, h.1, h.2)
  after_second-Justified p b (failed x) e h k =
      let error_b = classify_llm_exception (some b) x in
      elim (Bool-cases (is_rate_limit_error error_b)) [
        | inr off ↦ rw off (refl, h.0, h.1, h.2)
        | inl on ↦ rw on (
            third_attempt-Justified p b error_b (get_fallback_provider settings p (some b)) h k
              (subst (IsRateLimited b) (sym e) on))
      ]

  second_client-Justified :
      (p b : Text) (e : LlmError) (o : Option Exception)
      → SecondOk p b
      → ((c : Text) → (get_fallback_provider settings p (some b) ≡ some c) → ThirdOk p b c)
      → Justified p (asked (second_client settings build_fails invoke p b e o))
  second_client-Justified p b e (some x) h k = refl
  second_client-Justified p b e none h k = after_second-Justified p b (invoke b) refl h k

  second_attempt-Justified :
      (p : Text) (e : LlmError) (o : Option Text)
      → MayFallBack p (invoke p)
      → ((b : Text) → (o ≡ some b) → HasCredentials b × (clean b ≡ b))
      → ((b c : Text)
          → (clean b ≡ b)
          → (get_fallback_provider settings p (some b) ≡ some c)
          → ThirdOk p b c)
      → Justified p (asked (second_attempt settings build_fails invoke p e o))
  second_attempt-Justified p e none h k l = refl
  second_attempt-Justified p e (some b) h k l =
      elim (Bool-cases (not (is_set (some b)) || b == p)) [
        | inl off ↦ rw off refl
        | inr on ↦ rw on (
            second_client-Justified p b e (build_fails b) (ground arith, (k b refl).0, h)
              (λ c. l b c (k b refl).1))
      ]

  after_first-Justified :
      (p : Text) (a : Answer A)
      → (invoke p ≡ a)
      → ((b : Text)
          → (get_fallback_provider settings p none ≡ some b)
          → HasCredentials b × (clean b ≡ b))
      → ((b c : Text)
          → (clean b ≡ b)
          → (get_fallback_provider settings p (some b) ≡ some c)
          → ThirdOk p b c)
      → Justified p (asked (after_first settings build_fails invoke p a))
  after_first-Justified p (returned a) e k l = refl
  after_first-Justified p (failed x) e k l =
      let error_p = classify_llm_exception (some p) x in
      elim (Bool-cases (is_fallback_eligible error_p)) [
        | inr off ↦ rw off refl
        | inl on ↦ rw on (
            second_attempt-Justified p error_p (get_fallback_provider settings p none)
              (subst (MayFallBack p) (sym e) on) k l)
      ]

  -- An invocation asks the primary provider; a second one only if the failure of the first allows for
  -- it; a third one only if the second was rate limited; and no more. The later ones have
  -- credentials, and no provider is asked twice. The primary one is named, without blanks or capitals.
  pub invoke_structured-Justified :
      (p : Text)
      → (is_set (some p) ≡ true)
      → (clean p ≡ p)
      → Justified p (asked (invoke_structured settings build_fails invoke p))
  unfolding invoke_structured
  invoke_structured-Justified p h k =
      after_first-Justified p (invoke p) refl
        (λ b e. let c = get_fallback_provider-IsEligible settings p none b e in (c.1, c.0))
        (λ b c same e.
          let x = get_fallback_provider-IsEligible settings p (some b) c e in
          let (other, differs) = not_excluded p b c settings.llm_provider h k same x.2 in
          (other, differs, x.1))
