-- ===== src/Llm/Errors/Eligible.antt =====
-- Which failures may lead to another provider.
use agentic_ai_software_engi.Base.{Text, true, false, ◌≡◌, Bool, ◌↔◌, ◌⊎◌, Option, arith}
use agentic_ai_software_engi.Llm.Errors.{
  ForeignException, structured, foreign, is_fallback_eligible, is_timeout, is_authentication,
  is_rate_limit, is_malformed_response, is_invalid_request, is_transient, kind_of,
  classify_llm_exception,
}
use agentic_ai_software_engi.Llm.Errors.Signs.{
  LooksTimedOut, LooksForbidden, LooksLimited, LooksMalformed, LooksInvalid, LooksTransient,
  is_timeout-LooksTimedOut, is_authentication-LooksForbidden, is_rate_limit-LooksLimited,
  is_malformed_response-LooksMalformed, is_invalid_request-LooksInvalid,
  is_transient-LooksTransient,
}

is_fallback_eligible-signs :
    (provider : Option Text) (e : ForeignException)
    → (is_fallback_eligible (classify_llm_exception provider (foreign e)) ≡ true) ↔ (
        (is_timeout e ≡ true)
        ⊎ ((is_authentication e ≡ false)
            × ((is_rate_limit e ≡ true)
                ⊎ (is_malformed_response e ≡ true)
                ⊎ ((is_invalid_request e ≡ false) × (is_transient e ≡ true)))))
unfolding is_fallback_eligible classify_llm_exception kind_of
is_fallback_eligible-signs provider e = ground arith

-- The tests, each with what it says.
signs-said :
    {T : Type 0} {A : Type 0} {L : Type 0} {M : Type 0} {I : Type 0} {R : Type 0}
    (t a l m i r : Bool)
    → ((t ≡ true) ↔ T)
    → ((a ≡ true) ↔ A)
    → ((l ≡ true) ↔ L)
    → ((m ≡ true) ↔ M)
    → ((i ≡ true) ↔ I)
    → ((r ≡ true) ↔ R)
    → ((t ≡ true) ⊎ ((a ≡ false) × ((l ≡ true) ⊎ (m ≡ true) ⊎ ((i ≡ false) × (r ≡ true)))))
      ↔ (T ⊎ ((¬ A) × (L ⊎ M ⊎ ((¬ I) × R))))
signs-said t a l m i r x p q y u v = ground (arith, x, p, q, y, u, v)

-- A foreign exception may lead to another provider exactly if its type or message speaks of a timeout,
-- whatever its status; or else it is not forbidden (status 401 or 403, or words for that) and is rate
-- limited (429, or words), or its type or message speaks of a malformed response, or it is
-- transient (500 to 599, or words) and not an invalid request (400 or 422, or words). The words are
-- those that Llm/Errors/Signs lists. To classify the outcome again changes nothing.
pub classify_llm_exception-eligible :
    (provider : Option Text) (e : ForeignException)
    → ((is_fallback_eligible (classify_llm_exception provider (foreign e)) ≡ true) ↔ (
        LooksTimedOut e
        ⊎ ((¬ LooksForbidden e)
            × (LooksLimited e ⊎ LooksMalformed e ⊎ ((¬ LooksInvalid e) × LooksTransient e)))))
      × (classify_llm_exception provider (structured (classify_llm_exception provider (foreign e)))
          ≡ classify_llm_exception provider (foreign e))
unfolding classify_llm_exception
classify_llm_exception-eligible provider e =
    let signs = is_fallback_eligible-signs provider e in
    let words =
      signs-said (is_timeout e) (is_authentication e) (is_rate_limit e) (is_malformed_response e)
        (is_invalid_request e) (is_transient e) (is_timeout-LooksTimedOut e)
        (is_authentication-LooksForbidden e) (is_rate_limit-LooksLimited e)
        (is_malformed_response-LooksMalformed e) (is_invalid_request-LooksInvalid e)
        (is_transient-LooksTransient e) in
    (((λ h. words.0 (signs.0 h)), (λ h. signs.1 (words.1 h))), ground arith)
