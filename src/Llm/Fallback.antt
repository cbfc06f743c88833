-- ===== src/Llm/Fallback.antt =====
-- `invoke_structured` of backend/observability/telemetry.py: up to three providers in a row. How each
-- provider answers, and whether its client can be built, are arguments; telemetry is left out.
pub mod Attempts
use agentic_ai_software_engi.Base.{
  Text, text_eq, Bool, true, false, ◌||◌, not, Option, none, some, List, [], ◌∷◌, ◌==◌,
  if◌then◌else◌, is_set, opt_text,
}
use agentic_ai_software_engi.Llm.Errors.{
  Kind, rate_limit, LlmError, Exception, is_fallback_eligible, classify_llm_exception,
}
use agentic_ai_software_engi.Llm.Provider.{Settings, get_fallback_provider}

pub data Answer {ℓ} (A : Type ℓ) : Type ℓ where
  returned : A → Answer A
  failed : Exception → Answer A

-- The result, or the structured error that is raised, with the providers that were asked in turn.
pub data Invocation {ℓ} (A : Type ℓ) : Type ℓ where
  result : A → List Text → Invocation A
  error : LlmError → List Text → Invocation A

abbrev pub asked {ℓ} : {A : Type ℓ} → Invocation A → List Text
asked (result a ps) = ps
asked (error e ps) = ps

abbrev pub is_rate_limit_error : LlmError → Bool
is_rate_limit_error e = elim e.kind [ rate_limit ↦ true | _ ↦ false ]

module _ {ℓ} {A : Type ℓ} (settings : Settings) (build_fails : Text → Option Exception)
    (invoke : Text → Answer A) where
  -- The last attempt: a client that cannot be built counts as a failed call.
  abbrev pub finish : Text → List Text → Answer A → Invocation A
  finish p ps (returned a) = result a ps
  finish p ps (failed e) = error (classify_llm_exception (some p) e) ps

  abbrev pub third_client : Text → Text → Text → Option Exception → Invocation A
  third_client primary second third (some e) =
      error (classify_llm_exception (some third) e) (primary ∷ second ∷ [])
  third_client primary second third none =
      finish third (primary ∷ second ∷ third ∷ []) (invoke third)

  abbrev pub third_attempt : Text → Text → LlmError → Option Text → Invocation A
  third_attempt primary second e none = error e (primary ∷ second ∷ [])
  third_attempt primary second e (some []) = error e (primary ∷ second ∷ [])
  third_attempt primary second e (some (c ∷ p)) =
      third_client primary second (c ∷ p) (build_fails (c ∷ p))

  abbrev pub after_second : Text → Text → Answer A → Invocation A
  after_second primary second (returned a) = result a (primary ∷ second ∷ [])
  after_second primary second (failed x) =
      let e = classify_llm_exception (some second) x in
      if is_rate_limit_error e
      then third_attempt primary second e (get_fallback_provider settings primary (some second))
      else error e (primary ∷ second ∷ [])

  abbrev pub second_client : Text → Text → LlmError → Option Exception → Invocation A
  second_client primary second e (some x) = error e (primary ∷ [])
  second_client primary second e none = after_second primary second (invoke second)

  abbrev pub second_attempt : Text → LlmError → Option Text → Invocation A
  second_attempt primary e none = error e (primary ∷ [])
  second_attempt primary e (some p) =
      if not (is_set (some p)) || p == primary
      then error e (primary ∷ [])
      else second_client primary p e (build_fails p)

  abbrev pub after_first : Text → Answer A → Invocation A
  after_first primary (returned a) = result a (primary ∷ [])
  after_first primary (failed x) =
      let e = classify_llm_exception (some primary) x in
      if not (is_fallback_eligible e)
      then error e (primary ∷ [])
      else second_attempt primary e (get_fallback_provider settings primary none)

  unfoldable pub invoke_structured : Text → Invocation A
  invoke_structured primary = after_first primary (invoke primary)
