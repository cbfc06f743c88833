-- ===== src/Examples/Security.antt =====
-- The audit log, the idempotency store and the fallback of providers at concrete inputs.
use agentic_ai_software_engi.Base.{
  ℕ, Text, codes, text_eq, pair_eq, ℕ_discrete, true, ◌≡◌, refl, ◌≢◌, ◌↔◌, ◌⊎◌, Option, none, some,
  List, [], ◌∷◌, ◌++◌, is_set, strip, lower,
}
use agentic_ai_software_engi.Base.Dict.{lookup}
use agentic_ai_software_engi.Security.Audit.{
  Json, empty, field, Payload, AuditEvent, cleared, genesis, Entry, intact, event_of, payload_of,
  log_all, verify_chain, verify_integrity, sanitize_audit_details,
}
use agentic_ai_software_engi.Security.Audit.Chain.{log_all-intact}
use agentic_ai_software_engi.Security.Audit.Tampering.{verify_chain-determines}
use agentic_ai_software_engi.Security.Audit.Redaction.{
  IsRedacted, sanitize_audit_details-IsRedacted,
}
use agentic_ai_software_engi.Security.Idempotency.{
  Value, scalar, mapping, Fields, no_fields, entry, new, replay, conflict, compute_fingerprint,
  compute_key_hash, check_or_reserve,
}
use agentic_ai_software_engi.Security.Idempotency.Replay.{
  SameRequest, Call, complete, apply_all, check_or_reserve-replay,
}
use agentic_ai_software_engi.Llm.Errors.{
  Exception, foreign, ForeignException, structured, number, is_fallback_eligible,
  classify_llm_exception,
}
use agentic_ai_software_engi.Llm.Errors.Eligible.{classify_llm_exception-eligible}
use agentic_ai_software_engi.Llm.Errors.Signs.{
  LooksTimedOut, LooksForbidden, LooksLimited, LooksMalformed, LooksInvalid, LooksTransient,
}
use agentic_ai_software_engi.Llm.Provider.{Settings, nvidia, clean}
use agentic_ai_software_engi.Llm.Fallback.{Answer, failed, asked, invoke_structured}
use agentic_ai_software_engi.Llm.Fallback.Attempts.{Justified, invoke_structured-Justified}

-- A stand-in for the hash of a payload that shows what it names.
abbrev plain_digest : Payload → Text
plain_digest p = p.event_id ++ p.previous_hash

abbrev login : Text → Text → Entry
login id organization = record {
  event_id = id;
  timestamp = codes "t";
  organization_id = organization;
  user_id = codes "ann";
  action = codes "AUTHENTICATION_SUCCESS";
  resource_type = codes "user";
  resource_id = codes "ann";
  details = field (codes "password") (Json.text (codes "hunter2hunter2")) empty;
}

abbrev acme_then_evil : List Entry
acme_then_evil =
    login (codes "1") (codes "acme")
    ∷ login (codes "2") (codes "evil")
    ∷ login (codes "3") (codes "acme")
    ∷ []

log_all-intact_example :
    verify_integrity plain_digest (codes "acme") (log_all plain_digest acme_then_evil cleared)
    ≡ intact
log_all-intact_example = log_all-intact plain_digest acme_then_evil (codes "acme")

abbrev first_event : AuditEvent
first_event = event_of plain_digest (login (codes "1") (codes "acme")) genesis

first_event-intact : verify_chain plain_digest genesis 0 (first_event ∷ []) ≡ intact
unfolding verify_chain event_of payload_of genesis text_eq
first_event-intact = refl

verify_chain-determines_example : (first_event ∷ [] ≡ first_event ∷ []) × (genesis ≡ genesis)
verify_chain-determines_example =
    verify_chain-determines plain_digest genesis genesis 0 0 (first_event ∷ []) (first_event ∷ [])
      refl (((λ e. refl), tt), tt) first_event-intact first_event-intact refl

sanitize_audit_details-IsRedacted_example :
    IsRedacted
      (sanitize_audit_details (field (codes "password") (Json.text (codes "hunter2hunter2")) empty))
sanitize_audit_details-IsRedacted_example =
    sanitize_audit_details-IsRedacted
      (field (codes "password") (Json.text (codes "hunter2hunter2")) empty)

-- Stand-ins for SHA-256.
abbrev plain_sha : Text → Text
plain_sha t = t

abbrev plain_value : Value → Text
plain_value (mapping (entry k (scalar s) fs)) = k ++ s
plain_value v = []

abbrev ask_for_x : Fields
ask_for_x = entry (codes "message") (scalar (codes "x")) no_fields

abbrev ask_again : Fields
ask_again = entry (codes "run_id") (scalar (codes "r2")) ask_for_x

reserved_x :
    (check_or_reserve plain_sha plain_value
      (codes "acme")
      (codes "k")
      (codes "start")
      ask_for_x
      (codes "r1")
      []).0
    ≡ new (codes "r1")
unfolding check_or_reserve compute_key_hash lookup
reserved_x = refl

abbrev between : List Call
between = complete (codes "acme") (codes "k") (codes "start") (codes "COMPLETED") none ∷ []

check_or_reserve-replay_example :
    (SameRequest ask_again ask_for_x
      → (response : Option Value) × ((check_or_reserve plain_sha plain_value
            (codes "acme")
            (codes "k")
            (codes "start")
            ask_again
            (codes "r2")
            (apply_all plain_sha plain_value between
              (check_or_reserve plain_sha plain_value
                (codes "acme")
                (codes "k")
                (codes "start")
                ask_for_x
                (codes "r1")
                []).1)).0
          ≡ replay (codes "r1") response))
    × ((compute_fingerprint plain_sha plain_value ask_again
          ≢ compute_fingerprint plain_sha plain_value ask_for_x)
        → (check_or_reserve plain_sha plain_value
            (codes "acme")
            (codes "k")
            (codes "start")
            ask_again
            (codes "r2")
            (apply_all plain_sha plain_value between
              (check_or_reserve plain_sha plain_value
                (codes "acme")
                (codes "k")
                (codes "start")
                ask_for_x
                (codes "r1")
                []).1)).0
          ≡ conflict)
check_or_reserve-replay_example =
    check_or_reserve-replay plain_sha plain_value between (codes "acme") (codes "k") (codes "start")
      (codes "r1") (codes "r2") ask_for_x ask_again [] reserved_x

abbrev too_many : ForeignException
too_many = record {
  type_name = codes "ClientError";
  message = codes "too many requests";
  status_code = some (number 429);
}

classify_llm_exception-eligible_example :
    ((is_fallback_eligible (classify_llm_exception (some nvidia) (foreign too_many)) ≡ true) ↔ (
      LooksTimedOut too_many
      ⊎ ((¬ LooksForbidden too_many)
          × (LooksLimited too_many
              ⊎ LooksMalformed too_many
              ⊎ ((¬ LooksInvalid too_many) × LooksTransient too_many)))))
    × (classify_llm_exception
          (some nvidia)
          (structured (classify_llm_exception (some nvidia) (foreign too_many)))
        ≡ classify_llm_exception (some nvidia) (foreign too_many))
classify_llm_exception-eligible_example = classify_llm_exception-eligible (some nvidia) too_many

abbrev all_keys : Settings
all_keys = record {
  fallback_enabled = true;
  llm_provider = codes "nvidia";
  explicit_fallback = none;
  nvidia_key = true;
  google_key = true;
  openai_key = true;
}

abbrev always_limited : Text → Answer ℕ
always_limited p = failed (foreign too_many)

abbrev all_build : Text → Option Exception
all_build p = none

nvidia-is_set : is_set (some nvidia) ≡ true
unfolding nvidia
nvidia-is_set = refl

nvidia-clean : clean nvidia ≡ nvidia
unfolding nvidia clean strip lower ℕ_discrete
nvidia-clean = refl

invoke_structured-Justified_example :
    Justified all_keys all_build always_limited nvidia
      (asked (invoke_structured all_keys all_build always_limited nvidia))
invoke_structured-Justified_example =
    invoke_structured-Justified all_keys all_build always_limited nvidia nvidia-is_set nvidia-clean
