-- ===== src/Llm/Errors.antt =====
-- backend/services/errors.py: from any exception to the structured hierarchy. Messages and the
-- original exception are left out.
pub mod Signs
pub mod Eligible
use agentic_ai_software_engi.Base.{
  ℕ, Text, codes, text_eq, nat_eq, Bool, true, false, ◌&&◌, ◌||◌, not, Option, none, some, List, [],
  ◌∷◌, ◌==◌, leb, if◌then◌else◌, lower, contains, any, elem, is_set,
}

-- The classes of the hierarchy; a malformed response is a kind of transient failure.
pub data Kind : Type 0 where
  timeout transient malformed_response rate_limit authentication invalid_request permanent : Kind

pub record LlmError : Type 0 where
  pub kind : Kind
  pub provider : Option Text

-- The attribute `status_code`, or else `code`: a number, or anything else.
pub data Status : Type 0 where
  number : ℕ → Status
  symbol : Text → Status

pub record ForeignException : Type 0 where
  pub type_name : Text
  pub message : Text
  pub status_code : Option Status

pub data Exception : Type 0 where
  structured : LlmError → Exception
  foreign : ForeignException → Exception

-- `isinstance(error, (LLMTimeoutError, LLMTransientError, LLMRateLimitError))`
unfoldable pub is_fallback_eligible : LlmError → Bool
is_fallback_eligible e = elim e.kind [
  | timeout ↦ true
  | transient ↦ true
  | malformed_response ↦ true
  | rate_limit ↦ true
  | _ ↦ false
]

-- One of the words stands in the text.
abbrev mentions : Text → List Text → Bool
mentions s words = any (λ w. contains s w) words

abbrev pub has_status : Option Status → List ℕ → Bool
has_status (some (number n)) ns = elem n ns
has_status _ ns = false

abbrev pub is_server_status : Option Status → Bool
is_server_status (some (number n)) = leb 500 n && leb n 599
is_server_status _ = false

abbrev exc_type : ForeignException → Text
exc_type e = lower e.type_name

abbrev exc_str : ForeignException → Text
exc_str e = lower e.message

unfoldable pub is_timeout : ForeignException → Bool
is_timeout e =
    mentions (exc_type e) (codes "timeout" ∷ codes "timeoutexception" ∷ [])
    || mentions (exc_str e) (
        codes "readtimedout"
        ∷ codes "connecttimedout"
        ∷ codes "timed out"
        ∷ codes "deadline exceeded"
        ∷ codes "socket timeout"
        ∷ codes "request timed out"
        ∷ [])

unfoldable pub is_authentication : ForeignException → Bool
is_authentication e =
    has_status e.status_code (401 ∷ 403 ∷ [])
    || (mentions (exc_type e) (codes "authentication" ∷ codes "permissiondenied" ∷ [])
        || (mentions (exc_str e) (codes "unauthorized" ∷ codes "invalid api key" ∷ [])
            || ((contains (exc_str e) (codes "api_key")
                  && mentions (exc_str e)
                      (codes "invalid" ∷ codes "missing" ∷ codes "expired" ∷ []))
                || mentions (exc_str e)
                    (codes "forbidden" ∷ codes "401" ∷ codes "permission denied" ∷ []))))

unfoldable pub is_rate_limit : ForeignException → Bool
is_rate_limit e =
    has_status e.status_code (429 ∷ [])
    || (mentions (exc_type e) (codes "ratelimit" ∷ codes "resourceexhausted" ∷ [])
        || mentions (exc_str e) (
            codes "429"
            ∷ codes "too many requests"
            ∷ codes "rate limit"
            ∷ codes "quota exceeded"
            ∷ []))

unfoldable pub is_malformed_response : ForeignException → Bool
is_malformed_response e =
    mentions (exc_type e)
      (codes "jsondecodeerror" ∷ codes "outputparserexception" ∷ codes "outputparser" ∷ [])
    || (mentions (exc_str e) (
          codes "json_invalid"
          ∷ codes "expecting value"
          ∷ codes "eof while parsing"
          ∷ codes "unterminated string"
          ∷ codes "unterminated array"
          ∷ codes "unterminated object"
          ∷ [])
        || ((contains (exc_str e) (codes "extra data") && contains (exc_str e) (codes "json"))
            || (contains (exc_str e) (codes "malformed")
                && not (contains (exc_str e) (codes "malformed request")))))

unfoldable pub is_invalid_request : ForeignException → Bool
is_invalid_request e =
    has_status e.status_code (400 ∷ 422 ∷ [])
    || (mentions (exc_type e)
          (codes "badrequest" ∷ codes "validationerror" ∷ codes "invalidargument" ∷ [])
        || ((contains (exc_str e) (codes "400") && contains (exc_str e) (codes "bad request"))
            || mentions (exc_str e) (
                codes "context window"
                ∷ codes "maximum context length"
                ∷ codes "schema"
                ∷ codes "malformed request"
                ∷ [])))

unfoldable pub is_transient : ForeignException → Bool
is_transient e =
    is_server_status e.status_code
    || (mentions (exc_type e) (
          codes "connectionerror"
          ∷ codes "internalservererror"
          ∷ codes "badgateway"
          ∷ codes "serviceunavailable"
          ∷ codes "gatewaytimeout"
          ∷ codes "networkerror"
          ∷ [])
        || mentions (exc_str e) (
            codes "500"
            ∷ codes "502"
            ∷ codes "503"
            ∷ codes "504"
            ∷ codes "connection reset"
            ∷ codes "connection refused"
            ∷ codes "server error"
            ∷ codes "service unavailable"
            ∷ []))

-- The rules in their order.
unfoldable pub kind_of : ForeignException → Kind
kind_of e =
    if is_timeout e
    then timeout
    else if is_authentication e
    then authentication
    else if is_rate_limit e
    then rate_limit
    else if is_malformed_response e
    then malformed_response
    else if is_invalid_request e
    then invalid_request
    else if is_transient e
    then transient
    else permanent

-- An error that is structured already only gains a provider, where it has none.
unfoldable pub classify_llm_exception : Option Text → Exception → LlmError
classify_llm_exception provider (structured e) =
    if is_set provider && not (is_set e.provider) then record e { provider = provider } else e
classify_llm_exception provider (foreign e) = record { kind = kind_of e; provider = provider }
