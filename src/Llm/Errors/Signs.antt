-- ===== src/Llm/Errors/Signs.antt =====
-- The signs by which services/errors.py tells failures, with their statuses and words written out.
use agentic_ai_software_engi.Base.{
  ℕ, ◌≤◌, Text, codes, text_eq, nat_eq, true, ◌≡◌, refl, ◌↔◌, ◌⊎◌, Option, none, some, List, [],
  ◌∷◌, arith, lower, contains, Some,
}
use agentic_ai_software_engi.Llm.Errors.{
  Status, number, symbol, has_status, is_server_status, ForeignException, is_timeout,
  is_authentication, is_rate_limit, is_malformed_response, is_invalid_request, is_transient,
}

abbrev pub HasStatus : ForeignException → ℕ → Type 0
HasStatus e n = e.status_code ≡ some (number n)

-- The name of the exception's type, in small letters, holds one of the words.
abbrev pub IsNamed : ForeignException → List Text → Type 0
IsNamed e words = Some (λ w. contains (lower e.type_name) w ≡ true) words

-- Its message, in small letters, holds one of the words.
abbrev pub Says : ForeignException → List Text → Type 0
Says e words = Some (λ w. contains (lower e.message) w ≡ true) words

abbrev pub SaysOne : ForeignException → Text → Type 0
SaysOne e w = contains (lower e.message) w ≡ true

abbrev pub LooksTimedOut : ForeignException → Type 0
LooksTimedOut e =
    IsNamed e (codes "timeout" ∷ codes "timeoutexception" ∷ [])
    ⊎ Says e (
        codes "readtimedout"
        ∷ codes "connecttimedout"
        ∷ codes "timed out"
        ∷ codes "deadline exceeded"
        ∷ codes "socket timeout"
        ∷ codes "request timed out"
        ∷ [])

abbrev pub LooksForbidden : ForeignException → Type 0
LooksForbidden e =
    (HasStatus e 401 ⊎ HasStatus e 403)
    ⊎ IsNamed e (codes "authentication" ∷ codes "permissiondenied" ∷ [])
    ⊎ Says e (codes "unauthorized" ∷ codes "invalid api key" ∷ [])
    ⊎ (SaysOne e (codes "api_key")
        × Says e (codes "invalid" ∷ codes "missing" ∷ codes "expired" ∷ []))
    ⊎ Says e (codes "forbidden" ∷ codes "401" ∷ codes "permission denied" ∷ [])

abbrev pub LooksLimited : ForeignException → Type 0
LooksLimited e =
    HasStatus e 429
    ⊎ IsNamed e (codes "ratelimit" ∷ codes "resourceexhausted" ∷ [])
    ⊎ Says e
        (codes "429" ∷ codes "too many requests" ∷ codes "rate limit" ∷ codes "quota exceeded" ∷ [])

abbrev pub LooksMalformed : ForeignException → Type 0
LooksMalformed e =
    IsNamed e (codes "jsondecodeerror" ∷ codes "outputparserexception" ∷ codes "outputparser" ∷ [])
    ⊎ Says e (
        codes "json_invalid"
        ∷ codes "expecting value"
        ∷ codes "eof while parsing"
        ∷ codes "unterminated string"
        ∷ codes "unterminated array"
        ∷ codes "unterminated object"
        ∷ [])
    ⊎ (SaysOne e (codes "extra data") × SaysOne e (codes "json"))
    ⊎ (SaysOne e (codes "malformed") × (¬ SaysOne e (codes "malformed request")))

abbrev pub LooksInvalid : ForeignException → Type 0
LooksInvalid e =
    (HasStatus e 400 ⊎ HasStatus e 422)
    ⊎ IsNamed e (codes "badrequest" ∷ codes "validationerror" ∷ codes "invalidargument" ∷ [])
    ⊎ (SaysOne e (codes "400") × SaysOne e (codes "bad request"))
    ⊎ Says e (
        codes "context window"
        ∷ codes "maximum context length"
        ∷ codes "schema"
        ∷ codes "malformed request"
        ∷ [])

abbrev pub LooksTransient : ForeignException → Type 0
LooksTransient e =
    ((n : ℕ) × HasStatus e n × (500 ≤ n) × (n ≤ 599))
    ⊎ IsNamed e (
        codes "connectionerror"
        ∷ codes "internalservererror"
        ∷ codes "badgateway"
        ∷ codes "serviceunavailable"
        ∷ codes "gatewaytimeout"
        ∷ codes "networkerror"
        ∷ [])
    ⊎ Says e (
        codes "500"
        ∷ codes "502"
        ∷ codes "503"
        ∷ codes "504"
        ∷ codes "connection reset"
        ∷ codes "connection refused"
        ∷ codes "server error"
        ∷ codes "service unavailable"
        ∷ [])

has_status-one :
    (o : Option Status) (a : ℕ) → (has_status o (a ∷ []) ≡ true) ↔ (o ≡ some (number a))
has_status-one none a = ground arith
has_status-one (some (symbol s)) a = ground arith
has_status-one (some (number n)) a = ground arith

has_status-two :
    (o : Option Status) (a b : ℕ)
    → (has_status o (a ∷ b ∷ []) ≡ true) ↔ ((o ≡ some (number a)) ⊎ (o ≡ some (number b)))
has_status-two none a b = ground arith
has_status-two (some (symbol s)) a b = ground arith
has_status-two (some (number n)) a b = ground arith

is_server_status-range :
    (o : Option Status)
    → (is_server_status o ≡ true) ↔ ((n : ℕ) × (o ≡ some (number n)) × (500 ≤ n) × (n ≤ 599))
is_server_status-range none = ((λ h. ground arith), (λ (n, e, l, u). ground (arith, e)))
is_server_status-range (some (symbol s)) =
    ((λ h. ground arith), (λ (n, e, l, u). ground (arith, e)))
is_server_status-range (some (number m)) =
    ((λ h. (m, refl, ground arith, ground arith)), (λ (n, e, l, u). ground (arith, e, l, u)))

pub is_timeout-LooksTimedOut : (e : ForeignException) → (is_timeout e ≡ true) ↔ LooksTimedOut e
unfolding is_timeout
is_timeout-LooksTimedOut e = ground arith

pub is_authentication-LooksForbidden :
    (e : ForeignException) → (is_authentication e ≡ true) ↔ LooksForbidden e
unfolding is_authentication
is_authentication-LooksForbidden e = ground (arith, has_status-two e.status_code 401 403)

pub is_rate_limit-LooksLimited : (e : ForeignException) → (is_rate_limit e ≡ true) ↔ LooksLimited e
unfolding is_rate_limit
is_rate_limit-LooksLimited e = ground (arith, has_status-one e.status_code 429)

pub is_malformed_response-LooksMalformed :
    (e : ForeignException) → (is_malformed_response e ≡ true) ↔ LooksMalformed e
unfolding is_malformed_response
is_malformed_response-LooksMalformed e = ground arith

pub is_invalid_request-LooksInvalid :
    (e : ForeignException) → (is_invalid_request e ≡ true) ↔ LooksInvalid e
unfolding is_invalid_request
is_invalid_request-LooksInvalid e = ground (arith, has_status-two e.status_code 400 422)

pub is_transient-LooksTransient :
    (e : ForeignException) → (is_transient e ≡ true) ↔ LooksTransient e
unfolding is_transient
is_transient-LooksTransient e = ground (arith, is_server_status-range e.status_code)
