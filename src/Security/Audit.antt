-- ===== src/Security/Audit.antt =====
-- backend/security/audit.py: the audit log with a hash chain for each organization.
pub mod Chain
pub mod Tampering
pub mod Redaction
use agentic_ai_software_engi.Base.{
  ℕ, zero, suc, ◌+◌, Text, codes, text_eq, Bool, true, false, ◌&&◌, ◌||◌, not, Option, none, some,
  List, [], ◌∷◌, ◌++◌, ◌==◌, elem, ltb, if◌then◌else◌, lower, contains, starts_with, length, any,
  keep,
}
use agentic_ai_software_engi.Base.Dict.{Dict, lookup, insert}

-- The details of an event: what is neither a text nor a dict is kept as its JSON text.
mutual
  pub data Json : Type 0 where
    text : Text → Json
    dict : Details → Json
    other : Text → Json

  pub data Details : Type 0 where
    empty : Details
    field : Text → Json → Details → Details

unfoldable pub sensitive_field_substrings : List Text
sensitive_field_substrings =
    codes "token"
    ∷ codes "secret"
    ∷ codes "key"
    ∷ codes "password"
    ∷ codes "auth"
    ∷ codes "credential"
    ∷ []

unfoldable pub secret_names : List Text
secret_names =
    codes "token" ∷ codes "api_key" ∷ codes "password" ∷ codes "secret" ∷ codes "github_token" ∷ []

unfoldable pub redacted : Text
redacted = codes "[REDACTED]"

unfoldable pub is_sensitive : Text → Bool
is_sensitive k = any (λ sub. contains (lower k) sub) sensitive_field_substrings

unfoldable pub is_secret_name : Text → Bool
is_secret_name k = elem (lower k) secret_names

-- A text of more than eight characters that does not start with "ak_".
unfoldable pub looks_secret : Json → Bool
looks_secret (text s) = ltb 8 (length s) && not (starts_with s (codes "ak_"))
looks_secret _ = false

unfoldable pub sanitize_sensitive : Text → Json → Json
sanitize_sensitive k v =
    if looks_secret v then text redacted else if is_secret_name k then text redacted else v

unfoldable pub sanitize_audit_details : Details → Details
sanitize_audit_details empty = empty
sanitize_audit_details (field k (text s) rest) =
    field k (if is_sensitive k then sanitize_sensitive k (text s) else text s)
      (sanitize_audit_details rest)
sanitize_audit_details (field k (other s) rest) =
    field k (if is_sensitive k then sanitize_sensitive k (other s) else other s)
      (sanitize_audit_details rest)
sanitize_audit_details (field k (dict d) rest) =
    let inner = sanitize_audit_details d in
    field k (if is_sensitive k then sanitize_sensitive k (dict d) else dict inner)
      (sanitize_audit_details rest)

-- The fields that `compute_hash` reads.
pub record Payload : Type 0 where
  pub event_id : Text
  pub organization_id : Text
  pub user_id : Text
  pub action : Text
  pub timestamp : Text
  pub resource_type : Text
  pub resource_id : Text
  pub details : Details
  pub previous_hash : Text

pub record AuditEvent : Type 0 where
  pub payload : Payload
  pub event_hash : Text

pub record AuditLogger : Type 0 where
  pub events : List AuditEvent
  pub last_hash_by_org : Dict Text Text

-- `AuditLogger()` and `clear`
abbrev pub cleared : AuditLogger
cleared = record { events = []; last_hash_by_org = [] }

abbrev zeros : ℕ → Text
zeros zero = []
zeros (suc n) = b'0' ∷ zeros n

unfoldable pub genesis : Text
genesis = zeros 64

-- The arguments of `log`, with the identifier and the time that the event is given.
pub record Entry : Type 0 where
  pub event_id : Text
  pub timestamp : Text
  pub organization_id : Text
  pub user_id : Text
  pub action : Text
  pub resource_type : Text
  pub resource_id : Text
  pub details : Details

abbrev pub or_genesis : Option Text → Text
or_genesis none = genesis
or_genesis (some h) = h

pub data Verdict : Type 0 where
  intact : Verdict
  chain_broken tampered : ℕ → Verdict

abbrev pub of_organization : Text → AuditEvent → Bool
of_organization organization e = e.payload.organization_id == organization

unfoldable pub payload_of : Entry → Text → Payload
payload_of e previous = record {
  event_id = e.event_id;
  organization_id = e.organization_id;
  user_id = e.user_id;
  action = e.action;
  timestamp = e.timestamp;
  resource_type = e.resource_type;
  resource_id = e.resource_id;
  details = sanitize_audit_details e.details;
  previous_hash = previous;
}

-- SHA-256 of the canonical JSON text of a payload.
module _ (compute_hash : Payload → Text) where
  unfoldable pub event_of : Entry → Text → AuditEvent
  event_of e previous = record {
    payload = payload_of e previous;
    event_hash = compute_hash (payload_of e previous);
  }

  unfoldable pub log : Entry → AuditLogger → AuditLogger
  log e l =
      let event = event_of e (or_genesis (lookup e.organization_id l.last_hash_by_org)) in
      record {
        events = l.events ++ (event ∷ []);
        last_hash_by_org = insert e.organization_id event.event_hash l.last_hash_by_org;
      }

  unfoldable pub log_all : List Entry → AuditLogger → AuditLogger
  log_all [] l = l
  log_all (e ∷ es) l = log_all es (log e l)

  -- The loop of `verify_integrity` over the events of one organization.
  unfoldable pub verify_chain : Text → ℕ → List AuditEvent → Verdict
  verify_chain expected_prev index [] = intact
  verify_chain expected_prev index (e ∷ es) =
      let rest = verify_chain e.event_hash (index + 1) es in
      if not (e.payload.previous_hash == expected_prev)
      then chain_broken index
      else if not (e.event_hash == compute_hash e.payload)
      then tampered index
      else rest

  unfoldable pub verify_integrity : Text → AuditLogger → Verdict
  verify_integrity organization l =
      verify_chain genesis 0 (keep (of_organization organization) l.events)

-- `get_events`: without an organization, all of them.
unfoldable pub get_events : Option Text → AuditLogger → List AuditEvent
get_events none l = l.events
get_events (some []) l = l.events
get_events (some (c ∷ o)) l = keep (of_organization (c ∷ o)) l.events
