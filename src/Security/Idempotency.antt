-- ===== src/Security/Idempotency.antt =====
-- backend/security/idempotency.py: one run for repeated requests with the same key. A response is kept
-- as the value that its JSON text stands for; time stamps are left out.
pub mod Replay
pub mod Isolation
use agentic_ai_software_engi.Base.{
  Text, codes, text_eq, pair_eq, Bool, true, false, ◌||◌, not, Option, none, some, List, [], ◌∷◌,
  ◌==◌, elem, if◌then◌else◌, lower, strip,
}
use agentic_ai_software_engi.Base.Dict.{Dict, lookup, insert, erase}

-- A value of the request's parameters; a scalar and anything else stand as their text.
mutual
  pub data Value : Type 0 where
    null : Value
    scalar : Text → Value
    sequence : Items → Value
    mapping : Fields → Value

  pub data Items : Type 0 where
    no_items : Items
    item : Value → Items → Items

  pub data Fields : Type 0 where
    no_fields : Fields
    entry : Text → Value → Fields → Fields

unfoldable pub excluded_fields : List Text
excluded_fields =
    codes "run_id"
    ∷ codes "created_at"
    ∷ codes "timestamp"
    ∷ codes "updated_at"
    ∷ codes "auth_token"
    ∷ codes "authorization"
    ∷ codes "token"
    ∷ codes "api_key"
    ∷ codes "idempotency_key"
    ∷ []

unfoldable pub is_volatile : Text → Bool
is_volatile k = elem (lower k) excluded_fields

abbrev is_null : Value → Bool
is_null null = true
is_null _ = false

abbrev pub is_dropped : Text → Value → Bool
is_dropped k v = is_volatile k || is_null v

-- `_normalize`; the order of the fields is left to the canonical JSON text, which sorts them.
unfoldable mutual
  pub normalize : Value → Value
  normalize null = scalar (codes "None")
  normalize (scalar s) = scalar s
  normalize (sequence xs) = sequence (normalize_items xs)
  normalize (mapping fs) = mapping (normalize_fields fs)

  pub normalize_items : Items → Items
  normalize_items no_items = no_items
  normalize_items (item v xs) = item (normalize v) (normalize_items xs)

  pub normalize_fields : Fields → Fields
  normalize_fields no_fields = no_fields
  normalize_fields (entry k v fs) =
      let rest = normalize_fields fs in
      let w = normalize v in if is_dropped k v then rest else entry k w rest

pub record IdempotencyRecord : Type 0 where
  pub request_fingerprint : Text
  pub run_id : Text
  pub status : Text
  pub response : Option Value

-- The primary key: the organization, the hash of the key, and the operation.
abbrev pub RecordKey : Type 0
RecordKey = Text × (Text × Text)

abbrev pub Records : Type 0
Records = Dict RecordKey IdempotencyRecord

-- What `check_or_reserve` answers or raises.
pub data Reservation : Type 0 where
  new : Text → Reservation
  replay : Text → Option Value → Reservation
  conflict : Reservation
  invalid_key : Reservation

abbrev pub reserved : Text → Text → IdempotencyRecord
reserved fingerprint run_id = record {
  request_fingerprint = fingerprint;
  run_id = run_id;
  status = codes "PENDING";
  response = none;
}

-- The insertion, or what its failure on the primary key leads to.
abbrev pub insert_or_read :
    RecordKey → Text → Text → Records → Option (IdempotencyRecord) → Reservation × Records
insert_or_read key fingerprint run_id t none =
    (new run_id, insert key (reserved fingerprint run_id) t)
insert_or_read key fingerprint run_id t (some r) =
    (if r.request_fingerprint == fingerprint then replay r.run_id r.response else conflict, t)

abbrev pub complete_row :
    RecordKey → Text → Option Value → Records → Option (IdempotencyRecord) → Records
complete_row key status response t none = t
complete_row key status response t (some r) =
    insert key (record r { status = status; response = response }) t

abbrev pub delete_with : Text → Text → Records → Option Text → Records
delete_with organization operation t none = t
delete_with organization operation t (some h) = erase (organization, (h, operation)) t

-- An empty key raises before the table is touched.
abbrev pub complete_with : Text → Text → Text → Option Value → Records → Option Text → Records
complete_with organization operation status response t none = t
complete_with organization operation status response t (some h) =
    let key : RecordKey = (organization, (h, operation)) in
    complete_row key status response t (lookup key t)

abbrev pub with_hash : Text → Text → Text → Text → Records → Option Text → Reservation × Records
with_hash organization operation fingerprint run_id t none = (invalid_key, t)
with_hash organization operation fingerprint run_id t (some h) =
    let key : RecordKey = (organization, (h, operation)) in
    insert_or_read key fingerprint run_id t (lookup key t)

abbrev pub get_with : Text → Text → Records → Option Text → Option (Option IdempotencyRecord)
get_with organization operation t none = none
get_with organization operation t (some h) = some (lookup (organization, (h, operation)) t)

-- SHA-256, of a text and of the canonical JSON text of a value.
module _ (sha256 : Text → Text) (digest : Value → Text) where
  unfoldable pub compute_key_hash : Text → Option Text
  compute_key_hash [] = none
  compute_key_hash (c ∷ key) = some (sha256 (strip (c ∷ key)))

  unfoldable pub compute_fingerprint : Fields → Text
  compute_fingerprint params = digest (normalize (mapping params))

  unfoldable pub check_or_reserve :
      Text → Text → Text → Fields → Text → Records → Reservation × Records
  check_or_reserve organization key operation params pending_run_id t =
      with_hash organization operation (compute_fingerprint params) pending_run_id t
        (compute_key_hash key)

  unfoldable pub complete_reservation : Text → Text → Text → Text → Option Value → Records → Records
  complete_reservation organization key operation status response t =
      complete_with organization operation status response t (compute_key_hash key)

  unfoldable pub delete_record : Text → Text → Text → Records → Records
  delete_record organization key operation t =
      delete_with organization operation t (compute_key_hash key)

  -- None stands for the error of an empty key.
  unfoldable pub get_record : Text → Text → Text → Records → Option (Option IdempotencyRecord)
  get_record organization key operation t = get_with organization operation t (compute_key_hash key)
