-- ===== src/Security/Idempotency/Isolation.antt =====
-- Tenants do not see each other in the idempotency store.
use agentic_ai_software_engi.Base.{
  Text, text_eq, pair_eq, ◌≡◌, refl, ◌≢◌, Option, none, some, List, [], ◌∷◌, arith, All, ap, ◌∙◌,
}
use agentic_ai_software_engi.Base.Dict.{lookup, lookup-insert, lookup-erase}
use agentic_ai_software_engi.Security.Idempotency.{
  Value, Fields, IdempotencyRecord, RecordKey, Records, reserved, insert_or_read, complete_row,
  delete_with, complete_with, with_hash, get_with, compute_key_hash, compute_fingerprint,
  check_or_reserve, complete_reservation, delete_record, get_record,
}

-- A call, and the organization that makes it.
pub data Action : Type 0 where
  reserve : Text → Text → Fields → Text → Action
  complete : Text → Text → Text → Option Value → Action
  delete : Text → Text → Action

insert_or_read-foreign :
    (j key : RecordKey) (f run : Text) (t : Records) (o : Option IdempotencyRecord)
    → (j.0 ≢ key.0)
    → lookup j (insert_or_read key f run t o).1 ≡ lookup j t
insert_or_read-foreign j key f run t none d =
    ground (arith, d, lookup-insert j key (reserved f run) t)
insert_or_read-foreign j key f run t (some r) d = ground arith

complete_row-foreign :
    (j key : RecordKey) (status : Text) (response : Option Value) (t : Records)
    (o : Option IdempotencyRecord)
    → (j.0 ≢ key.0)
    → lookup j (complete_row key status response t o) ≡ lookup j t
complete_row-foreign j key status response t none d = refl
complete_row-foreign j key status response t (some r) d =
    ground (arith, d, lookup-insert j key (record r { status = status; response = response }) t)

with_hash-foreign :
    (j : RecordKey) (organization operation f run : Text) (t : Records) (h : Option Text)
    → (j.0 ≢ organization)
    → lookup j (with_hash organization operation f run t h).1 ≡ lookup j t
with_hash-foreign j organization operation f run t none d = refl
with_hash-foreign j organization operation f run t (some h) d =
    insert_or_read-foreign j (organization, (h, operation)) f run t
      (lookup (organization, (h, operation)) t) d

complete_with-foreign :
    (j : RecordKey) (organization operation status : Text) (response : Option Value) (t : Records)
    (h : Option Text)
    → (j.0 ≢ organization)
    → lookup j (complete_with organization operation status response t h) ≡ lookup j t
complete_with-foreign j organization operation status response t none d = refl
complete_with-foreign j organization operation status response t (some h) d =
    complete_row-foreign j (organization, (h, operation)) status response t
      (lookup (organization, (h, operation)) t) d

delete_with-foreign :
    (j : RecordKey) (organization operation : Text) (t : Records) (h : Option Text)
    → (j.0 ≢ organization)
    → lookup j (delete_with organization operation t h) ≡ lookup j t
delete_with-foreign j organization operation t none d = refl
delete_with-foreign j organization operation t (some h) d =
    ground (arith, d, lookup-erase j (organization, (h, operation)) t)

module _ (sha256 : Text → Text) (digest : Value → Text) where
  unfoldable pub act : Text × Action → Records → Records
  act (organization, reserve key operation params run_id) t =
      (check_or_reserve sha256 digest organization key operation params run_id t).1
  act (organization, complete key operation status response) t =
      complete_reservation sha256 digest organization key operation status response t
  act (organization, delete key operation) t =
      delete_record sha256 digest organization key operation t

  unfoldable pub act_all : List (Text × Action) → Records → Records
  act_all [] t = t
  act_all (a ∷ actions) t = act_all actions (act a t)

  act-foreign :
      (j : RecordKey) (a : Text × Action) (t : Records)
      → (j.0 ≢ a.0)
      → lookup j (act a t) ≡ lookup j t
  unfolding act check_or_reserve complete_reservation delete_record
  act-foreign j (organization, reserve key operation params run_id) t d =
      with_hash-foreign j organization operation (compute_fingerprint sha256 digest params) run_id t
        (compute_key_hash sha256 digest key) d
  act-foreign j (organization, complete key operation status response) t d =
      complete_with-foreign j organization operation status response t
        (compute_key_hash sha256 digest key) d
  act-foreign j (organization, delete key operation) t d =
      delete_with-foreign j organization operation t (compute_key_hash sha256 digest key) d

  act_all-foreign :
      (j : RecordKey) (actions : List (Text × Action)) (t : Records)
      → All (λ a. j.0 ≢ a.0) actions
      → lookup j (act_all actions t) ≡ lookup j t
  unfolding act_all
  act_all-foreign j [] t d = refl
  act_all-foreign j (a ∷ actions) t d =
      act_all-foreign j actions (act a t) d.1 ∙ act-foreign j a t d.0

  read_answer :
      (key : RecordKey) (f run : Text) (s t : Records) (o : Option IdempotencyRecord)
      → (insert_or_read key f run s o).0 ≡ (insert_or_read key f run t o).0
  read_answer key f run s t none = refl
  read_answer key f run s t (some r) = refl

  hash_answer :
      (organization operation f run : Text) (s t : Records) (h : Option Text)
      → ((j : RecordKey) → (j.0 ≡ organization) → lookup j s ≡ lookup j t)
      → ((with_hash organization operation f run s h).0
          ≡ (with_hash organization operation f run t h).0)
        × (get_with organization operation s h ≡ get_with organization operation t h)
  hash_answer organization operation f run s t none e = (refl, refl)
  hash_answer organization operation f run s t (some h) e =
      let key : RecordKey = (organization, (h, operation)) in
      (
        read_answer key f run s t (lookup key s)
            ∙ ap (λ o. (insert_or_read key f run t o).0) (e key refl),
        ap some (e key refl),
      )

  -- Whatever other organizations reserve, complete and delete, under the same keys or not, an
  -- organization's next request is answered the same way, and so is its look at a record.
  pub check_or_reserve-foreign :
      (actions : List (Text × Action)) (organization key operation run : Text) (params : Fields)
      (t : Records)
      → All (λ a. organization ≢ a.0) actions
      → ((check_or_reserve sha256 digest organization key operation params run
            (act_all actions t)).0
          ≡ (check_or_reserve sha256 digest organization key operation params run t).0)
        × (get_record sha256 digest organization key operation (act_all actions t)
            ≡ get_record sha256 digest organization key operation t)
  unfolding check_or_reserve get_record
  check_or_reserve-foreign actions organization key operation run params t d =
      hash_answer organization operation (compute_fingerprint sha256 digest params) run
        (act_all actions t) t (compute_key_hash sha256 digest key)
        (λ j e. act_all-foreign j actions t (rw e d))
