-- ===== src/Security/Idempotency/Replay.antt =====
-- What a client that repeats a request may rely on.
use agentic_ai_software_engi.Base.{
  Text, text_eq, pair_eq, true, false, ◌≡◌, refl, ◌≢◌, Option, none, some, List, [], ◌∷◌, arith,
  if◌then◌else◌, ap, subst,
}
use mathlib.Core.Logic.{ite}
use agentic_ai_software_engi.Base.Dict.{lookup, insert, lookup-insert, lookup-insert_self}
use agentic_ai_software_engi.Security.Idempotency.{
  Value, mapping, Fields, no_fields, entry, is_volatile, normalize, normalize_fields,
  IdempotencyRecord, RecordKey, Records, Reservation, new, replay, conflict, reserved,
  insert_or_read, with_hash, complete_row, complete_with, compute_key_hash, compute_fingerprint,
  check_or_reserve, complete_reservation,
}

-- Two requests that differ in volatile fields alone, anywhere among the others.
pub data SameRequest : Fields → Fields → Type 0 where
  same_end : SameRequest no_fields no_fields
  same_field :
      (k : Text) (v : Value) (fs gs : Fields)
      → SameRequest fs gs
      → SameRequest (entry k v fs) (entry k v gs)
  left_volatile :
      (k : Text) (v : Value) (fs gs : Fields)
      → is_volatile k ≡ true
      → SameRequest fs gs
      → SameRequest (entry k v fs) gs
  right_volatile :
      (k : Text) (v : Value) (fs gs : Fields)
      → is_volatile k ≡ true
      → SameRequest fs gs
      → SameRequest fs (entry k v gs)

normalize_fields-SameRequest :
    (fs gs : Fields) → SameRequest fs gs → normalize_fields fs ≡ normalize_fields gs
unfolding normalize
normalize_fields-SameRequest _ _ same_end = refl
normalize_fields-SameRequest _ _ (same_field k v fs gs h) =
    rw (normalize_fields-SameRequest fs gs h) refl
normalize_fields-SameRequest _ _ (left_volatile k v fs gs e h) =
    rw e (normalize_fields-SameRequest fs gs h)
normalize_fields-SameRequest _ _ (right_volatile k v fs gs e h) =
    rw e (normalize_fields-SameRequest fs gs h)

-- The row is there, for this request and this run.
abbrev BoundTo : Text → Text → Option IdempotencyRecord → Type 0
BoundTo fingerprint run_id none = ⊥
BoundTo fingerprint run_id (some r) = (r.request_fingerprint ≡ fingerprint) × (r.run_id ≡ run_id)

module _ (f run : Text) where
  written-BoundTo :
      (j key : RecordKey) (t : Records) (r : IdempotencyRecord) (same : Dec (j ≡ key))
      → (BoundTo f run (lookup key t) → BoundTo f run (some r))
      → BoundTo f run (lookup j t)
      → BoundTo f run (if ite same true false then some r else lookup j t)
  written-BoundTo j key t r (yes e) h k = h (subst (λ x. BoundTo f run (lookup x t)) e k)
  written-BoundTo j key t r (no _) h k = k

  insert-BoundTo :
      (j key : RecordKey) (t : Records) (r : IdempotencyRecord)
      → (BoundTo f run (lookup key t) → BoundTo f run (some r))
      → BoundTo f run (lookup j t)
      → BoundTo f run (lookup j (insert key r t))
  insert-BoundTo j key t r h k =
      rw (lookup-insert j key r t) (written-BoundTo j key t r ((pair_eq).decide j key) h k)

  insert_or_read-BoundTo :
      (j key : RecordKey) (fingerprint run_id : Text) (t : Records) (o : Option IdempotencyRecord)
      → (lookup key t ≡ o)
      → BoundTo f run (lookup j t)
      → BoundTo f run (lookup j (insert_or_read key fingerprint run_id t o).1)
  insert_or_read-BoundTo j key fingerprint run_id t none e k =
      insert-BoundTo j key t (reserved fingerprint run_id) (λ x. absurd (subst (BoundTo f run) e x))
        k
  insert_or_read-BoundTo j key fingerprint run_id t (some r) e k = k

  complete_row-BoundTo :
      (j key : RecordKey) (status : Text) (response : Option Value) (t : Records)
      (o : Option IdempotencyRecord)
      → (lookup key t ≡ o)
      → BoundTo f run (lookup j t)
      → BoundTo f run (lookup j (complete_row key status response t o))
  complete_row-BoundTo j key status response t none e k = k
  complete_row-BoundTo j key status response t (some r) e k =
      insert-BoundTo j key t _ (λ x. subst (BoundTo f run) e x) k

-- The calls that may come between two requests.
pub data Call : Type 0 where
  reserve : Text → Text → Text → Fields → Text → Call
  complete : Text → Text → Text → Text → Option Value → Call

module _ (sha256 : Text → Text) (digest : Value → Text) where
  unfoldable pub apply : Call → Records → Records
  apply (reserve organization key operation params run_id) t =
      (check_or_reserve sha256 digest organization key operation params run_id t).1
  apply (complete organization key operation status response) t =
      complete_reservation sha256 digest organization key operation status response t

  unfoldable pub apply_all : List Call → Records → Records
  apply_all [] t = t
  apply_all (c ∷ cs) t = apply_all cs (apply c t)

  apply-BoundTo :
      (f run : Text) (c : Call) (t : Records) (j : RecordKey)
      → BoundTo f run (lookup j t)
      → BoundTo f run (lookup j (apply c t))
  unfolding apply check_or_reserve complete_reservation
  apply-BoundTo f run (reserve organization key operation params run_id) t j h =
      elim (compute_key_hash sha256 digest key)
        as (λ o. BoundTo f run (
          lookup j
            (with_hash organization operation (compute_fingerprint sha256 digest params) run_id t
              o).1)) [
                | none ↦ h
                | some x ↦
                    insert_or_read-BoundTo f run j (organization, (x, operation)) _ run_id t _ refl
                      h
              ]
  apply-BoundTo f run (complete organization key operation status response) t j h =
      elim (compute_key_hash sha256 digest key)
        as (λ o.
          BoundTo f run (lookup j (complete_with organization operation status response t o))) [
            | none ↦ h
            | some x ↦
                complete_row-BoundTo f run j (organization, (x, operation)) status response t _ refl
                  h
          ]

  apply_all-BoundTo :
      (f run : Text) (cs : List Call) (t : Records) (j : RecordKey)
      → BoundTo f run (lookup j t)
      → BoundTo f run (lookup j (apply_all cs t))
  unfolding apply_all
  apply_all-BoundTo f run [] t j h = h
  apply_all-BoundTo f run (c ∷ cs) t j h =
      apply_all-BoundTo f run cs (apply c t) j (apply-BoundTo f run c t j h)

  compute_fingerprint-SameRequest :
      (fs gs : Fields)
      → SameRequest fs gs
      → compute_fingerprint sha256 digest fs ≡ compute_fingerprint sha256 digest gs
  unfolding compute_fingerprint normalize
  compute_fingerprint-SameRequest fs gs h =
      ap (λ x. digest (mapping x)) (normalize_fields-SameRequest fs gs h)

  insert_or_read-new :
      (key : RecordKey) (f run : Text) (t : Records) (o : Option IdempotencyRecord)
      → ((insert_or_read key f run t o).0 ≡ new run)
      → BoundTo f run (lookup key (insert_or_read key f run t o).1)
  insert_or_read-new key f run t none h =
      rw (lookup-insert_self key (reserved f run) t) (refl, refl)
  insert_or_read-new key f run t (some r) h = ground arith

  -- What a bound row answers.
  abbrev Answers : Text → Text → Text → Reservation → Type 0
  Answers f run f' answer =
      ((f' ≡ f) → (response : Option Value) × (answer ≡ replay run response))
      × ((f' ≢ f) → answer ≡ conflict)

  insert_or_read-Answers :
      (key : RecordKey) (f run f' run' : Text) (t : Records) (o : Option IdempotencyRecord)
      → BoundTo f run o
      → Answers f run f' (insert_or_read key f' run' t o).0
  insert_or_read-Answers key f run f' run' t none h = absurd h
  insert_or_read-Answers key f run f' run' t (some r) h =
      ((λ e. (r.response, ground arith)), (λ d. ground arith))

  with_hash-replay :
      (organization operation f run f' run' : Text) (t : Records) (o : Option Text) (cs : List Call)
      → ((with_hash organization operation f run t o).0 ≡ new run)
      → Answers f run f'
          (with_hash organization operation f' run'
            (apply_all cs (with_hash organization operation f run t o).1)
            o).0
  with_hash-replay organization operation f run f' run' t none cs h = ground arith
  with_hash-replay organization operation f run f' run' t (some x) cs h =
      let key : RecordKey = (organization, (x, operation)) in
      insert_or_read-Answers key f run f' run' _ _
        (apply_all-BoundTo f run cs _ key (insert_or_read-new key f run t (lookup key t) h))

  -- Once a request has reserved a key, every later request with that key, whatever reservations and
  -- completions come between, is answered with the run of the first if it is the same but for volatile
  -- fields, and refused if its fingerprint differs. So the operation starts one run at most.
  pub check_or_reserve-replay :
      (cs : List Call) (organization key operation run run' : Text) (params params' : Fields)
      (t : Records)
      → ((check_or_reserve sha256 digest organization key operation params run t).0 ≡ new run)
      → (SameRequest params' params
          → (response : Option Value) × ((check_or_reserve sha256 digest organization key operation
                params' run'
                (apply_all cs
                  (check_or_reserve sha256 digest organization key operation params run t).1)).0
              ≡ replay run response))
        × ((compute_fingerprint sha256 digest params' ≢ compute_fingerprint sha256 digest params)
            → (check_or_reserve sha256 digest organization key operation params' run' (
                apply_all cs
                  (check_or_reserve sha256 digest organization key operation params run t).1)).0
              ≡ conflict)
  unfolding check_or_reserve
  check_or_reserve-replay cs organization key operation run run' params params' t h =
      let answers =
        with_hash-replay organization operation (compute_fingerprint sha256 digest params) run
          (compute_fingerprint sha256 digest params') run' t (compute_key_hash sha256 digest key) cs
          h in
      ((λ same. answers.0 (compute_fingerprint-SameRequest params' params same)), answers.1)
