-- ===== src/Runs/Store/Cancellation.antt =====
-- What callers of the store may rely on: requests for cancellation, final statuses, tenants.
use agentic_ai_software_engi.Base.{
  Text, text_eq, Bool, true, false, ◌≡◌, refl, ◌≢◌, ◌↔◌, Option, none, some, List, ◌==◌, arith,
  Bool-cases, Option-cases, inl, inr, sym, subst,
}
use agentic_ai_software_engi.Base.Dict.{lookup, lookup-insert_self}
use agentic_ai_software_engi.Runs.Record.{
  RunRecord, Runs, cancelled, is_terminal, terminal_run_statuses,
}
use agentic_ai_software_engi.Runs.Store.{
  requested, update, update_row, visible, asks_to_stop, may_request, with_request, requested_status,
  get_run, request_on, request_cancellation, mark_stuck, is_cancel_requested,
}
use agentic_ai_software_engi.Runs.Store.Evolution.{Op, apply_all, Held, Keeps}
use agentic_ai_software_engi.Runs.Store.Sequence.{apply_all-Keeps}

abbrev IsRequested : Option RunRecord → Type 0
IsRequested none = ⊥
IsRequested (some r) = r.cancel_requested ≡ true

cancelled-is_terminal : is_terminal cancelled ≡ true
unfolding is_terminal terminal_run_statuses
cancelled-is_terminal = ground arith

request_on-requested :
    (now id : Text) (reason actor : Option Text) (t : Runs) (r : RunRecord)
    → (lookup id t ≡ some r)
    → ((request_on now id reason actor t (some r)).0 ≡ requested)
      ↔ ((is_terminal r.status ≡ false) × (r.cancel_requested ≡ false))
unfolding update
request_on-requested now id reason actor t r e = rw e (ground (arith, cancelled-is_terminal))

IsRequested-Keeps : (a b : Option RunRecord) → IsRequested a → Held Keeps a b → IsRequested b
IsRequested-Keeps none b h k = absurd h
IsRequested-Keeps (some r) none h k = absurd k
IsRequested-Keeps (some r) (some r') h k = k.request h

IsRequested-apply_all :
    (ops : List Op) (t : Runs) (id : Text)
    → IsRequested (lookup id t)
    → IsRequested (lookup id (apply_all ops t))
IsRequested-apply_all ops t id h = IsRequested-Keeps (lookup id t) _ h (apply_all-Keeps ops t id)

update-changed :
    (id : Text) (p : RunRecord → Bool) (f : RunRecord → RunRecord) (t : Runs)
    → ((update id p f t).1 ≡ true)
    → (r : RunRecord) × (p r ≡ true) × (lookup id (update id p f t).0 ≡ some (f r))
unfolding update
update-changed id p f t h = elim (Option-cases (lookup id t)) [
  | inl e ↦ let k = subst (λ o. (update_row id p f t o).1 ≡ true) e h in ground arith
  | inr (r, e) ↦
      let k = subst (λ o. (update_row id p f t o).1 ≡ true) e h in
      elim (Bool-cases (p r)) [
        | inl ok ↦ (r, ok, rw (e, ok) (lookup-insert_self id (f r) t))
        | inr off ↦ ground arith
      ]
]

request_on-IsRequested :
    (now id : Text) (reason actor : Option Text) (t : Runs) (o : Option RunRecord)
    → ((request_on now id reason actor t o).0 ≡ requested)
    → IsRequested (lookup id (request_on now id reason actor t o).1)
request_on-IsRequested now id reason actor t none h = ground arith
request_on-IsRequested now id reason actor t (some r) h =
    let p = may_request r.organization_id in
    let f = with_request now reason actor (requested_status r) in
    elim (Bool-cases (r.status == cancelled)) [
      | inl e ↦ ground arith
      | inr e ↦ elim (Bool-cases (is_terminal r.status)) [
        | inl k ↦ ground arith
        | inr k ↦ elim (Bool-cases (update id p f t).1) [
          | inr off ↦ ground arith
          | inl ok ↦
              let (x, _, at) = update-changed id p f t ok in
              rw (e, k) (subst IsRequested (sym at) refl)
        ]
      ]
    ]

request_on-refused :
    (now id : Text) (reason actor : Option Text) (t : Runs) (o : Option Text) (r : Option RunRecord)
    → (lookup id t ≡ r)
    → IsRequested r
    → ((request_on now id reason actor t (visible o r)).0 ≢ requested)
request_on-refused now id reason actor t o none e h = absurd h
request_on-refused now id reason actor t o (some r) e h =
    ground (arith, request_on-requested now id reason actor t r e)

asks_to_stop_lem : (o : Option RunRecord) → IsRequested o → asks_to_stop (visible none o) ≡ true
asks_to_stop_lem none h = absurd h
asks_to_stop_lem (some r) h = ground arith

-- A request that is recorded can never be recorded again, whatever operations of the store come
-- between: of all the requests for one run, by whomever, at most one is answered with REQUESTED. And
-- from then on the run asks to stop.
pub request_cancellation-once :
    (ops : List Op) (now now' id : Text) (o o' reason reason' actor actor' : Option Text) (t : Runs)
    → ((request_cancellation now id o reason actor t).0 ≡ requested)
    → ((request_cancellation now' id o' reason' actor'
          (apply_all ops (request_cancellation now id o reason actor t).1)).0
        ≢ requested)
      × (is_cancel_requested id none
            (apply_all ops (request_cancellation now id o reason actor t).1)
          ≡ true)
unfolding request_cancellation get_run is_cancel_requested
request_cancellation-once ops now now' id o o' reason reason' actor actor' t h =
    let after = apply_all ops (request_cancellation now id o reason actor t).1 in
    let asked =
      IsRequested-apply_all ops _ id
        (request_on-IsRequested now id reason actor t (get_run id o t) h) in
    (
      request_on-refused now' id reason' actor' after o' (lookup id after) refl asked,
      asks_to_stop_lem (lookup id after) asked,
    )

abbrev pub IsMarked : Option RunRecord → Type 0
IsMarked none = ⊥
IsMarked (some r) = r.stuck_at ≢ none

pub IsMarked-Keeps : (a b : Option RunRecord) → IsMarked a → Held Keeps a b → IsMarked b
IsMarked-Keeps none b h k = absurd h
IsMarked-Keeps (some r) none h k = absurd k
IsMarked-Keeps (some r) (some r') h k = k.mark h

IsMarked-apply_all :
    (ops : List Op) (t : Runs) (id : Text)
    → IsMarked (lookup id t)
    → IsMarked (lookup id (apply_all ops t))
IsMarked-apply_all ops t id h = IsMarked-Keeps (lookup id t) _ h (apply_all-Keeps ops t id)

pub mark_stuck-refused :
    (now id organization : Text) (t : Runs)
    → IsMarked (lookup id t)
    → (mark_stuck now id organization t).1 ≡ false
unfolding mark_stuck update
mark_stuck-refused now id organization t h = ground arith

pub mark_stuck-IsMarked :
    (now id organization : Text) (t : Runs)
    → ((mark_stuck now id organization t).1 ≡ true)
    → IsMarked (lookup id (mark_stuck now id organization t).0)
unfolding mark_stuck
mark_stuck-IsMarked now id organization t h =
    let (r, _, at) = update-changed id _ _ t h in subst IsMarked (sym at) (ground arith)

-- A mark as stuck is won once: whoever wins it, no later call for that run wins it again.
pub mark_stuck-once :
    (ops : List Op) (now now' id organization organization' : Text) (t : Runs)
    → ((mark_stuck now id organization t).1 ≡ true)
    → (mark_stuck now' id organization' (apply_all ops (mark_stuck now id organization t).0)).1
      ≡ false
mark_stuck-once ops now now' id organization organization' t h =
    mark_stuck-refused now' id organization' _
      (IsMarked-apply_all ops _ id (mark_stuck-IsMarked now id organization t h))
