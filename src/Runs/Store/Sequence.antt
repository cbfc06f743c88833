-- ===== src/Runs/Store/Sequence.antt =====
-- What holds of a run across any sequence of operations of the store.
use agentic_ai_software_engi.Base.{Text, text_eq, Option, none, some, List, [], ◌∷◌, All}
use agentic_ai_software_engi.Base.Dict.{lookup}
use agentic_ai_software_engi.Runs.Record.{RunRecord, Runs}
use agentic_ai_software_engi.Runs.Store.{get_run, request_cancellation, mark_cancelled}
use agentic_ai_software_engi.Runs.Store.Evolution.{
  Op, create_or_update, request, cancel, activity, stuck, apply, apply_all, Held, Keeps, Evolves,
  Keeps-refl, Keeps-trans, Evolves-refl, Evolves-trans, apply_all-Held, request_on-Evolves,
  mark_cancelled_on-Evolves, update_activity-Evolves, mark_stuck-Evolves,
  create_or_update_run-Keeps,
}

-- Every operation but the one that writes a whole record.
abbrev pub IsTransition : Op → Type 0
IsTransition (create_or_update id new) = ⊥
IsTransition _ = Unit

apply-Evolves :
    (op : Op)
    → IsTransition op
    → (t : Runs) (j : Text) → Held Evolves (lookup j t) (lookup j (apply op t))
unfolding apply request_cancellation mark_cancelled
apply-Evolves (create_or_update id new) h t j = absurd h
apply-Evolves (request now id o reason actor) h t j =
    request_on-Evolves now id reason actor t (get_run id o t) j
apply-Evolves (cancel now id o) h t j = mark_cancelled_on-Evolves now id t (get_run id o t) j
apply-Evolves (activity now id o phase) h t j = update_activity-Evolves now id o phase t j
apply-Evolves (stuck now id organization) h t j = mark_stuck-Evolves now id organization t j

Held-Keeps : (a b : Option RunRecord) → Held Evolves a b → Held Keeps a b
Held-Keeps none b h = tt
Held-Keeps (some r) (some r') h = h.0
Held-Keeps (some r) none h = h

pub apply-Keeps : (op : Op) (t : Runs) (j : Text) → Held Keeps (lookup j t) (lookup j (apply op t))
unfolding apply
apply-Keeps (create_or_update id new) t j = create_or_update_run-Keeps id new t j
apply-Keeps (request now id o reason actor) t j =
    Held-Keeps (lookup j t) _ (apply-Evolves (request now id o reason actor) tt t j)
apply-Keeps (cancel now id o) t j =
    Held-Keeps (lookup j t) _ (apply-Evolves (cancel now id o) tt t j)
apply-Keeps (activity now id o phase) t j =
    Held-Keeps (lookup j t) _ (apply-Evolves (activity now id o phase) tt t j)
apply-Keeps (stuck now id organization) t j =
    Held-Keeps (lookup j t) _ (apply-Evolves (stuck now id organization) tt t j)

All-apply-Evolves :
    (ops : List Op)
    → All IsTransition ops
    → All (λ op. (t : Runs) (j : Text) → Held Evolves (lookup j t) (lookup j (apply op t))) ops
All-apply-Evolves [] h = tt
All-apply-Evolves (op ∷ ops) h = (apply-Evolves op h.0, All-apply-Evolves ops h.1)

All-apply-Keeps :
    (ops : List Op)
    → All (λ op. (t : Runs) (j : Text) → Held Keeps (lookup j t) (lookup j (apply op t))) ops
All-apply-Keeps [] = tt
All-apply-Keeps (op ∷ ops) = (apply-Keeps op, All-apply-Keeps ops)

-- Whatever operations of the store run, in any order, a run stays in the table, a request for its
-- cancellation, its mark as stuck and its time of cancellation are never taken back, and its count of
-- revisions never falls.
pub apply_all-Keeps :
    (ops : List Op) (t : Runs) (id : Text) → Held Keeps (lookup id t) (lookup id (apply_all ops t))
apply_all-Keeps ops t id =
    apply_all-Held Keeps Keeps-refl Keeps-trans ops (All-apply-Keeps ops) t id

-- Requests, finalized cancellations, heartbeats and marks as stuck, in any order, also keep the
-- organization of every run, and the status of every run that is terminal.
pub apply_all-Evolves :
    (ops : List Op)
    → All IsTransition ops
    → (t : Runs) (id : Text) → Held Evolves (lookup id t) (lookup id (apply_all ops t))
apply_all-Evolves ops h t id =
    apply_all-Held Evolves Evolves-refl Evolves-trans ops (All-apply-Evolves ops h) t id
