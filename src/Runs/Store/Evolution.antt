-- ===== src/Runs/Store/Evolution.antt =====
-- What a row of the table keeps while the operations of the store run in any order.
use agentic_ai_software_engi.Base.{
  ◌≤◌, Text, text_eq, Bool, true, false, ◌≡◌, refl, ◌≢◌, Option, none, some, List, [], ◌∷◌, ◌==◌,
  arith, All, if◌then◌else◌, Bool-cases, Option-cases, inl, inr,
}
use mathlib.Core.Logic.{ite}
use agentic_ai_software_engi.Base.Dict.{lookup, insert, lookup-insert}
use agentic_ai_software_engi.Runs.Record.{RunRecord, Runs, cancelled, is_terminal}
use agentic_ai_software_engi.Runs.Store.{
  update, create_or_update_run, request_cancellation, may_request, with_request, requested_status,
  request_on, mark_cancelled, mark_cancelled_on, merge, merged, update_activity, mark_stuck,
}

-- One call of the store, with its arguments; the first is the time, where the call takes it.
pub data Op : Type 0 where
  create_or_update : Text → RunRecord → Op
  request : Text → Text → Option Text → Option Text → Option Text → Op
  cancel : Text → Text → Option Text → Op
  activity : Text → Text → Option Text → Option Text → Op
  stuck : Text → Text → Text → Op

unfoldable pub apply : Op → Runs → Runs
apply (create_or_update id new) t = create_or_update_run id new t
apply (request now id o reason actor) t = (request_cancellation now id o reason actor t).1
apply (cancel now id o) t = (mark_cancelled now id o t).0
apply (activity now id o phase) t = update_activity now id o phase t
apply (stuck now id organization) t = (mark_stuck now id organization t).0

unfoldable pub apply_all : List Op → Runs → Runs
apply_all [] t = t
apply_all (op ∷ ops) t = apply_all ops (apply op t)

-- A row that is there stays, and its new form is related to the old one.
abbrev pub Held : (RunRecord → RunRecord → Type 0) → Option RunRecord → Option RunRecord → Type 0
Held R none o = Unit
Held R (some r) none = ⊥
Held R (some r) (some r') = R r r'

pub record Keeps (r : RunRecord) (r' : RunRecord) : Type 0 where
  pub request : r.cancel_requested ≡ true → r'.cancel_requested ≡ true
  pub mark : r.stuck_at ≢ none → r'.stuck_at ≢ none
  pub stamp : r.cancelled_at ≢ none → r'.cancelled_at ≢ none
  pub revisions : r.revision_count ≤ r'.revision_count

-- The status and the organization of a terminal row are final.
abbrev pub Settles : RunRecord → RunRecord → Type 0
Settles r r' =
    (r'.organization_id ≡ r.organization_id) × (is_terminal r.status ≡ true → r'.status ≡ r.status)

module _ (R : RunRecord → RunRecord → Type 0) (R-refl : (r : RunRecord) → R r r) where
  Held-refl : (o : Option RunRecord) → Held R o o
  Held-refl none = tt
  Held-refl (some r) = R-refl r

  written-Held :
      (j id : Text) (t : Runs) (r : RunRecord) (same : Dec (j ≡ id))
      → Held R (lookup id t) (some r)
      → Held R (lookup j t) (if ite same true false then some r else lookup j t)
  written-Held j id t r (yes e) h = rw e h
  written-Held j id t r (no _) h = Held-refl (lookup j t)

  insert-Held :
      (j id : Text) (t : Runs) (r : RunRecord)
      → Held R (lookup id t) (some r)
      → Held R (lookup j t) (lookup j (insert id r t))
  insert-Held j id t r h =
      rw (lookup-insert j id r t) (written-Held j id t r (text_eq.decide j id) h)

  update-Held :
      (id : Text) (p : RunRecord → Bool) (f : RunRecord → RunRecord)
      → ((r : RunRecord) → p r ≡ true → R r (f r))
      → (t : Runs) (j : Text) → Held R (lookup j t) (lookup j (update id p f t).0)
  unfolding update
  update-Held id p f h t j = elim (Option-cases (lookup id t)) [
    | inl e ↦ rw e (Held-refl (lookup j t))
    | inr (r, e) ↦ elim (Bool-cases (p r)) [
      | inl ok ↦ rw (e, ok) (insert-Held j id t (f r) (rw e (h r ok)))
      | inr off ↦ rw (e, off) (Held-refl (lookup j t))
    ]
  ]

module _ (R : RunRecord → RunRecord → Type 0) (R-refl : (r : RunRecord) → R r r)
    (R-trans : (a b c : RunRecord) → R a b → R b c → R a c) where
  Held-trans : (a b c : Option RunRecord) → Held R a b → Held R b c → Held R a c
  Held-trans none b c h k = tt
  Held-trans (some x) (some y) (some z) h k = R-trans x y z h k
  Held-trans (some x) (some y) none h k = elim k [ ]
  Held-trans (some x) none c h k = elim h [ ]

  pub apply_all-Held :
      (ops : List Op)
      → All (λ op. (t : Runs) (j : Text) → Held R (lookup j t) (lookup j (apply op t))) ops
      → (t : Runs) (j : Text) → Held R (lookup j t) (lookup j (apply_all ops t))
  unfolding apply_all
  apply_all-Held [] h t j = Held-refl R R-refl (lookup j t)
  apply_all-Held (op ∷ ops) h t j =
      Held-trans (lookup j t) (lookup j (apply op t)) (lookup j (apply_all ops (apply op t)))
        (h.0 t j) (apply_all-Held ops h.1 (apply op t) j)

pub Keeps-refl : (r : RunRecord) → Keeps r r
Keeps-refl r = ground arith

pub Keeps-trans : (a b c : RunRecord) → Keeps a b → Keeps b c → Keeps a c
Keeps-trans a b c h k = record {
  request = λ x. k.request (h.request x);
  mark = λ x. k.mark (h.mark x);
  stamp = λ x. k.stamp (h.stamp x);
  revisions = omega (arith, h.revisions, k.revisions);
}

abbrev pub Evolves : RunRecord → RunRecord → Type 0
Evolves r r' = Keeps r r' × Settles r r'

pub Evolves-refl : (r : RunRecord) → Evolves r r
Evolves-refl r = (Keeps-refl r, (refl, λ x. refl))

pub Evolves-trans : (a b c : RunRecord) → Evolves a b → Evolves b c → Evolves a c
Evolves-trans a b c h k = (Keeps-trans a b c h.0 k.0, ground arith)

pub request_on-Evolves :
    (now id : Text) (reason actor : Option Text) (t : Runs) (o : Option RunRecord) (j : Text)
    → Held Evolves (lookup j t) (lookup j (request_on now id reason actor t o).1)
request_on-Evolves now id reason actor t none j = Held-refl Evolves Evolves-refl (lookup j t)
request_on-Evolves now id reason actor t (some r) j = elim (Bool-cases (r.status == cancelled)) [
  | inl e ↦ rw e (Held-refl Evolves Evolves-refl (lookup j t))
  | inr e ↦ elim (Bool-cases (is_terminal r.status)) [
    | inl k ↦ rw (e, k) (Held-refl Evolves Evolves-refl (lookup j t))
    | inr k ↦
        rw (e, k)
          (update-Held Evolves Evolves-refl id (may_request r.organization_id)
            (with_request now reason actor (requested_status r)) (λ x ok. ground (arith, ok)) t j)
  ]
]

pub mark_cancelled_on-Evolves :
    (now id : Text) (t : Runs) (o : Option RunRecord) (j : Text)
    → Held Evolves (lookup j t) (lookup j (mark_cancelled_on now id t o).0)
mark_cancelled_on-Evolves now id t none j = Held-refl Evolves Evolves-refl (lookup j t)
mark_cancelled_on-Evolves now id t (some r) j =
    update-Held Evolves Evolves-refl id _ _ (λ x ok. ground (arith, ok)) t j

pub update_activity-Evolves :
    (now id : Text) (o phase : Option Text) (t : Runs) (j : Text)
    → Held Evolves (lookup j t) (lookup j (update_activity now id o phase t))
unfolding update_activity
update_activity-Evolves now id o phase t j =
    update-Held Evolves Evolves-refl id _ _ (λ x ok. ground (arith, ok)) t j

pub mark_stuck-Evolves :
    (now id organization : Text) (t : Runs) (j : Text)
    → Held Evolves (lookup j t) (lookup j (mark_stuck now id organization t).0)
unfolding mark_stuck
mark_stuck-Evolves now id organization t j =
    update-Held Evolves Evolves-refl id _ _ (λ x ok. ground (arith, ok)) t j

merge-Keeps : (new old : RunRecord) → Keeps old (merge new old)
merge-Keeps new old = ground arith

merged-Keeps : (new : RunRecord) (o : Option RunRecord) → Held Keeps o (some (merged new o))
merged-Keeps new none = tt
merged-Keeps new (some old) = merge-Keeps new old

pub create_or_update_run-Keeps :
    (id : Text) (new : RunRecord) (t : Runs) (j : Text)
    → Held Keeps (lookup j t) (lookup j (create_or_update_run id new t))
unfolding create_or_update_run
create_or_update_run-Keeps id new t j =
    insert-Held Keeps Keeps-refl j id t _ (merged-Keeps new (lookup id t))
