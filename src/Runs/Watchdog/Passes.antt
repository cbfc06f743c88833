-- ===== src/Runs/Watchdog/Passes.antt =====
-- What a pass of the watchdog reports.
use agentic_ai_software_engi.Base.{
  ℕ, Text, text_eq, Bool, true, false, ◌&&◌, not, if◌then◌else◌, ◌≡◌, refl, Option, some, List, [],
  ◌∷◌, arith, All, Bool-cases, inl, inr,
}
use agentic_ai_software_engi.Base.Dict.{lookup}
use agentic_ai_software_engi.Runs.Record.{RunRecord, Runs}
use agentic_ai_software_engi.Runs.Store.{list_active_runs, get_run, mark_stuck}
use agentic_ai_software_engi.Runs.Store.Evolution.{stuck, request, apply}
use agentic_ai_software_engi.Runs.Store.Sequence.{apply-Keeps}
use agentic_ai_software_engi.Runs.Store.Cancellation.{
  IsMarked, IsMarked-Keeps, mark_stuck-refused, mark_stuck-IsMarked,
}
use agentic_ai_software_engi.Runs.Watchdog.{
  escalate, claim, check_run, check_all, check_once, is_stale, is_gone,
}

module _ (thresholds elapsed : Text → Option ℕ) (auto_cancel : Bool) (now : Text) where
  escalate-IsMarked :
      (id j : Text) (r : RunRecord) (t : Runs)
      → IsMarked (lookup j t)
      → IsMarked (lookup j (escalate thresholds elapsed auto_cancel now id r t))
  unfolding apply
  escalate-IsMarked id j r t h = elim (Bool-cases auto_cancel) [
    | inl on ↦
        rw on (IsMarked-Keeps _ _ h (apply-Keeps (request now id (some r.organization_id) _ _) t j))
    | inr off ↦ rw off h
  ]

  claim-IsMarked :
      (id j : Text) (r : RunRecord) (t : Runs) (won : Bool)
      → IsMarked (lookup j t)
      → IsMarked (lookup j (claim thresholds elapsed auto_cancel now id r (t, won)).0)
  claim-IsMarked id j r t true h = escalate-IsMarked id j r t h
  claim-IsMarked id j r t false h = h

  check_run-keeps_marks :
      (id j : Text) (r : RunRecord) (t : Runs)
      → IsMarked (lookup j t)
      → IsMarked (lookup j (check_run thresholds elapsed auto_cancel now id r t).0)
  unfolding check_run apply
  check_run-keeps_marks id j r t h =
      elim (Bool-cases (
        is_stale thresholds elapsed auto_cancel now r
        && not (is_gone (get_run id (some r.organization_id) t)))) [
          | inr off ↦ rw off h
          | inl on ↦ rw on (
              claim-IsMarked id j r (mark_stuck now id r.organization_id t).0
                (mark_stuck now id r.organization_id t).1
                (IsMarked-Keeps _ _ h (apply-Keeps (stuck now id r.organization_id) t j)))
        ]

  -- The row of the run was not marked before, and is marked after.
  abbrev pub NewlyMarked : Runs → Runs → Text → Type 0
  NewlyMarked t t' id = (¬ IsMarked (lookup id t)) × IsMarked (lookup id t')

  claim-NewlyMarked :
      (id : Text) (r : RunRecord) (t : Runs)
      → ((claim thresholds elapsed auto_cancel now id r (mark_stuck now id r.organization_id t)).1
          ≡ true)
      → NewlyMarked t
          (claim thresholds elapsed auto_cancel now id r (mark_stuck now id r.organization_id t)).0
          id
  claim-NewlyMarked id r t h = elim (Bool-cases (mark_stuck now id r.organization_id t).1) [
    | inl won ↦ (
      λ marked. ground (arith, won, mark_stuck-refused now id r.organization_id t marked),
      claim-IsMarked id id r (mark_stuck now id r.organization_id t).0
          (mark_stuck now id r.organization_id t).1
          (mark_stuck-IsMarked now id r.organization_id t won),
    )
    | inr lost ↦ ground arith
  ]

  check_run-NewlyMarked :
      (id : Text) (r : RunRecord) (t : Runs)
      → ((check_run thresholds elapsed auto_cancel now id r t).1 ≡ true)
      → NewlyMarked t (check_run thresholds elapsed auto_cancel now id r t).0 id
  unfolding check_run
  check_run-NewlyMarked id r t h =
      elim (Bool-cases (
        is_stale thresholds elapsed auto_cancel now r
        && not (is_gone (get_run id (some r.organization_id) t)))) [
          | inr off ↦ ground arith
          | inl on ↦ rw on (claim-NewlyMarked id r t (ground arith))
        ]

  check_all-keeps_marks :
      (j : Text) (rows t : Runs)
      → IsMarked (lookup j t)
      → IsMarked (lookup j (check_all thresholds elapsed auto_cancel now rows t).0)
  unfolding check_all
  check_all-keeps_marks j [] t h = h
  check_all-keeps_marks j ((id, r) ∷ rows) t h =
      check_all-keeps_marks j rows (check_run thresholds elapsed auto_cancel now id r t).0
        (check_run-keeps_marks id j r t h)

  All-earlier :
      (t t' t'' : Runs)
      → ((j : Text) → IsMarked (lookup j t) → IsMarked (lookup j t'))
      → (ids : List Text) → All (NewlyMarked t' t'') ids
      → All (NewlyMarked t t'') ids
  All-earlier t t' t'' h [] k = tt
  All-earlier t t' t'' h (id ∷ ids) k =
      ((λ marked. k.0.0 (h id marked), k.0.1), All-earlier t t' t'' h ids k.1)

  All-reported :
      (won : Bool) (t t'' : Runs) (id : Text) (ids : List Text)
      → ((won ≡ true) → NewlyMarked t t'' id)
      → All (NewlyMarked t t'') ids
      → All (NewlyMarked t t'') (if won then id ∷ ids else ids)
  All-reported true t t'' id ids h k = (h refl, k)
  All-reported false t t'' id ids h k = k

  check_all-NewlyMarked :
      (rows t : Runs)
      → All
          (NewlyMarked t (check_all thresholds elapsed auto_cancel now rows t).0)
          (check_all thresholds elapsed auto_cancel now rows t).1
  unfolding check_all
  check_all-NewlyMarked [] t = tt
  check_all-NewlyMarked ((id, r) ∷ rows) t =
      let first = check_run thresholds elapsed auto_cancel now id r t in
      let rest = check_all thresholds elapsed auto_cancel now rows first.0 in
      All-reported first.1 t rest.0 id rest.1
        (λ won. (
          (check_run-NewlyMarked id r t won).0,
          check_all-keeps_marks id rows first.0 (check_run-NewlyMarked id r t won).1,
        ))
        (All-earlier t first.0 rest.0 (λ j. check_run-keeps_marks id j r t) rest.1
          (check_all-NewlyMarked rows first.0))

  -- Every run that a pass reports was not marked as stuck before the pass, and is marked after it.
  pub check_once-NewlyMarked :
      (t : Runs)
      → All
          (NewlyMarked t (check_once thresholds elapsed auto_cancel now t).0)
          (check_once thresholds elapsed auto_cancel now t).1
  unfolding check_once
  check_once-NewlyMarked t = check_all-NewlyMarked (list_active_runs t) t
