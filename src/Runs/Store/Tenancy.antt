-- ===== src/Runs/Store/Tenancy.antt =====
-- A run belongs to its organization.
use agentic_ai_software_engi.Base.{
  Text, text_eq, Bool, true, false, ◌≡◌, refl, ◌≢◌, Option, none, some, arith, is_set, ap,
}
use agentic_ai_software_engi.Base.Dict.{lookup}
use agentic_ai_software_engi.Runs.Record.{RunRecord, Runs}
use agentic_ai_software_engi.Runs.Store.{
  not_found, update, owned, get_run, request_cancellation, mark_cancelled, update_activity,
  mark_stuck, is_cancel_requested,
}

update-off :
    (id : Text) (p : RunRecord → Bool) (f : RunRecord → RunRecord) (t : Runs) (r : RunRecord)
    → (lookup id t ≡ some r)
    → (p r ≡ false)
    → update id p f t ≡ (t, false)
unfolding update
update-off id p f t r e off = rw (e, off) refl

owned-foreign :
    (organization : Text) (r : RunRecord)
    → (is_set (some organization) ≡ true)
    → (r.organization_id ≢ organization)
    → owned (some organization) r ≡ false
owned-foreign organization r k h = ground arith

-- For an organization that does not own the run, get_run, request_cancellation, mark_cancelled,
-- is_cancel_requested, update_activity and mark_stuck answer as if the run were not there, and change
-- nothing. The write of a whole record, create_or_update_run, asks for no owner and is not among them.
pub foreign_organization :
    (now id organization : Text) (reason actor phase : Option Text) (t : Runs) (r : RunRecord)
    → (lookup id t ≡ some r)
    → (is_set (some organization) ≡ true)
    → (r.organization_id ≢ organization)
    → (get_run id (some organization) t ≡ none)
      × (request_cancellation now id (some organization) reason actor t ≡ (not_found, t))
      × (mark_cancelled now id (some organization) t ≡ (t, false))
      × (is_cancel_requested id (some organization) t ≡ false)
      × (update_activity now id (some organization) phase t ≡ t)
      × (mark_stuck now id organization t ≡ (t, false))
unfolding get_run request_cancellation mark_cancelled is_cancel_requested update_activity mark_stuck
foreign_organization now id organization reason actor phase t r e k h =
    let foreign = owned-foreign organization r k h in
    (
      rw (e, foreign) refl,
      rw (e, foreign) refl,
      rw (e, foreign) refl,
      rw (e, foreign) refl,
      ap (λ x. x.0) (update-off id (owned (some organization)) _ t r e foreign),
      update-off id _ _ t r e (ground arith),
    )
