-- ===== src/Runs/Store.antt =====
-- The transitions of backend/observability/store.py (TelemetryStore). Each SQL statement is one
-- atomic change of the table; `now` is the time stamp that a call takes.
pub mod Evolution
pub mod Sequence
pub mod Cancellation
pub mod Tenancy
use agentic_ai_software_engi.Base.{
  ℕ, max, Text, text_eq, Bool, true, false, ◌&&◌, ◌||◌, not, Option, none, some, List, [], ◌∷◌,
  ◌==◌, if◌then◌else◌, elem, keep, opt_text, is_set,
}
use agentic_ai_software_engi.Base.Dict.{Dict, lookup, insert}
use agentic_ai_software_engi.Runs.Record.{
  RunRecord, Runs, cancelled, cancelling, waiting_approval, is_terminal, watchdog_tracked_statuses,
}

-- `WHERE organization_id = ?`, which is left out where no organization is given.
abbrev pub owned : Option Text → RunRecord → Bool
owned o r = if is_set o then r.organization_id == opt_text o else true

abbrev pub visible : Option Text → Option RunRecord → Option RunRecord
visible o none = none
visible o (some r) = if owned o r then some r else none

-- `get_run` and `_get_run_row`
unfoldable pub get_run : Text → Option Text → Runs → Option RunRecord
get_run id o t = visible o (lookup id t)

-- `UPDATE runs SET ... WHERE run_id = ? AND ...`: the table, and whether a row was changed.
abbrev pub update_row :
    Text → (RunRecord → Bool) → (RunRecord → RunRecord) → Runs → Option RunRecord → Runs × Bool
update_row id where_ f t none = (t, false)
update_row id where_ f t (some r) = if where_ r then (insert id (f r) t, true) else (t, false)

unfoldable pub update : Text → (RunRecord → Bool) → (RunRecord → RunRecord) → Runs → Runs × Bool
update id where_ f t = update_row id where_ f t (lookup id t)

abbrev pub coalesce : Option Text → Option Text → Option Text
coalesce none old = old
coalesce (some new) old = some new

abbrev pub merge : RunRecord → RunRecord → RunRecord
merge new old = record {
  organization_id = new.organization_id;
  created_at = old.created_at;
  started_at = coalesce new.started_at old.started_at;
  status = new.status;
  revision_count = max new.revision_count old.revision_count;
  cancel_requested = new.cancel_requested || old.cancel_requested;
  cancellation_requested_at = coalesce new.cancellation_requested_at old.cancellation_requested_at;
  cancellation_requested_by = coalesce new.cancellation_requested_by old.cancellation_requested_by;
  cancellation_reason = coalesce new.cancellation_reason old.cancellation_reason;
  cancelled_at = coalesce new.cancelled_at old.cancelled_at;
  last_activity_at = coalesce new.last_activity_at old.last_activity_at;
  current_phase = coalesce new.current_phase old.current_phase;
  stuck_at = coalesce new.stuck_at old.stuck_at;
}

abbrev pub merged : RunRecord → Option RunRecord → RunRecord
merged new none = new
merged new (some old) = merge new old

-- `INSERT ... ON CONFLICT(run_id) DO UPDATE`
unfoldable pub create_or_update_run : Text → RunRecord → Runs → Runs
create_or_update_run id new t = insert id (merged new (lookup id t)) t

pub data CancelOutcome : Type 0 where
  requested already_cancelled already_terminal not_found : CancelOutcome

abbrev pub may_request : Text → RunRecord → Bool
may_request owner r =
    r.organization_id == owner && (not r.cancel_requested && not (is_terminal r.status))

abbrev pub with_request : Text → Option Text → Option Text → Text → RunRecord → RunRecord
with_request now reason actor new_status r = record r {
  cancel_requested = true;
  cancellation_requested_at = some now;
  cancellation_requested_by = actor;
  cancellation_reason = reason;
  status = new_status;
  cancelled_at = if new_status == cancelled then some now else r.cancelled_at;
}

-- A run that waits for its approval is cancelled at once, any other one has to be stopped first.
abbrev pub requested_status : RunRecord → Text
requested_status r = if r.status == waiting_approval then cancelled else cancelling

abbrev pub outcome_of : Runs × Bool → CancelOutcome × Runs
outcome_of (t, changed) = (if changed then requested else already_terminal, t)

abbrev pub request_on :
    Text → Text → Option Text → Option Text → Runs → Option RunRecord → CancelOutcome × Runs
request_on now id reason actor t none = (not_found, t)
request_on now id reason actor t (some r) =
    if r.status == cancelled
    then (already_cancelled, t)
    else if is_terminal r.status
    then (already_terminal, t)
    else outcome_of (
        update id (may_request r.organization_id)
          (with_request now reason actor (requested_status r)) t)

unfoldable pub request_cancellation :
    Text → Text → Option Text → Option Text → Option Text → Runs → CancelOutcome × Runs
request_cancellation now id o reason actor t = request_on now id reason actor t (get_run id o t)

abbrev pub mark_cancelled_on : Text → Text → Runs → Option RunRecord → Runs × Bool
mark_cancelled_on now id t none = (t, false)
mark_cancelled_on now id t (some r) =
    update id (λ x. x.organization_id == r.organization_id && not (is_terminal x.status))
      (λ x. record x { status = cancelled; cancelled_at = some now }) t

unfoldable pub mark_cancelled : Text → Text → Option Text → Runs → Runs × Bool
mark_cancelled now id o t = mark_cancelled_on now id t (get_run id o t)

abbrev pub asks_to_stop : Option RunRecord → Bool
asks_to_stop none = false
asks_to_stop (some r) = r.cancel_requested || r.status == cancelled

unfoldable pub is_cancel_requested : Text → Option Text → Runs → Bool
is_cancel_requested id o t = asks_to_stop (get_run id o t)

unfoldable pub update_activity : Text → Text → Option Text → Option Text → Runs → Runs
update_activity now id o phase t =
    (update id (owned o)
      (λ r. record r {
        last_activity_at = some now;
        current_phase = coalesce phase r.current_phase;
      })
      t).0

abbrev pub is_unmarked : Option Text → Bool
is_unmarked none = true
is_unmarked (some _) = false

unfoldable pub mark_stuck : Text → Text → Text → Runs → Runs × Bool
mark_stuck now id organization t =
    update id (λ r. r.organization_id == organization && is_unmarked r.stuck_at)
      (λ r. record r { stuck_at = some now }) t

unfoldable pub list_active_runs : Runs → Runs
list_active_runs t = keep (λ row. elem row.1.status watchdog_tracked_statuses) t
