-- ===== src/Runs/Collector.antt =====
-- backend/observability/collector.py, the calls of the runner: what they write to the columns of
-- Runs.Record. Events, and columns that only report, are left out; `now` is the time of the call.
use agentic_ai_software_engi.Base.{
  ℕ, Text, codes, text_eq, false, ◌&&◌, not, Option, none, some, [], ◌==◌, if◌then◌else◌,
}
use agentic_ai_software_engi.Runs.Record.{RunRecord, Runs, waiting_approval}
use agentic_ai_software_engi.Runs.Store.{get_run, create_or_update_run}

unfoldable pub default_org : Text
default_org = codes "default-org"

unfoldable pub completed : Text
completed = codes "COMPLETED"

unfoldable pub failed : Text
failed = codes "FAILED"

-- `RunRecord(run_id=..., organization_id=...)`
abbrev pub queued : Text → Text → RunRecord
queued now organization = record {
  organization_id = organization;
  created_at = now;
  started_at = none;
  status = codes "QUEUED";
  revision_count = 0;
  cancel_requested = false;
  cancellation_requested_at = none;
  cancellation_requested_by = none;
  cancellation_reason = none;
  cancelled_at = none;
  last_activity_at = none;
  current_phase = none;
  stuck_at = none;
}

abbrev pub recorded_or : Text → Option RunRecord → Text
recorded_or organization none = organization
recorded_or organization (some r) = r.organization_id

-- `_resolve_org` without a tenant: a name other than the default one wins.
unfoldable pub resolve_org : Text → Text → Runs → Text
resolve_org id organization t =
    if not (organization == []) && not (organization == default_org)
    then organization
    else recorded_or (if organization == [] then default_org else organization) (get_run id none t)

abbrev pub or_queued : Text → Text → Option RunRecord → RunRecord
or_queued now organization none = queued now organization
or_queued now organization (some r) = r

unfoldable pub on_run_created : Text → Text → Text → Runs → Runs
on_run_created now id organization t =
    create_or_update_run id (queued now (resolve_org id organization t)) t

abbrev pub start_row : Text → Text → Text → Option RunRecord → Runs → Runs
start_row now id organization none t =
    create_or_update_run id
      (record (queued now (resolve_org id organization t)) {
        status = codes "RUNNING";
        started_at = some now;
      })
      (on_run_created now id organization t)
start_row now id organization (some r) t =
    create_or_update_run id (record r { status = codes "RUNNING"; started_at = some now }) t

unfoldable pub on_run_started : Text → Text → Text → Runs → Runs
on_run_started now id organization t =
    let o = resolve_org id organization t in start_row now id o (get_run id (some o) t) t

-- Writes a record back after a change that these columns do not show.
abbrev pub write_back : Text → Option RunRecord → Runs → Runs
write_back id none t = t
write_back id (some r) t = create_or_update_run id r t

abbrev pub ask_row : Text → Option RunRecord → Runs → Runs
ask_row id none t = t
ask_row id (some r) t = create_or_update_run id (record r { status = waiting_approval }) t

unfoldable pub on_approval_requested : Text → Text → Runs → Runs
on_approval_requested id organization t =
    ask_row id (get_run id (some (resolve_org id organization t)) t) t

unfoldable pub on_approval_decision : Text → Text → Runs → Runs
on_approval_decision id organization t =
    write_back id (get_run id (some (resolve_org id organization t)) t) t

unfoldable pub on_run_completed : Text → Text → Text → ℕ → Runs → Runs
on_run_completed now id organization revisions t =
    let o = resolve_org id organization t in
    create_or_update_run id
      (record (or_queued now o (get_run id (some o) t)) {
        status = completed;
        revision_count = revisions;
      })
      t

unfoldable pub on_run_failed : Text → Text → Text → Runs → Runs
on_run_failed now id organization t =
    let o = resolve_org id organization t in
    create_or_update_run id (record (or_queued now o (get_run id (some o) t)) { status = failed }) t
