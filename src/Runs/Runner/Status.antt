-- ===== src/Runs/Runner/Status.antt =====
-- backend/graph/runner.py, the calls of `AgentRunner` that read a run: `get_status` and
-- `get_state_values`. Numbers of pull requests and messages are left out.
use agentic_ai_software_engi.Base.{
  Text, text_eq, Bool, true, false, ◌||◌, Option, none, some, ◌==◌, if◌then◌else◌, is_set,
}
use agentic_ai_software_engi.Base.Dict.{lookup}
use agentic_ai_software_engi.Pipeline.State.{AgentState}
use agentic_ai_software_engi.Runs.Record.{RunRecord, cancelled, cancelling}
use agentic_ai_software_engi.Runs.Store.{get_run}
use agentic_ai_software_engi.Runs.Collector.{failed}
use agentic_ai_software_engi.Runs.Runner.{
  Snapshot, derive_status, Runner, run_not_found, RunAnswer, refused, responded, state_values,
  respond, current_node, or_set,
}
use agentic_ai_software_engi.Runs.Runner.Calls.{running, with_access, status_or}

abbrev pub values_answer : Option AgentState → RunAnswer
values_answer none = refused run_not_found
values_answer (some v) = state_values v

unfoldable pub get_state_values :
    Bool → Text → Option Text → Option Snapshot → Runner → RunAnswer × Runner
get_state_values production id o snap s =
    with_access production id o snap s (λ read s'. (values_answer read.values, s'))

abbrev pub has_stopped : Option RunRecord → Bool
has_stopped none = false
has_stopped (some r) = r.status == cancelled || r.status == cancelling

abbrev pub is_active : Option Text → Bool
is_active none = false
is_active (some x) = true

abbrev pub durable_answer : Option RunRecord → Snapshot → RunAnswer
durable_answer none snap = refused run_not_found
durable_answer (some r) snap = respond r.status (some snap)

abbrev pub running_answer : Option Snapshot → RunAnswer
running_answer snap =
    responded (record { status = running; current_node = current_node snap; shown = none })

abbrev pub unread_answer : Bool → Bool → Option RunRecord → Snapshot → RunAnswer
unread_answer has_failed active durable snap =
    if has_failed
    then respond failed (some snap)
    else if active
    then running_answer none
    else durable_answer durable snap

abbrev pub status_answer : Option AgentState → Bool → Bool → Option RunRecord → Snapshot → RunAnswer
status_answer none has_failed active durable snap = unread_answer has_failed active durable snap
status_answer (some v) has_failed active durable snap =
    if active then running_answer (some snap) else respond (derive_status snap false) (some snap)

abbrev pub status_on : Text → Option Text → Snapshot → Runner → RunAnswer
status_on id o snap s =
    let durable = get_run id (or_set o (lookup id s.run_tenants)) s.runs in
    if has_stopped durable
    then respond (status_or cancelled durable) (some snap)
    else status_answer snap.values (is_set (lookup id s.run_errors))
        (is_active (lookup id s.active_runs)) durable snap

unfoldable pub get_status :
    Bool → Text → Option Text → Option Snapshot → Runner → RunAnswer × Runner
get_status production id o snap s =
    with_access production id o snap s (λ read s'. (status_on id o read s', s'))
