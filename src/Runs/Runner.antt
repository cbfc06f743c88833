-- ===== src/Runs/Runner.antt =====
-- backend/graph/runner.py, `AgentRunner`: who may act on a run, what its status is, and how it is
-- started, resumed and cancelled. The checkpointer and `graph.invoke` are arguments.
pub mod Calls
pub mod Status
pub mod Tenancy
pub mod Terminal
pub mod Cancelled
use agentic_ai_software_engi.Words
use agentic_ai_software_engi.Base.{
  Text, codes, text_eq, Bool, true, false, ◌&&◌, ◌||◌, not, Option, none, some, List, [], ◌∷◌, ◌==◌,
  if◌then◌else◌, is_set, opt_text,
}
use agentic_ai_software_engi.Base.Dict.{Dict, lookup, insert, erase}
use agentic_ai_software_engi.Quality.Schema.{QaResult}
use agentic_ai_software_engi.Vcs.Diff.{ApprovalDecision, is_empty}
use agentic_ai_software_engi.Pipeline.State.{
  ApprovalStatus, policy_blocked, no_op_or_missing_diff, committed, commit_failed, AgentState,
}
use agentic_ai_software_engi.Runs.Record.{
  RunRecord, Runs, cancelled, cancelling, waiting_approval, is_terminal,
}
use agentic_ai_software_engi.Runs.Store.{
  CancelOutcome, requested, already_cancelled, already_terminal, not_found, get_run,
  request_cancellation, mark_cancelled,
}
use agentic_ai_software_engi.Runs.Collector.{
  default_org, completed, failed, on_run_created, on_run_started, on_approval_requested,
  on_approval_decision, on_run_completed, on_run_failed,
}

-- What LangGraph's checkpoint of a run shows: its values, where there are any, the nodes that come
-- next, and the tasks that are pending.
pub record Task : Type 0 where
  pub name : Text
  pub has_error : Bool
  pub has_interrupts : Bool

pub record Snapshot : Type 0 where
  pub values : Option AgentState
  pub next : List Text
  pub tasks : List Task

abbrev pub is_crash : Text → List Task → Bool
is_crash node [] = false
is_crash node (t ∷ ts) =
    let rest = is_crash node ts in
    if t.name == node then t.has_error && not t.has_interrupts else rest

abbrev pub is_committed : Option ApprovalStatus → Bool
is_committed (some committed) = true
is_committed o = false

abbrev pub is_commit_failed : Option ApprovalStatus → Bool
is_commit_failed (some commit_failed) = true
is_commit_failed o = false

abbrev pub is_unpassed : Option QaResult → Bool
is_unpassed none = false
is_unpassed (some q) = not (q.status == Words.pass)

abbrev pub end_status : Option AgentState → Text
end_status none = completed
end_status (some v) =
    if is_commit_failed v.approval_status
    then failed
    else if is_unpassed v.qa_result && not (is_committed v.approval_status)
    then failed
    else completed

abbrev pub paused_status : List Text → List Task → Bool → Option AgentState → Text
paused_status (n ∷ ns) tasks marker v = if is_crash n tasks then failed else waiting_approval
paused_status [] tasks marker v = if marker then waiting_approval else end_status v

-- The second argument says whether `invoke` has answered with an interrupt.
unfoldable pub derive_status : Snapshot → Bool → Text
derive_status snap marker = paused_status snap.next snap.tasks marker snap.values

pub data GraphInput : Type 0 where
  start : Text → GraphInput
  resume : ApprovalDecision → GraphInput

-- How `invoke` ends, the workspace lock around it included: with the checkpoint and the store that it
-- leaves. A checkpoint that cannot be read after a return counts as raised.
pub data Invoked : Type 0 where
  returned : Bool → Snapshot → Runs → Invoked
  stopped : Option Snapshot → Runs → Invoked
  raised : Text → Option Snapshot → Runs → Invoked

-- The fields of the runner with the durable store, and what the graph was invoked with, latest first.
pub record Runner : Type 0 where
  pub run_tenants : Dict Text Text
  pub active_runs : Dict Text Text
  pub run_errors : Dict Text Text
  pub runs : Runs
  pub invocations : List (Text × GraphInput)

pub data Refusal : Type 0 where
  run_not_found unreadable authentication_required run_cancelled run_terminal : Refusal
  not_awaiting too_late : Refusal

-- The node where the graph stands, and the checkpoint that diff, quality and policy are read from.
pub record Response : Type 0 where
  pub status : Text
  pub current_node : Option Text
  pub shown : Option Snapshot

pub data RunAnswer : Type 0 where
  refused : Refusal → RunAnswer
  responded : Response → RunAnswer
  state_values : AgentState → RunAnswer

abbrev pub first_of : List Text → Option Text
first_of [] = none
first_of (n ∷ ns) = some n

abbrev pub current_node : Option Snapshot → Option Text
current_node none = none
current_node (some snap) = first_of snap.next

-- `_build_status_response`
abbrev pub respond : Text → Option Snapshot → RunAnswer
respond status snap =
    responded (record { status = status; current_node = current_node snap; shown = snap })

abbrev pub or_set : Option Text → Option Text → Option Text
or_set a b = if is_set a then a else b

abbrev pub state_organization : Option AgentState → Option Text
state_organization none = none
state_organization (some v) = v.organization_id

abbrev pub snapshot_organization : Option Snapshot → Option Text
snapshot_organization none = none
snapshot_organization (some snap) = state_organization snap.values

abbrev pub record_organization : Option RunRecord → Option Text
record_organization none = none
record_organization (some r) = some r.organization_id

-- The organization of a run: what the runner remembers, or else the checkpoint, or else the store.
unfoldable pub assigned_org : Text → Option Snapshot → Runner → Option Text
assigned_org id snap s =
    or_set (lookup id s.run_tenants)
      (or_set (snapshot_organization snap) (record_organization (get_run id none s.runs)))

abbrev pub remember : Text → Option Text → Runner → Runner
remember id a s =
    if is_set a then record s { run_tenants = insert id (opt_text a) s.run_tenants } else s

unfoldable pub track : Text → Option Snapshot → Runner → Runner
track id snap s =
    if is_set (lookup id s.run_tenants) then s else remember id (assigned_org id snap s) s

-- Without a caller's organization only development goes on.
unfoldable pub may_access : Bool → Option Text → Option Text → Bool
may_access production o a =
    if is_set o then not (is_set a) || (opt_text a == opt_text o) else not production

unfoldable pub check_tenant_access :
    Bool → Text → Option Text → Option Snapshot → Runner → Runner × Bool
check_tenant_access production id o snap s =
    (if is_set o then track id snap s else s, may_access production o (assigned_org id snap s))

unfoldable pub require_org : Bool → Option Text → Option Text → Option Text
require_org production o a =
    if is_set o then o else if is_set a then a else if production then none else some default_org

abbrev pub is_over : Option RunRecord → Bool
is_over none = false
is_over (some r) = is_terminal r.status

abbrev pub is_cancelled : Option RunRecord → Bool
is_cancelled none = false
is_cancelled (some r) = r.status == cancelled

-- The guards of `resume_run`, in their order.
unfoldable pub resume_refusal : List Text → Option RunRecord → Option Refusal
resume_refusal next r =
    if is_cancelled r
    then some run_cancelled
    else if is_over r
    then some run_terminal
    else if is_empty next
    then some not_awaiting
    else none
