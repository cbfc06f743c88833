-- ===== src/Pipeline/Routes.antt =====
-- The routing functions of backend/graph/nodes.py.
use agentic_ai_software_engi.Words
use agentic_ai_software_engi.Base.{
  ℕ, Text, text_eq, Bool, true, false, ◌&&◌, ◌||◌, not, Option, none, some, ◌==◌, leb,
  if◌then◌else◌, strip, upper, is_set,
}
use agentic_ai_software_engi.Quality.Schema.{QaResult}
use agentic_ai_software_engi.Policy.Schema.{block, PolicyEvaluationResult}
use agentic_ai_software_engi.Vcs.Diff.{is_no_op}
use agentic_ai_software_engi.Pipeline.State.{
  TaskType, knowledge_search, general, RoutingDecision, AgentState,
}

-- Where the graph goes: its nodes, its end, and the two ways in which a run stops early.
pub data Node : Type 0 where
  router planner knowledge developer qa revision git_prepare policy approval git_commit : Node
  cleanup finish cancelled crashed : Node

abbrev is_general : TaskType → Bool
is_general general = true
is_general _ = false

abbrev is_search : TaskType → Bool
is_search knowledge_search = true
is_search _ = false

unfoldable pub route_after_router : RoutingDecision → Node
route_after_router r =
    if is_general r.task_type
    then finish
    else if r.requires_planning
    then planner
    else if is_search r.task_type || r.requires_knowledge
    then knowledge
    else developer

abbrev needs_knowledge : Option RoutingDecision → Bool
needs_knowledge none = false
needs_knowledge (some r) = r.requires_knowledge

abbrev only_searches : Option RoutingDecision → Bool
only_searches none = false
only_searches (some r) = is_search r.task_type && not r.requires_planning

unfoldable pub route_after_planner : AgentState → Node
route_after_planner s =
    if needs_knowledge s.routing && is_set s.project_id then knowledge else developer

unfoldable pub route_after_knowledge : AgentState → Node
route_after_knowledge s = if only_searches s.routing then finish else developer

abbrev pub max_revisions : ℕ
max_revisions = 3

abbrev has_category : Text → Option Text → Bool
has_category t none = false
has_category t (some c) = c == t

-- The recoverable failure that `developer_node` can report itself.
abbrev is_recoverable : Option QaResult → Bool
is_recoverable none = false
is_recoverable (some r) =
    upper (strip r.status) == Words.fail
    && has_category Words.patch_application_failure r.failure_category

unfoldable pub route_after_developer : AgentState → Node
route_after_developer s = if is_recoverable s.qa_result then revision else qa

abbrev pub qa_passed : Option QaResult → Bool
qa_passed none = false
qa_passed (some r) = upper (strip r.status) == Words.pass

-- "pass" leads to `git_prepare`, "fail" to `revision` and "max_retries" to the end.
unfoldable pub qa_router : AgentState → Node
qa_router s =
    if qa_passed s.qa_result
    then git_prepare
    else if leb max_revisions s.revision_count
    then finish
    else revision

abbrev pub is_blocked : Option PolicyEvaluationResult → Bool
is_blocked none = false
is_blocked (some r) = elim r.decision [ block ↦ true | _ ↦ false ]

abbrev pub stages_no_op : AgentState → Bool
stages_no_op s = elim s.git_diff [ none ↦ false | some d ↦ is_no_op d ]

unfoldable pub route_after_policy : AgentState → Node
route_after_policy s =
    if stages_no_op s then cleanup else if is_blocked s.policy_result then cleanup else approval

abbrev pub is_approved : AgentState → Bool
is_approved s = elim s.approval [ none ↦ false | some a ↦ a.approved ]

unfoldable pub route_after_approval : AgentState → Node
route_after_approval s =
    if is_blocked s.policy_result then cleanup else if is_approved s then git_commit else cleanup
