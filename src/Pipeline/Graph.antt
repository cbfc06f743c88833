-- ===== src/Pipeline/Graph.antt =====
-- The graph of backend/graph/runner.py (`_build_graph`): one step runs the node at hand on the
-- answers of its surroundings and takes the edge that its route names.
pub mod Step
pub mod Invariant
pub mod Commit
pub mod Bounded
use agentic_ai_software_engi.Base.{
  ℕ, Text, Bool, true, false, ◌&&◌, Option, none, some, List, [], ◌∷◌, ◌++◌, if◌then◌else◌, is_set,
}
use agentic_ai_software_engi.Quality.Schema.{QualityCheck, QaResult, TestExecutionResult, FilePatch}
use agentic_ai_software_engi.Pipeline.State.{RoutingDecision, AgentState}
use agentic_ai_software_engi.Pipeline.Routes.{
  Node, router, planner, knowledge, developer, qa, revision, git_prepare, policy, approval,
  git_commit, cleanup, finish, cancelled, crashed, route_after_router, route_after_planner,
  route_after_knowledge, route_after_developer, qa_router, route_after_policy, route_after_approval,
}
use agentic_ai_software_engi.Pipeline.Gate.{
  Resume, approval_node, CommitAnswers, Outcome, done, stopped, raised, git_commit_node,
  cleanup_node,
}
use agentic_ai_software_engi.Pipeline.Nodes.{
  router_node, developer_node, qa_node, revision_node, StageAnswers, git_prepare_node, policy_node,
}

-- Everything that a step may be told from outside; each node reads its own part. `raises` stands
-- for an exception in the node, such as an unsafe workspace or a provider that gives up.
pub record Answers : Type 0 where
  pub cancel_requested : Bool
  pub raises : Bool
  pub routing : RoutingDecision
  pub patches : List FilePatch
  pub patch_failure : Option QualityCheck
  pub checks : List QualityCheck
  pub tests : Option TestExecutionResult
  pub review : QaResult
  pub stage : StageAnswers
  pub resume : Resume
  pub commit : CommitAnswers

-- A run: the node that comes next, the state, and the patch hashes of all the commits attempted.
pub record Run : Type 0 where
  pub node : Node
  pub state : AgentState
  pub commits : List Text

abbrev goto : Run → Node → AgentState → Run
goto c n s = record c { node = n; state = s }

abbrev pub halt : Run → Node → Run
halt c n = record c { node = n }

-- The edge behind `git_commit`, by how the node ended.
unfoldable pub after_commit : Run → Outcome → Run
after_commit c (done s hashes) = record { node = finish; state = s; commits = c.commits ++ hashes }
after_commit c stopped = halt c cancelled
after_commit c raised = halt c crashed

-- Has the run ended?
abbrev pub is_halted : Node → Bool
is_halted finish = true
is_halted cancelled = true
is_halted crashed = true
is_halted _ = false

-- Cleanup alone has no check for cancellation; a run without an id is never cancelled.
abbrev pub heeds_cancel : Node → AgentState → Bool
heeds_cancel cleanup s = false
heeds_cancel _ s = is_set s.run_id

module _ (patch_hash : Text → Text) where
  -- A node that is not stopped at its entry.
  unfoldable pub step_at : Node → Answers → Run → Run
  unfolding after_commit
  step_at router e c =
      let s = router_node e.routing c.state in goto c (route_after_router e.routing) s
  step_at planner e c = goto c (route_after_planner c.state) c.state
  step_at knowledge e c = goto c (route_after_knowledge c.state) c.state
  step_at developer e c =
      let s = developer_node e.patches e.patch_failure c.state in goto c (route_after_developer s) s
  step_at qa e c = let s = qa_node e.checks e.tests e.review c.state in goto c (qa_router s) s
  step_at revision e c = goto c qa (revision_node e.patches c.state)
  step_at git_prepare e c = goto c policy (git_prepare_node patch_hash e.stage c.state)
  step_at policy e c = let s = policy_node c.state in goto c (route_after_policy s) s
  step_at approval e c = let s = approval_node e.resume c.state in goto c (route_after_approval s) s
  step_at git_commit e c = after_commit c (git_commit_node e.commit c.state)
  step_at cleanup e c = goto c finish (cleanup_node c.state)
  step_at finish e c = c
  step_at cancelled e c = c
  step_at crashed e c = c

  unfoldable pub step : Answers → Run → Run
  step e c =
      if is_halted c.node
      then c
      else if heeds_cancel c.node c.state && e.cancel_requested
      then halt c cancelled
      else if e.raises
      then halt c crashed
      else step_at c.node e c

  unfoldable pub run_graph : List Answers → Run → Run
  run_graph [] c = c
  run_graph (e ∷ es) c = run_graph es (step e c)
