-- ===== src/Pipeline/Graph/Invariant.antt =====
-- What holds of a run at each node, and so what stands behind a commit.
use agentic_ai_software_engi.Base.{
  ◌≤◌, ◌<◌, Text, true, false, ◌≡◌, refl, sym, subst, Option, none, some, List, [], ◌∷◌, arith,
}
use agentic_ai_software_engi.Policy.Evaluator
use agentic_ai_software_engi.Vcs.Diff.{GitDiffSummary, ApprovalDecision}
use agentic_ai_software_engi.Quality.Schema.{FilePatch}
use agentic_ai_software_engi.Pipeline.State.{AgentState}
use agentic_ai_software_engi.Pipeline.Routes.{
  Node, router, planner, knowledge, developer, qa, revision, git_prepare, policy, approval,
  git_commit, cleanup, finish, cancelled, crashed, qa_passed, is_blocked, is_approved,
  route_after_router, route_after_planner, route_after_knowledge, route_after_developer, qa_router,
  route_after_policy, route_after_approval,
}
use agentic_ai_software_engi.Pipeline.Gate.{
  settle, approval_node, Outcome, done, stopped, raised, git_commit_node, cleanup_node,
}
use agentic_ai_software_engi.Pipeline.Gate.Integrity.{
  BoundTo, approval_node-settle, git_commit_node-done,
}
use agentic_ai_software_engi.Pipeline.Nodes.{
  router_node, developer_node, qa_node, revision_node, StageAnswers, prepared_diff,
  git_prepare_node, policy_request, policy_node,
}
use agentic_ai_software_engi.Pipeline.Graph.{Answers, Run, after_commit, step_at, is_halted}

abbrev pub IsApprovedFor : Option GitDiffSummary → Option ApprovalDecision → Type 0
IsApprovedFor d none = ⊥
IsApprovedFor d (some a) = (a.approved ≡ true) × BoundTo d a

module _ (patch_hash : Text → Text) where
  -- The staged diff carries the hash of its own text.
  abbrev pub IsSealed : Option GitDiffSummary → Type 0
  IsSealed none = ⊥
  IsSealed (some d) = d.patch_hash ≡ patch_hash d.unified_diff

  abbrev pub IsStaged : AgentState → Type 0
  IsStaged s = (s.revision_count ≤ 3) × (qa_passed s.qa_result ≡ true) × IsSealed s.git_diff

  -- The policy of the run has judged this very change, and has not blocked it.
  abbrev pub IsRuled : AgentState → Type 0
  IsRuled s =
      (s.policy_result ≡ some (Evaluator.evaluate s.policy_config (policy_request s)))
      × (is_blocked s.policy_result ≡ false)

  abbrev pub IsCleared : AgentState → Type 0
  IsCleared s = IsStaged s × IsRuled s × IsApprovedFor s.git_diff s.approval

  abbrev pub At : Node → AgentState → Type 0
  At router s = s.revision_count ≡ 0
  At planner s = s.revision_count ≡ 0
  At knowledge s = s.revision_count ≡ 0
  At developer s = s.revision_count ≡ 0
  At revision s = s.revision_count < 3
  At git_prepare s = (s.revision_count ≤ 3) × (qa_passed s.qa_result ≡ true)
  At policy s = IsStaged s
  At approval s = IsStaged s × IsRuled s
  At git_commit s = IsCleared s
  At _ s = s.revision_count ≤ 3

  router-At :
      (e : Answers) (s : AgentState)
      → At router s
      → At (route_after_router e.routing) (router_node e.routing s)
  unfolding route_after_router router_node
  router-At e s h = ground arith

  planner-At : (s : AgentState) → At planner s → At (route_after_planner s) s
  unfolding route_after_planner
  planner-At s h = ground arith

  knowledge-At : (s : AgentState) → At knowledge s → At (route_after_knowledge s) s
  unfolding route_after_knowledge
  knowledge-At s h = ground arith

  developer-At :
      (e : Answers) (s : AgentState)
      → At developer s
      → At
          (route_after_developer (developer_node e.patches e.patch_failure s))
          (developer_node e.patches e.patch_failure s)
  unfolding route_after_developer developer_node
  developer-At e s h = elim e.patch_failure [ none ↦ ground arith | some c ↦ ground arith ]

  qa-At :
      (e : Answers) (s : AgentState)
      → At qa s
      → At (qa_router (qa_node e.checks e.tests e.review s)) (qa_node e.checks e.tests e.review s)
  unfolding qa_router qa_node
  qa-At e s h = ground arith

  revision-At : (e : Answers) (s : AgentState) → At revision s → At qa (revision_node e.patches s)
  unfolding revision_node
  revision-At e s h = ground arith

  prepared_diff-IsSealed :
      (e : StageAnswers) (ps : List FilePatch) → IsSealed (some (prepared_diff patch_hash e ps))
  unfolding prepared_diff
  prepared_diff-IsSealed e [] = refl
  prepared_diff-IsSealed e (p ∷ ps) = ground arith

  git_prepare-At :
      (e : Answers) (s : AgentState)
      → At git_prepare s
      → At policy (git_prepare_node patch_hash e.stage s)
  unfolding git_prepare_node
  git_prepare-At e s h = (h.0, h.1, prepared_diff-IsSealed e.stage s.generated_patches)

  route_after_policy-At :
      (s : AgentState)
      → IsStaged s
      → (s.policy_result ≡ some (Evaluator.evaluate s.policy_config (policy_request s)))
      → At (route_after_policy s) s
  unfolding route_after_policy
  route_after_policy-At s h k = ground arith

  policy-At :
      (s : AgentState) → At policy s → At (route_after_policy (policy_node s)) (policy_node s)
  unfolding policy_node policy_request
  policy-At s h = route_after_policy-At (policy_node s) h refl

  route_after_approval-At :
      (s : AgentState)
      → IsStaged s
      → IsRuled s
      → ((is_approved s ≡ true) → IsApprovedFor s.git_diff s.approval)
      → At (route_after_approval s) s
  unfolding route_after_approval
  route_after_approval-At s h k l = ground arith

  approval-At :
      (e : Answers) (s : AgentState)
      → At approval s
      → At (route_after_approval (approval_node e.resume s)) (approval_node e.resume s)
  unfolding policy_request
  approval-At e s h =
      let (a, status, eq, bound) = approval_node-settle e.resume s in
      rw eq (route_after_approval-At (settle s a status) h.0 h.1 (λ k. (k, bound k)))

  cleanup-At : (s : AgentState) → At cleanup s → At finish (cleanup_node s)
  unfolding cleanup_node
  cleanup-At s h = ground arith

  after_commit-At :
      (c : Run) (o : Outcome)
      → (c.state.revision_count ≤ 3)
      → ((t : AgentState) (hashes : List Text) → (o ≡ done t hashes) → (t.revision_count ≤ 3))
      → At (after_commit c o).node (after_commit c o).state
  unfolding after_commit
  after_commit-At c (done t hashes) h k = k t hashes refl
  after_commit-At c stopped h k = h
  after_commit-At c raised h k = h

  git_commit-At :
      (e : Answers) (c : Run)
      → At git_commit c.state
      → At
          (after_commit c (git_commit_node e.commit c.state)).node
          (after_commit c (git_commit_node e.commit c.state)).state
  git_commit-At e c h = after_commit-At c (git_commit_node e.commit c.state) h.0.0 (λ t hashes eq.
      subst (λ x. x.revision_count ≤ 3) (sym (git_commit_node-done e.commit c.state t hashes eq).0)
        h.0.0)

  pub step_at-At :
      (n : Node) (e : Answers) (c : Run)
      → At n c.state
      → (is_halted n ≡ false)
      → At (step_at patch_hash n e c).node (step_at patch_hash n e c).state
  unfolding step_at
  step_at-At router e c h k = router-At e c.state h
  step_at-At planner e c h k = planner-At c.state h
  step_at-At knowledge e c h k = knowledge-At c.state h
  step_at-At developer e c h k = developer-At e c.state h
  step_at-At qa e c h k = qa-At e c.state h
  step_at-At revision e c h k = revision-At e c.state h
  step_at-At git_prepare e c h k = git_prepare-At e c.state h
  step_at-At policy e c h k = policy-At c.state h
  step_at-At approval e c h k = approval-At e c.state h
  step_at-At git_commit e c h k = git_commit-At e c h
  step_at-At cleanup e c h k = cleanup-At c.state h
  step_at-At finish e c h k = ground arith
  step_at-At cancelled e c h k = ground arith
  step_at-At crashed e c h k = ground arith
