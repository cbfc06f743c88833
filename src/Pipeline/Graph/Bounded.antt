-- ===== src/Pipeline/Graph/Bounded.antt =====
-- The length of a run: each step takes it nearer to its end, revisions included.
use agentic_ai_software_engi.Base.{
  ℕ, ◌+◌, ◌*◌, ◌-◌, ◌≤◌, ◌<◌, Text, true, false, ◌≡◌, refl, sym, subst, Bool-cases, inl, inr, List,
  [], ◌∷◌, arith, length,
}
use agentic_ai_software_engi.Pipeline.State.{AgentState}
use agentic_ai_software_engi.Pipeline.Routes.{
  Node, router, planner, knowledge, developer, qa, revision, git_prepare, policy, approval,
  git_commit, cleanup, finish, cancelled, crashed, route_after_router, route_after_planner,
  route_after_knowledge, route_after_developer, qa_router, route_after_policy, route_after_approval,
}
use agentic_ai_software_engi.Pipeline.Gate.{Outcome, done, stopped, raised, git_commit_node}
use agentic_ai_software_engi.Pipeline.Nodes.{developer_node, qa_node, revision_node}
use agentic_ai_software_engi.Pipeline.Graph.{
  Answers, Run, after_commit, step_at, is_halted, step, run_graph,
}
use agentic_ai_software_engi.Pipeline.Graph.Step.{step-over, step-going}
use agentic_ai_software_engi.Pipeline.Graph.Invariant.{At}
use agentic_ai_software_engi.Pipeline.Graph.Commit.{Inv, step-Inv, IsStart, IsStart-Inv}

-- The steps left at most, by the node at hand and the revisions made.
abbrev rank : Node → ℕ → ℕ
rank router k = 15
rank planner k = 14
rank knowledge k = 13
rank developer k = 12
rank qa k = 5 + 2 * (3 - k)
rank revision k = 4 + 2 * (3 - k)
rank git_prepare k = 4
rank policy k = 3
rank approval k = 2
rank git_commit k = 1
rank cleanup k = 1
rank _ k = 0

abbrev steps_left : Run → ℕ
steps_left c = rank c.node c.state.revision_count

developer-rank :
    (e : Answers) (s : AgentState)
    → rank
        (route_after_developer (developer_node e.patches e.patch_failure s))
        (developer_node e.patches e.patch_failure s).revision_count
      < 12
unfolding route_after_developer
developer-rank e s = ground arith

qa_router-rank :
    (s : AgentState) → rank (qa_router s) s.revision_count < 5 + 2 * (3 - s.revision_count)
unfolding qa_router
qa_router-rank s = ground arith

after_commit-rank : (c : Run) (o : Outcome) → steps_left (after_commit c o) < 1
unfolding after_commit
after_commit-rank c (done t hashes) = ground arith
after_commit-rank c stopped = ground arith
after_commit-rank c raised = ground arith

rank-positive : (n : Node) (k : ℕ) → (is_halted n ≡ false) → 0 < rank n k
rank-positive router k h = ground arith
rank-positive planner k h = ground arith
rank-positive knowledge k h = ground arith
rank-positive developer k h = ground arith
rank-positive qa k h = ground arith
rank-positive revision k h = ground arith
rank-positive git_prepare k h = ground arith
rank-positive policy k h = ground arith
rank-positive approval k h = ground arith
rank-positive git_commit k h = ground arith
rank-positive cleanup k h = ground arith
rank-positive finish k h = ground arith
rank-positive cancelled k h = ground arith
rank-positive crashed k h = ground arith

module _ (patch_hash : Text → Text) where
  step_at-rank :
      (n : Node) (e : Answers) (c : Run)
      → At patch_hash n c.state
      → (is_halted n ≡ false)
      → steps_left (step_at patch_hash n e c) < rank n c.state.revision_count
  unfolding step_at qa_node revision_node route_after_router route_after_planner
      route_after_knowledge route_after_policy route_after_approval
  step_at-rank router e c h k = ground arith
  step_at-rank planner e c h k = ground arith
  step_at-rank knowledge e c h k = ground arith
  step_at-rank developer e c h k = developer-rank e c.state
  step_at-rank qa e c h k = qa_router-rank (qa_node e.checks e.tests e.review c.state)
  step_at-rank revision e c h k = omega arith
  step_at-rank git_prepare e c h k = ground arith
  step_at-rank policy e c h k = ground arith
  step_at-rank approval e c h k = ground arith
  step_at-rank git_commit e c h k = after_commit-rank c (git_commit_node e.commit c.state)
  step_at-rank cleanup e c h k = ground arith
  step_at-rank finish e c h k = ground arith
  step_at-rank cancelled e c h k = ground arith
  step_at-rank crashed e c h k = ground arith

  step-steps_left :
      (e : Answers) (c : Run)
      → Inv patch_hash c
      → (is_halted c.node ≡ false)
      → steps_left (step patch_hash e c) < steps_left c
  step-steps_left e c h k =
      let some_left = rank-positive c.node c.state.revision_count k in
      elim (step-going patch_hash e c k) [
        | inl stop ↦ subst (λ x. steps_left x < steps_left c) (sym stop) some_left
        | inr (inl bad) ↦ subst (λ x. steps_left x < steps_left c) (sym bad) some_left
        | inr (inr moved) ↦
            subst (λ x. steps_left x < steps_left c) (sym moved) (step_at-rank c.node e c h.0 k)
      ]

  run_graph-over :
      (es : List Answers) (c : Run) → (is_halted c.node ≡ true) → run_graph patch_hash es c ≡ c
  unfolding run_graph
  run_graph-over [] c h = refl
  run_graph-over (e ∷ es) c h = rw (step-over patch_hash e c h) (run_graph-over es c h)

  run_graph-IsHalted :
      (es : List Answers) (c : Run)
      → Inv patch_hash c
      → (steps_left c ≤ length es)
      → is_halted (run_graph patch_hash es c).node ≡ true
  unfolding run_graph
  run_graph-IsHalted [] c h k = elim (Bool-cases (is_halted c.node)) [
    | inl over ↦ over
    | inr going ↦ ground (arith, rank-positive c.node c.state.revision_count going)
  ]
  run_graph-IsHalted (e ∷ es) c h k = elim (Bool-cases (is_halted c.node)) [
    | inl over ↦ subst (λ x. is_halted x.node ≡ true) (sym (run_graph-over (e ∷ es) c over)) over
    | inr going ↦
        run_graph-IsHalted es (step patch_hash e c) (step-Inv patch_hash e c h)
          (omega (arith, step-steps_left e c h going))
  ]

  -- Whatever its surroundings answer, a run from its start has ended after fifteen steps, and then no
  -- further step changes it.
  pub run_graph-ends :
      (es fs : List Answers) (c : Run)
      → IsStart patch_hash c
      → (15 ≤ length es)
      → (is_halted (run_graph patch_hash es c).node ≡ true)
        × (run_graph patch_hash fs (run_graph patch_hash es c) ≡ run_graph patch_hash es c)
  run_graph-ends es fs c h k =
      let halted =
        run_graph-IsHalted es c (IsStart-Inv patch_hash c h)
          (subst (λ n. rank n c.state.revision_count ≤ length es) (sym h.0) k) in
      (halted, run_graph-over fs (run_graph patch_hash es c) halted)
