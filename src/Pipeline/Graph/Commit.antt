-- ===== src/Pipeline/Graph/Commit.antt =====
-- What stands behind a commit of a run.
use agentic_ai_software_engi.Base.{
  ◌≤◌, Text, true, false, some, ◌≢◌, ◌≡◌, refl, sym, subst, Bool-cases, ◌⊎◌, inl, inr, List, [],
  ◌∷◌, arith,
}
use agentic_ai_software_engi.Pipeline.State.{AgentState}
use agentic_ai_software_engi.Pipeline.Routes.{
  Node, router, planner, knowledge, developer, qa, revision, git_prepare, policy, approval,
  git_commit, cleanup, finish, cancelled, crashed,
}
use agentic_ai_software_engi.Pipeline.Gate.{Outcome, done, stopped, raised, git_commit_node}
use agentic_ai_software_engi.Pipeline.Gate.Integrity.{hashes_of, git_commit_node-done}
use agentic_ai_software_engi.Pipeline.Nodes.{policy_request}
use agentic_ai_software_engi.Pipeline.Graph.{
  Answers, Run, after_commit, step_at, is_halted, step, run_graph,
}
use agentic_ai_software_engi.Policy.Schema.{block, PolicyEvaluationResult}
use agentic_ai_software_engi.Policy.Evaluator.{policy_of}
use agentic_ai_software_engi.Policy.Evaluator
use agentic_ai_software_engi.Policy.Evaluator.Rules.{Complies}
use agentic_ai_software_engi.Policy.Evaluator.Compliance.{evaluate-block}
use agentic_ai_software_engi.Pipeline.Routes.{is_blocked}
use agentic_ai_software_engi.Pipeline.Graph.Invariant.{IsRuled, IsCleared, At, step_at-At}
use agentic_ai_software_engi.Pipeline.Graph.Step.{step-over, step-going}

not_blocked : (r : PolicyEvaluationResult) → (is_blocked (some r) ≡ false) → r.decision ≢ block
not_blocked r h = ground arith

module _ (patch_hash : Text → Text) where
  abbrev pub CommitsOf : Node → AgentState → List Text → Type 0
  CommitsOf n s hs =
      (hs ≡ []) ⊎ ((is_halted n ≡ true) × (hs ≡ hashes_of s.git_diff) × IsCleared patch_hash s)

  abbrev pub Inv : Run → Type 0
  Inv c = At patch_hash c.node c.state × CommitsOf c.node c.state c.commits

  after_commit-CommitsOf :
      (c : Run) (o : Outcome)
      → (c.commits ≡ [])
      → ((t : AgentState) (hashes : List Text) → (o ≡ done t hashes) → CommitsOf finish t hashes)
      → CommitsOf (after_commit c o).node (after_commit c o).state (after_commit c o).commits
  unfolding after_commit
  after_commit-CommitsOf c (done t hashes) h k = rw h (k t hashes refl)
  after_commit-CommitsOf c stopped h k = inl h
  after_commit-CommitsOf c raised h k = inl h

  done-CommitsOf :
      (s t : AgentState) (hashes : List Text)
      → IsCleared patch_hash s
      → (t ≡ record s { approval_status = t.approval_status })
      → ((hashes ≡ []) ⊎ (hashes ≡ hashes_of s.git_diff))
      → CommitsOf finish t hashes
  unfolding policy_request
  done-CommitsOf s t hashes h eq (inl none_made) = inl none_made
  done-CommitsOf s t hashes h eq (inr it) =
      subst (λ x. CommitsOf finish x hashes) (sym eq) (inr (refl, it, h))

  step_at-CommitsOf :
      (n : Node) (e : Answers) (c : Run)
      → At patch_hash n c.state
      → (c.commits ≡ [])
      → CommitsOf
          (step_at patch_hash n e c).node
          (step_at patch_hash n e c).state
          (step_at patch_hash n e c).commits
  unfolding step_at
  step_at-CommitsOf git_commit e c h k =
      after_commit-CommitsOf c (git_commit_node e.commit c.state) k (λ t hashes eq.
        let (same, which) = git_commit_node-done e.commit c.state t hashes eq in
        done-CommitsOf c.state t hashes h same which)
  step_at-CommitsOf _ e c h k = inl k

  pub At-revision_count : (n : Node) (s : AgentState) → At patch_hash n s → s.revision_count ≤ 3
  At-revision_count router s h = omega arith
  At-revision_count planner s h = omega arith
  At-revision_count knowledge s h = omega arith
  At-revision_count developer s h = omega arith
  At-revision_count qa s h = h
  At-revision_count revision s h = omega arith
  At-revision_count git_prepare s h = h.0
  At-revision_count policy s h = h.0
  At-revision_count approval s h = h.0.0
  At-revision_count git_commit s h = h.0.0
  At-revision_count cleanup s h = h
  At-revision_count finish s h = h
  At-revision_count cancelled s h = h
  At-revision_count crashed s h = h

  CommitsOf-none :
      (n : Node) (s : AgentState) (hs : List Text)
      → CommitsOf n s hs
      → (is_halted n ≡ false)
      → hs ≡ []
  CommitsOf-none n s hs (inl h) k = h
  CommitsOf-none n s hs (inr h) k = ground arith

  pub step-Inv : (e : Answers) (c : Run) → Inv c → Inv (step patch_hash e c)
  step-Inv e c h = elim (Bool-cases (is_halted c.node)) [
    | inl over ↦ subst Inv (sym (step-over patch_hash e c over)) h
    | inr going ↦
        let empty = CommitsOf-none c.node c.state c.commits h.1 going in
        let few = At-revision_count c.node c.state h.0 in
        elim (step-going patch_hash e c going) [
          | inl stop ↦ subst Inv (sym stop) (few, inl empty)
          | inr (inl bad) ↦ subst Inv (sym bad) (few, inl empty)
          | inr (inr moved) ↦
              subst Inv (sym moved)
                (step_at-At patch_hash c.node e c h.0 going, step_at-CommitsOf c.node e c h.0 empty)
        ]
  ]

  pub run_graph-Inv : (es : List Answers) (c : Run) → Inv c → Inv (run_graph patch_hash es c)
  unfolding run_graph
  run_graph-Inv [] c h = h
  run_graph-Inv (e ∷ es) c h = run_graph-Inv es (step patch_hash e c) (step-Inv e c h)

  abbrev pub IsStart : Run → Type 0
  IsStart c = (c.node ≡ router) × (c.state.revision_count ≡ 0) × (c.commits ≡ [])

  pub IsStart-Inv : (c : Run) → IsStart c → Inv c
  IsStart-Inv c (n, k, e) = (subst (λ x. At patch_hash x c.state) (sym n) k, inl e)

  -- Whatever its surroundings answer, a run from its start has tried no commit, or one commit, of the
  -- staged diff. Then quality assurance had passed, the diff carries the hash of its own text, the
  -- policy of the run had judged that diff and had not blocked it, and a decision that approves and
  -- names that hash had been made on a diff that is not a no-op.
  pub run_graph-commits :
      (es : List Answers) (c : Run)
      → IsStart c
      → ((run_graph patch_hash es c).commits ≡ [])
        ⊎ (((run_graph patch_hash es c).commits
              ≡ hashes_of (run_graph patch_hash es c).state.git_diff)
            × IsCleared patch_hash (run_graph patch_hash es c).state)
  run_graph-commits es c h = elim ((run_graph-Inv es c (IsStart-Inv c h)).1) [
    | inl none_made ↦ inl none_made
    | inr it ↦ inr (it.1, it.2)
  ]

  -- A run from its start makes at most three revisions.
  pub run_graph-revision_count :
      (es : List Answers) (c : Run)
      → IsStart c
      → (run_graph patch_hash es c).state.revision_count ≤ 3
  run_graph-revision_count es c h =
      let r = run_graph patch_hash es c in
      At-revision_count r.node r.state (run_graph-Inv es c (IsStart-Inv c h)).0

  IsRuled-Complies :
      (s : AgentState)
      → IsRuled patch_hash s
      → Complies (policy_of s.policy_config) (policy_request s)
  IsRuled-Complies s (judged, free) = (evaluate-block s.policy_config (policy_request s)).0 (
      not_blocked (Evaluator.evaluate s.policy_config (policy_request s))
        (subst (λ r. is_blocked r ≡ false) judged free))

  -- Where a run from its start has tried a commit, its change complies with the policy that the run
  -- carries, as Policy.Evaluator.Rules says it without the functions of the evaluator: the
  -- repository, the branch, the paths, the limits on files and lines, no FAIL of quality assurance
  -- nor of a required check, and the risk. A required check that is missing, skipped or in error
  -- is no breach. The policy node names no model, so the allowed models do not matter here.
  pub run_graph-Complies :
      (es : List Answers) (c : Run)
      → IsStart c
      → ((run_graph patch_hash es c).commits ≢ [])
      → Complies
          (policy_of (run_graph patch_hash es c).state.policy_config)
          (policy_request (run_graph patch_hash es c).state)
  run_graph-Complies es c h k = elim (run_graph-commits es c h) [
    | inl none_made ↦ elim (k none_made) [ ]
    | inr (made, cleared) ↦ IsRuled-Complies (run_graph patch_hash es c).state cleared.1
  ]
