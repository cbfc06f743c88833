-- ===== src/Examples/Pipeline.antt =====
-- A run that goes from its start to a commit, and what the theorems say of it.
use agentic_ai_software_engi.Words
use agentic_ai_software_engi.Base.{
  codes, text_eq, ℕ_discrete, true, false, ◌≡◌, refl, ◌≢◌, ◌⊎◌, none, some, [], ◌∷◌, arith, strip,
  upper, lower, contains, ends_with,
}
use agentic_ai_software_engi.Quality.Judge
use agentic_ai_software_engi.Quality.Objective.{objective_verdict, failing}
use agentic_ai_software_engi.Policy.Evaluator
use agentic_ai_software_engi.Policy.Paths.{is_traversal_attack, matches_protected_path}
use agentic_ai_software_engi.Policy.Change.{
  matches_any, repository_violations, branch_violations, allowed_branch_violations, path_violations,
  file_violations, limit_violations, touches_manifest, touches_ci, touches_config,
}
use agentic_ai_software_engi.Vcs.Risk.{
  evaluate_risk, high_reasons, size_reasons, files_reasons, file_reasons, deletion_reasons,
  risky_pattern, is_config_file, high_risk_patterns, config_extensions,
}
use agentic_ai_software_engi.Policy.Patterns.{
  dependency_manifest_patterns, ci_cd_patterns, infra_config_patterns,
}
use agentic_ai_software_engi.Base.Dict.{lookup}
use agentic_ai_software_engi.Policy.Evaluator.{policy_of}
use agentic_ai_software_engi.Policy.Evaluator.Rules.{Complies}
use agentic_ai_software_engi.Vcs.Diff.{GitDiffSummary, is_no_op}
use agentic_ai_software_engi.Pipeline.State.{AgentState}
use agentic_ai_software_engi.Pipeline.Routes.{
  is_blocked, stages_no_op, Node, developer, qa, git_prepare, policy, approval, git_commit,
  route_after_router, route_after_developer, qa_router, route_after_policy, route_after_approval,
  is_approved,
}
use agentic_ai_software_engi.Pipeline.Gate.{
  decision_of, integrity_failure, is_authorized, approval_node, git_commit_node,
}
use agentic_ai_software_engi.Pipeline.Gate.Integrity.{hashes_of}
use agentic_ai_software_engi.Pipeline.Nodes.{
  prepared_diff, prepare_diff_summary, router_node, developer_node, qa_node, git_prepare_node,
  policy_node, policy_request,
}
use agentic_ai_software_engi.Pipeline.Graph.{Run, is_halted, run_graph, step, step_at, after_commit}
use agentic_ai_software_engi.Pipeline.Graph.Invariant.{IsCleared}
use agentic_ai_software_engi.Pipeline.Graph.Commit.{run_graph-commits, run_graph-Complies}
use agentic_ai_software_engi.Pipeline.Graph.Bounded.{run_graph-ends}
use agentic_ai_software_engi.Examples.Surroundings.{
  plain_hash, quiet_review, calm, at_start, start, seven, fifteen,
}

run_graph-commits_example :
    ((run_graph plain_hash seven start).commits ≡ [])
    ⊎ (((run_graph plain_hash seven start).commits
          ≡ hashes_of (run_graph plain_hash seven start).state.git_diff)
        × IsCleared plain_hash (run_graph plain_hash seven start).state)
run_graph-commits_example = run_graph-commits plain_hash seven start (refl, refl, refl)

run_graph-ends_example :
    (is_halted (run_graph plain_hash fifteen start).node ≡ true)
    × (run_graph plain_hash seven (run_graph plain_hash fifteen start)
        ≡ run_graph plain_hash fifteen start)
run_graph-ends_example =
    run_graph-ends plain_hash fifteen seven start (refl, refl, refl) (omega arith)

abbrev at : Node → AgentState → Run
at n s = record { node = n; state = s; commits = [] }

abbrev s1 : AgentState
s1 = router_node calm.routing at_start

abbrev s2 : AgentState
s2 = developer_node calm.patches none s1

abbrev s3 : AgentState
s3 = qa_node [] none quiet_review s2

abbrev s4 : AgentState
s4 = git_prepare_node plain_hash calm.stage s3

abbrev s5 : AgentState
s5 = policy_node s4

abbrev s6 : AgentState
s6 = approval_node calm.resume s5

step1 : step plain_hash calm start ≡ at developer s1
unfolding step step_at route_after_router
step1 = refl

step2 : step plain_hash calm (at developer s1) ≡ at qa s2
unfolding step step_at route_after_developer developer_node router_node
step2 = refl

step3 : step plain_hash calm (at qa s2) ≡ at git_prepare s3
unfolding step step_at qa_router qa_node developer_node router_node Judge.evaluate Judge.advisory
    objective_verdict failing strip upper text_eq Words.pass Words.fail
step3 = refl

step4 : step plain_hash calm (at git_prepare s3) ≡ at policy s4
unfolding step step_at qa_node developer_node router_node
step4 = refl

s5-judged : is_blocked s5.policy_result ≡ false
unfolding policy_node policy_request git_prepare_node prepared_diff prepare_diff_summary qa_node
    developer_node router_node Evaluator.evaluate Evaluator.evaluate_with Evaluator.all_violations
    Evaluator.risk_violations Evaluator.risk_warnings Evaluator.risk_mark Evaluator.risk_decision
    Evaluator.norm_risk Evaluator.quality_violations Evaluator.required_violations
    Evaluator.model_violations Judge.evaluate Judge.advisory objective_verdict failing strip upper
    lower text_eq Words.pass Words.fail Words.low Words.medium Words.high Words.critical Words.block
    Words.review repository_violations branch_violations allowed_branch_violations path_violations
    file_violations limit_violations touches_manifest touches_ci touches_config is_traversal_attack
    matches_protected_path matches_any lookup evaluate_risk high_reasons size_reasons files_reasons
    file_reasons deletion_reasons risky_pattern is_config_file ends_with contains high_risk_patterns
    config_extensions dependency_manifest_patterns ci_cd_patterns infra_config_patterns
s5-judged = refl

s5-staged : stages_no_op s5 ≡ false
unfolding policy_node git_prepare_node prepared_diff prepare_diff_summary qa_node developer_node
    router_node is_no_op strip ℕ_discrete
s5-staged = refl

s5-route : route_after_policy s5 ≡ approval
unfolding route_after_policy
s5-route = rw (s5-staged, s5-judged) refl

step5 : step plain_hash calm (at policy s4) ≡ at approval s5
unfolding step step_at git_prepare_node qa_node developer_node router_node
step5 = rw s5-route refl

s6-approved : is_approved s6 ≡ true
unfolding approval_node integrity_failure decision_of is_authorized policy_node git_prepare_node
    prepared_diff prepare_diff_summary qa_node developer_node router_node is_no_op strip text_eq
s6-approved = refl

s6-judged : is_blocked s6.policy_result ≡ false
unfolding approval_node integrity_failure decision_of is_authorized policy_node git_prepare_node
    prepared_diff prepare_diff_summary qa_node developer_node router_node is_no_op strip text_eq
s6-judged = s5-judged

s6-route : route_after_approval s6 ≡ git_commit
unfolding route_after_approval
s6-route = rw (s6-judged, s6-approved) refl

step6 : step plain_hash calm (at approval s5) ≡ at git_commit s6
unfolding step step_at policy_node git_prepare_node qa_node developer_node router_node
step6 = rw s6-route refl

step7 : (step plain_hash calm (at git_commit s6)).commits ≡ codes "d" ∷ []
unfolding step step_at after_commit git_commit_node approval_node integrity_failure decision_of
    is_authorized policy_node git_prepare_node prepared_diff prepare_diff_summary qa_node
    developer_node router_node is_no_op strip text_eq
step7 = refl

seven_commit : (run_graph plain_hash seven start).commits ≡ codes "d" ∷ []
unfolding run_graph
seven_commit = rw (step1, step2, step3, step4, step5, step6) step7

seven_commit-ne-none : (run_graph plain_hash seven start).commits ≢ []
seven_commit-ne-none = λ e. let c = seven_commit in cc

run_graph-Complies_example :
    Complies
      (policy_of (run_graph plain_hash seven start).state.policy_config)
      (policy_request (run_graph plain_hash seven start).state)
run_graph-Complies_example =
    run_graph-Complies plain_hash seven start (refl, refl, refl) seven_commit-ne-none

abbrev staged_d : GitDiffSummary
staged_d = record {
  branch_name = codes "agent/x";
  files_changed = codes "a.py" ∷ [];
  lines_added = 1;
  lines_deleted = 0;
  unified_diff = codes "d";
  risk_score = codes "LOW";
  risk_reasons = [];
  patch_hash = codes "d";
}

abbrev with_diff : AgentState
with_diff = record at_start { git_diff = some staged_d }
