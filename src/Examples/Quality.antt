-- ===== src/Examples/Quality.antt =====
-- The judge, the policy and the risk score at concrete inputs.
use agentic_ai_software_engi.Words
use agentic_ai_software_engi.Base.{
  ◌<◌, ◌≤◌, codes, text_eq, true, false, ◌≡◌, refl, ◌≢◌, ◌↔◌, ◌⊎◌, inl, inr, Option, none, some, [],
  ◌∷◌, arith, length, Some, strip, lower, contains, starts_with, ends_with,
}
use agentic_ai_software_engi.Quality.Schema.{QualityCheck, TestExecutionResult}
use agentic_ai_software_engi.Policy.Paths.{is_traversal_attack, forward_slashes}
use agentic_ai_software_engi.Quality.Objective.{failing}
use agentic_ai_software_engi.Quality.Judge
use agentic_ai_software_engi.Quality.Judge.Priority.{
  HasObjectiveFailure, IsQuiet, IsCalibrated, evaluate-pass, evaluate-objective_failure,
  evaluate-IsCalibrated,
}
use agentic_ai_software_engi.Policy.Schema.{allow, block}
use agentic_ai_software_engi.Policy.Change.{PolicyRequest}
use agentic_ai_software_engi.Policy.Evaluator
use agentic_ai_software_engi.Policy.Evaluator.{policy_of}
use agentic_ai_software_engi.Policy.Evaluator.Rules.{Complies, RiskIsRoutine}
use agentic_ai_software_engi.Policy.Evaluator.Compliance.{evaluate-block, evaluate-allow}
use agentic_ai_software_engi.Vcs.Risk.{
  evaluate_risk, high_reasons, files_reasons, file_reasons, risky_pattern, is_config_file,
  high_risk_patterns, config_extensions, deletion_reasons, size_reasons, deletes_most,
}
use agentic_ai_software_engi.Policy.Patterns.{
  dependency_manifest_patterns, ci_cd_patterns, infra_config_patterns,
}
use agentic_ai_software_engi.Vcs.Risk.Score.{IsRisky, evaluate_risk-score}
use agentic_ai_software_engi.Vcs.Workspace.{
  is_unsafe_component, safe_path_component, resolve_workspace_path,
}
use agentic_ai_software_engi.Vcs.Workspace.Isolation.{resolve_workspace_path-injective}
use agentic_ai_software_engi.Security.Rbac.{reviewer, granted, can_approve_changes}
use agentic_ai_software_engi.Security.Rbac.Matrix.{
  can_approve_changes-granted, IsSenior, IsElevated,
}

abbrev failed_pytest : QualityCheck
failed_pytest = record {
  name = codes "pytest";
  status = codes "FAIL";
  stderr_summary = codes "1 failed";
  reason = none;
  category = none;
}

abbrev two_passed : TestExecutionResult
two_passed = record { success = true; passed_count = 2; failed_count = 0 }

evaluate-pass_example :
    ((Judge.evaluate (failed_pytest ∷ []) (some two_passed) [] none).status ≡ Words.pass)
    ↔ ((¬ HasObjectiveFailure (failed_pytest ∷ [])) × IsQuiet none)
evaluate-pass_example = evaluate-pass (failed_pytest ∷ []) (some two_passed) [] none

some-ne-none : (o : Option QualityCheck) (c : QualityCheck) → (o ≡ some c) → o ≢ none
some-ne-none o c h k = ground arith

failing_pytest : failing (codes "pytest") (failed_pytest ∷ []) ≡ some failed_pytest
unfolding failing text_eq lower Words.fail
failing_pytest = refl

failed_pytest-HasObjectiveFailure : HasObjectiveFailure (failed_pytest ∷ [])
failed_pytest-HasObjectiveFailure = inr (
    inr (
      inr (
        inl (
          some-ne-none (failing (codes "pytest") (failed_pytest ∷ [])) failed_pytest
            failing_pytest))))

evaluate-objective_failure_example :
    ((Judge.evaluate (failed_pytest ∷ []) none [] none).status ≡ Words.fail)
    × ((Judge.evaluate (failed_pytest ∷ []) none [] none).confidence ≤ 50)
    × ((Judge.evaluate (failed_pytest ∷ []) none [] none).failure_category ≢ none)
    × (Judge.evaluate (failed_pytest ∷ []) none [] none
        ≡ Judge.evaluate (failed_pytest ∷ []) (some two_passed) [] none)
evaluate-objective_failure_example =
    evaluate-objective_failure (failed_pytest ∷ []) none (some two_passed) [] [] none none
      failed_pytest-HasObjectiveFailure

evaluate-IsCalibrated_example : IsCalibrated (Judge.evaluate [] (some two_passed) [] none)
evaluate-IsCalibrated_example = evaluate-IsCalibrated [] (some two_passed) [] none

abbrev small_change : PolicyRequest
small_change = record {
  repository = some (codes "acme/web");
  branch = some (codes "agent/x");
  changed_files = codes "src/a.py" ∷ [];
  lines_added = 3;
  lines_deleted = 1;
  risk_score = codes "LOW";
  risk_reasons = [];
  quality_results = none;
  revision_count = 0;
  model = none;
}

evaluate-block_example :
    ((Evaluator.evaluate none small_change).decision ≢ block)
    ↔ Complies (policy_of none) small_change
evaluate-block_example = evaluate-block none small_change

evaluate-allow_example :
    (((Evaluator.evaluate none small_change).decision ≡ allow)
      ↔ (Complies (policy_of none) small_change × RiskIsRoutine (policy_of none) small_change))
    × (((Evaluator.evaluate none small_change).requires_human_approval ≡ false)
        ↔ ((Evaluator.evaluate none small_change).decision ≡ allow))
evaluate-allow_example = evaluate-allow none small_change

evaluate_risk-score_example :
    (((evaluate_risk (codes "Web\\package.json" ∷ []) 3 1).0 ≡ Words.high)
      ↔ (Some IsRisky (codes "Web\\package.json" ∷ []) ⊎ (3 < 1)))
    × (((evaluate_risk (codes "Web\\package.json" ∷ []) 3 1).0 ≡ Words.medium) ↔ (
        (¬ (Some IsRisky (codes "Web\\package.json" ∷ []) ⊎ (3 < 1)))
        × (5 < length (codes "Web\\package.json" ∷ []))))
    × (((evaluate_risk (codes "Web\\package.json" ∷ []) 3 1).0 ≡ Words.low) ↔ (
        (¬ (Some IsRisky (codes "Web\\package.json" ∷ []) ⊎ (3 < 1)))
        × (length (codes "Web\\package.json" ∷ []) ≤ 5)))
evaluate_risk-score_example = evaluate_risk-score (codes "Web\\package.json" ∷ []) 3 1

-- Patterns with capitals never fit.
dockerfile-low : (evaluate_risk (codes "Dockerfile" ∷ []) 3 1).0 ≡ Words.low
unfolding evaluate_risk high_reasons files_reasons file_reasons risky_pattern is_config_file
    high_risk_patterns config_extensions dependency_manifest_patterns ci_cd_patterns
    infra_config_patterns text_eq lower contains starts_with ends_with deletion_reasons size_reasons
    deletes_most forward_slashes Words.low
dockerfile-low = refl

acme_web :
    resolve_workspace_path (some (codes "acme")) (some (codes "web"))
    ≡ some (codes "workspace/acme/web")
unfolding resolve_workspace_path safe_path_component is_unsafe_component text_eq strip contains
    is_traversal_attack
acme_web = refl

acme_web_blanks :
    resolve_workspace_path (some (codes " acme")) (some (codes "web "))
    ≡ some (codes "workspace/acme/web")
unfolding resolve_workspace_path safe_path_component is_unsafe_component text_eq strip contains
    is_traversal_attack
acme_web_blanks = refl

resolve_workspace_path-injective_example :
    (strip (codes "acme") ≡ strip (codes " acme")) × (strip (codes "web") ≡ strip (codes "web "))
resolve_workspace_path-injective_example =
    resolve_workspace_path-injective (some (codes "acme")) (some (codes "web"))
      (some (codes " acme")) (some (codes "web ")) (codes "workspace/acme/web") acme_web
      acme_web_blanks

can_approve_changes-granted_example :
    (can_approve_changes reviewer (some 6999) false ≡ granted)
    ↔ (IsSenior reviewer ⊎ ((reviewer ≡ reviewer) × (¬ IsElevated (some 6999) false)))
can_approve_changes-granted_example = can_approve_changes-granted reviewer (some 6999) false
