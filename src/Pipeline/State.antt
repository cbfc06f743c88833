-- ===== src/Pipeline/State.antt =====
-- The run state of backend/graph/state.py, with the fields that the routes and gates read.
use agentic_ai_software_engi.Base.{ℕ, Text, Bool, Option, List}
use agentic_ai_software_engi.Quality.Schema.{QaResult, TestExecutionResult, FilePatch}
use agentic_ai_software_engi.Policy.Schema.{PolicyConfig, PolicyEvaluationResult}
use agentic_ai_software_engi.Vcs.Diff.{GitDiffSummary, ApprovalDecision}

pub data TaskType : Type 0 where
  code_generation bug_fix code_review code_explanation documentation data_analysis : TaskType
  knowledge_search general : TaskType

pub record RoutingDecision : Type 0 where
  pub task_type : TaskType
  pub requires_planning : Bool
  pub requires_knowledge : Bool

-- The values that the nodes give to `approval_status`.
pub data ApprovalStatus : Type 0 where
  policy_blocked no_op_or_missing_diff missing_diff_hash missing_approval_patch_hash :
      ApprovalStatus
  patch_hash_mismatch approval_unauthorized approved rejected no_changes_needed : ApprovalStatus
  committed commit_failed : ApprovalStatus
  rejected_and_cleaned : Text → ApprovalStatus

pub record AgentState : Type 0 where
  pub organization_id : Option Text
  pub project_id : Option Text
  pub run_id : Option Text
  pub routing : Option RoutingDecision
  pub qa_result : Option QaResult
  pub test_result : Option TestExecutionResult
  pub revision_count : ℕ
  pub approval_status : Option ApprovalStatus
  pub generated_patches : List FilePatch
  pub git_diff : Option GitDiffSummary
  pub approval : Option ApprovalDecision
  pub patch_hash : Option Text
  pub policy_config : Option PolicyConfig
  pub policy_result : Option PolicyEvaluationResult
