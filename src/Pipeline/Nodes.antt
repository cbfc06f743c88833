-- ===== src/Pipeline/Nodes.antt =====
-- The working nodes of backend/graph/nodes.py. What language models, the sandbox and git answer is
-- an argument of a node; what the node makes of it is the node's own.
use agentic_ai_software_engi.Words
use agentic_ai_software_engi.Base.{
  ℕ, ◌+◌, Text, codes, Bool, not, Option, none, some, List, [], ◌∷◌, map, if◌then◌else◌,
}
use agentic_ai_software_engi.Quality.Schema.{QualityCheck, QaResult, TestExecutionResult, FilePatch}
use agentic_ai_software_engi.Quality.Judge
use agentic_ai_software_engi.Policy.Change.{PolicyRequest}
use agentic_ai_software_engi.Policy.Evaluator
use agentic_ai_software_engi.Vcs.Diff.{GitDiffSummary, is_empty}
use agentic_ai_software_engi.Vcs.Risk.{evaluate_risk}
use agentic_ai_software_engi.Pipeline.State.{policy_blocked, RoutingDecision, AgentState}
use agentic_ai_software_engi.Pipeline.Routes.{is_blocked}

unfoldable pub router_node : RoutingDecision → AgentState → AgentState
router_node r s = record s { routing = some r }

-- The end of `developer_node`: the patches that it applied, or the failed check by which the judge
-- sends the run to a revision; then no patch is kept.
unfoldable pub developer_node : List FilePatch → Option QualityCheck → AgentState → AgentState
developer_node patches none s = record s { generated_patches = patches }
developer_node patches (some c) s = record s {
  generated_patches = [];
  qa_result = some (Judge.evaluate (c ∷ []) none [] none);
}

unfoldable pub qa_node :
    List QualityCheck → Option TestExecutionResult → QaResult → AgentState → AgentState
qa_node checks tests review s = record s {
  qa_result = some (Judge.evaluate checks tests s.generated_patches (some review));
  test_result = tests;
}

-- A revision that produces no candidate keeps the patches of the attempt before.
unfoldable pub revision_node : List FilePatch → AgentState → AgentState
revision_node candidates s = record s {
  revision_count = s.revision_count + 1;
  generated_patches = if is_empty candidates then s.generated_patches else candidates;
}

-- What `apply_patches` and `compute_diff` find in the workspace.
pub record Staged : Type 0 where
  pub files_changed : List Text
  pub unified_diff : Text
  pub lines_added : ℕ
  pub lines_deleted : ℕ

abbrev patch_path : FilePatch → Text
patch_path p = p.file_path

-- The answers at `git_prepare_node`: the generated branch name, whether the workspace is there, and
-- the staged change, or none if its preparation raised.
pub record StageAnswers : Type 0 where
  pub branch_name : Text
  pub workspace_exists : Bool
  pub staged : Option Staged

-- `compute_patch_hash` is SHA-256.
module _ (patch_hash : Text → Text) where
  empty_diff : Text → List Text → Text → Text → GitDiffSummary
  empty_diff branch files risk reason = record {
    branch_name = branch;
    files_changed = files;
    lines_added = 0;
    lines_deleted = 0;
    unified_diff = [];
    risk_score = risk;
    risk_reasons = reason ∷ [];
    patch_hash = patch_hash [];
  }

  -- `GitWorkspaceManager.prepare_diff_summary`
  unfoldable pub prepare_diff_summary : Text → Staged → GitDiffSummary
  prepare_diff_summary branch w =
      let (risk, reasons) = evaluate_risk w.files_changed w.lines_added w.lines_deleted in
      record {
        branch_name = branch;
        files_changed = w.files_changed;
        lines_added = w.lines_added;
        lines_deleted = w.lines_deleted;
        unified_diff = w.unified_diff;
        risk_score = risk;
        risk_reasons = reasons;
        patch_hash = patch_hash w.unified_diff;
      }

  unfoldable pub prepared_diff : StageAnswers → List FilePatch → GitDiffSummary
  unfolding empty_diff prepare_diff_summary
  prepared_diff e [] = empty_diff e.branch_name [] Words.low (codes "No file patches to apply.")
  prepared_diff e (p ∷ ps) =
      if not e.workspace_exists
      then empty_diff e.branch_name [] Words.low (codes "No file patches to apply.")
      else elim e.staged [
        | some w ↦ prepare_diff_summary e.branch_name w
        | none ↦
            empty_diff e.branch_name (map patch_path (p ∷ ps)) Words.medium
              (codes "Diff preparation encountered an error")
      ]

  unfoldable pub git_prepare_node : StageAnswers → AgentState → AgentState
  git_prepare_node e s =
      let d = prepared_diff e s.generated_patches in
      record s { git_diff = some d; patch_hash = some d.patch_hash }

-- The request that the node makes of the policy: with no diff it has no files and a LOW risk.
unfoldable pub policy_request : AgentState → PolicyRequest
policy_request s = elim s.git_diff [
  | none ↦ record {
    repository = s.project_id;
    branch = none;
    changed_files = [];
    lines_added = 0;
    lines_deleted = 0;
    risk_score = Words.low;
    risk_reasons = [];
    quality_results = s.qa_result;
    revision_count = s.revision_count;
    model = none;
  }
  | some d ↦ record {
    repository = s.project_id;
    branch = some d.branch_name;
    changed_files = d.files_changed;
    lines_added = d.lines_added;
    lines_deleted = d.lines_deleted;
    risk_score = d.risk_score;
    risk_reasons = d.risk_reasons;
    quality_results = s.qa_result;
    revision_count = s.revision_count;
    model = none;
  }
]

unfoldable pub policy_node : AgentState → AgentState
policy_node s =
    let r = Evaluator.evaluate s.policy_config (policy_request s) in
    record s {
      policy_result = some r;
      approval_status = if is_blocked (some r) then some policy_blocked else s.approval_status;
    }
