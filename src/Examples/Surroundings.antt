-- ===== src/Examples/Surroundings.antt =====
-- A run for the tests of the graph: models, reviewers and git that answer well.
use agentic_ai_software_engi.Base.{Text, codes, text_eq, true, false, none, some, List, [], ◌∷◌}
use agentic_ai_software_engi.Quality.Schema.{QaResult, FilePatch}
use agentic_ai_software_engi.Policy.Schema.{PolicyConfig}
use agentic_ai_software_engi.Vcs.Diff.{ApprovalDecision}
use agentic_ai_software_engi.Pipeline.State.{code_generation, AgentState}
use agentic_ai_software_engi.Pipeline.Routes.{router}
use agentic_ai_software_engi.Pipeline.Gate.{decided, CommitAnswers}
use agentic_ai_software_engi.Pipeline.Nodes.{Staged}
use agentic_ai_software_engi.Pipeline.Graph.{Answers, Run}

-- A stand-in for SHA-256 that shows its text.
abbrev pub plain_hash : Text → Text
plain_hash t = t

abbrev pub edit : FilePatch
edit = record {
  file_path = codes "a.py";
  original_code_snippet = [];
  updated_code_snippet = codes "x";
}

abbrev pub quiet_review : QaResult
quiet_review = record {
  status = codes "PASS";
  confidence = 95;
  regression_risk = codes "LOW";
  checks = [];
  failure_category = none;
  issues = [];
  test_cases = [];
  summary = [];
}

abbrev pub yes_to_d : ApprovalDecision
yes_to_d = record {
  approved = true;
  reviewer = some (codes "ann");
  rejection_reason = none;
  patch_hash = some (codes "d");
  timestamp = none;
  reviewer_role = none;
  user_id = none;
}

abbrev pub commit_goes_well : CommitAnswers
commit_goes_well = record {
  workspace_safe = true;
  drift_ok = true;
  cancel_late = false;
  commit_ok = true;
}

abbrev pub one_file : Staged
one_file = record {
  files_changed = codes "a.py" ∷ [];
  unified_diff = codes "d";
  lines_added = 1;
  lines_deleted = 0;
}

abbrev pub calm : Answers
calm = record {
  cancel_requested = false;
  raises = false;
  routing = record {
    task_type = code_generation;
    requires_planning = false;
    requires_knowledge = false;
  };
  patches = edit ∷ [];
  patch_failure = none;
  checks = [];
  tests = none;
  review = quiet_review;
  stage = record { branch_name = codes "agent/x"; workspace_exists = true; staged = some one_file };
  resume = decided yes_to_d;
  commit = commit_goes_well;
}

abbrev pub open_policy : PolicyConfig
open_policy = record {
  allowed_repositories = none;
  allowed_branches = none;
  protected_branches = [];
  protected_paths = [];
  max_files_changed = 10;
  max_lines_added = 500;
  max_lines_deleted = 200;
  max_revisions = 3;
  required_quality_checks = [];
  risk_thresholds = (codes "LOW", codes "ALLOW") ∷ [];
  allowed_models = none;
  allow_network = false;
  allow_dependency_changes = true;
  allow_config_changes = true;
  allow_ci_changes = true;
  policy_version = codes "1";
}

abbrev pub at_start : AgentState
at_start = record {
  organization_id = some (codes "acme");
  project_id = some (codes "web");
  run_id = some (codes "r1");
  routing = none;
  qa_result = none;
  test_result = none;
  revision_count = 0;
  approval_status = none;
  generated_patches = [];
  git_diff = none;
  approval = none;
  patch_hash = none;
  policy_config = some open_policy;
  policy_result = none;
}

abbrev pub start : Run
start = record { node = router; state = at_start; commits = [] }

abbrev pub seven : List Answers
seven = calm ∷ calm ∷ calm ∷ calm ∷ calm ∷ calm ∷ calm ∷ []

abbrev pub fifteen : List Answers
fifteen =
    calm ∷ calm ∷ calm ∷ calm ∷ calm ∷ calm ∷ calm ∷ calm ∷ calm ∷ calm ∷ calm ∷ calm ∷ calm ∷ calm
    ∷ calm ∷ []
