-- ===== src/Policy/Schema.antt =====
-- The records of backend/schemas/policy.py. A violation keeps its rule and its target; its message
-- text and its severity, which is BLOCK in every violation that the evaluator makes, are left out.
use agentic_ai_software_engi.Base.{ℕ, Text, codes, Bool, false, Option, none, List, [], ◌∷◌}
use agentic_ai_software_engi.Base.Dict.{Dict}

pub data PolicyDecision : Type 0 where
  allow review block : PolicyDecision

pub data Rule : Type 0 where
  repository_undefined allowed_repositories protected_branch allowed_branches path_traversal : Rule
  protected_path dependency_changes_disallowed ci_changes_disallowed : Rule
  config_changes_disallowed max_files_exceeded max_lines_added_exceeded : Rule
  max_lines_deleted_exceeded max_revisions_exceeded required_check_failed allowed_models : Rule
  critical_risk_blocked : Rule

pub record PolicyViolation : Type 0 where
  pub rule : Rule
  pub target : Option Text

pub record PolicyConfig : Type 0 where
  pub allowed_repositories : Option (List Text)
  pub allowed_branches : Option (List Text)
  pub protected_branches : List Text
  pub protected_paths : List Text
  pub max_files_changed : ℕ
  pub max_lines_added : ℕ
  pub max_lines_deleted : ℕ
  pub max_revisions : ℕ
  pub required_quality_checks : List Text
  pub risk_thresholds : Dict Text Text
  pub allowed_models : Option (List Text)
  pub allow_network : Bool
  pub allow_dependency_changes : Bool
  pub allow_config_changes : Bool
  pub allow_ci_changes : Bool
  pub policy_version : Text

-- `PolicyConfig()`
unfoldable pub default_policy : PolicyConfig
default_policy = record {
  allowed_repositories = none;
  allowed_branches = none;
  protected_branches =
      codes "main" ∷ codes "master" ∷ codes "release/*" ∷ codes "production" ∷ codes "staging" ∷ [];
  protected_paths =
      codes ".env*"
      ∷ codes "secrets/**"
      ∷ codes ".github/workflows/**"
      ∷ codes "auth/**"
      ∷ codes "security/**"
      ∷ codes "database/migrations/**"
      ∷ [];
  max_files_changed = 10;
  max_lines_added = 500;
  max_lines_deleted = 200;
  max_revisions = 3;
  required_quality_checks = codes "AST" ∷ codes "PYTEST" ∷ codes "SECURITY" ∷ [];
  risk_thresholds =
      (codes "LOW", codes "ALLOW")
      ∷ (codes "MEDIUM", codes "REVIEW")
      ∷ (codes "HIGH", codes "REVIEW")
      ∷ (codes "CRITICAL", codes "BLOCK")
      ∷ [];
  allowed_models = none;
  allow_network = false;
  allow_dependency_changes = false;
  allow_config_changes = false;
  allow_ci_changes = false;
  policy_version = codes "1.0.0";
}

-- The verdicts of the single checks.
pub data Mark : Type 0 where
  passed failed held blocked : Mark

-- The six keys of the `checks` dict, all of which are always set.
pub record PolicyChecks : Type 0 where
  pub repository : Mark
  pub branch : Mark
  pub protected_paths : Mark
  pub patch_limits : Mark
  pub required_checks : Mark
  pub risk_policy : Mark

pub record PolicyEvaluationResult : Type 0 where
  pub decision : PolicyDecision
  pub violations : List PolicyViolation
  pub warnings : List Text
  pub checks : PolicyChecks
  pub requires_human_approval : Bool
  pub policy_version : Text
