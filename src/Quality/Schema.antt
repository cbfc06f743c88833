-- ===== src/Quality/Schema.antt =====
-- The records of backend/schemas/qa.py, backend/sandbox/models.py and backend/developer/models.py
-- that the judge reads. A confidence counts hundredths: 0.95 is 95.
use agentic_ai_software_engi.Base.{ℕ, Text, Bool, Option, List}

pub record QualityCheck : Type 0 where
  pub name : Text
  pub status : Text
  pub stderr_summary : Text
  pub reason : Option Text
  pub category : Option Text

pub record QaIssue : Type 0 where
  pub file_path : Text
  pub issue : Text
  pub severity : Text

pub record QaResult : Type 0 where
  pub status : Text
  pub confidence : ℕ
  pub regression_risk : Text
  pub checks : List QualityCheck
  pub failure_category : Option Text
  pub issues : List QaIssue
  pub test_cases : List Text
  pub summary : Text

pub record TestExecutionResult : Type 0 where
  pub success : Bool
  pub passed_count : ℕ
  pub failed_count : ℕ

pub record FilePatch : Type 0 where
  pub file_path : Text
  pub original_code_snippet : Text
  pub updated_code_snippet : Text
