-- ===== src/Quality/Objective.antt =====
-- The objective rules A to E of StructuredQAJudge.evaluate (backend/qa/judge.py).
use agentic_ai_software_engi.Words
use agentic_ai_software_engi.Base.{
  ℕ, Text, codes, lower, contains, prefix, or_text, opt_text, text_eq, Bool, false, Option, none,
  some, List, [], ◌∷◌, ◌++◌, ◌==◌, if◌then◌else◌,
}
use agentic_ai_software_engi.Quality.Schema.{QualityCheck, QaIssue, QaResult}

-- `check_map.get(n)`: of several checks of one name the last one stands in the dict.
unfoldable pub check_named : Text → List QualityCheck → Option QualityCheck
unfolding text_eq
check_named n [] = none
check_named n (c ∷ cs) = elim (check_named n cs) [
  | some d ↦ some d
  | none ↦ if c.name == n then some c else none
]

-- The check of that name, if there is one and it failed.
unfoldable pub failing : Text → List QualityCheck → Option QualityCheck
unfolding check_named
failing n cs = elim (check_named n cs) [
  | none ↦ none
  | some c ↦ if c.status == Words.fail then some c else none
]

abbrev issue_at : Text → Text → Text → List QaIssue
issue_at path text severity = record { file_path = path; issue = text; severity = severity } ∷ []

-- A verdict of the rules A to E: always FAIL, with no test cases.
abbrev verdict : List QualityCheck → ℕ → Text → Text → List QaIssue → Text → QaResult
verdict checks confidence risk category issues summary = record {
  status = Words.fail;
  confidence = confidence;
  regression_risk = risk;
  checks = checks;
  failure_category = some category;
  issues = issues;
  test_cases = [];
  summary = summary;
}

-- Rule A
unfoldable pub security_verdict : List QualityCheck → QualityCheck → QaResult
security_verdict checks c =
    verdict checks 10 Words.critical Words.security_failure
      (issue_at (codes "security")
        (or_text (opt_text c.reason)
          (or_text c.stderr_summary (codes "Security violation detected.")))
        Words.high)
      (codes "Quality Gate FAILED: Security analysis identified blocking vulnerabilities."
        ++ (10 ∷ c.stderr_summary))

is_category : Text → Option Text → Bool
is_category t none = false
is_category t (some c) = c == t

-- Rule B
unfoldable pub ast_verdict : List QualityCheck → QualityCheck → QaResult
unfolding is_category
ast_verdict checks c =
    verdict checks 15 Words.high
      (if is_category Words.patch_application_failure c.category
        then Words.patch_application_failure
        else Words.ast_failure)
      (issue_at (codes "ast") (or_text c.stderr_summary (codes "AST pre-flight syntax error."))
        Words.high)
      ((if is_category Words.patch_application_failure c.category
          then codes
              "Quality Gate FAILED: Proposed patch failed pre-flight validation (target snippet not found in source file)."
          else if is_category (codes "MIXED") c.category
          then codes
              "Quality Gate FAILED: Proposed patch failed pre-flight validation on one or more files, and introduces Python syntax or AST parsing errors on at least one .py file."
          else codes
              "Quality Gate FAILED: Proposed patch introduces Python syntax or AST parsing errors.")
        ++ (10 ∷ c.stderr_summary))

-- Rule B2
unfoldable pub scope_verdict : List QualityCheck → QualityCheck → QaResult
scope_verdict checks c =
    verdict checks 15 Words.high Words.patch_application_failure
      (issue_at (codes "patch_scope")
        (or_text c.stderr_summary (codes "Additive request produced a destructive patch."))
        Words.high)
      (codes
          "Quality Gate FAILED: Additive request produced a patch that deletes most of an existing file's content instead of preserving it."
        ++ (10 ∷ c.stderr_summary))

pytest_error : QualityCheck → Text
pytest_error c =
    or_text c.stderr_summary (or_text (opt_text c.reason) (codes "Test suite execution failed."))

-- Rule C
unfoldable pub pytest_verdict : List QualityCheck → QualityCheck → QaResult
unfolding pytest_error
pytest_verdict checks c =
    verdict checks 25 Words.high
      (if contains (lower (pytest_error c)) (codes "timeout")
        then Words.timeout
        else Words.test_failure)
      (issue_at (codes "tests") (prefix 300 (pytest_error c)) Words.high)
      (codes "Quality Gate FAILED: Sandbox pytest execution failed." ++ (10 ∷ pytest_error c))

-- Rule D
unfoldable pub lint_verdict : List QualityCheck → QualityCheck → QaResult
lint_verdict checks c =
    verdict checks 45 Words.medium Words.lint_failure
      (issue_at (codes "linter")
        (or_text c.stderr_summary (codes "Style or lint violations detected.")) Words.medium)
      (codes "Quality Gate FAILED: Linter reported code quality violations."
        ++ (10 ∷ c.stderr_summary))

-- Rule E
unfoldable pub typecheck_verdict : List QualityCheck → QualityCheck → QaResult
typecheck_verdict checks c =
    verdict checks 50 Words.medium Words.typecheck_failure
      (issue_at (codes "typecheck")
        (or_text c.stderr_summary (codes "Type checking errors detected.")) Words.medium)
      (codes "Quality Gate FAILED: Type checker reported type errors." ++ (10 ∷ c.stderr_summary))

-- The rules A to E in their order; none if all the objective checks passed or were skipped.
unfoldable pub objective_verdict : List QualityCheck → Option QaResult
objective_verdict cs = elim (failing (codes "security") cs) [
  | some c ↦ some (security_verdict cs c)
  | none ↦ elim (failing (codes "ast") cs) [
    | some c ↦ some (ast_verdict cs c)
    | none ↦ elim (failing (codes "patch_scope") cs) [
      | some c ↦ some (scope_verdict cs c)
      | none ↦ elim (failing (codes "pytest") cs) [
        | some c ↦ some (pytest_verdict cs c)
        | none ↦ elim (failing (codes "lint") cs) [
          | some c ↦ some (lint_verdict cs c)
          | none ↦ elim (failing (codes "typecheck") cs) [
            | some c ↦ some (typecheck_verdict cs c)
            | none ↦ none
          ]
        ]
      ]
    ]
  ]
]
