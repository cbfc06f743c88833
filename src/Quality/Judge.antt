-- ===== src/Quality/Judge.antt =====
-- StructuredQAJudge.evaluate (backend/qa/judge.py): the objective rules first, and the advisory
-- review only where all of them passed.
pub mod Priority
use agentic_ai_software_engi.Words
use agentic_ai_software_engi.Base.{
  ℕ, ◌+◌, ◌-◌, ◌*◌, min, max, Text, codes, upper, decimal, splitlines, opt_text, is_set, text_eq,
  Bool, true, false, ◌||◌, Option, none, some, List, [], ◌∷◌, ◌++◌, ◌==◌, ltb, if◌then◌else◌,
  length, any, count_if,
}
use agentic_ai_software_engi.Quality.Schema.{
  QualityCheck, QaIssue, QaResult, TestExecutionResult, FilePatch,
}
use agentic_ai_software_engi.Quality.Objective.{objective_verdict}

-- 95, or 92 and a point for each passed test, seven at most and 99 in all.
unfoldable pub test_confidence : Option TestExecutionResult → ℕ
test_confidence none = 95
test_confidence (some t) = if ltb 0 t.passed_count then min 99 (92 + min t.passed_count 7) else 95

unfoldable pub skipped_count : List QualityCheck → ℕ
skipped_count cs = count_if (λ c. c.status == Words.skipped) cs

-- Three points less for each skipped check, down to 85. Subtraction that stops at 0 is exact
-- under the `max`.
unfoldable pub base_confidence : List QualityCheck → Option TestExecutionResult → ℕ
unfolding test_confidence skipped_count
base_confidence cs t =
    if ltb 0 (skipped_count cs)
    then max 85 (test_confidence t - skipped_count cs * 3)
    else test_confidence t

total_lines : List FilePatch → ℕ
total_lines [] = 0
total_lines (p ∷ ps) = length (splitlines p.updated_code_snippet) + total_lines ps

unfoldable pub base_risk : List FilePatch → Text
unfolding total_lines
base_risk ps = if ltb 4 (length ps) || ltb 150 (total_lines ps) then Words.medium else Words.low

abbrev pub is_high : QaIssue → Bool
is_high i = upper i.severity == Words.high

-- The loop over the advisory issues: each HIGH one sets the risk and costs 30 points, down to 40.
unfoldable pub advisory_loop : List QaIssue → Text → ℕ → Text × ℕ
advisory_loop [] risk confidence = (risk, confidence)
advisory_loop (i ∷ is) risk confidence =
    advisory_loop is (if is_high i then Words.high else risk)
      (if is_high i then max 40 (confidence - 30) else confidence)

abbrev all_passed : Text
all_passed = codes "All required quality and sandbox test checks passed."

unfoldable pub failed_summary : QaResult → Text
failed_summary r = elim r.summary [
  | c ∷ s ↦ codes "Quality Gate FAILED: LLM advisory QA review: " ++ (c ∷ s)
  | [] ↦ elim r.issues [
    | i ∷ is ↦
        codes "Quality Gate FAILED: LLM advisory QA review flagged "
        ++ decimal (length (i ∷ is))
        ++ codes " issue(s) without a summary explanation."
    | [] ↦
        codes
          "Quality Gate FAILED: LLM advisory QA review returned FAIL without a supporting summary or issues explaining why."
  ]
]

unfoldable pub passed_summary : QaResult → Text
passed_summary r = elim r.summary [
  | c ∷ s ↦ all_passed ++ codes " LLM Review: " ++ (c ∷ s)
  | [] ↦ all_passed
]

-- Does the review turn the verdict to FAIL?
unfoldable pub review_fails : QaResult → Bool
review_fails r = upper r.status == Words.fail || any is_high r.issues

-- `llm.failure_category or UNKNOWN_FAILURE`
unfoldable pub review_category : QaResult → Text
review_category r =
    if is_set r.failure_category then opt_text r.failure_category else Words.unknown_failure

unfoldable pub with_review : List QualityCheck → QaResult → Text → ℕ → QaResult
unfolding review_fails review_category
with_review cs r risk confidence =
    if review_fails r
    then record {
      status = Words.fail;
      confidence = min confidence 40;
      regression_risk = risk;
      checks = cs;
      failure_category = some (review_category r);
      issues = r.issues;
      test_cases = r.test_cases;
      summary = failed_summary r;
    }
    else record {
      status = Words.pass;
      confidence = confidence;
      regression_risk = risk;
      checks = cs;
      failure_category = none;
      issues = r.issues;
      test_cases = r.test_cases;
      summary = passed_summary r;
    }

-- What follows once no objective rule has failed.
unfoldable pub advisory :
    List QualityCheck → Option TestExecutionResult → List FilePatch → Option QaResult → QaResult
unfolding base_confidence base_risk advisory_loop with_review
advisory cs t ps none = record {
  status = Words.pass;
  confidence = base_confidence cs t;
  regression_risk = base_risk ps;
  checks = cs;
  failure_category = none;
  issues = [];
  test_cases = [];
  summary = all_passed;
}
advisory cs t ps (some r) =
    let (risk, confidence) = advisory_loop r.issues (base_risk ps) (base_confidence cs t) in
    with_review cs r risk confidence

-- `StructuredQAJudge.evaluate(checks, test_result, patches, llm_qa_result)`
unfoldable pub evaluate :
    List QualityCheck → Option TestExecutionResult → List FilePatch → Option QaResult → QaResult
evaluate cs t ps r = elim (objective_verdict cs) [ some v ↦ v | none ↦ advisory cs t ps r ]
