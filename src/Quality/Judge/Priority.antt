-- ===== src/Quality/Judge/Priority.antt =====
-- The order of priority that the judge keeps: objective evidence over the advisory review.
use agentic_ai_software_engi.Words
use agentic_ai_software_engi.Base.{
  ℕ, ◌≤◌, Text, codes, text_eq, false, ◌≡◌, refl, ◌≢◌, ◌↔◌, ◌⊎◌, inl, inr, Option, none, some, List,
  [], ◌∷◌, arith, any, Some, All, upper, Option-cases, Bool-cases,
}
use agentic_ai_software_engi.Quality.Schema.{
  QualityCheck, QaIssue, QaResult, TestExecutionResult, FilePatch,
}
use agentic_ai_software_engi.Quality.Objective.{
  failing, security_verdict, ast_verdict, scope_verdict, pytest_verdict, lint_verdict,
  typecheck_verdict, objective_verdict,
}
use agentic_ai_software_engi.Quality.Judge.{
  base_confidence, base_risk, is_high, advisory_loop, review_fails, with_review, advisory, evaluate,
}

abbrev pub objective_names : List Text
objective_names =
    codes "security"
    ∷ codes "ast"
    ∷ codes "patch_scope"
    ∷ codes "pytest"
    ∷ codes "lint"
    ∷ codes "typecheck"
    ∷ []

-- Some objective check failed.
abbrev pub HasObjectiveFailure : List QualityCheck → Type 0
HasObjectiveFailure cs = Some (λ n. failing n cs ≢ none) objective_names

pub objective_verdict-none :
    (cs : List QualityCheck) → (objective_verdict cs ≡ none) ↔ (¬ HasObjectiveFailure cs)
unfolding objective_verdict
objective_verdict-none cs = ground arith

advisory_loop-quiet :
    (is : List QaIssue) (risk : Text) (confidence : ℕ)
    → any is_high is ≡ false
    → advisory_loop is risk confidence ≡ (risk, confidence)
unfolding advisory_loop
advisory_loop-quiet [] risk confidence h = refl
advisory_loop-quiet (i ∷ is) risk confidence h =
    ground (arith, advisory_loop-quiet is risk confidence)

base_confidence_bounds :
    (cs : List QualityCheck) (t : Option TestExecutionResult)
    → (85 ≤ base_confidence cs t) × (base_confidence cs t ≤ 99)
unfolding base_confidence
base_confidence_bounds cs t = ground arith

-- What an objective rule says: FAIL, at most 50 in confidence, and a category.
objective_verdict_fails :
    (cs : List QualityCheck) {v : QaResult}
    → objective_verdict cs ≡ some v
    → (v.status ≡ Words.fail) × (v.confidence ≤ 50) × (v.failure_category ≢ none)
unfolding objective_verdict security_verdict ast_verdict scope_verdict pytest_verdict lint_verdict
    typecheck_verdict
objective_verdict_fails cs h = ground arith

objective_verdict-some :
    (cs : List QualityCheck)
    → HasObjectiveFailure cs
    → (v : QaResult) × (objective_verdict cs ≡ some v)
objective_verdict-some cs h = elim (Option-cases (objective_verdict cs)) [
  | inl e ↦ absurd ((objective_verdict-none cs).0 e h)
  | inr s ↦ s
]

-- The review says neither FAIL nor holds a HIGH issue, or there is none.
abbrev pub IsQuiet : Option QaResult → Type 0
IsQuiet none = Unit
IsQuiet (some r) = (upper r.status ≢ Words.fail) × All (λ i. upper i.severity ≢ Words.high) r.issues

any-is_high :
    (is : List QaIssue) → (any is_high is ≡ false) ↔ All (λ i. upper i.severity ≢ Words.high) is
any-is_high [] = ground arith
any-is_high (i ∷ is) = ground (arith, any-is_high is)

review_fails-IsQuiet : (r : QaResult) → (review_fails r ≡ false) ↔ IsQuiet (some r)
unfolding review_fails
review_fails-IsQuiet r = ground (arith, any-is_high r.issues)

advisory-pass :
    (cs : List QualityCheck) (t : Option TestExecutionResult) (ps : List FilePatch)
    (r : Option QaResult)
    → ((advisory cs t ps r).status ≡ Words.pass) ↔ IsQuiet r
unfolding advisory
advisory-pass cs t ps none = ground arith
advisory-pass cs t ps (some r) = ground (arith, Words.pass-ne-fail, review_fails-IsQuiet r)

evaluate_of_none :
    (cs : List QualityCheck) (t : Option TestExecutionResult) (ps : List FilePatch)
    (r : Option QaResult)
    → objective_verdict cs ≡ none
    → evaluate cs t ps r ≡ advisory cs t ps r
unfolding evaluate
evaluate_of_none cs t ps r e = rw (e, evaluate)

evaluate_of_some :
    (cs : List QualityCheck) (t : Option TestExecutionResult) (ps : List FilePatch)
    (r : Option QaResult) {v : QaResult}
    → objective_verdict cs ≡ some v
    → evaluate cs t ps r ≡ v
unfolding evaluate
evaluate_of_some cs t ps r e = rw (e, evaluate)

-- The verdict is PASS exactly if none of the six objective checks failed and the review, where
-- there is one, neither says FAIL nor holds a HIGH issue.
pub evaluate-pass :
    (cs : List QualityCheck) (t : Option TestExecutionResult) (ps : List FilePatch)
    (r : Option QaResult)
    → ((evaluate cs t ps r).status ≡ Words.pass) ↔ ((¬ HasObjectiveFailure cs) × IsQuiet r)
evaluate-pass cs t ps r = elim (Option-cases (objective_verdict cs)) [
  | inl e ↦
      rw (evaluate_of_none cs t ps r e)
        (ground (arith, objective_verdict-none cs, advisory-pass cs t ps r))
  | inr (v, e) ↦
      rw (evaluate_of_some cs t ps r e) (
        ground (arith, Words.pass-ne-fail, objective_verdict-none cs, objective_verdict_fails cs e))
]

-- A failed objective check settles the whole verdict: it is FAIL, with at most 50 in confidence
-- and a category, and neither the tests, the patches nor any review can change any part of it.
pub evaluate-objective_failure :
    (cs : List QualityCheck) (t t' : Option TestExecutionResult) (ps ps' : List FilePatch)
    (r r' : Option QaResult)
    → HasObjectiveFailure cs
    → ((evaluate cs t ps r).status ≡ Words.fail)
      × ((evaluate cs t ps r).confidence ≤ 50)
      × ((evaluate cs t ps r).failure_category ≢ none)
      × (evaluate cs t ps r ≡ evaluate cs t' ps' r')
evaluate-objective_failure cs t t' ps ps' r r' h =
    let (v, e) = objective_verdict-some cs h in
    let (f, c, g) = objective_verdict_fails cs e in
    rw (evaluate_of_some cs t ps r e, evaluate_of_some cs t' ps' r' e) (f, c, g, refl)

-- What a PASS and a FAIL look like.
abbrev pub IsCalibrated : QaResult → Type 0
IsCalibrated v =
    ((v.status ≡ Words.pass)
      × (85 ≤ v.confidence)
      × (v.confidence ≤ 99)
      × (v.failure_category ≡ none)
      × ((v.regression_risk ≡ Words.low) ⊎ (v.regression_risk ≡ Words.medium)))
    ⊎ ((v.status ≡ Words.fail) × (v.confidence ≤ 50) × (v.failure_category ≢ none))

review_fails-quiet : (r : QaResult) → review_fails r ≡ false → any is_high r.issues ≡ false
unfolding review_fails
review_fails-quiet r h = ground arith

base_risk_cases : (ps : List FilePatch) → (base_risk ps ≡ Words.low) ⊎ (base_risk ps ≡ Words.medium)
unfolding base_risk
base_risk_cases ps = ground arith

advisory-IsCalibrated :
    (cs : List QualityCheck) (t : Option TestExecutionResult) (ps : List FilePatch)
    (r : Option QaResult)
    → IsCalibrated (advisory cs t ps r)
unfolding advisory
advisory-IsCalibrated cs t ps none = ground (arith, base_confidence_bounds cs t)
advisory-IsCalibrated cs t ps (some r) = elim (Bool-cases (review_fails r)) [
  | inl e ↦ rw (e, with_review) (inr (refl, omega arith, λ h. cc))
  | inr e ↦
      rw
        (advisory_loop-quiet r.issues (base_risk ps) (base_confidence cs t)
          (review_fails-quiet r e))
        (rw (e, with_review)
          (inl (
            refl,
            (base_confidence_bounds cs t).0,
            (base_confidence_bounds cs t).1,
            refl,
            base_risk_cases ps,
          )))
]

-- A PASS has a confidence from 85 to 99, a risk of LOW or MEDIUM and no failure category; any other
-- verdict is FAIL, has a confidence of 50 at most, and names a category.
pub evaluate-IsCalibrated :
    (cs : List QualityCheck) (t : Option TestExecutionResult) (ps : List FilePatch)
    (r : Option QaResult)
    → IsCalibrated (evaluate cs t ps r)
evaluate-IsCalibrated cs t ps r = elim (Option-cases (objective_verdict cs)) [
  | inl e ↦ rw (evaluate_of_none cs t ps r e) (advisory-IsCalibrated cs t ps r)
  | inr (v, e) ↦ rw (evaluate_of_some cs t ps r e) (inr (objective_verdict_fails cs e))
]
