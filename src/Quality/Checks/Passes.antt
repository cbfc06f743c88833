-- ===== src/Quality/Checks/Passes.antt =====
-- A PASS of the judge means that no outcome of its checks is a FAIL, and what that says of each.
use agentic_ai_software_engi.Words
use agentic_ai_software_engi.Base.{
  Text, codes, text_eq, false, ◌≡◌, ◌⊎◌, refl, Option, List, [], ◌∷◌, ◌==◌, ==_refl, arith, inl,
  inr,
}
use agentic_ai_software_engi.Quality.Schema.{QualityCheck, FilePatch, TestExecutionResult, QaResult}
use agentic_ai_software_engi.Quality.Objective.{check_named, failing}
use agentic_ai_software_engi.Quality.Judge.{evaluate}
use agentic_ai_software_engi.Quality.Judge.Priority.{HasObjectiveFailure, evaluate-pass}
use agentic_ai_software_engi.Quality.Outcome.{
  CheckOutcome, named, AstFault, ast_outcome, security_outcome, scope_outcome_on,
}

abbrev pub six :
    CheckOutcome
    → CheckOutcome
    → CheckOutcome
    → CheckOutcome
    → CheckOutcome
    → CheckOutcome
    → List QualityCheck
six a p s l t c =
    named (codes "ast") a
    ∷ named (codes "pytest") p
    ∷ named (codes "security") s
    ∷ named (codes "lint") l
    ∷ named (codes "typecheck") t
    ∷ named (codes "patch_scope") c
    ∷ []

pub quiet-six :
    (a p s l t c : CheckOutcome)
    → ¬ (HasObjectiveFailure (six a p s l t c))
    → ((a.status == Words.fail) ≡ false)
      × ((s.status == Words.fail) ≡ false)
      × ((c.status == Words.fail) ≡ false)
unfolding failing check_named text_eq
quiet-six a p s l t c h = ground (arith, h)

pub six-pass :
    (a p s l t c : CheckOutcome) (x : Option TestExecutionResult) (ps : List FilePatch)
    (r : Option QaResult)
    → ((evaluate (six a p s l t c) x ps r).status ≡ Words.pass)
    → ((a.status == Words.fail) ≡ false)
      × ((s.status == Words.fail) ≡ false)
      × ((c.status == Words.fail) ≡ false)
six-pass a p s l t c x ps r h =
    quiet-six a p s l t c ((evaluate-pass (six a p s l t c) x ps r).0 h).0

pub ast_outcome-passes :
    (fs : List AstFault) → ((ast_outcome fs).status == Words.fail) ≡ false → fs ≡ []
ast_outcome-passes [] h = refl
ast_outcome-passes (f ∷ fs) h = ground (arith, ==_refl Words.fail)

pub security_outcome-passes :
    (fs : List Text) → ((security_outcome fs).status == Words.fail) ≡ false → fs ≡ []
security_outcome-passes [] h = refl
security_outcome-passes (f ∷ fs) h = ground (arith, ==_refl Words.fail)

pub scope_outcome-passes :
    (request : Text) (vs : List Text)
    → ((scope_outcome_on request vs).status == Words.fail) ≡ false
    → (request ≡ []) ⊎ (vs ≡ [])
scope_outcome-passes [] vs h = inl refl
scope_outcome-passes (c ∷ request) [] h = inr refl
scope_outcome-passes (c ∷ request) (v ∷ vs) h = ground (arith, ==_refl Words.fail)
