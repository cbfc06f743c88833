-- ===== src/Quality/Outcome.antt =====
-- backend/qa/pipeline.py: what the checks report of what they have found.
use agentic_ai_software_engi.Words
use agentic_ai_software_engi.Base.{
  Text, codes, text_eq, Bool, ◌&&◌, not, Option, none, some, List, [], ◌∷◌, ◌++◌, if◌then◌else◌,
  any, map, length, join_code, decimal,
}
use agentic_ai_software_engi.Quality.Schema.{QualityCheck}

-- What a check reports; each has its own name.
pub record CheckOutcome : Type 0 where
  pub status : Text
  pub stderr_summary : Text
  pub reason : Option Text
  pub category : Option Text

abbrev pub named : Text → CheckOutcome → QualityCheck
named name o = record {
  name = name;
  status = o.status;
  stderr_summary = o.stderr_summary;
  reason = o.reason;
  category = o.category;
}

abbrev pub passed : CheckOutcome
passed = record { status = Words.pass; stderr_summary = []; reason = none; category = none }

abbrev pub failed : Text → Text → Option Text → CheckOutcome
failed summary reason category = record {
  status = Words.fail;
  stderr_summary = summary;
  reason = some reason;
  category = category;
}

abbrev pub gate_blocked : CheckOutcome
gate_blocked = record {
  status = Words.skipped;
  stderr_summary = [];
  reason =
      some (
        codes
          "BLOCKED_BY_SECURITY_GATE: static security scan failed; execution was not attempted.");
  category = none;
}

-- What is wrong with a patch; the flag is set for a Python file that was found.
pub record AstFault : Type 0 where
  pub line : Text
  pub is_syntax : Bool

abbrev pub has_syntax : List AstFault → Bool
has_syntax faults = any (λ f. f.is_syntax) faults

abbrev pub has_preflight : List AstFault → Bool
has_preflight faults = any (λ f. not f.is_syntax) faults

abbrev pub count_text : List AstFault → Text
count_text faults = decimal (length faults)

unfoldable pub ast_category : List AstFault → Text
ast_category faults =
    if has_syntax faults && has_preflight faults
    then codes "MIXED"
    else if has_syntax faults
    then Words.ast_failure
    else Words.patch_application_failure

unfoldable pub ast_reason : List AstFault → Text
ast_reason faults =
    if has_syntax faults && has_preflight faults
    then codes "AST syntax validation failed and patch pre-flight validation failed, "
      ++ (count_text faults ++ codes " patch(es) total.")
    else if has_syntax faults
    then codes "AST syntax validation failed on " ++ (count_text faults ++ codes " patch(es).")
    else codes "Patch pre-flight validation failed on "
      ++ (count_text faults
          ++ codes " patch(es) (target snippet not found; not a Python syntax error).")

abbrev pub ast_outcome : List AstFault → CheckOutcome
ast_outcome [] = passed
ast_outcome (f ∷ fs) =
    failed (join_code 10 (map (λ x. x.line) (f ∷ fs))) (ast_reason (f ∷ fs))
      (some (ast_category (f ∷ fs)))

abbrev pub scope_outcome : List Text → CheckOutcome
scope_outcome [] = passed
scope_outcome (v ∷ vs) =
    failed (join_code 10 (v ∷ vs))
      (codes
        "Additive request produced a patch that deletes most of an existing file's content instead of preserving it.")
      (some Words.patch_application_failure)

abbrev pub scope_outcome_on : Text → List Text → CheckOutcome
scope_outcome_on [] violations = passed
scope_outcome_on (c ∷ request) violations = scope_outcome violations

abbrev pub security_outcome : List Text → CheckOutcome
security_outcome [] = passed
security_outcome (f ∷ fs) =
    failed (join_code 10 (f ∷ fs))
      (codes "Security analysis flagged "
        ++ (decimal (length (f ∷ fs)) ++ codes " blocking issue(s)."))
      none
