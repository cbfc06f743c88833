-- ===== src/Quality/Checks.antt =====
-- backend/qa/pipeline.py: the checks of a candidate that the judge reads. What Python's parser and
-- difflib say, what the static scan finds in a patch and what the executed checks report are arguments,
-- and so are the texts of their messages.
pub mod Passes
pub mod Guarded
use agentic_ai_software_engi.Words
use agentic_ai_software_engi.Base.{
  ℕ, suc, Text, codes, text_eq, Bool, true, false, ◌&&◌, ◌||◌, not, Option, none, some, List, [],
  ◌∷◌, ◌++◌, ◌==◌, if◌then◌else◌, any, map, length, join_code, decimal, or_text,
}
use agentic_ai_software_engi.Base.Dict.{Dict, lookup}
use agentic_ai_software_engi.Quality.Schema.{QualityCheck, FilePatch, TestExecutionResult}
use agentic_ai_software_engi.Developer.Patcher.{
  PatchError, PatchValidationResult, is_python, apply_patch,
}
use agentic_ai_software_engi.Developer.Scope.{
  detect_patch_wrapper_artifacts, detect_unsafe_additive_rewrite,
}
use agentic_ai_software_engi.Quality.Outcome.{
  CheckOutcome, named, passed, failed, gate_blocked, AstFault, has_syntax, has_preflight,
  count_text, ast_category, ast_reason, ast_outcome, scope_outcome, scope_outcome_on,
  security_outcome,
}

-- What `safe_repo_relative_path` and the disk say of a path.
pub data FileView : Type 0 where
  unsafe missing unreadable : FileView
  file : Text → FileView

abbrev pub snapshot : Text → Option (Dict Text Text) → Option Text
snapshot path none = none
snapshot path (some d) = lookup path d

abbrev pub or_original : Text → Option Text → Text
or_original original none = original
or_original original (some t) = t

-- The text that a patch is checked against on disk; `check_ast` reads what cannot be read as empty.
abbrev pub readable : FileView → Option Text
readable unsafe = none
readable missing = none
readable unreadable = none
readable (file t) = some t

pub record Executed : Type 0 where
  pub pytest_check : CheckOutcome
  pub lint_check : CheckOutcome
  pub type_check : CheckOutcome
  pub test_result : Option TestExecutionResult

-- What the checks call.
pub record Tools : Type 0 where
  pub view : Text → FileView
  pub parses : Text → Bool
  pub unified_diff : List Text → List Text → List Text
  pub scan : FilePatch → List Text
  pub patch_message : FilePatch → List PatchError → Text
  pub unsafe_message : FilePatch → Text
  pub wrapper_message : FilePatch → Text → Text
  pub rewrite_message : FilePatch → Text → Text → Text
  pub execute : List FilePatch → Executed

module _ (tools : Tools) where
  abbrev pub validated_fault : FilePatch → PatchValidationResult → List AstFault
  validated_fault p r =
      if r.is_valid
      then []
      else record {
        line = tools.patch_message p r.syntax_errors;
        is_syntax = is_python p.file_path;
      }
        ∷ []

  abbrev pub ast_fault_on : FilePatch → FileView → List AstFault
  ast_fault_on p unsafe = record { line = tools.unsafe_message p; is_syntax = false } ∷ []
  ast_fault_on p missing = validated_fault p (apply_patch tools.parses [] p)
  ast_fault_on p unreadable = validated_fault p (apply_patch tools.parses [] p)
  ast_fault_on p (file t) = validated_fault p (apply_patch tools.parses t p)

  unfoldable pub ast_faults : List FilePatch → List AstFault
  ast_faults [] = []
  ast_faults (p ∷ ps) = ast_fault_on p (tools.view p.file_path) ++ ast_faults ps

  unfoldable pub check_ast : List FilePatch → QualityCheck
  check_ast patches = named (codes "ast") (ast_outcome (ast_faults patches))

  -- The text that the candidate is applied to: the snapshot, or else the file.
  abbrev pub baseline : FilePatch → Option (Dict Text Text) → Option Text
  baseline p snapshots = elim (snapshot p.file_path snapshots) [
    | some t ↦ some t
    | none ↦ readable (tools.view p.file_path)
  ]

  abbrev pub judged : Text → FilePatch → Text → Text → List Text
  judged request p true_original content =
      if detect_patch_wrapper_artifacts content
      then tools.wrapper_message p content ∷ []
      else if detect_unsafe_additive_rewrite tools.unified_diff request true_original content
      then tools.rewrite_message p true_original content ∷ []
      else []

  abbrev pub scoped_content : Text → FilePatch → Text → Option Text → List Text
  scoped_content request p true_original none = []
  scoped_content request p true_original (some content) = judged request p true_original content

  abbrev pub scope_on : Text → Option (Dict Text Text) → FilePatch → Option Text → List Text
  scope_on request true_originals p none = []
  scope_on request true_originals p (some original) =
      let r = apply_patch tools.parses original p in
      if r.is_valid
      then scoped_content request p (or_original original (snapshot p.file_path true_originals))
          r.applied_content
      else []

  unfoldable pub scope_violations :
      Text → Option (Dict Text Text) → Option (Dict Text Text) → List FilePatch → List Text
  scope_violations request snapshots true_originals [] = []
  scope_violations request snapshots true_originals (p ∷ ps) =
      (if is_python p.file_path
        then []
        else scope_on request true_originals p (baseline p snapshots))
      ++ scope_violations request snapshots true_originals ps

  -- Without a request there is nothing to compare the patches with.
  unfoldable pub check_patch_scope :
      List FilePatch → Text → Option (Dict Text Text) → Option (Dict Text Text) → QualityCheck
  check_patch_scope patches request snapshots true_originals =
      named (codes "patch_scope")
        (scope_outcome_on request (scope_violations request snapshots true_originals patches))

  unfoldable pub security_findings : List FilePatch → List Text
  security_findings [] = []
  security_findings (p ∷ ps) = tools.scan p ++ security_findings ps

  unfoldable pub check_security : List FilePatch → QualityCheck
  check_security patches = named (codes "security") (security_outcome (security_findings patches))

  -- The checks with the tests' result, and what was executed.
  pub record Checked : Type 0 where
    pub checks : List QualityCheck
    pub test_result : Option TestExecutionResult
    pub executed : List (List FilePatch)

  unfoldable pub run_all :
      List FilePatch → Text → Option (Dict Text Text) → Option (Dict Text Text) → Checked
  run_all patches request snapshots true_originals =
      let ast = check_ast patches in
      let scope = check_patch_scope patches request snapshots true_originals in
      let security = check_security patches in
      if security.status == Words.fail
      then record {
        checks =
            ast
            ∷ named (codes "pytest") gate_blocked
            ∷ security
            ∷ named (codes "lint") gate_blocked
            ∷ named (codes "typecheck") gate_blocked
            ∷ scope
            ∷ [];
        test_result = none;
        executed = [];
      }
      else let x = tools.execute patches in
        record {
          checks =
              ast
              ∷ named (codes "pytest") x.pytest_check
              ∷ security
              ∷ named (codes "lint") x.lint_check
              ∷ named (codes "typecheck") x.type_check
              ∷ scope
              ∷ [];
          test_result = x.test_result;
          executed = patches ∷ [];
        }
