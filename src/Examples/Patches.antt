-- ===== src/Examples/Patches.antt =====
-- Patches of a README, the checks of them, and the files they leave.
use agentic_ai_software_engi.Words
use agentic_ai_software_engi.Base.{
  Text, codes, text_eq, nat_eq, ℕ_discrete, Bool, true, false, ◌≡◌, ◌≢◌, ◌↔◌, ◌⊎◌, refl, none, List,
  [], ◌∷◌, ◌++◌, arith, All, starts_with, ends_with, contains, drop, lower, splitlines, split_code,
}
use agentic_ai_software_engi.Base.Dict.{lookup}
use agentic_ai_software_engi.Quality.Schema.{FilePatch}
use agentic_ai_software_engi.Quality.Objective.{objective_verdict, failing, check_named}
use agentic_ai_software_engi.Quality.Judge.{evaluate, advisory}
use agentic_ai_software_engi.Developer.Patcher.{
  replace_first, accepted_with, rejected_with, snippet_not_found, apply_patch,
}
use agentic_ai_software_engi.Developer.Patcher.Replacement.{
  Edits, Nowhere, IsParsed, apply_patch-accepts,
}
use agentic_ai_software_engi.Developer.Scope.{
  detect_patch_wrapper_artifacts, wrapper_markers, detect_unsafe_additive_rewrite,
  is_explicit_rewrite_request, rewrite_patterns, matches, is_additive_request, additive_patterns,
  occurs, is_word, deletes_majority, count_deletions, is_deletion,
}
use agentic_ai_software_engi.Quality.Outcome.{passed}
use agentic_ai_software_engi.Quality.Checks.{
  FileView, file, Tools, ast_faults, check_ast, scope_violations, check_patch_scope,
  security_findings, check_security, run_all,
}
use agentic_ai_software_engi.Quality.Checks.Guarded.{Applies, Preserves, run_all-pass}
use agentic_ai_software_engi.Vcs.Patches.{apply_patches}
use agentic_ai_software_engi.Vcs.Patches.Repeated.{apply_patches-same_file}

abbrev readme : Text
readme = codes "# App" ++ (10 ∷ codes "Old text")

abbrev patch : Text → Text → FilePatch
patch before after = record {
  file_path = codes "README.md";
  original_code_snippet = before;
  updated_code_snippet = after;
}

abbrev retitle : FilePatch
retitle = patch (codes "Old") (codes "New")

abbrev retitled : Text
retitled = codes "# App" ++ (10 ∷ codes "New text")

abbrev any_python : Text → Bool
any_python t = true

retitle-applies : apply_patch any_python readme retitle ≡ accepted_with retitled
unfolding apply_patch replace_first contains starts_with drop ends_with lower text_eq ℕ_discrete
retitle-applies = refl

apply_patch-accepts_example :
    ((apply_patch any_python readme retitle ≡ accepted_with retitled)
      ↔ (Edits readme retitle retitled × IsParsed any_python retitle retitled))
    × ((apply_patch any_python readme retitle ≡ rejected_with snippet_not_found)
        ↔ ((codes "Old" ≢ []) × Nowhere readme (codes "Old")))
apply_patch-accepts_example = apply_patch-accepts any_python readme retitle retitled

abbrev disk : Text → FileView
disk path = file readme

abbrev no_diff : List Text → List Text → List Text
no_diff before after = []

abbrev quiet_tools : Tools
quiet_tools = record {
  view = disk;
  parses = any_python;
  unified_diff = no_diff;
  scan = λ p. [];
  patch_message = λ p e. [];
  unsafe_message = λ p. [];
  wrapper_message = λ p t. [];
  rewrite_message = λ p t u. [];
  execute = λ ps. record {
    pytest_check = passed;
    lint_check = passed;
    type_check = passed;
    test_result = none;
  };
}

retitle-passes :
    (evaluate
      (run_all quiet_tools (retitle ∷ []) (codes "add a line") none none).checks
      none
      (retitle ∷ [])
      none).status
    ≡ Words.pass
unfolding evaluate objective_verdict failing check_named advisory run_all check_ast ast_faults
    check_patch_scope scope_violations check_security security_findings apply_patch replace_first
    contains starts_with drop ends_with lower text_eq ℕ_discrete detect_patch_wrapper_artifacts
    wrapper_markers split_code detect_unsafe_additive_rewrite is_explicit_rewrite_request
    rewrite_patterns matches is_additive_request additive_patterns occurs is_word deletes_majority
    splitlines count_deletions Words.pass Words.fail
retitle-passes = refl

run_all-pass_example :
    All (Applies quiet_tools) (retitle ∷ [])
    × ((codes "add a line" ≡ [])
        ⊎ All (Preserves quiet_tools (codes "add a line") none none) (retitle ∷ []))
    × (security_findings quiet_tools (retitle ∷ []) ≡ [])
    × ((run_all quiet_tools (retitle ∷ []) (codes "add a line") none none).executed
        ≡ (retitle ∷ []) ∷ [])
run_all-pass_example =
    run_all-pass quiet_tools (codes "add a line") none none (retitle ∷ []) none none retitle-passes

abbrev at_head : Text → Text
at_head path = readme

abbrev anywhere : Text → Bool
anywhere path = true

abbrev retouch : FilePatch
retouch = patch (codes "App") (codes "Application")

apply_patches-same_file_example :
    apply_patches at_head anywhere any_python
      (retitle ∷ retouch ∷ [])
      ((codes "README.md", readme) ∷ [])
    ≡ apply_patches at_head anywhere any_python (retitle ∷ []) ((codes "README.md", readme) ∷ [])
unfolding lookup text_eq
apply_patches-same_file_example =
    apply_patches-same_file at_head anywhere any_python retitle retouch
      ((codes "README.md", readme) ∷ []) readme retitled refl refl refl refl (λ e. ground arith)
      (λ e. ground arith)
      (((apply_patch-accepts any_python readme retitle retitled).0.0 retitle-applies).0)
      (((apply_patch-accepts any_python readme retitle retitled).0.0 retitle-applies).1)
      (λ e. ground arith) (λ e. ground (arith, e))

-- A deleted line that begins with two hyphens looks like the header of a file, and is not counted.
rule-uncounted :
    (is_deletion (codes "-text") ≡ true)
    × (is_deletion (codes "---") ≡ false)
    × (is_deletion (codes "--- a comment") ≡ false)
unfolding is_deletion starts_with ℕ_discrete
rule-uncounted = (refl, refl, refl)
