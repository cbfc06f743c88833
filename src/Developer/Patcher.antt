-- ===== src/Developer/Patcher.antt =====
-- backend/developer/patcher.py: a patch is applied to the text of a file. Whether Python parses a text
-- is an argument; messages are left out but for their kind.
pub mod Replacement
use agentic_ai_software_engi.Base.{
  ℕ, Text, codes, text_eq, Bool, true, false, ◌&&◌, not, Option, none, some, List, [], ◌∷◌, ◌++◌,
  ◌==◌, if◌then◌else◌, starts_with, ends_with, contains, drop, length, lower,
}
use agentic_ai_software_engi.Quality.Schema.{FilePatch}

pub data PatchError : Type 0 where
  snippet_not_found syntax_error : PatchError

pub record PatchValidationResult : Type 0 where
  pub is_valid : Bool
  pub syntax_errors : List PatchError
  pub applied_content : Option Text

-- `s.replace(orig, upd, 1)`, for an `orig` that is not empty.
unfoldable pub replace_first : Text → Text → Text → Text
replace_first orig upd [] = if starts_with [] orig then upd else []
replace_first orig upd (c ∷ s) =
    let rest = replace_first orig upd s in
    if starts_with (c ∷ s) orig then upd ++ drop (length orig) (c ∷ s) else c ∷ rest

abbrev pub rejected_with : PatchError → PatchValidationResult
rejected_with e = record { is_valid = false; syntax_errors = e ∷ []; applied_content = none }

abbrev pub accepted_with : Text → PatchValidationResult
accepted_with s = record { is_valid = true; syntax_errors = []; applied_content = some s }

abbrev pub is_python : Text → Bool
is_python path = ends_with (lower path) (codes ".py")

-- An empty snippet replaces the whole file.
abbrev pub applied : Text → FilePatch → Option Text
applied source p =
    if p.original_code_snippet == []
    then some p.updated_code_snippet
    else if contains source p.original_code_snippet
    then some (replace_first p.original_code_snippet p.updated_code_snippet source)
    else none

module _ (parses : Text → Bool) where
  abbrev pub validated : Text → Option Text → PatchValidationResult
  validated path none = rejected_with snippet_not_found
  validated path (some s) =
      if is_python path && not (parses s) then rejected_with syntax_error else accepted_with s

  unfoldable pub apply_patch : Text → FilePatch → PatchValidationResult
  apply_patch source p = validated p.file_path (applied source p)
