-- ===== src/Vcs/Diff.antt =====
-- The staged change: backend/vcs/models.py and the drift check of backend/vcs/git_manager.py.
use agentic_ai_software_engi.Base.{
  ℕ, Text, text_eq, Bool, true, false, ◌||◌, not, Option, none, some, List, [], ◌∷◌, ◌==◌,
  if◌then◌else◌, strip, any,
}

pub record GitDiffSummary : Type 0 where
  pub branch_name : Text
  pub files_changed : List Text
  pub lines_added : ℕ
  pub lines_deleted : ℕ
  pub unified_diff : Text
  pub risk_score : Text
  pub risk_reasons : List Text
  pub patch_hash : Text

pub record ApprovalDecision : Type 0 where
  pub approved : Bool
  pub reviewer : Option Text
  pub rejection_reason : Option Text
  pub patch_hash : Option Text
  pub timestamp : Option Text
  pub reviewer_role : Option Text
  pub user_id : Option Text

abbrev pub is_empty {ℓ} : {A : Type ℓ} → List A → Bool
is_empty [] = true
is_empty (x ∷ xs) = false

-- The property `is_no_op`: no file changed, or no diff text but blanks.
unfoldable pub is_no_op : GitDiffSummary → Bool
is_no_op d = is_empty d.files_changed || is_empty (strip d.unified_diff)

-- A changed file with its text at HEAD, empty if it is new, and its text in the workspace.
pub record FileState : Type 0 where
  pub path : Text
  pub original : Text
  pub current : Text

abbrev has_text : FileState → Bool
has_text f = not (is_empty f.original)

-- `compute_patch_hash` is SHA-256, and the diff of the workspace comes from `difflib`.
module _ (patch_hash : Text → Text) (compute_diff : List FileState → Text) where
  -- `verify_workspace_drift`; no workspace is none. True means that the commit may go on.
  unfoldable pub verify_workspace_drift : Text → Text → Option (List FileState) → Bool
  verify_workspace_drift expected_diff [] workspace = true
  verify_workspace_drift expected_diff (c ∷ hash) workspace =
      if patch_hash expected_diff == (c ∷ hash)
      then elim workspace [
        | none ↦ true
        | some files ↦
            if any has_text files then patch_hash (compute_diff files) == (c ∷ hash) else true
      ]
      else false
