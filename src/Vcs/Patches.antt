-- ===== src/Vcs/Patches.antt =====
-- backend/vcs/git_manager.py, `apply_patches`: the patches of a run on the files of its workspace. What
-- stands at HEAD is an argument, and so is which paths stay inside the repository; a file that cannot be
-- read counts as empty, as one that is missing does.
pub mod Repeated
use agentic_ai_software_engi.Base.{
  Text, text_eq, Bool, true, false, ◌&&◌, ◌||◌, not, Option, none, some, List, [], ◌∷◌, ◌==◌,
  if◌then◌else◌, opt_text,
}
use agentic_ai_software_engi.Base.Dict.{Dict, lookup, insert}
use agentic_ai_software_engi.Quality.Schema.{FilePatch}
use agentic_ai_software_engi.Developer.Patcher.{PatchValidationResult, apply_patch}

-- The files, and the content of each patched file before and after; none after the ValueError of a patch
-- that is refused, which leaves the files of the patches before it written.
abbrev pub Files : Type 0
Files = Dict Text Text

abbrev pub Changes : Type 0
Changes = Dict Text (Text × Text)

pub record Applied : Type 0 where
  pub files : Files
  pub changes : Option Changes

-- One patch: the content before and after, and whether it is written.
pub data Effect : Type 0 where
  trusted written : Text → Text → Effect
  refused : Effect

abbrev pub validated_effect : Text → PatchValidationResult → Effect
validated_effect original r =
    if r.is_valid then written original (opt_text r.applied_content) else refused

-- The loop, with the rest of it as a function.
abbrev pub proceed : Text → Files → Changes → Effect → (Files → Changes → Applied) → Applied
proceed path files changes (trusted before after) rest =
    rest files (insert path (before, after) changes)
proceed path files changes (written before after) rest =
    rest (insert path after files) (insert path (before, after) changes)
proceed path files changes refused rest = record { files = files; changes = none }

module _ (head : Text → Text) (is_safe : Text → Bool) (parses : Text → Bool) where
  -- Without a committed version the working tree is the baseline.
  abbrev pub original_of : Text → Text → Text
  original_of committed current = if committed == [] then current else committed

  abbrev pub snippet_effect : FilePatch → Text → Text → Effect
  snippet_effect p original current =
      if not (current == []) && not (current == original)
      then trusted original current
      else validated_effect original (apply_patch parses original p)

  unfoldable pub effect_of : FilePatch → Text → Effect
  effect_of p current =
      if p.original_code_snippet == [] && not (current == [])
      then trusted (head p.file_path) current
      else snippet_effect p (original_of (head p.file_path) current) current

  unfoldable pub apply_all_patches : List FilePatch → Files → Changes → Applied
  apply_all_patches [] files changes = record { files = files; changes = some changes }
  apply_all_patches (p ∷ ps) files changes =
      if is_safe p.file_path
      then proceed p.file_path files changes (effect_of p (opt_text (lookup p.file_path files)))
          (λ f c. apply_all_patches ps f c)
      else record { files = files; changes = none }

  unfoldable pub apply_patches : List FilePatch → Files → Applied
  apply_patches ps files = apply_all_patches ps files []
