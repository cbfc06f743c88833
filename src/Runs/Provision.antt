-- ===== src/Runs/Provision.antt =====
-- backend/graph/runner.py, `_ensure_workspace_provisioned`, and `clone_repository` of
-- backend/vcs/git_manager.py: the clone that a run works in. What `git clone` leaves behind is an
-- argument, and so are the header made from a token and the environment's own token.
pub mod Verified
use agentic_ai_software_engi.Base.{
  ℕ, Text, codes, text_eq, nat_eq, Bool, true, false, ◌&&◌, ◌||◌, not, Option, none, some, List, [],
  ◌∷◌, ◌++◌, ◌==◌, if◌then◌else◌, is_set, opt_text, lower, ends_with,
}
use agentic_ai_software_engi.Base.Dict.{Dict, lookup}
use agentic_ai_software_engi.Vcs.Workspace.{resolve_workspace_path}
use agentic_ai_software_engi.Vcs.Diff.{is_empty}
use agentic_ai_software_engi.Security.Auth.{Result, ok, error}
use agentic_ai_software_engi.Security.Tenant.{
  Repository, TenantManager, authorize_repository_access,
}

-- The directories that hold a `.git` of their own, each with the address of its origin.
abbrev pub Workspaces : Type 0
Workspaces = Dict Text (Option Text)

abbrev pub has_git : Option (Option Text) → Bool
has_git none = false
has_git (some r) = true

abbrev pub get_remote_url : Option (Option Text) → Option Text
get_remote_url none = none
get_remote_url (some r) = r

-- `s.rstrip(c)`
unfoldable pub rstrip_code : ℕ → Text → Text
rstrip_code c [] = []
rstrip_code c (x ∷ s) =
    let rest = rstrip_code c s in if x == c && is_empty rest then [] else x ∷ rest

unfoldable pub is_clone_of : Text → Option Text → Bool
is_clone_of repository url =
    is_set url
    && ends_with (lower (rstrip_code b'/' (opt_text url)))
        (lower (b'/' ∷ (repository ++ codes ".git")))

-- Why a run may not go on, or how its workspace came to be.
pub data Provisioned : Type 0 where
  not_needed reused cloned : Provisioned
  no_path not_authorized not_cloned not_git wrong_origin : Provisioned

abbrev pub is_provisioned : Provisioned → Bool
is_provisioned reused = true
is_provisioned cloned = true
is_provisioned p = false

module _ (git_clone : Text → Text → Option Text → Workspaces → Workspaces × Bool)
    (auth_header : Text → Text) (environment_token : Option Text) (m : TenantManager) where
  -- A git repository that is there is left alone.
  unfoldable pub clone_repository : Text → Text → Option Text → Workspaces → Workspaces × Bool
  clone_repository url path header d =
      if has_git (lookup path d) then (d, true) else git_clone url path header d

  abbrev pub header_of : Repository → Option Text
  header_of r =
      if is_set r.github_token
      then some (auth_header (opt_text r.github_token))
      else if is_set environment_token
      then some (auth_header (opt_text environment_token))
      else none

  abbrev pub clone_url : Text → Repository → Text
  clone_url name r =
      codes "https://github.com/"
      ++ ((if is_set r.full_name then opt_text r.full_name else name) ++ codes ".git")

  -- What a clone leaves is looked at again.
  abbrev pub verify : Text → Text → Workspaces × Bool → Provisioned × Workspaces
  verify name path (d, done) =
      if not done
      then (not_cloned, d)
      else if not (has_git (lookup path d))
      then (not_git, d)
      else if is_clone_of name (get_remote_url (lookup path d))
      then (cloned, d)
      else (wrong_origin, d)

  abbrev pub clone_for : Text → Text → Result Repository → Workspaces → Provisioned × Workspaces
  clone_for name path (error e) d = (not_authorized, d)
  clone_for name path (ok r) d =
      verify name path (clone_repository (clone_url name r) path (header_of r) d)

  abbrev pub provision_at : Text → Text → Option Text → Workspaces → Provisioned × Workspaces
  provision_at name organization none d = (no_path, d)
  provision_at name organization (some path) d =
      if has_git (lookup path d) && is_clone_of name (get_remote_url (lookup path d))
      then (reused, d)
      else clone_for name path (authorize_repository_access organization name none m) d

  unfoldable pub ensure_workspace_provisioned :
      Option Text → Option Text → Text → Workspaces → Provisioned × Workspaces
  ensure_workspace_provisioned project repository organization d =
      if not (is_set project) || not (is_set repository)
      then (not_needed, d)
      else provision_at (opt_text repository) organization
          (resolve_workspace_path (some organization) project) d
