-- ===== src/Examples/Provision.antt =====
-- The provisioning of a workspace at concrete inputs.
use agentic_ai_software_engi.Base.{
  Text, codes, text_eq, pair_eq, nat_eq, Bool, true, false, ◌≡◌, refl, Option, none, some, [], ◌∷◌,
  lower, ends_with, strip, contains,
}
use agentic_ai_software_engi.Base.Dict.{lookup, insert}
use agentic_ai_software_engi.Policy.Paths.{is_traversal_attack}
use agentic_ai_software_engi.Vcs.Workspace.{
  is_unsafe_component, safe_path_component, resolve_workspace_path,
}
use agentic_ai_software_engi.Security.Tenant.{
  TenantManager, get_repository, authorize_repository_access,
}
use agentic_ai_software_engi.Runs.Provision.{
  Workspaces, Provisioned, rstrip_code, is_clone_of, wrong_origin, is_provisioned, clone_repository,
  ensure_workspace_provisioned,
}
use agentic_ai_software_engi.Runs.Provision.Verified.{
  IsAccountedFor, ensure_workspace_provisioned-IsAccountedFor,
}

abbrev registered : TenantManager
registered = record {
  organizations = [];
  users = [];
  memberships = [];
  repositories =
      (
        (codes "acme", codes "Acme/app"),
        record {
          id = codes "Acme/app";
          organization_id = codes "acme";
          allowed_branches = [];
          is_authorized = true;
          full_name = none;
          github_token = none;
        },
      )
      ∷ [];
  auth_manager = record { keys = []; hash_to_key_id = [] };
  in_production_mode = true;
  dev_auth_fallback = false;
}

abbrev clones : Text → Text → Option Text → Workspaces → Workspaces × Bool
clones url path header d = (insert path (some url) d, true)

abbrev header : Text → Text
header t = t

abbrev for_acme : Workspaces → Provisioned × Workspaces
for_acme d =
    ensure_workspace_provisioned clones header none registered (some (codes "web"))
      (some (codes "Acme/app")) (codes "acme") d

for_acme-provisioned : is_provisioned (for_acme []).0 ≡ true
unfolding ensure_workspace_provisioned resolve_workspace_path safe_path_component
    is_unsafe_component is_traversal_attack text_eq pair_eq strip contains lookup insert
    get_repository authorize_repository_access clone_repository is_clone_of rstrip_code lower
    ends_with
for_acme-provisioned = refl

ensure_workspace_provisioned-IsAccountedFor_example :
    (path : Text) × (resolve_workspace_path (some (codes "acme")) (some (codes "web")) ≡ some path)
    × IsAccountedFor clones header none registered
        (codes "Acme/app")
        (codes "acme")
        path
        []
        (for_acme [])
ensure_workspace_provisioned-IsAccountedFor_example =
    ensure_workspace_provisioned-IsAccountedFor clones header none registered (some (codes "web"))
      (some (codes "Acme/app")) (codes "acme") [] refl refl for_acme-provisioned

-- A workspace that holds another repository is not cloned again, and the run fails.
other_origin :
    for_acme ((codes "workspace/acme/web", some (codes "https://github.com/acme/old.git")) ∷ []) ≡ (
      wrong_origin,
      (codes "workspace/acme/web", some (codes "https://github.com/acme/old.git")) ∷ [],
    )
unfolding ensure_workspace_provisioned resolve_workspace_path safe_path_component
    is_unsafe_component is_traversal_attack text_eq pair_eq strip contains lookup get_repository
    authorize_repository_access clone_repository is_clone_of rstrip_code lower ends_with
other_origin = refl
