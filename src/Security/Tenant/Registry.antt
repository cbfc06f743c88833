-- ===== src/Security/Tenant/Registry.antt =====
-- backend/security/tenant.py: the operations that fill the tables of the tenant manager. The copy that
-- the store of repositories keeps is left out.
use agentic_ai_software_engi.Base.{
  Text, codes, text_eq, pair_eq, Bool, true, false, ◌&&◌, not, Option, none, some, List, [], ◌∷◌,
  ◌++◌, ◌==◌, if◌then◌else◌, is_set, opt_text, or_text,
}
use agentic_ai_software_engi.Base.Dict.{lookup, insert}
use agentic_ai_software_engi.Security.Rbac.{Role}
use agentic_ai_software_engi.Security.Auth.{create_api_key}
use agentic_ai_software_engi.Security.Tenant.{Repository, TenantManager}

unfoldable pub create_organization : Text → TenantManager → TenantManager
create_organization org_id m = record m {
  organizations = insert org_id (record { id = org_id }) m.organizations;
}

abbrev pub is_key {ℓ} : {V : Type ℓ} → Option V → Bool
is_key none = false
is_key (some v) = true

-- None stands for the ValueError of an organization or a user that is not there.
unfoldable pub add_membership : Text → Text → Role → TenantManager → Option TenantManager
add_membership org_id user_id role m =
    if not (is_key (lookup org_id m.organizations))
    then none
    else if not (is_key (lookup user_id m.users))
    then none
    else some (record m { memberships = insert (org_id, user_id) role m.memberships })

abbrev pub default_branches : List Text
default_branches = codes "main" ∷ codes "master" ∷ codes "dev" ∷ codes "agent/*" ∷ []

abbrev pub or_default : List Text → List Text
or_default [] = default_branches
or_default (b ∷ bs) = b ∷ bs

abbrev pub repository_of : Text → Text → Option Text → List Text → Bool → Option Text → Repository
repository_of repo_id org_id full_name allowed_branches is_authorized github_token = record {
  full_name = some (or_text (opt_text full_name) repo_id);
  github_token = github_token;
  id = repo_id;
  organization_id = org_id;
  allowed_branches = or_default allowed_branches;
  is_authorized = is_authorized;
}

-- The repository under its identifier, and under its full name where that is another.
unfoldable pub enroll : Text → Text → Option Text → Repository → TenantManager → TenantManager
enroll repo_id org_id full_name repo m =
    let by_id = insert (org_id, repo_id) repo m.repositories in
    if is_set full_name && not (opt_text full_name == repo_id)
    then record m { repositories = insert (org_id, opt_text full_name) repo by_id }
    else record m { repositories = by_id }

unfoldable pub register_repository :
    Text
    → Text
    → Option Text
    → List Text
    → Bool
    → Option Text
    → TenantManager
    → Option TenantManager
register_repository repo_id org_id full_name allowed_branches is_authorized github_token m =
    if not (is_key (lookup org_id m.organizations))
    then none
    else some (
        enroll repo_id org_id full_name
          (repository_of repo_id org_id full_name allowed_branches is_authorized github_token) m)

-- A mode, and whether it is given with a choice of the fallback.
unfoldable pub set_mode : Bool → Option Bool → TenantManager → TenantManager
set_mode production none m = record m {
  in_production_mode = production;
  dev_auth_fallback = not production;
}
set_mode production (some fallback) m = record m {
  in_production_mode = production;
  dev_auth_fallback = fallback;
}

abbrev pub or_same : TenantManager → Option TenantManager → TenantManager
or_same m none = m
or_same m (some m') = m'

abbrev pub first_or_same : TenantManager → Option (TenantManager × Text) → TenantManager
first_or_same m none = m
first_or_same m (some (m', raw)) = m'

module _ (hash_key : Text → Text) where
  -- An empty API key counts as none, and an empty organization as the default one.
  unfoldable pub create_user :
      Text → Option Text → Option Text → Text → Text → TenantManager → TenantManager
  create_user user_id api_key organization_id generated key_id m =
      let keys =
        if is_set api_key
        then (create_api_key hash_key user_id
            (or_text (opt_text organization_id) (codes "default-org"))
            (user_id ++ codes "_initial_key") none api_key generated key_id m.auth_manager).0
        else m.auth_manager in
      record m { users = insert user_id (record { id = user_id }) m.users; auth_manager = keys }

  unfoldable pub create_user_api_key :
      Text → Text → Text → Option Text → Text → Text → TenantManager → Option (TenantManager × Text)
  create_user_api_key user_id organization_id name expires_at generated key_id m =
      let (keys, raw) =
        create_api_key hash_key user_id organization_id name expires_at none generated key_id
          m.auth_manager in
      if not (is_key (lookup user_id m.users))
      then none
      else if not (is_key (lookup organization_id m.organizations))
      then none
      else some (record m { auth_manager = keys }, raw)

  pub data Call : Type 0 where
    organization : Text → Call
    user : Text → Option Text → Option Text → Text → Text → Call
    membership : Text → Text → Role → Call
    repository : Text → Text → Option Text → List Text → Bool → Option Text → Call
    user_key : Text → Text → Text → Option Text → Text → Text → Call
    mode : Bool → Option Bool → Call

  -- A call that raises leaves the manager as it is.
  unfoldable pub run : Call → TenantManager → TenantManager
  run (organization o) m = create_organization o m
  run (user u k o generated key_id) m = create_user u k o generated key_id m
  run (membership o u role) m = or_same m (add_membership o u role m)
  run (repository r o full_name branches authorized token) m =
      or_same m (register_repository r o full_name branches authorized token m)
  run (user_key u o name expires generated key_id) m =
      first_or_same m (create_user_api_key u o name expires generated key_id m)
  run (mode production fallback) m = set_mode production fallback m

  unfoldable pub run_all : List Call → TenantManager → TenantManager
  run_all [] m = m
  run_all (c ∷ cs) m = run_all cs (run c m)
