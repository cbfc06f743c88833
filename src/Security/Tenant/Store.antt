-- ===== src/Security/Tenant/Store.antt =====
-- backend/security/repository_store.py and its use in backend/security/tenant.py: the registrations
-- that outlive the process. The table is a dictionary by its primary key, and JSON and the migration of
-- older tables are left out.
pub mod Restart
use agentic_ai_software_engi.Base.{
  Text, codes, text_eq, pair_eq, Bool, true, false, ◌&&◌, ◌||◌, not, Option, none, some, List, [],
  ◌∷◌, ◌==◌, if◌then◌else◌, is_set, opt_text, map, first,
}
use agentic_ai_software_engi.Base.Dict.{Dict, lookup, insert}
use agentic_ai_software_engi.Security.Rbac.{Role, owner}
use agentic_ai_software_engi.Security.Auth.{clear}
use agentic_ai_software_engi.Security.Tenant.{Organization, User, Repository, TenantManager}
use agentic_ai_software_engi.Security.Tenant.Registry.{
  create_organization, create_user, add_membership, register_repository, or_same, repository_of,
}

-- A row has no column for the token.
pub record RepositoryRow : Type 0 where
  pub id : Text
  pub organization_id : Text
  pub full_name : Option Text
  pub allowed_branches : List Text
  pub is_authorized : Bool
  pub created_at : Text
  pub updated_at : Text

abbrev pub Table : Type 0
Table = Dict (Text × Text) RepositoryRow

abbrev pub original_creation : Text → Option RepositoryRow → Text
original_creation now none = now
original_creation now (some row) = row.created_at

abbrev pub row_of : Repository → Text → Text → RepositoryRow
row_of r created now = record {
  id = r.id;
  organization_id = r.organization_id;
  full_name = r.full_name;
  allowed_branches = r.allowed_branches;
  is_authorized = r.is_authorized;
  created_at = created;
  updated_at = now;
}

unfoldable pub upsert : Text → Repository → Table → Table
upsert now r t =
    let key : Text × Text = (r.organization_id, r.id) in
    insert key (row_of r (original_creation now (lookup key t)) now) t

abbrev pub row_to_repository : RepositoryRow → Repository
row_to_repository row = record {
  id = row.id;
  organization_id = row.organization_id;
  full_name = row.full_name;
  allowed_branches = row.allowed_branches;
  is_authorized = row.is_authorized;
  github_token = none;
}

abbrev pub has_full_name : Text → Option Text → Bool
has_full_name name none = false
has_full_name name (some f) = f == name

abbrev pub is_named : Text → Text → RepositoryRow → Bool
is_named o name row =
    row.organization_id == o && (row.id == name || has_full_name name row.full_name)

abbrev pub as_repository : Option RepositoryRow → Option Repository
as_repository none = none
as_repository (some row) = some (row_to_repository row)

-- `LIMIT 1` takes the first row in the order of insertion; without an organization there is none.
unfoldable pub get : Text → Text → Table → Option Repository
get name [] t = none
get name (c ∷ o) t = as_repository (first (is_named (c ∷ o) name) (map (λ entry. entry.1) t))

unfoldable pub list_all : Table → List Repository
list_all t = map (λ entry. row_to_repository entry.1) t

unfoldable pub reset : Table → Table
reset t = []

-- `_hydrate_repositories_from_store`: each repository under its identifier, and under its full name
-- where it has another.
abbrev pub file_repository :
    Repository → Dict (Text × Text) Repository → Dict (Text × Text) Repository
file_repository r d =
    let by_id = insert (r.organization_id, r.id) r d in
    if is_set r.full_name && not (opt_text r.full_name == r.id)
    then insert (r.organization_id, opt_text r.full_name) r by_id
    else by_id

abbrev pub file_all :
    List Repository → Dict (Text × Text) Repository → Dict (Text × Text) Repository
file_all [] d = d
file_all (r ∷ rs) d = file_all rs (file_repository r d)

unfoldable pub hydrate : Table → TenantManager → TenantManager
hydrate t m = record m { repositories = file_all (list_all t) m.repositories }

-- `register_repository` with the row that it writes.
unfoldable pub register_and_store :
    Text
    → Text
    → Text
    → Option Text
    → List Text
    → Bool
    → Option Text
    → TenantManager
    → Table
    → Option (TenantManager × Table)
register_and_store now repo_id org_id full_name allowed_branches is_authorized github_token m t =
    elim (register_repository repo_id org_id full_name allowed_branches is_authorized github_token
      m) [
        | none ↦ none
        | some m' ↦ some (
          m',
          upsert now
              (repository_of repo_id org_id full_name allowed_branches is_authorized github_token)
              t,
        )
      ]

module _ (hash_key : Text → Text) where
  -- The default organization, its user with the sandbox key, and the membership.
  unfoldable pub init_defaults : Text → TenantManager → TenantManager
  init_defaults key_id m =
      let m' = create_organization (codes "default-org") m in
      let m'' =
        create_user hash_key (codes "default-user") (some (codes "default-sandbox-key")) none []
          key_id m' in
      or_same m'' (add_membership (codes "default-org") (codes "default-user") owner m'')

  abbrev pub emptied : TenantManager → TenantManager
  emptied m = record m { organizations = []; users = []; memberships = []; repositories = [] }

  -- A new process: the keys, in `auth_manager`, are those of the process too.
  unfoldable pub restart : Text → Table → TenantManager → TenantManager
  restart key_id t m =
      hydrate t (init_defaults key_id (record (emptied m) { auth_manager = clear m.auth_manager }))

  unfoldable pub reset_all : Text → TenantManager → Table → TenantManager × Table
  reset_all key_id m t =
      (init_defaults key_id (record (emptied m) { auth_manager = clear m.auth_manager }), reset t)
