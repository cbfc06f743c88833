-- ===== src/Security/Tenant.antt =====
-- backend/security/tenant.py: who a request acts for. The manager is the state that the lookups read;
-- names, addresses and time stamps that no decision reads are left out.
pub mod Context
pub mod Registry
pub mod Ownership
pub mod Store
use agentic_ai_software_engi.Base.{
  ℕ, Text, codes, text_eq, pair_eq, Bool, true, false, ◌&&◌, ◌||◌, not, Option, none, some, List,
  [], ◌∷◌, ◌==◌, if◌then◌else◌, is_set, opt_text, any, keep, map,
}
use agentic_ai_software_engi.Base.Dict.{Dict, lookup, insert}
use agentic_ai_software_engi.Base.Glob.{fnmatch}
use agentic_ai_software_engi.Security.Rbac.{Role, Permission, get_permissions}
use agentic_ai_software_engi.Security.Auth.{
  AuthError, authentication_required, authentication_invalid, tenant_access_denied,
  repository_access_denied, Result, ok, error, ApiKeyRecord, AuthManager, authenticate_api_key,
}

pub record Organization : Type 0 where
  pub id : Text

pub record User : Type 0 where
  pub id : Text

pub record Repository : Type 0 where
  pub id : Text
  pub organization_id : Text
  pub allowed_branches : List Text
  pub is_authorized : Bool
  pub full_name : Option Text
  pub github_token : Option Text

pub record TenantManager : Type 0 where
  pub organizations : Dict Text Organization
  pub users : Dict Text User
  pub memberships : Dict (Text × Text) Role
  pub repositories : Dict (Text × Text) Repository
  pub auth_manager : AuthManager
  pub in_production_mode : Bool
  pub dev_auth_fallback : Bool

pub record TenantContext : Type 0 where
  pub user : User
  pub organization : Organization
  pub role : Role
  pub permissions : List Permission

-- `get_repository`: without an organization there is none.
abbrev pub scoped : Text → Text → TenantManager → Option Repository
scoped [] repo_id m = none
scoped (c ∷ o) repo_id m = lookup (c ∷ o, repo_id) m.repositories

unfoldable pub get_repository : Text → Option Text → TenantManager → Option Repository
get_repository repo_id o m = scoped (opt_text o) repo_id m

-- `find_registration_any_organization`
unfoldable pub is_registered_anywhere : Text → TenantManager → Bool
is_registered_anywhere repo_id m = any (λ entry. entry.0.1 == repo_id) m.repositories

abbrev pub branch_allowed : Option Text → Repository → Bool
branch_allowed b r = if is_set b then any (λ p. fnmatch (opt_text b) p) r.allowed_branches else true

abbrev pub authorize_on : Text → Option Text → TenantManager → Option Repository → Result Repository
authorize_on name b m none =
    if is_registered_anywhere name m
    then error tenant_access_denied
    else error repository_access_denied
authorize_on name b m (some r) =
    if not r.is_authorized
    then error repository_access_denied
    else if branch_allowed b r
    then ok r
    else error repository_access_denied

unfoldable pub authorize_repository_access :
    Text → Text → Option Text → TenantManager → Result Repository
authorize_repository_access organization name b m =
    authorize_on name b m (get_repository name (some organization) m)

-- The organizations of a user's memberships, in the order of the table.
unfoldable pub list_user_memberships : Text → TenantManager → List Text
list_user_memberships user_id m =
    map (λ entry. entry.0.0) (keep (λ entry. entry.0.1 == user_id) m.memberships)

-- Steps 4 and 5: the organization, the membership in it, and the permissions of its role.
abbrev pub context_of :
    User → Option Organization → TenantManager → (Organization → Option Role) → Result TenantContext
context_of user none m roles = error tenant_access_denied
context_of user (some org) m roles = elim (roles org) [
  | none ↦ error tenant_access_denied
  | some role ↦
      ok (record {
        user = user;
        organization = org;
        role = role;
        permissions = get_permissions role;
      })
]

unfoldable pub enter : User → Text → TenantManager → Result TenantContext
enter user org_id m =
    context_of user (lookup org_id m.organizations) m
      (λ org. lookup (org.id, user.id) m.memberships)

-- The organization of the key, if the user is still a member of it, or the user's first one.
abbrev pub home : Option ApiKeyRecord → List Text → Text → Text
home none memberships first = first
home (some r) memberships first =
    if any (λ o. o == r.organization_id) memberships then r.organization_id else first

abbrev pub enter_home :
    User → Option ApiKeyRecord → TenantManager → List Text → Result TenantContext
enter_home user key m [] = error tenant_access_denied
enter_home user key m (o ∷ os) = enter user (home key (o ∷ os) o) m

abbrev pub enter_as :
    User → Option ApiKeyRecord → Option Text → TenantManager → Result TenantContext
enter_as user key org_id m =
    if is_set org_id
    then enter user (opt_text org_id) m
    else enter_home user key m (list_user_memberships user.id m)

abbrev pub found : Option User → Option Text → TenantManager → AuthError → Result TenantContext
found none org_id m e = error e
found (some user) org_id m e = enter_as user none org_id m

abbrev pub is_production : TenantManager → Bool
is_production m = m.in_production_mode || not m.dev_auth_fallback

-- Without an API key: refused in production, and else by the claimed user or the default one.
abbrev pub without_key : Option Text → Option Text → TenantManager → Result TenantContext
without_key org_id user_id m =
    if is_production m
    then error (if is_set user_id then authentication_invalid else authentication_required)
    else if is_set user_id
    then found (lookup (opt_text user_id) m.users) org_id m authentication_invalid
    else if m.dev_auth_fallback && not (is_set org_id)
    then found (lookup (codes "default-user") m.users) (some (codes "default-org")) m
        authentication_required
    else error authentication_required

abbrev pub owner_of :
    Option User → ApiKeyRecord → Option Text → TenantManager → Result TenantContext
owner_of none r org_id m = error authentication_invalid
owner_of (some user) r org_id m = enter_as user (some r) org_id m

abbrev pub with_key : Result ApiKeyRecord → Option Text → TenantManager → Result TenantContext
with_key (error e) org_id m = error e
with_key (ok r) org_id m = owner_of (lookup r.user_id m.users) r org_id m

module _ (hash_key : Text → Text) (has_expired : Text → Bool) where
  unfoldable pub resolve_context :
      Option Text → Option Text → Option Text → TenantManager → Result TenantContext
  resolve_context org_id user_id api_key m =
      if is_set api_key
      then with_key (authenticate_api_key hash_key has_expired (opt_text api_key) m.auth_manager)
          org_id m
      else without_key org_id user_id m
