-- ===== src/Security/Tenant/Context.antt =====
-- What a context and an authorization of the tenant manager guarantee.
use agentic_ai_software_engi.Base.{
  Text, codes, text_eq, pair_eq, Bool, true, ◌&&◌, not, ◌≡◌, ◌≢◌, Some, any-Some, Some-any, refl,
  ◌↔◌, Option, none, some, List, [], ◌∷◌, arith, is_set, opt_text, sym, ◌∙◌, ap, Bool-cases, inl,
  inr,
}
use agentic_ai_software_engi.Base.Dict.{lookup}
use agentic_ai_software_engi.Base.Glob.{fnmatch}
use agentic_ai_software_engi.Security.Rbac.{Role, get_permissions}
use agentic_ai_software_engi.Security.Auth.{
  AuthError, authentication_required, authentication_invalid, tenant_access_denied, Result, ok,
  error, ApiKeyRecord, authenticate_api_key,
}
use agentic_ai_software_engi.Security.Tenant.{
  Organization, User, Repository, TenantManager, TenantContext, get_repository, branch_allowed,
  authorize_on, authorize_repository_access, list_user_memberships, context_of, enter,
  is_registered_anywhere, enter_home, enter_as, found, is_production, without_key, owner_of,
  with_key, resolve_context,
}

-- The user is a member of an organization that there is, with the role and its permissions.
abbrev pub IsGranted : TenantManager → Result TenantContext → Type 0
IsGranted m (error e) = Unit
IsGranted m (ok c) =
    (lookup (c.organization.id, c.user.id) m.memberships ≡ some c.role)
    × (c.permissions ≡ get_permissions c.role)
    × ((id : Text) × (lookup id m.organizations ≡ some c.organization))

-- The context is granted, and to this user.
abbrev pub IsFor : User → TenantManager → Result TenantContext → Type 0
IsFor user m (error e) = Unit
IsFor user m (ok c) = (c.user ≡ user) × IsGranted m (ok c)

IsFor-IsGranted :
    (user : User) (m : TenantManager) (r : Result TenantContext) → IsFor user m r → IsGranted m r
IsFor-IsGranted user m (error e) h = tt
IsFor-IsGranted user m (ok c) h = h.1

role-IsFor :
    (user : User) (org : Organization) (id : Text) (m : TenantManager) (o : Option Role)
    → (lookup (org.id, user.id) m.memberships ≡ o)
    → (lookup id m.organizations ≡ some org)
    → IsFor user m (elim o [
      | none ↦ error tenant_access_denied
      | some role ↦ ok (record {
        user = user;
        organization = org;
        role = role;
        permissions = get_permissions role;
      })
    ])
role-IsFor user org id m none h k = tt
role-IsFor user org id m (some role) h k = (refl, (h, refl, (id, k)))

org-IsFor :
    (user : User) (id : Text) (m : TenantManager) (o : Option Organization)
    → (lookup id m.organizations ≡ o)
    → IsFor user m (context_of user o m (λ org. lookup (org.id, user.id) m.memberships))
org-IsFor user id m none h = tt
org-IsFor user id m (some org) h =
    role-IsFor user org id m (lookup (org.id, user.id) m.memberships) refl h

enter-IsFor : (user : User) (id : Text) (m : TenantManager) → IsFor user m (enter user id m)
unfolding enter
enter-IsFor user id m = org-IsFor user id m (lookup id m.organizations) refl

enter_home-IsFor :
    (user : User) (key : Option ApiKeyRecord) (m : TenantManager) (os : List Text)
    → IsFor user m (enter_home user key m os)
enter_home-IsFor user key m [] = tt
enter_home-IsFor user key m (o ∷ os) = enter-IsFor user _ m

enter_as-IsFor :
    (user : User) (key : Option ApiKeyRecord) (o : Option Text) (m : TenantManager)
    → IsFor user m (enter_as user key o m)
enter_as-IsFor user key o m = elim (Bool-cases (is_set o)) [
  | inl e ↦ rw e (enter-IsFor user (opt_text o) m)
  | inr e ↦ rw e (enter_home-IsFor user key m (list_user_memberships user.id m))
]

found-IsGranted :
    (u : Option User) (o : Option Text) (m : TenantManager) (e : AuthError)
    → IsGranted m (found u o m e)
found-IsGranted none o m e = tt
found-IsGranted (some user) o m e = IsFor-IsGranted user m _ (enter_as-IsFor user none o m)

without_key-IsGranted : (o u : Option Text) (m : TenantManager) → IsGranted m (without_key o u m)
without_key-IsGranted o u m = elim (Bool-cases (is_production m)) [
  | inl e ↦ rw e tt
  | inr e ↦ elim (Bool-cases (is_set u)) [
    | inl k ↦ rw (e, k) (found-IsGranted (lookup (opt_text u) m.users) o m authentication_invalid)
    | inr k ↦ elim (Bool-cases (m.dev_auth_fallback && not (is_set o))) [
      | inl d ↦
          rw (e, k, d)
            (found-IsGranted (lookup (codes "default-user") m.users) (some (codes "default-org")) m
              authentication_required)
      | inr d ↦ rw (e, k, d) tt
    ]
  ]
]

owner_of-IsGranted :
    (u : Option User) (r : ApiKeyRecord) (o : Option Text) (m : TenantManager)
    → IsGranted m (owner_of u r o m)
owner_of-IsGranted none r o m = tt
owner_of-IsGranted (some user) r o m = IsFor-IsGranted user m _ (enter_as-IsFor user (some r) o m)

with_key-IsGranted :
    (r : Result ApiKeyRecord) (o : Option Text) (m : TenantManager) → IsGranted m (with_key r o m)
with_key-IsGranted (error e) o m = tt
with_key-IsGranted (ok r) o m = owner_of-IsGranted (lookup r.user_id m.users) r o m

module _ (hash_key : Text → Text) (has_expired : Text → Bool) where
  -- Whatever a request claims, a context names a user who is a member of its organization, with the
  -- role of that membership and exactly the permissions of the role.
  pub resolve_context-IsGranted :
      (org_id user_id api_key : Option Text) (m : TenantManager)
      → IsGranted m (resolve_context hash_key has_expired org_id user_id api_key m)
  unfolding resolve_context
  resolve_context-IsGranted org_id user_id api_key m = elim (Bool-cases (is_set api_key)) [
    | inl e ↦ rw e (
        with_key-IsGranted
          (authenticate_api_key hash_key has_expired (opt_text api_key) m.auth_manager) org_id m)
    | inr e ↦ rw e (without_key-IsGranted org_id user_id m)
  ]

  -- The user of the context is the owner of the record that the key authenticates as.
  abbrev pub IsProven : Option Text → TenantManager → Result TenantContext → Type 0
  IsProven key m (error e) = Unit
  IsProven key m (ok c) =
      (r : ApiKeyRecord) × (authenticate_api_key hash_key has_expired (opt_text key) m.auth_manager
        ≡ ok r)
      × (lookup r.user_id m.users ≡ some c.user)

  IsFor-IsProven :
      (key : Option Text) (r : ApiKeyRecord) (user : User) (m : TenantManager)
      (c : Result TenantContext)
      → (authenticate_api_key hash_key has_expired (opt_text key) m.auth_manager ≡ ok r)
      → (lookup r.user_id m.users ≡ some user)
      → IsFor user m c
      → IsProven key m c
  IsFor-IsProven key r user m (error e) a h k = tt
  IsFor-IsProven key r user m (ok c) a h k = (r, a, h ∙ ap some (sym k.0))

  owner_of-IsProven :
      (key o : Option Text) (r : ApiKeyRecord) (u : Option User) (m : TenantManager)
      → (authenticate_api_key hash_key has_expired (opt_text key) m.auth_manager ≡ ok r)
      → (lookup r.user_id m.users ≡ u)
      → IsProven key m (owner_of u r o m)
  owner_of-IsProven key o r none m a h = tt
  owner_of-IsProven key o r (some user) m a h =
      IsFor-IsProven key r user m (enter_as user (some r) o m) a h
        (enter_as-IsFor user (some r) o m)

  with_key-IsProven :
      (key o : Option Text) (r : Result ApiKeyRecord) (m : TenantManager)
      → (authenticate_api_key hash_key has_expired (opt_text key) m.auth_manager ≡ r)
      → IsProven key m (with_key r o m)
  with_key-IsProven key o (error e) m a = tt
  with_key-IsProven key o (ok r) m a = owner_of-IsProven key o r (lookup r.user_id m.users) m a refl

  -- In production the identity rests on the API key alone, whatever user a request claims to be: the
  -- user of a context is the owner of the record that its key authenticates as.
  pub resolve_context-IsProven :
      (org_id user_id api_key : Option Text) (m : TenantManager)
      → (is_production m ≡ true)
      → IsProven api_key m (resolve_context hash_key has_expired org_id user_id api_key m)
  unfolding resolve_context
  resolve_context-IsProven org_id user_id api_key m p = elim (Bool-cases (is_set api_key)) [
    | inl e ↦ rw e (
        with_key-IsProven api_key org_id
          (authenticate_api_key hash_key has_expired (opt_text api_key) m.auth_manager) m refl)
    | inr e ↦ rw (e, p) tt
  ]

-- The organization has registered the repository under its own name, the repository is authorized, and
-- one of its patterns fits the branch, if one is named.
abbrev pub IsAllowed : Text → Text → Option Text → TenantManager → Repository → Type 0
IsAllowed organization name b m r =
    (organization ≢ [])
    × (lookup (organization, name) m.repositories ≡ some r)
    × (r.is_authorized ≡ true)
    × (is_set b ≡ true → Some (λ p. fnmatch (opt_text b) p ≡ true) r.allowed_branches)

pub get_repository-lookup :
    (organization name : Text) (m : TenantManager) (r : Repository)
    → (get_repository name (some organization) m ≡ some r)
      ↔ ((organization ≢ []) × (lookup (organization, name) m.repositories ≡ some r))
unfolding get_repository
get_repository-lookup [] name m r = ground arith
get_repository-lookup (c ∷ o) name m r = ground arith

branch_allowed-Some :
    (b : Option Text) (r : Repository)
    → (branch_allowed b r ≡ true)
      ↔ (is_set b ≡ true → Some (λ p. fnmatch (opt_text b) p ≡ true) r.allowed_branches)
branch_allowed-Some b r = ground (
  arith,
  any-Some (λ p. fnmatch (opt_text b) p) r.allowed_branches,
  Some-any (λ p. fnmatch (opt_text b) p) r.allowed_branches,
)

authorize_on-ok :
    (name : Text) (b : Option Text) (m : TenantManager) (x r : Repository)
    → (authorize_on name b m (some x) ≡ ok r)
    → (some x ≡ some r) × (r.is_authorized ≡ true) × (branch_allowed b r ≡ true)
authorize_on-ok name b m x r h = elim (Bool-cases x.is_authorized) [
  | inr e ↦ ground arith
  | inl e ↦ elim (Bool-cases (branch_allowed b x)) [ inr k ↦ ground arith | inl k ↦ ground arith ]
]

authorize_on-IsAllowed :
    (name : Text) (b : Option Text) (m : TenantManager) (o : Option Repository) (r : Repository)
    → (authorize_on name b m o ≡ ok r)
      ↔ ((o ≡ some r) × (r.is_authorized ≡ true) × (branch_allowed b r ≡ true))
authorize_on-IsAllowed name b m none r = (
  λ h. elim (Bool-cases (is_registered_anywhere name m)) [
    | inl e ↦ ground arith
    | inr e ↦ ground arith
  ],
  λ h. ground arith,
)
authorize_on-IsAllowed name b m (some x) r =
    (λ h. authorize_on-ok name b m x r h, λ h. ground arith)

-- Access to a repository is given exactly if the organization is named, its own registration of that
-- name is the repository that is given, that is authorized, and the branch, if one is named, fits one of
-- its patterns. The registrations of other organizations never serve.
pub authorize_repository_access-IsAllowed :
    (organization name : Text) (b : Option Text) (m : TenantManager) (r : Repository)
    → (authorize_repository_access organization name b m ≡ ok r) ↔ IsAllowed organization name b m r
unfolding authorize_repository_access
authorize_repository_access-IsAllowed organization name b m r = ground (
  arith,
  authorize_on-IsAllowed name b m (get_repository name (some organization) m) r,
  get_repository-lookup organization name m r,
  branch_allowed-Some b r,
)
