-- ===== src/Security/Tenant/Ownership.antt =====
-- What the operations of the tenant manager keep: a repository belongs to the organization that it is
-- filed under, and a membership joins a user and an organization that there are.
use agentic_ai_software_engi.Base.{
  Text, text_eq, pair_eq, Bool, true, ◌&&◌, not, ◌≡◌, refl, Option, none, some, List, [], ◌∷◌, ◌==◌,
  arith, is_set, opt_text, Bool-cases, inl, inr,
}
use agentic_ai_software_engi.Base.Dict.{Dict, lookup, insert, lookup-insert}
use agentic_ai_software_engi.Security.Rbac.{Role}
use agentic_ai_software_engi.Security.Auth.{ok}
use agentic_ai_software_engi.Security.Tenant.{
  Repository, TenantManager, scoped, get_repository, authorize_repository_access,
}
use agentic_ai_software_engi.Security.Tenant.Context.{
  get_repository-lookup, authorize_repository_access-IsAllowed,
}
use agentic_ai_software_engi.Security.Tenant.Registry.{
  create_organization, is_key, add_membership, repository_of, enroll, register_repository, set_mode,
  create_user, create_user_api_key, Call, organization, user, membership, repository, user_key,
  mode, or_same, first_or_same, run, run_all,
}

abbrev pub IsFiled : Dict (Text × Text) Repository → Type 0
IsFiled d = (o name : Text) (r : Repository) → (lookup (o, name) d ≡ some r) → r.organization_id ≡ o

abbrev pub IsJoined : TenantManager → Type 0
IsJoined m =
    (o u : Text) (role : Role)
    → (lookup (o, u) m.memberships ≡ some role)
    → (is_key (lookup o m.organizations) ≡ true) × (is_key (lookup u m.users) ≡ true)

abbrev pub IsTidy : TenantManager → Type 0
IsTidy m = IsFiled m.repositories × IsJoined m

insert-IsFiled :
    (org name : Text) (repo : Repository) (d : Dict (Text × Text) Repository)
    → (repo.organization_id ≡ org)
    → IsFiled d
    → IsFiled (insert (org, name) repo d)
insert-IsFiled org name repo d k h o n r e =
    ground (arith, k, e, lookup-insert (o, n) (org, name) repo d, h o n r)

enroll-IsFiled :
    (id org : Text) (full : Option Text) (repo : Repository) (m : TenantManager)
    → (repo.organization_id ≡ org)
    → IsFiled m.repositories
    → IsFiled (enroll id org full repo m).repositories
unfolding enroll
enroll-IsFiled id org full repo m k h =
    elim (Bool-cases (is_set full && not (opt_text full == id))) [
      | inl e ↦ rw e (
          insert-IsFiled org (opt_text full) repo (insert (org, id) repo m.repositories) k
            (insert-IsFiled org id repo m.repositories k h))
      | inr e ↦ rw e (insert-IsFiled org id repo m.repositories k h)
    ]

insert-is_key {ℓ} :
    {V : Type ℓ}
    → (j k : Text) (v : V) (d : Dict Text V) → (is_key (lookup j d) ≡ true)
    → is_key (lookup j (insert k v d)) ≡ true
insert-is_key j k v d h = ground (arith, lookup-insert j k v d, h)

membership-IsJoined :
    (org u : Text) (role : Role) (m : TenantManager)
    → (is_key (lookup org m.organizations) ≡ true)
    → (is_key (lookup u m.users) ≡ true)
    → IsJoined m
    → IsJoined (record m { memberships = insert (org, u) role m.memberships })
membership-IsJoined org u role m a b h o v x e =
    ground (arith, e, a, b, lookup-insert (o, v) (org, u) role m.memberships, h o v x)

enroll-IsJoined :
    (id org : Text) (full : Option Text) (repo : Repository) (m : TenantManager)
    → IsJoined m
    → IsJoined (enroll id org full repo m)
unfolding enroll
enroll-IsJoined id org full repo m h =
    elim (Bool-cases (is_set full && not (opt_text full == id))) [ inl e ↦ rw e h | inr e ↦ rw e h ]

add_membership-IsTidy :
    (org u : Text) (role : Role) (m : TenantManager)
    → IsTidy m
    → IsTidy (or_same m (add_membership org u role m))
unfolding add_membership
add_membership-IsTidy org u role m h = elim (Bool-cases (is_key (lookup org m.organizations))) [
  | inr e ↦ rw e h
  | inl e ↦ elim (Bool-cases (is_key (lookup u m.users))) [
    | inr k ↦ rw (e, k) h
    | inl k ↦ rw (e, k) (h.0, membership-IsJoined org u role m e k h.1)
  ]
]

register_repository-IsTidy :
    (id org : Text) (full : Option Text) (branches : List Text) (authorized : Bool)
    (token : Option Text) (m : TenantManager)
    → IsTidy m
    → IsTidy (or_same m (register_repository id org full branches authorized token m))
unfolding register_repository
register_repository-IsTidy id org full branches authorized token m h =
    let repo = repository_of id org full branches authorized token in
    elim (Bool-cases (is_key (lookup org m.organizations))) [
      | inr e ↦ rw e h
      | inl e ↦
          rw e (enroll-IsFiled id org full repo m refl h.0, enroll-IsJoined id org full repo m h.1)
    ]

create_user_api_key-IsTidy :
    (hash_key : Text → Text) (u o name : Text) (expires : Option Text) (generated id : Text)
    (m : TenantManager)
    → IsTidy m
    → IsTidy (first_or_same m (create_user_api_key hash_key u o name expires generated id m))
unfolding create_user_api_key
create_user_api_key-IsTidy hash_key u o name expires generated id m h =
    elim (Bool-cases (is_key (lookup u m.users))) [
      | inr e ↦ rw e h
      | inl e ↦ elim (Bool-cases (is_key (lookup o m.organizations))) [
        | inr k ↦ rw (e, k) h
        | inl k ↦ rw (e, k) h
      ]
    ]

run-IsTidy :
    (hash_key : Text → Text) (c : Call hash_key) (m : TenantManager)
    → IsTidy m
    → IsTidy (run hash_key c m)
unfolding run create_organization create_user set_mode
run-IsTidy hash_key (organization o) m h = (
  h.0,
  λ a u role e.
      let (there, known) = h.1 a u role e in
      (insert-is_key a o (record { id = o }) m.organizations there, known),
)
run-IsTidy hash_key (user v key o generated id) m h = (
  h.0,
  λ a u role e.
      let (there, known) = h.1 a u role e in
      (there, insert-is_key u v (record { id = v }) m.users known),
)
run-IsTidy hash_key (membership o u role) m h = add_membership-IsTidy o u role m h
run-IsTidy hash_key (repository id o full branches authorized token) m h =
    register_repository-IsTidy id o full branches authorized token m h
run-IsTidy hash_key (user_key u o name expires generated id) m h =
    create_user_api_key-IsTidy hash_key u o name expires generated id m h
run-IsTidy hash_key (mode production none) m h = h
run-IsTidy hash_key (mode production (some fallback)) m h = h

-- Whatever calls are made, refused ones included, a repository stays filed under its own organization,
-- and every membership joins an organization and a user that are registered.
pub run_all-IsTidy :
    (hash_key : Text → Text) (cs : List (Call hash_key)) (m : TenantManager)
    → IsTidy m
    → IsTidy (run_all hash_key cs m)
unfolding run_all
run_all-IsTidy hash_key [] m h = h
run_all-IsTidy hash_key (c ∷ cs) m h =
    run_all-IsTidy hash_key cs (run hash_key c m) (run-IsTidy hash_key c m h)

scoped-own :
    (o name : Text) (m : TenantManager) (r : Repository)
    → IsFiled m.repositories
    → (scoped o name m ≡ some r)
    → r.organization_id ≡ o
scoped-own [] name m r h e = ground arith
scoped-own (c ∷ o) name m r h e = h (c ∷ o) name r e

-- Whatever calls are made, the repository that an organization is given access to is its own.
pub authorize_repository_access-own :
    (hash_key : Text → Text) (cs : List (Call hash_key)) (o name : Text) (b : Option Text)
    (m : TenantManager) (r : Repository)
    → IsTidy m
    → (authorize_repository_access o name b (run_all hash_key cs m) ≡ ok r)
    → r.organization_id ≡ o
unfolding get_repository
authorize_repository_access-own hash_key cs o name b m r h e =
    scoped-own o name (run_all hash_key cs m) r (run_all-IsTidy hash_key cs m h).0 (
      let (named, there, _, _) =
        (authorize_repository_access-IsAllowed o name b (run_all hash_key cs m) r).0 e in
      (get_repository-lookup o name (run_all hash_key cs m) r).1 (named, there))
