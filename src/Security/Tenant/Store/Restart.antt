-- ===== src/Security/Tenant/Store/Restart.antt =====
-- Registrations outlive the process.
use agentic_ai_software_engi.Base.{
  Text, text_eq, pair_eq, Bool, true, ◌&&◌, not, ◌≡◌, ◌≢◌, refl, sym, ◌∙◌, Option, none, some, List,
  [], ◌∷◌, ◌==◌, ==_sound, ==_differ, ap, arith, All, is_set, opt_text, Bool-cases, inl, inr,
}
use agentic_ai_software_engi.Base.Dict.{
  Dict, lookup, insert, lookup-insert, lookup-insert_self, lookup-insert_other,
}
use agentic_ai_software_engi.Security.Tenant.{Repository, TenantManager, scoped, get_repository}
use agentic_ai_software_engi.Security.Tenant.Registry.{
  is_key, enroll, register_repository, repository_of,
}
use agentic_ai_software_engi.Security.Tenant.Store.{
  RepositoryRow, Table, original_creation, row_of, upsert, row_to_repository, list_all,
  file_repository, file_all, hydrate, register_and_store, restart,
}

abbrev pub key_of : RepositoryRow → Text × Text
key_of row = (row.organization_id, row.id)

-- A table with a primary key: each row once, under the key that its columns hold.
abbrev pub IsTable : Table → Type 0
IsTable [] = Unit
IsTable ((k, row) ∷ t) = (k ≡ key_of row) × (lookup k t ≡ none) × IsTable t

-- No other repository of the organization has the identifier as its full name.
abbrev pub IsUnaliased : Text → Text → Table → Type 0
IsUnaliased o id t =
    All (λ entry. entry.1.organization_id ≡ o → entry.1.full_name ≡ some id → entry.1.id ≡ id) t

insert-IsTable : (row : RepositoryRow) (t : Table) → IsTable t → IsTable (insert (key_of row) row t)
unfolding insert lookup
insert-IsTable row [] h = (refl, refl, tt)
insert-IsTable row ((k, x) ∷ t) h = elim (Bool-cases (key_of row == k)) [
  | inl e ↦ rw e (sym (==_sound (key_of row) k e), h.1, h.2)
  | inr e ↦ rw e (
    h.0,
    lookup-insert_other k (key_of row) row t (λ x. ==_differ (key_of row) k e (sym x)) ∙ h.1,
    insert-IsTable row t h.2,
  )
]

insert-IsUnaliased :
    (o id : Text) (row : RepositoryRow) (k : Text × Text) (t : Table)
    → (row.organization_id ≡ o → row.full_name ≡ some id → row.id ≡ id)
    → IsUnaliased o id t
    → IsUnaliased o id (insert k row t)
unfolding insert
insert-IsUnaliased o id row k [] q h = (q, tt)
insert-IsUnaliased o id row k ((j, x) ∷ t) q h = elim (Bool-cases (k == j)) [
  | inl e ↦ rw e (q, h.1)
  | inr e ↦ rw e (h.0, insert-IsUnaliased o id row k t q h.1)
]

lookup-file_repository_self :
    (r : Repository) (d : Dict (Text × Text) Repository)
    → lookup (r.organization_id, r.id) (file_repository r d) ≡ some r
lookup-file_repository_self r d =
    elim (Bool-cases (is_set r.full_name && not (opt_text r.full_name == r.id))) [
      | inr e ↦ rw (e, lookup-insert_self (r.organization_id, r.id) r d)
      | inl e ↦ rw e (
          ground (
            arith,
            lookup-insert (r.organization_id, r.id) (r.organization_id, opt_text r.full_name) r
                (insert (r.organization_id, r.id) r d),
            lookup-insert_self (r.organization_id, r.id) r d,
          ))
    ]

set-some : (o : Option Text) → is_set o ≡ true → o ≡ some (opt_text o)
set-some none h = ground arith
set-some (some t) h = refl

-- A repository that is filed under its alias is filed under its identifier, as long as that is all the
-- alias names.
aliased :
    (r : Repository) (k : Text × Text)
    → (is_set r.full_name && not (opt_text r.full_name == r.id)) ≡ true
    → (r.organization_id ≡ k.0 → r.full_name ≡ some k.1 → r.id ≡ k.1)
    → (let key : Text × Text = (r.organization_id, opt_text r.full_name) in k ≡ key)
    → (let key : Text × Text = (r.organization_id, r.id) in k ≡ key)
aliased r k e q x =
    let left : k.0 ≡ r.organization_id = λ i. (x i).0 in
    let right : k.1 ≡ opt_text r.full_name = λ i. (x i).1 in
    let full : r.full_name ≡ some k.1 = set-some r.full_name (ground arith) ∙ ap some (sym right) in
    let id : r.id ≡ k.1 = q (sym left) full in λ i. (left i, sym id i)

lookup-file_repository_other :
    (r : Repository) (k : Text × Text) (d : Dict (Text × Text) Repository)
    → (k ≢ (r.organization_id, r.id))
    → (r.organization_id ≡ k.0 → r.full_name ≡ some k.1 → r.id ≡ k.1)
    → lookup k (file_repository r d) ≡ lookup k d
lookup-file_repository_other r k d n q =
    elim (Bool-cases (is_set r.full_name && not (opt_text r.full_name == r.id))) [
      | inr e ↦ rw e (lookup-insert_other k (r.organization_id, r.id) r d n)
      | inl e ↦ rw e (
          lookup-insert_other k (r.organization_id, opt_text r.full_name) r
            (insert (r.organization_id, r.id) r d) (λ x. n (aliased r k e q x))
          ∙ lookup-insert_other k (r.organization_id, r.id) r d n)
    ]

file_all-none :
    (t : Table) (k : Text × Text) (d : Dict (Text × Text) Repository)
    → IsTable t
    → IsUnaliased k.0 k.1 t
    → lookup k t ≡ none
    → lookup k (file_all (list_all t) d) ≡ lookup k d
unfolding list_all lookup
file_all-none [] k d h q n = refl
file_all-none ((j, row) ∷ t) k d h q n = elim (Bool-cases (k == j)) [
  | inl e ↦ ground arith
  | inr e ↦
      file_all-none t k (file_repository (row_to_repository row) d) h.2 q.1 (ground arith)
      ∙ lookup-file_repository_other (row_to_repository row) k d
          (λ x. ==_differ k j e (x ∙ sym h.0)) q.0
]

file_all-some :
    (t : Table) (k : Text × Text) (row : RepositoryRow) (d : Dict (Text × Text) Repository)
    → IsTable t
    → IsUnaliased k.0 k.1 t
    → lookup k t ≡ some row
    → lookup k (file_all (list_all t) d) ≡ some (row_to_repository row)
unfolding list_all lookup
file_all-some [] k row d h q n = ground arith
file_all-some ((j, x) ∷ t) k row d h q n = elim (Bool-cases (k == j)) [
  | inr e ↦ file_all-some t k row (file_repository (row_to_repository x) d) h.2 q.1 (ground arith)
  | inl e ↦
      let same : k ≡ j = ==_sound k j e in
      let it : x ≡ row = ground arith in
      file_all-none t k (file_repository (row_to_repository x) d) h.2 q.1 (rw same h.1)
      ∙ (rw (same ∙ h.0) (lookup-file_repository_self (row_to_repository x) d)
          ∙ ap (λ y. some (row_to_repository y)) it)
]

upsert-IsTable : (now : Text) (r : Repository) (t : Table) → IsTable t → IsTable (upsert now r t)
unfolding upsert
upsert-IsTable now r t h =
    insert-IsTable (row_of r (original_creation now (lookup (r.organization_id, r.id) t)) now) t h

-- The store gives the repository back without its token.
abbrev pub without_token : Repository → Repository
without_token r = record r { github_token = none }

restored :
    (now : Text) (r : Repository) (t : Table) (d : Dict (Text × Text) Repository)
    → IsTable t
    → IsUnaliased r.organization_id r.id t
    → lookup (r.organization_id, r.id) (file_all (list_all (upsert now r t)) d)
      ≡ some (without_token r)
unfolding upsert
restored now r t d h q =
    let row = row_of r (original_creation now (lookup (r.organization_id, r.id) t)) now in
    file_all-some (insert (r.organization_id, r.id) row t) (r.organization_id, r.id) row d
      (insert-IsTable row t h)
      (insert-IsUnaliased r.organization_id r.id row (r.organization_id, r.id) t (λ a b. refl) q)
      (lookup-insert_self (r.organization_id, r.id) row t)

lookup-enroll_self :
    (id o : Text) (full : Option Text) (r : Repository) (m : TenantManager)
    → lookup (o, id) (enroll id o full r m).repositories ≡ some r
unfolding enroll
lookup-enroll_self id o full r m = elim (Bool-cases (is_set full && not (opt_text full == id))) [
  | inr e ↦ rw (e, lookup-insert_self (o, id) r m.repositories)
  | inl e ↦ rw e (
      lookup-insert_other (o, id) (o, opt_text full) r (insert (o, id) r m.repositories)
        (λ x. let right : id ≡ opt_text full = λ i. (x i).1 in ground (arith))
      ∙ lookup-insert_self (o, id) r m.repositories)
]

scoped-set :
    (o id : Text) (m : TenantManager)
    → is_set (some o) ≡ true
    → scoped o id m ≡ lookup (o, id) m.repositories
scoped-set [] id m h = ground arith
scoped-set (c ∷ o) id m h = refl

stored :
    (now id o : Text) (full : Option Text) (branches : List Text) (authorized : Bool)
    (token : Option Text) (m m' : TenantManager) (t t' : Table)
    → (register_and_store now id o full branches authorized token m t ≡ some (m', t'))
    → (enroll id o full (repository_of id o full branches authorized token) m ≡ m')
      × (upsert now (repository_of id o full branches authorized token) t ≡ t')
unfolding register_and_store register_repository
stored now id o full branches authorized token m m' t t' e =
    elim (Bool-cases (is_key (lookup o m.organizations))) [
      | inr f ↦ ground arith
      | inl f ↦ ground arith
    ]

-- A repository that is registered answers to its identifier, and so it does, without its token, in every
-- later process, as long as no other repository of the organization has that identifier as its full
-- name.
pub register_and_store-restart :
    (hash_key : Text → Text) (now key_id id o : Text) (full : Option Text) (branches : List Text)
    (authorized : Bool) (token : Option Text) (m m' later : TenantManager) (t t' : Table)
    → IsTable t
    → IsUnaliased o id t
    → is_set (some o) ≡ true
    → (register_and_store now id o full branches authorized token m t ≡ some (m', t'))
    → (let r = repository_of id o full branches authorized token in
        (get_repository id (some o) m' ≡ some r)
        × (get_repository id (some o) (restart hash_key key_id t' later) ≡ some (without_token r))
        × IsTable t')
unfolding get_repository restart hydrate
register_and_store-restart hash_key now key_id id o full branches authorized token m m' later t t' h
      q n e =
    let r = repository_of id o full branches authorized token in
    let (live, row) = stored now id o full branches authorized token m m' t t' e in
    (
      scoped-set o id m' n ∙ (rw (← live) (lookup-enroll_self id o full r m)),
      scoped-set o id (restart hash_key key_id t' later) n ∙ (rw (← row) (restored now r t _ h q)),
      rw (← row) (upsert-IsTable now r t h),
    )
