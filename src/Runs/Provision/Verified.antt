-- ===== src/Runs/Provision/Verified.antt =====
-- The workspace of a run is a clone whose origin has the name of the repository.
use agentic_ai_software_engi.Base.{
  true-ne-false, Text, text_eq, Bool, true, false, ◌≡◌, refl, subst, ◌⊎◌, inl, inr, Option, none,
  some, if◌then◌else◌, is_set, opt_text, arith, Bool-cases, ℕ, [], ◌∷◌, ◌++◌, codes, All, ap, sym,
  ◌∙◌, lower, ends_with-split, ◌==◌, nat_eq, ◌&&◌, ==_sound, Option-cases,
}
use agentic_ai_software_engi.Base.Dict.{lookup}
use agentic_ai_software_engi.Vcs.Diff.{is_empty}
use agentic_ai_software_engi.Vcs.Workspace.{resolve_workspace_path}
use agentic_ai_software_engi.Security.Auth.{Result, ok, error}
use agentic_ai_software_engi.Security.Tenant.{
  Repository, TenantManager, authorize_repository_access,
}
use agentic_ai_software_engi.Runs.Provision.{
  rstrip_code, Workspaces, has_git, get_remote_url, is_clone_of, Provisioned, reused,
  is_provisioned, verify, clone_for, provision_at, ensure_workspace_provisioned,
}

-- The address is some base, a slash, the name and ".git", in any case of its letters, and perhaps slashes.
abbrev pub IsAddressOf : Text → Text → Type 0
IsAddressOf name url =
    (base : Text) × (address : Text) × (slashes : Text) × (url ≡ address ++ slashes)
    × All (λ c. c ≡ b'/') slashes
    × (lower address ≡ base ++ lower (b'/' ∷ (name ++ codes ".git")))

-- A directory with a `.git` of its own, the origin of which is an address of that name.
abbrev pub IsCloneAt : Text → Text → Workspaces → Type 0
IsCloneAt name path d = (url : Text) × (lookup path d ≡ some (some url)) × IsAddressOf name url

is_empty-nil : (s : Text) → is_empty s ≡ true → s ≡ []
is_empty-nil [] h = refl
is_empty-nil (c ∷ s) h = ground arith

rstrip_code-split :
    (c : ℕ) (s : Text) → (z : Text) × (s ≡ rstrip_code c s ++ z) × All (λ x. x ≡ c) z
unfolding rstrip_code
rstrip_code-split c [] = ([], refl, tt)
rstrip_code-split c (x ∷ s) =
    let (z, e, h) = rstrip_code-split c s in
    elim (Bool-cases (x == c && is_empty (rstrip_code c s))) [
      | inr off ↦ rw off (z, ap (λ y. x ∷ y) e, h)
      | inl on ↦
          let nothing = is_empty-nil (rstrip_code c s) (ground arith) in
          let same : x ≡ c = ==_sound x c (ground arith) in
          rw on (
            x ∷ s,
            refl,
            (same, subst (λ y. All (λ u. u ≡ c) y) (sym (e ∙ ap (λ y. y ++ z) nothing)) h),
          )
    ]

is_clone_of-IsAddressOf :
    (name : Text) (url : Option Text)
    → (is_clone_of name url ≡ true)
    → (u : Text) × (url ≡ some u) × IsAddressOf name u
unfolding is_clone_of
is_clone_of-IsAddressOf name none h = ground arith
is_clone_of-IsAddressOf name (some u) h =
    let (z, e, slashes) = rstrip_code-split b'/' u in
    let (base, q) =
      ends_with-split (lower (rstrip_code b'/' u)) (lower (b'/' ∷ (name ++ codes ".git")))
        (ground arith) in
    (u, refl, (base, rstrip_code b'/' u, z, e, slashes, q))

at-IsCloneAt :
    (name path : Text) (d : Workspaces)
    → (has_git (lookup path d) ≡ true)
    → (is_clone_of name (get_remote_url (lookup path d)) ≡ true)
    → IsCloneAt name path d
at-IsCloneAt name path d g h = elim (Option-cases (lookup path d)) [
  | inl e ↦ absurd (true-ne-false (sym g ∙ ap has_git e))
  | inr (url, e) ↦
      let (u, q, a) =
        is_clone_of-IsAddressOf name url
          (subst (λ o. is_clone_of name (get_remote_url o) ≡ true) e h) in
      (u, (e ∙ ap some q), a)
]

module _ (git_clone : Text → Text → Option Text → Workspaces → Workspaces × Bool)
    (auth_header : Text → Text) (environment_token : Option Text) (m : TenantManager) where
  verify-IsCloneAt :
      (name path : Text) (x : Workspaces × Bool)
      → (is_provisioned (verify git_clone auth_header environment_token m name path x).0 ≡ true)
      → IsCloneAt name path (verify git_clone auth_header environment_token m name path x).1
  verify-IsCloneAt name path (d, done) h = elim (Bool-cases done) [
    | inr off ↦ ground arith
    | inl on ↦ elim (Bool-cases (has_git (lookup path d))) [
      | inr off ↦ ground arith
      | inl git ↦ elim (Bool-cases (is_clone_of name (get_remote_url (lookup path d)))) [
        | inr off ↦ ground arith
        | inl right ↦ rw (on, git, right) (at-IsCloneAt name path d git right)
      ]
    ]
  ]

  -- The workspace is as it was and fits, or the organization may have the repository.
  abbrev pub IsAccountedFor : Text → Text → Text → Workspaces → Provisioned × Workspaces → Type 0
  IsAccountedFor name organization path d r =
      IsCloneAt name path r.1
      × ((r.1 ≡ d)
          ⊎ ((x : Repository) × (authorize_repository_access organization name none m ≡ ok x)))

  clone_for-IsAccountedFor :
      (name organization path : Text) (d : Workspaces) (a : Result Repository)
      → (authorize_repository_access organization name none m ≡ a)
      → (is_provisioned (clone_for git_clone auth_header environment_token m name path a d).0
          ≡ true)
      → IsAccountedFor name organization path d
          (clone_for git_clone auth_header environment_token m name path a d)
  clone_for-IsAccountedFor name organization path d (error x) e h = ground arith
  clone_for-IsAccountedFor name organization path d (ok x) e h =
      (verify-IsCloneAt name path _ h, inr (x, e))

  choose-IsAccountedFor :
      (name organization path : Text) (d : Workspaces) (b : Bool) (r : Provisioned × Workspaces)
      → (b ≡ true → IsCloneAt name path d)
      → (is_provisioned r.0 ≡ true → IsAccountedFor name organization path d r)
      → (is_provisioned (if b then (reused, d) else r).0 ≡ true)
      → IsAccountedFor name organization path d (if b then (reused, d) else r)
  choose-IsAccountedFor name organization path d true r f g h = (f refl, inl refl)
  choose-IsAccountedFor name organization path d false r f g h = g h

  provision_at-IsAccountedFor :
      (name organization path : Text) (d : Workspaces)
      → (is_provisioned
            (provision_at git_clone auth_header environment_token m name organization
              (some path)
              d).0
          ≡ true)
      → IsAccountedFor name organization path d
          (provision_at git_clone auth_header environment_token m name organization (some path) d)
  provision_at-IsAccountedFor name organization path d h =
      choose-IsAccountedFor name organization path d _ _
        (λ e. at-IsCloneAt name path d (ground arith) (ground arith))
        (λ k. clone_for-IsAccountedFor name organization path d _ refl k) h

  resolved-IsAccountedFor :
      (name organization : Text) (o : Option Text) (d : Workspaces)
      → (is_provisioned
            (provision_at git_clone auth_header environment_token m name organization o d).0
          ≡ true)
      → (path : Text) × (o ≡ some path)
        × IsAccountedFor name organization path d
            (provision_at git_clone auth_header environment_token m name organization o d)
  resolved-IsAccountedFor name organization none d h = ground arith
  resolved-IsAccountedFor name organization (some path) d h =
      (path, refl, provision_at-IsAccountedFor name organization path d h)

  ensure_workspace_provisioned-set :
      (project repository : Option Text) (organization : Text) (d : Workspaces)
      → (is_set project ≡ true)
      → (is_set repository ≡ true)
      → ensure_workspace_provisioned git_clone auth_header environment_token m project repository
          organization d
        ≡ provision_at git_clone auth_header environment_token m
            (opt_text repository)
            organization
            (resolve_workspace_path (some organization) project)
            d
  unfolding ensure_workspace_provisioned
  ensure_workspace_provisioned-set project repository organization d p r = rw (p, r) refl

  -- Whatever `git clone` does: when a run that names a project and a repository gets its workspace, then
  -- the workspace lies in the organization's directory for the project, has a `.git` of its own, and
  -- its origin is an address that ends, in any case of its letters, in a slash, the name of the
  -- repository and ".git", perhaps with slashes behind it; and it is as it was before, or the
  -- organization was given access to the repository just now. Host and owner are looked at only as
  -- far as the name holds them.
  pub ensure_workspace_provisioned-IsAccountedFor :
      (project repository : Option Text) (organization : Text) (d : Workspaces)
      → (is_set project ≡ true)
      → (is_set repository ≡ true)
      → (is_provisioned
            (ensure_workspace_provisioned git_clone auth_header environment_token m project
              repository organization d).0
          ≡ true)
      → (path : Text) × (resolve_workspace_path (some organization) project ≡ some path)
        × IsAccountedFor (opt_text repository) organization path d (
            ensure_workspace_provisioned git_clone auth_header environment_token m project
              repository organization d)
  ensure_workspace_provisioned-IsAccountedFor project repository organization d p r h =
      let e = ensure_workspace_provisioned-set project repository organization d p r in
      rw e (
        resolved-IsAccountedFor (opt_text repository) organization
          (resolve_workspace_path (some organization) project) d
          (subst (λ x. is_provisioned x.0 ≡ true) e h))
