-- ===== src/Vcs/Workspace/Isolation.antt =====
-- Which tenants and projects come to the same workspace.
use agentic_ai_software_engi.Base.{
  Text, codes, false, ◌≡◌, ◌≢◌, Option, some, [], ◌∷◌, ◌++◌, arith, strip, contains, starts_with,
  opt_text, All,
}
use agentic_ai_software_engi.Vcs.Workspace.{
  is_unsafe_component, safe_path_component, resolve_workspace_path,
}

contains-All : (s : Text) → (contains s (b'/' ∷ []) ≡ false) → All (λ c. c ≢ b'/') s
unfolding contains starts_with
contains-All [] h = tt
contains-All (c ∷ s) h = ground (arith, contains-All s)

slash-injective :
    (a b c d : Text)
    → All (λ x. x ≢ b'/') a
    → All (λ x. x ≢ b'/') c
    → (a ++ (b'/' ∷ b) ≡ c ++ (b'/' ∷ d))
    → (a ≡ c) × (b ≡ d)
slash-injective [] b [] d h k e = ground arith
slash-injective [] b (y ∷ c) d h k e = ground arith
slash-injective (x ∷ a) b [] d h k e = ground arith
slash-injective (x ∷ a) b (y ∷ c) d h k e = ground (arith, slash-injective a b c d)

abbrev IsName : Text → Type 0
IsName c = contains c (b'/' ∷ []) ≡ false

resolve_workspace_path-some :
    (o p : Option Text) (path : Text)
    → (resolve_workspace_path o p ≡ some path)
    → (path ≡ codes "workspace/" ++ (strip (opt_text o) ++ (b'/' ∷ strip (opt_text p))))
      × IsName (strip (opt_text o))
unfolding resolve_workspace_path safe_path_component is_unsafe_component
resolve_workspace_path-some o p path h = ground arith

-- Two pairs of an organization and a project that lead to the same path agree but for blanks around
-- them; names that differ in such blanks alone do share one. The path is taken before symbolic links are
-- followed.
pub resolve_workspace_path-injective :
    (organization project organization' project' : Option Text) (path : Text)
    → (resolve_workspace_path organization project ≡ some path)
    → (resolve_workspace_path organization' project' ≡ some path)
    → (strip (opt_text organization) ≡ strip (opt_text organization'))
      × (strip (opt_text project) ≡ strip (opt_text project'))
resolve_workspace_path-injective o p o' p' path h k =
    let (e, n) = resolve_workspace_path-some o p path h in
    let (e', n') = resolve_workspace_path-some o' p' path k in
    slash-injective _ _ _ _ (contains-All _ n) (contains-All _ n') (ground (arith, e, e'))
