-- ===== src/Vcs/Workspace.antt =====
-- backend/vcs/workspace_paths.py: the directory of a tenant's project. A path is its text below the
-- current directory, as `resolve` leaves it where no symbolic link is on the way; whether the directory is
-- there already makes no difference to it.
pub mod Isolation
use agentic_ai_software_engi.Base.{
  ℕ, Text, codes, text_eq, nat_eq, Bool, true, false, ◌&&◌, ◌||◌, Option, none, some, List, [], ◌∷◌,
  ◌++◌, ◌==◌, leb, if◌then◌else◌, strip, contains, opt_text, ◌≡◌, refl, ℕ_discrete,
}
use agentic_ai_software_engi.Policy.Paths.{is_traversal_attack}

is_alpha : ℕ → Bool
is_alpha c = (leb b'a' c && leb c b'z') || (leb b'A' c && leb c b'Z')

-- `len(s) >= 2 and s[1] == ":" and s[0].isalpha()`
drive_qualified : Text → Bool
unfolding is_alpha ℕ_discrete
drive_qualified (c ∷ d ∷ s) = d == b':' && is_alpha c
drive_qualified s = false

unfoldable pub is_unsafe_component : Text → Bool
unfolding drive_qualified
is_unsafe_component c =
    c == []
    || (contains c (codes "/") || contains c (codes "\\"))
    || (c == codes "." || c == codes "..")
    || is_traversal_attack c
    || drive_qualified c

unfoldable pub safe_path_component : Option Text → Option Text
safe_path_component value =
    let candidate = strip (opt_text value) in
    if is_unsafe_component candidate then none else some candidate

unfoldable pub resolve_workspace_path : Option Text → Option Text → Option Text
resolve_workspace_path organization project = elim (safe_path_component organization) [
  | none ↦ none
  | some org ↦ elim (safe_path_component project) [
    | none ↦ none
    | some proj ↦ some (codes "workspace/" ++ (org ++ (b'/' ∷ proj)))
  ]
]

resolve_test :
    (resolve_workspace_path (some (codes " acme ")) (some (codes "web"))
      ≡ some (codes "workspace/acme/web"))
    × (resolve_workspace_path (some (codes "acme")) (some (codes "../web")) ≡ none)
unfolding text_eq resolve_workspace_path safe_path_component is_unsafe_component strip contains
    is_traversal_attack
resolve_test = (refl, refl)
