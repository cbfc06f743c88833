-- ===== src/Policy/Paths.antt =====
-- backend/policy/path_filter.py, without the resolution against the file system.
use mathlib.Core.List.{reverse, get_last?}
use agentic_ai_software_engi.Base.{
  ℕ, zero, suc, Text, codes, text_eq, Bool, true, false, ◌&&◌, ◌||◌, not, Option, none, some, List,
  [], ◌∷◌, ◌++◌, ◌==◌, nat_eq, leb, if◌then◌else◌, strip, starts_with, ends_with, contains,
  replace_code, lstrip_code, drop, drop_last, split_code, join_code, length, ◌≡◌, refl, ℕ_discrete,
}
use agentic_ai_software_engi.Base.Glob.{fnmatch}

unfoldable pub forward_slashes : Text → Text
unfolding replace_code
forward_slashes p = replace_code b'\\' b'/' p

unfoldable pub is_traversal_attack : Text → Bool
unfolding forward_slashes contains starts_with ends_with
is_traversal_attack p =
    let cleaned = forward_slashes p in
    contains cleaned (codes "../")
    || starts_with cleaned (codes "..")
    || contains cleaned (codes "/..")
    || ends_with cleaned (codes "/..")

is_letter : ℕ → Bool
is_letter c = (leb b'a' c && leb c b'z') || (leb b'A' c && leb c b'Z')

-- `re.match(r"^[a-zA-Z]:", p)`
has_drive : Text → Bool
unfolding is_letter ℕ_discrete
has_drive (c ∷ d ∷ s) = is_letter c && d == b':'
has_drive s = false

-- The strip of blanks, drive letter and leading slashes in front of `normpath`.
unfoldable pub clean_path : Text → Text
unfolding forward_slashes strip has_drive drop lstrip_code
clean_path p =
    let cleaned = strip (forward_slashes p) in
    lstrip_code b'/' (if has_drive cleaned then drop 2 cleaned else cleaned)

abbrev dot : Text
dot = codes "."

abbrev dots : Text
dots = codes ".."

-- One component of `posixpath.normpath` on a relative path; the components kept so far come last
-- first.
unfoldable pub norm_step : List Text → Text → List Text
unfolding text_eq
norm_step kept comp =
    if comp == [] || comp == dot
    then kept
    else if not (comp == dots)
    then comp ∷ kept
    else elim kept [
      | [] ↦ comp ∷ []
      | last ∷ before ↦ if last == dots then comp ∷ last ∷ before else before
    ]

unfoldable pub norm_components : List Text → List Text → List Text
unfolding norm_step
norm_components kept [] = kept
norm_components kept (comp ∷ comps) = norm_components (norm_step kept comp) comps

-- `posixpath.normpath` on a path without a leading slash
unfoldable pub normpath : Text → Text
unfolding norm_components split_code join_code
normpath p = elim (join_code b'/' (reverse (norm_components [] (split_code b'/' p)))) [
  | [] ↦ dot
  | c ∷ s ↦ c ∷ s
]

-- The loop over a leading `../` or `./`. Each round shortens the path, so its length is fuel enough.
strip_dots : ℕ → Text → Text
unfolding starts_with drop
strip_dots zero p = p
strip_dots (suc f) p = elim (starts_with p (codes "../")) [
  | true ↦ strip_dots f (drop 3 p)
  | false ↦ elim (starts_with p (codes "./")) [ true ↦ strip_dots f (drop 2 p) | false ↦ p ]
]

unfoldable pub normalize_path : Text → Text
unfolding clean_path normpath strip_dots text_eq
normalize_path p =
    let full = normpath (clean_path p) in
    let normalized = strip_dots (length full) full in
    if normalized == dots || normalized == dot then [] else normalized

-- `posixpath.basename`
unfoldable pub basename : Text → Text
unfolding split_code
basename p = elim (get_last? (split_code b'/' p)) [ none ↦ [] | some s ↦ s ]

unfoldable pub normalize_pattern : Text → Text
unfolding forward_slashes strip lstrip_code
normalize_pattern pattern = lstrip_code b'/' (strip (forward_slashes pattern))

-- `prefix/**` covers the directory itself and all below it.
unfoldable pub covers_directory : Text → Text → Bool
unfolding ends_with starts_with drop_last text_eq
covers_directory pattern path =
    ends_with pattern (codes "/**")
    && (path == drop_last 3 pattern || starts_with path (drop_last 3 pattern ++ codes "/"))

-- The four tests of one round of the loop, each of which returns the pattern.
unfoldable pub matches_pattern : Text → Text → Bool
unfolding normalize_path normalize_pattern covers_directory fnmatch basename text_eq
matches_pattern path pattern =
    let norm_path = normalize_path path in
    let norm_pattern = normalize_pattern pattern in
    covers_directory norm_pattern norm_path
    || norm_path == norm_pattern
    || fnmatch norm_path norm_pattern
    || fnmatch (basename norm_path) norm_pattern

-- The first pattern that matches.
unfoldable pub matches_protected_path : Text → List Text → Option Text
unfolding matches_pattern
matches_protected_path path [] = none
matches_protected_path path (pattern ∷ patterns) =
    let rest = matches_protected_path path patterns in
    if matches_pattern path pattern then some pattern else rest

paths_test :
    (normalize_path (codes "C:\\src\\..\\a//b/./c") ≡ codes "a/b/c")
    × (normalize_path (codes "../../x") ≡ codes "x")
    × (normalize_path (codes "..") ≡ [])
    × (is_traversal_attack (codes "a\\..\\b") ≡ true)
    × (matches_protected_path (codes "src/.env.local") (codes ".env*" ∷ []) ≡ some (codes ".env*"))
    × (matches_protected_path (codes "auth") (codes "auth/**" ∷ []) ≡ some (codes "auth/**"))
unfolding matches_protected_path is_traversal_attack
paths_test = (refl, refl, refl, refl, refl, refl)
