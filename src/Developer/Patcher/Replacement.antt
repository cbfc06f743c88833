-- ===== src/Developer/Patcher/Replacement.antt =====
-- Where a patch is applied, and what it leaves alone.
use agentic_ai_software_engi.Base.{
  ℕ, ◌≤◌, ◌≡◌, ◌≢◌, ◌↔◌, ◌⊎◌, refl, sym, ap, ◌∙◌, Text, text_eq, Bool, true, false, ◌&&◌, not,
  Option, none, some, [], ◌∷◌, ◌++◌, ◌==◌, ==_sound, ==_differ, nat_eq, starts_with, contains, drop,
  length, arith, Bool-cases, inl, inr,
}
use mathlib.Core.List.{append-nil}
use agentic_ai_software_engi.Quality.Schema.{FilePatch}
use agentic_ai_software_engi.Developer.Patcher.{
  snippet_not_found, replace_first, rejected_with, accepted_with, is_python, applied, validated,
  apply_patch,
}

starts_with-split : (s p : Text) → starts_with s p ≡ true → s ≡ p ++ drop (length p) s
unfolding starts_with drop
starts_with-split s [] h = refl
starts_with-split [] (c ∷ p) h = ground arith
starts_with-split (d ∷ s) (c ∷ p) h = ground (arith, starts_with-split s p)

starts_with-append : (p a : Text) → starts_with (p ++ a) p ≡ true
unfolding starts_with
starts_with-append [] a = refl
starts_with-append (c ∷ p) a = ground (arith, starts_with-append p a)

drop-append : (p a : Text) → drop (length p) (p ++ a) ≡ a
unfolding drop
drop-append [] a = refl
drop-append (c ∷ p) a = drop-append p a

-- The snippet stands behind `before`, and nowhere earlier.
abbrev pub FirstAt : Text → Text → Text → Text → Type 0
FirstAt s orig before after =
    (s ≡ before ++ (orig ++ after))
    × ((b a : Text) → s ≡ b ++ (orig ++ a) → length before ≤ length b)

abbrev pub Nowhere : Text → Text → Type 0
Nowhere s orig = (b a : Text) → s ≢ b ++ (orig ++ a)

starts_at : (s b orig a : Text) → s ≡ b ++ (orig ++ a) → starts_with s orig ≡ false → b ≢ []
starts_at s b orig a e h n = ground (arith, starts_with-append orig a)

-- An occurrence that is not at the front stands in the tail.
in_tail :
    (c : ℕ) (s b orig a : Text)
    → (c ∷ s) ≡ b ++ (orig ++ a)
    → starts_with (c ∷ s) orig ≡ false
    → (b' : Text) × (b ≡ c ∷ b') × (s ≡ b' ++ (orig ++ a))
in_tail c s [] orig a e h = absurd (starts_at (c ∷ s) [] orig a e h refl)
in_tail c s (x ∷ b) orig a e h = (b, ground arith, ground arith)

Nowhere-cons :
    (c : ℕ) (s orig : Text)
    → starts_with (c ∷ s) orig ≡ false
    → Nowhere s orig
    → Nowhere (c ∷ s) orig
Nowhere-cons c s orig h n b a e = let (b', eq, rest) = in_tail c s b orig a e h in n b' a rest

FirstAt-cons :
    (c : ℕ) (s orig before after : Text)
    → starts_with (c ∷ s) orig ≡ false
    → FirstAt s orig before after
    → FirstAt (c ∷ s) orig (c ∷ before) after
FirstAt-cons c s orig before after h f = (
  ap (λ (t : Text). c ∷ t) f.0,
  λ b a e. let (b', eq, rest) = in_tail c s b orig a e h in rw eq (omega (arith, f.1 b' a rest)),
)

FirstAt-nil : (s orig : Text) → starts_with s orig ≡ true → FirstAt s orig [] (drop (length orig) s)
FirstAt-nil s orig h = (starts_with-split s orig h, λ b a e. omega arith)

abbrev Found : Text → Text → Text → Type 0
Found s orig upd =
    (before after : Text) × FirstAt s orig before after
    × (replace_first orig upd s ≡ before ++ (upd ++ after))

empty_side : (b : Text) (o : ℕ) (t : Text) → [] ≢ b ++ (o ∷ t)
empty_side [] o t e = ground arith
empty_side (x ∷ b) o t e = ground arith

-- It stands nowhere, or it stands first somewhere and is replaced there.
replaced :
    (s orig upd : Text)
    → ((contains s orig ≡ false) × Nowhere s orig) ⊎ ((contains s orig ≡ true) × Found s orig upd)
unfolding contains replace_first
replaced [] [] upd = inr (refl, ([], [], (refl, λ b a e. omega arith), sym (append-nil upd)))
replaced [] (o ∷ orig) upd = inl (refl, λ b a e. empty_side b o (orig ++ a) e)
replaced (c ∷ s) orig upd = elim (Bool-cases (starts_with (c ∷ s) orig)) [
  | inl e ↦ inr (rw e, ([], drop (length orig) (c ∷ s), FirstAt-nil (c ∷ s) orig e, rw e))
  | inr e ↦ elim (replaced s orig upd) [
    | inl (n, absent) ↦ inl (rw (e, n), Nowhere-cons c s orig e absent)
    | inr (y, (before, after, f, r)) ↦
        inr (rw (e, y), (c ∷ before, after, FirstAt-cons c s orig before after e f, rw (e, r)))
  ]
]

append-injective :
    (b b' t t' : Text) → length b ≡ length b' → (b ++ t) ≡ (b' ++ t') → (b ≡ b') × (t ≡ t')
append-injective [] [] t t' n e = (refl, e)
append-injective [] (y ∷ b') t t' n e = absurd (omega arith)
append-injective (x ∷ b) [] t t' n e = absurd (omega arith)
append-injective (x ∷ b) (y ∷ b') t t' n e = ground (arith, append-injective b b' t t')

FirstAt-unique :
    (s orig b a b' a' : Text) → FirstAt s orig b a → FirstAt s orig b' a' → (b ≡ b') × (a ≡ a')
FirstAt-unique s orig b a b' a' f g =
    let same_length : length b ≡ length b' = omega (arith, f.1 b' a' g.0, g.1 b a f.0) in
    let (e, rest) = append-injective b b' (orig ++ a) (orig ++ a') same_length (sym f.0 ∙ g.0) in
    (e, sym (drop-append orig a) ∙ (ap (drop (length orig)) rest ∙ drop-append orig a'))

-- What a patch makes of a text: the whole of it new, or the first place of the snippet.
abbrev pub Edits : Text → FilePatch → Text → Type 0
Edits source p r =
    ((p.original_code_snippet ≡ []) × (r ≡ p.updated_code_snippet))
    ⊎ ((p.original_code_snippet ≢ [])
        × ((before after : Text) × FirstAt source p.original_code_snippet before after
            × (r ≡ before ++ (p.updated_code_snippet ++ after))))

applied-Edits :
    (source : Text) (p : FilePatch) (r : Text) → (applied source p ≡ some r) ↔ Edits source p r
applied-Edits source p r = elim (Bool-cases (p.original_code_snippet == [])) [
  | inl e ↦
      let none_given : p.original_code_snippet ≡ [] = ==_sound p.original_code_snippet [] e in
      rw e (
        λ h. inl (none_given, ground arith),
        λ h. elim h [ inl h' ↦ ground arith | inr h' ↦ absurd (h'.0 none_given) ],
      )
  | inr e ↦
      let given : p.original_code_snippet ≢ [] = ==_differ p.original_code_snippet [] e in
      elim (replaced source p.original_code_snippet p.updated_code_snippet) [
        | inl (n, absent) ↦
            rw (e, n)
              (
                λ h. ground arith,
                λ h. elim h [
                  | inl h' ↦ absurd (given h'.0)
                  | inr (g, (before, after, f, q)) ↦ absurd (absent before after f.0)
                ],
              )
        | inr (y, (before, after, f, q)) ↦
            rw (e, y, q)
              (
                λ h. inr (given, (before, after, f, ground arith)),
                λ h. elim h [
                  | inl h' ↦ absurd (given h'.0)
                  | inr (g, (b', a', f', q')) ↦
                      let (eb, ea) =
                        FirstAt-unique source p.original_code_snippet before after b' a' f f' in
                      rw (eb, ea) (ap (λ (t : Text). some t) (sym q'))
                ],
              )
      ]
]

applied-missing :
    (source : Text) (p : FilePatch)
    → (applied source p ≡ none)
      ↔ ((p.original_code_snippet ≢ []) × Nowhere source p.original_code_snippet)
applied-missing source p = elim (Bool-cases (p.original_code_snippet == [])) [
  | inl e ↦
      let none_given : p.original_code_snippet ≡ [] = ==_sound p.original_code_snippet [] e in
      rw e (λ h. ground arith, λ h. absurd (h.0 none_given))
  | inr e ↦
      let given : p.original_code_snippet ≢ [] = ==_differ p.original_code_snippet [] e in
      elim (replaced source p.original_code_snippet p.updated_code_snippet) [
        | inl (n, absent) ↦ rw (e, n) (λ h. (given, absent), λ h. refl)
        | inr (y, (before, after, f, q)) ↦
            rw (e, y) (λ h. ground arith, λ h. absurd (h.1 before after f.0))
      ]
]

module _ (parses : Text → Bool) where
  -- A Python file is to parse when the patch is in it.
  abbrev pub IsParsed : FilePatch → Text → Type 0
  IsParsed p r = (is_python p.file_path && not (parses r)) ≡ false

  validated-accepts :
      (path : Text) (o : Option Text) (r : Text)
      → (validated parses path o ≡ accepted_with r)
        ↔ ((o ≡ some r) × ((is_python path && not (parses r)) ≡ false))
  validated-accepts path none r = ground arith
  validated-accepts path (some x) r = elim (Bool-cases (is_python path && not (parses x))) [
    | inl e ↦ ground arith
    | inr e ↦ ground arith
  ]

  validated-missing :
      (path : Text) (o : Option Text)
      → (validated parses path o ≡ rejected_with snippet_not_found) ↔ (o ≡ none)
  validated-missing path none = ground arith
  validated-missing path (some x) = elim (Bool-cases (is_python path && not (parses x))) [
    | inl e ↦ ground arith
    | inr e ↦ ground arith
  ]

  -- A patch is accepted_with with a text exactly if the text is the source with the first occurrence of the
  -- snippet replaced and all around it kept, or, for an empty snippet, the update itself, and a Python
  -- file still parses. It is refused for its snippet exactly if it has one and the source does not
  -- contain it.
  pub apply_patch-accepts :
      (source : Text) (p : FilePatch) (r : Text)
      → ((apply_patch parses source p ≡ accepted_with r) ↔ (Edits source p r × IsParsed p r))
        × ((apply_patch parses source p ≡ rejected_with snippet_not_found)
            ↔ ((p.original_code_snippet ≢ []) × Nowhere source p.original_code_snippet))
  unfolding apply_patch
  apply_patch-accepts source p r =
      let (there, back) = validated-accepts p.file_path (applied source p) r in
      let (edits, edit) = applied-Edits source p r in
      (
        (λ h. (edits (there h).0, (there h).1), λ h. back (edit h.0, h.1)),
        (
          λ h.
              (applied-missing source p).0 ((validated-missing p.file_path (applied source p)).0 h),
          λ h.
              (validated-missing p.file_path (applied source p)).1 ((applied-missing source p).1 h),
        ),
      )

  validated-valid :
      (path : Text) (o : Option Text)
      → (validated parses path o).is_valid ≡ true
      → (r : Text) × (validated parses path o ≡ accepted_with r)
  validated-valid path none h = ground arith
  validated-valid path (some x) h = elim (Bool-cases (is_python path && not (parses x))) [
    | inl e ↦ ground arith
    | inr e ↦ (x, rw e)
  ]

  pub apply_patch-valid :
      (source : Text) (p : FilePatch)
      → (apply_patch parses source p).is_valid ≡ true
      → (r : Text) × (apply_patch parses source p ≡ accepted_with r)
  unfolding apply_patch
  apply_patch-valid source p h = validated-valid p.file_path (applied source p) h
