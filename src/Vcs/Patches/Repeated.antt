-- ===== src/Vcs/Patches/Repeated.antt =====
-- Several patches of one file.
use agentic_ai_software_engi.Base.{
  Text, text_eq, Bool, true, ◌≡◌, ◌≢◌, sym, subst, ap, ◌∙◌, some, List, [], ◌∷◌, ◌==◌, ==_refl,
  ne-==, Bool-cases, inl, inr,
}
use agentic_ai_software_engi.Base.Dict.{Dict, lookup, insert, lookup-insert_self}
use agentic_ai_software_engi.Quality.Schema.{FilePatch}
use agentic_ai_software_engi.Developer.Patcher.{accepted_with, apply_patch}
use agentic_ai_software_engi.Developer.Patcher.Replacement.{Edits, IsParsed, apply_patch-accepts}
use agentic_ai_software_engi.Vcs.Patches.{
  Files, Changes, trusted, written, effect_of, apply_all_patches, apply_patches,
}

insert_twice :
    {V : Type 0} → (k : Text) (v w : V) (d : Dict Text V) → insert k w (insert k v d) ≡ insert k w d
unfolding insert
insert_twice k v w [] = rw (==_refl k)
insert_twice k v w ((j, x) ∷ d) = elim (Bool-cases (k == j)) [
  | inl e ↦ rw (e, e)
  | inr e ↦ rw (e, e, insert_twice k v w d)
]

module _ (head : Text → Text) (is_safe : Text → Bool) (parses : Text → Bool) where
  -- A patch of a file that is as committed is written.
  clean-effect :
      (p : FilePatch) (original c : Text)
      → (head p.file_path ≡ original)
      → (original ≢ [])
      → (p.original_code_snippet ≢ [])
      → Edits original p c
      → IsParsed parses p c
      → effect_of head is_safe parses p original ≡ written original c
  unfolding effect_of
  clean-effect p original c h n s edits parsed =
      let valid : apply_patch parses original p ≡ accepted_with c =
        (apply_patch-accepts parses original p c).0.1 (edits, parsed) in
      rw (ne-== p.original_code_snippet [] s, h, ne-== original [] n, ==_refl original, valid)

  -- A later patch of it finds the file changed and trusts what it finds.
  changed-effect :
      (q : FilePatch) (original c : Text)
      → (head q.file_path ≡ original)
      → (original ≢ [])
      → (c ≢ [])
      → (c ≢ original)
      → effect_of head is_safe parses q c ≡ trusted original c
  unfolding effect_of
  changed-effect q original c h n m d = elim (Bool-cases (q.original_code_snippet == [])) [
    | inl e ↦ rw (e, ne-== c [] m, h)
    | inr e ↦ rw (e, ne-== c [] m, h, ne-== original [] n, ne-== c original d)
  ]

  step-written :
      (p : FilePatch) (ps : List FilePatch) (files : Files) (changes : Changes) (original c : Text)
      → (is_safe p.file_path ≡ true)
      → (lookup p.file_path files ≡ some original)
      → (effect_of head is_safe parses p original ≡ written original c)
      → apply_all_patches head is_safe parses (p ∷ ps) files changes
        ≡ apply_all_patches head is_safe parses ps
            (insert p.file_path c files)
            (insert p.file_path (original, c) changes)
  unfolding apply_all_patches
  step-written p ps files changes original c safe there e = rw (safe, there, e)

  step-trusted :
      (q : FilePatch) (ps : List FilePatch) (files : Files) (changes : Changes) (original c : Text)
      → (is_safe q.file_path ≡ true)
      → (lookup q.file_path files ≡ some c)
      → (effect_of head is_safe parses q c ≡ trusted original c)
      → apply_all_patches head is_safe parses (q ∷ ps) files changes
        ≡ apply_all_patches head is_safe parses ps files (insert q.file_path (original, c) changes)
  unfolding apply_all_patches
  step-trusted q ps files changes original c safe there e = rw (safe, there, e)

  -- Of two snippet patches of one committed, unchanged file, where the first changes it to a text that is
  -- not empty, the second has no effect, and no error says so: the files and the reported changes are
  -- those of the first alone.
  pub apply_patches-same_file :
      (p q : FilePatch) (files : Files) (original c : Text)
      → (q.file_path ≡ p.file_path)
      → (is_safe p.file_path ≡ true)
      → (lookup p.file_path files ≡ some original)
      → (head p.file_path ≡ original)
      → (original ≢ [])
      → (p.original_code_snippet ≢ [])
      → Edits original p c
      → IsParsed parses p c
      → (c ≢ [])
      → (c ≢ original)
      → apply_patches head is_safe parses (p ∷ q ∷ []) files
        ≡ apply_patches head is_safe parses (p ∷ []) files
  unfolding apply_patches
  apply_patches-same_file p q files original c same safe there h n s edits parsed m d =
      let files' = insert p.file_path c files in
      let changes' = insert p.file_path (original, c) [] in
      let first = λ (ps : List FilePatch).
        step-written p ps files [] original c safe there
          (clean-effect p original c h n s edits parsed) in
      let second =
        step-trusted q [] files' changes' original c (subst (λ k. is_safe k ≡ true) (sym same) safe)
          (subst (λ k. lookup k files' ≡ some c) (sym same)
            (lookup-insert_self p.file_path c files))
          (changed-effect q original c (subst (λ k. head k ≡ original) (sym same) h) n m d) in
      let again : insert q.file_path (original, c) changes' ≡ changes' =
        subst (λ k. insert k (original, c) changes' ≡ changes') (sym same)
          (insert_twice p.file_path (original, c) (original, c) []) in
      first (q ∷ [])
      ∙ (second
          ∙ (ap (λ x. apply_all_patches head is_safe parses [] files' x) again ∙ sym (first [])))
