-- ===== src/Quality/Checks/Guarded.antt =====
-- What a PASS of the judge says of the candidate that the checks have looked at.
use agentic_ai_software_engi.Words
use agentic_ai_software_engi.Base.{
  Text, text_eq, true, false, ◌≡◌, ◌≢◌, ◌⊎◌, sym, subst, ◌∙◌, Option, none, some, List, [], ◌∷◌,
  ◌==◌, if◌then◌else◌, arith, All, Bool-cases, Option-cases, append-eq-nil, inl, inr,
}
use agentic_ai_software_engi.Base.Dict.{Dict}
use agentic_ai_software_engi.Quality.Schema.{QualityCheck, FilePatch, TestExecutionResult, QaResult}
use agentic_ai_software_engi.Quality.Judge.{evaluate}
use agentic_ai_software_engi.Developer.Patcher.{accepted_with, is_python, apply_patch}
use agentic_ai_software_engi.Developer.Patcher.Replacement.{
  Edits, IsParsed, apply_patch-accepts, apply_patch-valid,
}
use agentic_ai_software_engi.Developer.Scope.{
  detect_patch_wrapper_artifacts, detect_unsafe_additive_rewrite,
}
use agentic_ai_software_engi.Quality.Outcome.{
  CheckOutcome, gate_blocked, ast_outcome, security_outcome, scope_outcome_on,
}
use agentic_ai_software_engi.Quality.Checks.{
  FileView, unsafe, missing, unreadable, file, snapshot, or_original, Tools, validated_fault,
  ast_fault_on, ast_faults, check_ast, baseline, judged, scope_on, scope_violations,
  check_patch_scope, security_findings, check_security, run_all,
}
use agentic_ai_software_engi.Quality.Checks.Passes.{
  six, six-pass, ast_outcome-passes, security_outcome-passes, scope_outcome-passes,
}

module _ (tools : Tools) where
  abbrev pub disk_text : FileView → Text
  disk_text (file t) = t
  disk_text v = []

  -- The path is safe, the snippet is found where the file stands, and a Python file still parses.
  abbrev pub Applies : FilePatch → Type 0
  Applies p =
      (tools.view p.file_path ≢ unsafe)
      × ((r : Text) × Edits (disk_text (tools.view p.file_path)) p r × IsParsed tools.parses p r)

  validated_fault-nil :
      (p : FilePatch) (source : Text)
      → validated_fault tools p (apply_patch tools.parses source p) ≡ []
      → (r : Text) × Edits source p r × IsParsed tools.parses p r
  validated_fault-nil p source h =
      let valid : (apply_patch tools.parses source p).is_valid ≡ true = ground arith in
      let (r, e) = apply_patch-valid tools.parses source p valid in
      let (edits, parsed) = (apply_patch-accepts tools.parses source p r).0.0 e in
      (r, edits, parsed)

  ast_fault_on-nil :
      (p : FilePatch) (v : FileView)
      → ast_fault_on tools p v ≡ []
      → (v ≢ unsafe) × ((r : Text) × Edits (disk_text v) p r × IsParsed tools.parses p r)
  ast_fault_on-nil p unsafe h = ground arith
  ast_fault_on-nil p missing h = (λ e. ground arith, validated_fault-nil p [] h)
  ast_fault_on-nil p unreadable h = (λ e. ground arith, validated_fault-nil p [] h)
  ast_fault_on-nil p (file t) h = (λ e. ground arith, validated_fault-nil p t h)

  ast_faults-nil : (ps : List FilePatch) → ast_faults tools ps ≡ [] → All Applies ps
  unfolding ast_faults
  ast_faults-nil [] h = tt
  ast_faults-nil (p ∷ ps) h =
      let (here, rest) =
        (append-eq-nil (ast_fault_on tools p (tools.view p.file_path)) (ast_faults tools ps)).0 h in
      (ast_fault_on-nil p (tools.view p.file_path) here, ast_faults-nil ps rest)

  module _ (request : Text) (snapshots true_originals : Option (Dict Text Text)) where
    -- What the patch makes of a text holds no marker of a patch tool, and is no destructive answer to an
    -- additive request, measured against the text from before the run.
    abbrev pub Spares : FilePatch → Text → Type 0
    Spares p original =
        ((apply_patch tools.parses original p).is_valid ≡ false)
        ⊎ ((r : Text) × Edits original p r
            × (detect_patch_wrapper_artifacts r ≡ false)
            × (detect_unsafe_additive_rewrite tools.unified_diff request
                  (or_original original (snapshot p.file_path true_originals)) r
                ≡ false))

    abbrev pub Preserves : FilePatch → Type 0
    Preserves p =
        (is_python p.file_path ≡ true)
        ⊎ (baseline tools p snapshots ≡ none)
        ⊎ ((original : Text) × (baseline tools p snapshots ≡ some original) × Spares p original)

    scope_on-judged :
        (p : FilePatch) (original r : Text)
        → (apply_patch tools.parses original p ≡ accepted_with r)
        → scope_on tools request true_originals p (some original)
          ≡ judged tools request p (or_original original (snapshot p.file_path true_originals)) r
    scope_on-judged p original r a = rw a

    judged-nil :
        (p : FilePatch) (t r : Text)
        → judged tools request p t r ≡ []
        → (detect_patch_wrapper_artifacts r ≡ false)
          × (detect_unsafe_additive_rewrite tools.unified_diff request t r ≡ false)
    judged-nil p t r h = ground arith

    scope_on-Spares :
        (p : FilePatch) (original : Text)
        → scope_on tools request true_originals p (some original) ≡ []
        → Spares p original
    scope_on-Spares p original h =
        elim (Bool-cases (apply_patch tools.parses original p).is_valid) [
          | inr e ↦ inl e
          | inl e ↦
              let (r, a) = apply_patch-valid tools.parses original p e in
              let edits : Edits original p r =
                ((apply_patch-accepts tools.parses original p r).0.0 a).0 in
              let (wrapper, rewrite) =
                judged-nil p (or_original original (snapshot p.file_path true_originals)) r
                  (sym (scope_on-judged p original r a) ∙ h) in
              inr (r, edits, wrapper, rewrite)
        ]

    scoped-Preserves :
        (p : FilePatch)
        → (if is_python p.file_path
            then []
            else scope_on tools request true_originals p (baseline tools p snapshots))
          ≡ []
        → Preserves p
    scoped-Preserves p h = elim (Bool-cases (is_python p.file_path)) [
      | inl e ↦ inl e
      | inr e ↦ elim (Option-cases (baseline tools p snapshots)) [
        | inl f ↦ inr (inl f)
        | inr (original, f) ↦ inr (inr (original, f, scope_on-Spares p original (ground arith)))
      ]
    ]

    scope_violations-nil :
        (ps : List FilePatch)
        → scope_violations tools request snapshots true_originals ps ≡ []
        → All Preserves ps
    unfolding scope_violations
    scope_violations-nil [] h = tt
    scope_violations-nil (p ∷ ps) h =
        let (here, rest) =
          (append-eq-nil
              (if is_python p.file_path
                then []
                else scope_on tools request true_originals p (baseline tools p snapshots))
              (scope_violations tools request snapshots true_originals ps)).0
            h in
        (scoped-Preserves p here, scope_violations-nil ps rest)

    abbrev ast_part : List FilePatch → CheckOutcome
    ast_part ps = ast_outcome (ast_faults tools ps)

    abbrev scope_part : List FilePatch → CheckOutcome
    scope_part ps =
        scope_outcome_on request (scope_violations tools request snapshots true_originals ps)

    abbrev security_part : List FilePatch → CheckOutcome
    security_part ps = security_outcome (security_findings tools ps)

    run_all-blocked :
        (ps : List FilePatch)
        → ((security_part ps).status == Words.fail) ≡ true
        → (run_all tools ps request snapshots true_originals).checks
          ≡ six
              (ast_part ps)
              gate_blocked
              (security_part ps)
              gate_blocked
              gate_blocked
              (scope_part ps)
    unfolding run_all check_ast check_security check_patch_scope
    run_all-blocked ps e = rw e

    run_all-free :
        (ps : List FilePatch)
        → ((security_part ps).status == Words.fail) ≡ false
        → ((run_all tools ps request snapshots true_originals).checks
            ≡ six
                (ast_part ps)
                (tools.execute ps).pytest_check
                (security_part ps)
                (tools.execute ps).lint_check
                (tools.execute ps).type_check
                (scope_part ps))
          × ((run_all tools ps request snapshots true_originals).executed ≡ ps ∷ [])
    unfolding run_all check_ast check_security check_patch_scope
    run_all-free ps e = (rw e, rw e)

    scope_part-passes :
        (ps : List FilePatch)
        → ((scope_part ps).status == Words.fail) ≡ false
        → (request ≡ []) ⊎ All Preserves ps
    scope_part-passes ps h =
        elim (scope_outcome-passes request
          (scope_violations tools request snapshots true_originals ps) h) [
            | inl e ↦ inl e
            | inr e ↦ inr (scope_violations-nil ps e)
          ]

    -- When the judge says PASS on the checks of `run_all`: no patch has an unsafe path, and each one applies to
    -- its file on disk, with a text that parses where it is Python's; if there is a request, then
    -- of each other patch that has a text to be applied to and applies to it, the result holds no
    -- wrapper of a patch tool, and the guard of additive requests does not object to it; the static
    -- scan has reported nothing; and the executed checks were called, once, on these patches.
    pub run_all-pass :
        (ps : List FilePatch) (t : Option TestExecutionResult) (r : Option QaResult)
        → ((evaluate (run_all tools ps request snapshots true_originals).checks t ps r).status
            ≡ Words.pass)
        → All Applies ps
          × ((request ≡ []) ⊎ All Preserves ps)
          × (security_findings tools ps ≡ [])
          × ((run_all tools ps request snapshots true_originals).executed ≡ ps ∷ [])
    run_all-pass ps t r h = elim (Bool-cases ((security_part ps).status == Words.fail)) [
      | inl e ↦
          let (a, s, c) =
            six-pass (ast_part ps) gate_blocked (security_part ps) gate_blocked gate_blocked
              (scope_part ps) t ps r
              (subst (λ (cs : List QualityCheck). (evaluate cs t ps r).status ≡ Words.pass)
                (run_all-blocked ps e) h) in
          ground arith
      | inr e ↦
          let (checks, executed) = run_all-free ps e in
          let (a, s, c) =
            six-pass (ast_part ps) (tools.execute ps).pytest_check (security_part ps)
              (tools.execute ps).lint_check (tools.execute ps).type_check (scope_part ps) t ps r
              (subst (λ (cs : List QualityCheck). (evaluate cs t ps r).status ≡ Words.pass) checks
                h) in
          (
            ast_faults-nil ps (ast_outcome-passes (ast_faults tools ps) a),
            scope_part-passes ps c,
            security_outcome-passes (security_findings tools ps) s,
            executed,
          )
    ]
