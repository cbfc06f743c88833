-- ===== src/Security/Audit/Tampering.antt =====
-- What a chain that verifies says about its events.
use agentic_ai_software_engi.Base.{
  ℕ, ◌+◌, Text, text_eq, ◌≡◌, refl, List, [], ◌∷◌, arith, length, ap, sym, ◌∙◌, All,
}
use agentic_ai_software_engi.Security.Audit.{Payload, AuditEvent, intact, verify_chain}
use agentic_ai_software_engi.Security.Audit.Chain.{chain_end}

module _ (compute_hash : Payload → Text) where
  -- No two different payloads of the two chains have the same hash.
  abbrev pub NoCollision : List AuditEvent → List AuditEvent → Type 0
  NoCollision es fs =
      All
        (λ e. All (λ f. compute_hash e.payload ≡ compute_hash f.payload → e.payload ≡ f.payload) fs)
        es

  NoCollision-tail :
      (es : List AuditEvent) (f : AuditEvent) (fs : List AuditEvent)
      → NoCollision es (f ∷ fs)
      → NoCollision es fs
  NoCollision-tail [] f fs h = tt
  NoCollision-tail (e ∷ es) f fs h = (h.0.1, NoCollision-tail es f fs h.1)

  verify_chain-cons :
      (prev : Text) (n : ℕ) (x : AuditEvent) (es : List AuditEvent)
      → (verify_chain compute_hash prev n (x ∷ es) ≡ intact)
      → (x.payload.previous_hash ≡ prev)
        × (x.event_hash ≡ compute_hash x.payload)
        × (verify_chain compute_hash x.event_hash (n + 1) es ≡ intact)
  unfolding verify_chain
  verify_chain-cons prev n x es h = ground arith

  -- Two chains of the same length that both verify, end in the same hash and hold no collision are
  -- the same, event by event: a tampered log that still verifies shows in its last hash.
  pub verify_chain-determines :
      (prev prev' : Text) (n n' : ℕ) (es fs : List AuditEvent)
      → (length es ≡ length fs)
      → NoCollision es fs
      → (verify_chain compute_hash prev n es ≡ intact)
      → (verify_chain compute_hash prev' n' fs ≡ intact)
      → (chain_end prev es ≡ chain_end prev' fs)
      → (es ≡ fs) × (prev ≡ prev')
  unfolding verify_chain
  verify_chain-determines prev prev' n n' [] [] h k l m e = (refl, e)
  verify_chain-determines prev prev' n n' (x ∷ es) [] h k l m e = ground arith
  verify_chain-determines prev prev' n n' [] (y ∷ fs) h k l m e = ground arith
  verify_chain-determines prev prev' n n' (x ∷ es) (y ∷ fs) h k l m e =
      let (a, b, c) = verify_chain-cons prev n x es l in
      let (a', b', c') = verify_chain-cons prev' n' y fs m in
      let (rest, same_hash) =
        verify_chain-determines x.event_hash y.event_hash (n + 1) (n' + 1) es fs (ground arith)
          (NoCollision-tail es y fs k.1) c c' e in
      let same = k.0.0 (sym b ∙ same_hash ∙ b') in
      (ground arith, sym a ∙ ap (λ z. z.previous_hash) same ∙ a')
