-- ===== src/Security/Audit/Chain.antt =====
-- The log keeps every chain whole.
use agentic_ai_software_engi.Base.{
  ℕ, ◌+◌, Text, text_eq, Bool, false, ◌≡◌, refl, ◌≢◌, List, [], ◌∷◌, ◌++◌, ◌==◌, arith, keep, sym,
  ap, subst, ==_refl,
}
use agentic_ai_software_engi.Base.Dict.{lookup, lookup-insert, lookup-insert_self}
use agentic_ai_software_engi.Security.Audit.{
  Payload, AuditEvent, AuditLogger, cleared, genesis, Entry, or_genesis, intact, of_organization,
  event_of, payload_of, log, log_all, verify_chain, verify_integrity,
}

-- The hash that the next event of a chain has to name.
abbrev pub chain_end : Text → List AuditEvent → Text
chain_end prev [] = prev
chain_end prev (e ∷ es) = chain_end e.event_hash es

keep-append {ℓ} :
    {A : Type ℓ} (p : A → Bool) (xs ys : List A) → keep p (xs ++ ys) ≡ keep p xs ++ keep p ys
keep-append p [] ys = refl
keep-append p (x ∷ xs) ys = ground (arith, keep-append p xs ys)

chain_end-append :
    (prev : Text) (es : List AuditEvent) (e : AuditEvent)
    → chain_end prev (es ++ (e ∷ [])) ≡ e.event_hash
chain_end-append prev [] e = refl
chain_end-append prev (x ∷ es) e = chain_end-append x.event_hash es e

append-nil {ℓ} : {A : Type ℓ} (xs : List A) → xs ++ [] ≡ xs
append-nil [] = refl
append-nil (x ∷ xs) = ap (λ ys. x ∷ ys) (append-nil xs)

==-false : (a b : Text) → (a ≢ b) → (a == b) ≡ false
==-false a b h = ground arith

module _ (compute_hash : Payload → Text) where
  verify_chain-append :
      (prev : Text) (n : ℕ) (es : List AuditEvent) (e : AuditEvent)
      → (verify_chain compute_hash prev n es ≡ intact)
      → (e.payload.previous_hash ≡ chain_end prev es)
      → (e.event_hash ≡ compute_hash e.payload)
      → verify_chain compute_hash prev n (es ++ (e ∷ [])) ≡ intact
  unfolding verify_chain
  verify_chain-append prev n [] e h k l = ground arith
  verify_chain-append prev n (x ∷ es) e h k l =
      ground (arith, verify_chain-append x.event_hash (n + 1) es e)

  -- The chain of the organization verifies, and its end is the hash that the logger has for it.
  abbrev Whole : AuditLogger → Text → Type 0
  Whole l o =
      (verify_integrity compute_hash o l ≡ intact)
      × (chain_end genesis (keep (of_organization o) l.events)
          ≡ or_genesis (lookup o l.last_hash_by_org))

  log-same :
      (e : Entry) (l : AuditLogger)
      → Whole l e.organization_id
      → Whole (log compute_hash e l) e.organization_id
  unfolding log event_of verify_integrity payload_of
  log-same e l h =
      let event =
        event_of compute_hash e (or_genesis (lookup e.organization_id l.last_hash_by_org)) in
      let own = keep (of_organization e.organization_id) l.events in
      rw
        (
          keep-append (of_organization e.organization_id) l.events (event ∷ []),
          ==_refl e.organization_id,
          lookup-insert_self e.organization_id event.event_hash l.last_hash_by_org,
          chain_end-append genesis own event,
        )
        (verify_chain-append genesis 0 own event h.0 (sym h.1) refl, refl)

  log-other :
      (e : Entry) (l : AuditLogger) (o : Text)
      → (e.organization_id ≢ o)
      → Whole l o
      → Whole (log compute_hash e l) o
  unfolding log event_of verify_integrity payload_of
  log-other e l o d h =
      let event =
        event_of compute_hash e (or_genesis (lookup e.organization_id l.last_hash_by_org)) in
      let off : (e.organization_id == o) ≡ false = ==-false e.organization_id o d in
      let off' : (o == e.organization_id) ≡ false = ==-false o e.organization_id (λ x. d (sym x)) in
      rw
        (
          keep-append (of_organization o) l.events (event ∷ []),
          off,
          append-nil (keep (of_organization o) l.events),
          lookup-insert o e.organization_id event.event_hash l.last_hash_by_org,
          off',
        )
        h

  log-Whole : (e : Entry) (l : AuditLogger) (o : Text) → Whole l o → Whole (log compute_hash e l) o
  log-Whole e l o h = elim (text_eq.decide e.organization_id o) [
    | yes same ↦
        subst (λ x. Whole (log compute_hash e l) x) same
          (log-same e l (subst (Whole l) (sym same) h))
    | no differ ↦ log-other e l o differ h
  ]

  log_all-Whole :
      (es : List Entry) (l : AuditLogger) (o : Text)
      → Whole l o
      → Whole (log_all compute_hash es l) o
  unfolding log_all
  log_all-Whole [] l o h = h
  log_all-Whole (e ∷ es) l o h = log_all-Whole es (log compute_hash e l) o (log-Whole e l o h)

  cleared-Whole : (o : Text) → Whole cleared o
  unfolding verify_integrity verify_chain lookup
  cleared-Whole o = (refl, refl)

  -- Whatever entries are logged, of whatever organizations in whatever order, the chain of every
  -- organization verifies.
  pub log_all-intact :
      (es : List Entry) (organization : Text)
      → verify_integrity compute_hash organization (log_all compute_hash es cleared) ≡ intact
  log_all-intact es organization =
      (log_all-Whole es cleared organization (cleared-Whole organization)).0
