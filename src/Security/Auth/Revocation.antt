-- ===== src/Security/Auth/Revocation.antt =====
-- A revoked key does not authenticate.
use agentic_ai_software_engi.Base.{
  true-ne-false, Text, text_eq, Bool, true, false, ◌≡◌, ◌≢◌, Option, none, some, List, [], ◌∷◌,
  arith, All, strip, sym, ◌∙◌, subst,
}
use agentic_ai_software_engi.Base.Dict.{lookup}
use agentic_ai_software_engi.Security.Auth.{
  ok, ApiKeyRecord, AuthManager, revoke_api_key, record_of, accept, authenticate_stripped,
  authenticate_api_key,
}
use agentic_ai_software_engi.Security.Auth.Operations.{
  Op, apply_all, Spares, Avoids, IsRevoked, IsHeldBy, apply_all-IsOut, revoke_api_key-IsRevoked,
  revoke_api_key-IsHeldBy,
}

module _ (hash_key : Text → Text) where
  module _ (has_expired : Text → Bool) where
    accept-ok :
        (o : Option ApiKeyRecord) (r : ApiKeyRecord)
        → (accept hash_key has_expired o ≡ ok r)
        → (o ≡ some r) × (r.is_revoked ≡ false)
    accept-ok none r h = ground arith
    accept-ok (some x) r h = ground arith

    record_of-IsRevoked :
        (id : Text) (o : Option Text) (m : AuthManager) (r : ApiKeyRecord)
        → IsRevoked id m
        → IsHeldBy id o
        → (record_of o m ≡ some r)
        → r.is_revoked ≡ true
    record_of-IsRevoked id none m r h k e = ground arith
    record_of-IsRevoked id (some key_id) m r h k e = h r (subst (λ x. lookup x m.keys ≡ some r) k e)

    stripped-refused :
        (id key : Text) (m : AuthManager) (r : ApiKeyRecord)
        → IsRevoked id m
        → IsHeldBy id (lookup (hash_key key) m.hash_to_key_id)
        → (authenticate_stripped hash_key has_expired key m ≢ ok r)
    stripped-refused id [] m r h k e = ground arith
    stripped-refused id (c ∷ key) m r h k e =
        let (there, live) =
          accept-ok (record_of (lookup (hash_key (c ∷ key)) m.hash_to_key_id) m) r e in
        true-ne-false (
          sym (record_of-IsRevoked id (lookup (hash_key (c ∷ key)) m.hash_to_key_id) m r h k there)
          ∙ live)

    -- Once the record that a key stands for is revoked, that key never authenticates again, whatever keys are
    -- created, rotated, revoked and cleared later, as long as none of the later keys has its hash
    -- or the identifier of its record.
    pub revoke_api_key-final :
        (ops : List (Op hash_key)) (now id raw : Text) (m : AuthManager) (r : ApiKeyRecord)
        → (lookup (hash_key (strip raw)) m.hash_to_key_id ≡ some id)
        → All (Spares hash_key id) ops
        → All (Avoids hash_key (hash_key (strip raw))) ops
        → authenticate_api_key hash_key has_expired raw
            (apply_all hash_key ops (revoke_api_key now id m).0)
          ≢ ok r
    unfolding authenticate_api_key
    revoke_api_key-final ops now id raw m r k d f =
        let (revoked, held) =
          apply_all-IsOut hash_key id (hash_key (strip raw)) ops (revoke_api_key now id m).0 d f
            (revoke_api_key-IsRevoked hash_key now id m)
            (revoke_api_key-IsHeldBy hash_key now id (hash_key (strip raw)) m k) in
        stripped-refused id (strip raw) _ r revoked held
