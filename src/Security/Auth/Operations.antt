-- ===== src/Security/Auth/Operations.antt =====
-- Sequences of operations on API keys: a revoked key stays revoked, and its hash leads to no other.
use agentic_ai_software_engi.Base.{
  Text, text_eq, true, ◌≡◌, refl, ◌≢◌, Option, none, some, List, [], ◌∷◌, arith, All, opt_text,
  or_text,
}
use agentic_ai_software_engi.Base.Dict.{
  lookup, lookup-insert, lookup-insert_self, lookup-insert_other,
}
use agentic_ai_software_engi.Security.Auth.{
  ApiKeyRecord, AuthManager, mark_revoked, revoke_api_key, clear, new_record, create_api_key,
  rotate_on, rotate_api_key,
}

-- The record under the identifier, if there is one, is revoked.
abbrev pub IsRevoked : Text → AuthManager → Type 0
IsRevoked id m = (r : ApiKeyRecord) → (lookup id m.keys ≡ some r) → r.is_revoked ≡ true

-- A hash that leads to the identifier, or nowhere.
abbrev pub IsHeldBy : Text → Option Text → Type 0
IsHeldBy id none = Unit
IsHeldBy id (some x) = x ≡ id

module _ (hash_key : Text → Text) where
  -- The calls that may follow; a generated identifier is an argument.
  pub data Op : Type 0 where
    create : Text → Text → Text → Option Text → Option Text → Text → Text → Op
    rotate : Text → Text → Option Text → Text → Text → Op
    revoke : Text → Text → Op
    clear_all : Op

  abbrev rotated : AuthManager → Option (AuthManager × Text) → AuthManager
  rotated m none = m
  rotated m (some (m', key)) = m'

  unfoldable pub apply : Op → AuthManager → AuthManager
  apply (create user organization name expires custom generated id) m =
      (create_api_key hash_key user organization name expires custom generated id m).0
  apply (rotate now id expires generated new_id) m =
      rotated m (rotate_api_key hash_key now id expires generated new_id m)
  apply (revoke now id) m = (revoke_api_key now id m).0
  apply clear_all m = clear m

  unfoldable pub apply_all : List Op → AuthManager → AuthManager
  apply_all [] m = m
  apply_all (op ∷ ops) m = apply_all ops (apply op m)

  -- The operation gives no new key the identifier.
  abbrev pub Spares : Text → Op → Type 0
  Spares id (create user organization name expires custom generated new_id) = new_id ≢ id
  Spares id (rotate now old expires generated new_id) = new_id ≢ id
  Spares id (revoke now old) = Unit
  Spares id clear_all = Unit

  -- The operation makes no key of the hash.
  abbrev pub Avoids : Text → Op → Type 0
  Avoids hash (create user organization name expires custom generated new_id) =
      hash ≢ hash_key (or_text (opt_text custom) generated)
  Avoids hash (rotate now old expires generated new_id) = hash ≢ hash_key (or_text [] generated)
  Avoids hash (revoke now old) = Unit
  Avoids hash clear_all = Unit

  create-IsRevoked :
      (id user organization name : Text) (expires custom : Option Text) (generated new_id : Text)
      (m : AuthManager)
      → (new_id ≢ id)
      → IsRevoked id m
      → IsRevoked id
          (create_api_key hash_key user organization name expires custom generated new_id m).0
  unfolding create_api_key
  create-IsRevoked id user organization name expires custom generated new_id m d h r e = ground (
    arith,
    e,
    lookup-insert id new_id
        (new_record hash_key user organization expires name new_id
          (or_text (opt_text custom) generated))
        m.keys,
    h r,
  )

  mark_revoked-IsRevoked :
      (now id old : Text) (m : AuthManager) (o : Option ApiKeyRecord)
      → IsRevoked id m
      → IsRevoked id (mark_revoked now old m o).0
  mark_revoked-IsRevoked now id old m none h r e = h r e
  mark_revoked-IsRevoked now id old m (some x) h r e = ground (
    arith,
    e,
    lookup-insert id old (record x { is_revoked = true; revoked_at = some now }) m.keys,
    h r,
  )

  rotate_on-IsRevoked :
      (now id old : Text) (expires : Option Text) (generated new_id : Text) (m : AuthManager)
      (o : Option ApiKeyRecord)
      → (new_id ≢ id)
      → IsRevoked id m
      → IsRevoked id (rotated m (rotate_on hash_key now old expires generated new_id m o))
  unfolding revoke_api_key
  rotate_on-IsRevoked now id old expires generated new_id m none d h = h
  rotate_on-IsRevoked now id old expires generated new_id m (some x) d h =
      create-IsRevoked id _ _ _ expires none generated new_id _ d
        (mark_revoked-IsRevoked now id old m (lookup old m.keys) h)

  clear-IsRevoked : (id : Text) (m : AuthManager) → IsRevoked id (clear m)
  unfolding clear lookup
  clear-IsRevoked id m r e = ground arith

  apply-IsRevoked :
      (id : Text) (op : Op) (m : AuthManager)
      → Spares id op
      → IsRevoked id m
      → IsRevoked id (apply op m)
  unfolding apply rotate_api_key revoke_api_key
  apply-IsRevoked id (create user organization name expires custom generated new_id) m d h =
      create-IsRevoked id user organization name expires custom generated new_id m d h
  apply-IsRevoked id (rotate now old expires generated new_id) m d h =
      rotate_on-IsRevoked now id old expires generated new_id m (lookup old m.keys) d h
  apply-IsRevoked id (revoke now old) m d h =
      mark_revoked-IsRevoked now id old m (lookup old m.keys) h
  apply-IsRevoked id clear_all m d h = clear-IsRevoked id m

  create-IsHeldBy :
      (id hash user organization name : Text) (expires custom : Option Text)
      (generated new_id : Text) (m : AuthManager)
      → (hash ≢ hash_key (or_text (opt_text custom) generated))
      → IsHeldBy id (lookup hash m.hash_to_key_id)
      → IsHeldBy id (
          lookup hash
            (create_api_key hash_key user organization name expires custom generated new_id
              m).0.hash_to_key_id)
  unfolding create_api_key new_record
  create-IsHeldBy id hash user organization name expires custom generated new_id m d h =
      rw
        (lookup-insert_other hash (hash_key (or_text (opt_text custom) generated)) new_id
          m.hash_to_key_id d)
        h

  mark_revoked-hashes :
      (now old : Text) (m : AuthManager) (o : Option ApiKeyRecord)
      → (mark_revoked now old m o).0.hash_to_key_id ≡ m.hash_to_key_id
  mark_revoked-hashes now old m none = refl
  mark_revoked-hashes now old m (some x) = refl

  mark_revoked-IsHeldBy :
      (id hash now old : Text) (m : AuthManager) (o : Option ApiKeyRecord)
      → IsHeldBy id (lookup hash m.hash_to_key_id)
      → IsHeldBy id (lookup hash (mark_revoked now old m o).0.hash_to_key_id)
  mark_revoked-IsHeldBy id hash now old m o h = rw (mark_revoked-hashes now old m o) h

  rotate_on-IsHeldBy :
      (id hash now old : Text) (expires : Option Text) (generated new_id : Text) (m : AuthManager)
      (o : Option ApiKeyRecord)
      → (hash ≢ hash_key (or_text [] generated))
      → IsHeldBy id (lookup hash m.hash_to_key_id)
      → IsHeldBy id (
          lookup hash
            (rotated m (rotate_on hash_key now old expires generated new_id m o)).hash_to_key_id)
  unfolding revoke_api_key
  rotate_on-IsHeldBy id hash now old expires generated new_id m none d h = h
  rotate_on-IsHeldBy id hash now old expires generated new_id m (some x) d h =
      create-IsHeldBy id hash _ _ _ expires none generated new_id _ d
        (mark_revoked-IsHeldBy id hash now old m (lookup old m.keys) h)

  apply-IsHeldBy :
      (id hash : Text) (op : Op) (m : AuthManager)
      → Avoids hash op
      → IsHeldBy id (lookup hash m.hash_to_key_id)
      → IsHeldBy id (lookup hash (apply op m).hash_to_key_id)
  unfolding apply rotate_api_key revoke_api_key clear lookup
  apply-IsHeldBy id hash (create user organization name expires custom generated new_id) m d h =
      create-IsHeldBy id hash user organization name expires custom generated new_id m d h
  apply-IsHeldBy id hash (rotate now old expires generated new_id) m d h =
      rotate_on-IsHeldBy id hash now old expires generated new_id m (lookup old m.keys) d h
  apply-IsHeldBy id hash (revoke now old) m d h =
      mark_revoked-IsHeldBy id hash now old m (lookup old m.keys) h
  apply-IsHeldBy id hash clear_all m d h = tt

  -- No operation that spares both brings a revoked record back under a hash.
  pub apply_all-IsOut :
      (id hash : Text) (ops : List Op) (m : AuthManager)
      → All (Spares id) ops
      → All (Avoids hash) ops
      → IsRevoked id m
      → IsHeldBy id (lookup hash m.hash_to_key_id)
      → IsRevoked id (apply_all ops m) × IsHeldBy id (lookup hash (apply_all ops m).hash_to_key_id)
  unfolding apply_all
  apply_all-IsOut id hash [] m d f h k = (h, k)
  apply_all-IsOut id hash (op ∷ ops) m d f h k =
      apply_all-IsOut id hash ops (apply op m) d.1 f.1 (apply-IsRevoked id op m d.0 h)
        (apply-IsHeldBy id hash op m f.0 k)

  pub revoke_api_key-IsHeldBy :
      (now id hash : Text) (m : AuthManager)
      → (lookup hash m.hash_to_key_id ≡ some id)
      → IsHeldBy id (lookup hash (revoke_api_key now id m).0.hash_to_key_id)
  unfolding revoke_api_key
  revoke_api_key-IsHeldBy now id hash m k =
      mark_revoked-IsHeldBy id hash now id m (lookup id m.keys) (rw k refl)

  mark_revoked-IsRevoked_self :
      (now id : Text) (m : AuthManager) (o : Option ApiKeyRecord)
      → (lookup id m.keys ≡ o)
      → IsRevoked id (mark_revoked now id m o).0
  mark_revoked-IsRevoked_self now id m none k r e = ground arith
  mark_revoked-IsRevoked_self now id m (some x) k r e = ground (
    arith,
    e,
    lookup-insert_self id (record x { is_revoked = true; revoked_at = some now }) m.keys,
  )

  pub revoke_api_key-IsRevoked :
      (now id : Text) (m : AuthManager) → IsRevoked id (revoke_api_key now id m).0
  unfolding revoke_api_key
  revoke_api_key-IsRevoked now id m = mark_revoked-IsRevoked_self now id m (lookup id m.keys) refl
