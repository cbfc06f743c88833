-- ===== src/Security/Auth.antt =====
-- backend/security/auth.py: API keys. The generated keys and identifiers, the time stamps and SHA-256
-- are arguments; `has_expired` compares a time stamp with the time of the call.
pub mod Operations
pub mod Revocation
use agentic_ai_software_engi.Base.{
  Text, codes, keep, map, text_eq, Bool, true, false, ◌&&◌, not, Option, none, some, List, [], ◌∷◌,
  ◌++◌, ◌==◌, if◌then◌else◌, strip, prefix, is_set, opt_text, or_text,
}
use agentic_ai_software_engi.Base.Dict.{Dict, lookup, insert}

pub data AuthError : Type 0 where
  authentication_required authentication_invalid authentication_expired : AuthError
  tenant_access_denied repository_access_denied : AuthError

pub data Result {ℓ} (A : Type ℓ) : Type ℓ where
  ok : A → Result A
  error : AuthError → Result A

pub record ApiKeyRecord : Type 0 where
  pub key_id : Text
  pub key_hash : Text
  pub key_prefix : Text
  pub user_id : Text
  pub organization_id : Text
  pub expires_at : Option Text
  pub is_revoked : Bool
  pub revoked_at : Option Text
  pub name : Text

pub record AuthManager : Type 0 where
  pub keys : Dict Text ApiKeyRecord
  pub hash_to_key_id : Dict Text Text

abbrev pub mark_revoked : Text → Text → AuthManager → Option ApiKeyRecord → AuthManager × Bool
mark_revoked now key_id m none = (m, false)
mark_revoked now key_id m (some r) = (
  record m { keys = insert key_id (record r { is_revoked = true; revoked_at = some now }) m.keys },
  true,
)

unfoldable pub revoke_api_key : Text → Text → AuthManager → AuthManager × Bool
revoke_api_key now key_id m = mark_revoked now key_id m (lookup key_id m.keys)

unfoldable pub get_key_record : Text → AuthManager → Option ApiKeyRecord
get_key_record key_id m = lookup key_id m.keys

unfoldable pub list_user_keys : Text → AuthManager → List ApiKeyRecord
list_user_keys user_id m = keep (λ r. r.user_id == user_id) (map (λ entry. entry.1) m.keys)

unfoldable pub clear : AuthManager → AuthManager
clear m = record { keys = []; hash_to_key_id = [] }

abbrev pub record_of : Option Text → AuthManager → Option ApiKeyRecord
record_of none m = none
record_of (some key_id) m = lookup key_id m.keys

module _ (hash_key : Text → Text) where
  -- The new record; an empty custom key counts as none.
  unfoldable pub new_record : Text → Text → Option Text → Text → Text → Text → ApiKeyRecord
  new_record user_id organization_id expires_at name key_id raw_key = record {
    key_id = key_id;
    key_hash = hash_key raw_key;
    key_prefix = prefix 12 raw_key ++ codes "...";
    user_id = user_id;
    organization_id = organization_id;
    expires_at = expires_at;
    is_revoked = false;
    revoked_at = none;
    name = name;
  }

  unfoldable pub create_api_key :
      Text
      → Text
      → Text
      → Option Text
      → Option Text
      → Text
      → Text
      → AuthManager
      → AuthManager × Text
  create_api_key user_id organization_id name expires_at custom_raw_key generated key_id m =
      let raw_key = or_text (opt_text custom_raw_key) generated in
      let r = new_record user_id organization_id expires_at name key_id raw_key in
      (
        record {
          keys = insert key_id r m.keys;
          hash_to_key_id = insert r.key_hash key_id m.hash_to_key_id;
        },
        raw_key,
      )

  abbrev pub rotate_on :
      Text
      → Text
      → Option Text
      → Text
      → Text
      → AuthManager
      → Option ApiKeyRecord
      → Option (AuthManager × Text)
  rotate_on now key_id expires_at generated new_id m none = none
  rotate_on now key_id expires_at generated new_id m (some old) = some (
      create_api_key old.user_id old.organization_id (old.name ++ codes "_rotated") expires_at none
        generated new_id (revoke_api_key now key_id m).0)

  -- None stands for the ValueError of a key that is not there.
  unfoldable pub rotate_api_key :
      Text → Text → Option Text → Text → Text → AuthManager → Option (AuthManager × Text)
  rotate_api_key now key_id expires_at generated new_id m =
      rotate_on now key_id expires_at generated new_id m (lookup key_id m.keys)

  module _ (has_expired : Text → Bool) where
    abbrev pub expired : Option Text → Bool
    expired none = false
    expired (some []) = false
    expired (some (c ∷ t)) = has_expired (c ∷ t)

    abbrev pub accept : Option ApiKeyRecord → Result ApiKeyRecord
    accept none = error authentication_invalid
    accept (some r) =
        if r.is_revoked
        then error authentication_invalid
        else if expired r.expires_at
        then error authentication_expired
        else ok r

    abbrev pub authenticate_stripped : Text → AuthManager → Result ApiKeyRecord
    authenticate_stripped [] m = error authentication_invalid
    authenticate_stripped (c ∷ key) m =
        accept (record_of (lookup (hash_key (c ∷ key)) m.hash_to_key_id) m)

    unfoldable pub authenticate_api_key : Text → AuthManager → Result ApiKeyRecord
    authenticate_api_key raw_key m = authenticate_stripped (strip raw_key) m
