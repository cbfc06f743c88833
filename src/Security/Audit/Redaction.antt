-- ===== src/Security/Audit/Redaction.antt =====
-- What the log keeps of secrets.
use agentic_ai_software_engi.Base.{
  true-ne-false, ◌≤◌, Text, codes, text_eq, Bool, true, false, ◌≡◌, ◌↔◌, refl, sym, ◌∙◌, ◌⊎◌, List,
  [], ◌∷◌, arith, if◌then◌else◌, Some, any-Some, Some-any, elem, length, lower, contains,
  starts_with,
}
use agentic_ai_software_engi.Security.Audit.{
  Json, text, dict, other, Details, empty, field, redacted, is_sensitive, is_secret_name,
  looks_secret, sanitize_sensitive, sensitive_field_substrings, secret_names,
  sanitize_audit_details,
}

-- The name holds one of the words, in any case of its letters.
abbrev pub SensitiveName : Text → Type 0
SensitiveName k =
    Some (λ w. contains (lower k) w ≡ true)
      (codes "token"
        ∷ codes "secret"
        ∷ codes "key"
        ∷ codes "password"
        ∷ codes "auth"
        ∷ codes "credential"
        ∷ [])

-- The name is one of the words, in any case of its letters.
abbrev pub SecretName : Text → Type 0
SecretName k =
    Some (λ w. lower k ≡ w)
      (codes "token"
        ∷ codes "api_key"
        ∷ codes "password"
        ∷ codes "secret"
        ∷ codes "github_token"
        ∷ [])

-- A text of nine characters at least that does not start like a key of the program.
abbrev pub LongText : Json → Type 0
LongText (text s) = (9 ≤ length s) × (starts_with s (codes "ak_") ≡ false)
LongText (dict d) = ⊥
LongText (other s) = ⊥

-- A sensitive field that has one of the five secret names, or holds a long text, holds the mark of
-- redaction alone.
abbrev FieldOk : Text → Json → Type 0
FieldOk k v = SensitiveName k → (SecretName k ⊎ LongText v) → v ≡ text (codes "[REDACTED]")

is_sensitive-SensitiveName : (k : Text) → (is_sensitive k ≡ true) ↔ SensitiveName k
unfolding is_sensitive sensitive_field_substrings
is_sensitive-SensitiveName k =
    let t = λ (w : Text). contains (lower k) w in
    (any-Some t sensitive_field_substrings, Some-any t sensitive_field_substrings)

elem-Some : (a : Text) (ws : List Text) → (elem a ws ≡ true) ↔ Some (λ w. a ≡ w) ws
elem-Some a [] = ground arith
elem-Some a (w ∷ ws) = ground (arith, elem-Some a ws)

is_secret_name-SecretName : (k : Text) → (is_secret_name k ≡ true) ↔ SecretName k
unfolding is_secret_name secret_names
is_secret_name-SecretName k = elem-Some (lower k) secret_names

looks_secret-LongText : (v : Json) → (looks_secret v ≡ true) ↔ LongText v
unfolding looks_secret
looks_secret-LongText (text s) = ground arith
looks_secret-LongText (dict d) = ground arith
looks_secret-LongText (other s) = ground arith

-- The same of every field that is reached through names that are not sensitive.
mutual
  pub IsRedacted : Details → Type 0
  IsRedacted empty = Unit
  IsRedacted (field k v rest) = FieldOk k v × IsRedactedIn k v × IsRedacted rest

  pub IsRedactedIn : Text → Json → Type 0
  IsRedactedIn k (dict d) = (¬ SensitiveName k) → IsRedacted d
  IsRedactedIn k (text s) = Unit
  IsRedactedIn k (other s) = Unit

IsRedactedIn-sensitive : (k : Text) (v : Json) → is_sensitive k ≡ true → IsRedactedIn k v
unfolding IsRedactedIn
IsRedactedIn-sensitive k (dict d) h = λ x. absurd (x ((is_sensitive-SensitiveName k).0 h))
IsRedactedIn-sensitive k (text s) h = tt
IsRedactedIn-sensitive k (other s) h = tt

sanitize_sensitive-FieldOk : (k : Text) (v : Json) → FieldOk k (sanitize_sensitive k v)
unfolding sanitize_sensitive redacted
sanitize_sensitive-FieldOk k v n h =
    ground (arith, is_secret_name-SecretName k, looks_secret-LongText v, h)

-- Behind a name that is not sensitive stands any value of which the same holds.
field-IsRedacted :
    (k : Text) (v w : Json) (rest : Details) (b : Bool)
    → (is_sensitive k ≡ b)
    → ((¬ SensitiveName k) → IsRedactedIn k w)
    → IsRedacted rest
    → IsRedacted (field k (if b then sanitize_sensitive k v else w) rest)
unfolding IsRedacted
field-IsRedacted k v w rest true e h r =
    (sanitize_sensitive-FieldOk k v, IsRedactedIn-sensitive k (sanitize_sensitive k v) e, r)
field-IsRedacted k v w rest false e h r =
    let plain : ¬ SensitiveName k =
      λ n. true-ne-false (sym ((is_sensitive-SensitiveName k).1 n) ∙ e) in
    ((λ n. absurd (plain n)), h plain, r)

-- What the log keeps of its details: a field whose name holds token, secret, key, password, auth or
-- credential holds the mark of redaction alone, if its name is token, api_key, password, secret or
-- github_token, or if it would hold a text of nine characters at least that does not start with ak_;
-- and so at every depth that is reached through names that hold none of those words.
pub sanitize_audit_details-IsRedacted : (d : Details) → IsRedacted (sanitize_audit_details d)
unfolding sanitize_audit_details IsRedacted
sanitize_audit_details-IsRedacted empty = tt
sanitize_audit_details-IsRedacted (field k (text s) rest) =
    field-IsRedacted k (text s) (text s) _ _ refl (λ x. tt) (sanitize_audit_details-IsRedacted rest)
sanitize_audit_details-IsRedacted (field k (other s) rest) =
    field-IsRedacted k (other s) (other s) _ _ refl (λ x. tt)
      (sanitize_audit_details-IsRedacted rest)
sanitize_audit_details-IsRedacted (field k (dict d) rest) =
    field-IsRedacted k (dict d) (dict (sanitize_audit_details d)) _ _ refl
      (λ x. λ y. sanitize_audit_details-IsRedacted d) (sanitize_audit_details-IsRedacted rest)
