-- ===== src/Examples/Access.antt =====
-- API keys, tenants and the idempotency store at concrete inputs: two keys of ann's, of which the
-- first is revoked, and the organizations acme, which ann is a member of, and evil.
use agentic_ai_software_engi.Base.{
  Text, codes, text_eq, pair_eq, ℕ_discrete, Bool, true, false, ◌≡◌, refl, ◌≢◌, ◌↔◌, none, some,
  List, [], ◌∷◌, arith, strip,
}
use agentic_ai_software_engi.Base.Dict.{lookup, insert}
use agentic_ai_software_engi.Security.Rbac.{engineer, get_permissions}
use agentic_ai_software_engi.Security.Auth.{
  ok, error, tenant_access_denied, ApiKeyRecord, AuthManager, revoke_api_key, new_record,
  create_api_key, authenticate_api_key,
}
use agentic_ai_software_engi.Security.Auth.Operations.{Op, create, apply_all}
use agentic_ai_software_engi.Security.Auth.Revocation.{revoke_api_key-final}
use agentic_ai_software_engi.Security.Tenant.{
  Repository, TenantManager, enter, list_user_memberships, get_repository, is_registered_anywhere,
  authorize_repository_access, is_production, resolve_context,
}
use agentic_ai_software_engi.Security.Tenant.Context.{
  IsProven, IsAllowed, resolve_context-IsProven, authorize_repository_access-IsAllowed,
}
use agentic_ai_software_engi.Base.Glob.{fnmatch}
use agentic_ai_software_engi.Security.Tenant.Registry.{
  create_organization, add_membership, enroll, register_repository, create_user, Call, organization,
  user, membership, repository, run, run_all,
}
use agentic_ai_software_engi.Security.Tenant.Ownership.{
  IsTidy, run_all-IsTidy, authorize_repository_access-own,
}
use agentic_ai_software_engi.Security.Idempotency.{
  Value, no_fields, Records, check_or_reserve, get_record,
}
use agentic_ai_software_engi.Security.Idempotency.Isolation.{
  Action, reserve, delete, act_all, check_or_reserve-foreign,
}

-- Stand-ins for SHA-256 and for the clock.
abbrev same_text : Text → Text
same_text t = t

abbrev never : Text → Bool
never t = false

abbrev no_keys : AuthManager
no_keys = record { keys = []; hash_to_key_id = [] }

abbrev first_key : AuthManager
first_key =
    (create_api_key same_text (codes "ann") (codes "acme") (codes "cli") none none (codes "s1")
      (codes "k1") no_keys).0

abbrev two_keys : AuthManager
two_keys =
    (create_api_key same_text (codes "ann") (codes "acme") (codes "ci") none none (codes "s2")
      (codes "k2") first_key).0

abbrev a_third_key : List (Op same_text)
a_third_key =
    create (codes "ann") (codes "acme") (codes "third") none none (codes "s3") (codes "k3") ∷ []

k3-spared : codes "k3" ≢ codes "k1"
k3-spared e = ground (arith, e)

first_key-held :
    lookup (same_text (strip (codes " s1"))) two_keys.hash_to_key_id ≡ some (codes "k1")
unfolding lookup insert create_api_key new_record text_eq ℕ_discrete strip
first_key-held = refl

s1-avoided : same_text (strip (codes " s1")) ≢ codes "s3"
unfolding strip ℕ_discrete
s1-avoided e = ground (arith, e)

abbrev first_record : ApiKeyRecord
first_record =
    new_record same_text (codes "ann") (codes "acme") none (codes "cli") (codes "k1") (codes "s1")

-- The key authenticates before.
first-authenticates : authenticate_api_key same_text never (codes " s1") two_keys ≡ ok first_record
unfolding lookup insert authenticate_api_key create_api_key new_record text_eq ℕ_discrete strip
first-authenticates = refl

revoke_api_key-final_example :
    authenticate_api_key same_text never
      (codes " s1")
      (apply_all same_text a_third_key (revoke_api_key (codes "now") (codes "k1") two_keys).0)
    ≢ ok first_record
revoke_api_key-final_example =
    revoke_api_key-final same_text never a_third_key (codes "now") (codes "k1") (codes " s1")
      two_keys first_record first_key-held (k3-spared, tt) (s1-avoided, tt)

abbrev tenants : TenantManager
tenants = record {
  organizations =
      (codes "acme", record { id = codes "acme" })
      ∷ (codes "evil", record { id = codes "evil" })
      ∷ [];
  users = (codes "ann", record { id = codes "ann" }) ∷ [];
  memberships = ((codes "acme", codes "ann"), engineer) ∷ [];
  repositories =
      (
        (codes "acme", codes "acme/app"),
        record {
          id = codes "acme/app";
          organization_id = codes "acme";
          allowed_branches = codes "agent/*" ∷ [];
          is_authorized = true;
          full_name = some (codes "acme/app");
          github_token = none;
        },
      )
      ∷ [];
  auth_manager = two_keys;
  in_production_mode = true;
  dev_auth_fallback = false;
}

tenants-is_production : is_production tenants ≡ true
tenants-is_production = refl

resolve_context-IsProven_example : IsProven same_text never (some (codes "s1")) tenants (
    resolve_context same_text never
      (some (codes "acme"))
      (some (codes "root"))
      (some (codes "s1"))
      tenants)
resolve_context-IsProven_example =
    resolve_context-IsProven same_text never (some (codes "acme")) (some (codes "root"))
      (some (codes "s1")) tenants tenants-is_production

abbrev app : Repository
app = record {
  id = codes "acme/app";
  organization_id = codes "acme";
  allowed_branches = codes "agent/*" ∷ [];
  is_authorized = true;
  full_name = some (codes "acme/app");
  github_token = none;
}

authorize_repository_access-IsAllowed_example :
    (authorize_repository_access (codes "acme") (codes "acme/app") (some (codes "agent/1")) tenants
      ≡ ok app)
    ↔ IsAllowed (codes "acme") (codes "acme/app") (some (codes "agent/1")) tenants app
authorize_repository_access-IsAllowed_example =
    authorize_repository_access-IsAllowed (codes "acme") (codes "acme/app") (some (codes "agent/1"))
      tenants app

ann-enters :
    resolve_context same_text never none (some (codes "root")) (some (codes " s1 ")) tenants
    ≡ ok (record {
      user = record { id = codes "ann" };
      organization = record { id = codes "acme" };
      role = engineer;
      permissions = get_permissions engineer;
    })
unfolding resolve_context enter list_user_memberships lookup insert authenticate_api_key
    create_api_key new_record text_eq pair_eq ℕ_discrete strip
ann-enters = refl

ann-is_refused :
    resolve_context same_text never (some (codes "evil")) none (some (codes "s1")) tenants
    ≡ error tenant_access_denied
unfolding resolve_context enter lookup insert authenticate_api_key create_api_key new_record text_eq
    pair_eq ℕ_discrete strip
ann-is_refused = refl

evil-is_refused :
    authorize_repository_access (codes "evil") (codes "acme/app") none tenants
    ≡ error tenant_access_denied
unfolding authorize_repository_access get_repository is_registered_anywhere lookup text_eq pair_eq
    ℕ_discrete
evil-is_refused = refl

abbrev no_tenants : TenantManager
no_tenants = record {
  organizations = [];
  users = [];
  memberships = [];
  repositories = [];
  auth_manager = no_keys;
  in_production_mode = true;
  dev_auth_fallback = false;
}

no_tenants-IsTidy : IsTidy no_tenants
unfolding lookup
no_tenants-IsTidy = (λ o name r e. ground arith, λ o u role e. ground arith)

-- The second organization registers the repository that the first has registered.
abbrev calls : List (Call same_text)
calls =
    organization (codes "acme")
    ∷ organization (codes "evil")
    ∷ user (codes "ann") (some (codes "s1")) none (codes "s0") (codes "k1")
    ∷ membership (codes "acme") (codes "ann") engineer
    ∷ membership (codes "acme") (codes "bob") engineer
    ∷ repository (codes "acme/app") (codes "acme") none (codes "agent/*" ∷ []) true none
    ∷ repository (codes "acme/app") (codes "evil") none [] true none
    ∷ []

calls-authorize :
    authorize_repository_access
      (codes "acme")
      (codes "acme/app")
      (some (codes "agent/1"))
      (run_all same_text calls no_tenants)
    ≡ ok app
unfolding authorize_repository_access get_repository run_all run create_organization create_user
    add_membership register_repository enroll fnmatch lookup insert text_eq pair_eq ℕ_discrete
calls-authorize = refl

run_all-IsTidy_example : IsTidy (run_all same_text calls no_tenants)
run_all-IsTidy_example = run_all-IsTidy same_text calls no_tenants no_tenants-IsTidy

authorize_repository_access-own_example : app.organization_id ≡ codes "acme"
authorize_repository_access-own_example =
    authorize_repository_access-own same_text calls (codes "acme") (codes "acme/app")
      (some (codes "agent/1")) no_tenants app no_tenants-IsTidy calls-authorize

abbrev no_value : Value → Text
no_value v = []

abbrev evils : List (Text × Action)
evils =
    (codes "evil", reserve (codes "k") (codes "start") no_fields (codes "r7"))
    ∷ (codes "evil", delete (codes "k") (codes "start"))
    ∷ []

abbrev acme_table : Records
acme_table =
    (check_or_reserve same_text no_value (codes "acme") (codes "k") (codes "start") no_fields
      (codes "r1") []).1

evil-is_foreign : codes "acme" ≢ codes "evil"
evil-is_foreign e = ground (arith, e)

check_or_reserve-foreign_example :
    ((check_or_reserve same_text no_value
        (codes "acme")
        (codes "k")
        (codes "start")
        no_fields
        (codes "r2")
        (act_all same_text no_value evils acme_table)).0
      ≡ (check_or_reserve same_text no_value
          (codes "acme")
          (codes "k")
          (codes "start")
          no_fields
          (codes "r2")
          acme_table).0)
    × (get_record same_text no_value
          (codes "acme")
          (codes "k")
          (codes "start")
          (act_all same_text no_value evils acme_table)
        ≡ get_record same_text no_value (codes "acme") (codes "k") (codes "start") acme_table)
check_or_reserve-foreign_example =
    check_or_reserve-foreign same_text no_value evils (codes "acme") (codes "k") (codes "start")
      (codes "r2") no_fields acme_table (evil-is_foreign, (evil-is_foreign, tt))
