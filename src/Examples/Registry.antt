-- ===== src/Examples/Registry.antt =====
-- A repository that is registered before a restart.
use agentic_ai_software_engi.Base.{
  Text, codes, text_eq, pair_eq, ℕ_discrete, true, false, ◌≡◌, refl, Option, some, [], ◌∷◌,
}
use agentic_ai_software_engi.Base.Dict.{lookup, insert}
use agentic_ai_software_engi.Security.Tenant.{Repository, TenantManager, get_repository}
use agentic_ai_software_engi.Security.Tenant.Registry.{register_repository, enroll, repository_of}
use agentic_ai_software_engi.Security.Tenant.Store.{Table, upsert, get, register_and_store, restart}
use agentic_ai_software_engi.Security.Tenant.Store.Restart.{
  IsTable, without_token, register_and_store-restart,
}

abbrev same_text : Text → Text
same_text t = t

abbrev with_acme : TenantManager
with_acme = record {
  organizations = (codes "acme", record { id = codes "acme" }) ∷ [];
  users = [];
  memberships = [];
  repositories = [];
  auth_manager = record { keys = []; hash_to_key_id = [] };
  in_production_mode = true;
  dev_auth_fallback = false;
}

abbrev registered : Option (TenantManager × Table)
registered =
    register_and_store (codes "now") (codes "web") (codes "acme") (some (codes "acme/web")) [] true
      (some (codes "ghp")) with_acme []

abbrev the_repository : Repository
the_repository =
    repository_of (codes "web") (codes "acme") (some (codes "acme/web")) [] true
      (some (codes "ghp"))

abbrev after : TenantManager × Table
after = (
  enroll (codes "web") (codes "acme") (some (codes "acme/web")) the_repository with_acme,
  upsert (codes "now") the_repository [],
)

registered-after : registered ≡ some after
unfolding register_and_store register_repository lookup text_eq
registered-after = refl

register_and_store-restart_example :
    (get_repository (codes "web") (some (codes "acme")) after.0 ≡ some the_repository)
    × (get_repository
          (codes "web")
          (some (codes "acme"))
          (restart same_text (codes "k0") after.1 with_acme)
        ≡ some (without_token the_repository))
    × IsTable after.1
register_and_store-restart_example =
    register_and_store-restart same_text (codes "now") (codes "k0") (codes "web") (codes "acme")
      (some (codes "acme/web")) [] true (some (codes "ghp")) with_acme after.0 with_acme [] after.1
      tt tt refl registered-after

get-by_full_name :
    get (codes "acme/web") (codes "acme") after.1 ≡ some (without_token the_repository)
unfolding get upsert lookup insert text_eq pair_eq ℕ_discrete
get-by_full_name = refl
