-- ===== src/Security/Rbac.antt =====
-- Roles and permissions: backend/security/rbac.py and the two enums of backend/schemas/tenant.py.
pub mod Matrix
use agentic_ai_software_engi.Base.{
  ℕ, Bool, true, false, ◌&&◌, ◌||◌, not, Option, none, some, List, [], ◌∷◌, Eq, elem, leb,
}

pub data Role : Type 0 where
  owner admin engineer reviewer security_reviewer viewer : Role

pub data Permission : Type 0 where
  org_manage user_manage repo_manage repo_read policy_manage policy_read : Permission
  run_create run_read run_approve security_approve run_cancel audit_read : Permission

unfoldable pub Permission-discrete : Discrete Permission
Permission-discrete = hlevel

instance unfoldable pub permission_eq : Eq Permission
unfolding Permission-discrete
permission_eq = record { decide = Permission-discrete }

-- `ROLE_PERMISSIONS`, which has an entry for every role.
unfoldable pub role_permissions : Role → List Permission
role_permissions owner =
    org_manage ∷ user_manage ∷ repo_manage ∷ repo_read ∷ policy_manage ∷ policy_read ∷ run_create
    ∷ run_read ∷ run_approve ∷ run_cancel ∷ security_approve ∷ audit_read ∷ []
role_permissions admin =
    user_manage ∷ repo_manage ∷ repo_read ∷ policy_manage ∷ policy_read ∷ run_create ∷ run_read
    ∷ run_approve ∷ run_cancel ∷ security_approve ∷ audit_read ∷ []
role_permissions security_reviewer =
    repo_read ∷ policy_read ∷ run_read ∷ run_approve ∷ run_cancel ∷ security_approve ∷ audit_read
    ∷ []
role_permissions reviewer = repo_read ∷ policy_read ∷ run_read ∷ run_approve ∷ run_cancel ∷ []
role_permissions engineer =
    repo_read ∷ repo_manage ∷ policy_read ∷ run_create ∷ run_read ∷ run_cancel ∷ []
role_permissions viewer = repo_read ∷ policy_read ∷ run_read ∷ audit_read ∷ []

unfoldable pub get_permissions : Role → List Permission
unfolding role_permissions
get_permissions r = role_permissions r

unfoldable pub has_permission : Role → Permission → Bool
unfolding role_permissions permission_eq
has_permission r p = elem p (role_permissions r)

-- The two refusals carry the messages of the source.
pub data Approval : Type 0 where
  granted : Approval
  lacks_run_approve : Role → Approval
  needs_security_approve : Option ℕ → Approval

-- A risk score counts hundredths of a point: 70.0 is 7000.
abbrev pub elevated_score : Option ℕ → Bool
elevated_score none = false
elevated_score (some r) = leb 7000 r

abbrev elevated_risk : Option ℕ → Bool → Bool
elevated_risk score sensitive = elevated_score score || sensitive

unfoldable pub can_approve_changes : Role → Option ℕ → Bool → Approval
unfolding has_permission
can_approve_changes r score sensitive = elim (has_permission r run_approve) [
  | false ↦ lacks_run_approve r
  | true ↦ elim (elevated_risk score sensitive && not (has_permission r security_approve)) [
    | true ↦ needs_security_approve score
    | false ↦ granted
  ]
]
