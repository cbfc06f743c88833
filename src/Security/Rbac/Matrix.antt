-- ===== src/Security/Rbac/Matrix.antt =====
-- What the permission table amounts to.
use agentic_ai_software_engi.Base.{
  ℕ, ◌≤◌, ◌≡◌, ◌↔◌, ◌⊎◌, Bool, true, false, Option, none, some, arith,
}
use agentic_ai_software_engi.Security.Rbac.{
  Role, owner, admin, reviewer, security_reviewer, granted, can_approve_changes,
}

-- The roles that may decide on an elevated change.
abbrev pub IsSenior : Role → Type 0
IsSenior r = (r ≡ owner) ⊎ (r ≡ admin) ⊎ (r ≡ security_reviewer)

-- A change is elevated from 70 points on, or if it is marked security sensitive.
abbrev pub IsElevated : Option ℕ → Bool → Type 0
IsElevated none sensitive = sensitive ≡ true
IsElevated (some r) sensitive = (7000 ≤ r) ⊎ (sensitive ≡ true)

-- An approval is granted exactly to the owner, the admin and the security reviewer, and to the
-- reviewer where the change is not elevated; engineers and viewers never approve.
pub can_approve_changes-granted :
    (r : Role) (score : Option ℕ) (sensitive : Bool)
    → (can_approve_changes r score sensitive ≡ granted)
      ↔ (IsSenior r ⊎ ((r ≡ reviewer) × (¬ IsElevated score sensitive)))
unfolding can_approve_changes
can_approve_changes-granted owner none true = ground arith
can_approve_changes-granted _ none false = ground arith
can_approve_changes-granted _ _ _ = ground arith
