-- ===== src/Runs/Runner/Tenancy.antt =====
-- What a call of the runner shows to another organization.
use agentic_ai_software_engi.Base.{
  Text, text_eq, Bool, true, false, ◌≡◌, refl, ◌≢◌, Option, none, is_set, opt_text, Bool-cases, inl,
  inr, ne-==,
}
use agentic_ai_software_engi.Base.Dict.{lookup}
use agentic_ai_software_engi.Vcs.Diff.{ApprovalDecision}
use agentic_ai_software_engi.Runs.Record.{Runs}
use agentic_ai_software_engi.Runs.Runner.{
  Snapshot, GraphInput, Invoked, Runner, run_not_found, refused, assigned_org, track, may_access,
  check_tenant_access,
}
use agentic_ai_software_engi.Runs.Runner.Calls.{with_access, resume_run, cancel_run}
use agentic_ai_software_engi.Runs.Runner.Status.{get_state_values, get_status}

pub may_access-foreign :
    (production : Bool) (o a : Option Text)
    → (is_set o ≡ true)
    → (is_set a ≡ true)
    → (opt_text a ≢ opt_text o)
    → may_access production o a ≡ false
unfolding may_access
may_access-foreign production o a k q n = rw (k, q, ne-== (opt_text a) (opt_text o) n) refl

check_tenant_access-foreign :
    (production : Bool) (id : Text) (o : Option Text) (s : Runner)
    → (is_set o ≡ true)
    → (is_set (assigned_org id none s) ≡ true)
    → (opt_text (assigned_org id none s) ≢ opt_text o)
    → check_tenant_access production id o none s ≡ (track id none s, false)
unfolding check_tenant_access
check_tenant_access-foreign production id o s k q n =
    rw (k, may_access-foreign production o (assigned_org id none s) k q n) refl

-- The runner remembers the organization of a run, and changes nothing else.
pub track-frame :
    (id : Text) (snap : Option Snapshot) (s : Runner)
    → ((track id snap s).runs ≡ s.runs)
      × ((track id snap s).active_runs ≡ s.active_runs)
      × ((track id snap s).invocations ≡ s.invocations)
unfolding track
track-frame id snap s = elim (Bool-cases (is_set (lookup id s.run_tenants))) [
  | inl e ↦ rw e (refl, refl, refl)
  | inr e ↦ elim (Bool-cases (is_set (assigned_org id snap s))) [
    | inl k ↦ rw (e, k) (refl, refl, refl)
    | inr k ↦ rw (e, k) (refl, refl, refl)
  ]
]

-- When the runner or the store knows a run as one of some organization, then a caller of another
-- organization gets from get_state_values, get_status, resume_run and cancel_run the answer for a run that
-- does not exist, whatever its checkpoint holds. Neither the store nor the graph is touched. (The calls
-- that begin a run, register_run and start_run, do not ask whose the identifier is.)
pub foreign_caller :
    (production : Bool) (now id : Text) (o reason actor : Option Text) (snap : Option Snapshot)
    (decision : ApprovalDecision) (invoke : Text → GraphInput → Runs → Invoked) (s : Runner)
    → (is_set o ≡ true)
    → (is_set (assigned_org id none s) ≡ true)
    → (opt_text (assigned_org id none s) ≢ opt_text o)
    → (get_state_values production id o snap s ≡ (refused run_not_found, track id none s))
      × (get_status production id o snap s ≡ (refused run_not_found, track id none s))
      × (resume_run production now invoke id decision o snap s
          ≡ (refused run_not_found, track id none s))
      × (cancel_run production now id o reason actor snap s
          ≡ (refused run_not_found, track id none s))
      × ((track id none s).runs ≡ s.runs)
      × ((track id none s).active_runs ≡ s.active_runs)
      × ((track id none s).invocations ≡ s.invocations)
unfolding get_state_values get_status resume_run cancel_run with_access
foreign_caller production now id o reason actor snap decision invoke s k q n =
    let c = check_tenant_access-foreign production id o s k q n in
    let (same_runs, same_active, same_invocations) = track-frame id none s in
    (rw c refl, rw c refl, rw c refl, rw c refl, same_runs, same_active, same_invocations)
