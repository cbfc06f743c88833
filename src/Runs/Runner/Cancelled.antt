-- ===== src/Runs/Runner/Cancelled.antt =====
-- A cancelled run is not resumed.
use agentic_ai_software_engi.Base.{
  Text, text_eq, Bool, true, false, ◌≡◌, refl, sym, subst, Option, none, some, ◌==◌, is_set,
  ==_refl, List, All, ap, ◌∙◌,
}
use agentic_ai_software_engi.Base.Dict.{lookup, insert, lookup-insert_self}
use agentic_ai_software_engi.Vcs.Diff.{ApprovalDecision}
use agentic_ai_software_engi.Runs.Record.{
  RunRecord, Runs, cancelled, waiting_approval, is_terminal, terminal_run_statuses,
}
use agentic_ai_software_engi.Runs.Store.{requested, request_cancellation, update, with_request}
use agentic_ai_software_engi.Runs.Store.Evolution.{Op, apply_all, Held, Evolves}
use agentic_ai_software_engi.Runs.Store.Sequence.{IsTransition, apply_all-Evolves}
use agentic_ai_software_engi.Runs.Runner.{
  RunAnswer, Snapshot, GraphInput, Invoked, Runner, Refusal, refused, respond, assigned_org, track,
  may_access, check_tenant_access, require_org,
}
use agentic_ai_software_engi.Runs.Runner.Calls.{resume_run, cancel_run}
use agentic_ai_software_engi.Runs.Runner.Tenancy.{track-frame}
use agentic_ai_software_engi.Runs.Runner.Terminal.{
  IsTracked, check_tenant_access-IsTracked, get_run-own, resume_run-tracked, track-assigned,
}

waiting-is_terminal : is_terminal waiting_approval ≡ false
unfolding is_terminal terminal_run_statuses waiting_approval cancelled text_eq
waiting-is_terminal = refl

waiting-cancelled : (waiting_approval == cancelled) ≡ false
unfolding waiting_approval cancelled text_eq
waiting-cancelled = refl

cancelled-is_terminal : is_terminal cancelled ≡ true
unfolding is_terminal terminal_run_statuses cancelled text_eq
cancelled-is_terminal = refl

-- A run that waits for its approval is cancelled at once.
request_cancellation-waiting :
    (now id : Text) (reason actor : Option Text) (t : Runs) (r : RunRecord)
    → (lookup id t ≡ some r)
    → (r.status ≡ waiting_approval)
    → (r.cancel_requested ≡ false)
    → (is_set (some r.organization_id) ≡ true)
    → request_cancellation now id (some r.organization_id) reason actor t
      ≡ (requested, insert id (with_request now reason actor cancelled r) t)
unfolding request_cancellation update
request_cancellation-waiting now id reason actor t r e w c k =
    let not_cancelled : (r.status == cancelled) ≡ false =
      subst (λ x. (x == cancelled) ≡ false) (sym w) waiting-cancelled in
    let not_over : is_terminal r.status ≡ false =
      subst (λ x. is_terminal x ≡ false) (sym w) waiting-is_terminal in
    let waits : (r.status == waiting_approval) ≡ true =
      subst (λ x. (x == waiting_approval) ≡ true) (sym w) (==_refl waiting_approval) in
    rw
      (
        get_run-own id t r e k,
        not_cancelled,
        not_over,
        e,
        c,
        ==_refl r.organization_id,
        not_over,
        waits,
      )
      refl

may_access-own :
    (production : Bool) (org : Text)
    → (is_set (some org) ≡ true)
    → may_access production (some org) (some org) ≡ true
unfolding may_access
may_access-own production org k = rw (k, ==_refl org) refl

check_tenant_access-own :
    (production : Bool) (id org : Text) (s : Runner)
    → (is_set (some org) ≡ true)
    → (assigned_org id none s ≡ some org)
    → check_tenant_access production id (some org) none s ≡ (track id none s, true)
unfolding check_tenant_access
check_tenant_access-own production id org s k a = rw (k, a, may_access-own production org k) refl

require_org-own :
    (production : Bool) (org : Text) (a : Option Text)
    → (is_set (some org) ≡ true)
    → require_org production (some org) a ≡ some org
unfolding require_org
require_org-own production org a k = rw k refl

cancel_run-waiting :
    (production : Bool) (now id : Text) (reason actor : Option Text) (snap : Option Snapshot)
    (s : Runner) (r : RunRecord)
    → (lookup id s.runs ≡ some r)
    → (r.status ≡ waiting_approval)
    → (r.cancel_requested ≡ false)
    → (is_set (some r.organization_id) ≡ true)
    → (assigned_org id none s ≡ some r.organization_id)
    → cancel_run production now id (some r.organization_id) reason actor snap s ≡ (
      respond cancelled snap,
      record (track id none s) {
        runs = insert id (with_request now reason actor cancelled r) (track id none s).runs;
      },
    )
unfolding cancel_run
cancel_run-waiting production now id reason actor snap s r e w c k a =
    let s' = track id none s in
    let org = r.organization_id in
    let h = track-assigned id org s a k in
    let there : lookup id s'.runs ≡ some r =
      subst (λ t. lookup id t ≡ some r) (sym (track-frame id none s).0) e in
    let x = with_request now reason actor cancelled r in
    rw
      (
        check_tenant_access-own production id org s k a,
        check_tenant_access-IsTracked production id org (some org) snap s' h,
        may_access-own production org k,
        require_org-own production org (assigned_org id snap s') k,
        k,
        request_cancellation-waiting now id reason actor s'.runs r there w c k,
        get_run-own id (insert id x s'.runs) x (lookup-insert_self id x s'.runs) k,
      )
      refl

-- A terminal row is still there, for the same organization and with the same status.
terminal-kept :
    (r : RunRecord) (o : Option RunRecord)
    → (is_terminal r.status ≡ true)
    → Held Evolves (some r) o
    → (r' : RunRecord) × (o ≡ some r')
      × (is_terminal r'.status ≡ true)
      × (r'.organization_id ≡ r.organization_id)
terminal-kept r none t h = absurd h
terminal-kept r (some r') t h =
    let (owner, final) = h.1 in
    (r', refl, subst (λ x. is_terminal x ≡ true) (sym (final t)) t, owner)

-- Once the organization of a run has cancelled it while it waits for its approval, the run is CANCELLED.
-- After any further requests, finalized cancellations, heartbeats and marks as stuck, of this and of
-- other runs, and while the runner remembers whose the run is, no caller resumes it, with any decision,
-- whatever its checkpoint shows: the call is refused, and it changes nothing and does not enter the
-- graph. Calls that write the whole record of the run, as a new start of it does, are not among those.
pub cancel_run-refuses_resume :
    (production : Bool) (now now' id : Text) (o reason actor : Option Text)
    (snap snap' : Option Snapshot) (decision : ApprovalDecision)
    (invoke : Text → GraphInput → Runs → Invoked) (ops : List Op) (s later : Runner) (r : RunRecord)
    → (lookup id s.runs ≡ some r)
    → (r.status ≡ waiting_approval)
    → (r.cancel_requested ≡ false)
    → (is_set (some r.organization_id) ≡ true)
    → (assigned_org id none s ≡ some r.organization_id)
    → All IsTransition ops
    → (later.runs
        ≡ apply_all ops
            (cancel_run production now id (some r.organization_id) reason actor snap s).1.runs)
    → (lookup id later.run_tenants
        ≡ lookup id
            (cancel_run production now id
              (some r.organization_id)
              reason
              actor
              snap
              s).1.run_tenants)
    → ((cancel_run production now id (some r.organization_id) reason actor snap s).0
        ≡ respond cancelled snap)
      × ((x : Refusal) × (resume_run production now' invoke id decision o snap' later
            ≡ (refused x, later)))
cancel_run-refuses_resume production now now' id o reason actor snap snap' decision invoke ops s
      later r e w c k a d same_runs same_tenants =
    let x = with_request now reason actor cancelled r in
    let q = cancel_run-waiting production now id reason actor snap s r e w c k a in
    let t = insert id x (track id none s).runs in
    let there = lookup-insert_self id x (track id none s).runs in
    let held =
      subst (λ y. Held Evolves y (lookup id (apply_all ops t))) there
        (apply_all-Evolves ops d t id) in
    let (r', at, over, owner) =
      terminal-kept x (lookup id (apply_all ops t)) cancelled-is_terminal held in
    let runs : later.runs ≡ apply_all ops t =
      same_runs ∙ ap (λ (y : RunAnswer × Runner). apply_all ops y.1.runs) q in
    let tenants : lookup id later.run_tenants ≡ lookup id (track id none s).run_tenants =
      same_tenants ∙ ap (λ (y : RunAnswer × Runner). lookup id y.1.run_tenants) q in
    let h = track-assigned id r.organization_id s a k in
    let tracked : IsTracked id r'.organization_id later =
      subst (λ y. IsTracked id y later) (sym owner) (tenants ∙ h.0, h.1) in
    (
      ap (λ (y : RunAnswer × Runner). y.0) q,
      resume_run-tracked production now' id o snap' decision invoke later r'
          (ap (λ u. lookup id u) runs ∙ at) over tracked,
    )
