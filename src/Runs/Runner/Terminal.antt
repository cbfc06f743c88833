-- ===== src/Runs/Runner/Terminal.antt =====
-- A run that is over stays over.
use agentic_ai_software_engi.Base.{
  Text, text_eq, Bool, true, ◌≡◌, refl, sym, ◌∙◌, subst, ◌⊎◌, Option, none, some, List,
  if◌then◌else◌, [], ◌∷◌, ◌==◌, arith, is_set, ap, Bool-cases, Option-cases, inl, inr, ==_refl,
  ==_sound,
}
use agentic_ai_software_engi.Base.Dict.{lookup, lookup-insert_self}
use agentic_ai_software_engi.Vcs.Diff.{ApprovalDecision}
use agentic_ai_software_engi.Pipeline.State.{AgentState}
use agentic_ai_software_engi.Runs.Record.{RunRecord, Runs, cancelled, is_terminal}
use agentic_ai_software_engi.Runs.Store.{get_run}
use agentic_ai_software_engi.Runs.Runner.{
  Snapshot, GraphInput, Invoked, Runner, Refusal, run_not_found, unreadable, run_cancelled,
  run_terminal, refused, assigned_org, track, may_access, check_tenant_access, require_org,
  resume_refusal, RunAnswer,
}
use agentic_ai_software_engi.Runs.Runner.Tenancy.{track-frame}
use agentic_ai_software_engi.Runs.Runner.Calls.{with_access, resume_on, resume_run}

-- The runner remembers the organization of the run.
abbrev pub IsTracked : Text → Text → Runner → Type 0
IsTracked id org s = (lookup id s.run_tenants ≡ some org) × (is_set (some org) ≡ true)

pub assigned_org-IsTracked :
    (id org : Text) (snap : Option Snapshot) (s : Runner)
    → IsTracked id org s
    → assigned_org id snap s ≡ some org
unfolding assigned_org
assigned_org-IsTracked id org snap s h = rw (h.0, h.1) refl

track-IsTracked :
    (id org : Text) (snap : Option Snapshot) (s : Runner) → IsTracked id org s → track id snap s ≡ s
unfolding track
track-IsTracked id org snap s h = rw (h.0, h.1) refl

pub check_tenant_access-IsTracked :
    (production : Bool) (id org : Text) (o : Option Text) (snap : Option Snapshot) (s : Runner)
    → IsTracked id org s
    → check_tenant_access production id o snap s ≡ (s, may_access production o (some org))
unfolding check_tenant_access
check_tenant_access-IsTracked production id org o snap s h =
    rw (assigned_org-IsTracked id org snap s h, track-IsTracked id org snap s h)
      (elim (Bool-cases (is_set o)) [ inl e ↦ rw e refl | inr e ↦ rw e refl ])

-- A caller that may access the run acts for its organization.
require_org-may_access :
    (production : Bool) (org : Text) (o : Option Text)
    → (is_set (some org) ≡ true)
    → (may_access production o (some org) ≡ true)
    → require_org production o (some org) ≡ some org
unfolding require_org may_access
require_org-may_access production org none k h = rw k refl
require_org-may_access production org (some []) k h = rw k refl
require_org-may_access production org (some (c ∷ x)) k h =
    let e : (org == (c ∷ x)) ≡ true = ground arith in ap some (sym (==_sound org (c ∷ x) e))

resume_refusal-is_over :
    (next : List Text) (r : RunRecord)
    → (is_terminal r.status ≡ true)
    → (x : Refusal) × (resume_refusal next (some r) ≡ some x)
unfolding resume_refusal
resume_refusal-is_over next r k = elim (Bool-cases (r.status == cancelled)) [
  | inl e ↦ (run_cancelled, rw e refl)
  | inr e ↦ (run_terminal, rw (e, k) refl)
]

pub get_run-own :
    (id : Text) (t : Runs) (r : RunRecord)
    → (lookup id t ≡ some r)
    → (is_set (some r.organization_id) ≡ true)
    → get_run id (some r.organization_id) t ≡ some r
unfolding get_run
get_run-own id t r e k = rw (e, k, ==_refl r.organization_id) refl

track-unless :
    (id org : Text) (o : Option Text) (snap : Option Snapshot) (s : Runner)
    → IsTracked id org s
    → (if is_set o then s else track id snap s) ≡ s
track-unless id org o snap s h =
    rw (track-IsTracked id org snap s h)
      (elim (Bool-cases (is_set o)) [ inl e ↦ rw e refl | inr e ↦ rw e refl ])

resume_on-over :
    (production : Bool) (now id : Text) (o : Option Text) (snap : Snapshot)
    (decision : ApprovalDecision) (invoke : Text → GraphInput → Runs → Invoked) (s : Runner)
    (r : RunRecord)
    → (lookup id s.runs ≡ some r)
    → (is_terminal r.status ≡ true)
    → IsTracked id r.organization_id s
    → (may_access production o (some r.organization_id) ≡ true)
    → (v : Option AgentState)
    → (x : Refusal) × (resume_on production now invoke id decision o v snap s ≡ (refused x, s))
resume_on-over production now id o snap decision invoke s r e k h ok none = (run_not_found, refl)
resume_on-over production now id o snap decision invoke s r e k h ok (some v) =
    let (x, q) = resume_refusal-is_over snap.next r k in
    (
      x,
      rw
          (
            assigned_org-IsTracked id r.organization_id (some snap) s h,
            require_org-may_access production r.organization_id o h.1 ok,
            track-unless id r.organization_id o (some snap) s h,
            get_run-own id s.runs r e h.1,
            q,
          )
          refl,
    )

pub resume_run-tracked :
    (production : Bool) (now id : Text) (o : Option Text) (snap : Option Snapshot)
    (decision : ApprovalDecision) (invoke : Text → GraphInput → Runs → Invoked) (s : Runner)
    (r : RunRecord)
    → (lookup id s.runs ≡ some r)
    → (is_terminal r.status ≡ true)
    → IsTracked id r.organization_id s
    → (x : Refusal) × (resume_run production now invoke id decision o snap s ≡ (refused x, s))
unfolding resume_run with_access
resume_run-tracked production now id o snap decision invoke s r e k h =
    let c = λ (y : Option Snapshot).
      check_tenant_access-IsTracked production id r.organization_id o y s h in
    elim (Bool-cases (may_access production o (some r.organization_id))) [
      | inr off ↦ (run_not_found, rw (c none, off) refl)
      | inl ok ↦ elim (Option-cases snap) [
        | inl n ↦ (unreadable, rw (n, c none, ok) refl)
        | inr (read, y) ↦
            let (x, q) =
              resume_on-over production now id o read decision invoke s r e k h ok read.values in
            (x, rw (y, c none, ok) (rw (c (some read), ok) q))
      ]
    ]

assigned_org-known :
    (id : Text) (snap : Option Snapshot) (s : Runner)
    → (is_set (lookup id s.run_tenants) ≡ true)
    → assigned_org id snap s ≡ lookup id s.run_tenants
unfolding assigned_org
assigned_org-known id snap s e = rw e refl

pub track-assigned :
    (id org : Text) (s : Runner)
    → (assigned_org id none s ≡ some org)
    → (is_set (some org) ≡ true)
    → IsTracked id org (track id none s)
unfolding track
track-assigned id org s a k = elim (Bool-cases (is_set (lookup id s.run_tenants))) [
  | inl e ↦ rw e (sym (assigned_org-known id none s e) ∙ a, k)
  | inr e ↦ rw (e, a, k) (lookup-insert_self id org s.run_tenants, refl)
]

with_access-track :
    (production : Bool) (id org : Text) (o : Option Text) (snap : Option Snapshot) (s : Runner)
    (rest : Snapshot → Runner → RunAnswer × Runner)
    → (is_set o ≡ true)
    → (assigned_org id none s ≡ some org)
    → IsTracked id org (track id none s)
    → with_access production id o snap s rest
      ≡ with_access production id o snap (track id none s) rest
unfolding with_access check_tenant_access
with_access-track production id org o snap s rest k a h =
    rw
      (
        k,
        a,
        assigned_org-IsTracked id org none (track id none s) h,
        track-IsTracked id org none (track id none s) h,
      )
      refl

-- When the store holds a run as finished, failed, blocked or cancelled and its organization is known, to
-- the runner or from the store, then no caller resumes it that names an organization, nor one that
-- names none where the runner remembers the run's, with any decision and whatever its checkpoint
-- shows: the call is refused, and it does not enter the graph or change the store.
pub resume_run-over :
    (production : Bool) (now id : Text) (o : Option Text) (snap : Option Snapshot)
    (decision : ApprovalDecision) (invoke : Text → GraphInput → Runs → Invoked) (s : Runner)
    (r : RunRecord)
    → (lookup id s.runs ≡ some r)
    → (is_terminal r.status ≡ true)
    → (is_set (some r.organization_id) ≡ true)
    → (assigned_org id none s ≡ some r.organization_id)
    → ((lookup id s.run_tenants ≡ some r.organization_id) ⊎ (is_set o ≡ true))
    → ((x : Refusal) × (resume_run production now invoke id decision o snap s
          ≡ (refused x, track id none s)))
      × ((track id none s).runs ≡ s.runs)
      × ((track id none s).invocations ≡ s.invocations)
unfolding resume_run
resume_run-over production now id o snap decision invoke s r e t k a known =
    let s' = track id none s in
    let h = track-assigned id r.organization_id s a k in
    let (same_runs, _, same_invocations) = track-frame id none s in
    let there : lookup id s'.runs ≡ some r = subst (λ x. lookup id x ≡ some r) (sym same_runs) e in
    let (x, q) = resume_run-tracked production now id o snap decision invoke s' r there t h in
    elim known [
      | inl m ↦
          let still = track-IsTracked id r.organization_id none s (m, k) in
          (
            (x, ap (λ u. resume_run production now invoke id decision o snap u) (sym still) ∙ q),
            same_runs,
            same_invocations,
          )
      | inr y ↦ (
        (x, with_access-track production id r.organization_id o snap s _ y a h ∙ q),
        same_runs,
        same_invocations,
      )
    ]
