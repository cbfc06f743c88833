-- ===== src/Runs/Runner/Calls.antt =====
-- backend/graph/runner.py, the calls of `AgentRunner` that change a run.
use agentic_ai_software_engi.Base.{
  ℕ, Text, codes, text_eq, Bool, not, Option, none, some, ◌∷◌, ◌==◌, if◌then◌else◌, is_set,
  opt_text,
}
use agentic_ai_software_engi.Base.Dict.{insert, erase}
use agentic_ai_software_engi.Vcs.Diff.{ApprovalDecision}
use agentic_ai_software_engi.Pipeline.State.{AgentState}
use agentic_ai_software_engi.Runs.Record.{RunRecord, Runs, cancelled, cancelling, waiting_approval}
use agentic_ai_software_engi.Runs.Store.{
  CancelOutcome, requested, already_cancelled, already_terminal, not_found, get_run,
  request_cancellation, mark_cancelled,
}
use agentic_ai_software_engi.Runs.Collector.{
  completed, failed, on_run_created, on_run_started, on_approval_requested, on_approval_decision,
  on_run_completed, on_run_failed,
}
use agentic_ai_software_engi.Runs.Runner.{
  Snapshot, derive_status, GraphInput, start, resume, Invoked, returned, stopped, raised, Runner,
  Refusal, run_not_found, unreadable, authentication_required, too_late, RunAnswer, refused,
  respond, assigned_org, track, check_tenant_access, require_org, resume_refusal,
}

unfoldable pub running : Text
running = codes "RUNNING"

-- The calls begin with the same two checks, before and after the checkpoint is read.
abbrev pub recheck :
    Bool
    → Text
    → Option Text
    → Option Snapshot
    → Runner
    → (Snapshot → Runner → RunAnswer × Runner)
    → RunAnswer × Runner
recheck production id o none s rest = (refused unreadable, s)
recheck production id o (some snap) s rest =
    let (s', ok) = check_tenant_access production id o (some snap) s in
    if ok then rest snap s' else (refused run_not_found, s')

unfoldable pub with_access :
    Bool
    → Text
    → Option Text
    → Option Snapshot
    → Runner
    → (Snapshot → Runner → RunAnswer × Runner)
    → RunAnswer × Runner
with_access production id o snap s rest =
    let (s', ok) = check_tenant_access production id o none s in
    if ok then recheck production id o snap s' rest else (refused run_not_found, s')

abbrev pub status_or : Text → Option RunRecord → Text
status_or status none = status
status_or status (some r) = r.status

module _ (production : Bool) (now : Text) where
  abbrev pub register_as : Text → Option Text → Option Text → Runner → Option Runner
  register_as id o none s = none
  register_as id o (some org) s = some (record s {
    run_tenants = if is_set o then insert id (opt_text o) s.run_tenants else s.run_tenants;
    active_runs = insert id running s.active_runs;
    runs = on_run_created now id org s.runs;
  })

  -- None is the PermissionError.
  unfoldable pub register_run : Text → Option Text → Runner → Option Runner
  register_run id o s = register_as id o (require_org production o none) s

  -- What a run that has ended leaves.
  abbrev pub ended : Text → Runs → Runner → Runner
  ended id t s = record s { active_runs = erase id s.active_runs; runs = t }

  abbrev pub cancelled_end : Text → Text → Option Snapshot → Runs → Runner → RunAnswer × Runner
  cancelled_end id org snap t s =
      (respond cancelled snap, ended id (mark_cancelled now id (some org) t).0 s)

  abbrev pub failed_end : Text → Text → Text → Option Snapshot → Runs → Runner → RunAnswer × Runner
  failed_end id org message snap t s =
      let s' = ended id (on_run_failed now id org t) s in
      (respond failed snap, record s' { run_errors = insert id message s'.run_errors })

  abbrev pub revisions : Option AgentState → ℕ
  revisions none = 0
  revisions (some v) = v.revision_count

  -- A start that ends in failure without an exception leaves the record as it is.
  abbrev pub start_recorded : Text → Text → Text → Snapshot → Runs → Runs
  start_recorded id org status snap t =
      if status == waiting_approval
      then on_approval_requested id org t
      else if status == completed
      then on_run_completed now id org (revisions snap.values) t
      else t

  abbrev pub resume_recorded : Text → Text → Text → Snapshot → Runs → Runs
  resume_recorded id org status snap t =
      if status == completed
      then on_run_completed now id org (revisions snap.values) t
      else if status == failed
      then on_run_failed now id org t
      else t

  unfoldable pub settle_run :
      (Text → Snapshot → Runs → Runs) → Text → Text → Invoked → Runner → RunAnswer × Runner
  settle_run recorded id org (returned marker snap t) s =
      let status = derive_status snap marker in
      (respond status (some snap), ended id (recorded status snap t) s)
  settle_run recorded id org (stopped snap t) s = cancelled_end id org snap t s
  settle_run recorded id org (raised message snap t) s = failed_end id org message snap t s

  module _ (invoke : Text → GraphInput → Runs → Invoked) where
    abbrev pub started : Text → Text → Text → Runner → RunAnswer × Runner
    started id message org s =
        let t = on_run_started now id org s.runs in
        settle_run (start_recorded id org) id org (invoke id (start message) t)
          (record s { runs = t; invocations = (id, start message) ∷ s.invocations })

    abbrev pub start_as : Text → Text → Option Text → Option Text → Runner → RunAnswer × Runner
    start_as id message org none s = (refused authentication_required, s)
    start_as id message org (some r) s = started id message r (record s {
      run_tenants = if is_set org then insert id (opt_text org) s.run_tenants else s.run_tenants;
      active_runs = insert id running s.active_runs;
      runs = on_run_created now id r s.runs;
    })

    unfoldable pub start_run : Text → Text → Option Text → Runner → RunAnswer × Runner
    start_run id message o s = start_as id message o (require_org production o none) s

    unfoldable pub resumed : Text → ApprovalDecision → Text → Runner → RunAnswer × Runner
    resumed id decision org s =
        let t = on_approval_decision id org s.runs in
        settle_run (resume_recorded id org) id org (invoke id (resume decision) t) (record s {
          active_runs = insert id running s.active_runs;
          runs = t;
          invocations = (id, resume decision) ∷ s.invocations;
        })

    abbrev pub resume_unless :
        Option Refusal → Text → ApprovalDecision → Text → Runner → RunAnswer × Runner
    resume_unless none id decision org s = resumed id decision org s
    resume_unless (some r) id decision org s = (refused r, s)

    abbrev pub resume_as :
        Text → ApprovalDecision → Option Text → Snapshot → Runner → RunAnswer × Runner
    resume_as id decision none snap s = (refused authentication_required, s)
    resume_as id decision (some org) snap s =
        resume_unless (resume_refusal snap.next (get_run id (some org) s.runs)) id decision org s

    abbrev pub resume_on :
        Text
        → ApprovalDecision
        → Option Text
        → Option AgentState
        → Snapshot
        → Runner
        → RunAnswer × Runner
    resume_on id decision o none snap s = (refused run_not_found, s)
    resume_on id decision o (some v) snap s =
        resume_as id decision (require_org production o (assigned_org id (some snap) s)) snap
          (if is_set o then s else track id (some snap) s)

    -- With the checkpoint that is read for the run.
    unfoldable pub resume_run :
        Text → ApprovalDecision → Option Text → Option Snapshot → Runner → RunAnswer × Runner
    resume_run id decision o snap s =
        with_access production id o snap s (λ read s'. resume_on id decision o read.values read s')

  abbrev pub cancel_answer : Text → Text → Option Snapshot → CancelOutcome → Runner → RunAnswer
  cancel_answer id org snap not_found s = refused run_not_found
  cancel_answer id org snap already_terminal s = refused too_late
  cancel_answer id org snap requested s =
      respond (status_or cancelling (get_run id (some org) s.runs)) snap
  cancel_answer id org snap already_cancelled s =
      respond (status_or cancelling (get_run id (some org) s.runs)) snap

  abbrev pub cancel_as :
      Text → Option Text → Option Text → Option Text → Option Snapshot → Runner → RunAnswer × Runner
  cancel_as id none reason actor snap s = (refused authentication_required, s)
  cancel_as id (some org) reason actor snap s =
      let (outcome, t) = request_cancellation now id (some org) reason actor s.runs in
      let s' = record s { runs = t } in (cancel_answer id org snap outcome s', s')

  -- A checkpoint that cannot be read is none.
  unfoldable pub cancel_run :
      Text → Option Text → Option Text → Option Text → Option Snapshot → Runner → RunAnswer × Runner
  cancel_run id o reason actor snap s =
      let (s1, ok) = check_tenant_access production id o none s in
      let (s2, ok2) = check_tenant_access production id o snap s1 in
      if not ok
      then (refused run_not_found, s1)
      else if not ok2
      then (refused run_not_found, s2)
      else cancel_as id (require_org production o (assigned_org id snap s2)) reason actor snap
          (if is_set o then s2 else track id snap s2)
