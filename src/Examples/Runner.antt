-- ===== src/Examples/Runner.antt =====
-- The runner at concrete inputs.
use agentic_ai_software_engi.Base.{
  List, Text, codes, text_eq, pair_eq, true, false, ◌≡◌, refl, ◌≢◌, inr, Option, none, some, [],
  ◌∷◌, is_set, opt_text, same_text, texts_differ,
}
use agentic_ai_software_engi.Base.Dict.{lookup, insert, erase}
use agentic_ai_software_engi.Words
use agentic_ai_software_engi.Quality.Schema.{QaResult}
use agentic_ai_software_engi.Vcs.Diff.{ApprovalDecision}
use agentic_ai_software_engi.Pipeline.State.{AgentState}
use agentic_ai_software_engi.Runs.Record.{
  RunRecord, Runs, cancelled, waiting_approval, is_terminal, terminal_run_statuses,
}
use agentic_ai_software_engi.Runs.Store.{get_run, create_or_update_run}
use agentic_ai_software_engi.Runs.Store.Evolution.{Op, activity, cancel, apply_all}
use agentic_ai_software_engi.Runs.Collector.{
  failed, completed, queued, default_org, resolve_org, on_run_created, on_run_started,
  on_run_completed, on_approval_requested,
}
use agentic_ai_software_engi.Runs.Runner.{
  Snapshot, GraphInput, Invoked, returned, Runner, Refusal, run_not_found, RunAnswer, refused,
  respond, assigned_org, track, derive_status, require_org,
}
use agentic_ai_software_engi.Runs.Runner.Calls.{
  start_run, resume_run, cancel_run, settle_run, running,
}
use agentic_ai_software_engi.Runs.Runner.Status.{get_state_values, get_status}
use agentic_ai_software_engi.Runs.Runner.Tenancy.{foreign_caller}
use agentic_ai_software_engi.Runs.Runner.Terminal.{resume_run-over}
use agentic_ai_software_engi.Runs.Runner.Cancelled.{cancel_run-refuses_resume}

abbrev r7 : Text
r7 = codes "r7"

abbrev owner : Text
owner = codes "acme"

abbrev stranger : Option Text
stranger = some (codes "evil")

abbrev unpassed_result : QaResult
unpassed_result = record {
  status = Words.fail;
  confidence = 0;
  regression_risk = [];
  checks = [];
  failure_category = none;
  issues = [];
  test_cases = [];
  summary = [];
}

abbrev exhausted : AgentState
exhausted = record {
  organization_id = some owner;
  project_id = none;
  run_id = some r7;
  routing = none;
  qa_result = some unpassed_result;
  test_result = none;
  revision_count = 3;
  approval_status = none;
  generated_patches = [];
  git_diff = none;
  approval = none;
  patch_hash = none;
  policy_config = none;
  policy_result = none;
}

abbrev at_approval : Snapshot
at_approval = record {
  values = some exhausted;
  next = codes "approval" ∷ [];
  tasks = record { name = codes "approval"; has_error = false; has_interrupts = true } ∷ [];
}

abbrev at_end : Snapshot
at_end = record { values = some exhausted; next = []; tasks = [] }

abbrev ends : Text → GraphInput → Runs → Invoked
ends id i t = returned false at_end t

abbrev waiting_run : RunRecord
waiting_run = record (queued (codes "t0") owner) { status = waiting_approval }

abbrev over_run : RunRecord
over_run = record (queued (codes "t0") owner) { status = cancelled }

-- After a restart the runner remembers nothing, and the store holds the run.
abbrev restarted : Runner
restarted = record {
  run_tenants = [];
  active_runs = [];
  run_errors = [];
  runs = (r7, waiting_run) ∷ [];
  invocations = [];
}

abbrev with_over : Runner
with_over = record restarted { run_tenants = (r7, owner) ∷ []; runs = (r7, over_run) ∷ [] }

abbrev yes : ApprovalDecision
yes = record {
  approved = true;
  reviewer = some (codes "ann");
  rejection_reason = none;
  patch_hash = none;
  timestamp = none;
  reviewer_role = none;
  user_id = none;
}

assigned : assigned_org r7 none restarted ≡ some owner
unfolding assigned_org get_run lookup text_eq
assigned = refl

assigned_set : is_set (assigned_org r7 none restarted) ≡ true
unfolding assigned_org get_run lookup text_eq
assigned_set = refl

assigned-stranger : opt_text (assigned_org r7 none restarted) ≢ opt_text stranger
unfolding assigned_org get_run lookup text_eq same_text
assigned-stranger = texts_differ _ _ refl

foreign_caller_example :
    (get_state_values true r7 stranger (some at_approval) restarted
      ≡ (refused run_not_found, track r7 none restarted))
    × (get_status true r7 stranger (some at_approval) restarted
        ≡ (refused run_not_found, track r7 none restarted))
    × (resume_run true (codes "t1") ends r7 yes stranger (some at_approval) restarted
        ≡ (refused run_not_found, track r7 none restarted))
    × (cancel_run true (codes "t1") r7 stranger none none (some at_approval) restarted
        ≡ (refused run_not_found, track r7 none restarted))
    × ((track r7 none restarted).runs ≡ restarted.runs)
    × ((track r7 none restarted).active_runs ≡ restarted.active_runs)
    × ((track r7 none restarted).invocations ≡ restarted.invocations)
foreign_caller_example =
    foreign_caller true (codes "t1") r7 stranger none none (some at_approval) yes ends restarted
      refl assigned_set assigned-stranger

over_there : lookup r7 with_over.runs ≡ some over_run
unfolding lookup text_eq
over_there = refl

over_assigned : assigned_org r7 none with_over ≡ some owner
unfolding assigned_org get_run lookup text_eq
over_assigned = refl

cancelled_over : is_terminal cancelled ≡ true
unfolding is_terminal terminal_run_statuses cancelled text_eq
cancelled_over = refl

resume_run-over_example :
    ((x : Refusal) × (resume_run true
          (codes "t1")
          ends
          r7
          yes
          (some owner)
          (some at_approval)
          with_over
        ≡ (refused x, track r7 none with_over)))
    × ((track r7 none with_over).runs ≡ with_over.runs)
    × ((track r7 none with_over).invocations ≡ with_over.invocations)
resume_run-over_example =
    resume_run-over true (codes "t1") r7 (some owner) (some at_approval) yes ends with_over over_run
      over_there cancelled_over refl over_assigned (inr refl)

waiting_there : lookup r7 restarted.runs ≡ some waiting_run
unfolding lookup text_eq
waiting_there = refl

abbrev after_cancel : Runner
after_cancel =
    (cancel_run true (codes "t1") r7 (some owner) none none (some at_approval) restarted).1

abbrev afterwards : List Op
afterwards = activity (codes "t2") r7 none none ∷ cancel (codes "t3") r7 none ∷ []

abbrev later_on : Runner
later_on = record after_cancel { runs = apply_all afterwards after_cancel.runs }

cancel_run-refuses_resume_example :
    ((cancel_run true (codes "t1") r7 (some owner) none none (some at_approval) restarted).0
      ≡ respond cancelled (some at_approval))
    × ((x : Refusal) × (resume_run true
            (codes "t4")
            ends
            r7
            yes
            (some owner)
            (some at_approval)
            later_on
          ≡ (refused x, later_on)))
cancel_run-refuses_resume_example =
    cancel_run-refuses_resume true (codes "t1") (codes "t4") r7 (some owner) none none
      (some at_approval) (some at_approval) yes ends afterwards restarted later_on waiting_run
      waiting_there refl refl refl assigned (tt, (tt, tt)) refl refl

-- Another organization that starts a run of the same identifier takes it over.
abbrev taken_over : RunAnswer × Runner
taken_over = start_run true (codes "t1") ends r7 (codes "mine now") stranger restarted

taken_over-owner :
    (lookup r7 taken_over.1.run_tenants ≡ stranger) × (assigned_org r7 none taken_over.1 ≡ stranger)
unfolding start_run require_org settle_run derive_status default_org failed completed running
    on_run_created on_run_started on_run_completed on_approval_requested resolve_org
    create_or_update_run get_run lookup insert erase text_eq waiting_approval Words.pass Words.fail
    assigned_org
taken_over-owner = (refl, refl)

-- A run that ends without a pass of the checks is answered as FAILED, but its record goes on as RUNNING.
abbrev failed_start : RunAnswer × Runner
failed_start =
    start_run true (codes "t1") ends r7 (codes "add a test") (some owner)
      (record restarted { runs = [] })

failed_start-recorded :
    (failed_start.0 ≡ respond failed (some at_end))
    × (lookup r7 failed_start.1.runs
        ≡ some (record (queued (codes "t1") owner) {
          status = codes "RUNNING";
          started_at = some (codes "t1");
        }))
unfolding start_run require_org settle_run derive_status default_org failed completed running
    on_run_created on_run_started on_run_completed on_approval_requested resolve_org
    create_or_update_run get_run lookup insert erase text_eq waiting_approval Words.pass Words.fail
failed_start-recorded = (refl, refl)
