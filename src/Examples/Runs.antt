-- ===== src/Examples/Runs.antt =====
-- The run store, the watchdog, the audit log, the idempotency store and the fallback of providers at
-- concrete inputs.
use agentic_ai_software_engi.Base.{
  ℕ, Text, codes, text_eq, pair_eq, true, false, ◌≡◌, refl, ◌≢◌, Option, none, some, List, [], ◌∷◌,
  All, same_text, texts_differ,
}
use agentic_ai_software_engi.Base.Dict.{lookup}
use agentic_ai_software_engi.Runs.Record.{
  RunRecord, Runs, cancelled, cancelling, waiting_approval, is_terminal, terminal_run_statuses,
}
use agentic_ai_software_engi.Runs.Store.{
  get_run, request_cancellation, requested, not_found, mark_cancelled, is_cancel_requested,
  update_activity, mark_stuck, update,
}
use agentic_ai_software_engi.Runs.Store.Evolution.{
  Op, request, cancel, activity, stuck, apply_all, Held, Keeps, Evolves,
}
use agentic_ai_software_engi.Runs.Store.Sequence.{apply_all-Keeps, apply_all-Evolves}
use agentic_ai_software_engi.Runs.Store.Cancellation.{request_cancellation-once}
use agentic_ai_software_engi.Runs.Store.Tenancy.{foreign_organization}
use agentic_ai_software_engi.Runs.Watchdog.{check_once}
use agentic_ai_software_engi.Runs.Watchdog.Passes.{NewlyMarked, check_once-NewlyMarked}

abbrev r1 : Text
r1 = codes "r1"

abbrev acme : Text
acme = codes "acme"

abbrev running : RunRecord
running = record {
  organization_id = acme;
  created_at = codes "t0";
  started_at = none;
  status = codes "RUNNING";
  revision_count = 0;
  cancel_requested = false;
  cancellation_requested_at = none;
  cancellation_requested_by = none;
  cancellation_reason = none;
  cancelled_at = none;
  last_activity_at = none;
  current_phase = none;
  stuck_at = none;
}

abbrev one_run : Runs
one_run = (r1, running) ∷ []

abbrev some_ops : List Op
some_ops =
    request (codes "t1") r1 (some acme) none none
    ∷ cancel (codes "t2") r1 (some acme)
    ∷ activity (codes "t3") r1 none none
    ∷ stuck (codes "t4") r1 acme
    ∷ []

apply_all-Keeps_example : Held Keeps (lookup r1 one_run) (lookup r1 (apply_all some_ops one_run))
apply_all-Keeps_example = apply_all-Keeps some_ops one_run r1

apply_all-Evolves_example :
    Held Evolves (lookup r1 one_run) (lookup r1 (apply_all some_ops one_run))
apply_all-Evolves_example = apply_all-Evolves some_ops (tt, (tt, (tt, (tt, tt)))) one_run r1

recorded : (request_cancellation (codes "t1") r1 (some acme) none none one_run).0 ≡ requested
unfolding request_cancellation get_run update lookup text_eq cancelled cancelling waiting_approval
    is_terminal terminal_run_statuses
recorded = refl

request_cancellation-once_example :
    ((request_cancellation (codes "t9") r1 (some acme) none none (
        apply_all some_ops
          (request_cancellation (codes "t1") r1 (some acme) none none one_run).1)).0
      ≢ requested)
    × (is_cancel_requested r1 none (
          apply_all some_ops (request_cancellation (codes "t1") r1 (some acme) none none one_run).1)
        ≡ true)
request_cancellation-once_example =
    request_cancellation-once some_ops (codes "t1") (codes "t9") r1 (some acme) (some acme) none
      none none none one_run recorded

marked : (mark_stuck (codes "t1") r1 acme one_run).1 ≡ true
unfolding mark_stuck update lookup text_eq
marked = refl

r1_there : lookup r1 one_run ≡ some running
unfolding lookup text_eq
r1_there = refl

acme-ne-evil : acme ≢ codes "evil"
unfolding same_text
acme-ne-evil = texts_differ _ _ refl

foreign_organization_example :
    (get_run r1 (some (codes "evil")) one_run ≡ none)
    × (request_cancellation (codes "t1") r1 (some (codes "evil")) none none one_run
        ≡ (not_found, one_run))
    × (mark_cancelled (codes "t1") r1 (some (codes "evil")) one_run ≡ (one_run, false))
    × (is_cancel_requested r1 (some (codes "evil")) one_run ≡ false)
    × (update_activity (codes "t1") r1 (some (codes "evil")) none one_run ≡ one_run)
    × (mark_stuck (codes "t1") r1 (codes "evil") one_run ≡ (one_run, false))
foreign_organization_example =
    foreign_organization (codes "t1") r1 (codes "evil") none none none one_run running r1_there refl
      acme-ne-evil

abbrev fifteen_minutes : Text → Option ℕ
fifteen_minutes status = some 900

abbrev an_hour : Text → Option ℕ
an_hour stamp = some 3600

check_once-NewlyMarked_example :
    All
      (NewlyMarked fifteen_minutes an_hour true
        (codes "t5")
        one_run
        (check_once fifteen_minutes an_hour true (codes "t5") one_run).0)
      (check_once fifteen_minutes an_hour true (codes "t5") one_run).1
check_once-NewlyMarked_example =
    check_once-NewlyMarked fifteen_minutes an_hour true (codes "t5") one_run
