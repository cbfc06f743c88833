-- ===== src/Runs/Watchdog.antt =====
-- StuckRunWatchdog.check_once (backend/observability/watchdog.py). The configured thresholds in
-- seconds, and the seconds, rounded up, that have passed since a time stamp are arguments; none stands
-- for a status without a threshold, or a time stamp that does not parse.
pub mod Passes
use agentic_ai_software_engi.Base.{
  ℕ, Text, codes, text_eq, Bool, true, false, ◌&&◌, ◌||◌, not, Option, none, some, List, [], ◌∷◌,
  ◌++◌, ◌==◌, decimal, ltb, if◌then◌else◌, is_set, opt_text,
}
use agentic_ai_software_engi.Runs.Record.{RunRecord, Runs, is_terminal}
use agentic_ai_software_engi.Runs.Store.{
  get_run, request_cancellation, mark_stuck, list_active_runs,
}

-- `rec.last_activity_at or rec.started_at or rec.created_at`
unfoldable pub last_activity : RunRecord → Text
last_activity r =
    if is_set r.last_activity_at
    then opt_text r.last_activity_at
    else if is_set r.started_at
    then opt_text r.started_at
    else r.created_at

-- A terminal run, or one that is marked already, is passed over.
abbrev pub is_settled : RunRecord → Bool
is_settled r = is_terminal r.status || is_set r.stuck_at

abbrev exceeds : Option ℕ → Option ℕ → Bool
exceeds none threshold = false
exceeds (some elapsed) none = false
exceeds (some elapsed) (some threshold) = ltb threshold elapsed

abbrev pub is_gone : Option RunRecord → Bool
is_gone none = true
is_gone (some r) = is_settled r

module _ (thresholds : Text → Option ℕ) (elapsed : Text → Option ℕ) (auto_cancel : Bool)
    (now : Text) where
  unfoldable pub is_stale : RunRecord → Bool
  is_stale r = not (is_settled r) && exceeds (elapsed (last_activity r)) (thresholds r.status)

  abbrev seconds : Option ℕ → Text
  seconds none = []
  seconds (some n) = decimal n

  abbrev reason : Text → Option Text
  reason status = some (
      codes "Automatically cancelled: stuck in "
      ++ status
      ++ codes " for over "
      ++ seconds (thresholds status)
      ++ codes "s.")

  -- What follows once a run is marked, with the option to have it cancelled.
  abbrev pub escalate : Text → RunRecord → Runs → Runs
  escalate id r t =
      if auto_cancel
      then (request_cancellation now id (some r.organization_id) (reason r.status)
          (some (codes "watchdog")) t).1
      else t

  abbrev pub claim : Text → RunRecord → Runs × Bool → Runs × Bool
  claim id r (t, won) = if won then (escalate id r t, true) else (t, false)

  -- One round of the loop: the table, and whether this call has marked the run.
  unfoldable pub check_run : Text → RunRecord → Runs → Runs × Bool
  check_run id r t =
      if is_stale r && not (is_gone (get_run id (some r.organization_id) t))
      then claim id r (mark_stuck now id r.organization_id t)
      else (t, false)

  unfoldable pub check_all : Runs → Runs → Runs × List Text
  check_all [] t = (t, [])
  check_all ((id, r) ∷ rows) t =
      let (t', won) = check_run id r t in
      let (t'', newly_stuck) = check_all rows t' in
      (t'', if won then id ∷ newly_stuck else newly_stuck)

  unfoldable pub check_once : Runs → Runs × List Text
  check_once t = check_all (list_active_runs t) t
