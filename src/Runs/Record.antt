-- ===== src/Runs/Record.antt =====
-- The columns of the table `runs` that decide on a run's life, and its statuses
-- (backend/schemas/telemetry.py). The key `run_id` is the key of the table, not a field.
use agentic_ai_software_engi.Base.{ℕ, Text, codes, text_eq, Bool, Option, List, [], ◌∷◌, elem}
use agentic_ai_software_engi.Base.Dict.{Dict}

pub record RunRecord : Type 0 where
  pub organization_id : Text
  pub created_at : Text
  pub started_at : Option Text
  pub status : Text
  pub revision_count : ℕ
  pub cancel_requested : Bool
  pub cancellation_requested_at : Option Text
  pub cancellation_requested_by : Option Text
  pub cancellation_reason : Option Text
  pub cancelled_at : Option Text
  pub last_activity_at : Option Text
  pub current_phase : Option Text
  pub stuck_at : Option Text

-- `run_id` is the primary key.
abbrev pub Runs : Type 0
Runs = Dict Text RunRecord

unfoldable pub cancelled : Text
cancelled = codes "CANCELLED"

unfoldable pub cancelling : Text
cancelling = codes "CANCELLING"

unfoldable pub waiting_approval : Text
waiting_approval = codes "WAITING_APPROVAL"

unfoldable pub terminal_run_statuses : List Text
unfolding cancelled
terminal_run_statuses = codes "COMPLETED" ∷ codes "FAILED" ∷ cancelled ∷ codes "BLOCKED" ∷ []

unfoldable pub is_terminal : Text → Bool
is_terminal s = elem s terminal_run_statuses

unfoldable pub watchdog_tracked_statuses : List Text
unfolding waiting_approval cancelling
watchdog_tracked_statuses =
    codes "RUNNING" ∷ codes "REVISING" ∷ waiting_approval ∷ codes "PUBLISHING" ∷ cancelling ∷ []
