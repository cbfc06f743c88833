-- ===== src/Vcs/Lock.antt =====
-- backend/vcs/workspace_lock.py: the locks on workspaces. A section under the global lock, a call of
-- the operating system and an operation on a thread lock is one step each, and any thread may make the
-- next one. A descriptor is numbered once, as the kernel's open file description is; thread locks are
-- objects, numbered too. Metadata, time stamps and telemetry are left out, and a platform with file
-- locks is supposed.
pub mod Step
pub mod Descriptors
pub mod Invariant
pub mod Registry
pub mod Safety
pub mod Ownership
pub mod Progress
pub mod Exclusion
use agentic_ai_software_engi.Base.{
  ℕ, ◌+◌, ◌-◌, Text, codes, text_eq, nat_eq, Bool, true, false, ◌&&◌, ◌||◌, not, Option, none, some,
  List, [], ◌∷◌, ◌++◌, ◌==◌, leb, ltb, if◌then◌else◌, strip, map, or_text, opt_text, is_set,
}
use agentic_ai_software_engi.Base.Dict.{Dict, lookup, insert, erase}
use agentic_ai_software_engi.Runs.Record.{is_terminal}

-- Keep letters, digits, hyphens, underscores and dots.
unfoldable pub is_key_char : ℕ → Bool
is_key_char c =
    (leb b'a' c && leb c b'z')
    || ((leb b'A' c && leb c b'Z')
        || ((leb b'0' c && leb c b'9') || (c == b'_' || (c == b'-' || c == b'.'))))

unfoldable pub sanitize_key : Text → Text
sanitize_key t = map (λ c. if is_key_char c then c else b'_') t

unfoldable pub normalize_resource_id : Option Text → Text
normalize_resource_id resource_id =
    or_text (sanitize_key (strip (or_text (opt_text resource_id) (codes "default"))))
      (codes "default")

unfoldable pub get_resource_key : Text → Option Text → Text
get_resource_key organization_id resource_id =
    sanitize_key (strip (or_text organization_id (codes "default-org")))
    ++ (b':' ∷ normalize_resource_id resource_id)

pub record Request : Type 0 where
  pub organization_id : Text
  pub run_id : Text
  pub resource_key : Text

pub record Owner : Type 0 where
  pub organization_id : Text
  pub run_id : Text
  pub reentrancy_count : ℕ

pub record WorkspaceLockManager : Type 0 where
  pub thread_locks : Dict Text ℕ
  pub open_fds : Dict Text ℕ
  pub lock_owners : Dict Text Owner

-- Who holds the lock of a file: a descriptor of this process, or another process.
pub data Holder : Type 0 where
  ours : ℕ → Holder
  theirs : Holder

-- Where a thread stands in `acquire_lock` or `release_lock`: the request, then the number of the thread
-- lock that the call has fetched, then a descriptor.
pub data Pc : Type 0 where
  idle : Pc
  entering : Request → Pc
  checking polling waiting rechecking opening recovering leaving : Request → ℕ → Pc
  registering : Request → ℕ → ℕ → Pc
  closing : Request → ℕ → Option ℕ → Pc
  acquired timed_out : Request → Pc
  releasing : Request → Pc
  unlocking : Request → Option ℕ → Pc
  handing : Request → Pc
  released refused : Request → Pc

-- A thread lock that is held has its thread and how often that has taken it. `next` numbers what is new.
pub record World : Type 0 where
  pub manager : WorkspaceLockManager
  pub rlocks : Dict ℕ (ℕ × ℕ)
  pub files : Dict Text Holder
  pub next : ℕ
  pub pcs : ℕ → Pc

-- What `os.kill(pid, 0)` does.
pub data Signal : Type 0 where
  delivered no_such_process no_permission other_error : Signal

unfoldable pub is_pid_alive : ℕ → Signal → Bool
is_pid_alive pid no_such_process = leb pid 0
is_pid_alive pid s = true

-- What a lock file says, where it can be read; an absent field is none.
pub record Metadata : Type 0 where
  pub owner_pid : Option ℕ
  pub run_id : Option Text

-- What a step meets: whether a file opens, whether the deadline is past, and what recovery finds.
pub record Surroundings : Type 0 where
  pub opens : Bool
  pub past_deadline : Bool
  pub metadata : Option Metadata
  pub signal : Signal
  pub status : Option Text

abbrev pub has_ended : Option Text → Bool
has_ended none = false
has_ended (some s) = is_terminal s

abbrev pub is_dead : Option ℕ → Signal → Bool
is_dead none s = false
is_dead (some pid) s = not (pid == 0) && not (is_pid_alive pid s)

-- The three conditions of `_try_recover_stale_lock`; whatever cannot be confirmed counts against it.
abbrev pub confirmed : Option Metadata → Surroundings → Bool
confirmed none e = false
confirmed (some d) e = is_set d.run_id && (is_dead d.owner_pid e.signal && has_ended e.status)

unfoldable pub may_recover : Surroundings → Bool
may_recover e = confirmed e.metadata e

abbrev pub owned_by : Request → Option Owner → Bool
owned_by r none = false
owned_by r (some o) = o.run_id == r.run_id && o.organization_id == r.organization_id

abbrev pub put : ℕ → Pc → World → World
put t p w = record w { pcs = λ u. if u == t then p else w.pcs u }

abbrev pub set_owner : Text → Owner → WorkspaceLockManager → WorkspaceLockManager
set_owner k o m = record m { lock_owners = insert k o m.lock_owners }

abbrev pub has_owner : Option Owner → Bool
has_owner none = false
has_owner (some o) = true

unfoldable pub is_locked : Text → Option Text → WorkspaceLockManager → Bool
is_locked organization_id resource_id m =
    has_owner (lookup (get_resource_key organization_id resource_id) m.lock_owners)

unfoldable pub get_lock_owner : Text → Option Text → WorkspaceLockManager → Option Owner
get_lock_owner organization_id resource_id m =
    lookup (get_resource_key organization_id resource_id) m.lock_owners
