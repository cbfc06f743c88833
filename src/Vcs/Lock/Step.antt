-- ===== src/Vcs/Lock/Step.antt =====
-- backend/vcs/workspace_lock.py: the steps of `acquire_lock`, `_try_recover_stale_lock` and
-- `release_lock`.
use agentic_ai_software_engi.Base.{
  ℕ, ◌+◌, ◌-◌, Text, text_eq, nat_eq, Bool, true, false, Option, none, some, List, [], ◌∷◌, ◌==◌,
  leb, ltb, if◌then◌else◌,
}
use agentic_ai_software_engi.Base.Dict.{Dict, lookup, insert, erase}
use agentic_ai_software_engi.Vcs.Lock.{
  get_resource_key, Request, Owner, Holder, ours, theirs, Pc, idle, entering, checking, polling,
  waiting, rechecking, opening, recovering, leaving, registering, closing, acquired, timed_out,
  releasing, unlocking, handing, released, refused, World, Surroundings, may_recover, owned_by, put,
  set_owner,
}

-- `_get_thread_lock`: the lock of the key, or a new one.
abbrev pub fetch_on : Text → Option ℕ → World → ℕ × World
fetch_on k (some rl) w = (rl, w)
fetch_on k none w =
    let m = w.manager in
    (
      w.next,
      record w {
        manager = record m { thread_locks = insert k w.next m.thread_locks };
        next = w.next + 1;
      },
    )

unfoldable pub get_thread_lock : Text → World → ℕ × World
get_thread_lock k w = fetch_on k (lookup k w.manager.thread_locks) w

-- `RLock.acquire` and `RLock.release`, the latter without the exception of a thread that does not hold it.
abbrev pub may_take : ℕ → Option (ℕ × ℕ) → Bool
may_take t none = true
may_take t (some (u, n)) = u == t

abbrev pub depth : Option (ℕ × ℕ) → ℕ
depth none = 0
depth (some (u, n)) = n

abbrev pub take_rlock : ℕ → ℕ → World → World
take_rlock t rl w = record w { rlocks = insert rl (t, depth (lookup rl w.rlocks) + 1) w.rlocks }

abbrev pub dropped : ℕ → ℕ → Option (ℕ × ℕ) → Dict ℕ (ℕ × ℕ) → Dict ℕ (ℕ × ℕ)
dropped t rl none rlocks = rlocks
dropped t rl (some (u, n)) rlocks =
    if u == t then if leb n 1 then erase rl rlocks else insert rl (u, n - 1) rlocks else rlocks

abbrev pub drop_rlock : ℕ → ℕ → World → World
drop_rlock t rl w = record w { rlocks = dropped t rl (lookup rl w.rlocks) w.rlocks }

-- The test of re-entrancy, under the global lock; the second `Pc` is where it does not apply.
abbrev pub re_enter : ℕ → Request → Pc → Option Owner → World → World
re_enter t r p none w = put t p w
re_enter t r p (some o) w =
    if owned_by r (some o)
    then put t (acquired r) (record w {
      manager =
          set_owner r.resource_key (record o { reentrancy_count = o.reentrancy_count + 1 })
            w.manager;
    })
    else put t p w

-- `os.open` and `_try_os_lock` with a new descriptor.
abbrev pub try_os_lock : (Text → Text) → ℕ → Request → ℕ → Bool → Option Holder → World → World
try_os_lock path t r rl false h w = put t (recovering r rl) w
try_os_lock path t r rl true (some h) w = put t (recovering r rl) w
try_os_lock path t r rl true none w =
    put t (registering r rl w.next)
      (record w { files = insert (path r.resource_key) (ours w.next) w.files; next = w.next + 1 })

abbrev pub new_owner : Request → Owner
new_owner r = record {
  organization_id = r.organization_id;
  run_id = r.run_id;
  reentrancy_count = 1;
}

abbrev pub register : ℕ → Request → ℕ → World → World
register t r fd w =
    let m = w.manager in
    put t (acquired r) (record w {
      manager = record m {
        open_fds = insert r.resource_key fd m.open_fds;
        lock_owners = insert r.resource_key (new_owner r) m.lock_owners;
      };
    })

-- The part of the recovery under the global lock.
abbrev pub recover : ℕ → Request → ℕ → Bool → Option Owner → World → World
recover t r rl false o w = put t (leaving r rl) w
recover t r rl true (some o) w = put t (leaving r rl) w
recover t r rl true none w =
    let m = w.manager in
    put t (closing r rl (lookup r.resource_key m.open_fds)) (record w {
      manager = record m {
        open_fds = erase r.resource_key m.open_fds;
        thread_locks = erase r.resource_key m.thread_locks;
      };
    })

-- `_release_os_lock` and `os.close`: the file is free where this descriptor has locked it.
abbrev pub closed_on : Text → ℕ → Option Holder → Dict Text Holder → Dict Text Holder
closed_on file fd (some (ours g)) files = if g == fd then erase file files else files
closed_on file fd h files = files

abbrev pub closed : Text → Option ℕ → Dict Text Holder → Dict Text Holder
closed file none files = files
closed file (some fd) files = closed_on file fd (lookup file files) files

abbrev pub close_fd : Text → Option ℕ → World → World
close_fd file fd w = record w { files = closed file fd w.files }

abbrev pub pop_owner : ℕ → Request → World → World
pop_owner t r w =
    let m = w.manager in
    put t (unlocking r (lookup r.resource_key m.open_fds)) (record w {
      manager = record m {
        open_fds = erase r.resource_key m.open_fds;
        lock_owners = erase r.resource_key m.lock_owners;
      };
    })

-- The part of `release_lock` under the global lock.
abbrev pub give_up : ℕ → Request → Option Owner → World → World
give_up t r none w = put t (released r) w
give_up t r (some o) w =
    if owned_by r (some o)
    then if ltb 1 o.reentrancy_count
      then put t (released r) (record w {
        manager =
            set_owner r.resource_key (record o { reentrancy_count = o.reentrancy_count - 1 })
              w.manager;
      })
      else pop_owner t r w
    else put t (refused r) w

-- A call begins where the thread's last one has ended.
abbrev pub has_returned : Pc → Bool
has_returned idle = true
has_returned (acquired r) = true
has_returned (timed_out r) = true
has_returned (released r) = true
has_returned (refused r) = true
has_returned p = false

-- The threads' calls and steps, and other processes that lock and unlock files.
pub data Event : Type 0 where
  acquire_lock release_lock : ℕ → Text → Option Text → Text → Event
  turn : ℕ → Surroundings → Event
  foreign_lock foreign_unlock : Text → Event

abbrev pub begin : ℕ → Pc → World → World
begin t p w = if has_returned (w.pcs t) then put t p w else w

abbrev pub foreign_lock_on : Text → Option Holder → World → World
foreign_lock_on file none w = record w { files = insert file theirs w.files }
foreign_lock_on file (some h) w = w

abbrev pub foreign_unlock_on : Text → Option Holder → World → World
foreign_unlock_on file (some theirs) w = record w { files = erase file w.files }
foreign_unlock_on file h w = w

abbrev pub request : Text → Option Text → Text → Request
request organization_id resource_id run_id = record {
  organization_id = organization_id;
  run_id = run_id;
  resource_key = get_resource_key organization_id resource_id;
}

module _ (path : Text → Text) where
  -- One step of a thread.
  unfoldable pub advance : Surroundings → ℕ → Pc → World → World
  advance e t idle w = w
  advance e t (entering r) w =
      let (rl, w') = get_thread_lock r.resource_key w in put t (checking r rl) w'
  advance e t (checking r rl) w =
      re_enter t r (polling r rl) (lookup r.resource_key w.manager.lock_owners) w
  advance e t (polling r rl) w =
      if may_take t (lookup rl w.rlocks)
      then put t (rechecking r rl) (take_rlock t rl w)
      else put t (waiting r rl) w
  advance e t (waiting r rl) w =
      if e.past_deadline then put t (timed_out r) w else put t (polling r rl) w
  advance e t (rechecking r rl) w =
      re_enter t r (opening r rl) (lookup r.resource_key w.manager.lock_owners) w
  advance e t (opening r rl) w =
      try_os_lock path t r rl e.opens (lookup (path r.resource_key) w.files) w
  advance e t (registering r rl fd) w = register t r fd w
  advance e t (recovering r rl) w =
      recover t r rl (may_recover e) (lookup r.resource_key w.manager.lock_owners) w
  advance e t (closing r rl fd) w = put t (leaving r rl) (close_fd (path r.resource_key) fd w)
  advance e t (leaving r rl) w = put t (waiting r rl) (drop_rlock t rl w)
  advance e t (acquired r) w = w
  advance e t (timed_out r) w = w
  advance e t (releasing r) w = give_up t r (lookup r.resource_key w.manager.lock_owners) w
  advance e t (unlocking r fd) w = put t (handing r) (close_fd (path r.resource_key) fd w)
  advance e t (handing r) w =
      let (rl, w') = get_thread_lock r.resource_key w in put t (released r) (drop_rlock t rl w')
  advance e t (released r) w = w
  advance e t (refused r) w = w

  unfoldable pub take_step : Event → World → World
  take_step (acquire_lock t o res run) w = begin t (entering (request o res run)) w
  take_step (release_lock t o res run) w = begin t (releasing (request o res run)) w
  take_step (turn t e) w = advance e t (w.pcs t) w
  take_step (foreign_lock file) w = foreign_lock_on file (lookup file w.files) w
  take_step (foreign_unlock file) w = foreign_unlock_on file (lookup file w.files) w

  unfoldable pub run : List Event → World → World
  run [] w = w
  run (e ∷ es) w = run es (take_step e w)
