-- ===== src/Examples/Locks.antt =====
-- The workspace locks on schedules of three threads.
use agentic_ai_software_engi.Base.{
  ℕ, zero, suc, ◌≡◌, refl, Text, codes, text_eq, nat_eq, ℕ_discrete, true, false, Option, none,
  some, List, [], ◌∷◌, ◌++◌, arith, All, strip,
}
use agentic_ai_software_engi.Base.Dict.{lookup, insert, erase}
use agentic_ai_software_engi.Vcs.Lock.{
  is_key_char, sanitize_key, normalize_resource_id, get_resource_key, Request, acquired, timed_out,
  released, World, delivered, Surroundings,
}
use agentic_ai_software_engi.Vcs.Lock.Step.{
  get_thread_lock, advance, has_returned, Event, acquire_lock, release_lock, turn, request,
  take_step, run,
}
use agentic_ai_software_engi.Vcs.Lock.Safety.{start}
use agentic_ai_software_engi.Vcs.Lock.Ownership.{actor, owner_at, Change, run-refines}
use agentic_ai_software_engi.Vcs.Lock.Progress.{IsLate, run-returns}
use agentic_ai_software_engi.Vcs.Lock.Exclusion.{Holds, acquire_lock-exclusive}

abbrev lock_path : Text → Text
lock_path k = k

abbrev in_time : Surroundings
in_time = record {
  opens = true;
  past_deadline = false;
  metadata = none;
  signal = delivered;
  status = none;
}

abbrev late : Surroundings
late = record {
  opens = true;
  past_deadline = true;
  metadata = none;
  signal = delivered;
  status = none;
}

abbrev turns : ℕ → ℕ → Surroundings → List Event
turns zero t e = []
turns (suc n) t e = turn t e ∷ turns n t e

abbrev web : Option Text
web = some (codes "web")

abbrev ask : ℕ → Text → Event
ask t r = acquire_lock t (codes "acme") web r

abbrev leave_it : ℕ → Text → Event
leave_it t r = release_lock t (codes "acme") web r

abbrev first_request : Request
first_request = request (codes "acme") web (codes "r1")

-- Thread 0 is about to register its descriptor.
abbrev nearly : List Event
nearly = ask 0 (codes "r1") ∷ turns 5 0 in_time

nearly-has_returned : has_returned ((run lock_path nearly start).pcs 0) ≡ false
unfolding run take_step advance get_thread_lock lookup insert text_eq ℕ_discrete
nearly-has_returned = refl

nearly-acquires :
    (take_step lock_path (turn 0 in_time) (run lock_path nearly start)).pcs 0
    ≡ acquired first_request
unfolding run take_step advance get_thread_lock lookup insert text_eq ℕ_discrete get_resource_key
nearly-acquires = refl

acquire_lock-exclusive_example :
    Holds lock_path first_request
      (take_step lock_path (turn 0 in_time) (run lock_path nearly start))
acquire_lock-exclusive_example =
    acquire_lock-exclusive lock_path nearly 0 in_time first_request nearly-has_returned
      nearly-acquires

run-refines_example :
    Change
      (codes "acme:web")
      (actor (turn 0 in_time) (run lock_path nearly start))
      (owner_at (codes "acme:web") (run lock_path nearly start))
      (owner_at
        (codes "acme:web")
        (take_step lock_path (turn 0 in_time) (run lock_path nearly start)))
run-refines_example = run-refines lock_path nearly (turn 0 in_time) (codes "acme:web")

-- Thread 1 asks for the workspace that thread 0 has, and its deadline passes.
abbrev contended : World
contended = run lock_path (nearly ++ (turn 0 in_time ∷ ask 1 (codes "r2") ∷ [])) start

-- Thread 1 is late, and thread 0, which holds the lock, is not.
abbrev mixed : List Event
mixed = turn 0 in_time ∷ turns 9 1 late

late_turn : ◌≡◌ {A = ℕ} 1 1 → late.past_deadline ≡ true
late_turn e = refl

other_turn : ◌≡◌ {A = ℕ} 0 1 → in_time.past_deadline ≡ true
other_turn e = ground (arith, e)

mixed-IsLate : All (IsLate 1) mixed
mixed-IsLate = let l = late_turn in (other_turn, (l, (l, (l, (l, (l, (l, (l, (l, (l, tt))))))))))

run-returns_example : has_returned ((run lock_path mixed contended).pcs 1) ≡ true
unfolding ℕ_discrete
run-returns_example = run-returns lock_path mixed 1 contended mixed-IsLate (omega arith)

contended-times_out :
    (run lock_path (turns 9 1 late) contended).pcs 1
    ≡ timed_out (request (codes "acme") web (codes "r2"))
unfolding run take_step advance get_thread_lock lookup insert text_eq ℕ_discrete get_resource_key
    sanitize_key strip is_key_char normalize_resource_id
contended-times_out = refl

-- Thread 1 enters the run of thread 0 again and leaves it last: it cannot release the thread lock of
-- thread 0, and although the key has no owner, thread 2 waits in vain.
abbrev crossed : List Event
crossed =
    nearly
    ++ (turn 0 in_time
        ∷ ask 1 (codes "r1")
        ∷ turn 1 in_time
        ∷ turn 1 in_time
        ∷ leave_it 0 (codes "r1")
        ∷ turn 0 in_time
        ∷ leave_it 1 (codes "r1")
        ∷ turn 1 in_time
        ∷ turn 1 in_time
        ∷ turn 1 in_time
        ∷ ask 2 (codes "r2")
        ∷ turns 9 2 late)

crossed-waits :
    (owner_at (codes "acme:web") (run lock_path crossed start) ≡ none)
    × ((run lock_path crossed start).pcs 1 ≡ released first_request)
    × ((run lock_path crossed start).pcs 2 ≡ timed_out (request (codes "acme") web (codes "r2")))
    × ((run lock_path crossed start).files ≡ [])
unfolding run take_step advance get_thread_lock lookup insert erase text_eq ℕ_discrete
    get_resource_key sanitize_key strip is_key_char normalize_resource_id
crossed-waits = (refl, refl, refl, refl)
