-- ===== src/Vcs/Lock/Safety.antt =====
-- What every step of the lock manager keeps, and with it every run from the start.
use agentic_ai_software_engi.Base.{
  ℕ, ◌≡◌, refl, sym, ◌∙◌, Text, text_eq, nat_eq, Option, none, some, List, [], ◌∷◌, arith,
  Bool-cases, inl, inr, ap,
}
use agentic_ai_software_engi.Base.Dict.{lookup}
use agentic_ai_software_engi.Vcs.Lock.{
  Holder, ours, theirs, Pc, idle, entering, checking, polling, waiting, rechecking, opening,
  recovering, leaving, registering, closing, acquired, timed_out, releasing, unlocking, handing,
  released, refused, World, Surroundings, may_recover, put,
}
use agentic_ai_software_engi.Vcs.Lock.Descriptors.{foreign_lock-IsSound, foreign_unlock-IsSound}
use agentic_ai_software_engi.Vcs.Lock.Step.{
  get_thread_lock, may_take, take_rlock, drop_rlock, advance, has_returned, Event, acquire_lock,
  release_lock, turn, foreign_lock, foreign_unlock, begin, foreign_lock_on, foreign_unlock_on,
  request, take_step, run,
}
use agentic_ai_software_engi.Vcs.Lock.Invariant.{
  in_flight, idle_hands, flight_of, IsSafe, put-IsSafe, fetch-IsSafe, fetch-pcs, re_enter-IsSafe,
  try_os_lock-IsSafe,
}
use agentic_ai_software_engi.Vcs.Lock.Registry.{
  register-IsSafe, recover-IsSafe, close_fd-IsSafe, give_up-IsSafe,
}

module _ (path : Text → Text) where
  -- A step that only moves the thread on.
  moved-IsSafe :
      (t : ℕ) (p q : Pc) (w : World)
      → (w.pcs t ≡ p)
      → in_flight q ≡ in_flight p
      → IsSafe path w
      → IsSafe path (put t q w)
  moved-IsSafe t p q w e h s = put-IsSafe path t q w (h ∙ ap in_flight (sym e)) s

  advance-IsSafe :
      (e : Surroundings) (t : ℕ) (p : Pc) (w : World)
      → (w.pcs t ≡ p)
      → IsSafe path w
      → IsSafe path (advance path e t p w)
  unfolding advance
  advance-IsSafe e t idle w h s = s
  advance-IsSafe e t (entering r) w h s =
      put-IsSafe path t _ (get_thread_lock r.resource_key w).1
        (rw (fetch-pcs path r.resource_key w, h)) (fetch-IsSafe path r.resource_key w s)
  advance-IsSafe e t (checking r rl) w h s =
      re_enter-IsSafe path t r (polling r rl) (lookup r.resource_key w.manager.lock_owners) w refl
        (rw h) (rw h) s
  advance-IsSafe e t (polling r rl) w h s = elim (Bool-cases (may_take t (lookup rl w.rlocks))) [
    | inl f ↦ rw f (moved-IsSafe t (polling r rl) (rechecking r rl) (take_rlock t rl w) h refl s)
    | inr f ↦ rw f (moved-IsSafe t (polling r rl) (waiting r rl) w h refl s)
  ]
  advance-IsSafe e t (waiting r rl) w h s = elim (Bool-cases e.past_deadline) [
    | inl f ↦ rw f (moved-IsSafe t (waiting r rl) (timed_out r) w h refl s)
    | inr f ↦ rw f (moved-IsSafe t (waiting r rl) (polling r rl) w h refl s)
  ]
  advance-IsSafe e t (rechecking r rl) w h s =
      re_enter-IsSafe path t r (opening r rl) (lookup r.resource_key w.manager.lock_owners) w refl
        (rw h) (rw h) s
  advance-IsSafe e t (opening r rl) w h s =
      try_os_lock-IsSafe path t r rl e.opens (lookup (path r.resource_key) w.files) w refl (rw h) s
  advance-IsSafe e t (recovering r rl) w h s =
      recover-IsSafe path t r rl (may_recover e) (lookup r.resource_key w.manager.lock_owners) w
        refl (rw h) s
  advance-IsSafe e t (leaving r rl) w h s =
      moved-IsSafe t (leaving r rl) (waiting r rl) (drop_rlock t rl w) h refl s
  advance-IsSafe e t (registering r rl fd) w h s = register-IsSafe path t r rl fd w h s
  advance-IsSafe e t (closing r rl none) w h s =
      close_fd-IsSafe path t r none (leaving r rl) w refl (rw h) s
  advance-IsSafe e t (closing r rl (some fd)) w h s =
      close_fd-IsSafe path t r (some fd) (leaving r rl) w refl (rw h) s
  advance-IsSafe e t (acquired r) w h s = s
  advance-IsSafe e t (timed_out r) w h s = s
  advance-IsSafe e t (releasing r) w h s =
      give_up-IsSafe path t r (lookup r.resource_key w.manager.lock_owners) w refl (rw h) s
  advance-IsSafe e t (unlocking r none) w h s =
      close_fd-IsSafe path t r none (handing r) w refl (rw h) s
  advance-IsSafe e t (unlocking r (some fd)) w h s =
      close_fd-IsSafe path t r (some fd) (handing r) w refl (rw h) s
  advance-IsSafe e t (handing r) w h s =
      put-IsSafe path t _
        (drop_rlock t (get_thread_lock r.resource_key w).0 (get_thread_lock r.resource_key w).1)
        (rw (fetch-pcs path r.resource_key w, h)) (fetch-IsSafe path r.resource_key w s)
  advance-IsSafe e t (released r) w h s = s
  advance-IsSafe e t (refused r) w h s = s

  begin-IsSafe :
      (t : ℕ) (p : Pc) (w : World) → in_flight p ≡ none → IsSafe path w → IsSafe path (begin t p w)
  begin-IsSafe t p w h s = elim (Bool-cases (has_returned (w.pcs t))) [
    | inr e ↦ rw e s
    | inl e ↦ rw e (put-IsSafe path t p w (h ∙ sym (idle_hands (w.pcs t) e)) s)
  ]

  foreign_lock_on-IsSafe :
      (file : Text) (h : Option Holder) (w : World)
      → lookup file w.files ≡ h
      → IsSafe path w
      → IsSafe path (foreign_lock_on file h w)
  foreign_lock_on-IsSafe file none w e s =
      (foreign_lock-IsSound path w.files w.manager.open_fds w.next (flight_of w) s.0 file e, s.1)
  foreign_lock_on-IsSafe file (some h) w e s = s

  foreign_unlock_on-IsSafe :
      (file : Text) (h : Option Holder) (w : World)
      → lookup file w.files ≡ h
      → IsSafe path w
      → IsSafe path (foreign_unlock_on file h w)
  foreign_unlock_on-IsSafe file none w e s = s
  foreign_unlock_on-IsSafe file (some (ours fd)) w e s = s
  foreign_unlock_on-IsSafe file (some theirs) w e s =
      (foreign_unlock-IsSound path w.files w.manager.open_fds w.next (flight_of w) s.0 file e, s.1)

  pub take_step-IsSafe : (e : Event) (w : World) → IsSafe path w → IsSafe path (take_step path e w)
  unfolding take_step
  take_step-IsSafe (acquire_lock t o res r) w s =
      begin-IsSafe t (entering (request o res r)) w refl s
  take_step-IsSafe (release_lock t o res r) w s =
      begin-IsSafe t (releasing (request o res r)) w refl s
  take_step-IsSafe (turn t e) w s = advance-IsSafe e t (w.pcs t) w refl s
  take_step-IsSafe (foreign_lock file) w s =
      foreign_lock_on-IsSafe file (lookup file w.files) w refl s
  take_step-IsSafe (foreign_unlock file) w s =
      foreign_unlock_on-IsSafe file (lookup file w.files) w refl s

  pub run-IsSafe : (es : List Event) (w : World) → IsSafe path w → IsSafe path (run path es w)
  unfolding run
  run-IsSafe [] w s = s
  run-IsSafe (e ∷ es) w s = run-IsSafe es (take_step path e w) (take_step-IsSafe e w s)

abbrev pub start : World
start = record {
  manager = record { thread_locks = []; open_fds = []; lock_owners = [] };
  rlocks = [];
  files = [];
  next = 0;
  pcs = λ t. idle;
}

pub start-IsSafe : (path : Text → Text) → IsSafe path start
unfolding lookup
start-IsSafe path = (
  record {
    locked = λ k fd e. ground arith;
    flying = λ t fd k e. ground arith;
    apart = λ t fd k j e d. ground arith;
    alone = λ t u fd k j e d. ground arith;
    single = λ fd k j e d. ground arith;
    fresh = λ file fd e. ground arith;
  },
  λ k. refl,
)
