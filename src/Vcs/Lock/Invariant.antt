-- ===== src/Vcs/Lock/Invariant.antt =====
-- What holds of a lock manager between any two steps: the descriptors are sound, and a key has an owner
-- just where it has a registered descriptor; and the first steps of a call keep it.
use agentic_ai_software_engi.Base.{
  ℕ, ◌+◌, ◌≡◌, refl, sym, Text, text_eq, nat_eq, Bool, true, false, Option, none, some, arith,
  Option-cases, Bool-cases, inl, inr,
}
use agentic_ai_software_engi.Base.Dict.{lookup, insert, lookup-insert}
use agentic_ai_software_engi.Vcs.Lock.{
  Request, Owner, Holder, Pc, idle, recovering, registering, closing, acquired, timed_out,
  unlocking, released, refused, World, owned_by, put, set_owner,
}
use agentic_ai_software_engi.Vcs.Lock.Descriptors.{
  Flight, in_hand, IsSound, take-IsSound, fresh-IsSound, same-IsSound,
}
use agentic_ai_software_engi.Vcs.Lock.Step.{get_thread_lock, re_enter, try_os_lock, has_returned}

-- The descriptor in the hands of a thread, and the key it is for.
abbrev pub in_flight : Pc → Option (Text × ℕ)
in_flight (registering r rl fd) = some (r.resource_key, fd)
in_flight (closing r rl (some fd)) = some (r.resource_key, fd)
in_flight (unlocking r (some fd)) = some (r.resource_key, fd)
in_flight p = none

pub idle_hands : (p : Pc) → has_returned p ≡ true → in_flight p ≡ none
idle_hands idle e = refl
idle_hands (acquired r) e = refl
idle_hands (timed_out r) e = refl
idle_hands (released r) e = refl
idle_hands (refused r) e = refl
idle_hands p e = ground arith

abbrev pub flight_of : World → Flight
flight_of w t = in_flight (w.pcs t)

abbrev pub present {ℓ} : {V : Type ℓ} → Option V → Bool
present none = false
present (some v) = true

module _ (path : Text → Text) where
  abbrev pub IsSafe : World → Type 0
  IsSafe w =
      IsSound path w.files w.manager.open_fds w.next (flight_of w)
      × ((k : Text)
          → present (lookup k w.manager.lock_owners) ≡ present (lookup k w.manager.open_fds))

  pub put-flight :
      (t : ℕ) (p : Pc) (w : World) (u : ℕ)
      → flight_of (put t p w) u ≡ in_hand t (in_flight p) (flight_of w) u
  put-flight t p w u = ground arith

  pub quiet-flight :
      (t : ℕ) (p : Pc) (w : World)
      → in_flight p ≡ in_flight (w.pcs t)
      → (u : ℕ) → flight_of (put t p w) u ≡ flight_of w u
  quiet-flight t p w h u = ground arith

  pub put-IsSafe :
      (t : ℕ) (p : Pc) (w : World)
      → in_flight p ≡ in_flight (w.pcs t)
      → IsSafe w
      → IsSafe (put t p w)
  put-IsSafe t p w h s = (
    same-IsSound path w.files w.manager.open_fds w.next (flight_of w) s.0 (flight_of (put t p w))
        (quiet-flight t p w h),
    s.1,
  )

  pub fetch-IsSafe : (k : Text) (w : World) → IsSafe w → IsSafe (get_thread_lock k w).1
  unfolding get_thread_lock
  fetch-IsSafe k w s = elim (Option-cases (lookup k w.manager.thread_locks)) [
    | inl e ↦ rw e (
      fresh-IsSound path w.files w.manager.open_fds w.next (flight_of w) s.0 (w.next + 1)
          (omega arith),
      s.1,
    )
    | inr (rl, e) ↦ rw e s
  ]

  pub fetch-pcs : (k : Text) (w : World) → (get_thread_lock k w).1.pcs ≡ w.pcs
  unfolding get_thread_lock
  fetch-pcs k w = elim (Option-cases (lookup k w.manager.thread_locks)) [
    | inl e ↦ rw e
    | inr (rl, e) ↦ rw e
  ]

  pub owner-present :
      (k : Text) (o : Owner) (w : World)
      → present (lookup k w.manager.lock_owners) ≡ true
      → ((j : Text)
          → present (lookup j w.manager.lock_owners) ≡ present (lookup j w.manager.open_fds))
      → (j : Text)
      → present (lookup j (insert k o w.manager.lock_owners))
        ≡ present (lookup j w.manager.open_fds)
  owner-present k o w h s j = ground (arith, s j, lookup-insert j k o w.manager.lock_owners)

  pub re_enter-IsSafe :
      (t : ℕ) (r : Request) (p : Pc) (o : Option Owner) (w : World)
      → (lookup r.resource_key w.manager.lock_owners ≡ o)
      → (in_flight p ≡ in_flight (w.pcs t))
      → (in_flight (w.pcs t) ≡ none)
      → IsSafe w
      → IsSafe (re_enter t r p o w)
  re_enter-IsSafe t r p none w h q n s = put-IsSafe t p w q s
  re_enter-IsSafe t r p (some o) w h q n s = elim (Bool-cases (owned_by r (some o))) [
    | inr e ↦ rw e (put-IsSafe t p w q s)
    | inl e ↦ rw e (
        put-IsSafe t (acquired r)
          (record w {
            manager =
                set_owner r.resource_key (record o { reentrancy_count = o.reentrancy_count + 1 })
                  w.manager;
          })
          (sym n) (s.0, owner-present r.resource_key _ w (rw h) s.1))
  ]

  pub try_os_lock-IsSafe :
      (t : ℕ) (r : Request) (rl : ℕ) (b : Bool) (h : Option Holder) (w : World)
      → (lookup (path r.resource_key) w.files ≡ h)
      → (in_flight (w.pcs t) ≡ none)
      → IsSafe w
      → IsSafe (try_os_lock path t r rl b h w)
  try_os_lock-IsSafe t r rl false h w e n s = put-IsSafe t (recovering r rl) w (sym n) s
  try_os_lock-IsSafe t r rl true (some h) w e n s = put-IsSafe t (recovering r rl) w (sym n) s
  try_os_lock-IsSafe t r rl true none w e n s = (
    same-IsSound path _ _ _ _
        (take-IsSound path w.files w.manager.open_fds w.next (flight_of w) s.0 t r.resource_key e n)
        _ (put-flight t (registering r rl w.next) w),
    s.1,
  )
