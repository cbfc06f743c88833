-- ===== src/Vcs/Lock/Exclusion.antt =====
-- What it means that a call has acquired a lock.
use agentic_ai_software_engi.Base.{
  ℕ, ◌+◌, ◌≡◌, ◌≢◌, refl, Text, text_eq, nat_eq, Bool, true, false, Option, none, some, List, arith,
  Option-cases, Bool-cases, ==_refl, inl, inr,
}
use agentic_ai_software_engi.Base.Dict.{lookup, lookup-insert_self}
use agentic_ai_software_engi.Vcs.Lock.{
  Request, Owner, Holder, ours, Pc, idle, entering, checking, polling, waiting, rechecking, opening,
  recovering, leaving, registering, closing, acquired, timed_out, releasing, unlocking, handing,
  released, refused, World, Surroundings, may_recover, owned_by,
}
use agentic_ai_software_engi.Vcs.Lock.Step.{
  re_enter, try_os_lock, new_owner, recover, give_up, advance, has_returned, Event, turn, take_step,
  run,
}
use agentic_ai_software_engi.Vcs.Lock.Invariant.{present, IsSafe}
use agentic_ai_software_engi.Vcs.Lock.Safety.{start, start-IsSafe, take_step-IsSafe, run-IsSafe}
use agentic_ai_software_engi.Vcs.Lock.Ownership.{owner_at}

owned_by-new_owner : (r : Request) → owned_by r (some (new_owner r)) ≡ true
owned_by-new_owner r = rw (==_refl r.run_id, ==_refl r.organization_id)

-- The owner is the one of the request, and the file of its key is locked by the descriptor registered
-- for the key.
abbrev pub Holds : (Text → Text) → Request → World → Type 0
Holds path r w =
    (owned_by r (owner_at r.resource_key w) ≡ true)
    × ((fd : ℕ) × (lookup r.resource_key w.manager.open_fds ≡ some fd)
        × (lookup (path r.resource_key) w.files ≡ some (ours fd)))

module _ (path : Text → Text) where
  re_enter-owned :
      (t : ℕ) (r r' : Request) (q : Pc) (o : Option Owner) (w : World)
      → (owner_at r.resource_key w ≡ o)
      → (q ≢ acquired r')
      → ((re_enter t r q o w).pcs t ≡ acquired r')
      → owned_by r' (owner_at r'.resource_key (re_enter t r q o w)) ≡ true
  re_enter-owned t r r' q none w e d h = ground arith
  re_enter-owned t r r' q (some o) w e d h = elim (Bool-cases (owned_by r (some o))) [
    | inr f ↦ ground arith
    | inl f ↦
        let same : r ≡ r' = ground arith in
        rw (← same) (
          rw
            (
              f,
              lookup-insert_self r.resource_key
                  (record o { reentrancy_count = o.reentrancy_count + 1 }) w.manager.lock_owners,
            )
            f)
  ]

  try_os_lock-acquired :
      (t : ℕ) (r r' : Request) (rl : ℕ) (b : Bool) (h : Option Holder) (w : World)
      → (try_os_lock path t r rl b h w).pcs t ≢ acquired r'
  try_os_lock-acquired t r r' rl false h w e = ground arith
  try_os_lock-acquired t r r' rl true (some h) w e = ground arith
  try_os_lock-acquired t r r' rl true none w e = ground arith

  recover-acquired :
      (t : ℕ) (r r' : Request) (rl : ℕ) (b : Bool) (o : Option Owner) (w : World)
      → (recover t r rl b o w).pcs t ≢ acquired r'
  recover-acquired t r r' rl false o w e = ground arith
  recover-acquired t r r' rl true (some o) w e = ground arith
  recover-acquired t r r' rl true none w e = ground arith

  give_up-acquired :
      (t : ℕ) (r r' : Request) (o : Option Owner) (w : World)
      → (give_up t r o w).pcs t ≢ acquired r'
  give_up-acquired t r r' none w e = ground arith
  give_up-acquired t r r' (some o) w e = ground arith

  advance-owned :
      (e : Surroundings) (t : ℕ) (p : Pc) (w : World) (r' : Request)
      → has_returned p ≡ false
      → ((advance path e t p w).pcs t ≡ acquired r')
      → owned_by r' (owner_at r'.resource_key (advance path e t p w)) ≡ true
  unfolding advance
  advance-owned e t idle w r' n h = ground arith
  advance-owned e t (entering r) w r' n h = ground arith
  advance-owned e t (checking r rl) w r' n h =
      re_enter-owned t r r' (polling r rl) (owner_at r.resource_key w) w refl (λ x. ground arith) h
  advance-owned e t (polling r rl) w r' n h = ground arith
  advance-owned e t (waiting r rl) w r' n h = ground arith
  advance-owned e t (rechecking r rl) w r' n h =
      re_enter-owned t r r' (opening r rl) (owner_at r.resource_key w) w refl (λ x. ground arith) h
  advance-owned e t (opening r rl) w r' n h =
      absurd (try_os_lock-acquired t r r' rl e.opens (lookup (path r.resource_key) w.files) w h)
  advance-owned e t (recovering r rl) w r' n h =
      absurd (recover-acquired t r r' rl (may_recover e) (owner_at r.resource_key w) w h)
  advance-owned e t (leaving r rl) w r' n h = ground arith
  advance-owned e t (registering r rl fd) w r' n h =
      let same : r ≡ r' = ground arith in
      rw (← same) (
        rw (lookup-insert_self r.resource_key (new_owner r) w.manager.lock_owners)
          (owned_by-new_owner r))
  advance-owned e t (closing r rl fd) w r' n h = ground arith
  advance-owned e t (acquired r) w r' n h = ground arith
  advance-owned e t (timed_out r) w r' n h = ground arith
  advance-owned e t (releasing r) w r' n h =
      absurd (give_up-acquired t r r' (owner_at r.resource_key w) w h)
  advance-owned e t (unlocking r fd) w r' n h = ground arith
  advance-owned e t (handing r) w r' n h = ground arith
  advance-owned e t (released r) w r' n h = ground arith
  advance-owned e t (refused r) w r' n h = ground arith

  owned-present : (r : Request) (o : Option Owner) → owned_by r o ≡ true → present o ≡ true
  owned-present r none h = ground arith
  owned-present r (some o) h = refl

  safe-Holds :
      (r : Request) (w : World)
      → IsSafe path w
      → owned_by r (owner_at r.resource_key w) ≡ true
      → Holds path r w
  safe-Holds r w s h = elim (Option-cases (lookup r.resource_key w.manager.open_fds)) [
    | inl e ↦ ground (arith, s.1 r.resource_key, owned-present r (owner_at r.resource_key w) h)
    | inr (fd, e) ↦ (h, (fd, e, s.0.locked r.resource_key fd e))
  ]

  -- When a call of a thread answers that it has acquired a lock, its run owns the key, and the file of
  -- the key is locked by this process: no other run, thread or process holds it at that moment.
  pub acquire_lock-exclusive :
      (es : List Event) (t : ℕ) (e : Surroundings) (r : Request)
      → has_returned ((run path es start).pcs t) ≡ false
      → ((take_step path (turn t e) (run path es start)).pcs t ≡ acquired r)
      → Holds path r (take_step path (turn t e) (run path es start))
  unfolding take_step
  acquire_lock-exclusive es t e r n h =
      let w = run path es start in
      safe-Holds r (take_step path (turn t e) w)
        (take_step-IsSafe path (turn t e) w (run-IsSafe path es start (start-IsSafe path)))
        (advance-owned e t (w.pcs t) w r n h)
