-- ===== src/Vcs/Lock/Registry.antt =====
-- The steps that write the tables of owners and descriptors keep the invariant of the lock manager.
use agentic_ai_software_engi.Base.{
  ℕ, ◌-◌, ◌≡◌, refl, sym, ◌∙◌, Text, text_eq, nat_eq, Bool, true, false, Option, none, some, ltb,
  arith, Bool-cases, inl, inr, ==_refl, ap,
}
use agentic_ai_software_engi.Base.Dict.{lookup, erase, lookup-insert, lookup-erase}
use agentic_ai_software_engi.Vcs.Lock.{
  Request, Owner, Pc, leaving, registering, closing, acquired, unlocking, released, refused, World,
  owned_by, put, set_owner,
}
use agentic_ai_software_engi.Vcs.Lock.Descriptors.{
  in_hand, IsSound, register-IsSound, pop-IsSound, drop-IsSound, erase-IsSound, same-IsSound,
}
use agentic_ai_software_engi.Vcs.Lock.Step.{
  new_owner, register, recover, close_fd, pop_owner, give_up,
}
use agentic_ai_software_engi.Vcs.Lock.Invariant.{
  in_flight, flight_of, IsSafe, put-flight, quiet-flight, put-IsSafe, owner-present,
}

module _ (path : Text → Text) where
  pub register-IsSafe :
      (t : ℕ) (r : Request) (rl fd : ℕ) (w : World)
      → (w.pcs t ≡ registering r rl fd)
      → IsSafe path w
      → IsSafe path (register t r fd w)
  register-IsSafe t r rl fd w e s = (
    same-IsSound path _ _ _ _
        (register-IsSound path w.files w.manager.open_fds w.next (flight_of w) s.0 t fd
          r.resource_key (rw e))
        _ (put-flight path t (acquired r) w),
    λ j. ground (
      arith,
      s.1 j,
      lookup-insert j r.resource_key (new_owner r) w.manager.lock_owners,
      lookup-insert j r.resource_key fd w.manager.open_fds,
    ),
  )

  pub recover-IsSafe :
      (t : ℕ) (r : Request) (rl : ℕ) (b : Bool) (o : Option Owner) (w : World)
      → (lookup r.resource_key w.manager.lock_owners ≡ o)
      → (in_flight (w.pcs t) ≡ none)
      → IsSafe path w
      → IsSafe path (recover t r rl b o w)
  recover-IsSafe t r rl false o w h n s = put-IsSafe path t (leaving r rl) w (sym n) s
  recover-IsSafe t r rl true (some o) w h n s = put-IsSafe path t (leaving r rl) w (sym n) s
  recover-IsSafe t r rl true none w h n s =
      let free : lookup r.resource_key w.manager.open_fds ≡ none =
        ground (arith, s.1 r.resource_key) in
      rw free (
        same-IsSound path _ _ _ _
            (erase-IsSound path w.files w.manager.open_fds w.next (flight_of w) s.0 r.resource_key
              free)
            _ (quiet-flight path t (closing r rl none) w (sym n)),
        λ j. ground (arith, s.1 j, lookup-erase j r.resource_key w.manager.open_fds),
      )

  pub close_fd-IsSafe :
      (t : ℕ) (r : Request) (fd : Option ℕ) (q : Pc) (w : World)
      → (in_flight q ≡ none)
      → (flight_of w t ≡ elim fd [ none ↦ none | some g ↦ some (r.resource_key, g) ])
      → IsSafe path w
      → IsSafe path (put t q (close_fd (path r.resource_key) fd w))
  close_fd-IsSafe t r none q w e h s = put-IsSafe path t q w (e ∙ sym h) s
  close_fd-IsSafe t r (some fd) q w e h s =
      rw (s.0.flying t fd r.resource_key h, ==_refl fd)
        (
          same-IsSound path _ _ _ _
              (drop-IsSound path w.files w.manager.open_fds w.next (flight_of w) s.0 t fd
                r.resource_key h)
              _ (λ u. put-flight path t q w u ∙ ap (λ x. in_hand t x (flight_of w) u) e),
          s.1,
        )

  pub pop_owner-IsSafe :
      (t : ℕ) (r : Request) (w : World)
      → (in_flight (w.pcs t) ≡ none)
      → IsSafe path w
      → IsSafe path (pop_owner t r w)
  pop_owner-IsSafe t r w n s = (
    popped (lookup r.resource_key w.manager.open_fds) refl,
    λ j. ground (
      arith,
      s.1 j,
      lookup-erase j r.resource_key w.manager.lock_owners,
      lookup-erase j r.resource_key w.manager.open_fds,
    ),
  )
    where
      popped :
          (o : Option ℕ)
          → lookup r.resource_key w.manager.open_fds ≡ o
          → IsSound path w.files
              (erase r.resource_key w.manager.open_fds)
              w.next
              (flight_of (put t (unlocking r o) w))
      popped none e =
          same-IsSound path _ _ _ _
            (erase-IsSound path w.files w.manager.open_fds w.next (flight_of w) s.0 r.resource_key
              e)
            _ (quiet-flight path t (unlocking r none) w (sym n))
      popped (some fd) e =
          same-IsSound path _ _ _ _
            (pop-IsSound path w.files w.manager.open_fds w.next (flight_of w) s.0 t fd
              r.resource_key e n)
            _ (put-flight path t (unlocking r (some fd)) w)

  pub give_up-IsSafe :
      (t : ℕ) (r : Request) (o : Option Owner) (w : World)
      → (lookup r.resource_key w.manager.lock_owners ≡ o)
      → (in_flight (w.pcs t) ≡ none)
      → IsSafe path w
      → IsSafe path (give_up t r o w)
  give_up-IsSafe t r none w h n s = put-IsSafe path t (released r) w (sym n) s
  give_up-IsSafe t r (some o) w h n s = elim (Bool-cases (owned_by r (some o))) [
    | inr e ↦ rw e (put-IsSafe path t (refused r) w (sym n) s)
    | inl e ↦ elim (Bool-cases (ltb 1 o.reentrancy_count)) [
      | inr f ↦ rw (e, f) (pop_owner-IsSafe t r w n s)
      | inl f ↦
          rw (e, f)
            (put-IsSafe path t (released r)
              (record w {
                manager =
                    set_owner r.resource_key
                      (record o { reentrancy_count = o.reentrancy_count - 1 }) w.manager;
              })
              (sym n) (s.0, owner-present path r.resource_key _ w (rw h) s.1))
    ]
  ]
