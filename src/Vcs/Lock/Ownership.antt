-- ===== src/Vcs/Lock/Ownership.antt =====
-- The lock manager against an abstract lock: each key has one owner or none.
use agentic_ai_software_engi.Base.{
  ℕ, ◌+◌, ◌-◌, ◌<◌, ◌≤◌, ◌≡◌, refl, Text, text_eq, nat_eq, Bool, true, false, Option, none, some,
  List, ◌==◌, ltb, arith, Option-cases, Bool-cases, inl, inr,
}
use agentic_ai_software_engi.Base.Dict.{Dict, lookup, insert, erase, lookup-insert, lookup-erase}
use agentic_ai_software_engi.Vcs.Lock.{
  Request, Owner, Holder, ours, theirs, Pc, idle, entering, checking, polling, waiting, rechecking,
  opening, recovering, leaving, registering, closing, acquired, timed_out, releasing, unlocking,
  handing, released, refused, World, Surroundings, may_recover, owned_by,
}
use agentic_ai_software_engi.Vcs.Lock.Step.{
  get_thread_lock, re_enter, try_os_lock, new_owner, recover, give_up, advance, Event, acquire_lock,
  release_lock, turn, foreign_lock, foreign_unlock, begin, foreign_lock_on, foreign_unlock_on,
  request, take_step, run,
}
use agentic_ai_software_engi.Vcs.Lock.Invariant.{IsSafe}
use agentic_ai_software_engi.Vcs.Lock.Safety.{start, start-IsSafe, run-IsSafe}

-- The request of a thread that is in `acquire_lock`, and of one in `release_lock`, where it may change
-- the owner.
abbrev pub takes : Pc → Option Request
takes (checking r rl) = some r
takes (rechecking r rl) = some r
takes (registering r rl fd) = some r
takes p = none

abbrev pub gives : Pc → Option Request
gives (releasing r) = some r
gives p = none

-- A step of the abstract lock at one key, by a thread that stands at `p`.
pub data Change (k : Text) (p : Pc) (before after : Option Owner) : Type 0 where
  keep : before ≡ after → Change k p before after
  grant :
      (r : Request)
      → takes p ≡ some r
      → r.resource_key ≡ k
      → before ≡ none
      → after ≡ some (new_owner r)
      → Change k p before after
  again :
      (r : Request) (o : Owner)
      → takes p ≡ some r
      → r.resource_key ≡ k
      → before ≡ some o
      → owned_by r (some o) ≡ true
      → after ≡ some (record o { reentrancy_count = o.reentrancy_count + 1 })
      → Change k p before after
  leave :
      (r : Request) (o : Owner)
      → gives p ≡ some r
      → r.resource_key ≡ k
      → before ≡ some o
      → owned_by r (some o) ≡ true
      → 1 < o.reentrancy_count
      → after ≡ some (record o { reentrancy_count = o.reentrancy_count - 1 })
      → Change k p before after
  free :
      (r : Request) (o : Owner)
      → gives p ≡ some r
      → r.resource_key ≡ k
      → before ≡ some o
      → owned_by r (some o) ≡ true
      → o.reentrancy_count ≤ 1
      → after ≡ none
      → Change k p before after

-- The thread that makes a step, and where it stands.
abbrev pub actor : Event → World → Pc
actor (turn t e) w = w.pcs t
actor e w = idle

abbrev pub owner_at : Text → World → Option Owner
owner_at k w = lookup k w.manager.lock_owners

-- It is enough to look at the key that is written.
insert-Change :
    (k j : Text) (p : Pc) (x : Owner) (d : Dict Text Owner)
    → (k ≡ j → Change j p (lookup j d) (some x))
    → Change j p (lookup j d) (lookup j (insert k x d))
insert-Change k j p x d h = elim (Bool-cases (j == k)) [
  | inl e ↦ rw (lookup-insert j k x d, e) (h (ground arith))
  | inr e ↦ keep (rw (lookup-insert j k x d, e))
]

erase-Change :
    (k j : Text) (p : Pc) (d : Dict Text Owner)
    → (k ≡ j → Change j p (lookup j d) none)
    → Change j p (lookup j d) (lookup j (erase k d))
erase-Change k j p d h = elim (Bool-cases (j == k)) [
  | inl e ↦ rw (lookup-erase j k d, e) (h (ground arith))
  | inr e ↦ keep (rw (lookup-erase j k d, e))
]

re_enter-Change :
    (t : ℕ) (r : Request) (p q : Pc) (o : Option Owner) (w : World) (k : Text)
    → (takes p ≡ some r)
    → (owner_at r.resource_key w ≡ o)
    → Change k p (owner_at k w) (owner_at k (re_enter t r q o w))
re_enter-Change t r p q none w k h e = keep refl
re_enter-Change t r p q (some o) w k h e = elim (Bool-cases (owned_by r (some o))) [
  | inr f ↦ rw f (keep refl)
  | inl f ↦ rw f (
      insert-Change r.resource_key k p (record o { reentrancy_count = o.reentrancy_count + 1 })
        w.manager.lock_owners (λ same. again r o h same (ground (arith, same, e)) f refl))
]

give_up-Change :
    (t : ℕ) (r : Request) (o : Option Owner) (w : World) (k : Text)
    → (owner_at r.resource_key w ≡ o)
    → Change k (releasing r) (owner_at k w) (owner_at k (give_up t r o w))
give_up-Change t r none w k e = keep refl
give_up-Change t r (some o) w k e = elim (Bool-cases (owned_by r (some o))) [
  | inr f ↦ rw f (keep refl)
  | inl f ↦ elim (Bool-cases (ltb 1 o.reentrancy_count)) [
    | inl g ↦
        rw (f, g)
          (insert-Change r.resource_key k (releasing r)
            (record o { reentrancy_count = o.reentrancy_count - 1 }) w.manager.lock_owners
            (λ same. leave r o refl same (ground (arith, same, e)) f (ground arith) refl))
    | inr g ↦
        rw (f, g)
          (erase-Change r.resource_key k (releasing r) w.manager.lock_owners
            (λ same. free r o refl same (ground (arith, same, e)) f (ground arith) refl))
  ]
]

fetch-owner :
    (k : Text) (w : World) → (get_thread_lock k w).1.manager.lock_owners ≡ w.manager.lock_owners
unfolding get_thread_lock
fetch-owner k w = elim (Option-cases (lookup k w.manager.thread_locks)) [
  | inl e ↦ rw e
  | inr (rl, e) ↦ rw e
]

fetch-same :
    (j : Text) (p : Pc) (k : Text) (w : World)
    → Change k p (owner_at k w) (lookup k (get_thread_lock j w).1.manager.lock_owners)
fetch-same j p k w = keep (rw (fetch-owner j w))

module _ (path : Text → Text) where
  -- A descriptor in hand proves that the key has no owner.
  registering-free :
      (t : ℕ) (r : Request) (rl fd : ℕ) (w : World)
      → (w.pcs t ≡ registering r rl fd)
      → IsSafe path w
      → owner_at r.resource_key w ≡ none
  registering-free t r rl fd w h s = elim (Option-cases (owner_at r.resource_key w)) [
    | inl e ↦ e
    | inr (o, e) ↦ elim (Option-cases (lookup r.resource_key w.manager.open_fds)) [
      | inl f ↦ ground (arith, s.1 r.resource_key)
      | inr (g, f) ↦ ground (
        arith,
        s.0.locked r.resource_key g,
        s.0.flying t fd r.resource_key (rw h),
        s.0.apart t fd r.resource_key r.resource_key (rw h),
      )
    ]
  ]

  try_os_lock-owner :
      (t : ℕ) (r : Request) (rl : ℕ) (b : Bool) (h : Option Holder) (w : World)
      → (try_os_lock path t r rl b h w).manager ≡ w.manager
  try_os_lock-owner t r rl false h w = refl
  try_os_lock-owner t r rl true (some h) w = refl
  try_os_lock-owner t r rl true none w = refl

  recover-owner :
      (t : ℕ) (r : Request) (rl : ℕ) (b : Bool) (o : Option Owner) (w : World)
      → (recover t r rl b o w).manager.lock_owners ≡ w.manager.lock_owners
  recover-owner t r rl false o w = refl
  recover-owner t r rl true (some o) w = refl
  recover-owner t r rl true none w = refl

  advance-Change :
      (e : Surroundings) (t : ℕ) (p : Pc) (w : World) (k : Text)
      → (w.pcs t ≡ p)
      → IsSafe path w
      → Change k p (owner_at k w) (owner_at k (advance path e t p w))
  unfolding advance
  advance-Change e t idle w k h s = keep refl
  advance-Change e t (entering r) w k h s = fetch-same r.resource_key (entering r) k w
  advance-Change e t (checking r rl) w k h s =
      re_enter-Change t r (checking r rl) (polling r rl) (owner_at r.resource_key w) w k refl refl
  advance-Change e t (polling r rl) w k h s = keep (ground arith)
  advance-Change e t (waiting r rl) w k h s = keep (ground arith)
  advance-Change e t (rechecking r rl) w k h s =
      re_enter-Change t r (rechecking r rl) (opening r rl) (owner_at r.resource_key w) w k refl refl
  advance-Change e t (opening r rl) w k h s =
      keep
        (ground (arith, try_os_lock-owner t r rl e.opens (lookup (path r.resource_key) w.files) w))
  advance-Change e t (recovering r rl) w k h s =
      keep (ground (arith, recover-owner t r rl (may_recover e) (owner_at r.resource_key w) w))
  advance-Change e t (leaving r rl) w k h s = keep refl
  advance-Change e t (registering r rl fd) w k h s =
      insert-Change r.resource_key k (registering r rl fd) (new_owner r) w.manager.lock_owners
        (λ same. grant r refl same (rw (← same) (registering-free t r rl fd w h s)) refl)
  advance-Change e t (closing r rl fd) w k h s = keep refl
  advance-Change e t (acquired r) w k h s = keep refl
  advance-Change e t (timed_out r) w k h s = keep refl
  advance-Change e t (releasing r) w k h s = give_up-Change t r (owner_at r.resource_key w) w k refl
  advance-Change e t (unlocking r fd) w k h s = keep refl
  advance-Change e t (handing r) w k h s = fetch-same r.resource_key (handing r) k w
  advance-Change e t (released r) w k h s = keep refl
  advance-Change e t (refused r) w k h s = keep refl

  begin-owner : (t : ℕ) (p : Pc) (w : World) → (begin t p w).manager ≡ w.manager
  begin-owner t p w = ground arith

  foreign_lock_on-owner :
      (file : Text) (h : Option Holder) (w : World) → (foreign_lock_on file h w).manager ≡ w.manager
  foreign_lock_on-owner file none w = refl
  foreign_lock_on-owner file (some h) w = refl

  foreign_unlock_on-owner :
      (file : Text) (h : Option Holder) (w : World)
      → (foreign_unlock_on file h w).manager ≡ w.manager
  foreign_unlock_on-owner file none w = refl
  foreign_unlock_on-owner file (some theirs) w = refl
  foreign_unlock_on-owner file (some (ours fd)) w = refl

  take_step-Change :
      (e : Event) (w : World) (k : Text)
      → IsSafe path w
      → Change k (actor e w) (owner_at k w) (owner_at k (take_step path e w))
  unfolding take_step
  take_step-Change (acquire_lock t o res r) w k s =
      keep (rw (begin-owner t (entering (request o res r)) w))
  take_step-Change (release_lock t o res r) w k s =
      keep (rw (begin-owner t (releasing (request o res r)) w))
  take_step-Change (turn t e) w k s = advance-Change e t (w.pcs t) w k refl s
  take_step-Change (foreign_lock file) w k s =
      keep (rw (foreign_lock_on-owner file (lookup file w.files) w))
  take_step-Change (foreign_unlock file) w k s =
      keep (rw (foreign_unlock_on-owner file (lookup file w.files) w))

  -- Every step of the lock manager, however its threads and other processes interleave, is at each key a
  -- step of an abstract lock: a key without an owner is granted to the request of the thread that makes
  -- the step, its owner enters again or leaves it, and the last leave frees it. No other step changes an
  -- owner, recovery of stale locks included.
  pub run-refines :
      (es : List Event) (e : Event) (k : Text)
      → let w = run path es start in
        Change k (actor e w) (owner_at k w) (owner_at k (take_step path e w))
  run-refines es e k =
      take_step-Change e (run path es start) k (run-IsSafe path es start (start-IsSafe path))
