-- ===== src/Vcs/Lock/Progress.antt =====
-- What a call of the lock manager comes to: an answer in bounded time, and what the answer means.
use agentic_ai_software_engi.Base.{
  ℕ, ◌-◌, ◌≤◌, ◌≡◌, ◌≢◌, refl, ap, Text, text_eq, nat_eq, Bool, true, false, Option, none, some,
  List, [], ◌∷◌, ◌==◌, if◌then◌else◌, arith, Bool-cases, All, count_if, inl, inr, ==_sound,
}
use agentic_ai_software_engi.Base.Dict.{lookup}
use agentic_ai_software_engi.Vcs.Lock.{
  Request, Owner, Holder, ours, theirs, Pc, idle, entering, checking, polling, waiting, rechecking,
  opening, recovering, leaving, registering, closing, acquired, timed_out, releasing, unlocking,
  handing, released, refused, World, Surroundings, may_recover, put,
}
use agentic_ai_software_engi.Vcs.Lock.Step.{
  get_thread_lock, re_enter, try_os_lock, recover, give_up, advance, has_returned, Event,
  acquire_lock, release_lock, turn, foreign_lock, foreign_unlock, foreign_lock_on,
  foreign_unlock_on, take_step, run,
}
use agentic_ai_software_engi.Vcs.Lock.Invariant.{fetch-pcs}
use agentic_ai_software_engi.Vcs.Lock.Ownership.{owner_at}

-- How many steps a call takes at most once its deadline is past.
abbrev pub rank : Pc → ℕ
rank (entering r) = 9
rank (checking r rl) = 8
rank (polling r rl) = 7
rank (rechecking r rl) = 6
rank (opening r rl) = 5
rank (recovering r rl) = 4
rank (closing r rl fd) = 3
rank (leaving r rl) = 2
rank (waiting r rl) = 1
rank (registering r rl fd) = 1
rank (releasing r) = 3
rank (unlocking r fd) = 2
rank (handing r) = 1
rank p = 0

rank_zero : (p : Pc) → rank p ≡ 0 → has_returned p ≡ true
rank_zero idle h = refl
rank_zero (acquired r) h = refl
rank_zero (timed_out r) h = refl
rank_zero (released r) h = refl
rank_zero (refused r) h = refl
rank_zero p h = ground arith

-- The thread begins no call, and at its own turns its deadline is past.
abbrev pub IsLate : ℕ → Event → Type 0
IsLate t (acquire_lock u o res r) = t ≢ u
IsLate t (release_lock u o res r) = t ≢ u
IsLate t (turn u e) = u ≡ t → e.past_deadline ≡ true
IsLate t (foreign_lock file) = Unit
IsLate t (foreign_unlock file) = Unit

abbrev pub is_turn : ℕ → Event → Bool
is_turn t (turn u e) = u == t
is_turn t e = false

module _ (path : Text → Text) where
  re_enter-rank :
      (t : ℕ) (r : Request) (q : Pc) (o : Option Owner) (w : World)
      → rank ((re_enter t r q o w).pcs t) ≤ rank q
  re_enter-rank t r q none w = ground arith
  re_enter-rank t r q (some o) w = ground arith

  try_os_lock-rank :
      (t : ℕ) (r : Request) (rl : ℕ) (b : Bool) (h : Option Holder) (w : World)
      → rank ((try_os_lock path t r rl b h w).pcs t) ≤ 4
  try_os_lock-rank t r rl false h w = ground arith
  try_os_lock-rank t r rl true (some h) w = ground arith
  try_os_lock-rank t r rl true none w = ground arith

  recover-rank :
      (t : ℕ) (r : Request) (rl : ℕ) (b : Bool) (o : Option Owner) (w : World)
      → rank ((recover t r rl b o w).pcs t) ≤ 3
  recover-rank t r rl false o w = ground arith
  recover-rank t r rl true (some o) w = ground arith
  recover-rank t r rl true none w = ground arith

  give_up-rank :
      (t : ℕ) (r : Request) (o : Option Owner) (w : World) → rank ((give_up t r o w).pcs t) ≤ 2
  give_up-rank t r none w = ground arith
  give_up-rank t r (some o) w = ground arith

  -- Each step of a late call brings its end nearer.
  advance-rank :
      (e : Surroundings) (t : ℕ) (p : Pc) (w : World)
      → w.pcs t ≡ p
      → e.past_deadline ≡ true
      → rank ((advance path e t p w).pcs t) ≤ rank p - 1
  unfolding advance
  advance-rank e t idle w h d = ground arith
  advance-rank e t (entering r) w h d = ground arith
  advance-rank e t (checking r rl) w h d =
      ground (arith, re_enter-rank t r (polling r rl) (owner_at r.resource_key w) w)
  advance-rank e t (polling r rl) w h d = ground arith
  advance-rank e t (waiting r rl) w h d = ground arith
  advance-rank e t (rechecking r rl) w h d =
      ground (arith, re_enter-rank t r (opening r rl) (owner_at r.resource_key w) w)
  advance-rank e t (opening r rl) w h d =
      ground (arith, try_os_lock-rank t r rl e.opens (lookup (path r.resource_key) w.files) w)
  advance-rank e t (recovering r rl) w h d =
      ground (arith, recover-rank t r rl (may_recover e) (owner_at r.resource_key w) w)
  advance-rank e t (leaving r rl) w h d = ground arith
  advance-rank e t (registering r rl fd) w h d = ground arith
  advance-rank e t (closing r rl fd) w h d = ground arith
  advance-rank e t (acquired r) w h d = ground arith
  advance-rank e t (timed_out r) w h d = ground arith
  advance-rank e t (releasing r) w h d =
      ground (arith, give_up-rank t r (owner_at r.resource_key w) w)
  advance-rank e t (unlocking r fd) w h d = ground arith
  advance-rank e t (handing r) w h d = ground arith
  advance-rank e t (released r) w h d = ground arith
  advance-rank e t (refused r) w h d = ground arith

  re_enter-other :
      (t u : ℕ) (r : Request) (q : Pc) (o : Option Owner) (w : World)
      → t ≢ u
      → (re_enter u r q o w).pcs t ≡ w.pcs t
  re_enter-other t u r q none w d = ground arith
  re_enter-other t u r q (some o) w d = ground arith

  try_os_lock-other :
      (t u : ℕ) (r : Request) (rl : ℕ) (b : Bool) (h : Option Holder) (w : World)
      → t ≢ u
      → (try_os_lock path u r rl b h w).pcs t ≡ w.pcs t
  try_os_lock-other t u r rl false h w d = ground arith
  try_os_lock-other t u r rl true (some h) w d = ground arith
  try_os_lock-other t u r rl true none w d = ground arith

  recover-other :
      (t u : ℕ) (r : Request) (rl : ℕ) (b : Bool) (o : Option Owner) (w : World)
      → t ≢ u
      → (recover u r rl b o w).pcs t ≡ w.pcs t
  recover-other t u r rl false o w d = ground arith
  recover-other t u r rl true (some o) w d = ground arith
  recover-other t u r rl true none w d = ground arith

  give_up-other :
      (t u : ℕ) (r : Request) (o : Option Owner) (w : World)
      → t ≢ u
      → (give_up u r o w).pcs t ≡ w.pcs t
  give_up-other t u r none w d = ground arith
  give_up-other t u r (some o) w d = ground arith

  fetch-other :
      (t u : ℕ) (k : Text) (p : Pc) (w : World)
      → t ≢ u
      → (put u p (get_thread_lock k w).1).pcs t ≡ w.pcs t
  fetch-other t u k p w d = ground (arith, ap (λ (f : ℕ → Pc). f t) (fetch-pcs path k w))

  advance-other :
      (e : Surroundings) (t u : ℕ) (p : Pc) (w : World)
      → t ≢ u
      → (advance path e u p w).pcs t ≡ w.pcs t
  unfolding advance
  advance-other e t u idle w d = refl
  advance-other e t u (entering r) w d = fetch-other t u r.resource_key _ w d
  advance-other e t u (checking r rl) w d =
      re_enter-other t u r (polling r rl) (owner_at r.resource_key w) w d
  advance-other e t u (polling r rl) w d = ground arith
  advance-other e t u (waiting r rl) w d = ground arith
  advance-other e t u (rechecking r rl) w d =
      re_enter-other t u r (opening r rl) (owner_at r.resource_key w) w d
  advance-other e t u (opening r rl) w d =
      try_os_lock-other t u r rl e.opens (lookup (path r.resource_key) w.files) w d
  advance-other e t u (recovering r rl) w d =
      recover-other t u r rl (may_recover e) (owner_at r.resource_key w) w d
  advance-other e t u (leaving r rl) w d = ground arith
  advance-other e t u (registering r rl fd) w d = ground arith
  advance-other e t u (closing r rl fd) w d = ground arith
  advance-other e t u (acquired r) w d = refl
  advance-other e t u (timed_out r) w d = refl
  advance-other e t u (releasing r) w d = give_up-other t u r (owner_at r.resource_key w) w d
  advance-other e t u (unlocking r fd) w d = ground arith
  advance-other e t u (handing r) w d = fetch-other t u r.resource_key _ w d
  advance-other e t u (released r) w d = refl
  advance-other e t u (refused r) w d = refl

  foreign_lock_on-pcs :
      (file : Text) (h : Option Holder) (w : World) → (foreign_lock_on file h w).pcs ≡ w.pcs
  foreign_lock_on-pcs file none w = refl
  foreign_lock_on-pcs file (some h) w = refl

  foreign_unlock_on-pcs :
      (file : Text) (h : Option Holder) (w : World) → (foreign_unlock_on file h w).pcs ≡ w.pcs
  foreign_unlock_on-pcs file none w = refl
  foreign_unlock_on-pcs file (some theirs) w = refl
  foreign_unlock_on-pcs file (some (ours fd)) w = refl

  turn-rank :
      (e : Surroundings) (t u : ℕ) (w : World)
      → (u ≡ t → e.past_deadline ≡ true)
      → rank ((advance path e u (w.pcs u) w).pcs t) ≤ rank (w.pcs t) - (if u == t then 1 else 0)
  turn-rank e t u w d = elim (Bool-cases (u == t)) [
    | inl same ↦
        let e' = ==_sound u t same in
        rw same (ground (arith, advance-rank e t (w.pcs t) w refl (d e')))
    | inr other ↦ rw other (ground (arith, advance-other e t u (w.pcs u) w))
  ]

  take_step-rank :
      (e : Event) (t : ℕ) (w : World)
      → IsLate t e
      → rank ((take_step path e w).pcs t) ≤ rank (w.pcs t) - (if is_turn t e then 1 else 0)
  unfolding take_step
  take_step-rank (acquire_lock u o res r) t w d = ground arith
  take_step-rank (release_lock u o res r) t w d = ground arith
  take_step-rank (turn u e) t w d = turn-rank e t u w d
  take_step-rank (foreign_lock file) t w d =
      rw (foreign_lock_on-pcs file (lookup file w.files) w) (omega arith)
  take_step-rank (foreign_unlock file) t w d =
      rw (foreign_unlock_on-pcs file (lookup file w.files) w) (omega arith)

  run-rank :
      (es : List Event) (t : ℕ) (w : World)
      → All (IsLate t) es
      → rank ((run path es w).pcs t) ≤ rank (w.pcs t) - count_if (is_turn t) es
  unfolding run
  run-rank [] t w d = omega arith
  run-rank (e ∷ es) t w d =
      ground (arith, run-rank es t (take_step path e w) d.1, take_step-rank e t w d.0)

  rank-le : (p : Pc) → rank p ≤ 9
  rank-le idle = omega arith
  rank-le p = ground arith

  -- Once its deadline is past, a call of a thread ends within nine steps of that thread, whatever the other
  -- threads and processes do in between: no lock is waited for without end.
  pub run-returns :
      (es : List Event) (t : ℕ) (w : World)
      → All (IsLate t) es
      → 9 ≤ count_if (is_turn t) es
      → has_returned ((run path es w).pcs t) ≡ true
  run-returns es t w d n =
      rank_zero ((run path es w).pcs t) (omega (arith, run-rank es t w d, rank-le (w.pcs t)))
