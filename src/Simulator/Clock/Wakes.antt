-- ===== src/Simulator/Clock/Wakes.antt =====
-- simulator/clock.go: the calls that reach a clock, in any order, and who waits on it.
use mathlib.Core.Path.{subst}
use go_aioesphomeapi.Base.{
  ℕ, ◌≤◌, ◌≡◌, inl, inr, true, List, [], ◌∷◌, arith, ◌==◌, Bool-cases, All, ℤ, int_ltb, pos, negsuc,
  Table, insert, delete, Result, ok, ◌+◌, Result-cases,
}
use go_aioesphomeapi.Simulator.Clock.{
  ManualClock, ClockError, max_duration, advance_target, advance_to_target, still_waiting, advance,
  wait_until, stop_waiting, register, unregister,
}

-- The calls that reach a clock, in the order in which its lock admits them.
pub data ClockCall : Type 0 where
  call_advance call_advance_to : ℤ → ClockCall
  call_wait : ℕ → ℤ → ClockCall
  call_stop call_register call_unregister : ℕ → ClockCall

unfoldable pub call_clock : ClockCall → ManualClock → ManualClock
call_clock (call_advance delta) c = (advance (advance_target delta) c).0
call_clock (call_advance_to target) c = (advance (advance_to_target target) c).0
call_clock (call_wait k target) c = (wait_until k target c).0
call_clock (call_stop k) c = stop_waiting k c
call_clock (call_register device) c = register device c
call_clock (call_unregister device) c = unregister device c

unfoldable pub call_all : List ClockCall → ManualClock → ManualClock
call_all [] c = c
call_all (x ∷ xs) c = call_all xs (call_clock x c)

-- The values of `time.Duration`.
abbrev pub IsDuration : ℤ → Type 0
IsDuration (pos n) = n ≤ max_duration
IsDuration (negsuc n) = n ≤ max_duration

-- A call whose argument is a duration.
abbrev pub IsCall : ClockCall → Type 0
IsCall (call_advance_to target) = IsDuration target
IsCall _ = Unit

abbrev IsLater : ℤ → ℕ × ℤ → Type 0
IsLater now w = int_ltb now w.1 ≡ true

-- The time is a duration that is not negative, and every waiter waits for a later one.
pub record IsOnTime (c : ManualClock) : Type 0 where
  pub time : ℕ
  pub now_is : c.now ≡ pos time
  pub fits : time ≤ max_duration
  pub later : All (IsLater c.now) c.waiters

insert-IsLater :
    (now : ℤ) (k : ℕ) (target : ℤ) (ws : Table ℤ)
    → int_ltb now target ≡ true
    → All (IsLater now) ws
    → All (IsLater now) (insert k target ws)
unfolding insert
insert-IsLater now k target [] h a = (h, tt)
insert-IsLater now k target ((j, t) ∷ ws) h a = elim (Bool-cases (j == k)) [
  | inl e ↦ rw e (h, a.1)
  | inr e ↦ rw e (a.0, insert-IsLater now k target ws h a.1)
]

delete-IsLater :
    (now : ℤ) (k : ℕ) (ws : Table ℤ) → All (IsLater now) ws → All (IsLater now) (delete k ws)
unfolding delete
delete-IsLater now k [] a = tt
delete-IsLater now k ((j, t) ∷ ws) a = elim (Bool-cases (j == k)) [
  | inl e ↦ rw e a.1
  | inr e ↦ rw e (a.0, delete-IsLater now k ws a.1)
]

still_waiting-IsLater : (next : ℤ) (ws : Table ℤ) → All (IsLater next) (still_waiting next ws)
unfolding still_waiting
still_waiting-IsLater next [] = tt
still_waiting-IsLater next ((k, t) ∷ ws) = elim (Bool-cases (int_ltb next t)) [
  | inl e ↦ rw e (e, still_waiting-IsLater next ws)
  | inr e ↦ rw e (still_waiting-IsLater next ws)
]

-- A target that is given leads to a time that the clock can hold.
abbrev IsTarget : (ℤ → Result ClockError ℤ) → ManualClock → Type 0
IsTarget target c =
    (next : ℤ) → target c.now ≡ ok next → (t : ℕ) × (next ≡ pos t) × (t ≤ max_duration)

advance_target_fits :
    (d n : ℕ) (next : ℤ)
    → n ≤ max_duration
    → advance_target (pos d) (pos n) ≡ ok next
    → (next ≡ pos (n + d)) × (n + d ≤ max_duration)
unfolding advance_target
advance_target_fits d n next h e = ground arith

advance_target-IsTarget :
    (delta : ℤ) (c : ManualClock) → IsOnTime c → IsTarget (advance_target delta) c
advance_target-IsTarget (pos d) c p next e =
    let moved =
      advance_target_fits d p.time next p.fits
        (subst (λ (n : ℤ). advance_target (pos d) n ≡ ok next) p.now_is e) in
    (p.time + d, moved.0, moved.1)
advance_target-IsTarget (negsuc d) c p next e = absurd (unfold advance_target in ground arith)

advance_to_target-IsTarget :
    (target : ℤ) (c : ManualClock)
    → IsDuration target
    → IsOnTime c
    → IsTarget (advance_to_target target) c
unfolding advance_to_target
advance_to_target-IsTarget (pos t) c d p next e = (t, ground arith, d)
advance_to_target-IsTarget (negsuc t) c d p next e = absurd (ground (arith, p.now_is))

advance-IsOnTime :
    (target : ℤ → Result ClockError ℤ) (c : ManualClock)
    → IsTarget target c
    → IsOnTime c
    → IsOnTime (advance target c).0
unfolding advance
advance-IsOnTime target c h p = elim (Result-cases (target c.now)) [
  | inl (next, e) ↦
      let (t, next_is, fits) = h next e in
      rw (e, advance)
        (record {
          time = t;
          now_is = next_is;
          fits = fits;
          later = still_waiting-IsLater next c.waiters;
        })
  | inr (x, e) ↦ rw (e, advance) p
]

wait_until-IsOnTime :
    (k : ℕ) (target : ℤ) (c : ManualClock) → IsOnTime c → IsOnTime (wait_until k target c).0
unfolding wait_until
wait_until-IsOnTime k target c p = elim (Bool-cases (int_ltb c.now target)) [
  | inl e ↦ rw e (record {
    time = p.time;
    now_is = p.now_is;
    fits = p.fits;
    later = insert-IsLater c.now k target c.waiters e p.later;
  })
  | inr e ↦ rw e p
]

call_clock-IsOnTime :
    (x : ClockCall) (c : ManualClock) → IsCall x → IsOnTime c → IsOnTime (call_clock x c)
unfolding call_clock stop_waiting register unregister
call_clock-IsOnTime (call_advance delta) c k p =
    advance-IsOnTime (advance_target delta) c (advance_target-IsTarget delta c p) p
call_clock-IsOnTime (call_advance_to target) c k p =
    advance-IsOnTime (advance_to_target target) c (advance_to_target-IsTarget target c k p) p
call_clock-IsOnTime (call_wait k target) c _ p = wait_until-IsOnTime k target c p
call_clock-IsOnTime (call_stop k) c _ p = record {
  time = p.time;
  now_is = p.now_is;
  fits = p.fits;
  later = delete-IsLater c.now k c.waiters p.later;
}
call_clock-IsOnTime (call_register device) c _ p = record {
  time = p.time;
  now_is = p.now_is;
  fits = p.fits;
  later = p.later;
}
call_clock-IsOnTime (call_unregister device) c _ p = record {
  time = p.time;
  now_is = p.now_is;
  fits = p.fits;
  later = p.later;
}

-- Calls with durations for arguments, in any order, keep the clock's time a duration that is not
-- negative, so that it never overflows, and leave no waiter whose time has come.
pub call_all-IsOnTime :
    (calls : List ClockCall) (c : ManualClock)
    → All IsCall calls
    → IsOnTime c
    → IsOnTime (call_all calls c)
unfolding call_all
call_all-IsOnTime [] c k p = p
call_all-IsOnTime (x ∷ xs) c k p =
    call_all-IsOnTime xs (call_clock x c) k.1 (call_clock-IsOnTime x c k.0 p)
