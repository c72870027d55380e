-- ===== src/Conveyor/Scripts/Waiting.antt =====
-- conveyor_device.go: the steps that still wait, by script.
use go_aioesphomeapi.Base.{
  ℕ, zero, suc, ◌≤◌, ◌≢◌, ◌≡◌, refl, ap, sym, ◌∙◌, Bool, true, false, List, [], ◌∷◌, ◌==◌, ◌&&◌,
  some, if◌then◌else◌, get_elem?, All, arith, Bool-cases, inl, inr, ==_iff, ==_self,
}
use go_aioesphomeapi.Conveyor.Scripts.{
  Script, request_run, travel, capture, exit_hold, jam, bench, script_index, script_equal, Tick,
  Timer, Scripts, after, stop, restart, without, fired,
}

abbrev pub waits : (Script → ℕ) → Script → Tick → Bool
waits gen r t = script_equal t.script r && (t.gen == gen r)

-- The steps of a script's current generation among the timers, newest first.
unfoldable pub waiting_in : (Script → ℕ) → Script → List Timer → List ℕ
waiting_in gen r [] = []
waiting_in gen r (t ∷ rest) =
    let later = waiting_in gen r rest in if waits gen r t.tick then t.tick.step ∷ later else later

unfoldable pub waiting : Scripts → Script → List ℕ
unfolding waiting_in
waiting w r = waiting_in w.gen r w.timers

-- No timer is ahead of its script's generation.
abbrev pub IsIssued : Scripts → Type 0
IsIssued w = All (λ t. t.tick.gen ≤ w.gen t.tick.script) w.timers

script_at : ℕ → Script
script_at n =
    if n == 0
    then request_run
    else if n == 1
    then travel
    else if n == 2
    then capture
    else if n == 3
    then exit_hold
    else if n == 4
    then jam
    else bench

script_at-script_index : (s : Script) → script_at (script_index s) ≡ s
unfolding script_at
script_at-script_index request_run = refl
script_at-script_index travel = refl
script_at-script_index capture = refl
script_at-script_index exit_hold = refl
script_at-script_index jam = refl
script_at-script_index bench = refl

pub script_equal→≡ : (s r : Script) → script_equal s r ≡ true → s ≡ r
script_equal→≡ s r h =
    sym (script_at-script_index s)
    ∙ ap script_at ((==_iff (script_index s) (script_index r)).0 h)
    ∙ script_at-script_index r

-- A step that is scheduled waits with those that already did.
pub waiting-after :
    (s r : Script) (step delay : ℕ) (w : Scripts)
    → waiting (after s step delay w) r
      ≡ (if script_equal s r then step ∷ waiting w r else waiting w r)
unfolding waiting waiting_in after
waiting-after s r step delay w = elim (Bool-cases (script_equal s r)) [
  | inl e ↦ ground (arith, e, ap w.gen (script_equal→≡ s r e), ==_self (w.gen r))
  | inr e ↦ ground (arith, e)
]

stopped-waiting_in :
    (s r : Script) (w : Scripts) (timers : List Timer)
    → All (λ t. t.tick.gen ≤ w.gen t.tick.script) timers
    → waiting_in (stop s w).gen r timers
      ≡ (if script_equal r s then [] else waiting_in w.gen r timers)
unfolding waiting_in stop
stopped-waiting_in s r w [] h = ground arith
stopped-waiting_in s r w (t ∷ rest) h =
    let later = stopped-waiting_in s r w rest h.1 in
    elim (Bool-cases (script_equal r s)) [
      | inl e ↦ elim (Bool-cases (script_equal t.tick.script r)) [
        | inl f ↦ ground (arith, later, e, f, h.0, ap w.gen (script_equal→≡ t.tick.script r f))
        | inr f ↦ ground (arith, later, e, f)
      ]
      | inr e ↦ ground (arith, later, e)
    ]

-- Of a stopped script nothing waits any more.
pub waiting-stop :
    (s r : Script) (w : Scripts)
    → IsIssued w
    → waiting (stop s w) r ≡ (if script_equal r s then [] else waiting w r)
unfolding waiting stop
waiting-stop s r w h = stopped-waiting_in s r w w.timers h

pub waiting-restart :
    (s r : Script) (step delay : ℕ) (w : Scripts)
    → IsIssued w
    → waiting (restart s step delay w) r ≡ (if script_equal s r then step ∷ [] else waiting w r)
unfolding restart
waiting-restart s r step delay w h = elim (Bool-cases (script_equal s r)) [
  | inl e ↦ ground (
    arith,
    e,
    waiting-after s r step delay (stop s w),
    waiting-stop s r w h,
    ==_self (script_index s),
  )
  | inr e ↦ ground (arith, e, waiting-after s r step delay (stop s w), waiting-stop s r w h)
]

pub after-IsIssued :
    (s : Script) (step delay : ℕ) (w : Scripts) → IsIssued w → IsIssued (after s step delay w)
unfolding after
after-IsIssued s step delay w h = (omega arith, h)

stopped-IsIssued :
    (s : Script) (w : Scripts) (timers : List Timer)
    → All (λ t. t.tick.gen ≤ w.gen t.tick.script) timers
    → All (λ t. t.tick.gen ≤ (stop s w).gen t.tick.script) timers
unfolding stop
stopped-IsIssued s w [] h = h
stopped-IsIssued s w (t ∷ rest) h = (ground (arith, h.0), stopped-IsIssued s w rest h.1)

pub stop-IsIssued : (s : Script) (w : Scripts) → IsIssued w → IsIssued (stop s w)
unfolding stop
stop-IsIssued s w h = stopped-IsIssued s w w.timers h

pub restart-IsIssued :
    (s : Script) (step delay : ℕ) (w : Scripts) → IsIssued w → IsIssued (restart s step delay w)
unfolding restart
restart-IsIssued s step delay w h = after-IsIssued s step delay (stop s w) (stop-IsIssued s w h)

without-All :
    (P : Timer → Type 0) (timers : List Timer) (i : ℕ) → All P timers → All P (without timers i)
unfolding without
without-All P [] i h = h
without-All P (t ∷ rest) zero h = h.1
without-All P (t ∷ rest) (suc i) h = (h.0, without-All P rest i h.1)

pub fired-IsIssued : (w : Scripts) (i : ℕ) → IsIssued w → IsIssued (fired w i)
unfolding fired
fired-IsIssued w i h = without-All (λ t. t.tick.gen ≤ w.gen t.tick.script) w.timers i h

-- What a timer that fires was for: nothing any more, or a step that waited.
pub record Fires (w : Scripts) (i : ℕ) (t : Tick) : Type 0 where
  pub others : (r : Script) → waits w.gen r t ≡ false → waiting (fired w i) r ≡ waiting w r
  pub only :
      (r : Script) (step : ℕ)
      → waits w.gen r t ≡ true
      → waiting w r ≡ step ∷ []
      → (t.step ≡ step) × (waiting (fired w i) r ≡ [])
  pub never : (r : Script) → waits w.gen r t ≡ true → waiting w r ≢ []

without-others :
    (gen : Script → ℕ) (r : Script) (timers : List Timer) (i : ℕ) (t : Timer)
    → get_elem? timers i ≡ some t
    → waits gen r t.tick ≡ false
    → waiting_in gen r (without timers i) ≡ waiting_in gen r timers
unfolding without waiting_in
without-others gen r [] i t e n = cc
without-others gen r (u ∷ rest) zero t e n = ground (arith, e, n)
without-others gen r (u ∷ rest) (suc i) t e n =
    let h = without-others gen r rest i t e n in ground (arith, h)

waiting-never :
    (gen : Script → ℕ) (r : Script) (timers : List Timer) (i : ℕ) (t : Timer)
    → get_elem? timers i ≡ some t
    → waits gen r t.tick ≡ true
    → waiting_in gen r timers ≢ []
unfolding without waiting_in
waiting-never gen r [] i t e n = λ _. cc
waiting-never gen r (u ∷ rest) zero t e n = λ h. ground (arith, e, n, h)
waiting-never gen r (u ∷ rest) (suc i) t e n =
    let h = waiting-never gen r rest i t e n in λ k. ground (arith, h, k)

without-only :
    (gen : Script → ℕ) (r : Script) (timers : List Timer) (i : ℕ) (t : Timer) (step : ℕ)
    → get_elem? timers i ≡ some t
    → waits gen r t.tick ≡ true
    → waiting_in gen r timers ≡ step ∷ []
    → (t.tick.step ≡ step) × (waiting_in gen r (without timers i) ≡ [])
unfolding without waiting_in
without-only gen r [] i t step e n h = absurd cc
without-only gen r (u ∷ rest) zero t step e n h = ground (arith, e, n, h)
without-only gen r (u ∷ rest) (suc i) t step e n h = elim (Bool-cases (waits gen r u.tick)) [
  | inl f ↦ let k = waiting-never gen r rest i t e n in absurd (ground (arith, k, h, f))
  | inr f ↦ let k = without-only gen r rest i t step e n in ground (arith, k, h, f)
]

pub get-Fires : (w : Scripts) (i : ℕ) (t : Timer) → get_elem? w.timers i ≡ some t → Fires w i t.tick
unfolding waiting fired
get-Fires w i t e = record {
  others = λ r n. without-others w.gen r w.timers i t e n;
  only = λ r step n h. without-only w.gen r w.timers i t step e n h;
  never = λ r n. waiting-never w.gen r w.timers i t e n;
}
