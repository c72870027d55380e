-- ===== src/Simulator/Expectations/Recorded.antt =====
-- simulator/command_expectations.go: the expectations against the commands that are recorded, while a
-- reader takes commands from the bounded channel.
use go_aioesphomeapi.Base.{
  ◌≤◌, ◌<◌, ◌≡◌, refl, sym, ◌∙◌, Bool, true, false, List, [], ◌∷◌, ◌++◌, none, arith, inl, inr, ◌⊎◌,
  ◌≢◌, ◌↔◌, ltb, length, drop, All, Bool-cases, List-cases, Option-cases, get_elem?,
}
use mathlib.Core.Path.{subst}
use go_aioesphomeapi.Messages.{Message}
use go_aioesphomeapi.Simulator.Expectations.{
  Expectation, Observer, new_observer, is_some, match_expectation, observe, check_expectations,
  satisfied, set_command_error, record_command, take_command,
}
use go_aioesphomeapi.Simulator.Expectations.Order.{
  IsObserver, IsCounted, remaining, expand, fits, observe-Observed, new-IsObserver, satisfied_iff,
  drop-eq-nil, rest_of-zero,
}

-- A command arrives, or a reader takes one from the channel.
pub data CommandEvent : Type 0 where
  arrives : Message → CommandEvent
  taken : CommandEvent

unfoldable pub commands_of : List CommandEvent → List Message
commands_of [] = []
commands_of (arrives c ∷ events) = c ∷ commands_of events
commands_of (taken ∷ events) = commands_of events

module _ (proto_equal : Message → Message → Bool) where
  unfoldable pub on_event : CommandEvent → Observer → Observer
  unfolding record_command take_command
  on_event (arrives c) o = record_command proto_equal c o
  on_event taken o = take_command o

  unfoldable pub run_commands : Observer → List CommandEvent → Observer
  run_commands o [] = o
  run_commands o (event ∷ events) = run_commands (on_event event o) events

  -- Only the channel's contents differ.
  abbrev SameMatch : Observer → Observer → Type 0
  SameMatch o o' = (pending : List Message) × (o' ≡ record o { pending = pending })

  -- What a run can go on from.
  abbrev Fits : List Message → Observer → Type 0
  Fits rest o = IsObserver o × (o.failure ≡ none) × (remaining o ≡ rest) × (o.dropped ≡ 0)

  SameMatch-Fits :
      {o o' : Observer} (rest : List Message) → SameMatch o o' → Fits rest o → Fits rest o'
  SameMatch-Fits {o} rest (pending, e) (v, f, r, d) = subst (Fits rest) (sym e) (
    record { counted = v.counted; some_expected = v.some_expected; within = v.within; due = v.due },
    f,
    r,
    d,
  )

  observe-dropped : (c : Message) (o : Observer) → (observe proto_equal c o).dropped ≡ o.dropped
  unfolding observe match_expectation set_command_error
  observe-dropped c o = elim (Option-cases (get_elem? o.expected o.index)) [
    | inl e ↦ ground (arith, e)
    | inr (x, e) ↦ ground (arith, e)
  ]

  observe-expected : (c : Message) (o : Observer) → (observe proto_equal c o).expected ≡ o.expected
  unfolding observe match_expectation set_command_error
  observe-expected c o = elim (Option-cases (get_elem? o.expected o.index)) [
    | inl e ↦ ground (arith, e)
    | inr (x, e) ↦ ground (arith, e)
  ]

  take-SameMatch : (o : Observer) → SameMatch o (take_command o)
  unfolding take_command
  take-SameMatch o = elim (List-cases o.pending) [
    | inl e ↦ (o.pending, ground (arith, e))
    | inr (c, rest, e) ↦ (rest, ground (arith, e))
  ]

  -- The command fits in the channel, or it is dropped, which is a failure.
  record-Channelled :
      (c : Message) (o : Observer)
      → o.expected ≢ []
      → SameMatch (observe proto_equal c o) (record_command proto_equal c o)
        ⊎ ((is_some (record_command proto_equal c o).failure ≡ true)
            × (o.dropped < (record_command proto_equal c o).dropped))
  unfolding record_command
  record-Channelled c o n =
      let k = observe-dropped c o in
      let e = observe-expected c o in
      elim (Bool-cases (ltb (length (observe proto_equal c o).pending) 64)) [
        | inl room ↦ inl ((observe proto_equal c o).pending ++ (c ∷ []), ground (arith, room))
        | inr full ↦ inr (
          unfold set_command_error in ground (arith, full, e, n),
          unfold set_command_error in ground (arith, full, e, n, k),
        )
      ]

  record-failed :
      (c : Message) (o : Observer)
      → is_some o.failure ≡ true
      → (is_some (record_command proto_equal c o).failure ≡ true)
        × (o.dropped ≤ (record_command proto_equal c o).dropped)
  unfolding record_command observe set_command_error
  record-failed c o h = ground (arith, h)

  record-still_failed :
      (c : Message) (o : Observer)
      → is_some (observe proto_equal c o).failure ≡ true
      → (is_some (record_command proto_equal c o).failure ≡ true)
        × (o.dropped ≤ (record_command proto_equal c o).dropped)
  unfolding record_command set_command_error
  record-still_failed c o h = let k = observe-dropped c o in ground (arith, h, k)

  failed_stays :
      (o : Observer) (events : List CommandEvent)
      → is_some o.failure ≡ true
      → (is_some (run_commands o events).failure ≡ true)
        × (o.dropped ≤ (run_commands o events).dropped)
  unfolding run_commands on_event
  failed_stays o [] h = (h, omega arith)
  failed_stays o (arrives c ∷ events) h =
      let (f, d) = record-failed c o h in
      let (f', d') = failed_stays (record_command proto_equal c o) events f in
      (f', omega (arith, d, d'))
  failed_stays o (taken ∷ events) h =
      unfold take_command in
      let t = failed_stays (take_command o) events (ground (arith, h)) in (t.0, ground (arith, t.1))

  -- After a run: the commands fit so far and none was dropped, or the observer has failed, and they do
  -- not fit or some was dropped.
  abbrev Run : List Message → List Message → Observer → Type 0
  Run rest cs o =
      ((fits proto_equal rest cs ≡ true)
        × (length cs ≤ length rest)
        × Fits (drop (length cs) rest) o)
      ⊎ (((fits proto_equal rest cs ≡ false) ⊎ (0 < o.dropped)) × (is_some o.failure ≡ true))

  Run-cons :
      (m c : Message) (rest cs : List Message) (o : Observer)
      → proto_equal c m ≡ true
      → Run rest cs o
      → Run (m ∷ rest) (c ∷ cs) o
  unfolding fits
  Run-cons m c rest cs o same (inl (fine, short, kept)) = inl (ground arith, omega arith, kept)
  Run-cons m c rest cs o same (inr (inl bad, failure)) = inr (inl (ground arith), failure)
  Run-cons m c rest cs o same (inr (inr lost, failure)) = inr (inr lost, failure)

  run_commands-Run :
      (o : Observer) (events : List CommandEvent) (rest : List Message)
      → Fits rest o
      → Run rest (commands_of events) (run_commands o events)
  unfolding run_commands on_event commands_of fits
  run_commands-Run o [] rest h = inl (refl, omega arith, h)
  run_commands-Run o (taken ∷ events) rest h =
      run_commands-Run (take_command o) events rest (SameMatch-Fits rest (take-SameMatch o) h)
  run_commands-Run o (arrives c ∷ events) rest (v, clear, start, kept) =
      let end = run_commands (record_command proto_equal c o) events in
      elim (observe-Observed proto_equal c o v clear) [
        | inl (none_left, failure) ↦
            let (f, d) = record-still_failed c o failure in
            let (f', d') = failed_stays (record_command proto_equal c o) events f in
            inr (inl (ground (arith, start, none_left)), f')
        | inr (m, later, shape, inl (differs, failure)) ↦
            let (f, d) = record-still_failed c o failure in
            let (f', d') = failed_stays (record_command proto_equal c o) events f in
            inr (inl (ground (arith, start, shape, differs)), f')
        | inr (m, later, shape, inr (same, (v', clear', left))) ↦
            elim (record-Channelled c o v.some_expected) [
              | inl room ↦
                  let fit : Fits later (observe proto_equal c o) =
                    (v', clear', left, observe-dropped c o ∙ kept) in
                  subst (λ (r : List Message). Run r (c ∷ commands_of events) end)
                    (sym shape ∙ start)
                    (Run-cons m c later (commands_of events) end same (
                      run_commands-Run (record_command proto_equal c o) events later
                        (SameMatch-Fits later room fit)))
              | inr (f, d) ↦
                  let (f', d') = failed_stays (record_command proto_equal c o) events f in
                  inr (inr (omega (arith, d, d')), f')
            ]
      ]

-- For a non-empty list of expectations with positive counts, and a reader that takes commands from
-- the channel at any moments or never: a run of recorded commands satisfies the wait exactly when
-- the commands equal, one by one and to the last, the expected commands each repeated as often as
-- its count, and none of them was dropped because the channel was full.
pub expectations_satisfied_iff :
    (proto_equal : Message → Message → Bool) (es : List Expectation) (events : List CommandEvent)
    → All IsCounted es
    → es ≢ []
    → (check_expectations (run_commands proto_equal (new_observer es) events) ≡ satisfied) ↔ (
        (fits proto_equal (expand es) (commands_of events) ≡ true)
        × (length (commands_of events) ≡ length (expand es))
        × ((run_commands proto_equal (new_observer es) events).dropped ≡ 0))
expectations_satisfied_iff proto_equal es events counted some_expected =
    let start : Fits proto_equal (expand es) (new_observer es) = (
      new-IsObserver es counted some_expected,
      (unfold new_observer in refl),
      (unfold new_observer in rest_of-zero es),
      (unfold new_observer in refl),
    ) in
    elim (run_commands-Run proto_equal (new_observer es) events (expand es) start) [
      | inl (fine, short, (v, clear, left, kept)) ↦
          let (to, from) =
            satisfied_iff (run_commands proto_equal (new_observer es) events) v clear in
          let (all, back) = drop-eq-nil (length (commands_of events)) (expand es) short in
          (λ h. (fine, all (sym left ∙ to h), kept), λ h. from (left ∙ back h.1))
      | inr (cause, failure) ↦ (
        λ h. absurd (unfold check_expectations in ground (arith, failure, h)),
        λ h. elim cause [
          | inl bad ↦ absurd (cc (bad, h.0))
          | inr lost ↦ absurd (omega (arith, lost, h.2))
        ],
      )
    ]
