-- ===== src/Simulator/Device/Advance.antt =====
-- simulator/simulator.go: `advanceTimeline` in one step and in several.
use go_aioesphomeapi.Base.{
  ℕ, zero, suc, ◌+◌, ◌≡◌, refl, false, List, [], ◌∷◌, arith, drop, ℤ, int_ltb, sym, ap, ◌∙◌, inl,
  inr, true, Bool-cases,
}
use go_aioesphomeapi.Simulator.Device.{StateEvent, Device}
use go_aioesphomeapi.Simulator.Device.Timeline.{commit_state, advance_events, advance_timeline}

drop-suc :
    {A : Type 0} (i : ℕ) (xs : List A) (x : A) (rest : List A)
    → drop i xs ≡ x ∷ rest
    → drop (suc i) xs ≡ rest
drop-suc zero [] x rest e = ground arith
drop-suc zero (y ∷ xs) x rest e = ground arith
drop-suc (suc i) [] x rest e = ground arith
drop-suc (suc i) (y ∷ xs) x rest e = drop-suc i xs x rest e

int_ltb_mono : (a b c : ℤ) → int_ltb b a ≡ false → int_ltb a c ≡ false → int_ltb b c ≡ false
int_ltb_mono a b c h k = ground arith

-- The device after one event of the timeline.
abbrev after : StateEvent → Device → Device
after event d = commit_state event.state (record d { timeline_index = d.timeline_index + 1 })

advance_timeline_of :
    (t : ℤ) (events : List StateEvent) (d : Device)
    → drop d.timeline_index d.state_timeline ≡ events
    → advance_timeline t d ≡ advance_events t events d
unfolding advance_timeline
advance_timeline_of t events d e = ap (λ (es : List StateEvent). advance_events t es d) e

advance_events_due :
    (t : ℤ) (event : StateEvent) (events : List StateEvent) (d : Device)
    → int_ltb t event.at ≡ false
    → advance_events t (event ∷ events) d ≡ advance_events t events (after event d)
unfolding advance_events
advance_events_due t event events d h = rw h refl

advance_events_early :
    (t : ℤ) (event : StateEvent) (events : List StateEvent) (d : Device)
    → int_ltb t event.at ≡ true
    → advance_events t (event ∷ events) d ≡ d
unfolding advance_events
advance_events_early t event events d h = rw h refl

rest_after :
    (event : StateEvent) (events : List StateEvent) (d : Device)
    → drop d.timeline_index d.state_timeline ≡ event ∷ events
    → drop (after event d).timeline_index (after event d).state_timeline ≡ events
unfolding commit_state
rest_after event events d e =
    let next : d.timeline_index + 1 ≡ suc d.timeline_index = omega arith in
    ap (λ (n : ℕ). drop n d.state_timeline) next
    ∙ drop-suc d.timeline_index d.state_timeline event events e

advance_events_twice :
    (t1 t2 : ℤ) (events : List StateEvent) (d : Device)
    → int_ltb t2 t1 ≡ false
    → drop d.timeline_index d.state_timeline ≡ events
    → advance_timeline t2 (advance_events t1 events d) ≡ advance_events t2 events d
advance_events_twice t1 t2 [] d h e = unfold advance_events in advance_timeline_of t2 [] d e
advance_events_twice t1 t2 (event ∷ events) d h e = elim (Bool-cases (int_ltb t1 event.at)) [
  | inl early ↦
      ap (advance_timeline t2) (advance_events_early t1 event events d early)
      ∙ advance_timeline_of t2 (event ∷ events) d e
  | inr due ↦
      ap (advance_timeline t2) (advance_events_due t1 event events d due)
      ∙ advance_events_twice t1 t2 events (after event d) h (rest_after event events d e)
      ∙ sym (advance_events_due t2 event events d (int_ltb_mono t1 t2 event.at h due))
]

-- Advancing the timeline to a time and then to one that is not earlier leaves the device, and what
-- its subscribers were sent, as one advance to the second time does.
pub advance_timeline_twice :
    (t1 t2 : ℤ) (d : Device)
    → int_ltb t2 t1 ≡ false
    → advance_timeline t2 (advance_timeline t1 d) ≡ advance_timeline t2 d
advance_timeline_twice t1 t2 d h =
    ap (advance_timeline t2) (advance_timeline_of t1 _ d refl)
    ∙ advance_events_twice t1 t2 _ d h refl
    ∙ sym (advance_timeline_of t2 _ d refl)
