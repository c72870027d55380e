-- ===== src/Conveyor/Firmware/Stages/Reaching.antt =====
-- conveyor_device.go: events that take the bench from each stage to the next.
use go_aioesphomeapi.Conveyor.Firmware.Stages.Firing.{due-Firing}
use mathlib.Core.Path.{subst}
use go_aioesphomeapi.Conveyor.Firmware.Stages.Quiet.{
  Alike-Holds, begin-Alike, Alike-trans, motor-Alike,
}
use go_aioesphomeapi.Conveyor.Firmware.Stages.Belt.{
  belt_off, belt_off-Holds, start_travel-Holds, jam_clock,
}
use go_aioesphomeapi.Base.{
  ℕ, suc, ◌≡◌, refl, sym, ap, ◌∙◌, inl, inr, true, List, [], ◌∷◌, ◌++◌, arith, Bool-cases, ℤ, zero,
  ◌+◌, ◌<◌, Bool, false, if◌then◌else◌, pos,
}
use go_aioesphomeapi.Messages.{Message}
use go_aioesphomeapi.Conveyor.Scripts.{fired, bench, travel, capture, jam}
use go_aioesphomeapi.Conveyor.Firmware.{
  Firmware, log, place_brick, on_bench, on_tick, Event, round, rounds, fires, conveyor_fan_key,
  publish_en_route, publish_ratio, lift_brick, more_bricks, release_brick, on_arrival, on_travel,
  on_capture, on_fan_command, on_command, command, begin,
}
use go_aioesphomeapi.Conveyor.Firmware.Stages.{
  Stage, IsAt, placing, at_entry, clearing, moving, measuring, reaching, releasing, finished,
}
use go_aioesphomeapi.Conveyor.Firmware.Stages.Moves.{
  place_brick-Holds, lift_brick-Holds, clear_entry-Holds, arrive-Holds, sample-Holds, measure-Holds,
  release_brick-Holds,
}
use go_aioesphomeapi.Conveyor.Firmware.Stages.Timers.{
  after_timer, bench-Holds, travel-Holds, capture-Holds,
}

-- Events that take the firmware to a stage, with its count of bricks.
pub record Reached (s : Stage) (n : ℕ) (c : ℤ) (f : Firmware) : Type 0 where
  pub events : List Event
  pub holds : IsAt s (rounds events f)
  pub count : (rounds events f).completed ≡ n
  pub goal : (rounds events f).cycles ≡ c

rounds-append : (xs ys : List Event) (f : Firmware) → rounds (xs ++ ys) f ≡ rounds ys (rounds xs f)
unfolding rounds
rounds-append [] ys f = refl
rounds-append (x ∷ xs) ys f = rounds-append xs ys (round x f)

pub one-Reached :
    {s : Stage} {n : ℕ} {c : ℤ} (e : Event) (f g : Firmware)
    → round e f ≡ g
    → IsAt s g
    → g.completed ≡ n
    → g.cycles ≡ c
    → Reached s n c f
unfolding rounds
one-Reached {s} e f g r h n c = record {
  events = e ∷ [];
  holds = subst (λ x. IsAt s x) (sym r) h;
  count = ap (λ x. x.completed) r ∙ n;
  goal = ap (λ x. x.cycles) r ∙ c;
}

pub then-Reached :
    {s r : Stage} {n m : ℕ} {c : ℤ} {f : Firmware}
    → Reached s n c f
    → ((g : Firmware) → IsAt s g → g.completed ≡ n → g.cycles ≡ c → Reached r m c g)
    → Reached r m c f
then-Reached {r = r} {f = f} a go =
    let b = go (rounds a.events f) a.holds a.count a.goal in
    let joined = rounds-append a.events b.events f in
    record {
      events = a.events ++ b.events;
      holds = subst (λ g. IsAt r g) (sym joined) b.holds;
      count = ap (λ g. g.completed) joined ∙ b.count;
      goal = ap (λ g. g.cycles) joined ∙ b.goal;
    }

before-Reached :
    {s : Stage} {n : ℕ} {c : ℤ} (e : Event) (f g : Firmware)
    → round e f ≡ g
    → Reached s n c g
    → Reached s n c f
unfolding rounds
before-Reached {s} e f g r a = record {
  events = e ∷ a.events;
  holds = subst (λ x. IsAt s (rounds a.events x)) (sym r) a.holds;
  count = ap (λ x. (rounds a.events x).completed) r ∙ a.count;
  goal = ap (λ x. (rounds a.events x).cycles) r ∙ a.goal;
}

-- The controller's command for the belt.
abbrev pub fan : Bool → Message
fan state = Message.fan_command (record {
  key = conveyor_fan_key;
  has_state = true;
  state = state;
  has_oscillating = false;
  oscillating = false;
  has_direction = false;
  direction = pos 0;
  has_speed_level = false;
  speed_level = pos 0;
  has_preset_mode = false;
  preset_mode = [];
  more = [];
})

module _ {n : ℕ} {c : ℤ} where
  pub placing-Reached :
      (f : Firmware) → IsAt placing f → f.completed ≡ n → f.cycles ≡ c → Reached at_entry n c f
  unfolding on_tick on_bench place_brick log fired
  placing-Reached f h m d =
      let w = due-Firing bench 0 f h.benching in
      let k = bench-Holds f w.index w.tick w.fires_it w.script w.awaited h in
      one-Reached (fires w.index) f (place_brick (after_timer w.index f))
        (w.result ∙ ground (arith, w.script, k.0)) (place_brick-Holds _ k.1) m d

  on-Reached :
      (f : Firmware)
      → f.motor_on ≡ false
      → IsAt at_entry f
      → f.completed ≡ n
      → f.cycles ≡ c
      → Reached clearing n c f
  unfolding round on_command on_fan_command
  on-Reached f off h m d =
      let turned = motor-Alike true f h.issued in
      let clocked = begin-Alike jam 0 f.timings.jam_withdraw _ (refl, refl, refl) turned.issued in
      let k = Alike-Holds (Alike-trans turned clocked) h in
      one-Reached (command (fan true)) f (begin travel 0 f.timings.entry_clear (jam_clock f))
        (ground (arith, off, h.entry))
        (start_travel-Holds at_entry f.timings.entry_clear (jam_clock f) k) m d

  pub at_entry-Reached :
      (f : Firmware) → IsAt at_entry f → f.completed ≡ n → f.cycles ≡ c → Reached clearing n c f
  unfolding round on_command on_fan_command
  at_entry-Reached f h m d = elim (Bool-cases f.motor_on) [
    | inl e ↦
        before-Reached (command (fan false)) f (belt_off f) (ground (arith, e))
          (on-Reached (belt_off f) refl (belt_off-Holds at_entry f h) m d)
    | inr e ↦ on-Reached f e h m d
  ]

  pub clearing-Reached :
      (f : Firmware) → IsAt clearing f → f.completed ≡ n → f.cycles ≡ c → Reached moving n c f
  unfolding on_tick on_travel fired
  clearing-Reached f h m d =
      let w = due-Firing travel 0 f h.travelling in
      let k = travel-Holds f w.index w.tick w.fires_it w.script w.awaited h in
      one-Reached (fires w.index) f (on_travel 0 (after_timer w.index f))
        (w.result ∙ ground (arith, w.script, k.0)) (clear_entry-Holds _ k.1) m d

  pub moving-Reached :
      (f : Firmware) → IsAt moving f → f.completed ≡ n → f.cycles ≡ c → Reached (measuring 0) n c f
  unfolding on_tick on_travel on_arrival publish_en_route fired
  moving-Reached f h m d =
      let w = due-Firing travel 1 f h.travelling in
      let k = travel-Holds f w.index w.tick w.fires_it w.script w.awaited h in
      one-Reached (fires w.index) f (on_arrival (after_timer w.index f))
        (w.result ∙ ground (arith, w.script, k.0)) (arrive-Holds _ k.1) (ground (arith, m))
        (ground (arith, d))

  sample-Reached :
      (k : ℕ) (f : Firmware)
      → k < 5
      → IsAt (measuring k) f
      → f.completed ≡ n
      → f.cycles ≡ c
      → Reached (measuring (suc k)) n c f
  unfolding on_tick on_capture fired
  sample-Reached k f lt h m d =
      let w = due-Firing capture k f h.capturing in
      let p = capture-Holds f w.index w.tick w.fires_it w.script w.awaited h in
      one-Reached (fires w.index) f (on_capture k (after_timer w.index f))
        (w.result ∙ ground (arith, w.script, p.0)) (sample-Holds k _ lt p.1) (ground (arith, m, lt))
        (ground (arith, d, lt))

  measure-Reached :
      (f : Firmware)
      → IsAt (measuring 5) f
      → f.completed ≡ n
      → f.cycles ≡ c
      → Reached reaching n c f
  unfolding on_tick on_capture publish_ratio log fired
  measure-Reached f h m d =
      let w = due-Firing capture 5 f h.capturing in
      let p = capture-Holds f w.index w.tick w.fires_it w.script w.awaited h in
      one-Reached (fires w.index) f (on_capture 5 (after_timer w.index f))
        (w.result ∙ ground (arith, w.script, p.0)) (measure-Holds _ p.1) (ground (arith, m))
        (ground (arith, d))

  -- The samples that are left.
  samples-Reached :
      (left k : ℕ) (f : Firmware)
      → left + k ≡ 5
      → IsAt (measuring k) f
      → f.completed ≡ n
      → f.cycles ≡ c
      → Reached reaching n c f
  samples-Reached zero k f e h m d =
      let five : k ≡ 5 = omega (arith, e) in
      measure-Reached f (subst (λ j. IsAt (measuring j) f) five h) m d
  samples-Reached (suc left) k f e h m d =
      then-Reached (sample-Reached k f (omega arith) h m d)
        (λ g i p q. samples-Reached left (suc k) g (omega arith) i p q)

  pub measuring-Reached :
      (f : Firmware)
      → IsAt (measuring 0) f
      → f.completed ≡ n
      → f.cycles ≡ c
      → Reached reaching n c f
  measuring-Reached f h m d = samples-Reached 5 0 f refl h m d

  pub reaching-Reached :
      (f : Firmware) → IsAt reaching f → f.completed ≡ n → f.cycles ≡ c → Reached releasing n c f
  unfolding on_tick on_bench lift_brick log fired
  reaching-Reached f h m d =
      let w = due-Firing bench 1 f h.benching in
      let k = bench-Holds f w.index w.tick w.fires_it w.script w.awaited h in
      one-Reached (fires w.index) f (lift_brick (after_timer w.index f))
        (w.result ∙ ground (arith, w.script, k.0)) (lift_brick-Holds _ k.1) m d

  pub releasing-Reached :
      (f : Firmware)
      → IsAt releasing f
      → f.completed ≡ n
      → f.cycles ≡ c
      → Reached (if more_bricks c (suc n) then placing else finished) (suc n) c f
  unfolding on_tick on_bench release_brick publish_ratio log fired
  releasing-Reached f h m d =
      let w = due-Firing bench 2 f h.benching in
      let k = bench-Holds f w.index w.tick w.fires_it w.script w.awaited h in
      let turn = release_brick-Holds (after_timer w.index f) k.1 in
      one-Reached (fires w.index) f (release_brick (after_timer w.index f))
        (w.result ∙ ground (arith, w.script, k.0)) (ground (arith, m, d, turn)) (ground (arith, m))
        (ground (arith, d))
