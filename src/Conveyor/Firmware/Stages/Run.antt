-- ===== src/Conveyor/Firmware/Stages/Run.antt =====
-- conveyor_device.go: every round of `run` moves the bench from its stage to a next one.
use go_aioesphomeapi.Conveyor.Firmware.Stages.Ticks.{
  bench_tick-Moved, travel_tick-Moved, capture_tick-Moved,
}
use go_aioesphomeapi.Base.{
  ℕ, ◌≡◌, inl, inr, true, [], arith, Bool-cases, refl, ap, false, ◌==◌, Option-cases, get_elem?,
  List, ◌∷◌, ℤ, pos, negsuc,
}
use go_aioesphomeapi.Conveyor.Scripts.{
  Tick, travel, capture, bench, Script, script_equal, is_current, fired, request_run, exit_hold,
  jam, no_scripts, after, stop, restart,
}
use go_aioesphomeapi.Conveyor.Scripts.Waiting.{
  waits, Fires, script_equal→≡, get-Fires, waiting_in, waiting,
}
use go_aioesphomeapi.Conveyor.Firmware.{
  Firmware, more_bricks, on_jam, on_tick, Event, on_command, receive_tick, round, command, fires,
  new_conveyor_firmware, publish_en_route, publish_ratio, boot, rounds,
}
use go_aioesphomeapi.Conveyor.Firmware.Stages.{Stage, IsAt, placing, Advance, readings, expected}
use go_aioesphomeapi.Messages.{Message}
use go_aioesphomeapi.Conveyor.Firmware.Stages.Belt.{Moved, stays-Moved, on_fan_command-Moved}
use go_aioesphomeapi.Conveyor.Firmware.Stages.Quiet.{
  Alike-Holds, request_run_tick-Alike, exit_hold_tick-Alike, on_jam-Alike,
}
use go_aioesphomeapi.Conveyor.Firmware.Stages.Timers.{after_timer, unwaited-Holds}

-- A current tick, by its script.
current-Moved :
    (r : Script) (s : Stage) (f : Firmware) (i : ℕ) (t : Tick)
    → Fires f.scripts i t
    → t.script ≡ r
    → (t.gen == f.scripts.gen t.script) ≡ true
    → IsAt s f
    → Moved s (on_tick t (after_timer i f))
unfolding on_tick
current-Moved bench s f i t w e p h =
    let k = bench_tick-Moved s f i t w e (ground (arith, e, p)) h in ground (arith, e, k)
current-Moved travel s f i t w e p h =
    let k = travel_tick-Moved s f i t w e (ground (arith, e, p)) h in ground (arith, e, k)
current-Moved capture s f i t w e p h =
    let k = capture_tick-Moved s f i t w e (ground (arith, e, p)) h in ground (arith, e, k)
current-Moved request_run s f i t w e p h =
    let k = unwaited-Holds f i t w (ground (arith, e)) (ground (arith, e)) (ground (arith, e)) h in
    stays-Moved (Alike-Holds (request_run_tick-Alike t _ e k.issued) k)
current-Moved exit_hold s f i t w e p h =
    let k = unwaited-Holds f i t w (ground (arith, e)) (ground (arith, e)) (ground (arith, e)) h in
    stays-Moved (Alike-Holds (exit_hold_tick-Alike t _ e k.issued) k)
current-Moved jam s f i t w e p h =
    let k = unwaited-Holds f i t w (ground (arith, e)) (ground (arith, e)) (ground (arith, e)) h in
    let m : Moved s (on_jam t.step (after_timer i f)) =
      stays-Moved (Alike-Holds (on_jam-Alike t.step _ k.issued) k) in
    ground (arith, e, m)

-- A tick of an older generation is dropped.
stale-waits :
    (r : Script) (f : Firmware) (t : Tick)
    → (t.gen == f.scripts.gen t.script) ≡ false
    → waits f.scripts.gen r t ≡ false
stale-waits r f t h = elim (Bool-cases (script_equal t.script r)) [
  | inl e ↦ ground (arith, h, e, ap f.scripts.gen (script_equal→≡ t.script r e))
  | inr e ↦ ground (arith, e)
]

tick-Moved :
    (s : Stage) (f : Firmware) (i : ℕ) (t : Tick)
    → Fires f.scripts i t
    → IsAt s f
    → Moved s (receive_tick t (after_timer i f))
unfolding receive_tick is_current fired
tick-Moved s f i t w h = elim (Bool-cases (t.gen == f.scripts.gen t.script)) [
  | inl e ↦ let k = current-Moved t.script s f i t w refl e h in ground (arith, e, k)
  | inr e ↦
      let k = stays-Moved (
        unwaited-Holds f i t w (stale-waits bench f t e) (stale-waits travel f t e)
          (stale-waits capture f t e) h) in
      ground (arith, e, k)
]

on_command-Moved : (m : Message) (s : Stage) (f : Firmware) → IsAt s f → Moved s (on_command m f)
unfolding on_command
on_command-Moved (Message.fan_command r) s f h =
    let k = on_fan_command-Moved r.state s f h in
    let same = stays-Moved h in ground (arith, k, same)
on_command-Moved _ s f h = stays-Moved h

pub round-Moved : (e : Event) (s : Stage) (f : Firmware) → IsAt s f → Moved s (round e f)
unfolding round
round-Moved (command m) s f h = on_command-Moved m s f h
round-Moved (fires i) s f h = elim (Option-cases (get_elem? f.scripts.timers i)) [
  | inl e ↦ let k = stays-Moved h in ground (arith, e, k)
  | inr (t, e) ↦
      let k = tick-Moved s f i t.tick (get-Fires f.scripts i t e) h in ground (arith, e, k)
]

-- The stages that the bench went through, from the first to the last.
pub data Route : Stage → Stage → Type 0 where
  here : (s : Stage) → Route s s
  next : {s r q : Stage} → Advance s r → Route r q → Route s q

-- A firmware that came from a stage by moves.
pub record Arrived (s : Stage) (g : Firmware) : Type 0 where
  pub stage : Stage
  pub route : Route s stage
  pub holds : IsAt stage g

pub rounds-Arrived :
    (es : List Event) (s : Stage) (f : Firmware) → IsAt s f → Arrived s (rounds es f)
unfolding rounds
rounds-Arrived [] s f h = record { stage = s; route = here s; holds = h }
rounds-Arrived (e ∷ rest) s f h =
    let m = round-Moved e s f h in
    let a = rounds-Arrived rest m.stage (round e f) m.holds in
    record { stage = a.stage; route = next m.move a.route; holds = a.holds }

more_bricks-zero : (cycles : ℤ) → more_bricks cycles 0 ≡ true
more_bricks-zero (pos n) = ground arith
more_bricks-zero (negsuc n) = refl

-- The firmware when `run` enters its loop.
abbrev pub started : ℤ → ℕ → ℕ → Firmware
started cycles travel_time dwell = boot (new_conveyor_firmware cycles travel_time dwell)

pub started-IsAt :
    (cycles : ℤ) (travel_time dwell : ℕ) → IsAt placing (started cycles travel_time dwell)
unfolding boot new_conveyor_firmware publish_en_route publish_ratio readings expected no_scripts
    restart stop after waiting waiting_in
started-IsAt cycles travel_time dwell = record {
  issued = (omega arith, tt);
  benching = refl;
  travelling = refl;
  capturing = refl;
  entry = refl;
  published = refl;
  shown = refl;
  known = refl;
  going = more_bricks-zero cycles;
  detail = tt;
}

-- Whatever commands arrive and timers fire, in any order, the conveyor's bench follows its stages:
-- a brick is placed, carried, measured from five samples, lifted and released before the next, and
-- at every stage exactly that stage's timers of the bench, the travel and the capture are live.
pub started-Arrived :
    (cycles : ℤ) (travel_time dwell : ℕ) (es : List Event)
    → Arrived placing (rounds es (started cycles travel_time dwell))
started-Arrived cycles travel_time dwell es =
    rounds-Arrived es placing _ (started-IsAt cycles travel_time dwell)
