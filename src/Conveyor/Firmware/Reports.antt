-- ===== src/Conveyor/Firmware/Reports.antt =====
-- conveyor_device.go: when the firmware reports that a brick is on its way.
use go_aioesphomeapi.Base.{
  ℕ, ◌≡◌, refl, inl, inr, Bool, true, false, not, ◌&&◌, Option, none, some, List, [], ◌∷◌, arith,
  if◌then◌else◌, Option-cases, List-cases, get_elem?, ℤ,
}
use go_aioesphomeapi.Messages.{Message}
use go_aioesphomeapi.Conveyor.Scripts.{
  Script, Tick, fired, request_run, travel, capture, exit_hold, jam, bench,
}
use go_aioesphomeapi.Conveyor.Firmware.{
  no_reading, Firmware, new_conveyor_firmware, halt, log, publish_en_route, publish_ratio,
  place_brick, lift_brick, release_brick, on_bench, on_arrival, on_travel, on_capture, on_jam,
  on_fan_command, on_tick, boot, Event, on_command, receive_tick, round, rounds, command, fires,
}

-- What was reported of the brick on its way, newest first.
unfoldable pub reports : List Message → List Bool
reports [] = []
reports (Message.binary_sensor_state key state missing ∷ rest) = state ∷ reports rest
reports (_ ∷ rest) = reports rest

unfoldable pub differs_from : Bool → List Bool → Bool
differs_from a [] = true
differs_from a (b ∷ rest) = if a then not b else b

-- No report repeats the one before it.
unfoldable pub alternates : List Bool → Bool
unfolding differs_from
alternates [] = true
alternates (a ∷ rest) = differs_from a rest && alternates rest

unfoldable pub newest : List Bool → Option Bool
newest [] = none
newest (a ∷ rest) = some a

-- The reports alternate, and the newest is the firmware's own value once it is known.
pub record IsReporting (f : Firmware) : Type 0 where
  pub alternating : alternates (reports f.states) ≡ true
  pub shown : newest (reports f.states) ≡ (if f.en_route_known then some f.en_route else none)

pub publish_en_route-IsReporting :
    (state : Bool) (f : Firmware) → IsReporting f → IsReporting (publish_en_route state f)
unfolding publish_en_route reports alternates newest differs_from
publish_en_route-IsReporting state f h = elim (List-cases (reports f.states)) [
  | inl e ↦ ground (arith, h, e)
  | inr (x, rest, e) ↦ ground (arith, h, e)
]

publish_ratio-IsReporting :
    (ratio : ℕ) (f : Firmware) → IsReporting f → IsReporting (publish_ratio ratio f)
unfolding publish_ratio reports
publish_ratio-IsReporting ratio f h = ground (arith, h)

on_bench-IsReporting : (step : ℕ) (f : Firmware) → IsReporting f → IsReporting (on_bench step f)
unfolding on_bench place_brick lift_brick release_brick log
on_bench-IsReporting step f h =
    let k = publish_ratio-IsReporting no_reading f h in ground (arith, h, k)

on_travel-IsReporting : (step : ℕ) (f : Firmware) → IsReporting f → IsReporting (on_travel step f)
unfolding on_travel on_arrival
on_travel-IsReporting step f h =
    let arrived =
      publish_en_route-IsReporting false
        (halt jam (record f { exit_occupied = true; at_exit = f.on_belt })) (ground (arith, h)) in
    ground (arith, h, arrived)

on_capture-IsReporting : (step : ℕ) (f : Firmware) → IsReporting f → IsReporting (on_capture step f)
unfolding on_capture log publish_ratio reports
on_capture-IsReporting step f h = ground (arith, h)

on_jam-IsReporting : (step : ℕ) (f : Firmware) → IsReporting f → IsReporting (on_jam step f)
unfolding on_jam log reports
on_jam-IsReporting step f h = let k = publish_en_route-IsReporting false f h in ground (arith, h, k)

on_tick-IsReporting :
    (r : Script) (t : Tick) (f : Firmware)
    → t.script ≡ r
    → IsReporting f
    → IsReporting (on_tick t f)
unfolding on_tick
on_tick-IsReporting bench t f e h = let k = on_bench-IsReporting t.step f h in ground (arith, e, k)
on_tick-IsReporting travel t f e h =
    let k = on_travel-IsReporting t.step f h in ground (arith, e, k)
on_tick-IsReporting capture t f e h =
    let k = on_capture-IsReporting t.step f h in ground (arith, e, k)
on_tick-IsReporting jam t f e h = let k = on_jam-IsReporting t.step f h in ground (arith, e, k)
on_tick-IsReporting request_run t f e h =
    let k = publish_en_route-IsReporting true f h in ground (arith, e, h, k)
on_tick-IsReporting exit_hold t f e h = ground (arith, e, h)

on_command-IsReporting : (m : Message) (f : Firmware) → IsReporting f → IsReporting (on_command m f)
unfolding on_command on_fan_command
on_command-IsReporting (Message.fan_command r) f h = ground (arith, h)
on_command-IsReporting _ f h = h

round-IsReporting : (e : Event) (f : Firmware) → IsReporting f → IsReporting (round e f)
unfolding round receive_tick
round-IsReporting (command m) f h = on_command-IsReporting m f h
round-IsReporting (fires i) f h = elim (Option-cases (get_elem? f.scripts.timers i)) [
  | inl e ↦ ground (arith, e, h)
  | inr (t, e) ↦
      let k =
        on_tick-IsReporting t.tick.script t.tick (record f { scripts = fired f.scripts i }) refl
          (ground (arith, h)) in
      ground (arith, e, h, k)
]

rounds-IsReporting : (es : List Event) (f : Firmware) → IsReporting f → IsReporting (rounds es f)
unfolding rounds
rounds-IsReporting [] f h = h
rounds-IsReporting (e ∷ rest) f h = rounds-IsReporting rest (round e f) (round-IsReporting e f h)

-- From its start on, whatever it receives, the firmware reports a brick on its way only when that
-- changes: no report repeats the one before it, and the newest is the firmware's own value.
pub run-IsReporting :
    (cycles : ℤ) (travel_time dwell : ℕ) (es : List Event)
    → IsReporting (rounds es (boot (new_conveyor_firmware cycles travel_time dwell)))
unfolding boot new_conveyor_firmware publish_en_route publish_ratio reports alternates newest
    differs_from
run-IsReporting cycles travel_time dwell es =
    rounds-IsReporting es _ (record { alternating = refl; shown = refl })
