-- ===== src/Conveyor/Tests.antt =====
-- conveyor_device.go: runs of the conveyor's firmware.
use go_aioesphomeapi.Base.{◌≡◌, refl, true, false, List, [], ◌∷◌, ◌++◌, arith, codes, pos}
use go_aioesphomeapi.Conveyor.Scripts.{no_scripts, after, stop, restart, is_current, without, fired}
use go_aioesphomeapi.Conveyor.Scripts.Waiting.{waiting_in, waiting}
use go_aioesphomeapi.Conveyor.Texts.{decimal, tenths, one_decimal, float32_equal}
use go_aioesphomeapi.Conveyor.Firmware.{
  brick_of, no_reading, Firmware, new_conveyor_firmware, log, publish_en_route, publish_ratio,
  place_brick, lift_brick, release_brick, on_bench, on_arrival, on_travel, on_capture,
  on_fan_command, on_tick, boot, Event, on_command, receive_tick, round, rounds, command, fires,
}
use go_aioesphomeapi.Conveyor.Firmware.Reports.{reports, IsReporting, run-IsReporting}
use go_aioesphomeapi.Conveyor.Firmware.Stages.{readings, expected, IsAt, placing, moving, finished}
use go_aioesphomeapi.Conveyor.Firmware.Stages.Run.{Arrived, started, started-Arrived}
use go_aioesphomeapi.Conveyor.Firmware.Stages.Turns.{IsLedger, started-IsLedger}
use go_aioesphomeapi.Conveyor.Firmware.Stages.Stalled.{IsStalled, off-IsStalled}
use go_aioesphomeapi.Conveyor.Firmware.Stages.Reaching.{Reached, fan}
use go_aioesphomeapi.Conveyor.Firmware.Stages.Finishing.{started-Reached}

-- Two bricks; two seconds of travel and three of dwelling.
abbrev bench_of_two : Firmware
bench_of_two = started (pos 2) 2000000000 3000000000

-- The first brick is placed, the run requested, the belt started, and the brick leaves the entry.
abbrev underway : List Event
underway = fires 0 ∷ fires 0 ∷ command (fan true) ∷ fires 0 ∷ []

-- It arrives, is measured, stopped under, and lifted.
abbrev one_turn : List Event
one_turn =
    underway
    ++ fires 0
      ∷ command (fan false)
      ∷ fires 1
      ∷ fires 0
      ∷ fires 0
      ∷ fires 0
      ∷ fires 0
      ∷ fires 0
      ∷ fires 0
      ∷ fires 0
      ∷ []

one_turn-readings :
    readings (rounds one_turn bench_of_two).states ≡ no_reading ∷ 1111490560 ∷ no_reading ∷ []
unfolding readings rounds round receive_tick is_current on_tick on_command on_fan_command on_bench
    on_travel on_arrival on_capture place_brick lift_brick release_brick publish_ratio
    publish_en_route log boot new_conveyor_firmware fired without no_scripts after stop restart
    brick_of float32_equal decimal one_decimal
one_turn-readings = refl

one_turn-reports : reports (rounds one_turn bench_of_two).states ≡ false ∷ true ∷ false ∷ []
unfolding reports rounds round receive_tick is_current on_tick on_command on_fan_command on_bench
    on_travel on_arrival on_capture place_brick lift_brick release_brick publish_ratio
    publish_en_route log boot new_conveyor_firmware fired without no_scripts after stop restart
    brick_of float32_equal decimal one_decimal
one_turn-reports = refl

one_decimal_48 : one_decimal 1111490560 ≡ codes "48.0"
unfolding one_decimal tenths decimal
one_decimal_48 = refl

underway-IsAt : IsAt moving (rounds underway bench_of_two)
unfolding readings rounds round receive_tick is_current on_tick on_command on_fan_command on_bench
    on_travel place_brick publish_ratio publish_en_route log boot new_conveyor_firmware fired
    without no_scripts after stop restart brick_of expected waiting waiting_in
underway-IsAt = record {
  issued = (omega arith, (omega arith, tt));
  benching = refl;
  travelling = refl;
  capturing = refl;
  entry = refl;
  published = refl;
  shown = refl;
  known = refl;
  going = refl;
  detail = refl;
}

started-Arrived_example : Arrived placing (rounds one_turn bench_of_two)
started-Arrived_example = started-Arrived (pos 2) 2000000000 3000000000 one_turn

started-IsLedger_example : IsLedger (rounds one_turn bench_of_two)
started-IsLedger_example = started-IsLedger (pos 2) 2000000000 3000000000 one_turn

run-IsReporting_example : IsReporting (rounds one_turn bench_of_two)
run-IsReporting_example = run-IsReporting (pos 2) 2000000000 3000000000 one_turn

started-Reached_example : Reached finished 2 (pos 2) bench_of_two
started-Reached_example = started-Reached 1 2000000000 3000000000

underway_on : (rounds underway bench_of_two).motor_on ≡ true
unfolding rounds round receive_tick is_current on_tick on_command on_fan_command on_bench on_travel
    place_brick publish_ratio publish_en_route log boot new_conveyor_firmware fired without
    no_scripts after stop restart
underway_on = refl

off-IsStalled_example : IsStalled (rounds underway bench_of_two) (
    rounds
      (command (fan true) ∷ fires 0 ∷ [])
      (on_fan_command false (rounds underway bench_of_two)))
off-IsStalled_example =
    off-IsStalled (rounds underway bench_of_two) (command (fan true) ∷ fires 0 ∷ []) underway-IsAt
      underway_on
