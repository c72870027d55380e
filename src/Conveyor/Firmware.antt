-- ===== src/Conveyor/Firmware.antt =====
-- conveyor_device.go: the firmware's state, what it publishes, and its automations.
mod Parts
pub mod Stages
pub mod Reports
unfoldable pub use Parts.{divided, brick_of}
pub use Parts.*
use go_aioesphomeapi.Base.{
  ℕ, zero, suc, ◌+◌, ◌/◌, ◌%◌, Bool, true, false, not, ◌&&◌, ◌||◌, List, [], ◌∷◌, ◌++◌, ltb, ◌==◌,
  if◌then◌else◌, Bytes, codes, get_elem?, length, Option, none, some, ℤ, pos, int_ltb,
  is_not_positive,
}
use go_aioesphomeapi.Messages.{Float32, LogEntry, FanStateResponse, FanCommandRequest, Message}
use go_aioesphomeapi.Conveyor.Scripts.{
  Script, request_run, travel, capture, exit_hold, jam, bench, Tick, Timer, Scripts, no_scripts,
  after, stop, restart, is_current, fired,
}
use go_aioesphomeapi.Conveyor.Texts.{decimal, one_decimal, float32_equal}

-- `conveyorFirmware`. The last two fields are the calls of the device, newest first: what is given to
-- `PushState` and to `PushLog`, whose errors are not looked at.
pub record Firmware : Type 0 where
  pub scripts : Scripts
  pub entry_occupied : Bool
  pub exit_occupied : Bool
  pub motor_on : Bool
  pub on_belt : Brick
  pub at_exit : Brick
  pub en_route : Bool
  pub en_route_known : Bool
  pub red_ratio : Float32
  pub ratio_known : Bool
  pub capture_sampled : ℕ
  pub cycles : ℤ
  pub completed : ℕ
  pub travel_time : ℕ
  pub dwell : ℕ
  pub timings : ConveyorTimings
  pub states : List Message
  pub logs : List LogEntry

-- `newConveyorFirmware`
unfoldable pub new_conveyor_firmware : ℤ → ℕ → ℕ → Firmware
new_conveyor_firmware cycles travel_time dwell = record {
  scripts = no_scripts;
  entry_occupied = false;
  exit_occupied = false;
  motor_on = false;
  on_belt = no_brick;
  at_exit = no_brick;
  en_route = false;
  en_route_known = false;
  red_ratio = no_reading;
  ratio_known = false;
  capture_sampled = 0;
  cycles = cycles;
  completed = 0;
  travel_time = travel_time;
  dwell = dwell;
  timings = firmware_timings;
  states = [];
  logs = [];
}

-- `after`, `restart` and `stop` on the firmware.
abbrev pub schedule : Script → ℕ → ℕ → Firmware → Firmware
schedule s step delay f = record f { scripts = after s step delay f.scripts }

abbrev pub begin : Script → ℕ → ℕ → Firmware → Firmware
begin s step delay f = record f { scripts = restart s step delay f.scripts }

abbrev pub halt : Script → Firmware → Firmware
halt s f = record f { scripts = stop s f.scripts }

abbrev pub level_info : ℤ
level_info = pos 3

abbrev pub level_warn : ℤ
level_warn = pos 2

-- `log`
unfoldable pub log : ℤ → Bytes → Firmware → Firmware
log level message f = record f {
  logs = record { level = level; message = message ++ (10 ∷ []) } ∷ f.logs;
}

-- `publishEnRoute`
unfoldable pub publish_en_route : Bool → Firmware → Firmware
publish_en_route state f =
    if f.en_route_known && (if state then f.en_route else not f.en_route) then f else record f {
      en_route = state;
      en_route_known = true;
      states = Message.binary_sensor_state brick_en_route_key state false ∷ f.states;
    }

-- `publishRatio`
unfoldable pub publish_ratio : Float32 → Firmware → Firmware
unfolding float32_equal
publish_ratio ratio f = if f.ratio_known && float32_equal ratio f.red_ratio then f else record f {
  red_ratio = ratio;
  ratio_known = true;
  states = Message.sensor_state exit_red_ratio_key ratio false ∷ f.states;
}

-- The three steps of `onBench`.
unfoldable pub place_brick : Firmware → Firmware
place_brick f = begin request_run 0 f.timings.entry_debounce (
    log level_info
      (codes "operator placed a " ++ (brick_of f.completed).name ++ codes " brick on the entry")
      (record f { on_belt = brick_of f.completed; entry_occupied = true }))

unfoldable pub lift_brick : Firmware → Firmware
lift_brick f = begin bench 2 f.timings.exit_release_debounce (
    halt capture
      (record (log level_info
        (codes "operator lifted the " ++ f.at_exit.name ++ codes " brick off the exit") f) {
          exit_occupied = false;
        }))

-- The test whether the operator goes on with another brick.
abbrev pub more_bricks : ℤ → ℕ → Bool
more_bricks cycles completed = is_not_positive cycles || int_ltb (pos completed) cycles

unfoldable pub release_brick : Firmware → Firmware
unfolding decimal
release_brick f =
    let released = publish_ratio no_reading f in
    let done = record released { completed = suc released.completed } in
    if more_bricks done.cycles done.completed
    then schedule bench 0 done.timings.between_bricks done
    else log level_info
        (codes "bench sequence finished after "
          ++ decimal done.completed
          ++ codes " "
          ++ (if done.completed == 1 then codes "brick" else codes "bricks"))
        done

-- `onBench`
unfoldable pub on_bench : ℕ → Firmware → Firmware
on_bench step f =
    if step == 0
    then place_brick f
    else if step == 1
    then lift_brick f
    else if step == 2
    then release_brick f
    else f

-- `onArrival`
unfoldable pub on_arrival : Firmware → Firmware
on_arrival f =
    let arrived = halt jam (record f { exit_occupied = true; at_exit = f.on_belt }) in
    let reported = publish_en_route false arrived in
    begin exit_hold 0 f.timings.exit_hold_time
      (begin capture 0 f.timings.capture_settle (record reported { capture_sampled = 0 }))

-- `onTravel`
unfoldable pub on_travel : ℕ → Firmware → Firmware
on_travel step f =
    if step == 0
    then schedule travel 1 f.travel_time (record f { entry_occupied = false })
    else if step == 1
    then on_arrival f
    else f

-- `onCapture`
unfoldable pub on_capture : ℕ → Firmware → Firmware
on_capture step f =
    if ltb step capture_samples
    then schedule capture (suc step) f.timings.capture_interval
        (if f.exit_occupied then record f { capture_sampled = suc f.capture_sampled } else f)
    else if ltb f.capture_sampled min_usable_samples
    then publish_ratio no_reading (
        log level_warn
          (codes "Colour capture rejected: "
            ++ decimal f.capture_sampled
            ++ codes " usable samples")
          f)
    else schedule bench 1 f.dwell (
        publish_ratio f.at_exit.red_ratio (
          log level_info
            (codes "Exit red ratio "
              ++ one_decimal f.at_exit.red_ratio
              ++ codes "% from "
              ++ decimal f.capture_sampled
              ++ codes " samples")
            f))

-- The belt's state as the backstop reports it.
abbrev pub fan_stopped : Message
fan_stopped = Message.fan_state (record {
  key = conveyor_fan_key;
  state = false;
  oscillating = false;
  direction = pos 0;
  speed_level = pos 0;
  preset_mode = [];
  more = [];
})

-- How `onJam` tells the device that the belt stands.
abbrev pub stop_belt : Firmware → Firmware
stop_belt f = record f { states = fan_stopped ∷ f.states }

-- `onJam`
unfoldable pub on_jam : ℕ → Firmware → Firmware
on_jam step f =
    if step == 0
    then schedule jam 1 f.timings.jam_backstop (
        log level_info (codes "No brick reached the exit in 15s; withdrawing the run request")
          (publish_en_route false f))
    else if step == 1 && f.motor_on
    then stop_belt (
        log level_warn
          (codes
            "Belt stopped by the firmware backstop: mgmt did not react to the withdrawn run request")
          (record f { motor_on = false }))
    else f

-- `onFanCommand`
unfoldable pub on_fan_command : Bool → Firmware → Firmware
on_fan_command state f =
    if (if state then f.motor_on else not f.motor_on)
    then f
    else if not state
    then halt travel (halt jam (record f { motor_on = false }))
    else let started = begin jam 0 f.timings.jam_withdraw (record f { motor_on = true }) in
      if f.entry_occupied then begin travel 0 f.timings.entry_clear started else started

-- `onTick`
unfoldable pub on_tick : Tick → Firmware → Firmware
on_tick t f = elim t.script [
  | request_run ↦ if f.entry_occupied then publish_en_route true f else f
  | travel ↦ on_travel t.step f
  | capture ↦ on_capture t.step f
  | exit_hold ↦ if f.entry_occupied && not f.en_route then begin request_run 0 0 f else f
  | jam ↦ on_jam t.step f
  | bench ↦ on_bench t.step f
]

-- What `run` does before its loop.
unfoldable pub boot : Firmware → Firmware
boot f =
    begin bench 0 f.timings.between_bricks (publish_ratio no_reading (publish_en_route false f))

-- What a round of the loop of `run` receives: a command, or the tick of a timer, which may be any that
-- waits.
pub data Event : Type 0 where
  command : Message → Event
  fires : (index : ℕ) → Event

unfoldable pub on_command : Message → Firmware → Firmware
on_command (Message.fan_command r) f =
    if r.key == conveyor_fan_key then on_fan_command r.state f else f
on_command _ f = f

unfoldable pub receive_tick : Tick → Firmware → Firmware
receive_tick t f = if is_current f.scripts t then on_tick t f else f

-- One round of the loop of `run`.
unfoldable pub round : Event → Firmware → Firmware
round (command m) f = on_command m f
round (fires index) f = elim (get_elem? f.scripts.timers index) [
  | none ↦ f
  | some t ↦ receive_tick t.tick (record f { scripts = fired f.scripts index })
]

-- The rounds of `run`, from the first.
unfoldable pub rounds : List Event → Firmware → Firmware
unfolding round
rounds [] f = f
rounds (e ∷ rest) f = rounds rest (round e f)
