-- ===== src/Blink.antt =====
-- cmd/mgmt-compat-sim-server/blink_device.go: a light that goes on again after a delay.
pub mod Mirrored
mod Tests
use go_aioesphomeapi.Base.{
  ℕ, Bool, true, false, not, List, [], ◌∷◌, ◌++◌, ◌==◌, if◌then◌else◌, Bytes, codes, pos,
}
use go_aioesphomeapi.Messages.{Message, LogEntry}

-- `BlinkSensorKey` and `BlinkSwitchKey` of simulator/basic.go.
abbrev pub blink_sensor_key : ℕ
blink_sensor_key = 211

abbrev pub blink_switch_key : ℕ
blink_switch_key = 212

-- The variables of `run`: `ledOn`, and whether `relight` is set, which the timer will then fire. The
-- other fields are the calls of the device, newest first.
pub record BlinkFirmware : Type 0 where
  pub led_on : Bool
  pub relight : Bool
  pub states : List Message
  pub logs : List LogEntry

-- What `run` starts with.
abbrev pub lit : BlinkFirmware
lit = record { led_on = true; relight = false; states = []; logs = [] }

-- `push`, `mirror` and `log`
abbrev pub push : Message → BlinkFirmware → BlinkFirmware
push state f = record f { states = state ∷ f.states }

abbrev pub mirror : Bool → BlinkFirmware → BlinkFirmware
mirror state f = push (Message.binary_sensor_state blink_sensor_key state false) f

abbrev pub log : Bytes → BlinkFirmware → BlinkFirmware
log message f = record f {
  logs = record { level = pos 3; message = message ++ (10 ∷ []) } ∷ f.logs;
}

-- A command for the switch, which is echoed before it is mirrored.
unfoldable pub switch_led : Bool → BlinkFirmware → BlinkFirmware
switch_led state f =
    let echoed = push (Message.switch_state blink_switch_key state) (record f { led_on = state }) in
    if state
    then log (codes "LED turned on; waiting for mgmt to turn it off")
        (mirror true (record echoed { relight = false }))
    else record (log (codes "LED turned off; turning it back on in three seconds")
        (mirror false echoed)) { relight = true }

unfoldable pub on_command : Message → BlinkFirmware → BlinkFirmware
on_command (Message.switch_command key state) f =
    if key == blink_switch_key then switch_led state f else f
on_command _ f = f

-- The timer fires, if it is waited for.
unfoldable pub on_relight : BlinkFirmware → BlinkFirmware
on_relight f =
    if not f.relight
    then f
    else if f.led_on
    then record f { relight = false }
    else log (codes "LED is still off; turning it on") (
        mirror true (
          push (Message.switch_state blink_switch_key true)
            (record f { led_on = true; relight = false })))

-- What a round of the loop of `run` receives.
pub data BlinkEvent : Type 0 where
  command : Message → BlinkEvent
  timer : BlinkEvent

unfoldable pub blink_round : BlinkEvent → BlinkFirmware → BlinkFirmware
blink_round (command m) f = on_command m f
blink_round timer f = on_relight f

unfoldable pub blink_rounds : List BlinkEvent → BlinkFirmware → BlinkFirmware
unfolding blink_round
blink_rounds [] f = f
blink_rounds (e ∷ rest) f = blink_rounds rest (blink_round e f)
