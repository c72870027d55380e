-- ===== src/Blink/Mirrored.antt =====
-- blink_device.go: the sensor follows the switch, and a light that is off will go on.
use go_aioesphomeapi.Base.{
  ◌≡◌, refl, inl, inr, Bool, true, false, not, List, [], ◌∷◌, arith, Bool-cases,
}
use go_aioesphomeapi.Messages.{Message}
use go_aioesphomeapi.Blink.{
  blink_sensor_key, blink_switch_key, BlinkFirmware, lit, switch_led, on_command, on_relight,
  BlinkEvent, blink_round, blink_rounds, command, timer,
}

-- The states are pushed in pairs, the switch's and then the sensor's with the same value; the newest pair
-- has the given value, if there is one.
unfoldable pub Pairs : Bool → List Message → Type 0
Pairs on [] = on ≡ true
Pairs on
      (Message.binary_sensor_state key mirrored missing
        ∷ Message.switch_state switch state
        ∷ rest) =
    (key ≡ blink_sensor_key)
    × (switch ≡ blink_switch_key)
    × (mirrored ≡ on)
    × (state ≡ on)
    × (missing ≡ false)
    × ((before : Bool) × Pairs before rest)
Pairs on (_ ∷ rest) = ⊥

pub record IsMirrored (f : BlinkFirmware) : Type 0 where
  pub pairs : Pairs f.led_on f.states
  -- The light is off exactly while the timer is waited for.
  pub timed : f.led_on ≡ not f.relight

paired :
    (before on : Bool) (states : List Message)
    → Pairs before states
    → Pairs on (
        Message.binary_sensor_state blink_sensor_key on false
        ∷ Message.switch_state blink_switch_key on
        ∷ states)
unfolding Pairs
paired before on states h = (refl, refl, refl, refl, refl, (before, h))

switch_led-IsMirrored :
    (state : Bool) (f : BlinkFirmware) → IsMirrored f → IsMirrored (switch_led state f)
unfolding switch_led
switch_led-IsMirrored true f h = record {
  pairs = paired f.led_on true f.states h.pairs;
  timed = refl;
}
switch_led-IsMirrored false f h = record {
  pairs = paired f.led_on false f.states h.pairs;
  timed = refl;
}

on_relight-IsMirrored : (f : BlinkFirmware) → IsMirrored f → IsMirrored (on_relight f)
unfolding on_relight
on_relight-IsMirrored f h =
    let lit_again = paired f.led_on true f.states h.pairs in
    elim (Bool-cases f.relight) [
      | inr e ↦ ground (arith, e, h)
      | inl e ↦
          let off : f.led_on ≡ false = ground (arith, e, h.timed) in
          rw (on_relight, e, off) (record { pairs = lit_again; timed = refl })
    ]

round-IsMirrored :
    (e : BlinkEvent) (f : BlinkFirmware) → IsMirrored f → IsMirrored (blink_round e f)
unfolding blink_round on_command
round-IsMirrored timer f h = on_relight-IsMirrored f h
round-IsMirrored (command (Message.switch_command key state)) f h =
    let k = switch_led-IsMirrored state f h in ground (arith, h, k)
round-IsMirrored (command _) f h = h

rounds-IsMirrored :
    (es : List BlinkEvent) (f : BlinkFirmware) → IsMirrored f → IsMirrored (blink_rounds es f)
unfolding blink_rounds
rounds-IsMirrored [] f h = h
rounds-IsMirrored (e ∷ rest) f h = rounds-IsMirrored rest (blink_round e f) (round-IsMirrored e f h)

-- Whatever commands arrive and whenever the timer fires, the blink firmware pushes its states in
-- pairs, the switch's and then the sensor's with the same value, of which the newest is the
-- light's; and the light is off exactly while the timer that turns it on again is waited for.
pub run-IsMirrored : (es : List BlinkEvent) → IsMirrored (blink_rounds es lit)
unfolding Pairs
run-IsMirrored es = rounds-IsMirrored es lit (record { pairs = refl; timed = refl })
