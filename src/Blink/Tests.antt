-- ===== src/Blink/Tests.antt =====
-- blink_device.go: the light is turned off and goes on again.
use go_aioesphomeapi.Base.{◌≡◌, refl, true, false, List, [], ◌∷◌}
use go_aioesphomeapi.Messages.{switch_command, switch_state, binary_sensor_state}
use go_aioesphomeapi.Blink.{
  lit, switch_led, on_command, on_relight, BlinkEvent, blink_round, blink_rounds, command, timer,
}
use go_aioesphomeapi.Blink.Mirrored.{IsMirrored, run-IsMirrored}

abbrev blink : List BlinkEvent
blink = command (switch_command 212 false) ∷ timer ∷ timer ∷ []

blink-states :
    (blink_rounds blink lit).states
    ≡ binary_sensor_state 211 true false
      ∷ switch_state 212 true
      ∷ binary_sensor_state 211 false false
      ∷ switch_state 212 false
      ∷ []
unfolding blink_rounds blink_round on_command switch_led on_relight
blink-states = refl

run-IsMirrored_example : IsMirrored (blink_rounds blink lit)
run-IsMirrored_example = run-IsMirrored blink
