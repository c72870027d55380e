-- ===== src/Simulator/States/Fields.antt =====
-- commands.go and simulator/simulator.go: what the typed fan and light commands of the client make of the device's state, field by field.
use go_aioesphomeapi.Base.{ℕ, ◌≡◌, refl, if◌then◌else◌}
use go_aioesphomeapi.Messages.{FanStateResponse, LightStateResponse}
use go_aioesphomeapi.Client.Commands.{FanCommandOpts, LightCommandOpts, fan_request, light_request}
use go_aioesphomeapi.Simulator.States.{apply_fan, apply_light}

-- The state after a fan command: the options' value where the option is given, the old one elsewhere.
pub record FanFields (o : FanCommandOpts) (s t : FanStateResponse) : Type 0 where
  pub key_kept : t.key ≡ s.key
  pub state : t.state ≡ (if o.has_state then o.state else s.state)
  pub oscillating : t.oscillating ≡ (if o.has_oscillating then o.oscillating else s.oscillating)
  pub direction : t.direction ≡ (if o.has_direction then o.direction else s.direction)
  pub speed_level : t.speed_level ≡ (if o.has_speed_level then o.speed_level else s.speed_level)
  pub preset_mode : t.preset_mode ≡ (if o.has_preset_mode then o.preset_mode else s.preset_mode)

-- The same for a light. The transition and flash lengths have no state.
pub record LightFields (o : LightCommandOpts) (s t : LightStateResponse) : Type 0 where
  pub key_kept : t.key ≡ s.key
  pub state : t.state ≡ (if o.has_state then o.state else s.state)
  pub brightness : t.brightness ≡ (if o.has_brightness then o.brightness else s.brightness)
  pub color_mode : t.color_mode ≡ (if o.has_colour_mode then o.colour_mode else s.color_mode)
  pub color_brightness :
      t.color_brightness
      ≡ (if o.has_colour_brightness then o.colour_brightness else s.color_brightness)
  pub red : t.red ≡ (if o.has_rgb then o.red else s.red)
  pub green : t.green ≡ (if o.has_rgb then o.green else s.green)
  pub blue : t.blue ≡ (if o.has_rgb then o.blue else s.blue)
  pub white : t.white ≡ (if o.has_white then o.white else s.white)
  pub color_temperature :
      t.color_temperature
      ≡ (if o.has_colour_temperature then o.colour_temperature else s.color_temperature)
  pub cold_white : t.cold_white ≡ (if o.has_cold_white then o.cold_white else s.cold_white)
  pub warm_white : t.warm_white ≡ (if o.has_warm_white then o.warm_white else s.warm_white)
  pub effect : t.effect ≡ (if o.has_effect then o.effect else s.effect)

-- x
pub set_fan-FanFields :
    (key : ℕ) (o : FanCommandOpts) (s : FanStateResponse)
    → FanFields o s (apply_fan s (fan_request key o))
unfolding apply_fan fan_request
set_fan-FanFields key o s = record {
  key_kept = refl;
  state = refl;
  oscillating = refl;
  direction = refl;
  speed_level = refl;
  preset_mode = refl;
}

-- The request that SetLight builds, applied by the device, sets the fields whose options are given
-- to the options' values and leaves every other field and the key.
pub set_light-LightFields :
    (key : ℕ) (o : LightCommandOpts) (s : LightStateResponse)
    → LightFields o s (apply_light s (light_request key o))
unfolding apply_light light_request
set_light-LightFields key o s = record {
  key_kept = refl;
  state = refl;
  brightness = refl;
  color_mode = refl;
  color_brightness = refl;
  red = refl;
  green = refl;
  blue = refl;
  white = refl;
  color_temperature = refl;
  cold_white = refl;
  warm_white = refl;
  effect = refl;
}
