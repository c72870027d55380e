-- ===== src/Client/Commands.antt =====
-- commands.go: the typed commands. Each asks the registry for the key's domain before it sends.
pub mod Effects
use go_aioesphomeapi.Base.{
  ℕ, Bool, true, false, List, [], ◌∷◌, Bytes, ℤ, Option, none, some, if◌then◌else◌,
}
use go_aioesphomeapi.Messages.{
  Message, Float32, FanCommandRequest, LightCommandRequest, switch_command, number_command,
  button_command, fan_command, light_command,
}
use go_aioesphomeapi.Entities.{
  EntityDomain, binary_sensor, sensor, text_sensor, switch, number, button, fan, light, domain,
}
use go_aioesphomeapi.Entities.Domain.{rank}
use go_aioesphomeapi.Base.{◌==◌}
use go_aioesphomeapi.Client.State.{Client, ClientError, entity_not_found, entity_type_mismatch}
use go_aioesphomeapi.Client.Send.{Codec, Writes, send}

-- `domain != want` on the names of the domains, which differ as their ranks do.
abbrev same_domain : EntityDomain → EntityDomain → Bool
same_domain d want = rank d == rank want

-- `validateEntity`
unfoldable pub validate_entity : Client → ℕ → EntityDomain → Option ClientError
validate_entity c key want = elim (domain c.entities key) [
  | none ↦ some (entity_not_found key)
  | some d ↦ if same_domain d want then none else some (entity_type_mismatch key d want)
]

-- What all the setters do: validate, then send.
unfoldable pub command :
    Codec → Writes → EntityDomain → ℕ → Message → Client → Client × Option ClientError
command codec writes want key message c = elim (validate_entity c key want) [
  | some e ↦ (c, some e)
  | none ↦ send codec writes c message
]

pub record FanCommandOpts : Type 0 where
  pub has_state : Bool
  pub state : Bool
  pub has_oscillating : Bool
  pub oscillating : Bool
  pub has_direction : Bool
  pub direction : ℤ
  pub has_speed_level : Bool
  pub speed_level : ℤ
  pub has_preset_mode : Bool
  pub preset_mode : Bytes

pub record LightCommandOpts : Type 0 where
  pub has_state : Bool
  pub state : Bool
  pub has_brightness : Bool
  pub brightness : Float32
  pub has_colour_mode : Bool
  pub colour_mode : ℤ
  pub has_colour_brightness : Bool
  pub colour_brightness : Float32
  pub has_rgb : Bool
  pub red : Float32
  pub green : Float32
  pub blue : Float32
  pub has_white : Bool
  pub white : Float32
  pub has_colour_temperature : Bool
  pub colour_temperature : Float32
  pub has_cold_white : Bool
  pub cold_white : Float32
  pub has_warm_white : Bool
  pub warm_white : Float32
  pub has_transition_length : Bool
  pub transition_length : ℕ
  pub has_flash_length : Bool
  pub flash_length : ℕ
  pub has_effect : Bool
  pub effect : Bytes

-- The request that `SetFan` builds.
unfoldable pub fan_request : ℕ → FanCommandOpts → FanCommandRequest
fan_request key o = record {
  key = key;
  has_state = o.has_state;
  state = o.state;
  has_oscillating = o.has_oscillating;
  oscillating = o.oscillating;
  has_direction = o.has_direction;
  direction = o.direction;
  has_speed_level = o.has_speed_level;
  speed_level = o.speed_level;
  has_preset_mode = o.has_preset_mode;
  preset_mode = o.preset_mode;
  more = [];
}

-- The request that `SetLight` builds.
unfoldable pub light_request : ℕ → LightCommandOpts → LightCommandRequest
light_request key o = record {
  key = key;
  has_state = o.has_state;
  state = o.state;
  has_brightness = o.has_brightness;
  brightness = o.brightness;
  has_color_mode = o.has_colour_mode;
  color_mode = o.colour_mode;
  has_color_brightness = o.has_colour_brightness;
  color_brightness = o.colour_brightness;
  has_rgb = o.has_rgb;
  red = o.red;
  green = o.green;
  blue = o.blue;
  has_white = o.has_white;
  white = o.white;
  has_color_temperature = o.has_colour_temperature;
  color_temperature = o.colour_temperature;
  has_cold_white = o.has_cold_white;
  cold_white = o.cold_white;
  has_warm_white = o.has_warm_white;
  warm_white = o.warm_white;
  has_transition_length = o.has_transition_length;
  transition_length = o.transition_length;
  has_flash_length = o.has_flash_length;
  flash_length = o.flash_length;
  has_effect = o.has_effect;
  effect = o.effect;
  more = [];
}

module _ (codec : Codec) (writes : Writes) (key : ℕ) where
  unfoldable pub set_switch : Bool → Client → Client × Option ClientError
  set_switch state = command codec writes switch key (switch_command key state)

  unfoldable pub set_number : Float32 → Client → Client × Option ClientError
  set_number value = command codec writes number key (number_command key value)

  unfoldable pub press_button : Client → Client × Option ClientError
  press_button = command codec writes button key (button_command key)

  unfoldable pub set_fan : FanCommandOpts → Client → Client × Option ClientError
  set_fan options = command codec writes fan key (fan_command (fan_request key options))

  unfoldable pub set_light : LightCommandOpts → Client → Client × Option ClientError
  set_light options = command codec writes light key (light_command (light_request key options))
