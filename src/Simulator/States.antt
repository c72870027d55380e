-- ===== src/Simulator/States.antt =====
-- simulator/simulator.go: the states that a device holds, in the order of their first appearance, and
-- what a fan or light command makes of a state. `proto.Clone` is the identity on values.
pub mod Snapshot
pub mod Fields
use go_aioesphomeapi.Base.{
  ℕ, Bool, true, false, ◌&&◌, Option, none, some, List, [], ◌∷◌, ◌++◌, ◌==◌, if◌then◌else◌, pos,
}
use go_aioesphomeapi.Messages.{
  FanStateResponse, LightStateResponse, FanCommandRequest, LightCommandRequest, Message,
  binary_sensor_state, sensor_state, text_sensor_state, switch_state, number_state, fan_state,
  light_state, switch_command, number_command, fan_command, light_command,
}

-- The `family` of a `stateIdentity`: in Go one of seven texts.
pub data Family : Type 0 where
  binary_sensor sensor text_sensor switch number fan light : Family

abbrev pub same_family : Family → Family → Bool
same_family binary_sensor binary_sensor = true
same_family sensor sensor = true
same_family text_sensor text_sensor = true
same_family switch switch = true
same_family number number = true
same_family fan fan = true
same_family light light = true
same_family _ _ = false

-- `stateIdentity`
pub record StateIdentity : Type 0 where
  pub family : Family
  pub key : ℕ

-- `==` on the struct.
unfoldable pub same_identity : StateIdentity → StateIdentity → Bool
same_identity a b = same_family a.family b.family && (a.key == b.key)

-- `stateIdentityOf`
unfoldable pub state_identity_of : Message → Option StateIdentity
state_identity_of (binary_sensor_state key _ _) =
    some (record { family = binary_sensor; key = key })
state_identity_of (sensor_state key _ _) = some (record { family = sensor; key = key })
state_identity_of (text_sensor_state key _ _) = some (record { family = text_sensor; key = key })
state_identity_of (switch_state key _) = some (record { family = switch; key = key })
state_identity_of (number_state key _ _) = some (record { family = number; key = key })
state_identity_of (fan_state s) = some (record { family = fan; key = s.key })
state_identity_of (light_state s) = some (record { family = light; key = s.key })
state_identity_of _ = none

abbrev pub StateMap : Type 0
StateMap = List (StateIdentity × Message)

unfoldable pub lookup_state : StateIdentity → StateMap → Option Message
lookup_state i [] = none
lookup_state i ((j, m) ∷ rest) = if same_identity j i then some m else lookup_state i rest

unfoldable pub insert_state : StateIdentity → Message → StateMap → StateMap
insert_state i m [] = (i, m) ∷ []
insert_state i m ((j, old) ∷ rest) =
    if same_identity j i then (i, m) ∷ rest else (j, old) ∷ insert_state i m rest

-- `currentStates` and `stateOrder` of `Device`.
pub record States : Type 0 where
  pub current : StateMap
  pub order : List StateIdentity

abbrev pub no_states : States
no_states = record { current = []; order = [] }

-- `storeStateLocked`
unfoldable pub store_state : Message → States → States
store_state m s = elim (state_identity_of m) [
  | none ↦ s
  | some i ↦ record s {
    current = insert_state i m s.current;
    order = elim (lookup_state i s.current) [ none ↦ s.order ++ (i ∷ []) | some _ ↦ s.order ];
  }
]

unfoldable pub snapshot_of : StateMap → List StateIdentity → List Message
snapshot_of current [] = []
snapshot_of current (i ∷ order) =
    let rest = snapshot_of current order in
    elim (lookup_state i current) [ none ↦ rest | some m ↦ m ∷ rest ]

-- `stateSnapshotLocked`
unfoldable pub state_snapshot : States → List Message
state_snapshot s = snapshot_of s.current s.order

-- `applyFan`
unfoldable pub apply_fan : FanStateResponse → FanCommandRequest → FanStateResponse
apply_fan s c = record s {
  state = if c.has_state then c.state else s.state;
  oscillating = if c.has_oscillating then c.oscillating else s.oscillating;
  direction = if c.has_direction then c.direction else s.direction;
  speed_level = if c.has_speed_level then c.speed_level else s.speed_level;
  preset_mode = if c.has_preset_mode then c.preset_mode else s.preset_mode;
}

-- `applyLight`
unfoldable pub apply_light : LightStateResponse → LightCommandRequest → LightStateResponse
apply_light s c = record s {
  state = if c.has_state then c.state else s.state;
  brightness = if c.has_brightness then c.brightness else s.brightness;
  color_mode = if c.has_color_mode then c.color_mode else s.color_mode;
  color_brightness = if c.has_color_brightness then c.color_brightness else s.color_brightness;
  red = if c.has_rgb then c.red else s.red;
  green = if c.has_rgb then c.green else s.green;
  blue = if c.has_rgb then c.blue else s.blue;
  white = if c.has_white then c.white else s.white;
  color_temperature = if c.has_color_temperature then c.color_temperature else s.color_temperature;
  cold_white = if c.has_cold_white then c.cold_white else s.cold_white;
  warm_white = if c.has_warm_white then c.warm_white else s.warm_white;
  effect = if c.has_effect then c.effect else s.effect;
}

-- The state a fan command starts from: the stored one, or a new one with the key alone.
unfoldable pub fan_state_of : ℕ → States → FanStateResponse
fan_state_of key s = elim (lookup_state (record { family = fan; key = key }) s.current) [
  | some (fan_state f) ↦ f
  | _ ↦ record {
    key = key;
    state = false;
    oscillating = false;
    direction = pos 0;
    speed_level = pos 0;
    preset_mode = [];
    more = [];
  }
]

unfoldable pub light_state_of : ℕ → States → LightStateResponse
light_state_of key s = elim (lookup_state (record { family = light; key = key }) s.current) [
  | some (light_state l) ↦ l
  | _ ↦ record {
    key = key;
    state = false;
    brightness = 0;
    color_mode = pos 0;
    color_brightness = 0;
    red = 0;
    green = 0;
    blue = 0;
    white = 0;
    color_temperature = 0;
    cold_white = 0;
    warm_white = 0;
    effect = [];
    more = [];
  }
]

-- The state that a command leads to: what `serve` stores and sends in answer; `none` for the other
-- messages, and for a button, which has no state.
unfoldable pub command_state : Message → States → Option Message
command_state (switch_command key state) s = some (switch_state key state)
command_state (number_command key state) s = some (number_state key state false)
command_state (fan_command c) s = some (fan_state (apply_fan (fan_state_of c.key s) c))
command_state (light_command c) s = some (light_state (apply_light (light_state_of c.key s) c))
command_state _ s = none
