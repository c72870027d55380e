-- ===== src/Entities.antt =====
-- entities.go: the registry of the entities that a device has listed, with the states last seen.
pub mod Accessors
pub mod Adjust
pub mod Domain
pub mod Views
mod Tests
use go_aioesphomeapi.Base.{
  ℕ, Bool, true, false, List, [], ◌∷◌, Bytes, ℤ, pos, Option, none, some, if◌then◌else◌, Table,
  lookup, insert, values,
}
use go_aioesphomeapi.Messages.{
  Message, Float32, Descriptor, ListEntitiesFanResponse, ListEntitiesLightResponse,
  FanStateResponse, LightStateResponse, list_entities_binary_sensor, list_entities_sensor,
  list_entities_text_sensor, list_entities_switch, list_entities_number, list_entities_button,
  list_entities_fan, list_entities_light, binary_sensor_state, sensor_state, text_sensor_state,
  switch_state, number_state, fan_state, light_state,
}

-- `EntityDomain`.
pub data EntityDomain : Type 0 where
  binary_sensor sensor text_sensor switch number button fan light : EntityDomain

pub record EntityBase : Type 0 where
  pub key : ℕ
  pub object_id : Bytes
  pub name : Bytes

pub record BinarySensorEntity : Type 0 where
  pub base : EntityBase
  pub state : Bool
  pub missing_state : Bool

pub record SensorEntity : Type 0 where
  pub base : EntityBase
  pub state : Float32
  pub missing_state : Bool

pub record TextSensorEntity : Type 0 where
  pub base : EntityBase
  pub state : Bytes
  pub missing_state : Bool

pub record SwitchEntity : Type 0 where
  pub base : EntityBase
  pub state : Bool

pub record NumberEntity : Type 0 where
  pub base : EntityBase
  pub state : Float32
  pub missing_state : Bool

pub record ButtonEntity : Type 0 where
  pub base : EntityBase

pub record FanEntity : Type 0 where
  pub base : EntityBase
  pub supports_oscillation : Bool
  pub supports_speed : Bool
  pub supports_direction : Bool
  pub supported_speed_count : ℤ
  pub supported_preset_modes : List Bytes
  pub state : Bool
  pub oscillating : Bool
  pub direction : ℤ
  pub speed_level : ℤ
  pub preset_mode : Bytes

pub record LightEntity : Type 0 where
  pub base : EntityBase
  pub supported_colour_modes : List ℤ
  pub effects : List Bytes
  pub state : Bool
  pub brightness : Float32
  pub colour_mode : ℤ
  pub colour_brightness : Float32
  pub red : Float32
  pub green : Float32
  pub blue : Float32
  pub white : Float32
  pub colour_temperature : Float32
  pub cold_white : Float32
  pub warm_white : Float32
  pub effect : Bytes

-- `EntityRegistry`. No pointer of the maps leaves the registry, so that an entry is its value.
pub record EntityRegistry : Type 0 where
  pub binary_sensors : Table BinarySensorEntity
  pub sensors : Table SensorEntity
  pub text_sensors : Table TextSensorEntity
  pub switches : Table SwitchEntity
  pub numbers : Table NumberEntity
  pub buttons : Table ButtonEntity
  pub fans : Table FanEntity
  pub lights : Table LightEntity

-- `newEntityRegistry`
unfoldable pub new_entity_registry : EntityRegistry
new_entity_registry = record {
  binary_sensors = [];
  sensors = [];
  text_sensors = [];
  switches = [];
  numbers = [];
  buttons = [];
  fans = [];
  lights = [];
}

abbrev base_of : Descriptor → EntityBase
base_of d = record { key = d.key; object_id = d.object_id; name = d.name }

-- A listed entity starts with Go's zero values for its state.
unfoldable pub listed_fan : ListEntitiesFanResponse → FanEntity
listed_fan m = record {
  base = record { key = m.key; object_id = m.object_id; name = m.name };
  supports_oscillation = m.supports_oscillation;
  supports_speed = m.supports_speed;
  supports_direction = m.supports_direction;
  supported_speed_count = m.supported_speed_count;
  supported_preset_modes = m.supported_preset_modes;
  state = false;
  oscillating = false;
  direction = pos 0;
  speed_level = pos 0;
  preset_mode = [];
}

unfoldable pub listed_light : ListEntitiesLightResponse → LightEntity
listed_light m = record {
  base = record { key = m.key; object_id = m.object_id; name = m.name };
  supported_colour_modes = m.supported_color_modes;
  effects = m.effects;
  state = false;
  brightness = 0;
  colour_mode = pos 0;
  colour_brightness = 0;
  red = 0;
  green = 0;
  blue = 0;
  white = 0;
  colour_temperature = 0;
  cold_white = 0;
  warm_white = 0;
  effect = [];
}

-- The assignments of `handle` to a fan and to a light.
unfoldable pub with_fan_state : FanStateResponse → FanEntity → FanEntity
with_fan_state m e = record e {
  state = m.state;
  oscillating = m.oscillating;
  direction = m.direction;
  speed_level = m.speed_level;
  preset_mode = m.preset_mode;
}

unfoldable pub with_light_state : LightStateResponse → LightEntity → LightEntity
with_light_state m e = record e {
  state = m.state;
  brightness = m.brightness;
  colour_mode = m.color_mode;
  colour_brightness = m.color_brightness;
  red = m.red;
  green = m.green;
  blue = m.blue;
  white = m.white;
  colour_temperature = m.color_temperature;
  cold_white = m.cold_white;
  warm_white = m.warm_white;
  effect = m.effect;
}

-- `if e := table[key]; e != nil { … }`: a state for a key that was never listed is dropped.
unfoldable pub adjust {ℓ} : {V : Type ℓ} → ℕ → (V → V) → Table V → Table V
adjust k f m = elim (lookup k m) [ none ↦ m | some e ↦ insert k (f e) m ]

-- `(*EntityRegistry).handle`
unfoldable pub handle : EntityRegistry → Message → EntityRegistry
handle r (list_entities_binary_sensor m) = record r {
  binary_sensors =
      insert m.key (record { base = base_of m; state = false; missing_state = false })
        r.binary_sensors;
}
handle r (list_entities_sensor m) = record r {
  sensors = insert m.key (record { base = base_of m; state = 0; missing_state = false }) r.sensors;
}
handle r (list_entities_text_sensor m) = record r {
  text_sensors =
      insert m.key (record { base = base_of m; state = []; missing_state = false }) r.text_sensors;
}
handle r (list_entities_switch m) = record r {
  switches = insert m.key (record { base = base_of m; state = false }) r.switches;
}
handle r (list_entities_number m) = record r {
  numbers = insert m.key (record { base = base_of m; state = 0; missing_state = false }) r.numbers;
}
handle r (list_entities_button m) = record r {
  buttons = insert m.key (record { base = base_of m }) r.buttons;
}
handle r (list_entities_fan m) = record r { fans = insert m.key (listed_fan m) r.fans }
handle r (list_entities_light m) = record r { lights = insert m.key (listed_light m) r.lights }
handle r (binary_sensor_state key state missing) = record r {
  binary_sensors =
      adjust key (λ e. record e { state = state; missing_state = missing }) r.binary_sensors;
}
handle r (sensor_state key state missing) = record r {
  sensors = adjust key (λ e. record e { state = state; missing_state = missing }) r.sensors;
}
handle r (text_sensor_state key state missing) = record r {
  text_sensors =
      adjust key (λ e. record e { state = state; missing_state = missing }) r.text_sensors;
}
handle r (switch_state key state) = record r {
  switches = adjust key (λ e. record e { state = state }) r.switches;
}
handle r (number_state key state missing) = record r {
  numbers = adjust key (λ e. record e { state = state; missing_state = missing }) r.numbers;
}
handle r (fan_state m) = record r { fans = adjust m.key (with_fan_state m) r.fans }
handle r (light_state m) = record r { lights = adjust m.key (with_light_state m) r.lights }
handle r _ = r

abbrev pub has_key {ℓ} : {V : Type ℓ} → ℕ → Table V → Bool
has_key k m = elim (lookup k m) [ none ↦ false | some e ↦ true ]

-- `(*EntityRegistry).domain`: the first map that has the key.
unfoldable pub domain : EntityRegistry → ℕ → Option EntityDomain
domain r key =
    if has_key key r.binary_sensors
    then some binary_sensor
    else if has_key key r.sensors
    then some sensor
    else if has_key key r.text_sensors
    then some text_sensor
    else if has_key key r.switches
    then some switch
    else if has_key key r.numbers
    then some number
    else if has_key key r.buttons
    then some button
    else if has_key key r.fans
    then some fan
    else if has_key key r.lights
    then some light
    else none
