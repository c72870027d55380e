-- ===== src/Messages.antt =====
-- pb: the generated messages that the handwritten code tells apart. A record has the fields that this
-- code reads or sets, and `more` for the others; texts are byte strings, `int32` and enumerations are
-- signed integers, and a `float32` is its IEEE 754 bit pattern.
pub mod Kinds
use go_aioesphomeapi.Base.{ℕ, Bool, List, Bytes, ℤ}

abbrev pub Float32 : Type 0
Float32 = ℕ

-- What the simple entities' descriptors have in common.
pub record Descriptor : Type 0 where
  pub key : ℕ
  pub object_id : Bytes
  pub name : Bytes
  pub more : Bytes

pub record ListEntitiesFanResponse : Type 0 where
  pub key : ℕ
  pub object_id : Bytes
  pub name : Bytes
  pub supports_oscillation : Bool
  pub supports_speed : Bool
  pub supports_direction : Bool
  pub supported_speed_count : ℤ
  pub supported_preset_modes : List Bytes
  pub more : Bytes

pub record ListEntitiesLightResponse : Type 0 where
  pub key : ℕ
  pub object_id : Bytes
  pub name : Bytes
  pub supported_color_modes : List ℤ
  pub effects : List Bytes
  pub more : Bytes

pub record FanStateResponse : Type 0 where
  pub key : ℕ
  pub state : Bool
  pub oscillating : Bool
  pub direction : ℤ
  pub speed_level : ℤ
  pub preset_mode : Bytes
  pub more : Bytes

pub record LightStateResponse : Type 0 where
  pub key : ℕ
  pub state : Bool
  pub brightness : Float32
  pub color_mode : ℤ
  pub color_brightness : Float32
  pub red : Float32
  pub green : Float32
  pub blue : Float32
  pub white : Float32
  pub color_temperature : Float32
  pub cold_white : Float32
  pub warm_white : Float32
  pub effect : Bytes
  pub more : Bytes

pub record FanCommandRequest : Type 0 where
  pub key : ℕ
  pub has_state : Bool
  pub state : Bool
  pub has_oscillating : Bool
  pub oscillating : Bool
  pub has_direction : Bool
  pub direction : ℤ
  pub has_speed_level : Bool
  pub speed_level : ℤ
  pub has_preset_mode : Bool
  pub preset_mode : Bytes
  pub more : Bytes

pub record LightCommandRequest : Type 0 where
  pub key : ℕ
  pub has_state : Bool
  pub state : Bool
  pub has_brightness : Bool
  pub brightness : Float32
  pub has_color_mode : Bool
  pub color_mode : ℤ
  pub has_color_brightness : Bool
  pub color_brightness : Float32
  pub has_rgb : Bool
  pub red : Float32
  pub green : Float32
  pub blue : Float32
  pub has_white : Bool
  pub white : Float32
  pub has_color_temperature : Bool
  pub color_temperature : Float32
  pub has_cold_white : Bool
  pub cold_white : Float32
  pub has_warm_white : Bool
  pub warm_white : Float32
  pub has_transition_length : Bool
  pub transition_length : ℕ
  pub has_flash_length : Bool
  pub flash_length : ℕ
  pub has_effect : Bool
  pub effect : Bytes
  pub more : Bytes

pub record LogEntry : Type 0 where
  pub level : ℤ
  pub message : Bytes

pub record HelloResponse : Type 0 where
  pub api_version_major : ℕ
  pub api_version_minor : ℕ
  pub server_info : Bytes
  pub name : Bytes

pub record DeviceInfoResponse : Type 0 where
  pub name : Bytes
  pub friendly_name : Bytes
  pub mac_address : Bytes
  pub esphome_version : Bytes
  pub model : Bytes
  pub manufacturer : Bytes
  pub api_encryption_supported : Bool
  pub more : Bytes

-- The messages. `other` is any other message of the pinned inventory, by its ID, its name and its content, and
-- `unnumbered` one that has no ID.
pub data Message : Type 0 where
  hello_request : (client_info : Bytes) (major minor : ℕ) → Message
  hello_response : HelloResponse → Message
  disconnect_request disconnect_response ping_request ping_response : Message
  device_info_request : Message
  device_info_response : DeviceInfoResponse → Message
  list_entities_request list_entities_done_response subscribe_states_request : Message
  list_entities_binary_sensor list_entities_sensor list_entities_text_sensor : Descriptor → Message
  list_entities_switch list_entities_number list_entities_button : Descriptor → Message
  list_entities_fan : ListEntitiesFanResponse → Message
  list_entities_light : ListEntitiesLightResponse → Message
  binary_sensor_state : (key : ℕ) (state missing : Bool) → Message
  sensor_state : (key : ℕ) (state : Float32) (missing : Bool) → Message
  text_sensor_state : (key : ℕ) (state : Bytes) (missing : Bool) → Message
  switch_state : (key : ℕ) (state : Bool) → Message
  number_state : (key : ℕ) (state : Float32) (missing : Bool) → Message
  fan_state : FanStateResponse → Message
  light_state : LightStateResponse → Message
  subscribe_logs_request : (level : ℤ) → Message
  subscribe_logs_response : LogEntry → Message
  switch_command : (key : ℕ) (state : Bool) → Message
  number_command : (key : ℕ) (state : Float32) → Message
  button_command : (key : ℕ) → Message
  fan_command : FanCommandRequest → Message
  light_command : LightCommandRequest → Message
  other : (id : ℕ) (name content : Bytes) → Message
  unnumbered : (name content : Bytes) → Message
