-- ===== src/Messages/Kinds.antt =====
-- The ID of a message and the name tests that the code makes on it.
use go_aioesphomeapi.Base.{
  ℕ, ◌-◌, Bool, ◌&&◌, not, Bytes, Option, none, some, ltb, leb, length, take, drop, codes,
  bytes_equal,
}
use go_aioesphomeapi.Messages.{
  Message, hello_request, hello_response, disconnect_request, disconnect_response, ping_request,
  ping_response, device_info_request, device_info_response, list_entities_request,
  list_entities_done_response, subscribe_states_request, list_entities_binary_sensor,
  list_entities_sensor, list_entities_text_sensor, list_entities_switch, list_entities_number,
  list_entities_button, list_entities_fan, list_entities_light, binary_sensor_state, sensor_state,
  text_sensor_state, switch_state, number_state, fan_state, light_state, subscribe_logs_request,
  subscribe_logs_response, switch_command, number_command, button_command, fan_command,
  light_command, other, unnumbered,
}

-- `wire.MessageID`: the ID of the descriptor; `none` is `ErrUnknownMessage`.
unfoldable pub message_id : Message → Option ℕ
message_id (hello_request c major minor) = some 1
message_id (hello_response r) = some 2
message_id disconnect_request = some 5
message_id disconnect_response = some 6
message_id ping_request = some 7
message_id ping_response = some 8
message_id device_info_request = some 9
message_id (device_info_response r) = some 10
message_id list_entities_request = some 11
message_id (list_entities_binary_sensor d) = some 12
message_id (list_entities_fan d) = some 14
message_id (list_entities_light d) = some 15
message_id (list_entities_sensor d) = some 16
message_id (list_entities_switch d) = some 17
message_id (list_entities_text_sensor d) = some 18
message_id list_entities_done_response = some 19
message_id subscribe_states_request = some 20
message_id (binary_sensor_state k s m) = some 21
message_id (fan_state s) = some 23
message_id (light_state s) = some 24
message_id (sensor_state k s m) = some 25
message_id (switch_state k s) = some 26
message_id (text_sensor_state k s m) = some 27
message_id (subscribe_logs_request l) = some 28
message_id (subscribe_logs_response e) = some 29
message_id (fan_command c) = some 31
message_id (light_command c) = some 32
message_id (switch_command k s) = some 33
message_id (list_entities_number d) = some 49
message_id (number_state k s m) = some 50
message_id (number_command k s) = some 51
message_id (list_entities_button d) = some 61
message_id (button_command k) = some 62
message_id (other id name content) = some id
message_id (unnumbered name content) = none

-- `message.ProtoReflect().Descriptor().Name()`
unfoldable pub message_name : Message → Bytes
message_name (hello_request c major minor) = codes "HelloRequest"
message_name (hello_response r) = codes "HelloResponse"
message_name disconnect_request = codes "DisconnectRequest"
message_name disconnect_response = codes "DisconnectResponse"
message_name ping_request = codes "PingRequest"
message_name ping_response = codes "PingResponse"
message_name device_info_request = codes "DeviceInfoRequest"
message_name (device_info_response r) = codes "DeviceInfoResponse"
message_name list_entities_request = codes "ListEntitiesRequest"
message_name (list_entities_binary_sensor d) = codes "ListEntitiesBinarySensorResponse"
message_name (list_entities_fan d) = codes "ListEntitiesFanResponse"
message_name (list_entities_light d) = codes "ListEntitiesLightResponse"
message_name (list_entities_sensor d) = codes "ListEntitiesSensorResponse"
message_name (list_entities_switch d) = codes "ListEntitiesSwitchResponse"
message_name (list_entities_text_sensor d) = codes "ListEntitiesTextSensorResponse"
message_name list_entities_done_response = codes "ListEntitiesDoneResponse"
message_name subscribe_states_request = codes "SubscribeStatesRequest"
message_name (binary_sensor_state k s m) = codes "BinarySensorStateResponse"
message_name (fan_state s) = codes "FanStateResponse"
message_name (light_state s) = codes "LightStateResponse"
message_name (sensor_state k s m) = codes "SensorStateResponse"
message_name (switch_state k s) = codes "SwitchStateResponse"
message_name (text_sensor_state k s m) = codes "TextSensorStateResponse"
message_name (subscribe_logs_request l) = codes "SubscribeLogsRequest"
message_name (subscribe_logs_response e) = codes "SubscribeLogsResponse"
message_name (fan_command c) = codes "FanCommandRequest"
message_name (light_command c) = codes "LightCommandRequest"
message_name (switch_command k s) = codes "SwitchCommandRequest"
message_name (list_entities_number d) = codes "ListEntitiesNumberResponse"
message_name (number_state k s m) = codes "NumberStateResponse"
message_name (number_command k s) = codes "NumberCommandRequest"
message_name (list_entities_button d) = codes "ListEntitiesButtonResponse"
message_name (button_command k) = codes "ButtonCommandRequest"
message_name (other id name content) = name
message_name (unnumbered name content) = name

-- `isListEntity` of client.go. `ListEntitiesResponse` has 20 letters.
unfoldable pub is_list_entity : Message → Bool
unfolding message_name bytes_equal
is_list_entity m =
    let name = message_name m in
    ltb 20 (length name)
    && leb 12 (length name)
    && bytes_equal (take 12 name) (codes "ListEntities")
    && not (bytes_equal name (codes "ListEntitiesDoneResponse"))

-- `strings.HasSuffix`
abbrev has_suffix : Bytes → Bytes → Bool
has_suffix s suffix =
    leb (length suffix) (length s) && bytes_equal (drop (length s - length suffix) s) suffix

-- `isCommandRequest` of simulator.go.
unfoldable pub is_command_request : Message → Bool
unfolding message_name bytes_equal
is_command_request m = has_suffix (message_name m) (codes "CommandRequest")
