-- ===== src/Simulator/Device.antt =====
-- simulator/simulator.go and fault.go: the scenario, the sessions, the handler of each message that
-- `serve` reads, the faults, the pushes and the timeline. A session's writes follow a schedule that says
-- of each whether it succeeds; a handler that holds `stateSerial` is one step.
pub mod Timeline
pub mod Advance
pub mod UpToDate
pub mod Told
use go_aioesphomeapi.Base.{
  ℕ, ◌+◌, Bool, true, false, not, none, some, List, [], ◌∷◌, ◌++◌, if◌then◌else◌, Bytes, codes,
  bytes_equal, ℤ, int_ltb, Table,
}
use go_aioesphomeapi.Messages.{
  LogEntry, DeviceInfoResponse, Message, hello_response, disconnect_request, disconnect_response,
  ping_request, ping_response, device_info_request, device_info_response, list_entities_request,
  list_entities_done_response, subscribe_states_request, subscribe_logs_request,
  subscribe_logs_response,
}
use go_aioesphomeapi.Messages.Kinds.{message_id, is_command_request}
use go_aioesphomeapi.Simulator.Expectations.{Observer, record_command}
use go_aioesphomeapi.Simulator.Network.{NetworkAction, Armed, unarmed, arm}
use go_aioesphomeapi.Simulator.States.{States, store_state, state_snapshot, command_state}

-- `FaultTrigger`: in Go a text.
pub data FaultTrigger : Type 0 where
  after_hello before_entities_done after_initial_states : FaultTrigger
  other_trigger : Bytes → FaultTrigger

abbrev pub same_trigger : FaultTrigger → FaultTrigger → Bool
same_trigger after_hello after_hello = true
same_trigger before_entities_done before_entities_done = true
same_trigger after_initial_states after_initial_states = true
same_trigger (other_trigger a) (other_trigger b) = bytes_equal a b
same_trigger _ _ = false

-- `FaultAction`
pub data FaultAction : Type 0 where
  drop_connection malformed_protobuf unknown_message : FaultAction
  duplicate_entities_done stall : FaultAction
  other_action : Bytes → FaultAction

-- `Fault`
pub record Fault : Type 0 where
  pub trigger : FaultTrigger
  pub action : FaultAction

-- `NetworkFault`
pub record NetworkFault : Type 0 where
  pub trigger : FaultTrigger
  pub action : NetworkAction
  pub delay : ℤ

-- `StateEvent`: the time in nanoseconds.
pub record StateEvent : Type 0 where
  pub at : ℤ
  pub state : Message

-- What goes out in a frame: a message, or the raw payload of a fault.
pub data Sent : Type 0 where
  message : Message → Sent
  raw : (id : ℕ) (payload : Bytes) → Sent

-- `deviceSession`, its connection as the schedule of its writes, with a log of what was written.
pub record Session : Type 0 where
  pub subscribed : Bool
  pub logs_subscribed : Bool
  pub log_level : ℤ
  pub armed : Armed
  pub writes : List Bool
  pub sent : List Sent

-- The fields of `Scenario` that the handlers read, with the two of `config` and the device's counters.
pub record Device : Type 0 where
  pub name : Bytes
  pub plaintext : Bool
  pub entities : List Message
  pub logs : List LogEntry
  pub faults : List Fault
  pub network : List NetworkFault
  pub now : ℤ
  pub state_timeline : List StateEvent
  pub is_valid : Bool
  pub is_done : Bool
  pub states : States
  pub timeline_index : ℕ
  pub answered_pings : ℕ
  pub observer : Observer
  pub connections : Table Session

-- `sendLocked` and `writeFrame`, once the ID is found: whether the frame went out. What was armed is used
-- up by `beginFrame`.
unfoldable pub write_sent : Sent → Session → Session × Bool
write_sent frame s =
    let started = record s { armed = unarmed } in
    elim s.writes [
      | [] ↦ (started, false)
      | false ∷ rest ↦ (record started { writes = rest }, false)
      | true ∷ rest ↦ (record started { writes = rest; sent = s.sent ++ (frame ∷ []) }, true)
    ]

-- `send`: a message without an ID is refused before anything is written.
unfoldable pub send_message : Message → Session → Session × Bool
send_message m s = elim (message_id m) [ none ↦ (s, false) | some id ↦ write_sent (message m) s ]

-- A loop of `send` that returns at the first failure.
unfoldable pub send_each : List Message → Session → Session × Bool
send_each [] s = (s, true)
send_each (m ∷ ms) s =
    let (s', went) = send_message m s in
    let rest = send_each ms s' in if went then rest else (s', false)

-- `triggerFault`: whether the session is over.
unfoldable pub trigger_fault : FaultTrigger → List Fault → Session → Session × Bool
trigger_fault trigger [] s = (s, false)
trigger_fault trigger (fault ∷ faults) s =
    let next = trigger_fault trigger faults s in
    let unknown = write_sent (raw 65000 []) s in
    let after_unknown = trigger_fault trigger faults unknown.0 in
    let doubled = send_each (list_entities_done_response ∷ list_entities_done_response ∷ []) s in
    let after_doubled = trigger_fault trigger faults doubled.0 in
    if not (same_trigger fault.trigger trigger) then next else elim fault.action [
      | drop_connection ↦ (s, true)
      | malformed_protobuf ↦ ((write_sent (raw 8 (128 ∷ [])) s).0, true)
      | unknown_message ↦ if unknown.1 then after_unknown else (unknown.0, true)
      | duplicate_entities_done ↦ if doubled.1 then after_doubled else (doubled.0, true)
      | stall ↦ (s, true)
      | other_action _ ↦ next
    ]

-- `triggerNetwork`
unfoldable pub trigger_network : ℤ → FaultTrigger → List NetworkFault → Session → Session
trigger_network now trigger [] s = s
trigger_network now trigger (fault ∷ faults) s = trigger_network now trigger faults (
    if same_trigger fault.trigger trigger
    then record s { armed = arm now fault.action fault.delay s.armed }
    else s)

-- `deviceInfo`
unfoldable pub device_info : Device → DeviceInfoResponse
device_info d = record {
  name = d.name;
  friendly_name = d.name;
  mac_address = codes "02:00:00:00:00:01";
  esphome_version = codes "2026.7.0";
  model = codes "go-aioesphomeapi-simulator";
  manufacturer = codes "go-aioesphomeapi";
  api_encryption_supported = not d.plaintext;
  more = [];
}

-- The log entries that a level admits.
unfoldable pub admitted_logs : ℤ → List LogEntry → List Message
admitted_logs level [] = []
admitted_logs level (e ∷ es) =
    let rest = admitted_logs level es in
    if int_ltb level e.level then rest else subscribe_logs_response e ∷ rest

-- A handler's result: the device, the session, and whether the session goes on.
abbrev pub Handled : Type 0
Handled = Device × Session × Bool

-- The first exchange of `serve`, after the transport is set up.
unfoldable pub serve_hello : Device → Session → Session × Bool
serve_hello d s =
    let (s', went) =
      send_message
        (hello_response (record {
          api_version_major = 1;
          api_version_minor = 10;
          server_info = codes "go-aioesphomeapi simulator";
          name = d.name;
        }))
        s in
    let (s'', over) = trigger_fault after_hello d.faults s' in
    if not went
    then (s', false)
    else if over
    then (s'', false)
    else (trigger_network d.now after_hello d.network s'', true)

unfoldable pub serve_entities : Device → Session → Handled
serve_entities d s =
    let (s1, listed) = send_each d.entities s in
    let (s2, over) = trigger_fault before_entities_done d.faults s1 in
    let (s3, went) =
      send_message list_entities_done_response
        (trigger_network d.now before_entities_done d.network s2) in
    if not listed then (d, s1, false) else if over then (d, s2, false) else (d, s3, went)

unfoldable pub serve_states : Device → Session → Handled
serve_states d s =
    let (s1, went) = send_each (state_snapshot d.states) (record s { subscribed = true }) in
    let (s2, over) = trigger_fault after_initial_states d.faults s1 in
    if not went
    then (d, s1, false)
    else if over
    then (d, s2, false)
    else (d, trigger_network d.now after_initial_states d.network s2, true)

unfoldable pub serve_logs : ℤ → Device → Session → Handled
serve_logs level d s =
    let (s', went) =
      send_each (admitted_logs level d.logs)
        (record s { logs_subscribed = true; log_level = level }) in
    (d, s', went)

unfoldable pub serve_ping : Device → Session → Handled
serve_ping d s =
    let (s', went) = send_message ping_response s in
    if went then (record d { answered_pings = d.answered_pings + 1 }, s', true) else (d, s', false)

-- A command: the state it leads to is stored, then sent.
unfoldable pub serve_command : Message → Device → Session → Handled
serve_command m d s = elim (command_state m d.states) [
  | none ↦ (d, s, true)
  | some state ↦
      let (s', went) = send_message state s in
      (record d { states = store_state state d.states }, s', went)
]

module _ (proto_equal : Message → Message → Bool) where
  -- The command channel and the expectations see a command before its handler runs.
  unfoldable pub note_command : Message → Device → Device
  note_command m d =
      if is_command_request m
      then record d { observer = record_command proto_equal m d.observer }
      else d

  -- One round of the loop of `serve`: the message that was read.
  unfoldable pub serve_message : Message → Device → Session → Handled
  serve_message list_entities_request d s = serve_entities d s
  serve_message subscribe_states_request d s = serve_states d s
  serve_message (subscribe_logs_request level) d s = serve_logs level d s
  serve_message ping_request d s = serve_ping d s
  serve_message device_info_request d s =
      let (s', went) = send_message (device_info_response (device_info d)) s in (d, s', went)
  serve_message disconnect_request d s = (d, (send_message disconnect_response s).0, false)
  serve_message m d s = serve_command m (note_command m d) s
