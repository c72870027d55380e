-- ===== src/Simulator/Device/Timeline.antt =====
-- simulator/simulator.go: what reaches the subscribers: pushes of states and logs, and the timeline.
use go_aioesphomeapi.Base.{
  ◌+◌, Bool, true, false, not, ◌&&◌, Option, none, some, List, [], ◌∷◌, if◌then◌else◌, drop, ℤ,
  int_ltb, Table,
}
use go_aioesphomeapi.Messages.{
  LogEntry, Message, binary_sensor_state, sensor_state, text_sensor_state, switch_state,
  number_state, fan_state, light_state, subscribe_logs_response,
}
use go_aioesphomeapi.Simulator.States.{store_state}
use go_aioesphomeapi.Simulator.Device.{StateEvent, Session, Device, send_message}

-- The sessions that the loop over `connections` picks get the message; a failed write is dropped.
unfoldable pub deliver_to : (Session → Bool) → Message → Table Session → Table Session
deliver_to picks m [] = []
deliver_to picks m ((k, s) ∷ rest) =
    (k, (if picks s then (send_message m s).0 else s)) ∷ deliver_to picks m rest

abbrev pub is_subscribed : Session → Bool
is_subscribed s = s.subscribed

pub data PushError : Type 0 where
  invalid_scenario unsupported_push simulator_closed : PushError

-- A state change: stored, and sent to every subscriber.
unfoldable pub commit_state : Message → Device → Device
commit_state m d = record d {
  states = store_state m d.states;
  connections = deliver_to is_subscribed m d.connections;
}

-- `validState`
unfoldable pub valid_state : Message → Bool
valid_state (binary_sensor_state _ _ _) = true
valid_state (sensor_state _ _ _) = true
valid_state (text_sensor_state _ _ _) = true
valid_state (switch_state _ _) = true
valid_state (number_state _ _ _) = true
valid_state (fan_state _) = true
valid_state (light_state _) = true
valid_state _ = false

-- `PushState`
unfoldable pub push_state : Message → Device → Device × Option PushError
push_state m d =
    if not d.is_valid
    then (d, some invalid_scenario)
    else if not (valid_state m)
    then (d, some unsupported_push)
    else if d.is_done
    then (d, some simulator_closed)
    else (commit_state m d, none)

-- Whether a session's log level admits an entry.
abbrev pub admits : LogEntry → Session → Bool
admits entry s = s.logs_subscribed && not (int_ltb s.log_level entry.level)

-- `PushLog`; `none` is a nil entry.
unfoldable pub push_log : Option LogEntry → Device → Device × Option PushError
push_log entry d = if not d.is_valid then (d, some invalid_scenario) else elim entry [
  | none ↦ (d, some unsupported_push)
  | some e ↦ if d.is_done then (d, some simulator_closed) else (
    record d { connections = deliver_to (admits e) (subscribe_logs_response e) d.connections },
    none,
  )
]

-- The loop of `advanceTimeline` over the events that are left.
unfoldable pub advance_events : ℤ → List StateEvent → Device → Device
advance_events now [] d = d
advance_events now (event ∷ events) d =
    let next =
      advance_events now events
        (commit_state event.state (record d { timeline_index = d.timeline_index + 1 })) in
    if int_ltb now event.at then d else next

-- `advanceTimeline`
unfoldable pub advance_timeline : ℤ → Device → Device
advance_timeline now d = advance_events now (drop d.timeline_index d.state_timeline) d
