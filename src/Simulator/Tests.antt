-- ===== src/Simulator/Tests.antt =====
-- Runs of the simulated device, and its theorems at concrete inputs.
use go_aioesphomeapi.Base.{
  ◌≡◌, ◌↔◌, refl, Bool, true, false, List, [], ◌∷◌, none, arith, ◌==◌, length, codes, pos, insert,
  some, bytes_equal, ok, err,
}
use go_aioesphomeapi.Messages.{
  Message, button_command, ping_response, switch_state, number_state, list_entities_sensor,
  list_entities_switch, switch_command,
}
use go_aioesphomeapi.Messages.Kinds.{message_id}
use go_aioesphomeapi.Simulator.Clock.{
  new_manual_clock, advance_target, advance_to_target, still_waiting, woken, advance, wait_until,
}
use go_aioesphomeapi.Simulator.Clock.Wakes.{
  ClockCall, call_clock, call_all, IsOnTime, call_all-IsOnTime, call_advance, call_advance_to,
  call_wait,
}
use go_aioesphomeapi.Simulator.Validation.{
  validation_error, Scenario, add_size, check_count, check_counts, seen_at, same_entity,
  entity_identity, initial_identity, valid_command, check_time, valid_delay, check_network, size_of,
  check_distinct, check_timeline, check_logs, check_commands, check_fields, validate, duplicate_key,
  initial_states_field,
}
use go_aioesphomeapi.Simulator.Validation.Sound.{IsSound, validate-IsSound}
use go_aioesphomeapi.Simulator.Connections.{
  ends, end_session, remove_one, has_member, is_idle, Owned, nothing_owned, start_connection,
  drop_connections, OwnReach, starts, drops, stay, then_step,
}
use go_aioesphomeapi.Simulator.Connections.Limits.{IsWithin, OwnReach-IsWithin, part_nil}
use go_aioesphomeapi.Simulator.Network.{
  unarmed, NetworkFrame, write_network_frame, write_chunks, write_all, chunks_of, singles, concat,
  wrote, gone, aborted, net_closed, fragment_frame,
}
use go_aioesphomeapi.Simulator.Network.Transparent.{IsFront, write_network_frame-IsFront}
use go_aioesphomeapi.Simulator.States.{
  same_identity, state_identity_of, lookup_state, insert_state, no_states, store_state, snapshot_of,
  state_snapshot,
}
use go_aioesphomeapi.Simulator.States.Snapshot.{
  store_all, last_state, first_seen, collect, snapshot-store_all, no_states-IsWellFormed,
  store_state-IsWellFormed,
}
use go_aioesphomeapi.Simulator.Device.{
  Session, Device, write_sent, send_message, send_each, trigger_fault, serve_states,
  after_initial_states, unknown_message, after_hello,
}
use go_aioesphomeapi.Simulator.Device.Timeline.{
  commit_state, advance_events, advance_timeline, valid_state,
}
use go_aioesphomeapi.Simulator.Device.Advance.{advance_timeline_twice}
use go_aioesphomeapi.Simulator.Device.Told.{Ready, AllTold, advance_timeline-AllTold}
use go_aioesphomeapi.Simulator.Device.UpToDate.{
  messages_of, view_of, IsUpToDate, IsKnown, serve_states-IsUpToDate,
}
use go_aioesphomeapi.Simulator.Expectations.{
  Expectation, new_observer, observe, check_expectations, satisfied, failed, match_expectation,
  expected_later, out_of_order, record_command, take_command, set_command_error,
}
use go_aioesphomeapi.Simulator.Expectations.Order.{expand, fits}
use go_aioesphomeapi.Simulator.Expectations.Recorded.{
  CommandEvent, arrives, taken, commands_of, on_event, run_commands, expectations_satisfied_iff,
}

-- Buttons are told apart by their keys; nothing else is equal.
abbrev same_button : Message → Message → Bool
same_button (Message.button_command a) (Message.button_command b) = a == b
same_button _ _ = false

abbrev presses : List Expectation
presses =
    record { command = button_command 1; count = 2 }
    ∷ record { command = button_command 2; count = 1 }
    ∷ []

abbrev presses_made : List CommandEvent
presses_made =
    arrives (button_command 1)
    ∷ arrives (button_command 1)
    ∷ taken
    ∷ arrives (button_command 2)
    ∷ []

presses_met :
    check_expectations (run_commands same_button (new_observer presses) presses_made) ≡ satisfied
unfolding check_expectations run_commands on_event record_command take_command observe new_observer
    match_expectation
presses_met = refl

press_too_early :
    check_expectations
      (run_commands same_button (new_observer presses) (arrives (button_command 2) ∷ []))
    ≡ failed (record {
      code = out_of_order;
      expectation_index = 0;
      matched_count = 0;
      observed_commands = 1;
      cause = none;
    })
unfolding check_expectations run_commands on_event record_command observe new_observer
    match_expectation expected_later set_command_error
press_too_early = refl

expectations_satisfied_iff_example :
    (check_expectations (run_commands same_button (new_observer presses) presses_made) ≡ satisfied)
    ↔ ((fits same_button (expand presses) (commands_of presses_made) ≡ true)
        × (length (commands_of presses_made) ≡ length (expand presses))
        × ((run_commands same_button (new_observer presses) presses_made).dropped ≡ 0))
expectations_satisfied_iff_example =
    expectations_satisfied_iff same_button presses presses_made (omega arith) (λ e. cc)

abbrev history : List Message
history = switch_state 1 true ∷ number_state 1 5 false ∷ ping_response ∷ switch_state 1 false ∷ []

snapshot_taken :
    state_snapshot (store_all history no_states)
    ≡ switch_state 1 false ∷ number_state 1 5 false ∷ []
unfolding state_snapshot snapshot_of store_all store_state insert_state lookup_state
    state_identity_of same_identity
snapshot_taken = refl

snapshot-store_all_example :
    state_snapshot (store_all history no_states)
    ≡ collect (λ i. last_state i history) (first_seen [] history)
snapshot-store_all_example = snapshot-store_all history

abbrev listener : Session
listener = record {
  subscribed = true;
  logs_subscribed = false;
  log_level = pos 0;
  armed = unarmed;
  writes = true ∷ true ∷ true ∷ [];
  sent = [];
}

abbrev hall : Device
hall = record {
  name = codes "hall";
  plaintext = true;
  entities = [];
  logs = [];
  faults = record { trigger = after_initial_states; action = unknown_message } ∷ [];
  network = [];
  now = pos 0;
  state_timeline =
      record { at = pos 5; state = switch_state 1 true }
      ∷ record { at = pos 9; state = switch_state 1 false }
      ∷ [];
  is_valid = true;
  is_done = false;
  states = no_states;
  timeline_index = 0;
  answered_pings = 0;
  observer = new_observer [];
  connections = (0, listener) ∷ [];
}

advanced : (advance_timeline (pos 6) hall).timeline_index ≡ 1
unfolding advance_timeline advance_events commit_state
advanced = refl

advance_timeline_twice_example :
    advance_timeline (pos 9) (advance_timeline (pos 6) hall) ≡ advance_timeline (pos 9) hall
advance_timeline_twice_example = advance_timeline_twice (pos 6) (pos 9) hall refl

hall-Ready : Ready 2 hall.states hall.connections
unfolding messages_of last_state lookup_state
hall-Ready =
    (λ on. (λ i. refl, record { enough = omega arith; all_taken = (refl, (refl, (refl, tt))) }), tt)

advance_timeline-AllTold_example :
    AllTold (advance_timeline (pos 6) hall).states (advance_timeline (pos 6) hall).connections
advance_timeline-AllTold_example = advance_timeline-AllTold (pos 6) hall hall-Ready

listener-IsKnown : IsKnown no_states listener
unfolding view_of messages_of store_all
listener-IsKnown i e = e

abbrev lit : Device
lit = record hall { states = store_state (switch_state 1 true) no_states }

lit-IsKnown : IsKnown lit.states listener
unfolding view_of messages_of store_all lookup_state
lit-IsKnown i e = refl

subscribed : (serve_states lit listener).2 ≡ true
unfolding serve_states send_each send_message write_sent message_id state_snapshot snapshot_of
    store_state insert_state lookup_state state_identity_of same_identity trigger_fault
subscribed = refl

serve_states-IsUpToDate_example : IsUpToDate lit.states (serve_states lit listener).1
serve_states-IsUpToDate_example =
    serve_states-IsUpToDate lit listener
      (store_state-IsWellFormed (switch_state 1 true) no_states no_states-IsWellFormed) lit-IsKnown
      subscribed

abbrev cut_frame : NetworkFrame
cut_frame = record {
  segments = (1 ∷ 2 ∷ []) ∷ (3 ∷ []) ∷ [];
  fragment = true;
  coalesce = false;
  delay_target = pos 0;
  asynchronous = false;
}

cut_frame_cut :
    write_network_frame (wrote 1 ∷ wrote 1 ∷ gone ∷ []) cut_frame
    ≡ record { out = 1 ∷ 2 ∷ []; end = aborted net_closed; left = [] }
unfolding write_network_frame write_chunks write_all chunks_of singles concat
cut_frame_cut = refl

write_network_frame-IsFront_example :
    IsFront (concat cut_frame.segments) (write_network_frame (wrote 1 ∷ []) cut_frame)
write_network_frame-IsFront_example = write_network_frame-IsFront (wrote 1 ∷ []) cut_frame

abbrev clock_calls : List ClockCall
clock_calls =
    call_wait 4 (pos 10)
    ∷ call_advance (pos 3)
    ∷ call_advance_to (pos 10)
    ∷ call_advance (pos 7)
    ∷ []

clock_woken : (call_all clock_calls new_manual_clock).ready ≡ 4 ∷ []
unfolding call_all call_clock advance advance_target advance_to_target wait_until still_waiting
    woken insert
clock_woken = refl

call_all-IsOnTime_example : IsOnTime (call_all clock_calls new_manual_clock)
call_all-IsOnTime_example =
    call_all-IsOnTime clock_calls new_manual_clock (tt, (tt, (omega arith, (tt, tt))))
      (record { time = 0; now_is = refl; fits = omega arith; later = tt })

abbrev porch : Scenario
porch = record {
  name = codes "porch";
  entities =
      some (list_entities_switch (record { key = 1; object_id = []; name = []; more = [] }))
      ∷ some (list_entities_sensor (record { key = 1; object_id = []; name = []; more = [] }))
      ∷ [];
  states = [];
  initial_states = some (switch_state 1 true) ∷ [];
  state_timeline = record { at = pos 4; state = some (switch_state 1 false) } ∷ [];
  logs = [];
  commands = record { command = some (switch_command 1 true); count = 2 } ∷ [];
  faults = [];
  network = record { trigger = after_hello; action = fragment_frame; delay = pos 0 } ∷ [];
}

porch_valid : validate (λ m. 8) porch ≡ ok 4194264
unfolding validate check_counts check_count check_fields check_distinct seen_at same_entity
    bytes_equal entity_identity initial_identity valid_state state_identity_of size_of add_size
    check_timeline check_time check_logs check_commands valid_command check_network valid_delay
porch_valid = refl

porch_doubled :
    validate
      (λ m. 8)
      (record porch {
        initial_states = some (switch_state 1 true) ∷ some (switch_state 1 false) ∷ [];
      })
    ≡ err (record {
      field = initial_states_field;
      index = 1;
      related_index = some 0;
      code = duplicate_key;
    })
unfolding validate check_counts check_count check_fields check_distinct seen_at same_entity
    same_identity bytes_equal entity_identity initial_identity valid_state state_identity_of size_of
    add_size validation_error
porch_doubled = refl

validate-IsSound_example : IsSound (λ m. 8) porch
validate-IsSound_example = validate-IsSound (λ m. 8) porch 4194264 porch_valid

abbrev one_session : Owned
one_session = (start_connection 5 nothing_owned).0

one_session-OwnReach : OwnReach nothing_owned (drop_connections one_session).0
one_session-OwnReach =
    then_step (then_step (stay nothing_owned) (starts 5 nothing_owned)) (drops one_session)

nothing_owned-IsWithin : IsWithin nothing_owned
nothing_owned-IsWithin = record {
  counted = refl;
  open_running = part_nil;
  tasks = omega arith;
  few_listeners = omega arith;
}

OwnReach-IsWithin_example : IsWithin (drop_connections one_session).0
OwnReach-IsWithin_example = OwnReach-IsWithin one_session-OwnReach nothing_owned-IsWithin

-- A session whose connection was dropped still counts until it has ended.
dropped_not_idle : is_idle 0 (drop_connections one_session).0 ≡ false
unfolding is_idle drop_connections start_connection
dropped_not_idle = refl

ended-IsWithin : IsWithin (end_session 5 one_session)
ended-IsWithin =
    OwnReach-IsWithin
      (then_step (then_step (stay nothing_owned) (starts 5 nothing_owned))
        (ends 5 one_session (unfold has_member start_connection in refl)))
      nothing_owned-IsWithin

ended_idle : is_idle 0 (end_session 5 one_session) ≡ true
unfolding is_idle end_session start_connection remove_one
ended_idle = refl
