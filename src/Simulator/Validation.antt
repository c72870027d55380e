-- ===== src/Simulator/Validation.antt =====
-- simulator/validation.go: what a scenario must satisfy before a device is built from it. A message may be
-- nil, which is `none`; `proto.Size` is a parameter.
pub mod Chains
pub mod Distinct
pub mod Sound
use go_aioesphomeapi.Base.{
  ◌>>=◌, ◌>>◌, refuse, ℕ, suc, ◌-◌, Bool, true, false, not, ◌&&◌, ◌||◌, Option, none, some, List,
  [], ◌∷◌, ltb, ◌==◌, if◌then◌else◌, length, Bytes, codes, bytes_equal, ℤ, int_ltb, is_negative,
  is_not_positive, pos, Result, ok, err,
}
use go_aioesphomeapi.Messages.{
  LogEntry, Message, list_entities_binary_sensor, list_entities_sensor, list_entities_text_sensor,
  list_entities_switch, list_entities_number, list_entities_button, list_entities_fan,
  list_entities_light, subscribe_logs_response, switch_command, number_command, button_command,
  fan_command, light_command,
}
use go_aioesphomeapi.Simulator.States.{StateIdentity, same_identity, state_identity_of}
use go_aioesphomeapi.Simulator.Network.{
  fragment_frame, coalesce_segments, delay_reply, other_network_action,
}
use go_aioesphomeapi.Simulator.Device.{Fault, NetworkFault}
use go_aioesphomeapi.Simulator.Device.Timeline.{valid_state}

-- `ValidationCode`
pub data ValidationCode : Type 0 where
  invalid_type duplicate_key negative_time decreasing_time : ValidationCode
  invalid_duration resource_limit impossible_expectation : ValidationCode

-- The field of the scenario: in Go a text.
pub data Field : Type 0 where
  name_field entities_field states_field initial_states_field state_timeline_field : Field
  logs_field commands_field faults_field network_field : Field

-- `ValidationError`
pub record ValidationError : Type 0 where
  pub field : Field
  pub index : ℕ
  pub related_index : Option ℕ
  pub code : ValidationCode

-- `validationError`
unfoldable pub validation_error : Field → ℕ → Option ℕ → ValidationCode → ValidationError
validation_error field index related code = record {
  field = field;
  index = index;
  related_index = related;
  code = code;
}

pub record TimedState : Type 0 where
  pub at : ℤ
  pub state : Option Message

pub record ExpectedCommand : Type 0 where
  pub command : Option Message
  pub count : ℕ

-- `Scenario`
pub record Scenario : Type 0 where
  pub name : Bytes
  pub entities : List (Option Message)
  pub states : List (Option Message)
  pub initial_states : List (Option Message)
  pub state_timeline : List TimedState
  pub logs : List (Option LogEntry)
  pub commands : List ExpectedCommand
  pub faults : List Fault
  pub network : List NetworkFault

abbrev pub max_command_expectation_count : ℕ
max_command_expectation_count = 1000000

abbrev pub max_scenario_items_per_field : ℕ
max_scenario_items_per_field = 4096

abbrev pub max_scenario_message_bytes : ℕ
max_scenario_message_bytes = 65536

abbrev pub max_scenario_encoded_bytes : ℕ
max_scenario_encoded_bytes = 4194304

-- `MaxNetworkDelay`: a day in nanoseconds.
abbrev max_network_delay : ℕ
max_network_delay = 86400000000000

-- `scenarioProtoBudget.add`: what remains.
unfoldable pub add_size : Field → ℕ → ℕ → ℕ → Result ValidationError ℕ
add_size field index size remaining =
    if ltb max_scenario_message_bytes size || ltb remaining size
    then err (validation_error field index none resource_limit)
    else ok (remaining - size)

-- One test of `validateScenarioCounts`.
unfoldable pub check_count : Field → ℕ → Result ValidationError ℕ → Result ValidationError ℕ
check_count field count next =
    if ltb max_scenario_items_per_field count
    then err (validation_error field max_scenario_items_per_field none resource_limit)
    else next

-- `validateScenarioCounts`, with what follows it.
unfoldable pub check_counts : Scenario → Result ValidationError ℕ → Result ValidationError ℕ
check_counts s next = check_count entities_field (length s.entities) (
    check_count states_field (length s.states) (
      check_count initial_states_field (length s.initial_states) (
        check_count state_timeline_field (length s.state_timeline) (
          check_count logs_field (length s.logs) (
            check_count commands_field (length s.commands) (
              check_count faults_field (length s.faults)
                (check_count network_field (length s.network) next)))))))

-- The index under which an identity was seen.
unfoldable pub seen_at {ℓ} : {I : Type ℓ} → (I → I → Bool) → I → List (I × ℕ) → Option ℕ
seen_at same i [] = none
seen_at same i ((j, n) ∷ rest) = if same j i then some n else seen_at same i rest

-- `(family, key)` of `entityIdentity`.
pub record EntityIdentity : Type 0 where
  pub entity_family : Bytes
  pub entity_key : ℕ

unfoldable pub same_entity : EntityIdentity → EntityIdentity → Bool
same_entity a b = bytes_equal a.entity_family b.entity_family && (a.entity_key == b.entity_key)

abbrev entity : Bytes → ℕ → Option EntityIdentity
entity family key = some (record { entity_family = family; entity_key = key })

-- `entityIdentity`
unfoldable pub entity_identity : Option Message → Option EntityIdentity
entity_identity none = none
entity_identity (some (list_entities_binary_sensor d)) = entity (codes "binary_sensor") d.key
entity_identity (some (list_entities_sensor d)) = entity (codes "sensor") d.key
entity_identity (some (list_entities_text_sensor d)) = entity (codes "text_sensor") d.key
entity_identity (some (list_entities_switch d)) = entity (codes "switch") d.key
entity_identity (some (list_entities_number d)) = entity (codes "number") d.key
entity_identity (some (list_entities_button d)) = entity (codes "button") d.key
entity_identity (some (list_entities_fan d)) = entity (codes "fan") d.key
entity_identity (some (list_entities_light d)) = entity (codes "light") d.key
entity_identity (some _) = none

-- The identity of a valid state; `validState` is that there is one.
unfoldable pub initial_identity : Option Message → Option StateIdentity
initial_identity none = none
initial_identity (some m) = if valid_state m then state_identity_of m else none

-- `validCommand`
unfoldable pub valid_command : Option Message → Bool
valid_command none = false
valid_command (some (switch_command _ _)) = true
valid_command (some (number_command _ _)) = true
valid_command (some (button_command _)) = true
valid_command (some (fan_command _)) = true
valid_command (some (light_command _)) = true
valid_command (some _) = false

-- One event's place in time.
unfoldable pub check_time : ℕ → ℤ → ℤ → Option ValidationError
check_time index previous at =
    if is_negative at
    then some (validation_error state_timeline_field index none negative_time)
    else if not (index == 0) && int_ltb at previous
    then some (validation_error state_timeline_field index (some (index - 1)) decreasing_time)
    else none

unfoldable pub valid_delay : NetworkFault → Bool
valid_delay fault = elim fault.action [
  | delay_reply ↦
      not (is_not_positive fault.delay) && not (int_ltb (pos max_network_delay) fault.delay)
  | fragment_frame ↦ is_not_positive fault.delay && not (is_negative fault.delay)
  | coalesce_segments ↦ is_not_positive fault.delay && not (is_negative fault.delay)
  | other_network_action _ ↦ true
]

-- The loop over the network faults; a success keeps what remains of the budget.
unfoldable pub check_network : ℕ → List NetworkFault → ℕ → Result ValidationError ℕ
check_network index [] remaining = ok remaining
check_network index (fault ∷ faults) remaining =
    let rest = check_network (suc index) faults remaining in
    if valid_delay fault
    then rest
    else err (validation_error network_field index none invalid_duration)

module _ (proto_size : Message → ℕ) where
  unfoldable pub size_of : Option Message → ℕ
  size_of none = 0
  size_of (some m) = proto_size m

  -- The loops over entities and over initial states: an identity for each message, none twice, and its
  -- size off the budget.
  unfoldable pub check_distinct {ℓ} :
      {I : Type ℓ}
      → (I → I → Bool)
      → (Option Message → Option I)
      → Field
      → ℕ
      → List (I × ℕ)
      → List (Option Message)
      → ℕ
      → Result ValidationError ℕ
  check_distinct same identity field index seen [] remaining = ok remaining
  check_distinct same identity field index seen (m ∷ ms) remaining = elim (identity m) [
    | none ↦ err (validation_error field index none invalid_type)
    | some i ↦ elim (seen_at same i seen) [
      | some previous ↦ err (validation_error field index (some previous) duplicate_key)
      | none ↦ elim (add_size field index (size_of m) remaining) [
        | err e ↦ err e
        | ok left ↦ check_distinct same identity field (suc index) ((i, index) ∷ seen) ms left
      ]
    ]
  ]

  -- The loop over the timeline.
  unfoldable pub check_timeline : ℕ → ℤ → List TimedState → ℕ → Result ValidationError ℕ
  check_timeline index previous [] remaining = ok remaining
  check_timeline index previous (event ∷ events) remaining =
      elim (check_time index previous event.at) [
        | some e ↦ err e
        | none ↦ elim (initial_identity event.state) [
          | none ↦ err (validation_error state_timeline_field index none invalid_type)
          | some _ ↦ elim (add_size state_timeline_field index (size_of event.state) remaining) [
            | err e ↦ err e
            | ok left ↦ check_timeline (suc index) event.at events left
          ]
        ]
      ]

  -- The loop over the logs.
  unfoldable pub check_logs : ℕ → List (Option LogEntry) → ℕ → Result ValidationError ℕ
  check_logs index [] remaining = ok remaining
  check_logs index (none ∷ logs) remaining =
      err (validation_error logs_field index none invalid_type)
  check_logs index (some entry ∷ logs) remaining =
      elim (add_size logs_field index (proto_size (subscribe_logs_response entry)) remaining) [
        | err e ↦ err e
        | ok left ↦ check_logs (suc index) logs left
      ]

  -- The loop over the expected commands.
  unfoldable pub check_commands : ℕ → List ExpectedCommand → ℕ → Result ValidationError ℕ
  check_commands index [] remaining = ok remaining
  check_commands index (e ∷ es) remaining =
      elim (add_size commands_field index (size_of e.command) remaining) [
        | err x ↦
            if not (valid_command e.command)
            then err (validation_error commands_field index none invalid_type)
            else if (e.count == 0) || ltb max_command_expectation_count e.count
            then err (validation_error commands_field index none impossible_expectation)
            else err x
        | ok left ↦
            let rest = check_commands (suc index) es left in
            if not (valid_command e.command)
            then err (validation_error commands_field index none invalid_type)
            else if (e.count == 0) || ltb max_command_expectation_count e.count
            then err (validation_error commands_field index none impossible_expectation)
            else rest
      ]

  abbrev check_initial : Field → List (Option Message) → ℕ → Result ValidationError ℕ
  check_initial field = check_distinct same_identity initial_identity field 0 []

  -- The loops of `Validate`, in its order.
  unfoldable pub check_fields : Scenario → Result ValidationError ℕ
  check_fields s = do
    a ←
        check_distinct same_entity entity_identity entities_field 0 [] s.entities
          max_scenario_encoded_bytes
    refuse (not (length s.states == 0) && not (length s.initial_states == 0))
        (validation_error initial_states_field 0 none impossible_expectation)
    b ← check_initial states_field s.states a
    c ← check_initial initial_states_field s.initial_states b
    d ← check_timeline 0 (pos 0) s.state_timeline c
    e ← check_logs 0 s.logs d
    f ← check_commands 0 s.commands e
    check_network 0 s.network f

  -- `Validate`: `ok` has what remains of the budget, and stands for a nil error.
  unfoldable pub validate : Scenario → Result ValidationError ℕ
  validate s = check_counts s (
      if ltb max_scenario_message_bytes (length s.name)
      then err (validation_error name_field 0 none resource_limit)
      else check_fields s)
