-- ===== src/Simulator/Validation/Sound.antt =====
-- simulator/validation.go: the meaning of the checks of `Validate`.
use go_aioesphomeapi.Base.{
  ℕ, suc, ◌+◌, ◌≤◌, ◌<◌, ◌≡◌, refl, ◌⊎◌, inl, inr, Bool, true, false, not, ◌&&◌, none, some, List,
  [], ◌∷◌, arith, ltb, ◌==◌, if◌then◌else◌, Bool-cases, length, All, ℤ, int_ltb, is_negative, pos,
  Result, Result-cases, ok, err,
}
use go_aioesphomeapi.Messages.{Message}
use go_aioesphomeapi.Simulator.States.{StateIdentity, same_identity}
use go_aioesphomeapi.Simulator.Validation.{
  Field, ValidationError, TimedState, ExpectedCommand, Scenario, max_command_expectation_count,
  max_scenario_items_per_field, max_scenario_message_bytes, max_scenario_encoded_bytes, add_size,
  check_count, check_counts, same_entity, entity_identity, initial_identity, valid_command,
  check_time, size_of, check_distinct, check_timeline, check_logs, check_commands, check_fields,
  validate, entities_field, states_field, initial_states_field, state_timeline_field, logs_field,
  commands_field, faults_field, network_field,
}
use go_aioesphomeapi.Simulator.Validation.Chains.{
  err_ok, option_some_ok, option_none_ok, result_ok, bind_ok, refuse_ok,
}
use go_aioesphomeapi.Simulator.Validation.Distinct.{total_size, AllDistinct, check_distinct_sound}

-- The events come in order, none before `previous`, with a valid state each.
abbrev pub IsTimeline : ℤ → List TimedState → Type 0
IsTimeline previous [] = Unit
IsTimeline previous (event ∷ events) =
    (is_negative event.at ≡ false)
    × (int_ltb event.at previous ≡ false)
    × ((i : StateIdentity) × (initial_identity event.state ≡ some i))
    × IsTimeline event.at events

-- A command that a device can receive, a possible number of times.
pub record IsExpectable (e : ExpectedCommand) : Type 0 where
  pub valid : valid_command e.command ≡ true
  pub positive : 0 < e.count
  pub bounded : e.count ≤ max_command_expectation_count

check_time_sound :
    (index : ℕ) (previous at : ℤ)
    → (0 < index) ⊎ (previous ≡ pos 0)
    → check_time index previous at ≡ none
    → (is_negative at ≡ false) × (int_ltb at previous ≡ false)
unfolding check_time
check_time_sound index previous at start e = ground arith

module _ (proto_size : Message → ℕ) where
  check_timeline_sound :
      (index : ℕ) (previous : ℤ) (events : List TimedState) (remaining left : ℕ)
      → (0 < index) ⊎ (previous ≡ pos 0)
      → check_timeline proto_size index previous events remaining ≡ ok left
      → IsTimeline previous events
  unfolding check_timeline
  check_timeline_sound index previous [] remaining left start e = tt
  check_timeline_sound index previous (event ∷ events) remaining left start e =
      let (in_time, e1) = option_none_ok (check_time index previous event.at) _ _ left e in
      let (i, is_i, e2) = option_some_ok (initial_identity event.state) _ _ left e1 in
      let (mid, spent, e3) =
        result_ok (add_size state_timeline_field index (size_of proto_size event.state) remaining) _
          left e2 in
      let placed = check_time_sound index previous event.at start in_time in
      (
        placed.0,
        placed.1,
        (i, is_i),
        check_timeline_sound (suc index) event.at events mid left (inl (omega arith)) e3,
      )

  -- One round of the loop over the commands.
  check_commands_round :
      (index : ℕ) (c : ExpectedCommand) (es : List ExpectedCommand) (remaining left : ℕ)
      → check_commands proto_size index (c ∷ es) remaining ≡ ok left
      → (mid : ℕ) × (valid_command c.command ≡ true)
        × (0 < c.count)
        × (c.count ≤ max_command_expectation_count)
        × (check_commands proto_size (suc index) es mid ≡ ok left)
  unfolding check_commands
  check_commands_round index c es remaining left e =
      elim (Result-cases (add_size commands_field index (size_of proto_size c.command) remaining)) [
        | inl (mid, s) ↦
            (mid, ground (arith, s), ground (arith, s), ground (arith, s), ground (arith, s))
        | inr (x, s) ↦ absurd (ground (arith, s))
      ]

  check_commands_sound :
      (index : ℕ) (es : List ExpectedCommand) (remaining left : ℕ)
      → check_commands proto_size index es remaining ≡ ok left
      → All IsExpectable es
  check_commands_sound index [] remaining left e = tt
  check_commands_sound index (c ∷ es) remaining left e =
      let (mid, valid, positive, bounded, rest) =
        check_commands_round index c es remaining left e in
      (
        record { valid = valid; positive = positive; bounded = bounded },
        check_commands_sound (suc index) es mid left rest,
      )

  -- A scenario from which a device may be built.
  pub record IsSound (s : Scenario) : Type 0 where
    pub entities : AllDistinct same_entity entity_identity s.entities
    pub one_list : (length s.states ≡ 0) ⊎ (length s.initial_states ≡ 0)
    pub states : AllDistinct same_identity initial_identity s.states
    pub initial_states : AllDistinct same_identity initial_identity s.initial_states
    pub timeline : IsTimeline (pos 0) s.state_timeline
    pub commands : All IsExpectable s.commands
    pub encoded :
        total_size proto_size s.entities
          + total_size proto_size s.states
          + total_size proto_size s.initial_states
        ≤ max_scenario_encoded_bytes

  check_fields-IsSound : (s : Scenario) (left : ℕ) → check_fields proto_size s ≡ ok left → IsSound s
  unfolding check_fields
  check_fields-IsSound s left e =
      let (a, listed, e1) =
        bind_ok
          (check_distinct proto_size same_entity entity_identity entities_field 0 [] s.entities
            max_scenario_encoded_bytes)
          _ left e in
      let (one, e2) =
        refuse_ok (not (length s.states == 0) && not (length s.initial_states == 0)) _ _ left e1 in
      let (b, first, e3) =
        bind_ok
          (check_distinct proto_size same_identity initial_identity states_field 0 [] s.states a) _
          left e2 in
      let (c, second, e4) =
        bind_ok
          (check_distinct proto_size same_identity initial_identity initial_states_field 0 []
            s.initial_states b)
          _ left e3 in
      let (d, timed, e5) =
        bind_ok (check_timeline proto_size 0 (pos 0) s.state_timeline c) _ left e4 in
      let (f, logged, e6) = bind_ok (check_logs proto_size 0 s.logs d) _ left e5 in
      let (g, expected, e7) = bind_ok (check_commands proto_size 0 s.commands f) _ left e6 in
      let (p, entities, entity_bytes) =
        check_distinct_sound same_entity entity_identity proto_size entities_field 0 [] s.entities
          max_scenario_encoded_bytes a listed in
      let (q, states, state_bytes) =
        check_distinct_sound same_identity initial_identity proto_size states_field 0 [] s.states a
          b first in
      let (r, initial, initial_bytes) =
        check_distinct_sound same_identity initial_identity proto_size initial_states_field 0 []
          s.initial_states b c second in
      record {
        entities = entities;
        one_list = one_of (length s.states) (length s.initial_states) one;
        states = states;
        initial_states = initial;
        timeline = check_timeline_sound 0 (pos 0) s.state_timeline c d (inr refl) timed;
        commands = check_commands_sound 0 s.commands f g expected;
        encoded = omega (arith, entity_bytes, state_bytes, initial_bytes);
      }
    where
      one_of : (m n : ℕ) → (not (m == 0) && not (n == 0)) ≡ false → (m ≡ 0) ⊎ (n ≡ 0)
      one_of m n h = ground arith

  check_count_sound :
      (field : Field) (count : ℕ) (next : Result ValidationError ℕ) (left : ℕ)
      → check_count field count next ≡ ok left
      → (count ≤ max_scenario_items_per_field) × (next ≡ ok left)
  unfolding check_count
  check_count_sound field count next left e =
      elim (Bool-cases (ltb max_scenario_items_per_field count)) [
        | inl over ↦ absurd (ground (arith, over))
        | inr under ↦ (ground (arith, under), ground (arith, under))
      ]

  check_counts_sound :
      (s : Scenario) (next : Result ValidationError ℕ) (left : ℕ)
      → check_counts s next ≡ ok left
      → next ≡ ok left
  unfolding check_counts
  check_counts_sound s next left e =
      let (_, e1) = check_count_sound entities_field (length s.entities) _ left e in
      let (_, e2) = check_count_sound states_field (length s.states) _ left e1 in
      let (_, e3) = check_count_sound initial_states_field (length s.initial_states) _ left e2 in
      let (_, e4) = check_count_sound state_timeline_field (length s.state_timeline) _ left e3 in
      let (_, e5) = check_count_sound logs_field (length s.logs) _ left e4 in
      let (_, e6) = check_count_sound commands_field (length s.commands) _ left e5 in
      let (_, e7) = check_count_sound faults_field (length s.faults) _ left e6 in
      (check_count_sound network_field (length s.network) _ left e7).1

  -- In a scenario that passes Validate every entity and every initial state has an identity of its
  -- own, at most one of the two lists of states is used, the timeline is in order from time zero
  -- with valid states, the expected commands are possible, and entities and states together stay
  -- within the encoded budget.
  pub validate-IsSound : (s : Scenario) (left : ℕ) → validate proto_size s ≡ ok left → IsSound s
  unfolding validate
  validate-IsSound s left e =
      check_fields-IsSound s left
        (named (ltb max_scenario_message_bytes (length s.name)) _ _ (check_counts_sound s _ left e))
    where
      named :
          (b : Bool) (x : ValidationError) (r : Result ValidationError ℕ)
          → (if b then err x else r) ≡ ok left
          → r ≡ ok left
      named true x r h = absurd (err_ok x left h)
      named false x r h = h
