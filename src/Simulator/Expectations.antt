-- ===== src/Simulator/Expectations.antt =====
-- simulator/command_expectations.go, and `record` of simulator.go: the commands that a scenario expects,
-- and what is made of each command that arrives. `proto.Equal` is a parameter.
pub mod Order
pub mod Recorded
use go_aioesphomeapi.Base.{
  ℕ, suc, ◌+◌, Bool, true, false, List, [], ◌∷◌, ◌++◌, Option, none, some, ltb, ◌==◌, ◌&&◌, not,
  if◌then◌else◌, length, get_elem?, drop,
}
use go_aioesphomeapi.Messages.{Message}

-- `CommandExpectation`
pub record Expectation : Type 0 where
  pub command : Message
  pub count : ℕ

-- `CommandExpectationCode`
pub data Code : Type 0 where
  missing unexpected out_of_order overflow : Code

-- Why a wait ended without the commands.
pub data Cause : Type 0 where
  context_ended simulator_closed : Cause

-- `CommandExpectationError`
pub record ExpectationError : Type 0 where
  pub code : Code
  pub expectation_index : ℕ
  pub matched_count : ℕ
  pub observed_commands : ℕ
  pub cause : Option Cause

-- The command fields of `Device`, with its scenario's expectations and its channel of commands.
pub record Observer : Type 0 where
  pub expected : List Expectation
  pub index : ℕ
  pub matched : ℕ
  pub observed : ℕ
  pub failure : Option ExpectationError
  pub pending : List Message
  pub dropped : ℕ

unfoldable pub new_observer : List Expectation → Observer
new_observer expected = record {
  expected = expected;
  index = 0;
  matched = 0;
  observed = 0;
  failure = none;
  pending = [];
  dropped = 0;
}

abbrev pub is_some {ℓ} : {A : Type ℓ} → Option A → Bool
is_some none = false
is_some (some a) = true

abbrev pub is_empty {ℓ} : {A : Type ℓ} → List A → Bool
is_empty [] = true
is_empty (x ∷ xs) = false

-- `setCommandErrorLocked`: the first failure stays.
unfoldable pub set_command_error : Code → Observer → Observer
set_command_error code o = if is_some o.failure then o else record o {
  failure = some (record {
    code = code;
    expectation_index = o.index;
    matched_count = o.matched;
    observed_commands = o.observed;
    cause = none;
  });
}

-- `make(chan proto.Message, 64)`
abbrev command_queue_size : ℕ
command_queue_size = 64

module _ (proto_equal : Message → Message → Bool) where
  -- The loop over the later expectations.
  unfoldable pub expected_later : Message → List Expectation → Bool
  expected_later command [] = false
  expected_later command (e ∷ es) =
      if proto_equal command e.command then true else expected_later command es

  -- One command against the expectation that is due.
  unfoldable pub match_expectation : Message → Expectation → Observer → Observer
  unfolding set_command_error
  match_expectation command e o =
      if not (proto_equal command e.command)
      then set_command_error
          (if expected_later command (drop (suc o.index) o.expected)
            then out_of_order
            else unexpected)
          o
      else if o.matched + 1 == e.count
      then record o { index = suc o.index; matched = 0 }
      else record o { matched = o.matched + 1 }

  -- `observeCommandLocked`. An index past the end, a panic in Go, leaves the state.
  unfoldable pub observe : Message → Observer → Observer
  unfolding set_command_error
  observe command o =
      if is_empty o.expected
      then o
      else if is_some o.failure
      then o
      else let o' = record o { observed = o.observed + 1 } in
        if o.index == length o.expected
        then set_command_error unexpected o'
        else elim (get_elem? o.expected o.index) [
          | none ↦ o'
          | some e ↦ match_expectation command e o'
        ]

  -- `record`: the command is observed, and goes to the channel or is dropped.
  unfoldable pub record_command : Message → Observer → Observer
  unfolding set_command_error
  record_command command o =
      let o' = observe command o in
      if ltb (length o'.pending) command_queue_size
      then record o' { pending = o'.pending ++ (command ∷ []) }
      else let o'' = record o' { dropped = o'.dropped + 1 } in
        if not (is_empty o''.expected) && not (is_some o''.failure)
        then set_command_error overflow o''
        else o''

-- A receive from the channel that `Commands` hands out, once it holds a command.
unfoldable pub take_command : Observer → Observer
take_command o = elim o.pending [ [] ↦ o | command ∷ rest ↦ record o { pending = rest } ]

-- The test at the head of the loop of `WaitForCommandExpectations`.
pub data Verdict : Type 0 where
  failed : ExpectationError → Verdict
  satisfied waiting : Verdict

unfoldable pub check_expectations : Observer → Verdict
check_expectations o = elim o.failure [
  | some e ↦ failed e
  | none ↦
      if is_empty o.expected
      then satisfied
      else if o.index == length o.expected
      then satisfied
      else waiting
]

-- `missingCommandError`
unfoldable pub missing_command_error : Cause → Observer → Option ExpectationError
missing_command_error cause o = elim o.failure [
  | some e ↦ some e
  | none ↦
      if is_empty o.expected
      then none
      else if o.index == length o.expected
      then none
      else some (record {
        code = missing;
        expectation_index = o.index;
        matched_count = o.matched;
        observed_commands = o.observed;
        cause = some cause;
      })
]
