-- ===== src/Conveyor/Firmware/Stages.antt =====
-- conveyor_device.go: the stages that the bench goes through.
pub mod Quiet
pub mod Moves
pub mod Belt
pub mod Timers
pub mod Ticks
pub mod Run
pub mod Turns
pub mod Stalled
pub mod Firing
pub mod Reaching
pub mod Finishing
use go_aioesphomeapi.Base.{ℕ, zero, suc, ◌-◌, ◌≤◌, ◌<◌, ◌≡◌, Bool, true, false, List, [], ◌∷◌, ℤ}
use go_aioesphomeapi.Messages.{Float32, Message}
use go_aioesphomeapi.Conveyor.Scripts.{Scripts, travel, capture, bench}
use go_aioesphomeapi.Conveyor.Scripts.Waiting.{waiting, IsIssued}
use go_aioesphomeapi.Conveyor.Firmware.{Firmware, Brick, brick_of, more_bricks, no_reading}

-- What the bench is doing: the operator places a brick; the brick is at the entry, leaves its beam,
-- moves between the sensors, and is measured; the operator reaches for it and has it lifted; the
-- sequence is over; or a brick stands between the sensors.
pub data Stage : Type 0 where
  placing at_entry clearing moving : Stage
  measuring : ℕ → Stage
  reaching releasing finished stranded : Stage

-- The moves from a stage to the next.
pub data Advance : Stage → Stage → Type 0 where
  stays : (s : Stage) → Advance s s
  places : Advance placing at_entry
  starts : Advance at_entry clearing
  halts : Advance clearing at_entry
  clears : Advance clearing moving
  strands : Advance moving stranded
  arrives : Advance moving (measuring 0)
  samples : {k : ℕ} → k < 5 → Advance (measuring k) (measuring (suc k))
  measures : Advance (measuring 5) reaching
  lifts : Advance reaching releasing
  repeats : Advance releasing placing
  finishes : Advance releasing finished

-- The ratios that were published, newest first.
unfoldable pub readings : List Message → List Float32
readings [] = []
readings (Message.sensor_state key ratio missing ∷ rest) = ratio ∷ readings rest
readings (_ ∷ rest) = readings rest

-- The ratios for a number of bricks that came and went: no reading, and each brick's followed by none.
unfoldable pub expected : ℕ → List Float32
unfolding brick_of
expected zero = no_reading ∷ []
expected (suc n) = no_reading ∷ (brick_of n).red_ratio ∷ expected n

abbrev pub bench_steps : Stage → List ℕ
bench_steps placing = 0 ∷ []
bench_steps reaching = 1 ∷ []
bench_steps releasing = 2 ∷ []
bench_steps _ = []

abbrev pub travel_steps : Stage → List ℕ
travel_steps clearing = 0 ∷ []
travel_steps moving = 1 ∷ []
travel_steps _ = []

abbrev pub capture_steps : Stage → List ℕ
capture_steps (measuring k) = k ∷ []
capture_steps _ = []

abbrev pub has_entry : Stage → Bool
has_entry at_entry = true
has_entry clearing = true
has_entry _ = false

-- The ratios published at a stage, after a number of completed bricks.
abbrev pub expected_at : Stage → ℕ → List Float32
expected_at reaching n = (brick_of n).red_ratio ∷ expected n
expected_at releasing n = (brick_of n).red_ratio ∷ expected n
expected_at _ n = expected n

abbrev pub shown_at : Stage → ℕ → Float32
shown_at reaching n = (brick_of n).red_ratio
shown_at releasing n = (brick_of n).red_ratio
shown_at _ n = no_reading

abbrev pub goes_on : Stage → Bool
goes_on finished = false
goes_on _ = true

-- What else a stage needs: the brick of the turn, and the samples so far.
abbrev pub Detail : Stage → Firmware → Type 0
Detail (measuring k) f =
    (k ≤ 5)
    × (f.capture_sampled ≡ k)
    × (f.exit_occupied ≡ true)
    × (f.at_exit ≡ brick_of f.completed)
Detail at_entry f = f.on_belt ≡ brick_of f.completed
Detail clearing f = f.on_belt ≡ brick_of f.completed
Detail moving f = f.on_belt ≡ brick_of f.completed
Detail finished f = (0 < f.completed) × (more_bricks f.cycles (f.completed - 1) ≡ true)
Detail _ f = Unit

-- The firmware at a stage, with the steps of the bench, of the travel and of the capture that wait.
pub record Holds (benches travels captures : List ℕ) (stage : Stage) (f : Firmware) : Type 0 where
  pub issued : IsIssued f.scripts
  pub benching : waiting f.scripts bench ≡ benches
  pub travelling : waiting f.scripts travel ≡ travels
  pub capturing : waiting f.scripts capture ≡ captures
  pub entry : f.entry_occupied ≡ has_entry stage
  pub published : readings f.states ≡ expected_at stage f.completed
  pub shown : f.red_ratio ≡ shown_at stage f.completed
  pub known : f.ratio_known ≡ true
  pub going : more_bricks f.cycles f.completed ≡ goes_on stage
  pub detail : Detail stage f

abbrev pub IsAt : Stage → Firmware → Type 0
IsAt stage = Holds (bench_steps stage) (travel_steps stage) (capture_steps stage) stage
