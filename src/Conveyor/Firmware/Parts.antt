-- ===== src/Conveyor/Firmware/Parts.antt =====
-- conveyor_device.go and simulator/conveyor.go: the timings, the bricks, and the keys of the entities.
use go_aioesphomeapi.Base.{
  ℕ, ◌/◌, ◌%◌, Option, none, some, List, [], ◌∷◌, ◌==◌, if◌then◌else◌, length, get_elem?, Bytes,
  codes,
}
use go_aioesphomeapi.Messages.{Float32}

-- `conveyorTimings`, in nanoseconds.
pub record ConveyorTimings : Type 0 where
  pub entry_debounce : ℕ
  pub exit_release_debounce : ℕ
  pub capture_settle : ℕ
  pub capture_interval : ℕ
  pub exit_hold_time : ℕ
  pub jam_withdraw : ℕ
  pub jam_backstop : ℕ
  pub entry_clear : ℕ
  pub between_bricks : ℕ

-- `firmwareTimings`
abbrev pub firmware_timings : ConveyorTimings
firmware_timings = record {
  entry_debounce = 400000000;
  exit_release_debounce = 300000000;
  capture_settle = 500000000;
  capture_interval = 250000000;
  exit_hold_time = 3000000000;
  jam_withdraw = 15000000000;
  jam_backstop = 5000000000;
  entry_clear = 250000000;
  between_bricks = 1000000000;
}

-- `divided`: the same timings shortened by a whole factor; the code panics for zero.
unfoldable pub divided : ConveyorTimings → ℕ → Option ConveyorTimings
divided t factor =
    if factor == 0
    then none
    else some (record {
      entry_debounce = t.entry_debounce / factor;
      exit_release_debounce = t.exit_release_debounce / factor;
      capture_settle = t.capture_settle / factor;
      capture_interval = t.capture_interval / factor;
      exit_hold_time = t.exit_hold_time / factor;
      jam_withdraw = t.jam_withdraw / factor;
      jam_backstop = t.jam_backstop / factor;
      entry_clear = t.entry_clear / factor;
      between_bricks = t.between_bricks / factor;
    })

abbrev pub capture_samples : ℕ
capture_samples = 5

abbrev pub min_usable_samples : ℕ
min_usable_samples = 3

-- `brick`
pub record Brick : Type 0 where
  pub name : Bytes
  pub red_ratio : Float32

-- The zero value of a brick.
abbrev pub no_brick : Brick
no_brick = record { name = []; red_ratio = 0 }

-- The bits of 48.0, 29.0, 35.0 and 26.0.
abbrev pub brick_rotation : List Brick
brick_rotation =
    record { name = codes "red"; red_ratio = 1111490560 }
    ∷ record { name = codes "blue"; red_ratio = 1105723392 }
    ∷ record { name = codes "yellow"; red_ratio = 1108082688 }
    ∷ record { name = codes "green"; red_ratio = 1104150528 }
    ∷ []

abbrev pub brick_at : ℕ → Brick
brick_at index = elim (get_elem? brick_rotation index) [ none ↦ no_brick | some b ↦ b ]

-- `brickRotation[completed%len(brickRotation)]`; the index is always in range.
unfoldable pub brick_of : ℕ → Brick
brick_of completed = brick_at (completed % length brick_rotation)

-- `ConveyorFanKey`, `BrickEnRouteKey`, `ExitRedRatioKey` and `ExitRedRatioNoReading`, the bits of -1.
abbrev pub conveyor_fan_key : ℕ
conveyor_fan_key = 101

abbrev pub brick_en_route_key : ℕ
brick_en_route_key = 103

abbrev pub exit_red_ratio_key : ℕ
exit_red_ratio_key = 104

abbrev pub no_reading : Float32
no_reading = 3212836864
