-- ===== src/Conveyor/Scripts.antt =====
-- conveyor_device.go: restartable scripts, their generations, and the timers that wait.
pub mod Waiting
use go_aioesphomeapi.Base.{
  ℕ, zero, suc, Bool, true, false, List, [], ◌∷◌, ◌++◌, ◌==◌, ◌&&◌, Option, none, some,
  if◌then◌else◌, get_elem?,
}

-- `script`
pub data Script : Type 0 where
  request_run travel capture exit_hold jam bench : Script

-- The number that `iota` gives, which indexes `gen`.
abbrev pub script_index : Script → ℕ
script_index request_run = 0
script_index travel = 1
script_index capture = 2
script_index exit_hold = 3
script_index jam = 4
script_index bench = 5

abbrev pub script_equal : Script → Script → Bool
script_equal s r = script_index s == script_index r

-- `tick`
pub record Tick : Type 0 where
  pub script : Script
  pub gen : ℕ
  pub step : ℕ

-- A timer that `time.AfterFunc` has started, with its delay in nanoseconds, until its tick is received.
pub record Timer : Type 0 where
  pub tick : Tick
  pub delay : ℕ

-- The field `gen` and the timers, newest first.
pub record Scripts : Type 0 where
  pub gen : Script → ℕ
  pub timers : List Timer

unfoldable pub no_scripts : Scripts
no_scripts = record { gen = λ _. 0; timers = [] }

-- `after`: one step of the current generation.
unfoldable pub after : Script → ℕ → ℕ → Scripts → Scripts
after s step delay w = record w {
  timers =
      record { tick = record { script = s; gen = w.gen s; step = step }; delay = delay } ∷ w.timers;
}

-- `stop`
unfoldable pub stop : Script → Scripts → Scripts
stop s w = record w { gen = λ r. if script_equal r s then suc (w.gen r) else w.gen r }

-- `restart`
unfoldable pub restart : Script → ℕ → ℕ → Scripts → Scripts
unfolding stop after
restart s step delay w = after s step delay (stop s w)

-- The test of `run`: the tick belongs to the script's current generation.
unfoldable pub is_current : Scripts → Tick → Bool
is_current w t = t.gen == w.gen t.script

-- The timers without the one at an index.
unfoldable pub without : List Timer → ℕ → List Timer
without [] i = []
without (t ∷ rest) zero = rest
without (t ∷ rest) (suc i) = t ∷ without rest i

-- The scripts once the timer at an index has fired.
unfoldable pub fired : Scripts → ℕ → Scripts
unfolding without
fired w i = record w { timers = without w.timers i }
