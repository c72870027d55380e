-- ===== src/Simulator/Clock.antt =====
-- simulator/clock.go: virtual time. A waiter is its number and the time it waits for; one that leaves the
-- table has been woken. The devices are numbered.
pub mod Wakes
use go_aioesphomeapi.Base.{
  ℕ, suc, ◌+◌, ◌-◌, ◌^◌, Bool, true, false, List, [], ◌∷◌, ◌++◌, ◌==◌, if◌then◌else◌, ℤ, int_ltb,
  is_negative, int_add, wrap64, pos, negsuc, Table, insert, delete, Result, ok, err,
}

-- `ManualClock`: the time in nanoseconds; `ready` is the log of the waiters whose channel was closed.
pub record ManualClock : Type 0 where
  pub now : ℤ
  pub devices : List ℕ
  pub waiters : Table ℤ
  pub ready : List ℕ

abbrev pub new_manual_clock : ManualClock
new_manual_clock = record { now = pos 0; devices = []; waiters = []; ready = [] }

pub data ClockError : Type 0 where
  clock_backwards clock_overflow : ClockError

-- `time.Duration(1<<63-1)`
abbrev pub max_duration : ℕ
max_duration = 2 ^ 63 - 1

-- `time.Duration(1<<63-1)-now`
abbrev headroom : ℤ → ℤ
headroom (pos n) = pos (max_duration - n)
headroom (negsuc n) = wrap64 (pos (max_duration + suc n))

-- The target of `Advance`.
unfoldable pub advance_target : ℤ → ℤ → Result ClockError ℤ
advance_target delta now =
    if is_negative delta
    then err clock_backwards
    else if int_ltb (headroom now) delta
    then err clock_overflow
    else ok (wrap64 (int_add now delta))

-- The target of `AdvanceTo`.
unfoldable pub advance_to_target : ℤ → ℤ → Result ClockError ℤ
advance_to_target target now = if int_ltb target now then err clock_backwards else ok target

-- The waiters that stay, and those that are woken.
unfoldable pub still_waiting : ℤ → Table ℤ → Table ℤ
still_waiting next [] = []
still_waiting next ((k, target) ∷ ws) =
    let rest = still_waiting next ws in if int_ltb next target then (k, target) ∷ rest else rest

unfoldable pub woken : ℤ → Table ℤ → List ℕ
woken next [] = []
woken next ((k, target) ∷ ws) =
    let rest = woken next ws in if int_ltb next target then rest else k ∷ rest

-- `advance`, up to the timelines: the clock, and the devices that are told of the new time.
unfoldable pub advance :
    (ℤ → Result ClockError ℤ) → ManualClock → ManualClock × Result ClockError (List ℕ)
advance target c = elim (target c.now) [
  | err e ↦ (c, err e)
  | ok next ↦ (
    record c {
      now = next;
      waiters = still_waiting next c.waiters;
      ready = c.ready ++ woken next c.waiters;
    },
    ok c.devices,
  )
]

-- What a call of `waitUntil` does first: it returns, or joins the waiters as `k`.
unfoldable pub wait_until : ℕ → ℤ → ManualClock → ManualClock × Bool
wait_until k target c =
    if int_ltb c.now target
    then (record c { waiters = insert k target c.waiters }, false)
    else (c, true)

-- The other end of the wait: `stop` was closed.
unfoldable pub stop_waiting : ℕ → ManualClock → ManualClock
stop_waiting k c = record c { waiters = delete k c.waiters }

-- `register`
unfoldable pub register : ℕ → ManualClock → ManualClock
register device c = record c { devices = c.devices ++ (device ∷ []) }

unfoldable pub without : ℕ → List ℕ → List ℕ
without device [] = []
without device (d ∷ ds) = if d == device then ds else d ∷ without device ds

-- `unregister`: the first place where the device stands is closed up.
unfoldable pub unregister : ℕ → ManualClock → ManualClock
unregister device c = record c { devices = without device c.devices }
