-- ===== src/Conveyor/Firmware/Stages/Finishing.antt =====
-- conveyor_device.go: runs that take the bench through its whole sequence.
use go_aioesphomeapi.Conveyor.Firmware.Stages.Reaching.{
  Reached, then-Reached, placing-Reached, at_entry-Reached, clearing-Reached, moving-Reached,
  measuring-Reached, reaching-Reached, releasing-Reached,
}
use go_aioesphomeapi.Conveyor.Firmware.Stages.Run.{started, started-IsAt}
use go_aioesphomeapi.Base.{ℕ, suc, ◌≡◌, refl, true, arith, ℤ, zero, ◌+◌, false, if◌then◌else◌, pos}
use go_aioesphomeapi.Conveyor.Firmware.{
  Firmware, publish_en_route, publish_ratio, more_bricks, new_conveyor_firmware, boot,
}
use go_aioesphomeapi.Conveyor.Firmware.Stages.{IsAt, placing, finished}

module _ {n : ℕ} {c : ℤ} where
  -- One turn of the bench.
  turn-Reached :
      (f : Firmware)
      → IsAt placing f
      → f.completed ≡ n
      → f.cycles ≡ c
      → Reached (if more_bricks c (suc n) then placing else finished) (suc n) c f
  turn-Reached f h m d =
      let placed = placing-Reached f h m d in
      let carried = then-Reached placed at_entry-Reached in
      let cleared = then-Reached carried clearing-Reached in
      let arrived = then-Reached cleared moving-Reached in
      let measured = then-Reached arrived measuring-Reached in
      let lifted = then-Reached measured reaching-Reached in then-Reached lifted releasing-Reached

more_bricks_last : (n k : ℕ) → suc k ≡ n → more_bricks (pos n) (suc k) ≡ false
more_bricks_last n k e = ground (arith, e)

more_bricks_left : (n k left : ℕ) → suc left + suc k ≡ n → more_bricks (pos n) (suc k) ≡ true
more_bricks_left n k left e = ground (arith, e)

turns-Reached :
    (left n k : ℕ) (f : Firmware)
    → suc left + k ≡ n
    → IsAt placing f
    → f.completed ≡ k
    → f.cycles ≡ pos n
    → Reached finished n (pos n) f
turns-Reached zero n k f e h m d =
    let last : suc k ≡ n = omega (arith, e) in
    let done = turn-Reached f h m d in ground (arith, last, more_bricks_last n k last, done)
turns-Reached (suc left) n k f e h m d =
    let t : Reached placing (suc k) (pos n) f =
      (let done = turn-Reached f h m d in
        ground (arith, more_bricks_left n k left (omega arith), done)) in
    then-Reached t (λ g i p q. turns-Reached left n (suc k) g (omega arith) i p q)

-- From the start of a bench of one or more cycles there is a run of commands and timers after
-- which it has finished, with exactly its number of bricks counted.
pub started-Reached :
    (n travel_time dwell : ℕ)
    → Reached finished (suc n) (pos (suc n)) (started (pos (suc n)) travel_time dwell)
unfolding boot new_conveyor_firmware publish_en_route publish_ratio
started-Reached n travel_time dwell =
    turns-Reached n (suc n) 0 _ (omega arith) (started-IsAt (pos (suc n)) travel_time dwell) refl
      refl
