-- ===== src/Conveyor/Firmware/Stages/Moves.antt =====
-- conveyor_device.go: the automations that take the bench to its next stage.
use go_aioesphomeapi.Base.{ℕ, ◌≡◌, false, [], arith, zero, suc, ◌%◌, ◌<◌, refl, if◌then◌else◌}
use go_aioesphomeapi.Messages.{Float32}
use go_aioesphomeapi.Conveyor.Scripts.{
  stop, request_run, travel, capture, bench, restart, exit_hold, jam,
}
use go_aioesphomeapi.Conveyor.Scripts.Waiting.{
  waiting-after, waiting-stop, waiting-restart, after-IsIssued, stop-IsIssued, restart-IsIssued,
}
use go_aioesphomeapi.Conveyor.Texts.{float32_equal}
use go_aioesphomeapi.Conveyor.Firmware.{
  brick_of, no_reading, Firmware, log, place_brick, lift_brick, on_travel, brick_at,
  publish_en_route, publish_ratio, more_bricks, release_brick, on_arrival, on_capture,
}
use go_aioesphomeapi.Conveyor.Firmware.Stages.{
  Holds, IsAt, placing, at_entry, clearing, moving, reaching, releasing, Stage, readings, expected,
  measuring, finished,
}

pub place_brick-Holds : (f : Firmware) → Holds [] [] [] placing f → IsAt at_entry (place_brick f)
unfolding place_brick log
place_brick-Holds f h =
    let issued = restart-IsIssued request_run 0 f.timings.entry_debounce f.scripts h.issued in
    ground (
      arith,
      issued,
      h,
      waiting-restart request_run bench 0 f.timings.entry_debounce f.scripts h.issued,
      waiting-restart request_run travel 0 f.timings.entry_debounce f.scripts h.issued,
      waiting-restart request_run capture 0 f.timings.entry_debounce f.scripts h.issued,
    )

-- No comparison takes a ratio for the missing reading.
abbrev pub IsRatio : Float32 → Type 0
IsRatio r = (float32_equal r no_reading ≡ false) × (float32_equal no_reading r ≡ false)

brick_at-IsRatio : (index : ℕ) → index < 4 → IsRatio (brick_at index).red_ratio
unfolding float32_equal
brick_at-IsRatio zero h = (refl, refl)
brick_at-IsRatio (suc zero) h = (refl, refl)
brick_at-IsRatio (suc (suc zero)) h = (refl, refl)
brick_at-IsRatio (suc (suc (suc zero))) h = (refl, refl)
brick_at-IsRatio (suc (suc (suc (suc n)))) h = absurd (omega arith)

pub brick_of-IsRatio : (n : ℕ) → IsRatio (brick_of n).red_ratio
unfolding brick_of
brick_of-IsRatio n = brick_at-IsRatio (n % 4) (omega arith)

pub lift_brick-Holds : (f : Firmware) → Holds [] [] [] reaching f → IsAt releasing (lift_brick f)
unfolding lift_brick log
lift_brick-Holds f h =
    let stopped = stop-IsIssued capture f.scripts h.issued in
    let issued =
      restart-IsIssued bench 2 f.timings.exit_release_debounce (stop capture f.scripts) stopped in
    ground (
      arith,
      issued,
      h,
      waiting-restart bench bench 2 f.timings.exit_release_debounce (stop capture f.scripts)
          stopped,
      waiting-restart bench travel 2 f.timings.exit_release_debounce (stop capture f.scripts)
          stopped,
      waiting-restart bench capture 2 f.timings.exit_release_debounce (stop capture f.scripts)
          stopped,
      waiting-stop capture travel f.scripts h.issued,
      waiting-stop capture capture f.scripts h.issued,
    )

pub clear_entry-Holds : (f : Firmware) → Holds [] [] [] clearing f → IsAt moving (on_travel 0 f)
unfolding on_travel
clear_entry-Holds f h =
    let issued = after-IsIssued travel 1 f.travel_time f.scripts h.issued in
    ground (
      arith,
      issued,
      h,
      waiting-after travel bench 1 f.travel_time f.scripts,
      waiting-after travel travel 1 f.travel_time f.scripts,
      waiting-after travel capture 1 f.travel_time f.scripts,
    )

pub arrive-Holds : (f : Firmware) → Holds [] [] [] moving f → IsAt (measuring 0) (on_arrival f)
unfolding on_arrival publish_en_route readings
arrive-Holds f h =
    let w = stop jam f.scripts in
    let stopped = stop-IsIssued jam f.scripts h.issued in
    let v = restart capture 0 f.timings.capture_settle w in
    let captured = restart-IsIssued capture 0 f.timings.capture_settle w stopped in
    let issued = restart-IsIssued exit_hold 0 f.timings.exit_hold_time v captured in
    ground (
      arith,
      issued,
      h,
      waiting-restart exit_hold bench 0 f.timings.exit_hold_time v captured,
      waiting-restart exit_hold travel 0 f.timings.exit_hold_time v captured,
      waiting-restart exit_hold capture 0 f.timings.exit_hold_time v captured,
      waiting-restart capture bench 0 f.timings.capture_settle w stopped,
      waiting-restart capture travel 0 f.timings.capture_settle w stopped,
      waiting-restart capture capture 0 f.timings.capture_settle w stopped,
      waiting-stop jam bench f.scripts h.issued,
      waiting-stop jam travel f.scripts h.issued,
      waiting-stop jam capture f.scripts h.issued,
    )

pub sample-Holds :
    (k : ℕ) (f : Firmware)
    → k < 5
    → Holds [] [] [] (measuring k) f
    → IsAt (measuring (suc k)) (on_capture k f)
unfolding on_capture
sample-Holds k f lt h =
    let issued = after-IsIssued capture (suc k) f.timings.capture_interval f.scripts h.issued in
    ground (
      arith,
      lt,
      issued,
      h,
      h.detail,
      waiting-after capture bench (suc k) f.timings.capture_interval f.scripts,
      waiting-after capture travel (suc k) f.timings.capture_interval f.scripts,
      waiting-after capture capture (suc k) f.timings.capture_interval f.scripts,
    )

pub measure-Holds : (f : Firmware) → Holds [] [] [] (measuring 5) f → IsAt reaching (on_capture 5 f)
unfolding on_capture publish_ratio log readings
measure-Holds f h =
    let issued = after-IsIssued bench 1 f.dwell f.scripts h.issued in
    let ratio : float32_equal f.at_exit.red_ratio f.red_ratio ≡ false =
      ground (arith, h, h.detail, brick_of-IsRatio f.completed) in
    ground (
      arith,
      ratio,
      issued,
      h,
      h.detail,
      waiting-after bench bench 1 f.dwell f.scripts,
      waiting-after bench travel 1 f.dwell f.scripts,
      waiting-after bench capture 1 f.dwell f.scripts,
    )

abbrev pub next_turn : Firmware → Stage
next_turn f = if more_bricks f.cycles (suc f.completed) then placing else finished

pub release_brick-Holds :
    (f : Firmware) → Holds [] [] [] releasing f → IsAt (next_turn f) (release_brick f)
unfolding release_brick publish_ratio log readings expected
release_brick-Holds f h =
    let issued = after-IsIssued bench 0 f.timings.between_bricks f.scripts h.issued in
    let ratio : float32_equal no_reading f.red_ratio ≡ false =
      ground (arith, h, brick_of-IsRatio f.completed) in
    ground (
      arith,
      ratio,
      issued,
      h,
      waiting-after bench bench 0 f.timings.between_bricks f.scripts,
      waiting-after bench travel 0 f.timings.between_bricks f.scripts,
      waiting-after bench capture 0 f.timings.between_bricks f.scripts,
    )
