-- ===== src/Conveyor/Firmware/Stages/Ticks.antt =====
-- conveyor_device.go: what a current tick of the bench, of the travel or of the capture does to the stage.
use go_aioesphomeapi.Base.{ℕ, suc, ◌≡◌, inl, inr, true, [], arith, ltb, ltb→lt, Bool-cases}
use go_aioesphomeapi.Conveyor.Scripts.{Tick, travel, capture, bench}
use go_aioesphomeapi.Conveyor.Scripts.Waiting.{waits, Fires}
use go_aioesphomeapi.Conveyor.Firmware.{
  Firmware, place_brick, lift_brick, more_bricks, release_brick, on_bench, on_travel, on_capture,
}
use go_aioesphomeapi.Conveyor.Firmware.Stages.{
  Stage, Holds, IsAt, placing, at_entry, clearing, moving, measuring, reaching, releasing, finished,
  stranded, places, clears, arrives, samples, measures, lifts, repeats, finishes,
}
use go_aioesphomeapi.Conveyor.Firmware.Stages.Moves.{
  place_brick-Holds, lift_brick-Holds, clear_entry-Holds, arrive-Holds, sample-Holds, measure-Holds,
  release_brick-Holds,
}
use go_aioesphomeapi.Conveyor.Firmware.Stages.Belt.{Moved}
use go_aioesphomeapi.Conveyor.Firmware.Stages.Timers.{
  after_timer, bench-Holds, travel-Holds, capture-Holds,
}

-- A tick of the bench's current generation.
pub bench_tick-Moved :
    (s : Stage) (f : Firmware) (i : ℕ) (t : Tick)
    → Fires f.scripts i t
    → t.script ≡ bench
    → waits f.scripts.gen bench t ≡ true
    → IsAt s f
    → Moved s (on_bench t.step (after_timer i f))
unfolding on_bench
bench_tick-Moved placing f i t w e p h =
    let k = bench-Holds f i t w e p h in
    let placed : Moved placing (place_brick (after_timer i f)) = record {
      stage = at_entry;
      move = places;
      holds = place_brick-Holds _ k.1;
    } in
    ground (arith, k.0, placed)
bench_tick-Moved reaching f i t w e p h =
    let k = bench-Holds f i t w e p h in
    let lifted : Moved reaching (lift_brick (after_timer i f)) = record {
      stage = releasing;
      move = lifts;
      holds = lift_brick-Holds _ k.1;
    } in
    ground (arith, k.0, lifted)
bench_tick-Moved releasing f i t w e p h =
    let k = bench-Holds f i t w e p h in
    let turn = release_brick-Holds _ k.1 in
    elim (Bool-cases (more_bricks f.cycles (suc f.completed))) [
      | inl m ↦
          let released : Moved releasing (release_brick (after_timer i f)) = record {
            stage = placing;
            move = repeats;
            holds = ground (arith, m, turn);
          } in
          ground (arith, k.0, released)
      | inr m ↦
          let released : Moved releasing (release_brick (after_timer i f)) = record {
            stage = finished;
            move = finishes;
            holds = ground (arith, m, turn);
          } in
          ground (arith, k.0, released)
    ]
bench_tick-Moved at_entry f i t w e p h = absurd (w.never bench p h.benching)
bench_tick-Moved clearing f i t w e p h = absurd (w.never bench p h.benching)
bench_tick-Moved moving f i t w e p h = absurd (w.never bench p h.benching)
bench_tick-Moved (measuring k) f i t w e p h = absurd (w.never bench p h.benching)
bench_tick-Moved finished f i t w e p h = absurd (w.never bench p h.benching)
bench_tick-Moved stranded f i t w e p h = absurd (w.never bench p h.benching)

-- A tick of the travel's current generation.
pub travel_tick-Moved :
    (s : Stage) (f : Firmware) (i : ℕ) (t : Tick)
    → Fires f.scripts i t
    → t.script ≡ travel
    → waits f.scripts.gen travel t ≡ true
    → IsAt s f
    → Moved s (on_travel t.step (after_timer i f))
unfolding on_travel
travel_tick-Moved clearing f i t w e p h =
    let k = travel-Holds f i t w e p h in
    let cleared : Moved clearing (on_travel 0 (after_timer i f)) = record {
      stage = moving;
      move = clears;
      holds = clear_entry-Holds _ k.1;
    } in
    ground (arith, k.0, cleared)
travel_tick-Moved moving f i t w e p h =
    let k = travel-Holds f i t w e p h in
    let arrived : Moved moving (on_travel 1 (after_timer i f)) = record {
      stage = measuring 0;
      move = arrives;
      holds = arrive-Holds _ k.1;
    } in
    ground (arith, k.0, arrived)
travel_tick-Moved placing f i t w e p h = absurd (w.never travel p h.travelling)
travel_tick-Moved at_entry f i t w e p h = absurd (w.never travel p h.travelling)
travel_tick-Moved (measuring k) f i t w e p h = absurd (w.never travel p h.travelling)
travel_tick-Moved reaching f i t w e p h = absurd (w.never travel p h.travelling)
travel_tick-Moved releasing f i t w e p h = absurd (w.never travel p h.travelling)
travel_tick-Moved finished f i t w e p h = absurd (w.never travel p h.travelling)
travel_tick-Moved stranded f i t w e p h = absurd (w.never travel p h.travelling)

-- A tick of the capture's current generation.
pub capture_tick-Moved :
    (s : Stage) (f : Firmware) (i : ℕ) (t : Tick)
    → Fires f.scripts i t
    → t.script ≡ capture
    → waits f.scripts.gen capture t ≡ true
    → IsAt s f
    → Moved s (on_capture t.step (after_timer i f))
capture_tick-Moved (measuring n) f i t w e p h =
    let k = capture-Holds f i t w e p h in
    elim (Bool-cases (ltb n 5)) [
      | inl l ↦
          let sampled : Moved (measuring n) (on_capture n (after_timer i f)) = record {
            stage = measuring (suc n);
            move = samples (ltb→lt n 5 l);
            holds = sample-Holds n _ (ltb→lt n 5 l) k.1;
          } in
          ground (arith, k.0, sampled)
      | inr l ↦
          let five : n ≡ 5 = ground (arith, l, h.detail) in
          let last : Holds [] [] [] (measuring 5) (after_timer i f) = ground (arith, five, k.1) in
          let measured : Moved (measuring 5) (on_capture 5 (after_timer i f)) = record {
            stage = reaching;
            move = measures;
            holds = measure-Holds _ last;
          } in
          ground (arith, k.0, five, measured)
    ]
capture_tick-Moved placing f i t w e p h = absurd (w.never capture p h.capturing)
capture_tick-Moved at_entry f i t w e p h = absurd (w.never capture p h.capturing)
capture_tick-Moved clearing f i t w e p h = absurd (w.never capture p h.capturing)
capture_tick-Moved moving f i t w e p h = absurd (w.never capture p h.capturing)
capture_tick-Moved reaching f i t w e p h = absurd (w.never capture p h.capturing)
capture_tick-Moved releasing f i t w e p h = absurd (w.never capture p h.capturing)
capture_tick-Moved finished f i t w e p h = absurd (w.never capture p h.capturing)
capture_tick-Moved stranded f i t w e p h = absurd (w.never capture p h.capturing)
