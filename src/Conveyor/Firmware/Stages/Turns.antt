-- ===== src/Conveyor/Firmware/Stages/Turns.antt =====
-- conveyor_device.go: what the stages say of the bench's count and of the published ratios.
use go_aioesphomeapi.Base.{
  ℕ, ◌≡◌, refl, ◌⊎◌, inl, inr, true, not, ◌||◌, List, ◌∷◌, arith, ℤ, int_ltb, is_not_positive, pos,
  negsuc, ◌-◌, ◌<◌,
}
use go_aioesphomeapi.Conveyor.Firmware.{brick_of, Firmware, more_bricks, Event, rounds}
use go_aioesphomeapi.Conveyor.Firmware.Stages.{
  Stage, readings, expected, IsAt, placing, at_entry, clearing, moving, measuring, reaching,
  releasing, finished, stranded,
}
use go_aioesphomeapi.Conveyor.Firmware.Stages.Run.{started, started-Arrived}

-- The ratios published so far are those of the bricks that came, in the rotation's order, each after a
-- missing reading; and a bench with a positive number of cycles has not done more of them.
pub record IsLedger (f : Firmware) : Type 0 where
  pub ratios :
      (readings f.states ≡ expected f.completed)
      ⊎ (readings f.states ≡ (brick_of f.completed).red_ratio ∷ expected f.completed)
  pub bounded : (is_not_positive f.cycles || not (int_ltb f.cycles (pos f.completed))) ≡ true

IsAt-ratios :
    (s : Stage) (f : Firmware)
    → IsAt s f
    → (readings f.states ≡ expected f.completed)
      ⊎ (readings f.states ≡ (brick_of f.completed).red_ratio ∷ expected f.completed)
IsAt-ratios reaching f h = inr h.published
IsAt-ratios releasing f h = inr h.published
IsAt-ratios placing f h = inl h.published
IsAt-ratios at_entry f h = inl h.published
IsAt-ratios clearing f h = inl h.published
IsAt-ratios moving f h = inl h.published
IsAt-ratios (measuring k) f h = inl h.published
IsAt-ratios finished f h = inl h.published
IsAt-ratios stranded f h = inl h.published

more_bricks-bounded :
    (c : ℤ) (n : ℕ) → more_bricks c n ≡ true → (is_not_positive c || not (int_ltb c (pos n))) ≡ true
more_bricks-bounded (pos c) n h = ground (arith, h)
more_bricks-bounded (negsuc c) n h = refl

last_brick-bounded :
    (c : ℤ) (n : ℕ)
    → 0 < n
    → more_bricks c (n - 1) ≡ true
    → (is_not_positive c || not (int_ltb c (pos n))) ≡ true
last_brick-bounded (pos c) n lt h = ground (arith, lt, h)
last_brick-bounded (negsuc c) n lt h = refl

IsAt-bounded :
    (s : Stage) (f : Firmware)
    → IsAt s f
    → (is_not_positive f.cycles || not (int_ltb f.cycles (pos f.completed))) ≡ true
IsAt-bounded finished f h = last_brick-bounded f.cycles f.completed h.detail.0 h.detail.1
IsAt-bounded reaching f h = more_bricks-bounded f.cycles f.completed h.going
IsAt-bounded releasing f h = more_bricks-bounded f.cycles f.completed h.going
IsAt-bounded placing f h = more_bricks-bounded f.cycles f.completed h.going
IsAt-bounded at_entry f h = more_bricks-bounded f.cycles f.completed h.going
IsAt-bounded clearing f h = more_bricks-bounded f.cycles f.completed h.going
IsAt-bounded moving f h = more_bricks-bounded f.cycles f.completed h.going
IsAt-bounded (measuring k) f h = more_bricks-bounded f.cycles f.completed h.going
IsAt-bounded stranded f h = more_bricks-bounded f.cycles f.completed h.going

-- At any time of any run the ratios published are those of the rotation's bricks in order, one for
-- each brick and each between missing readings, with none left out or repeated; and a bench with a
-- positive number of cycles has counted no more bricks than that.
pub started-IsLedger :
    (cycles : ℤ) (travel_time dwell : ℕ) (es : List Event)
    → IsLedger (rounds es (started cycles travel_time dwell))
started-IsLedger cycles travel_time dwell es =
    let a = started-Arrived cycles travel_time dwell es in
    record { ratios = IsAt-ratios a.stage _ a.holds; bounded = IsAt-bounded a.stage _ a.holds }
