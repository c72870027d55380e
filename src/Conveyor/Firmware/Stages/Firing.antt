-- ===== src/Conveyor/Firmware/Stages/Firing.antt =====
-- conveyor_device.go: the timers of the steps that wait, and what they do when they fire.
use go_aioesphomeapi.Base.{
  ℕ, suc, ◌≡◌, refl, ap, inl, inr, true, some, List, [], ◌∷◌, arith, ==_self, Bool-cases, get_elem?,
}
use go_aioesphomeapi.Conveyor.Scripts.{Script, script_index, Tick, Timer, is_current, fired}
use go_aioesphomeapi.Conveyor.Scripts.Waiting.{
  waits, waiting_in, waiting, script_equal→≡, Fires, get-Fires,
}
use go_aioesphomeapi.Conveyor.Firmware.{Firmware, on_tick, receive_tick, round, fires}
use go_aioesphomeapi.Conveyor.Firmware.Stages.Timers.{after_timer}

-- The place of a timer for a step that waits.
record Due (gen : Script → ℕ) (r : Script) (timers : List Timer) : Type 0 where
  index : ℕ
  timer : Timer
  found : get_elem? timers index ≡ some timer
  script : timer.tick.script ≡ r
  current : timer.tick.gen ≡ gen r

later-Due :
    {gen : Script → ℕ} {r : Script} {timers : List Timer} (t : Timer)
    → Due gen r timers
    → Due gen r (t ∷ timers)
later-Due t d = record {
  index = suc d.index;
  timer = d.timer;
  found = d.found;
  script = d.script;
  current = d.current;
}

waiting_in-Due :
    (gen : Script → ℕ) (r : Script) (timers : List Timer) (step : ℕ)
    → waiting_in gen r timers ≡ step ∷ []
    → Due gen r timers
unfolding waiting_in
waiting_in-Due gen r [] step h = absurd cc
waiting_in-Due gen r (t ∷ rest) step h = elim (Bool-cases (waits gen r t.tick)) [
  | inl e ↦ record {
    index = 0;
    timer = t;
    found = refl;
    script = script_equal→≡ t.tick.script r (ground (arith, e));
    current = ground (arith, e);
  }
  | inr e ↦ later-Due t (waiting_in-Due gen r rest step (ground (arith, e, h)))
]

-- What a due timer does when it fires.
pub record Firing (r : Script) (f : Firmware) : Type 0 where
  pub index : ℕ
  pub tick : Tick
  pub script : tick.script ≡ r
  pub awaited : waits f.scripts.gen r tick ≡ true
  pub fires_it : Fires f.scripts index tick
  pub result : round (fires index) f ≡ on_tick tick (after_timer index f)

pub due-Firing :
    (r : Script) (step : ℕ) (f : Firmware) → waiting f.scripts r ≡ step ∷ [] → Firing r f
unfolding waiting round receive_tick is_current fired
due-Firing r step f h =
    let d = waiting_in-Due f.scripts.gen r f.scripts.timers step h in
    record {
      index = d.index;
      tick = d.timer.tick;
      script = d.script;
      awaited =
          ground (arith, d.script, d.current, ==_self (script_index r), ==_self (f.scripts.gen r));
      fires_it = get-Fires f.scripts d.index d.timer d.found;
      result = ground (
        arith,
        d.found,
        d.script,
        d.current,
        ap f.scripts.gen d.script,
        ==_self (f.scripts.gen r),
      );
    }
