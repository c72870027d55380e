-- ===== src/Conveyor/Firmware/Stages/Timers.antt =====
-- conveyor_device.go: what the firing of a timer does to the bench's stage.
use go_aioesphomeapi.Base.{ℕ, ◌≡◌, ◌∙◌, true, false, List, [], ◌∷◌, arith}
use go_aioesphomeapi.Conveyor.Scripts.{Tick, fired, travel, capture, bench}
use go_aioesphomeapi.Conveyor.Scripts.Waiting.{waits, waiting, fired-IsIssued, Fires}
use go_aioesphomeapi.Conveyor.Firmware.{Firmware}
use go_aioesphomeapi.Conveyor.Firmware.Stages.{
  Stage, Detail, Holds, placing, at_entry, clearing, moving, measuring, reaching, releasing,
  finished, stranded,
}

-- The firmware when the timer at an index has fired and its tick is not yet handled.
abbrev pub after_timer : ℕ → Firmware → Firmware
after_timer i f = record f { scripts = fired f.scripts i }

after_timer-Detail : (s : Stage) (i : ℕ) (f : Firmware) → Detail s f → Detail s (after_timer i f)
after_timer-Detail placing i f d = d
after_timer-Detail at_entry i f d = d
after_timer-Detail clearing i f d = d
after_timer-Detail moving i f d = d
after_timer-Detail (measuring k) i f d = d
after_timer-Detail reaching i f d = d
after_timer-Detail releasing i f d = d
after_timer-Detail finished i f d = d
after_timer-Detail stranded i f d = d

after_timer-Holds :
    {b u c b₁ u₁ c₁ : List ℕ} {s : Stage} (f : Firmware) (i : ℕ)
    → Holds b u c s f
    → waiting (fired f.scripts i) bench ≡ b₁
    → waiting (fired f.scripts i) travel ≡ u₁
    → waiting (fired f.scripts i) capture ≡ c₁
    → Holds b₁ u₁ c₁ s (after_timer i f)
after_timer-Holds {s = s} f i h p q r = record {
  issued = fired-IsIssued f.scripts i h.issued;
  benching = p;
  travelling = q;
  capturing = r;
  entry = h.entry;
  published = h.published;
  shown = h.shown;
  known = h.known;
  going = h.going;
  detail = after_timer-Detail s i f h.detail;
}

-- A tick of no script that a stage mentions, or of an older generation.
pub unwaited-Holds :
    {b u c : List ℕ} {s : Stage} (f : Firmware) (i : ℕ) (t : Tick)
    → Fires f.scripts i t
    → waits f.scripts.gen bench t ≡ false
    → waits f.scripts.gen travel t ≡ false
    → waits f.scripts.gen capture t ≡ false
    → Holds b u c s f
    → Holds b u c s (after_timer i f)
unwaited-Holds f i t w p q r h =
    after_timer-Holds f i h (w.others bench p ∙ h.benching) (w.others travel q ∙ h.travelling)
      (w.others capture r ∙ h.capturing)

-- The one tick of the bench, of the travel or of the capture that waited.
pub bench-Holds :
    {u c : List ℕ} {s : Stage} {step : ℕ} (f : Firmware) (i : ℕ) (t : Tick)
    → Fires f.scripts i t
    → t.script ≡ bench
    → waits f.scripts.gen bench t ≡ true
    → Holds (step ∷ []) u c s f
    → (t.step ≡ step) × Holds [] u c s (after_timer i f)
bench-Holds {step = step} f i t w e p h = (
  (w.only bench step p h.benching).0,
  after_timer-Holds f i h (w.only bench step p h.benching).1
      (w.others travel (ground (arith, e)) ∙ h.travelling)
      (w.others capture (ground (arith, e)) ∙ h.capturing),
)

pub travel-Holds :
    {b c : List ℕ} {s : Stage} {step : ℕ} (f : Firmware) (i : ℕ) (t : Tick)
    → Fires f.scripts i t
    → t.script ≡ travel
    → waits f.scripts.gen travel t ≡ true
    → Holds b (step ∷ []) c s f
    → (t.step ≡ step) × Holds b [] c s (after_timer i f)
travel-Holds {step = step} f i t w e p h = (
  (w.only travel step p h.travelling).0,
  after_timer-Holds f i h (w.others bench (ground (arith, e)) ∙ h.benching)
      (w.only travel step p h.travelling).1 (w.others capture (ground (arith, e)) ∙ h.capturing),
)

pub capture-Holds :
    {b u : List ℕ} {s : Stage} {step : ℕ} (f : Firmware) (i : ℕ) (t : Tick)
    → Fires f.scripts i t
    → t.script ≡ capture
    → waits f.scripts.gen capture t ≡ true
    → Holds b u (step ∷ []) s f
    → (t.step ≡ step) × Holds b u [] s (after_timer i f)
capture-Holds {step = step} f i t w e p h = (
  (w.only capture step p h.capturing).0,
  after_timer-Holds f i h (w.others bench (ground (arith, e)) ∙ h.benching)
      (w.others travel (ground (arith, e)) ∙ h.travelling) (w.only capture step p h.capturing).1,
)
