-- ===== src/Conveyor/Firmware/Stages/Belt.antt =====
-- conveyor_device.go: what a fan command does to the bench's stage.
use go_aioesphomeapi.Base.{
  ℕ, refl, ◌∙◌, inl, inr, Bool, true, false, [], arith, if◌then◌else◌, Bool-cases,
}
use go_aioesphomeapi.Conveyor.Scripts.{stop, travel, capture, jam, bench}
use go_aioesphomeapi.Conveyor.Scripts.Waiting.{
  waiting-stop, waiting-restart, stop-IsIssued, restart-IsIssued,
}
use go_aioesphomeapi.Conveyor.Firmware.{Firmware, begin, halt, on_fan_command}
use go_aioesphomeapi.Conveyor.Firmware.Stages.{
  Stage, Advance, bench_steps, travel_steps, capture_steps, Holds, IsAt, placing, at_entry,
  clearing, moving, measuring, reaching, releasing, finished, stranded, stays, starts, halts,
  strands, Detail,
}
use go_aioesphomeapi.Conveyor.Firmware.Stages.Quiet.{
  Alike-Holds, begin-Alike, halt-Alike, Alike-trans, motor-Alike,
}

-- A firmware that came from a stage by one move.
pub record Moved (s : Stage) (g : Firmware) : Type 0 where
  pub stage : Stage
  pub move : Advance s stage
  pub holds : IsAt stage g

pub stays-Moved : {s : Stage} {g : Firmware} → IsAt s g → Moved s g
stays-Moved {s} h = record { stage = s; move = stays s; holds = h }

-- `onFanCommand(false)` on a running belt.
abbrev pub belt_off : Firmware → Firmware
belt_off f = halt travel (halt jam (record f { motor_on = false }))

halt_travel-Detail : (s : Stage) (f : Firmware) → Detail s f → Detail s (halt travel f)
halt_travel-Detail placing f d = d
halt_travel-Detail at_entry f d = d
halt_travel-Detail clearing f d = d
halt_travel-Detail moving f d = d
halt_travel-Detail (measuring k) f d = d
halt_travel-Detail reaching f d = d
halt_travel-Detail releasing f d = d
halt_travel-Detail finished f d = d
halt_travel-Detail stranded f d = d

pub belt_off-Holds :
    (s : Stage) (f : Firmware)
    → IsAt s f
    → Holds (bench_steps s) [] (capture_steps s) s (belt_off f)
belt_off-Holds s f h =
    let stood = motor-Alike false f h.issued in
    let unjammed = halt-Alike jam _ (refl, refl, refl) stood.issued in
    let k = Alike-Holds (Alike-trans stood unjammed) h in
    let issued = stop-IsIssued travel _ k.issued in
    let w = stop jam f.scripts in
    record {
      issued = issued;
      benching = waiting-stop travel bench w k.issued ∙ k.benching;
      travelling = waiting-stop travel travel w k.issued;
      capturing = waiting-stop travel capture w k.issued ∙ k.capturing;
      entry = k.entry;
      published = k.published;
      shown = k.shown;
      known = k.known;
      going = k.going;
      detail = halt_travel-Detail s _ k.detail;
    }

pub belt_off-Stranded : (f : Firmware) → IsAt moving f → IsAt stranded (belt_off f)
belt_off-Stranded f h = let k = belt_off-Holds moving f h in ground (arith, k)

belt_off-Moved : (s : Stage) (f : Firmware) → IsAt s f → Moved s (belt_off f)
belt_off-Moved clearing f h =
    let k = belt_off-Holds clearing f h in
    let m : IsAt at_entry (belt_off f) = ground (arith, k, k.detail) in
    record { stage = at_entry; move = halts; holds = m }
belt_off-Moved moving f h = record {
  stage = stranded;
  move = strands;
  holds = belt_off-Stranded f h;
}
belt_off-Moved placing f h = stays-Moved (belt_off-Holds placing f h)
belt_off-Moved at_entry f h = stays-Moved (belt_off-Holds at_entry f h)
belt_off-Moved (measuring k) f h = stays-Moved (belt_off-Holds (measuring k) f h)
belt_off-Moved reaching f h = stays-Moved (belt_off-Holds reaching f h)
belt_off-Moved releasing f h = stays-Moved (belt_off-Holds releasing f h)
belt_off-Moved finished f h = stays-Moved (belt_off-Holds finished f h)
belt_off-Moved stranded f h = stays-Moved (belt_off-Holds stranded f h)

-- The belt carries a brick that is at the entry.
pub start_travel-Holds :
    (s : Stage) (delay : ℕ) (f : Firmware)
    → Holds [] (travel_steps s) [] at_entry f
    → IsAt clearing (begin travel 0 delay f)
start_travel-Holds s delay f h =
    let issued = restart-IsIssued travel 0 delay f.scripts h.issued in
    ground (
      arith,
      issued,
      h,
      waiting-restart travel bench 0 delay f.scripts h.issued,
      waiting-restart travel travel 0 delay f.scripts h.issued,
      waiting-restart travel capture 0 delay f.scripts h.issued,
    )

abbrev carried : ℕ → Firmware → Firmware
carried delay f = if f.entry_occupied then begin travel 0 delay f else f

carried-Moved : (s : Stage) (delay : ℕ) (f : Firmware) → IsAt s f → Moved s (carried delay f)
carried-Moved at_entry delay f h =
    let k : Moved at_entry (begin travel 0 delay f) = record {
      stage = clearing;
      move = starts;
      holds = start_travel-Holds at_entry delay f h;
    } in
    ground (arith, h.entry, k)
carried-Moved clearing delay f h =
    let k : Holds [] (travel_steps clearing) [] at_entry f = ground (arith, h, h.detail) in
    let k = stays-Moved (start_travel-Holds clearing delay f k) in ground (arith, h.entry, k)
carried-Moved placing delay f h = let k = stays-Moved h in ground (arith, h.entry, k)
carried-Moved moving delay f h = let k = stays-Moved h in ground (arith, h.entry, k)
carried-Moved (measuring k) delay f h = let k = stays-Moved h in ground (arith, h.entry, k)
carried-Moved reaching delay f h = let k = stays-Moved h in ground (arith, h.entry, k)
carried-Moved releasing delay f h = let k = stays-Moved h in ground (arith, h.entry, k)
carried-Moved finished delay f h = let k = stays-Moved h in ground (arith, h.entry, k)
carried-Moved stranded delay f h = let k = stays-Moved h in ground (arith, h.entry, k)

abbrev pub jam_clock : Firmware → Firmware
jam_clock f = begin jam 0 f.timings.jam_withdraw (record f { motor_on = true })

pub on_fan_command-Moved :
    (state : Bool) (s : Stage) (f : Firmware) → IsAt s f → Moved s (on_fan_command state f)
unfolding on_fan_command
on_fan_command-Moved false s f h = elim (Bool-cases f.motor_on) [
  | inl e ↦ let k = belt_off-Moved s f h in ground (arith, e, k)
  | inr e ↦ let k = stays-Moved h in ground (arith, e, k)
]
on_fan_command-Moved true s f h = elim (Bool-cases f.motor_on) [
  | inl e ↦ let k = stays-Moved h in ground (arith, e, k)
  | inr e ↦
      let turned = motor-Alike true f h.issued in
      let clocked = begin-Alike jam 0 f.timings.jam_withdraw _ (refl, refl, refl) turned.issued in
      let k =
        carried-Moved s f.timings.entry_clear (jam_clock f)
          (Alike-Holds (Alike-trans turned clocked) h) in
      ground (arith, e, k)
]
