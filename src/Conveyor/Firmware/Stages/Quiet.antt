-- ===== src/Conveyor/Firmware/Stages/Quiet.antt =====
-- conveyor_device.go: the automations that leave the bench where it is.
use go_aioesphomeapi.Base.{
  ℕ, ◌≡◌, sym, ap, ◌∙◌, Bool, List, arith, refl, inl, inr, true, false, ◌&&◌, ◌==◌, Bool-cases,
  Bytes, codes, ℤ,
}
use go_aioesphomeapi.Conveyor.Scripts.{
  travel, capture, bench, Script, script_equal, Tick, request_run, exit_hold, jam,
}
use go_aioesphomeapi.Conveyor.Scripts.Waiting.{
  waiting, IsIssued, waiting-after, waiting-stop, waiting-restart, after-IsIssued, stop-IsIssued,
  restart-IsIssued,
}
use go_aioesphomeapi.Conveyor.Firmware.{
  Firmware, log, publish_en_route, on_jam, schedule, begin, halt, level_info, level_warn, stop_belt,
  on_tick,
}
use go_aioesphomeapi.Conveyor.Firmware.Stages.{
  Stage, readings, expected_at, shown_at, Detail, Holds, placing, at_entry, clearing, moving,
  measuring, reaching, releasing, finished, stranded,
}

-- Two firmwares that a stage cannot tell apart.
pub record Alike (f g : Firmware) : Type 0 where
  pub issued : IsIssued g.scripts
  pub benching : waiting g.scripts bench ≡ waiting f.scripts bench
  pub travelling : waiting g.scripts travel ≡ waiting f.scripts travel
  pub capturing : waiting g.scripts capture ≡ waiting f.scripts capture
  pub entry : g.entry_occupied ≡ f.entry_occupied
  pub exit : g.exit_occupied ≡ f.exit_occupied
  pub belt : g.on_belt ≡ f.on_belt
  pub at_exit : g.at_exit ≡ f.at_exit
  pub sampled : g.capture_sampled ≡ f.capture_sampled
  pub published : readings g.states ≡ readings f.states
  pub shown : g.red_ratio ≡ f.red_ratio
  pub known : g.ratio_known ≡ f.ratio_known
  pub cycles : g.cycles ≡ f.cycles
  pub completed : g.completed ≡ f.completed

Alike-Detail : {f g : Firmware} (stage : Stage) → Alike f g → Detail stage f → Detail stage g
Alike-Detail placing a d = tt
Alike-Detail at_entry a d = ground arith
Alike-Detail clearing a d = ground arith
Alike-Detail moving a d = ground arith
Alike-Detail (measuring k) a d = ground arith
Alike-Detail reaching a d = tt
Alike-Detail releasing a d = tt
Alike-Detail finished a d = ground (arith, a, d)
Alike-Detail stranded a d = tt

pub Alike-Holds :
    {f g : Firmware} {b t c : List ℕ} {stage : Stage}
    → Alike f g
    → Holds b t c stage f
    → Holds b t c stage g
Alike-Holds {f} {g} {b} {t} {c} {stage} a h = record {
  issued = a.issued;
  benching = a.benching ∙ h.benching;
  travelling = a.travelling ∙ h.travelling;
  capturing = a.capturing ∙ h.capturing;
  entry = a.entry ∙ h.entry;
  published = a.published ∙ h.published ∙ ap (expected_at stage) (sym a.completed);
  shown = a.shown ∙ h.shown ∙ ap (shown_at stage) (sym a.completed);
  known = a.known ∙ h.known;
  going = cc (a.cycles, a.completed, h.going);
  detail = Alike-Detail stage a h.detail;
}

pub publish_en_route-Alike :
    (state : Bool) (f : Firmware) → IsIssued f.scripts → Alike f (publish_en_route state f)
unfolding publish_en_route readings
publish_en_route-Alike state f h = ground arith

-- Scripts whose steps no stage mentions.
abbrev IsQuiet : Script → Type 0
IsQuiet s =
    (script_equal s bench ≡ false)
    × (script_equal s travel ≡ false)
    × (script_equal s capture ≡ false)

schedule-Alike :
    (s : Script) (step delay : ℕ) (f : Firmware)
    → IsQuiet s
    → IsIssued f.scripts
    → Alike f (schedule s step delay f)
schedule-Alike s step delay f q h =
    let issued = after-IsIssued s step delay f.scripts h in
    ground (
      arith,
      issued,
      q.0,
      q.1,
      q.2,
      waiting-after s bench step delay f.scripts,
      waiting-after s travel step delay f.scripts,
      waiting-after s capture step delay f.scripts,
    )

pub begin-Alike :
    (s : Script) (step delay : ℕ) (f : Firmware)
    → IsQuiet s
    → IsIssued f.scripts
    → Alike f (begin s step delay f)
begin-Alike s step delay f q h =
    let issued = restart-IsIssued s step delay f.scripts h in
    ground (
      arith,
      issued,
      q.0,
      q.1,
      q.2,
      waiting-restart s bench step delay f.scripts h,
      waiting-restart s travel step delay f.scripts h,
      waiting-restart s capture step delay f.scripts h,
    )

pub halt-Alike : (s : Script) (f : Firmware) → IsQuiet s → IsIssued f.scripts → Alike f (halt s f)
halt-Alike s f q h =
    let issued = stop-IsIssued s f.scripts h in
    ground (
      arith,
      issued,
      q.0,
      q.1,
      q.2,
      waiting-stop s bench f.scripts h,
      waiting-stop s travel f.scripts h,
      waiting-stop s capture f.scripts h,
    )

pub Alike-trans : {f g h : Firmware} → Alike f g → Alike g h → Alike f h
Alike-trans a b = ground arith

pub Alike-refl : (f : Firmware) → IsIssued f.scripts → Alike f f
Alike-refl f h = ground arith

pub log-Alike :
    (level : ℤ) (text : Bytes) (f : Firmware) → IsIssued f.scripts → Alike f (log level text f)
unfolding log
log-Alike level text f h = ground arith

pub motor-Alike :
    (on : Bool) (f : Firmware) → IsIssued f.scripts → Alike f (record f { motor_on = on })
motor-Alike on f h = ground arith

stop_belt-Alike : (f : Firmware) → IsIssued f.scripts → Alike f (stop_belt f)
unfolding readings
stop_belt-Alike f h = ground arith

pub on_jam-Alike : (step : ℕ) (f : Firmware) → IsIssued f.scripts → Alike f (on_jam step f)
unfolding on_jam
on_jam-Alike step f h = elim (Bool-cases (step == 0)) [
  | inl e ↦
      let reported = publish_en_route-Alike false f h in
      let logged = log-Alike level_info _ (publish_en_route false f) reported.issued in
      let scheduled =
        schedule-Alike jam 1 f.timings.jam_backstop _ (refl, refl, refl) logged.issued in
      rw (e, on_jam) (Alike-trans reported (Alike-trans logged scheduled))
  | inr e ↦
      let stood = motor-Alike false f h in
      let logged =
        log-Alike level_warn
          (codes
            "Belt stopped by the firmware backstop: mgmt did not react to the withdrawn run request")
          (record f { motor_on = false }) h in
      let told = stop_belt-Alike _ logged.issued in
      let stopped = Alike-trans stood (Alike-trans logged told) in
      let same = Alike-refl f h in
      elim (Bool-cases (step == 1 && f.motor_on)) [
        | inl k ↦ rw (e, k, on_jam) stopped
        | inr k ↦ rw (e, k, on_jam) same
      ]
]

pub exit_hold_tick-Alike :
    (t : Tick) (f : Firmware) → t.script ≡ exit_hold → IsIssued f.scripts → Alike f (on_tick t f)
unfolding on_tick
exit_hold_tick-Alike t f e h =
    let begun = begin-Alike request_run 0 0 f (refl, refl, refl) h in
    let same = Alike-refl f h in ground (arith, e, begun, same)

pub request_run_tick-Alike :
    (t : Tick) (f : Firmware) → t.script ≡ request_run → IsIssued f.scripts → Alike f (on_tick t f)
unfolding on_tick
request_run_tick-Alike t f e h =
    let reported = publish_en_route-Alike true f h in
    let same = Alike-refl f h in ground (arith, e, reported, same)
