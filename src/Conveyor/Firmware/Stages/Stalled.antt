-- ===== src/Conveyor/Firmware/Stages/Stalled.antt =====
-- conveyor_device.go: a belt that is stopped under a brick between the sensors.
use mathlib.Core.Path.{subst}
use go_aioesphomeapi.Base.{
  ℕ, ◌≡◌, refl, sym, ap, ◌∙◌, inl, inr, Bool, true, false, List, [], ◌∷◌, arith, Option-cases,
  get_elem?,
}
use go_aioesphomeapi.Messages.{Message}
use go_aioesphomeapi.Conveyor.Scripts.{
  Script, Tick, is_current, fired, request_run, travel, capture, exit_hold, jam, bench,
}
use go_aioesphomeapi.Conveyor.Scripts.Waiting.{waiting, fired-IsIssued, Fires, get-Fires}
use go_aioesphomeapi.Conveyor.Firmware.{
  Firmware, on_fan_command, on_tick, Event, on_command, receive_tick, round, rounds, command, fires,
}
use go_aioesphomeapi.Conveyor.Firmware.Stages.{
  Stage, Advance, readings, expected, IsAt, placing, at_entry, clearing, moving, measuring,
  reaching, releasing, finished, stranded, stays, places, starts, halts, clears, strands, arrives,
  samples, measures, lifts, repeats, finishes,
}
use go_aioesphomeapi.Conveyor.Firmware.Stages.Quiet.{
  on_jam-Alike, exit_hold_tick-Alike, request_run_tick-Alike,
}
use go_aioesphomeapi.Conveyor.Firmware.Stages.Belt.{belt_off, belt_off-Stranded}
use go_aioesphomeapi.Conveyor.Firmware.Stages.Timers.{after_timer}
use go_aioesphomeapi.Conveyor.Firmware.Stages.Run.{Route, rounds-Arrived, here, next}

is_stranded : Stage → Bool
is_stranded stranded = true
is_stranded _ = false

stranded-Advance : {s r : Stage} → Advance s r → is_stranded s ≡ true → is_stranded r ≡ true
unfolding is_stranded
stranded-Advance (stays s) e = e
stranded-Advance places e = absurd cc
stranded-Advance starts e = absurd cc
stranded-Advance halts e = absurd cc
stranded-Advance clears e = absurd cc
stranded-Advance strands e = refl
stranded-Advance arrives e = absurd cc
stranded-Advance (samples l) e = absurd cc
stranded-Advance measures e = absurd cc
stranded-Advance lifts e = absurd cc
stranded-Advance repeats e = absurd cc
stranded-Advance finishes e = absurd cc

stranded-Route : {s r : Stage} → Route s r → is_stranded s ≡ true → is_stranded r ≡ true
stranded-Route (here s) e = e
stranded-Route (next a rest) e = stranded-Route rest (stranded-Advance a e)

is_stranded-≡ : (s : Stage) → is_stranded s ≡ true → s ≡ stranded
unfolding is_stranded
is_stranded-≡ stranded e = refl
is_stranded-≡ placing e = absurd cc
is_stranded-≡ at_entry e = absurd cc
is_stranded-≡ clearing e = absurd cc
is_stranded-≡ moving e = absurd cc
is_stranded-≡ (measuring k) e = absurd cc
is_stranded-≡ reaching e = absurd cc
is_stranded-≡ releasing e = absurd cc
is_stranded-≡ finished e = absurd cc

rounds-stranded : (es : List Event) (f : Firmware) → IsAt stranded f → IsAt stranded (rounds es f)
unfolding is_stranded
rounds-stranded es f h =
    let a = rounds-Arrived es stranded f h in
    subst (λ s. IsAt s (rounds es f)) (is_stranded-≡ a.stage (stranded-Route a.route refl)) a.holds

-- Only the bench counts bricks.
tick-completed :
    (r : Script) (f : Firmware) (i : ℕ) (t : Tick)
    → Fires f.scripts i t
    → t.script ≡ r
    → IsAt stranded f
    → (receive_tick t (after_timer i f)).completed ≡ f.completed
unfolding receive_tick is_current fired on_tick
tick-completed bench f i t w e h = let n = w.never bench in ground (arith, e, n, h)
tick-completed travel f i t w e h = let n = w.never travel in ground (arith, e, n, h)
tick-completed capture f i t w e h = let n = w.never capture in ground (arith, e, n, h)
tick-completed request_run f i t w e h =
    let a = request_run_tick-Alike t (after_timer i f) e (fired-IsIssued f.scripts i h.issued) in
    ground (arith, e, a.completed)
tick-completed exit_hold f i t w e h =
    let a = exit_hold_tick-Alike t (after_timer i f) e (fired-IsIssued f.scripts i h.issued) in
    ground (arith, e, a.completed)
tick-completed jam f i t w e h =
    let a = on_jam-Alike t.step (after_timer i f) (fired-IsIssued f.scripts i h.issued) in
    ground (arith, e, a.completed)

on_command-completed : (m : Message) (f : Firmware) → (on_command m f).completed ≡ f.completed
unfolding on_command on_fan_command
on_command-completed (Message.fan_command r) f = ground arith
on_command-completed _ f = refl

round-completed : (e : Event) (f : Firmware) → IsAt stranded f → (round e f).completed ≡ f.completed
unfolding round
round-completed (command m) f h = on_command-completed m f
round-completed (fires i) f h = elim (Option-cases (get_elem? f.scripts.timers i)) [
  | inl e ↦ ground (arith, e)
  | inr (t, e) ↦
      let k = tick-completed t.tick.script f i t.tick (get-Fires f.scripts i t e) refl h in
      ground (arith, e, k)
]

rounds-completed :
    (es : List Event) (f : Firmware) → IsAt stranded f → (rounds es f).completed ≡ f.completed
unfolding rounds
rounds-completed [] f h = refl
rounds-completed (e ∷ rest) f h =
    rounds-completed rest (round e f) (rounds-stranded (e ∷ []) f h) ∙ round-completed e f h

-- The bench has nothing left to do: no step of it, of the travel or of the capture waits.
pub record IsStalled (f g : Firmware) : Type 0 where
  pub completed : g.completed ≡ f.completed
  pub published : readings g.states ≡ readings f.states
  pub benching : waiting g.scripts bench ≡ []
  pub travelling : waiting g.scripts travel ≡ []
  pub capturing : waiting g.scripts capture ≡ []

-- When the controller stops a running belt under a brick that moves between the sensors, no later
-- command or timer brings that brick to the exit: from then on no bench, travel or capture timer
-- is live, no ratio is published and no brick is counted.
pub off-IsStalled :
    (f : Firmware) (es : List Event)
    → IsAt moving f
    → f.motor_on ≡ true
    → IsStalled f (rounds es (on_fan_command false f))
unfolding on_fan_command
off-IsStalled f es h on =
    let stopped : on_fan_command false f ≡ belt_off f = ground (arith, on) in
    let stood = belt_off-Stranded f h in
    let k = rounds-stranded es _ stood in
    let count = rounds-completed es _ stood in
    let held : IsStalled f (rounds es (belt_off f)) = record {
      completed = count;
      published = k.published ∙ ap expected count ∙ sym h.published;
      benching = k.benching;
      travelling = k.travelling;
      capturing = k.capturing;
    } in
    subst (λ g. IsStalled f (rounds es g)) (sym stopped) held
