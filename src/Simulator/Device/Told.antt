-- ===== src/Simulator/Device/Told.antt =====
-- simulator/simulator.go: what the subscribers are told by the timeline, against the states of the device.
use go_aioesphomeapi.Base.{
  ℕ, suc, ◌+◌, ◌≤◌, ◌≡◌, refl, sym, ap, ◌∙◌, inl, inr, ◌⊎◌, Bool, true, none, some, List, [], ◌∷◌,
  ◌++◌, arith, if◌then◌else◌, Option-cases, Bool-cases, List-cases, length, drop, All, ℤ, int_ltb,
  Table,
}
use mathlib.Core.Path.{subst}
use go_aioesphomeapi.Messages.{Message}
use go_aioesphomeapi.Messages.Kinds.{message_id}
use go_aioesphomeapi.Simulator.States.{
  StateIdentity, same_identity, lookup_state, States, store_state, state_identity_of,
}
use go_aioesphomeapi.Simulator.States.Snapshot.{last_state, lookup-store_state, or_else}
use go_aioesphomeapi.Simulator.Network.{unarmed}
use go_aioesphomeapi.Simulator.Device.{
  Sent, StateEvent, Session, Device, write_sent, send_message, message,
}
use go_aioesphomeapi.Simulator.Device.Timeline.{
  deliver_to, is_subscribed, commit_state, advance_events, advance_timeline,
}
use go_aioesphomeapi.Simulator.Device.UpToDate.{messages_of, messages_of-append}

-- Of every entity, the last state that the session was sent is the one that the device holds.
abbrev pub IsTold : States → Session → Type 0
IsTold states s =
    (i : StateIdentity) → last_state i (messages_of s.sent) ≡ lookup_state i states.current

-- The connection takes the next `n` writes.
pub record Takes (n : ℕ) (s : Session) : Type 0 where
  pub enough : n ≤ length s.writes
  pub all_taken : All (λ (w : Bool). w ≡ true) s.writes

abbrev pub AllTold : States → Table Session → Type 0
AllTold states sessions =
    All (λ (e : ℕ × Session). e.1.subscribed ≡ true → IsTold states e.1) sessions

abbrev pub Ready : ℕ → States → Table Session → Type 0
Ready n states sessions =
    All (λ (e : ℕ × Session). e.1.subscribed ≡ true → IsTold states e.1 × Takes n e.1) sessions

last_state-append :
    (i : StateIdentity) (ms : List Message) (m : Message)
    → last_state i (ms ++ (m ∷ []))
      ≡ or_else
          (elim (state_identity_of m) [
            | none ↦ none
            | some j ↦ if same_identity j i then some m else none
          ])
          (last_state i ms)
unfolding last_state
last_state-append i [] m = ground arith
last_state-append i (x ∷ ms) m = ground (arith, last_state-append i ms m)

-- A state has an ID.
identity_needs_id : (m : Message) → message_id m ≡ none → state_identity_of m ≡ none
unfolding message_id state_identity_of
identity_needs_id m e = ground (arith, e)

-- What a send does to a session whose connection takes the write.
abbrev TakenBy : ℕ → Message → Session → Session → Type 0
TakenBy n m s s' =
    Takes n s'
    × (s'.subscribed ≡ s.subscribed)
    × (((message_id m ≡ none) × (s'.sent ≡ s.sent)) ⊎ (s'.sent ≡ s.sent ++ (message m ∷ [])))

send_message-no_id : (m : Message) (s : Session) → message_id m ≡ none → (send_message m s).0 ≡ s
unfolding send_message
send_message-no_id m s e = ground (arith, e)

abbrev after_write : Message → Session → List Bool → Session
after_write m s rest = record s {
  armed = unarmed;
  writes = rest;
  sent = s.sent ++ (message m ∷ []);
}

send_message-taken :
    (m : Message) (s : Session) (id : ℕ) (rest : List Bool)
    → message_id m ≡ some id
    → s.writes ≡ true ∷ rest
    → (send_message m s).0 ≡ after_write m s rest
unfolding send_message write_sent
send_message-taken m s id rest e w = ground (arith, e, w)

send-TakenBy :
    (n : ℕ) (m : Message) (s : Session) → Takes (suc n) s → TakenBy n m s (send_message m s).0
send-TakenBy n m s t = elim (Option-cases (message_id m)) [
  | inl e ↦
      subst (TakenBy n m s) (sym (send_message-no_id m s e))
        (record { enough = omega (arith, t.enough); all_taken = t.all_taken }, refl, inl (e, refl))
  | inr (id, e) ↦ elim (List-cases s.writes) [
    | inl w ↦ absurd (ground (arith, t.enough, w))
    | inr (b, rest, w) ↦
        let (taken, all_rest) = subst (All (λ (x : Bool). x ≡ true)) w t.all_taken in
        let w' : s.writes ≡ true ∷ rest = w ∙ ap (λ (x : Bool). x ∷ rest) taken in
        subst (TakenBy n m s) (sym (send_message-taken m s id rest e w'))
          (record { enough = ground (arith, t.enough, w); all_taken = all_rest }, refl, inr refl)
  ]
]

TakenBy-IsTold :
    (n : ℕ) (m : Message) (states : States) (s s' : Session)
    → TakenBy n m s s'
    → IsTold states s
    → IsTold (store_state m states) s'
TakenBy-IsTold n m states s s' (t, _, inl (e, same)) told i =
    let k = lookup-store_state i m states in
    let plain = identity_needs_id m e in
    let old = told i in
    ap (λ (l : List Sent). last_state i (messages_of l)) same ∙ ground (arith, k, plain, old)
TakenBy-IsTold n m states s s' (t, _, inr grown) told i =
    let k = lookup-store_state i m states in
    let l = last_state-append i (messages_of s.sent) m in
    let old = told i in
    let one : messages_of (message m ∷ []) ≡ m ∷ [] = unfold messages_of in refl in
    ap (λ (l : List Sent). last_state i (messages_of l)) grown
    ∙ ap (last_state i)
        (messages_of-append s.sent (message m ∷ []) ∙ ap (◌++◌ (messages_of s.sent)) one)
    ∙ ground (arith, k, l, old)

deliver-Ready :
    (n : ℕ) (m : Message) (states : States) (sessions : Table Session)
    → Ready (suc n) states sessions
    → Ready n (store_state m states) (deliver_to is_subscribed m sessions)
unfolding deliver_to
deliver-Ready n m states [] h = tt
deliver-Ready n m states ((k, s) ∷ rest) (ready, later) = (one, deliver-Ready n m states rest later)
  where
    Goal : Session → Type 0
    Goal s' = s'.subscribed ≡ true → IsTold (store_state m states) s' × Takes n s'

    one : Goal (if s.subscribed then (send_message m s).0 else s)
    one = elim (Bool-cases s.subscribed) [
      | inl on ↦
          let (told, takes) = ready on in
          let t = send-TakenBy n m s takes in
          let sent : (if s.subscribed then (send_message m s).0 else s) ≡ (send_message m s).0 =
            ground (arith, on) in
          subst Goal (sym sent)
            (λ _. (TakenBy-IsTold n m states s (send_message m s).0 t told, t.0))
      | inr off ↦
          let kept : (if s.subscribed then (send_message m s).0 else s) ≡ s = ground (arith, off) in
          subst Goal (sym kept) (λ on. absurd (ground (arith, on, off)))
    ]

Ready-AllTold :
    (n : ℕ) (states : States) (sessions : Table Session)
    → Ready n states sessions
    → AllTold states sessions
Ready-AllTold n states [] h = tt
Ready-AllTold n states (x ∷ rest) (h, later) = (λ on. (h on).0, Ready-AllTold n states rest later)

advance_events-AllTold :
    (now : ℤ) (events : List StateEvent) (d : Device)
    → Ready (length events) d.states d.connections
    → AllTold (advance_events now events d).states (advance_events now events d).connections
unfolding advance_events
advance_events-AllTold now [] d h = Ready-AllTold 0 d.states d.connections h
advance_events-AllTold now (event ∷ events) d h = elim (Bool-cases (int_ltb now event.at)) [
  | inl early ↦ rw early (Ready-AllTold (length (event ∷ events)) d.states d.connections h)
  | inr due ↦
      let next = commit_state event.state (record d { timeline_index = d.timeline_index + 1 }) in
      let k = deliver-Ready (length events) event.state d.states d.connections h in
      let ready : Ready (length events) next.states next.connections = unfold commit_state in k in
      rw due (advance_events-AllTold now events next ready)
]

-- When every subscribed session was sent, as the last state of each entity, the state that the
-- device holds, and its connection takes as many writes as the timeline has events left, then the
-- same holds of every subscribed session after the timeline is advanced to any time.
pub advance_timeline-AllTold :
    (now : ℤ) (d : Device)
    → Ready (length (drop d.timeline_index d.state_timeline)) d.states d.connections
    → AllTold (advance_timeline now d).states (advance_timeline now d).connections
unfolding advance_timeline
advance_timeline-AllTold now d h =
    advance_events-AllTold now (drop d.timeline_index d.state_timeline) d h
