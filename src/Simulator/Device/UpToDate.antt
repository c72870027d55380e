-- ===== src/Simulator/Device/UpToDate.antt =====
-- simulator/simulator.go: a subscriber's view, the states that were sent to a session, replayed, against the device's own.
use go_aioesphomeapi.Base.{
  ◌≡◌, refl, ap, ◌∙◌, inl, inr, true, List, [], ◌∷◌, ◌++◌, arith, Option-cases, ℕ, false, none,
  append-nil, Bool-cases, List-cases, Bytes, ℤ, Bool, if◌then◌else◌,
}
use go_aioesphomeapi.Messages.{Message, list_entities_done_response}
use go_aioesphomeapi.Messages.Kinds.{message_id}
use go_aioesphomeapi.Simulator.Network.{Armed}
use go_aioesphomeapi.Simulator.States.{
  StateIdentity, lookup_state, States, no_states, store_state, state_identity_of, state_snapshot,
}
use go_aioesphomeapi.Simulator.States.Snapshot.{
  store_all, IsWellFormed, lookup-store_all, last_state-snapshot,
}
use go_aioesphomeapi.Simulator.Device.{
  Sent, Session, write_sent, send_message, message, raw, FaultTrigger, Fault, send_each,
  trigger_fault, Device, serve_states, after_initial_states, same_trigger, NetworkFault,
  trigger_network,
}

-- The messages of a session's log.
unfoldable pub messages_of : List Sent → List Message
messages_of [] = []
messages_of (message m ∷ sent) = m ∷ messages_of sent
messages_of (raw id payload ∷ sent) = messages_of sent

-- What a subscriber holds that keeps the last state of each entity.
unfoldable pub view_of : Session → States
view_of s = store_all (messages_of s.sent) no_states

-- The subscriber holds, of every entity, the state that the device holds.
pub record IsUpToDate (states : States) (s : Session) : Type 0 where
  pub same :
      (i : StateIdentity) → lookup_state i (view_of s).current ≡ lookup_state i states.current

store_all-append :
    (xs ys : List Message) (s : States) → store_all (xs ++ ys) s ≡ store_all ys (store_all xs s)
unfolding store_all
store_all-append [] ys s = refl
store_all-append (x ∷ xs) ys s = store_all-append xs ys (store_state x s)

pub messages_of-append :
    (xs ys : List Sent) → messages_of (xs ++ ys) ≡ messages_of xs ++ messages_of ys
unfolding messages_of
messages_of-append [] ys = refl
messages_of-append (message m ∷ xs) ys = ap (◌∷◌ m) (messages_of-append xs ys)
messages_of-append (raw id payload ∷ xs) ys = messages_of-append xs ys

write_sent-sent :
    (frame : Sent) (s : Session)
    → (write_sent frame s).1 ≡ true
    → (write_sent frame s).0.sent ≡ s.sent ++ (frame ∷ [])
unfolding write_sent
write_sent-sent frame s h = elim (List-cases s.writes) [
  | inl e ↦ absurd (ground (arith, e))
  | inr (true, rest, e) ↦ ground (arith, e)
  | inr (false, rest, e) ↦ absurd (ground (arith, e))
]

write_sent-failed :
    (frame : Sent) (s : Session)
    → (write_sent frame s).1 ≡ false
    → (write_sent frame s).0.sent ≡ s.sent
unfolding write_sent
write_sent-failed frame s h = elim (List-cases s.writes) [
  | inl e ↦ ground (arith, e)
  | inr (true, rest, e) ↦ absurd (ground (arith, e))
  | inr (false, rest, e) ↦ ground (arith, e)
]

send_message-sent :
    (m : Message) (s : Session)
    → (send_message m s).1 ≡ true
    → (send_message m s).0.sent ≡ s.sent ++ (message m ∷ [])
unfolding send_message
send_message-sent m s h = elim (Option-cases (message_id m)) [
  | inl e ↦ absurd (ground (arith, e))
  | inr (id, e) ↦ ground (arith, e, write_sent-sent (message m) s)
]

send_message-failed :
    (m : Message) (s : Session) → (send_message m s).1 ≡ false → (send_message m s).0.sent ≡ s.sent
unfolding send_message
send_message-failed m s h = elim (Option-cases (message_id m)) [
  | inl e ↦ ground (arith, e)
  | inr (id, e) ↦ ground (arith, e, write_sent-failed (message m) s)
]

pub view-send_message :
    (m : Message) (s : Session)
    → (send_message m s).1 ≡ true
    → view_of (send_message m s).0 ≡ store_state m (view_of s)
unfolding view_of
view-send_message m s h =
    ap (λ (sent : List Sent). store_all (messages_of sent) no_states) (send_message-sent m s h)
    ∙ ap (λ (ms : List Message). store_all ms no_states) (messages_of-append s.sent _)
    ∙ store_all-append (messages_of s.sent) _ no_states
    ∙ (unfold messages_of store_all in refl)

view-send_stateless :
    (m : Message) (s : Session)
    → state_identity_of m ≡ none
    → view_of (send_message m s).0 ≡ view_of s
view-send_stateless m s h = elim (Bool-cases (send_message m s).1) [
  | inl went ↦ view-send_message m s went ∙ (unfold store_state in ground (arith, h))
  | inr failed ↦
      unfold view_of in
      ap (λ (sent : List Sent). store_all (messages_of sent) no_states)
        (send_message-failed m s failed)
]

view-write_raw :
    (id : ℕ) (payload : Bytes) (s : Session) → view_of (write_sent (raw id payload) s).0 ≡ view_of s
view-write_raw id payload s = elim (Bool-cases (write_sent (raw id payload) s).1) [
  | inl went ↦
      unfold view_of in
      ap (λ (sent : List Sent). store_all (messages_of sent) no_states)
        (write_sent-sent (raw id payload) s went)
      ∙ ap (λ (ms : List Message). store_all ms no_states)
          (messages_of-append s.sent _ ∙ (unfold messages_of in append-nil (messages_of s.sent)))
  | inr failed ↦
      unfold view_of in
      ap (λ (sent : List Sent). store_all (messages_of sent) no_states)
        (write_sent-failed (raw id payload) s failed)
]

view-send_done :
    (s : Session)
    → view_of (send_each (list_entities_done_response ∷ list_entities_done_response ∷ []) s).0
      ≡ view_of s
unfolding send_each
view-send_done s = ground (
  arith,
  view-send_stateless list_entities_done_response s (unfold state_identity_of in refl),
  view-send_stateless list_entities_done_response (send_message list_entities_done_response s).0
      (unfold state_identity_of in refl),
)

-- A fault sends no state.
view-trigger_fault :
    (trigger : FaultTrigger) (faults : List Fault) (s : Session)
    → view_of (trigger_fault trigger faults s).0 ≡ view_of s
unfolding trigger_fault
view-trigger_fault trigger [] s = refl
view-trigger_fault trigger (fault ∷ faults) s = ground (
  arith,
  view-trigger_fault trigger faults s,
  view-write_raw 8 (128 ∷ []) s,
  view-write_raw 65000 [] s,
  view-trigger_fault trigger faults (write_sent (raw 65000 []) s).0,
  view-send_done s,
  view-trigger_fault trigger faults
      (send_each (list_entities_done_response ∷ list_entities_done_response ∷ []) s).0,
)

armed_sent :
    (b : Bool) (a : Armed) (s : Session) → (if b then record s { armed = a } else s).sent ≡ s.sent
armed_sent true a s = refl
armed_sent false a s = refl

trigger_network_sent :
    (now : ℤ) (trigger : FaultTrigger) (faults : List NetworkFault) (s : Session)
    → (trigger_network now trigger faults s).sent ≡ s.sent
unfolding trigger_network
trigger_network_sent now trigger [] s = refl
trigger_network_sent now trigger (fault ∷ faults) s =
    trigger_network_sent now trigger faults _ ∙ armed_sent (same_trigger fault.trigger trigger) _ s

-- Arming a network action sends nothing.
view-trigger_network :
    (now : ℤ) (trigger : FaultTrigger) (faults : List NetworkFault) (s : Session)
    → view_of (trigger_network now trigger faults s) ≡ view_of s
unfolding view_of
view-trigger_network now trigger faults s =
    ap (λ (sent : List Sent). store_all (messages_of sent) no_states)
      (trigger_network_sent now trigger faults s)

view-send_each :
    (ms : List Message) (s : Session)
    → (send_each ms s).1 ≡ true
    → view_of (send_each ms s).0 ≡ store_all ms (view_of s)
unfolding send_each store_all
view-send_each [] s h = refl
view-send_each (m ∷ ms) s h =
    ground (arith, view-send_each ms (send_message m s).0, view-send_message m s)

-- Whatever the subscriber already holds is about entities of which the device has a state.
abbrev pub IsKnown : States → Session → Type 0
IsKnown states s =
    (i : StateIdentity)
    → lookup_state i states.current ≡ none
    → lookup_state i (view_of s).current ≡ none

serve_states-view :
    (d : Device) (s : Session)
    → (serve_states d s).2 ≡ true
    → view_of (serve_states d s).1 ≡ store_all (state_snapshot d.states) (view_of s)
unfolding serve_states
serve_states-view d s h = ground (
  arith,
  view-send_each (state_snapshot d.states) (record s { subscribed = true }),
  view-trigger_fault after_initial_states d.faults begun,
  view-trigger_network d.now after_initial_states d.network
      (trigger_fault after_initial_states d.faults begun).0,
  same,
)
  where
    begun : Session
    begun = (send_each (state_snapshot d.states) (record s { subscribed = true })).0

    same : view_of (record s { subscribed = true }) ≡ view_of s
    same = unfold view_of in refl

-- On a device with well-formed states a session that goes on after its subscription holds, of
-- every entity, the state that the device holds, if all it held before was about entities of which
-- the device has a state.
pub serve_states-IsUpToDate :
    (d : Device) (s : Session)
    → IsWellFormed d.states
    → IsKnown d.states s
    → (serve_states d s).2 ≡ true
    → IsUpToDate d.states (serve_states d s).1
serve_states-IsUpToDate d s w k h = record {
  same = λ i.
      ap (λ (v : States). lookup_state i v.current) (serve_states-view d s h)
      ∙ ground (
        arith,
        lookup-store_all i (state_snapshot d.states) (view_of s),
        last_state-snapshot i d.states w,
        k i,
      );
}
