-- ===== src/Client/Read/Received.antt =====
-- client.go: what becomes of each message that `readLoop` decodes.
use go_aioesphomeapi.Base.{
  ℕ, ◌≤◌, ◌<◌, ◌≡◌, refl, sym, ◌∙◌, Bool, true, false, [], ◌∷◌, ◌++◌, Option, none, some, arith,
  inl, inr, ◌⊎◌, length, values, ltb, Bool-cases, Option-cases,
}
use mathlib.Core.Path.{subst}
use go_aioesphomeapi.Messages.{
  Message, ping_request, ping_response, disconnect_request, disconnect_response,
  device_info_response,
}
use go_aioesphomeapi.Messages.Kinds.{message_id}
use go_aioesphomeapi.Client.State.{
  Client, ClientError, peer_disconnected, event_queue_full, answer_ping, answer_disconnect,
  begin_shutdown, disconnect, close_framer, close_done, shutdown, handlers_of,
}
use go_aioesphomeapi.Client.Send.{Codec, Writes, send}
use go_aioesphomeapi.Client.Read.{
  RoundEnd, goes_on, shuts_down, call_all, deliver_direct, enqueue, receive, end_round,
}

-- The round ends the client with this reason.
abbrev pub Closed : ClientError → Client × RoundEnd → Type 0
Closed e o =
    ((end_round o).is_done ≡ true)
    × ((end_round o).connected ≡ false)
    × ((end_round o).close_reason ≡ some e)

-- The callbacks of the message's ID have been run, and the loop goes on.
abbrev pub Completed : Client → ℕ → Message → Client × RoundEnd → Type 0
Completed c id m o =
    (o.0.calls ≡ call_all (values (handlers_of c id)) m c.calls)
    × (o.0.events ≡ c.events)
    × (o.1 ≡ goes_on)

-- The message waits in the queue, or there was no room and the client is closed.
abbrev pub Queued : Client → Message → Client × RoundEnd → Type 0
Queued c m o =
    (o.0.calls ≡ c.calls)
    × (o.0.sent ≡ c.sent)
    × (((length c.events < c.queue_size) × (o.0.events ≡ c.events ++ (m ∷ [])) × (o.1 ≡ goes_on))
        ⊎ ((c.queue_size ≤ length c.events) × (o.0.events ≡ c.events) × Closed event_queue_full o))

abbrev pub Received : Client → Message → Client × RoundEnd → Type 0
Received c ping_request o =
    (o.0.events ≡ c.events)
    × (((o.0.sent ≡ ping_response ∷ c.sent) × (o.1 ≡ goes_on))
        ⊎ ((e : ClientError) × (o.0.sent ≡ c.sent) × Closed (answer_ping e) o))
Received c disconnect_request o =
    (o.0.events ≡ c.events)
    × (((o.0.sent ≡ disconnect_response ∷ c.sent) × Closed peer_disconnected o)
        ⊎ ((e : ClientError) × (o.0.sent ≡ c.sent) × Closed (answer_disconnect e) o))
Received c ping_response o = Completed c 8 ping_response o
Received c (device_info_response info) o = Completed c 10 (device_info_response info) o
Received c m o = Queued c m o

shutdown-Closed : (c : Client) (e : ClientError) → c.is_ending ≡ false → Closed e (c, shuts_down e)
unfolding end_round shutdown begin_shutdown disconnect close_framer close_done
shutdown-Closed c e h = (ground arith, ground arith, ground arith)

module _ (codec : Codec) (writes : Writes) (p : Bool) (c : Client) where
  -- What `send` leaves behind, with its error.
  abbrev Sent : Message → Client × Option ClientError → Type 0
  Sent m r =
      (r.0.events ≡ c.events)
      × (r.0.is_ending ≡ c.is_ending)
      × (((r.1 ≡ none) × (r.0.sent ≡ m ∷ c.sent))
          ⊎ ((e : ClientError) × (r.1 ≡ some e) × (r.0.sent ≡ c.sent)))

  send-Sent : (m : Message) → Sent m (send codec writes c m)
  unfolding send
  send-Sent m = elim (Option-cases (send codec writes c m).1) [
    | inl n ↦ (ground arith, ground arith, inl (n, ground (arith, n)))
    | inr (e, n) ↦ (ground arith, ground arith, inr (e, n, ground (arith, n)))
  ]

  enqueue-Queued :
      (m : Message) → c.is_done ≡ false → c.is_ending ≡ false → Queued c m (enqueue p c m)
  unfolding enqueue
  enqueue-Queued m h n = elim (Bool-cases (ltb (length c.events) c.queue_size)) [
    | inl room ↦ (ground arith, ground arith, inl (ground arith, ground arith, ground arith))
    | inr full ↦
        let closed = shutdown-Closed c event_queue_full n in
        let result : enqueue p c m ≡ (c, shuts_down event_queue_full) = ground arith in
        rw result (refl, refl, inr (ground arith, refl, closed))
  ]

  abbrev after_ping : Client
  after_ping = (send codec writes c ping_response).0

  abbrev after_disconnect : Client
  after_disconnect = (send codec writes c disconnect_response).0

  answers_ping :
      (send codec writes c ping_response).1 ≡ none
      → receive codec writes p c ping_request ≡ (after_ping, goes_on)
  unfolding receive
  answers_ping e = ground (arith, e)

  fails_ping :
      (x : ClientError)
      → (send codec writes c ping_response).1 ≡ some x
      → receive codec writes p c ping_request ≡ (after_ping, shuts_down (answer_ping x))
  unfolding receive
  fails_ping x e = ground (arith, e)

  answers_disconnect :
      (send codec writes c disconnect_response).1 ≡ none
      → receive codec writes p c disconnect_request
        ≡ (after_disconnect, shuts_down peer_disconnected)
  unfolding receive
  answers_disconnect e = ground (arith, e)

  fails_disconnect :
      (x : ClientError)
      → (send codec writes c disconnect_response).1 ≡ some x
      → receive codec writes p c disconnect_request
        ≡ (after_disconnect, shuts_down (answer_disconnect x))
  unfolding receive
  fails_disconnect x e = ground (arith, e)

  -- On an open client whose end has not begun: a ping is answered, and the loop goes on, or the
  -- client is closed because the answer failed; a request to disconnect is answered and closes the
  -- client, with the failure of the answer for its reason if there is one; a response to a ping or
  -- about the device is given to every callback of its ID, past the queue; and any other message
  -- joins the end of the queue, which had room, or the queue was full and the client is closed
  -- with that reason.
  pub receive-Received :
      (m : Message)
      → c.is_done ≡ false
      → c.is_ending ≡ false
      → Received c m (receive codec writes p c m)
  unfolding receive
  receive-Received ping_request h n =
      let (events, ending, sent) = send-Sent ping_response in
      elim sent [
        | inl (e, s) ↦
            subst (Received c ping_request) (sym (answers_ping e)) (events, inl (s, refl))
        | inr (x, e, s) ↦
            subst (Received c ping_request) (sym (fails_ping x e))
              (events, inr (x, s, shutdown-Closed after_ping (answer_ping x) (ending ∙ n)))
      ]
  receive-Received disconnect_request h n =
      let (events, ending, sent) = send-Sent disconnect_response in
      elim sent [
        | inl (e, s) ↦
            subst (Received c disconnect_request) (sym (answers_disconnect e))
              (events, inl (s, shutdown-Closed after_disconnect peer_disconnected (ending ∙ n)))
        | inr (x, e, s) ↦ subst (Received c disconnect_request) (sym (fails_disconnect x e)) (
          events,
          inr (x, s, shutdown-Closed after_disconnect (answer_disconnect x) (ending ∙ n)),
        )
      ]
  receive-Received ping_response h n = unfold deliver_direct message_id in (refl, refl, refl)
  receive-Received (device_info_response i) h n =
      unfold deliver_direct message_id in (refl, refl, refl)
  receive-Received m h n = enqueue-Queued m h n
