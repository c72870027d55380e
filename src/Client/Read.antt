-- ===== src/Client/Read.antt =====
-- client.go: one round of `readLoop`, from a frame that the framer returned, or its error.
pub mod Received
use go_aioesphomeapi.Base.{
  ℕ, Bool, true, false, List, [], ◌∷◌, ◌++◌, none, some, Result, ok, err, ltb, length, values, ◌&&◌,
  if◌then◌else◌,
}
use go_aioesphomeapi.Messages.{
  Message, ping_request, ping_response, disconnect_request, disconnect_response,
  device_info_response,
}
use go_aioesphomeapi.Messages.Kinds.{message_id}
use go_aioesphomeapi.Wire.Io.{WireError, unknown_message}
use go_aioesphomeapi.Wire.Plain.{Frame}
use go_aioesphomeapi.Client.State.{
  Client, ClientError, peer_disconnected, event_queue_full, read_frame_failed, decode_failed,
  answer_ping, answer_disconnect, shutdown, handlers_of,
}
use go_aioesphomeapi.Client.Send.{Codec, Writes, decode, send}

-- The callbacks of a message run one after the other.
abbrev pub call_all : List ℕ → Message → List (ℕ × Message) → List (ℕ × Message)
call_all [] message log = log
call_all (token ∷ tokens) message log = call_all tokens message ((token, message) ∷ log)

-- `deliverDirect`: the completion hooks of a response, past the queue.
unfoldable pub deliver_direct : Client → Message → Client
deliver_direct c message = elim (message_id message) [
  | none ↦ c
  | some id ↦ record c { calls = call_all (values (handlers_of c id)) message c.calls }
]

-- How a round of the loop ends: the loop goes on, or returns, or returns from a call of `shutdown` with
-- a reason, which other goroutines may run beside.
pub data RoundEnd : Type 0 where
  goes_on returns : RoundEnd
  shuts_down : ClientError → RoundEnd

-- `select { case c.events <- message: case <-c.done: default: }`. With room in the queue and `done`
-- closed Go takes either branch, which `prefer_done` decides.
unfoldable pub enqueue : Bool → Client → Message → Client × RoundEnd
enqueue prefer_done c message =
    if ltb (length c.events) c.queue_size
    then if c.is_done && prefer_done then (c, returns) else (
      record c { events = c.events ++ (message ∷ []); queued = c.queued ++ (message ∷ []) },
      goes_on,
    )
    else if c.is_done
    then (c, returns)
    else (c, shuts_down event_queue_full)

-- An answer that the loop owes the peer.
abbrev answer : Codec → Writes → (ClientError → ClientError) → Client → Message → Client × RoundEnd
answer codec writes wrap c message =
    let (c', failure) = send codec writes c message in
    elim failure [ none ↦ (c', goes_on) | some e ↦ (c', shuts_down (wrap e)) ]

-- What the loop does with a decoded message.
unfoldable pub receive : Codec → Writes → Bool → Client → Message → Client × RoundEnd
receive codec writes prefer_done c ping_request = answer codec writes answer_ping c ping_response
receive codec writes prefer_done c disconnect_request =
    let (c', failure) = send codec writes c disconnect_response in
    elim failure [
      | none ↦ (c', shuts_down peer_disconnected)
      | some e ↦ (c', shuts_down (answer_disconnect e))
    ]
receive codec writes prefer_done c ping_response = (deliver_direct c ping_response, goes_on)
receive codec writes prefer_done c (device_info_response info) =
    (deliver_direct c (device_info_response info), goes_on)
receive codec writes prefer_done c message = enqueue prefer_done c message

abbrev is_unknown : WireError → Bool
is_unknown unknown_message = true
is_unknown _ = false

-- One round of the loop, up to a call of `shutdown`.
unfoldable pub read_step :
    Codec → Writes → Bool → Client → Result WireError Frame → Client × RoundEnd
read_step codec writes prefer_done c (err e) = (c, shuts_down (read_frame_failed e))
read_step codec writes prefer_done c (ok frame) = elim (decode codec frame.kind frame.payload) [
  | ok message ↦ receive codec writes prefer_done c message
  | err e ↦ if is_unknown e then (c, goes_on) else (c, shuts_down (decode_failed frame.kind e))
]

-- The call of `shutdown` that a round ends with.
unfoldable pub end_round : Client × RoundEnd → Client
unfolding shutdown
end_round (c, goes_on) = c
end_round (c, returns) = c
end_round (c, shuts_down e) = shutdown c (some e)
