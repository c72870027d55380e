-- ===== src/Client/Send.antt =====
-- client.go: `send`, over the encoder of google.golang.org/protobuf and the framer of the connection,
-- which are parameters.
use go_aioesphomeapi.Base.{ℕ, Bool, ◌∷◌, Bytes, Option, none, some, Result, ok, err, if◌then◌else◌}
use go_aioesphomeapi.Messages.{Message}
use go_aioesphomeapi.Messages.Kinds.{message_id}
use go_aioesphomeapi.Wire.Io.{WireError, malformed, protobuf_payload, unknown_message}
use go_aioesphomeapi.Client.State.{
  Client, ClientError, client_closed, identify_message, encode_message, write_message,
}

-- `proto.Marshal`, and `wire.Decode` below.
pub record Codec : Type 0 where
  pub marshal : Message → Option Bytes
  -- Whether the pinned registry has the ID, and `proto.Unmarshal` into its message.
  pub known : ℕ → Bool
  pub unmarshal : ℕ → Bytes → Option Message

-- `wire.Decode`
unfoldable pub decode : Codec → ℕ → Bytes → Result WireError Message
decode codec id payload =
    if codec.known id
    then elim (codec.unmarshal id payload) [
      | none ↦ err (malformed protobuf_payload)
      | some message ↦ ok message
    ]
    else err unknown_message

-- What `framer.WriteFrame` answers: nothing, or its error.
abbrev pub Writes : Type 0
Writes = ℕ → Bytes → Option WireError

-- `send`: the error, if any. A frame that the framer takes is logged.
unfoldable pub send : Codec → Writes → Client → Message → Client × Option ClientError
send codec writes c message =
    if c.is_done then (c, some client_closed) else elim (message_id message) [
      | none ↦ (c, some identify_message)
      | some id ↦ elim (codec.marshal message) [
        | none ↦ (c, some encode_message)
        | some payload ↦ elim (writes id payload) [
          | some e ↦ (c, some (write_message e))
          | none ↦ (record c { sent = message ∷ c.sent }, none)
        ]
      ]
    ]
