-- ===== src/Client/Hello.antt =====
-- client.go: the hello exchange, and the transport policy of `DialWithContext`.
pub mod Accepts
use go_aioesphomeapi.Base.{
  ℕ, Bool, true, false, not, ◌&&◌, ◌||◌, List, [], ◌∷◌, Bytes, bytes_equal, ℤ, pos, Option, none,
  some, Result, ok, err, ◌==◌, is_not_positive, if◌then◌else◌,
}
use go_aioesphomeapi.Messages.{Message, HelloResponse, hello_request, hello_response}
use go_aioesphomeapi.Wire.Io.{WireError, default_max_frame_size}
use go_aioesphomeapi.Wire.Plain.{Frame}
use go_aioesphomeapi.Client.State.{
  Client, ClientError, hello_send, hello_read, hello_id, hello_decode, hello_type, hello_major,
  hello_peer_name,
}
use go_aioesphomeapi.Client.Send.{Codec, Writes, decode, send}

-- The checks on the response, and the fields that the client keeps.
unfoldable pub accept_hello : Bytes → Client → Message → Client × Option ClientError
unfolding bytes_equal
accept_hello expected_name c (hello_response r) =
    if not (r.api_version_major == 1)
    then (c, some (hello_major r.api_version_major))
    else if not (bytes_equal expected_name []) && not (bytes_equal r.name expected_name)
    then (c, some hello_peer_name)
    else (
      record c {
        api_major = r.api_version_major;
        api_minor = r.api_version_minor;
        server_info = r.server_info;
        name = r.name;
      },
      none,
    )
accept_hello expected_name c message = (c, some hello_type)

-- `hello`, given what `ReadFrame` answers after the request.
unfoldable pub hello :
    Codec → Writes → Bytes → Bytes → Result WireError Frame → Client → Client × Option ClientError
hello codec writes client_info expected_name reply c =
    let (c', failure) = send codec writes c (hello_request client_info 1 10) in
    elim failure [
      | some e ↦ (c', some (hello_send e))
      | none ↦ elim reply [
        | err e ↦ (c', some (hello_read e))
        | ok frame ↦
            if frame.kind == 2
            then elim (decode codec frame.kind frame.payload) [
              | err e ↦ (c', some (hello_decode e))
              | ok message ↦ accept_hello expected_name c' message
            ]
            else (c', some (hello_id frame.kind))
      ]
    ]

-- The part of `config` that decides how a connection is made.
pub record DialConfig : Type 0 where
  pub encryption_key : Bytes
  pub insecure_plaintext : Bool
  pub callback_queue_size : ℤ
  pub keepalive_requested : Bool
  pub keepalive_interval : ℤ
  pub keepalive_timeout : ℤ

pub data Transport : Type 0 where
  noise plaintext : Transport

pub data DialError : Type 0 where
  transport_policy keepalive_durations : DialError

-- The tests at the head of `DialWithContext`, and the framer that follows from them.
unfoldable pub dial_transport : DialConfig → Result DialError Transport
unfolding bytes_equal
dial_transport cfg =
    let keyless = bytes_equal cfg.encryption_key [] in
    if keyless && not cfg.insecure_plaintext
    then err transport_policy
    else if not keyless && cfg.insecure_plaintext
    then err transport_policy
    else if cfg.keepalive_requested
        && (is_not_positive cfg.keepalive_interval || is_not_positive cfg.keepalive_timeout)
    then err keepalive_durations
    else if not keyless
    then ok noise
    else ok plaintext

-- A queue size that is not positive is replaced.
unfoldable pub effective_queue_size : ℤ → ℕ
effective_queue_size (pos n) = if n == 0 then 256 else n
effective_queue_size _ = 256
