-- ===== src/Wire/Noise/Handshake.antt =====
-- internal/wire/noise.go: `NewNoiseClientFramer` and `NewNoiseServerFramer`, over the handshake states of
-- github.com/flynn/noise, which are a parameter.
pub mod Agreement
use go_aioesphomeapi.Base.{
  ◌>>=◌, ◌>>◌, ℕ, Bool, true, false, not, ◌&&◌, ◌||◌, Option, none, some, [], ◌∷◌, ◌++◌, ltb, leb,
  ◌==◌, if◌then◌else◌, length, drop, Bytes, bytes_equal, byte_at, ℤ, Result, refuse, map_err, ok,
  err,
}
use go_aioesphomeapi.Wire.Io.{IoError, WireError, read_full}
use go_aioesphomeapi.Wire.Noise.{
  write_noise_packet, read_noise_packet, Cipher, NoiseFramer, noise_limit,
}
use go_aioesphomeapi.Wire.Noise.Rejection.{sanitize_noise_rejection}

-- What the code uses of a handshake state: `NewHandshakeState` for the pattern NNpsk0 with the
-- prologue and the cipher suite that `handshakeState` names, for one end's randomness, the initiator's
-- end or not, and a key; and `WriteMessage` and `ReadMessage` with an empty payload. The last message
-- gives the two cipher states.
pub record NoiseLibrary : Type 1 where
  pub HandshakeState : Type 0
  pub new_handshake_state : ℕ → Bool → Bytes → Option HandshakeState
  pub write_message : HandshakeState → Option (HandshakeState × Bytes × Option (Cipher × Cipher))
  pub read_message : HandshakeState → Bytes → Option (HandshakeState × Option (Cipher × Cipher))

-- The failures: a bad key, and what `ErrNoiseHandshake` wraps, by the step. A rejection keeps its text.
pub data NoiseError : Type 0 where
  noise_key peer_name : NoiseError
  initialize_state create_message authenticate_message incomplete_state : NoiseError
  server_name_packet unterminated_name handshake_packet client_preamble : NoiseError
  read_packet write_packet : WireError → NoiseError
  read_preamble : IoError → NoiseError
  key_rejected : (reason : Bytes) → NoiseError

-- `bytes.IndexByte` of zero: the bytes before it, if it is there.
unfoldable pub until_zero : Bytes → Option Bytes
until_zero [] = none
until_zero (b ∷ bs) =
    let rest = until_zero bs in
    if b == 0 then some [] else elim rest [ none ↦ none | some name ↦ some (b ∷ name) ]

abbrev pub from_option {ℓ κ} : {E : Type ℓ} {A : Type κ} → E → Option A → Result E A
from_option e none = err e
from_option e (some a) = ok a

module _ (library : NoiseLibrary) where
  -- The client's part up to its first message: its state, and the bytes that it has written.
  unfoldable pub client_begin : ℕ → Bytes → Result NoiseError (library.HandshakeState × Bytes)
  client_begin seed psk = do
    refuse (not (length psk == 32)) noise_key
    state ← from_option initialize_state (library.new_handshake_state seed true psk)
    (next, first, ciphers) ← from_option create_message (library.write_message state)
    packet ← map_err write_packet (write_noise_packet (0 ∷ first))
    ok (next, 1 ∷ 0 ∷ 0 ∷ packet)

  -- What the client makes of the server's name packet.
  unfoldable pub check_server_name : Bytes → Bytes → Result NoiseError Bytes
  unfolding until_zero
  check_server_name expected hello = do
    refuse (ltb (length hello) 2 || not (byte_at hello 0 == 1)) server_name_packet
    name ← from_option unterminated_name (until_zero (drop 1 hello))
    refuse (not (length expected == 0) && not (bytes_equal name expected)) peer_name
    ok name

  -- What the client makes of the server's message.
  unfoldable pub check_response : Bytes → Bytes → Result NoiseError Bytes
  unfolding sanitize_noise_rejection
  check_response psk response = do
    refuse (leb 1 (length response) && (byte_at response 0 == 1))
        (key_rejected (sanitize_noise_rejection (drop 1 response) psk))
    refuse (ltb (length response) 2 || not (byte_at response 0 == 0)) handshake_packet
    ok (drop 1 response)

  -- The rest of the client's part, on what the server sends: the framer, and the bytes left.
  unfoldable pub client_finish :
      Bytes
      → Bytes
      → ℤ
      → library.HandshakeState
      → IoError
      → Bytes
      → Result NoiseError (NoiseFramer × Bytes)
  client_finish psk expected max_frame state last bs = do
    (hello, bs₁) ← map_err read_packet (read_noise_packet last bs)
    server_name ← check_server_name expected hello
    (response, bs₂) ← map_err read_packet (read_noise_packet last bs₁)
    message ← check_response psk response
    (next, ciphers) ← from_option authenticate_message (library.read_message state message)
    (encrypt, decrypt) ← from_option incomplete_state ciphers
    ok (
      record {
        encrypt = encrypt;
        decrypt = decrypt;
        sent = 0;
        received = 0;
        max_frame = noise_limit max_frame;
      },
      bs₂,
    )

  -- `NewNoiseServerFramer`, on what the client sends: the bytes that it has written, the framer, and the
  -- bytes left.
  unfoldable pub serve_handshake :
      ℕ → Bytes → Bytes → ℤ → IoError → Bytes → Result NoiseError (Bytes × NoiseFramer × Bytes)
  serve_handshake seed psk name max_frame last bs = do
    refuse (not (length psk == 32)) noise_key
    (prefix, bs₁) ← map_err read_preamble (read_full last 3 bs)
    refuse (not (bytes_equal prefix (1 ∷ 0 ∷ 0 ∷ []))) client_preamble
    state ← from_option initialize_state (library.new_handshake_state seed false psk)
    (request, bs₂) ← map_err read_packet (read_noise_packet last bs₁)
    refuse (ltb (length request) 2 || not (byte_at request 0 == 0)) handshake_packet
    (ready, early) ← from_option authenticate_message (library.read_message state (drop 1 request))
    hello ← map_err write_packet (write_noise_packet (1 ∷ (name ++ (0 ∷ 0 ∷ []))))
    (done, response, ciphers) ← from_option create_message (library.write_message ready)
    (decrypt, encrypt) ← from_option incomplete_state ciphers
    answer ← map_err write_packet (write_noise_packet (0 ∷ response))
    ok (
      hello ++ answer,
      record {
        encrypt = encrypt;
        decrypt = decrypt;
        sent = 0;
        received = 0;
        max_frame = noise_limit max_frame;
      },
      bs₂,
    )
