-- ===== src/Wire/Noise/Handshake/Agreement.antt =====
-- internal/wire/noise.go: both ends of a handshake.
use go_aioesphomeapi.Base.{
  ℕ, ◌≤◌, ◌<◌, ◌≡◌, refl, ◌⊎◌, inl, inr, Bool, true, false, not, ◌&&◌, none, some, [], ◌∷◌, ◌++◌,
  append_assoc, arith, ltb, leb, ◌==◌, length, length-append, Bytes, bytes_equal, bytes_equal_iff,
  ℤ, pos, negsuc, ok,
}
use go_aioesphomeapi.Wire.Io.{IoError, read_full-append}
use go_aioesphomeapi.Wire.Noise.{Cipher, IsAead, NoiseFramer, noise_max, noise_limit}
use go_aioesphomeapi.Wire.Noise.Packets.{
  noise_packet, write_noise_packet_fits, read_noise_packet-packet,
}
use go_aioesphomeapi.Wire.Noise.Frames.{InStep}
use go_aioesphomeapi.Wire.Noise.Handshake.{
  NoiseLibrary, until_zero, client_begin, check_server_name, check_response, client_finish,
  serve_handshake,
}

-- What the library documents of NNpsk0 between two ends with the same key: the initiator's message is
-- accepted, the answer is accepted, and both ends are given the same two ciphers, in the same order.
pub record Exchange (library : NoiseLibrary) (client_seed server_seed : ℕ) (psk : Bytes)
    : Type 1 where
  pub client_start : library.HandshakeState
  pub client_sent : library.HandshakeState
  pub client_end : library.HandshakeState
  pub server_start : library.HandshakeState
  pub server_read : library.HandshakeState
  pub server_end : library.HandshakeState
  pub first : Bytes
  pub second : Bytes
  pub forward : Cipher
  pub backward : Cipher
  pub client_new : library.new_handshake_state client_seed true psk ≡ some client_start
  pub client_writes : library.write_message client_start ≡ some (client_sent, first, none)
  pub server_new : library.new_handshake_state server_seed false psk ≡ some server_start
  pub server_reads : library.read_message server_start first ≡ some (server_read, none)
  pub server_writes :
      library.write_message server_read ≡ some (server_end, second, some (forward, backward))
  pub client_reads :
      library.read_message client_sent second ≡ some (client_end, some (forward, backward))
  pub first_fits : (0 < length first) × (length first ≤ 65534)
  pub second_fits : (0 < length second) × (length second ≤ 65534)

abbrev end_of : Cipher → Cipher → ℤ → NoiseFramer
end_of encrypt decrypt max_frame = record {
  encrypt = encrypt;
  decrypt = decrypt;
  sent = 0;
  received = 0;
  max_frame = noise_limit max_frame;
}

-- What the client has sent when it waits, and what the server answers with.
abbrev client_bytes : Bytes → Bytes
client_bytes first = 1 ∷ 0 ∷ 0 ∷ noise_packet (0 ∷ first)

abbrev server_hello : Bytes → Bytes
server_hello name = 1 ∷ (name ++ (0 ∷ 0 ∷ []))

abbrev server_bytes : Bytes → Bytes → Bytes
server_bytes name second = noise_packet (server_hello name) ++ noise_packet (0 ∷ second)

long_enough : (bs : Bytes) → 0 < length bs → ltb (length (0 ∷ bs)) 2 ≡ false
long_enough bs h = ground arith

until_zero-append :
    (name rest : Bytes) → until_zero name ≡ none → until_zero (name ++ (0 ∷ rest)) ≡ some name
unfolding until_zero
until_zero-append [] rest h = refl
until_zero-append (x ∷ name) rest h = let k = until_zero-append name rest in ground (arith, h, k)

long_hello : (name : Bytes) → ltb (length (server_hello name)) 2 ≡ false
long_hello name = ground (arith, length-append name (0 ∷ 0 ∷ []))

and_false : (b : Bool) → (b && false) ≡ false
and_false true = refl
and_false false = refl

one_or_more : (bs : Bytes) → leb 1 (length (0 ∷ bs)) ≡ true
one_or_more bs = ground arith

response_lem :
    (library : NoiseLibrary) (psk second : Bytes)
    → 0 < length second
    → check_response library psk (0 ∷ second) ≡ ok second
unfolding check_response
response_lem library psk second h = rw (one_or_more second, long_enough second h) refl

server_name_lem :
    (library : NoiseLibrary) (name expected : Bytes)
    → until_zero name ≡ none
    → (expected ≡ []) ⊎ (expected ≡ name)
    → check_server_name library expected (server_hello name) ≡ ok name
unfolding check_server_name
server_name_lem library name expected plain wanted = elim wanted [
  | inl e ↦ rw (e, long_hello name, until_zero-append name (0 ∷ []) plain) refl
  | inr e ↦
      rw
        (
          e,
          long_hello name,
          until_zero-append name (0 ∷ []) plain,
          (bytes_equal_iff name name).1 refl,
          and_false (not (length name == 0)),
        )
        refl
]

module _ (library : NoiseLibrary) (a b : ℕ) (psk : Bytes) (e : Exchange library a b psk)
    (key : length psk ≡ 32) where
  begin_lem : client_begin library a psk ≡ ok (e.client_sent, client_bytes e.first)
  unfolding client_begin
  begin_lem =
      let packet = write_noise_packet_fits (0 ∷ e.first) (omega (arith, e.first_fits)) in
      rw (key, e.client_new, e.client_writes, packet) refl

  serve_lem :
      (name : Bytes) (max_frame : ℤ) (last : IoError) (rest : Bytes)
      → length name ≤ 65000
      → serve_handshake library b psk name max_frame last (client_bytes e.first ++ rest)
        ≡ ok (server_bytes name e.second, end_of e.backward e.forward max_frame, rest)
  unfolding serve_handshake bytes_equal
  serve_lem name max_frame last rest short =
      let preamble = read_full-append last (1 ∷ 0 ∷ 0 ∷ []) (noise_packet (0 ∷ e.first) ++ rest) in
      let request =
        read_noise_packet-packet last (0 ∷ e.first) rest (omega arith)
          (omega (arith, e.first_fits)) in
      let hello =
        write_noise_packet_fits (server_hello name)
          (omega (arith, short, length-append name (0 ∷ 0 ∷ []))) in
      let answer = write_noise_packet_fits (0 ∷ e.second) (omega (arith, e.second_fits)) in
      rw
        (
          key,
          preamble,
          e.server_new,
          request,
          long_enough e.first e.first_fits.0,
          e.server_reads,
          hello,
          e.server_writes,
          answer,
        )
        refl

  finish_lem :
      (name expected : Bytes) (max_frame : ℤ) (last : IoError) (rest : Bytes)
      → length name ≤ 65000
      → until_zero name ≡ none
      → (expected ≡ []) ⊎ (expected ≡ name)
      → client_finish library psk expected max_frame e.client_sent last
          (server_bytes name e.second ++ rest)
        ≡ ok (end_of e.forward e.backward max_frame, rest)
  unfolding client_finish
  finish_lem name expected max_frame last rest short plain wanted =
      let hello =
        read_noise_packet-packet last (server_hello name) (noise_packet (0 ∷ e.second) ++ rest)
          (omega arith) (omega (arith, short, length-append name (0 ∷ 0 ∷ []))) in
      let answer =
        read_noise_packet-packet last (0 ∷ e.second) rest (omega arith)
          (omega (arith, e.second_fits)) in
      let named = server_name_lem library name expected plain wanted in
      rw
        (
          append_assoc (noise_packet (server_hello name)) (noise_packet (0 ∷ e.second)) rest,
          hello,
          named,
          answer,
          response_lem library psk e.second e.second_fits.0,
          e.client_reads,
        )
        refl

-- The two ends after a handshake: they agree on the ciphers of both directions, at their first nonces,
-- and on the limit.
pub record Agreed (library : NoiseLibrary) (a b : ℕ) (psk name expected : Bytes) (max_frame : ℤ)
    (max_nonce : ℕ) : Type 0 where
  pub state : library.HandshakeState
  pub client_out : Bytes
  pub server_out : Bytes
  pub client : NoiseFramer
  pub server : NoiseFramer
  pub begins : client_begin library a psk ≡ ok (state, client_out)
  pub serves :
      (last : IoError) (rest : Bytes)
      → serve_handshake library b psk name max_frame last (client_out ++ rest)
        ≡ ok (server_out, server, rest)
  pub finishes :
      (last : IoError) (rest : Bytes)
      → client_finish library psk expected max_frame state last (server_out ++ rest)
        ≡ ok (client, rest)
  pub forward : InStep max_nonce client server
  pub backward : InStep max_nonce server client

noise_limit_bound : (max_frame : ℤ) → noise_limit max_frame ≤ noise_max
unfolding noise_limit
noise_limit_bound (pos n) = ground arith
noise_limit_bound (negsuc n) = omega arith

-- With the same key of 32 bytes and the same frame limit at both ends, over a library that
-- completes the exchange between them and ciphers with the documented laws, and a server name of
-- at most 65000 bytes without a zero byte that is the expected one, if one is expected: the
-- handshake succeeds at both ends, each reads exactly what the other wrote, and the framers are in
-- step in both directions.
pub handshake-Agreed :
    (library : NoiseLibrary) (a b : ℕ) (psk name expected : Bytes) (max_frame : ℤ) (max_nonce : ℕ)
    → (e : Exchange library a b psk) → length psk ≡ 32
    → length name ≤ 65000
    → until_zero name ≡ none
    → (expected ≡ []) ⊎ (expected ≡ name)
    → IsAead e.forward max_nonce
    → IsAead e.backward max_nonce
    → Agreed library a b psk name expected max_frame max_nonce
handshake-Agreed library a b psk name expected max_frame max_nonce e key short plain wanted f g =
    record {
      state = e.client_sent;
      client_out = client_bytes e.first;
      server_out = server_bytes name e.second;
      client = end_of e.forward e.backward max_frame;
      server = end_of e.backward e.forward max_frame;
      begins = begin_lem library a b psk e key;
      serves = λ last rest. serve_lem library a b psk e key name max_frame last rest short;
      finishes = λ last rest.
          finish_lem library a b psk e key name expected max_frame last rest short plain wanted;
      forward = record {
        aead = f;
        same_cipher = refl;
        same_nonce = refl;
        same_limit = refl;
        limit = noise_limit_bound max_frame;
      };
      backward = record {
        aead = g;
        same_cipher = refl;
        same_nonce = refl;
        same_limit = refl;
        limit = noise_limit_bound max_frame;
      };
    }
