-- ===== src/Wire/Noise.antt =====
-- internal/wire/noise.go: packets and encrypted frames. The ciphers of github.com/flynn/noise are a
-- parameter; what the framing relies on of them is `IsAead`.
pub mod Packets
pub mod Frames
pub mod Rejection
pub mod Handshake
use go_aioesphomeapi.Base.{
  ℕ, zero, suc, ◌+◌, ◌*◌, ◌-◌, ◌≤◌, ◌<◌, ◌≡◌, Bool, true, false, ◌||◌, List, [], ◌∷◌, ◌++◌, ltb,
  not, ◌==◌, if◌then◌else◌, Bytes, length, drop, be16, byte_at, u16_at, Option, none, some, Result,
  ℤ, pos, negsuc, ok, err, ◌>>=◌, ◌>>◌, refuse, map_err,
}
use go_aioesphomeapi.Wire.Io.{
  IoError, WireError, io, closed, malformed, malformed_by, frame_too_large, message_type,
  noise_preamble, noise_length, noise_payload, noise_cipher, noise_frame, max_noise_packet_size,
  read_full,
}
use go_aioesphomeapi.Wire.Plain.{Frame}

-- `writeNoisePacket`: the three bytes of the header and the payload, which go out by two calls of
-- `writeFull`.
unfoldable pub write_noise_packet : Bytes → Result WireError Bytes
write_noise_packet payload =
    if ltb max_noise_packet_size (length payload)
    then err frame_too_large
    else ok (1 ∷ (be16 (length payload) ++ payload))

-- `readNoisePacket`.
unfoldable pub read_noise_packet : IoError → Bytes → Result WireError (Bytes × Bytes)
read_noise_packet last bs = do
  (header, bs₁) ← map_err io (read_full last 3 bs)
  refuse (not (byte_at header 0 == 1)) (malformed noise_preamble)
  refuse (u16_at header 1 == 0) (malformed noise_length)
  map_err (malformed_by noise_payload) (read_full last (u16_at header 1) bs₁)

-- One direction of a session: `Encrypt` and `Decrypt` of a cipher state, at its nonce.
pub record Cipher : Type 0 where
  pub seal : ℕ → Bytes → Option Bytes
  pub unseal : ℕ → Bytes → Option Bytes

-- ChaCha20-Poly1305 as the library documents it: what is sealed under a nonce is opened under it, the
-- text grows by a tag of 16 bytes, and sealing fails only past the last nonce.
pub record IsAead (c : Cipher) (max_nonce : ℕ) : Type 0 where
  pub opens : (n : ℕ) (p t : Bytes) → c.seal n p ≡ some t → c.unseal n t ≡ some p
  pub tags : (n : ℕ) (p t : Bytes) → c.seal n p ≡ some t → length t ≡ length p + 16
  pub seals : (n : ℕ) (p : Bytes) → n ≤ max_nonce → (t : Bytes) × (c.seal n p ≡ some t)

-- `noiseFramer`, with the two nonces that the cipher states keep.
pub record NoiseFramer : Type 0 where
  pub encrypt : Cipher
  pub decrypt : Cipher
  pub sent : ℕ
  pub received : ℕ
  pub max_frame : ℕ

abbrev pub noise_max : ℕ
noise_max = max_noise_packet_size - 20

-- The limit that `NewNoiseClientFramer` and `NewNoiseServerFramer` set.
unfoldable pub noise_limit : ℤ → ℕ
noise_limit (negsuc n) = noise_max
noise_limit (pos n) = if n == 0 || ltb noise_max n then noise_max else n

-- The plaintext of a frame.
abbrev pub noise_plain : Frame → Bytes
noise_plain f = be16 f.kind ++ (be16 (length f.payload) ++ f.payload)

-- `(*noiseFramer).WriteFrame`: the framer afterwards, and the bytes for the connection.
unfoldable pub noise_write : NoiseFramer → Frame → NoiseFramer × Result WireError Bytes
noise_write f frame =
    if ltb 65535 frame.kind
    then (f, err message_type)
    else if ltb f.max_frame (length frame.payload)
    then (f, err frame_too_large)
    else elim (f.encrypt.seal f.sent (noise_plain frame)) [
      | none ↦ (f, err closed)
      | some ciphertext ↦ (record f { sent = f.sent + 1 }, write_noise_packet ciphertext)
    ]

-- What `ReadFrame` makes of a decrypted text.
unfoldable pub noise_unpack : ℕ → Bytes → Result WireError Frame
noise_unpack max_frame plain = do
  refuse (ltb (length plain) 4) (malformed noise_frame)
  refuse (not (u16_at plain 2 == length plain - 4) || ltb max_frame (u16_at plain 2))
      (malformed noise_frame)
  ok (record { kind = u16_at plain 0; payload = drop 4 plain })

-- `(*noiseFramer).ReadFrame`: the framer afterwards, and the frame with the bytes that stay in the
-- stream.
unfoldable pub noise_read :
    NoiseFramer → IoError → Bytes → NoiseFramer × Result WireError (Frame × Bytes)
noise_read f last bs = elim (read_noise_packet last bs) [
  | err e ↦ (f, err e)
  | ok (ciphertext, rest) ↦ elim (f.decrypt.unseal f.received ciphertext) [
    | none ↦ (f, err (malformed noise_cipher))
    | some plain ↦ (
      record f { received = f.received + 1 },
      noise_unpack f.max_frame plain >>= λ frame. ok (frame, rest),
    )
  ]
]

-- A run of frames, each written, and the reads that take them from the stream.
unfoldable pub noise_write_all : NoiseFramer → List Frame → NoiseFramer × Result WireError Bytes
noise_write_all f [] = (f, ok [])
noise_write_all f (x ∷ xs) =
    let (f₁, first) = noise_write f x in
    let (f₂, others) = noise_write_all f₁ xs in
    elim first [ err e ↦ (f₁, err e) | ok bytes ↦ (f₂, others >>= λ more. ok (bytes ++ more)) ]

unfoldable pub noise_read_all :
    ℕ → NoiseFramer → IoError → Bytes → NoiseFramer × Result WireError (List Frame × Bytes)
noise_read_all zero f last bs = (f, ok ([], bs))
noise_read_all (suc n) f last bs =
    let (f₁, first) = noise_read f last bs in
    elim first [
      | err e ↦ (f₁, err e)
      | ok (x, rest) ↦
          let (f₂, others) = noise_read_all n f₁ last rest in
          (f₂, others >>= λ found. ok (x ∷ found.0, found.1))
    ]
