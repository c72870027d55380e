-- ===== src/Wire/Plain.antt =====
-- internal/wire/plain.go: the plaintext framing, a zero byte, the payload's length, the message type
-- and the payload. `io.Reader` and `io.Writer` are those of Wire/Io and Wire/Writer.
pub mod RoundTrip
pub mod Reject
use go_aioesphomeapi.Base.{
  ℕ, zero, suc, Option, none, some, ◌+◌, ◌*◌, ◌-◌, ◌^◌, Bool, true, false, ◌||◌, List, [], ◌∷◌,
  ◌++◌, ltb, leb, not, ◌==◌, if◌then◌else◌, Bytes, length, Result, ℤ, pos, negsuc, ok, err, ◌>>=◌,
  ◌>>◌, refuse, map_err,
}
use go_aioesphomeapi.Wire.Io.{
  IoError, WireError, io, malformed, malformed_by, frame_too_large, preamble, payload_length,
  message_type_field, truncated_payload, default_max_frame_size, read_byte, read_full,
}
use go_aioesphomeapi.Wire.Writer.{Outcome, Written, write_full}
use go_aioesphomeapi.Wire.Varint.{put_uvarint, read_uvarint}

-- `NewPlainFramer`: a limit that is not positive, or too large, is replaced.
unfoldable pub plain_limit : ℤ → ℕ
plain_limit (negsuc n) = default_max_frame_size
plain_limit (pos n) = if n == 0 || ltb default_max_frame_size n then default_max_frame_size else n

-- A frame as the framers hand it on: the message type and the payload.
pub record Frame : Type 0 where
  pub kind : ℕ
  pub payload : Bytes

-- `(*plainFramer).ReadFrame`: the frame, and the bytes that stay in the stream.
unfoldable pub read_frame : ℕ → IoError → Bytes → Result WireError (Frame × Bytes)
read_frame max_frame last bs = do
  (preamble_byte, bs₁) ← map_err io (read_byte last bs)
  refuse (not (preamble_byte == 0)) (malformed preamble)
  (size, bs₂) ← map_err (malformed_by payload_length) (read_uvarint last bs₁)
  refuse (ltb max_frame size) frame_too_large
  (kind, bs₃) ← map_err (malformed_by message_type_field) (read_uvarint last bs₂)
  refuse (ltb (2 ^ 32 - 1) kind) (malformed message_type_field)
  (payload, bs₄) ← map_err (malformed_by truncated_payload) (read_full last size bs₃)
  ok (record { kind = kind; payload = payload }, bs₄)

-- The buffer that `WriteFrame` fills and cuts to its length.
unfoldable pub frame_bytes : ℕ → Bytes → Bytes
frame_bytes kind payload = 0 ∷ (put_uvarint (length payload) ++ (put_uvarint kind ++ payload))

-- `(*plainFramer).WriteFrame`: the bytes for the connection, or the refusal.
unfoldable pub encode_frame : ℕ → ℕ → Bytes → Result WireError Bytes
encode_frame max_frame kind payload =
    if ltb max_frame (length payload) then err frame_too_large else ok (frame_bytes kind payload)

-- The bytes that reach the connection, and the result.
unfoldable pub write_frame : ℕ → List Outcome → ℕ → Bytes → Bytes × Result WireError Written
write_frame max_frame ws kind payload = elim (encode_frame max_frame kind payload) [
  | err e ↦ ([], err e)
  | ok bytes ↦ let (sent, end) = write_full ws bytes in (sent, ok end)
]

-- `ReadFrame` again and again, as the read loops do: the frames, and the error that ends them.
unfoldable pub read_frames : ℕ → ℕ → IoError → Bytes → List Frame × Option WireError
read_frames zero max_frame last bs = ([], none)
read_frames (suc fuel) max_frame last bs = elim (read_frame max_frame last bs) [
  | err e ↦ ([], some e)
  | ok (frame, rest) ↦
      let (frames, end) = read_frames fuel max_frame last rest in (frame ∷ frames, end)
]
