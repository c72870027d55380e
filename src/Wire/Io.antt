-- ===== src/Wire/Io.antt =====
-- internal/wire/wire.go: the limits and the error values, and what `io.Reader` gives the framers.
-- A connection that is read is the bytes that will arrive and the error that comes after them.
use go_aioesphomeapi.Base.{
  ℕ, ◌*◌, ◌≡◌, Bool, true, false, ◌∷◌, [], ◌++◌, arith, leb, if◌then◌else◌, Bytes, length,
  length-append, take, drop, take-append, drop-append, take-append-drop, length-take, Result, ok,
  err,
}

-- Errors of the packages io and encoding/binary, and those of a connection.
pub data IoError : Type 0 where
  eof unexpected_eof varint_overflow closed_pipe deadline_exceeded : IoError
  fault : ℕ → IoError

-- Where a frame was found to be malformed: the text that the code wraps round its cause.
pub data Stage : Type 0 where
  preamble payload_length message_type_field truncated_payload : Stage
  noise_preamble noise_length noise_payload noise_cipher noise_frame : Stage
  protobuf_payload : Stage

-- The error values of wire.go, with the cause that `%w` keeps.
pub data WireError : Type 0 where
  closed : WireError
  malformed : Stage → WireError
  malformed_by : Stage → IoError → WireError
  frame_too_large message_type unknown_message : WireError
  io : IoError → WireError

-- `errors.Is(err, ErrMalformedFrame)`.
abbrev pub is_malformed : WireError → Bool
is_malformed (malformed s) = true
is_malformed (malformed_by s e) = true
is_malformed _ = false

abbrev pub default_max_frame_size : ℕ
default_max_frame_size = 64 * 1024

abbrev pub max_noise_packet_size : ℕ
max_noise_packet_size = 65535

-- An end of input inside a value is reported as `io.ErrUnexpectedEOF`.
abbrev pub unexpected : IoError → IoError
unexpected eof = unexpected_eof
unexpected e = e

-- `ReadByte`: `last` is the error that stands behind the bytes.
unfoldable pub read_byte : IoError → Bytes → Result IoError (ℕ × Bytes)
read_byte last [] = err last
read_byte last (b ∷ bs) = ok (b, bs)

short : IoError → Bytes → IoError
short last [] = last
short last (b ∷ bs) = unexpected last

-- `io.ReadFull` into a buffer of `n` bytes.
unfoldable pub read_full : IoError → ℕ → Bytes → Result IoError (Bytes × Bytes)
unfolding short
read_full last n bs = if leb n (length bs) then ok (take n bs, drop n bs) else err (short last bs)

-- What was sent is read whole, and what follows is left.
pub read_full-append :
    (last : IoError) (xs rest : Bytes) → read_full last (length xs) (xs ++ rest) ≡ ok (xs, rest)
unfolding read_full
read_full-append last xs rest =
    ground (arith, length-append xs rest, take-append xs rest, drop-append xs rest)

-- A successful read splits the stream at the length that was asked for.
pub read_full_splits :
    (last : IoError) (n : ℕ) (bs xs rest : Bytes)
    → read_full last n bs ≡ ok (xs, rest)
    → (bs ≡ xs ++ rest) × (length xs ≡ n)
unfolding read_full
read_full_splits last n bs xs rest e = ground (arith, take-append-drop n bs, length-take n bs)
