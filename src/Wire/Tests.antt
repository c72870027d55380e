-- ===== src/Wire/Tests.antt =====
-- Runs of the framings at concrete inputs, and the theorems at inputs that meet their hypotheses.
use go_aioesphomeapi.Base.{
  ℕ, ◌+◌, ◌≤◌, ◌≡◌, refl, [], ◌∷◌, ◌++◌, arith, Bytes, length, none, some, ok, err, ◌-◌, replicate,
  leb, if◌then◌else◌, take, take-append, length-append,
}
use go_aioesphomeapi.Wire.Io.{
  WireError, eof, unexpected_eof, io, malformed, malformed_by, preamble, truncated_payload,
  read_byte, read_full,
}
use go_aioesphomeapi.Wire.Writer.{wrote, done, write_full, write_full_prefix}
use go_aioesphomeapi.Wire.Varint.{IsU32, put_uvarint, read_uvarint}
use go_aioesphomeapi.Wire.Varint.RoundTrip.{read_uvarint-put_uvarint}
use go_aioesphomeapi.Wire.Plain.{Frame, read_frame, read_frames, frame_bytes, write_frame}
use go_aioesphomeapi.Wire.Plain.RoundTrip.{IsSendable, read_frames-wire, write_frame_delivers}
use go_aioesphomeapi.Wire.Noise.{Cipher, IsAead, NoiseFramer}
use go_aioesphomeapi.Wire.Noise.Frames.{InStep, Session, noise-Session}
use go_aioesphomeapi.Wire.Plain.Reject.{read_frame_bounds, read_frame_truncated}

abbrev hello_frame : Frame
hello_frame = record { kind = 1; payload = 10 ∷ 2 ∷ 65 ∷ 66 ∷ [] }

abbrev ping_frame : Frame
ping_frame = record { kind = 7; payload = [] }

wire_bytes : frame_bytes 300 (5 ∷ []) ≡ 0 ∷ 1 ∷ 0xac ∷ 2 ∷ 5 ∷ []
unfolding frame_bytes put_uvarint
wire_bytes = refl

bad_preamble : read_frame 64 eof (1 ∷ 0 ∷ 7 ∷ []) ≡ err (malformed preamble)
unfolding read_frame read_byte
bad_preamble = refl

cut_payload :
    read_frame 64 eof (0 ∷ 2 ∷ 7 ∷ 9 ∷ []) ≡ err (malformed_by truncated_payload unexpected_eof)
unfolding read_frame read_byte read_uvarint read_full
cut_payload = refl

one_frame :
    read_frame 64 eof (0 ∷ 1 ∷ 7 ∷ 9 ∷ 0 ∷ []) ≡ ok (record { kind = 7; payload = 9 ∷ [] }, 0 ∷ [])
unfolding read_frame read_byte read_uvarint read_full
one_frame = refl

hello-IsSendable : IsSendable 64 hello_frame
hello-IsSendable = omega arith

read_uvarint-put_uvarint_example : read_uvarint eof (put_uvarint 300 ++ (9 ∷ [])) ≡ ok (300, 9 ∷ [])
read_uvarint-put_uvarint_example = read_uvarint-put_uvarint 300 eof (9 ∷ []) (omega arith)

long_number : read_uvarint eof (0xac ∷ 2 ∷ 9 ∷ []) ≡ ok (300, 9 ∷ [])
unfolding read_uvarint
long_number = refl

read_frames-wire_example :
    read_frames 3 64 eof (frame_bytes 1 (10 ∷ 2 ∷ 65 ∷ 66 ∷ []) ++ (frame_bytes 7 [] ++ []))
    ≡ (hello_frame ∷ ping_frame ∷ [], some (io eof))
read_frames-wire_example =
    read_frames-wire 64 (omega arith) eof (hello_frame ∷ ping_frame ∷ []) (omega arith)

write_frame_delivers_example :
    write_frame 64 (wrote 1 ∷ wrote 1 ∷ wrote 9 ∷ []) 7 [] ≡ (frame_bytes 7 [], ok done)
unfolding frame_bytes put_uvarint
write_frame_delivers_example =
    write_frame_delivers 64 (wrote 1 ∷ wrote 1 ∷ wrote 9 ∷ []) ping_frame (omega arith)
      (omega arith) (omega arith)

write_full_prefix_example :
    (rest : Bytes) × (1 ∷ 2 ∷ 3 ∷ []
      ≡ (write_full (wrote 2 ∷ wrote 0 ∷ []) (1 ∷ 2 ∷ 3 ∷ [])).0 ++ rest)
    × ((write_full (wrote 2 ∷ wrote 0 ∷ []) (1 ∷ 2 ∷ 3 ∷ [])).1 ≡ done → rest ≡ [])
write_full_prefix_example = write_full_prefix (wrote 2 ∷ wrote 0 ∷ []) (1 ∷ 2 ∷ 3 ∷ [])

read_frame_bounds_example : (1 ≤ 64) × IsU32 7 × (1 + 1 + 3 ≤ 5)
read_frame_bounds_example =
    read_frame_bounds 64 eof (0 ∷ 1 ∷ 7 ∷ 9 ∷ 0 ∷ []) (record { kind = 7; payload = 9 ∷ [] })
      (0 ∷ []) one_frame

read_frame_truncated_example :
    (e : WireError) × (read_frame 64 eof (0 ∷ 4 ∷ 1 ∷ 10 ∷ 2 ∷ []) ≡ err e)
unfolding frame_bytes put_uvarint
read_frame_truncated_example =
    read_frame_truncated 64 eof (omega arith) hello_frame (0 ∷ 4 ∷ 1 ∷ 10 ∷ 2 ∷ []) (66 ∷ []) 65
      hello-IsSendable refl

-- A cipher that only adds the tag: sixteen zero bytes.
abbrev zero_tag : Bytes
zero_tag = replicate 16 0

abbrev pub tagging : Cipher
tagging = record {
  seal = λ n p. if leb n 9 then some (p ++ zero_tag) else none;
  unseal = λ n t. some (take (length t - 16) t);
}

tagging_opens : (n : ℕ) (p t : Bytes) → tagging.seal n p ≡ some t → tagging.unseal n t ≡ some p
tagging_opens n p t h =
    let size : length (p ++ zero_tag) - 16 ≡ length p = omega (arith, length-append p zero_tag) in
    ground (arith, size, take-append p zero_tag)

pub tagging-IsAead : IsAead tagging 9
tagging-IsAead = record {
  opens = tagging_opens;
  tags = λ n p t h. ground (arith, length-append p zero_tag);
  seals = λ n p h. (p ++ zero_tag, ground arith);
}

abbrev end_of_session : NoiseFramer
end_of_session = record {
  encrypt = tagging;
  decrypt = tagging;
  sent = 0;
  received = 0;
  max_frame = 64;
}

ends-InStep : InStep 9 end_of_session end_of_session
ends-InStep = record {
  aead = tagging-IsAead;
  same_cipher = refl;
  same_nonce = refl;
  same_limit = refl;
  limit = omega arith;
}

noise-Session_example : Session 9 eof end_of_session end_of_session (hello_frame ∷ ping_frame ∷ [])
noise-Session_example =
    noise-Session 9 eof end_of_session end_of_session (hello_frame ∷ ping_frame ∷ []) ends-InStep
      (omega arith) (omega arith)
