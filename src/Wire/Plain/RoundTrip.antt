-- ===== src/Wire/Plain/RoundTrip.antt =====
-- internal/wire/plain.go: `WriteFrame` and then `ReadFrame`.
use go_aioesphomeapi.Base.{
  ℕ, suc, ◌≤◌, ◌≡◌, refl, List, [], ◌∷◌, ◌++◌, append_assoc, arith, Bytes, length, All, some, ok,
}
use go_aioesphomeapi.Wire.Io.{IoError, io, default_max_frame_size, read_byte, read_full-append}
use go_aioesphomeapi.Wire.Writer.{Outcome, done, IsProgress, write_full_progress}
use go_aioesphomeapi.Wire.Varint.{IsU32, put_uvarint}
use go_aioesphomeapi.Wire.Varint.RoundTrip.{read_uvarint-put_uvarint}
use go_aioesphomeapi.Wire.Plain.{
  Frame, read_frame, frame_bytes, encode_frame, write_frame, read_frames,
}

-- A frame that the framer with this limit sends.
pub record IsSendable (max_frame : ℕ) (f : Frame) : Type 0 where
  pub fits : length f.payload ≤ max_frame
  pub kind_u32 : IsU32 f.kind

module _ (max_frame : ℕ) (small : max_frame ≤ default_max_frame_size) (last : IoError) where
  pub read_frame-frame_bytes :
      (f : Frame) (rest : Bytes)
      → IsSendable max_frame f
      → read_frame max_frame last (frame_bytes f.kind f.payload ++ rest) ≡ ok (f, rest)
  unfolding read_frame frame_bytes read_byte
  read_frame-frame_bytes f rest s =
      let kind_bytes : Bytes = put_uvarint f.kind in
      rw (append_assoc (put_uvarint (length f.payload)) (kind_bytes ++ f.payload) rest) (
        rw (append_assoc kind_bytes f.payload rest) (
          rw
            (read_uvarint-put_uvarint (length f.payload) last (kind_bytes ++ (f.payload ++ rest))
              (omega arith))
            (rw (read_uvarint-put_uvarint f.kind last (f.payload ++ rest) (omega arith))
              (ground (arith, read_full-append last f.payload rest)))))

  -- What is left out here `read_frames` says of the bytes that follow.
  abbrev wire : List Frame → Bytes
  wire [] = []
  wire (f ∷ fs) = frame_bytes f.kind f.payload ++ wire fs

  -- Frames that respect the limit and have 32-bit types, written one after the other, are read
  -- back in order, and after the last the reader reports the connection's own error.
  pub read_frames-wire :
      (fs : List Frame)
      → All (IsSendable max_frame) fs
      → read_frames (suc (length fs)) max_frame last (wire fs) ≡ (fs, some (io last))
  unfolding read_frames
  read_frames-wire [] s = unfold read_frame read_byte in refl
  read_frames-wire (f ∷ fs) s =
      ground (arith, read_frame-frame_bytes f (wire fs), read_frames-wire fs s.1)

-- A frame within the limits goes out whole over a connection that takes at least one byte at each
-- call and answers as many calls as the frame has bytes.
pub write_frame_delivers :
    (max_frame : ℕ) (ws : List Outcome) (f : Frame)
    → IsSendable max_frame f
    → All IsProgress ws
    → length (frame_bytes f.kind f.payload) ≤ length ws
    → (write_frame max_frame ws f.kind f.payload ≡ (frame_bytes f.kind f.payload, ok done))
unfolding write_frame encode_frame
write_frame_delivers max_frame ws f s p enough =
    ground (arith, write_full_progress ws (frame_bytes f.kind f.payload) p enough)
