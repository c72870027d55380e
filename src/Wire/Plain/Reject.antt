-- ===== src/Wire/Plain/Reject.antt =====
-- internal/wire/plain.go: what `ReadFrame` makes of bytes that no framer sent whole.
use go_aioesphomeapi.Base.{
  ℕ, zero, suc, ◌+◌, ◌≤◌, ◌<◌, ◌≡◌, refl, ap, ◌∙◌, [], ◌∷◌, ◌++◌, append-nil, append_assoc, arith,
  Bytes, length, length-append, ok, err, Result-cases, inl, inr,
}
use go_aioesphomeapi.Wire.Io.{
  IoError, WireError, default_max_frame_size, read_byte, read_full, read_full-append,
  frame_too_large, read_full_splits,
}
use go_aioesphomeapi.Wire.Varint.{IsU32, IsU64, put_uvarint, read_uvarint}
use go_aioesphomeapi.Wire.Varint.RoundTrip.{read_uvarint-put_uvarint}
use go_aioesphomeapi.Wire.Varint.Bounds.{read_uvarint_takes, read_uvarint-append}
use go_aioesphomeapi.Wire.Plain.{Frame, read_frame, frame_bytes}
use go_aioesphomeapi.Wire.Plain.RoundTrip.{IsSendable, read_frame-frame_bytes}

module _ (max_frame : ℕ) (last : IoError) where
  -- A frame that is read, taken apart.
  pub record Parts (bs : Bytes) (f : Frame) (rest : Bytes) : Type 0 where
    pub sized : Bytes
    pub typed : Bytes
    pub tail : Bytes
    pub starts : bs ≡ 0 ∷ sized
    pub size : read_uvarint last sized ≡ ok (length f.payload, typed)
    pub kind : read_uvarint last typed ≡ ok (f.kind, tail)
    pub body : tail ≡ f.payload ++ rest
    pub fits : length f.payload ≤ max_frame
    pub kind_u32 : IsU32 f.kind

  body-Parts :
      (bs typed tail : Bytes) (n k : ℕ) (f : Frame) (rest : Bytes)
      → read_uvarint last bs ≡ ok (n, typed)
      → read_uvarint last typed ≡ ok (k, tail)
      → read_frame max_frame last (0 ∷ bs) ≡ ok (f, rest)
      → Parts (0 ∷ bs) f rest
  unfolding read_frame read_byte
  body-Parts bs typed tail n k f rest en ek e = elim (Result-cases (read_full last n tail)) [
    | inl ((payload, after), r) ↦ record {
      sized = bs;
      typed = typed;
      tail = tail;
      starts = refl;
      size = ground (arith, read_full_splits last n tail payload after r);
      kind = ground arith;
      body = ground (arith, read_full_splits last n tail payload after r);
      fits = ground (arith, read_full_splits last n tail payload after r);
      kind_u32 = ground arith;
    }
    | inr (x, r) ↦ absurd (ground arith)
  ]

  pub read_frame-Parts :
      (bs : Bytes) (f : Frame) (rest : Bytes)
      → read_frame max_frame last bs ≡ ok (f, rest)
      → Parts bs f rest
  unfolding read_frame read_byte
  read_frame-Parts [] f rest e = absurd (cc)
  read_frame-Parts (suc b ∷ bs) f rest e = absurd (ground arith)
  read_frame-Parts (zero ∷ bs) f rest e = elim (Result-cases (read_uvarint last bs)) [
    | inr (x, r) ↦ absurd (ground arith)
    | inl ((n, typed), r) ↦ elim (Result-cases (read_uvarint last typed)) [
      | inr (x, q) ↦ absurd (ground arith)
      | inl ((k, tail), q) ↦ body-Parts bs typed tail n k f rest r q e
    ]
  ]

  -- A plaintext frame that is read, from whatever bytes, has a payload within the limit and a
  -- 32-bit type, and took at least three bytes more than its payload.
  pub read_frame_bounds :
      (bs : Bytes) (f : Frame) (rest : Bytes)
      → read_frame max_frame last bs ≡ ok (f, rest)
      → (length f.payload ≤ max_frame)
        × IsU32 f.kind
        × (length rest + length f.payload + 3 ≤ length bs)
  read_frame_bounds bs f rest e =
      let p = read_frame-Parts bs f rest e in
      ground (
        arith,
        read_uvarint_takes last p.sized (length f.payload) p.typed p.size,
        read_uvarint_takes last p.typed f.kind p.tail p.kind,
        length-append f.payload rest,
      )

  pub Parts-read_frame :
      (bs : Bytes) (f : Frame) (rest : Bytes)
      → Parts bs f rest
      → read_frame max_frame last bs ≡ ok (f, rest)
  unfolding read_frame read_byte
  Parts-read_frame bs f rest p =
      rw p.starts
        (rw p.size (rw p.kind (ground (arith, p.body, read_full-append last f.payload rest))))

  read_frame-append :
      (bs more : Bytes) (f : Frame) (rest : Bytes)
      → read_frame max_frame last bs ≡ ok (f, rest)
      → read_frame max_frame last (bs ++ more) ≡ ok (f, rest ++ more)
  read_frame-append bs more f rest e =
      let p = read_frame-Parts bs f rest e in
      Parts-read_frame (bs ++ more) f (rest ++ more) (record {
        sized = p.sized ++ more;
        typed = p.typed ++ more;
        tail = p.tail ++ more;
        starts = ap (λ (t : Bytes). t ++ more) p.starts;
        size = read_uvarint-append last p.sized more (length f.payload) p.typed p.size;
        kind = read_uvarint-append last p.typed more f.kind p.tail p.kind;
        body = ap (λ (t : Bytes). t ++ more) p.body ∙ append_assoc f.payload rest more;
        fits = p.fits;
        kind_u32 = p.kind_u32;
      })

  -- Every proper front part of a frame that a framer may send is refused, whatever error ends the
  -- connection.
  pub read_frame_truncated :
      (small : max_frame ≤ default_max_frame_size) (f : Frame) (front back : Bytes) (x : ℕ)
      → IsSendable max_frame f
      → frame_bytes f.kind f.payload ≡ front ++ (x ∷ back)
      → (e : WireError) × (read_frame max_frame last front ≡ err e)
  read_frame_truncated small f front back x s split =
      elim (Result-cases (read_frame max_frame last front)) [
        | inr failed ↦ failed
        | inl ((g, rest), e) ↦ absurd (no_rest rest (read_frame-append front (x ∷ back) g rest e))
      ]
    where
      whole : read_frame max_frame last (front ++ (x ∷ back)) ≡ ok (f, [])
      whole = rw (← split) (rw (append-nil) at (read_frame-frame_bytes max_frame small last f [] s))

      no_rest :
          {g : Frame} (rest : Bytes)
          → read_frame max_frame last (front ++ (x ∷ back)) ≡ ok (g, rest ++ (x ∷ back))
          → ⊥
      no_rest rest e = ground (arith, whole, length-append rest (x ∷ back))

  -- A frame that announces a 64-bit payload length over the limit is refused as too large whatever
  -- follows, so that nothing is allocated for it.
  pub read_frame_too_large :
      (size : ℕ) (rest : Bytes)
      → IsU64 size
      → max_frame < size
      → read_frame max_frame last (0 ∷ (put_uvarint size ++ rest)) ≡ err frame_too_large
  unfolding read_frame read_byte
  read_frame_too_large size rest u h = rw (read_uvarint-put_uvarint size last rest u) (ground arith)
