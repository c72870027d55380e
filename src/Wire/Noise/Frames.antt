-- ===== src/Wire/Noise/Frames.antt =====
-- internal/wire/noise.go: one framer writes and its peer reads.
use go_aioesphomeapi.Base.{
  ℕ, ◌+◌, ◌*◌, ◌/◌, ◌%◌, ◌≤◌, ◌≡◌, ap, ◌∙◌, List, [], ◌∷◌, ◌++◌, append_assoc, arith, Bytes, length,
  All, some, ok,
}
use go_aioesphomeapi.Wire.Io.{IoError, max_noise_packet_size}
use go_aioesphomeapi.Wire.Plain.{Frame}
use go_aioesphomeapi.Wire.Noise.{
  Cipher, IsAead, NoiseFramer, noise_max, noise_plain, noise_unpack, noise_write, noise_read,
  noise_write_all, noise_read_all,
}
use go_aioesphomeapi.Wire.Noise.Packets.{
  noise_packet, write_noise_packet_fits, read_noise_packet-packet,
}

-- A frame that a framer with this limit can send.
pub record IsShort (max_frame : ℕ) (f : Frame) : Type 0 where
  pub fits : length f.payload ≤ max_frame
  pub kind_u16 : f.kind ≤ 65535

length-noise_plain : (f : Frame) → length (noise_plain f) ≡ length f.payload + 4
length-noise_plain f = omega arith

pub noise_unpack-noise_plain :
    (max_frame : ℕ) (f : Frame)
    → max_frame ≤ noise_max
    → IsShort max_frame f
    → noise_unpack max_frame (noise_plain f) ≡ ok f
unfolding noise_unpack
noise_unpack-noise_plain max_frame f h s = ground (arith, kind, size)
  where
    kind : f.kind / 256 % 256 * 256 + f.kind % 256 ≡ f.kind
    kind = omega arith

    size : length f.payload / 256 % 256 * 256 + length f.payload % 256 ≡ length f.payload
    size = omega arith

-- The two ends of one direction.
pub record InStep (max_nonce : ℕ) (s r : NoiseFramer) : Type 0 where
  pub aead : IsAead s.encrypt max_nonce
  pub same_cipher : r.decrypt ≡ s.encrypt
  pub same_nonce : r.received ≡ s.sent
  pub same_limit : r.max_frame ≡ s.max_frame
  pub limit : s.max_frame ≤ noise_max

module _ (max_nonce : ℕ) (last : IoError) where
  -- One frame: the packet that goes out, and the two ends after it.
  pub record Sent (s r : NoiseFramer) (f : Frame) : Type 0 where
    pub bytes : Bytes
    pub written : noise_write s f ≡ (record s { sent = s.sent + 1 }, ok bytes)
    pub read :
        (rest : Bytes)
        → noise_read r last (bytes ++ rest) ≡ (record r { received = r.received + 1 }, ok (f, rest))

  pub noise-Sent :
      (s r : NoiseFramer) (f : Frame)
      → InStep max_nonce s r
      → IsShort s.max_frame f
      → s.sent ≤ max_nonce
      → Sent s r f
  noise-Sent s r f p k n = record { bytes = noise_packet t; written = written; read = read }
    where
      t : Bytes
      t = (p.aead.seals s.sent (noise_plain f) n).0

      sealed : s.encrypt.seal s.sent (noise_plain f) ≡ some t
      sealed = (p.aead.seals s.sent (noise_plain f) n).1

      size : length t ≡ length f.payload + 20
      size = omega (arith, p.aead.tags s.sent (noise_plain f) t sealed, length-noise_plain f)

      small : length t ≤ max_noise_packet_size
      small = omega (arith, size, p.limit, k.fits)

      opened : r.decrypt.unseal r.received t ≡ some (noise_plain f)
      opened =
          ap (λ (c : Cipher). c.unseal r.received t) p.same_cipher
          ∙ ap (λ (m : ℕ). s.encrypt.unseal m t) p.same_nonce
          ∙ p.aead.opens s.sent (noise_plain f) t sealed

      written : noise_write s f ≡ (record s { sent = s.sent + 1 }, ok (noise_packet t))
      written =
          unfold noise_write in
          ground (arith, sealed, k.kind_u16, k.fits, write_noise_packet_fits t small)

      unpacked : noise_unpack r.max_frame (noise_plain f) ≡ ok f
      unpacked = rw p.same_limit (noise_unpack-noise_plain s.max_frame f p.limit k)

      read :
          (rest : Bytes)
          → noise_read r last (noise_packet t ++ rest)
            ≡ (record r { received = r.received + 1 }, ok (f, rest))
      read rest =
          unfold noise_read in
          ground (
            arith,
            read_noise_packet-packet last t rest (omega (arith, size)) small,
            opened,
            unpacked,
          )

  -- The frames that `s` writes from now on stay within the nonces.
  pub record Session (s r : NoiseFramer) (fs : List Frame) : Type 0 where
    pub bytes : Bytes
    pub written : noise_write_all s fs ≡ (record s { sent = s.sent + length fs }, ok bytes)
    pub read :
        (rest : Bytes)
        → noise_read_all (length fs) r last (bytes ++ rest)
          ≡ (record r { received = r.received + length fs }, ok (fs, rest))

  Session-nil : (s r : NoiseFramer) → Session s r []
  unfolding noise_write_all noise_read_all
  Session-nil s r = record { bytes = []; written = ground arith; read = λ rest. ground arith }

  abbrev next_sent : NoiseFramer → NoiseFramer
  next_sent s = record s { sent = s.sent + 1 }

  abbrev next_received : NoiseFramer → NoiseFramer
  next_received r = record r { received = r.received + 1 }

  Session-cons :
      (s r : NoiseFramer) (f : Frame) (fs : List Frame)
      → Sent s r f
      → Session (next_sent s) (next_received r) fs
      → Session s r (f ∷ fs)
  unfolding noise_write_all noise_read_all
  Session-cons s r f fs one others = record {
    bytes = one.bytes ++ others.bytes;
    written = ground (arith, one.written, others.written);
    read = λ rest.
        rw (append_assoc one.bytes others.bytes rest)
          (ground (arith, one.read (others.bytes ++ rest), others.read rest));
  }

  next-InStep :
      (s r : NoiseFramer) → InStep max_nonce s r → InStep max_nonce (next_sent s) (next_received r)
  next-InStep s r p = record {
    aead = p.aead;
    same_cipher = p.same_cipher;
    same_nonce = omega arith;
    same_limit = p.same_limit;
    limit = p.limit;
  }

  -- Between two framers in step, over a cipher with the documented laws, a run of frames with
  -- 16-bit types within the limit and within the nonces is written without error and read back in
  -- order, with the nonces again in step and the bytes that follow untouched.
  pub noise-Session :
      (s r : NoiseFramer) (fs : List Frame)
      → InStep max_nonce s r
      → All (IsShort s.max_frame) fs
      → s.sent + length fs ≤ max_nonce + 1
      → Session s r fs
  noise-Session s r [] p k n = Session-nil s r
  noise-Session s r (f ∷ fs) p k n =
      Session-cons s r f fs (noise-Sent s r f p k.0 (omega arith))
        (noise-Session (next_sent s) (next_received r) fs (next-InStep s r p) k.1 (omega arith))
