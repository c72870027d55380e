-- ===== src/Wire/Noise/Packets.antt =====
-- internal/wire/noise.go: a packet, written and then read.
use go_aioesphomeapi.Base.{
  ℕ, ◌+◌, ◌*◌, ◌/◌, ◌%◌, ◌≤◌, ◌<◌, ◌≡◌, [], ◌∷◌, ◌++◌, arith, Bytes, length, be16, ok,
}
use go_aioesphomeapi.Wire.Io.{IoError, read_full, read_full-append, max_noise_packet_size}
use go_aioesphomeapi.Wire.Noise.{write_noise_packet, read_noise_packet}

pub noise_packet : Bytes → Bytes
noise_packet p = 1 ∷ (be16 (length p) ++ p)

header_read :
    (last : IoError) (a b c : ℕ) (bs : Bytes)
    → read_full last 3 (a ∷ b ∷ c ∷ bs) ≡ ok (a ∷ b ∷ c ∷ [], bs)
header_read last a b c bs = read_full-append last (a ∷ b ∷ c ∷ []) bs

pub write_noise_packet_fits :
    (p : Bytes) → length p ≤ max_noise_packet_size → write_noise_packet p ≡ ok (noise_packet p)
unfolding write_noise_packet noise_packet
write_noise_packet_fits p h = ground arith

pub read_noise_packet-packet :
    (last : IoError) (p rest : Bytes)
    → 0 < length p
    → length p ≤ max_noise_packet_size
    → read_noise_packet last (noise_packet p ++ rest) ≡ ok (p, rest)
unfolding read_noise_packet noise_packet
read_noise_packet-packet last p rest lo hi =
    rw (header_read last 1 (length p / 256 % 256) (length p % 256) (p ++ rest))
      (rw size (ground (arith, read_full-append last p rest)))
  where
    size : length p / 256 % 256 * 256 + length p % 256 ≡ length p
    size = omega arith
