-- ===== src/Wire/Varint/Bounds.antt =====
-- How many bytes a number takes, and what a reader can get.
use go_aioesphomeapi.Base.{
  All, Bytes, IsByte, [], ap, arith, length, ok, suc, zero, ℕ, ◌%◌, ◌*◌, ◌++◌, ◌+◌, ◌/◌, ◌<◌, ◌^◌,
  ◌∷◌, ◌≡◌, ◌≤◌,
}
use go_aioesphomeapi.Wire.Io.{IoError}
use native.Mathlib.Nat.{pow-suc, one-le-pow}
use go_aioesphomeapi.Wire.Varint.RoundTrip.{pow_seven}
use go_aioesphomeapi.Wire.Varint.{IsU64, IsU32, put_loop, put_uvarint, read_loop, read_uvarint}

length-put_loop : (k x j : ℕ) → x < 128 ^ j → 0 < j → length (put_loop k x) ≤ j
unfolding put_loop
length-put_loop zero x zero h p = absurd (omega arith)
length-put_loop zero x (suc j) h p = omega arith
length-put_loop (suc k) x zero h p = absurd (omega arith)
length-put_loop (suc k) x (suc zero) h p = ground arith
length-put_loop (suc k) x (suc (suc j)) h p =
    ground (arith, length-put_loop k (x / 128) (suc j) (omega arith))

put_loop-IsByte : (k x : ℕ) → All IsByte (put_loop k x)
unfolding put_loop
put_loop-IsByte zero x = omega arith
put_loop-IsByte (suc k) x = ground (arith, put_loop-IsByte k (x / 128))

pub put_uvarint-IsByte : (x : ℕ) → All IsByte (put_uvarint x)
unfolding put_uvarint
put_uvarint-IsByte x = put_loop-IsByte 9 x

-- `binary.MaxVarintLen64` and `binary.MaxVarintLen32`.
pub length-put_uvarint_64 : (x : ℕ) → IsU64 x → length (put_uvarint x) ≤ 10
unfolding put_uvarint
length-put_uvarint_64 x h = length-put_loop 9 x 10 (omega arith) (omega arith)

pub length-put_uvarint_32 : (x : ℕ) → IsU32 x → length (put_uvarint x) ≤ 5
unfolding put_uvarint
length-put_uvarint_32 x h = length-put_loop 9 x 5 (omega arith) (omega arith)

read_loop_takes :
    (fuel i x s : ℕ) (last : IoError) (bs : Bytes) (v : ℕ) (rest : Bytes)
    → read_loop fuel i x s last bs ≡ ok (v, rest)
    → length rest < length bs
unfolding read_loop
read_loop_takes zero i x s last bs v rest e = cc
read_loop_takes (suc fuel) i x s last [] v rest e = cc
read_loop_takes (suc fuel) i x s last (b ∷ bs) v rest e =
    ground
      (arith, read_loop_takes fuel (i + 1) (x + b % 128 * 2 ^ s % 2 ^ 64) (s + 7) last bs v rest)

pub read_uvarint_takes :
    (last : IoError) (bs : Bytes) (v : ℕ) (rest : Bytes)
    → read_uvarint last bs ≡ ok (v, rest)
    → length rest < length bs
unfolding read_uvarint
read_uvarint_takes last bs v rest e = read_loop_takes 10 0 0 0 last bs v rest e

-- A group of seven bits at the shift `2 ^ s = p` stays below the next shift.
group-lt : (x c p : ℕ) → x < p → c < 128 → x + c * p < 128 * p
group-lt x c p hx hc = grind (arith, le_mul c 127 p)
  where
    le_mul : (a b t : ℕ) → a ≤ b → a * t ≤ b * t
    le_mul a b t h = grind arith

shift-le : (p k : ℕ) → p * 128 ^ suc k ≡ 2 ^ 63 → (128 * p ≤ 2 ^ 63) × (128 * p * 128 ^ k ≡ 2 ^ 63)
shift-le p k h = (grind (arith, whole, one-le-pow k 128 (omega arith)), whole)
  where
    whole : 128 * p * 128 ^ k ≡ 2 ^ 63
    whole = omega (arith, h, ap (λ (t : ℕ). p * t) (pow-suc 128 k))

-- With `suc k` bytes at most to come, `x` below the shift, and the last shift at 63.
read_loop-IsU64 :
    (k i x s : ℕ) (last : IoError) (bs : Bytes) (v : ℕ) (rest : Bytes)
    → k + i ≡ 9
    → x < 2 ^ s
    → 2 ^ s * 128 ^ k ≡ 2 ^ 63
    → read_loop (suc k) i x s last bs ≡ ok (v, rest)
    → IsU64 v
unfolding read_loop
read_loop-IsU64 k i x s last [] v rest hi hx hs e = cc
read_loop-IsU64 zero i x s last (b ∷ bs) v rest hi hx hs e =
    let at : 2 ^ s ≡ 2 ^ 63 = omega arith in ground (arith, ap (λ (t : ℕ). b * t) at)
read_loop-IsU64 (suc k) i x s last (b ∷ bs) v rest hi hx hs e = ground (
  arith,
  shift-le (2 ^ s) k hs,
  group-lt x (b % 128) (2 ^ s) hx (omega arith),
  pow_seven s,
  ap (λ (t : ℕ). t * 128 ^ k) (pow_seven s),
  read_loop-IsU64 k (i + 1) (x + b % 128 * 2 ^ s % 2 ^ 64) (s + 7) last bs v rest,
)

-- A number that the frame reader takes from whatever bytes fits 64 bits.
pub read_uvarint-IsU64 :
    (last : IoError) (bs : Bytes) (v : ℕ) (rest : Bytes)
    → read_uvarint last bs ≡ ok (v, rest)
    → IsU64 v
unfolding read_uvarint
read_uvarint-IsU64 last bs v rest e =
    read_loop-IsU64 9 0 0 0 last bs v rest (omega arith) (omega arith) (omega arith) e

read_loop-append :
    (fuel i x s : ℕ) (last : IoError) (bs more : Bytes) (v : ℕ) (rest : Bytes)
    → read_loop fuel i x s last bs ≡ ok (v, rest)
    → read_loop fuel i x s last (bs ++ more) ≡ ok (v, rest ++ more)
unfolding read_loop
read_loop-append zero i x s last bs more v rest e = cc
read_loop-append (suc fuel) i x s last [] more v rest e = cc
read_loop-append (suc fuel) i x s last (b ∷ bs) more v rest e = ground (
  arith,
  read_loop-append fuel (i + 1) (x + b % 128 * 2 ^ s % 2 ^ 64) (s + 7) last bs more v rest,
)

-- Bytes added behind a number join the rest.
pub read_uvarint-append :
    (last : IoError) (bs more : Bytes) (v : ℕ) (rest : Bytes)
    → read_uvarint last bs ≡ ok (v, rest)
    → read_uvarint last (bs ++ more) ≡ ok (v, rest ++ more)
unfolding read_uvarint
read_uvarint-append last bs more v rest e = read_loop-append 10 0 0 0 last bs more v rest e
