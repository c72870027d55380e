-- ===== src/Wire/Varint/RoundTrip.antt =====
-- `put_uvarint` and then `read_uvarint`, as plain.go uses them.
use go_aioesphomeapi.Base.{
  ℕ, zero, suc, ◌+◌, ◌*◌, ◌/◌, ◌%◌, ◌^◌, ◌<◌, ◌≡◌, ap, ◌++◌, arith, Bytes, ok,
}
use go_aioesphomeapi.Wire.Io.{IoError}
use go_aioesphomeapi.Wire.Varint.{IsU64, put_loop, put_uvarint, read_loop, read_uvarint}
use native.Mathlib.Numerals.{towards_suc}

pub pow_seven : (s : ℕ) → 2 ^ (s + 7) ≡ 128 * 2 ^ s
pow_seven s = simp towards_suc (omega arith)

-- The lowest group of `w` and the others, at the shift `s`.
groups : (w s : ℕ) → w * 2 ^ s ≡ w % 128 * 2 ^ s + w / 128 * 2 ^ (s + 7)
groups w s =
    let parts : w ≡ w % 128 + 128 * (w / 128) = omega arith in
    let scaled : w * 2 ^ s ≡ (w % 128 + 128 * (w / 128)) * 2 ^ s =
      ap (λ (n : ℕ). n * 2 ^ s) parts in
    let above : w / 128 * 2 ^ (s + 7) ≡ w / 128 * (128 * 2 ^ s) =
      ap (λ (n : ℕ). w / 128 * n) (pow_seven s) in
    omega (arith, scaled, above)

-- With `i` bytes read, `w` is what is still to come.
read_loop-put_loop :
    (k i w x s : ℕ) (last : IoError) (rest : Bytes)
    → k + i ≡ 9
    → s ≡ 7 * i
    → w < 128 ^ suc k
    → IsU64 (x + w * 2 ^ s)
    → read_loop (suc k) i x s last (put_loop k w ++ rest) ≡ ok (x + w * 2 ^ s, rest)
unfolding put_loop read_loop
read_loop-put_loop zero i w x s last rest hi hs hw fits =
    let at : s ≡ 63 = omega arith in ground (arith, at, small)
  where
    small : w < 2
    small =
        let at : s ≡ 63 = omega arith in
        let top : 2 ^ s ≡ 2 ^ 63 = ap (λ (t : ℕ). 2 ^ t) at in
        omega (arith, ap (λ (t : ℕ). w * t) top)
read_loop-put_loop (suc k) i w x s last rest hi hs hw fits = ground (
  arith,
  groups w s,
  read_loop-put_loop k (i + 1) (w / 128) (x + w % 128 * 2 ^ s) (s + 7) last rest (omega arith)
      (omega arith) (omega arith),
)

pub read_uvarint-put_uvarint :
    (v : ℕ) (last : IoError) (rest : Bytes)
    → IsU64 v
    → read_uvarint last (put_uvarint v ++ rest) ≡ ok (v, rest)
unfolding read_uvarint put_uvarint
read_uvarint-put_uvarint v last rest h = ground (arith, read_loop-put_loop 9 0 v 0 0 last rest)
