-- ===== src/Wire/Varint.antt =====
-- `binary.PutUvarint` and `binary.ReadUvarint` of Go's standard library, as plain.go uses them: an
-- unsigned number in groups of seven bits, lowest first, each byte but the last with its top bit set.
pub mod RoundTrip
pub mod Bounds
use go_aioesphomeapi.Base.{
  Bool, Bytes, Result, [], err, false, ltb, ok, suc, true, zero, ℕ, if◌then◌else◌, ◌%◌, ◌&&◌, ◌*◌,
  ◌+◌, ◌/◌, ◌<◌, ◌==◌, ◌^◌, ◌∷◌,
}
use go_aioesphomeapi.Wire.Io.{IoError, varint_overflow, unexpected}

abbrev pub IsU64 : ℕ → Type 0
IsU64 v = v < 2 ^ 64

abbrev pub IsU32 : ℕ → Type 0
IsU32 v = v < 2 ^ 32

-- At most ten bytes; `byte(x) | 0x80` sets a bit that `x % 128` does not have.
put_loop : ℕ → ℕ → Bytes
put_loop zero x = (x % 256) ∷ []
put_loop (suc k) x =
    let rest = put_loop k (x / 128) in if ltb x 128 then x ∷ [] else (x % 128 + 128) ∷ rest

unfoldable pub put_uvarint : ℕ → Bytes
unfolding put_loop
put_uvarint x = put_loop 9 x

-- `x | uint64(b & 0x7f) << s`: the bits of `x` lie below `s`, so that `|` adds.
abbrev or_group : ℕ → ℕ → ℕ → ℕ
or_group x b s = x + b % 128 * 2 ^ s % 2 ^ 64

-- The loop for at most `fuel` more bytes: `i` have been read, and `s` is the shift.
read_loop : ℕ → ℕ → ℕ → ℕ → IoError → Bytes → Result IoError (ℕ × Bytes)
read_loop zero i x s last bs = err varint_overflow
read_loop (suc fuel) i x s last [] = err (if ltb 0 i then unexpected last else last)
read_loop (suc fuel) i x s last (b ∷ bs) =
    let more = read_loop fuel (i + 1) (or_group x b s) (s + 7) last bs in
    if ltb b 128
    then if i == 9 && ltb 1 b then err varint_overflow else ok (or_group x b s, bs)
    else more

unfoldable pub read_uvarint : IoError → Bytes → Result IoError (ℕ × Bytes)
unfolding read_loop
read_uvarint last bs = read_loop 10 0 0 0 last bs
