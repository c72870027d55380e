-- ===== src/Base/Integers.antt =====
-- Signed integers as Go's `int` and `time.Duration` use them: `negsuc n` is -(n + 1).
use Prim.Native.Nat.{ℕ, suc, ◌+◌, ◌-◌, ◌%◌, ◌^◌}
use mathlib.Core.Bool.{Bool, true, false}
use go_aioesphomeapi.Base.Tests.{ltb, ◌==◌, if◌then◌else◌}

pub data ℤ : Type 0 where
  pos : ℕ → ℤ
  negsuc : ℕ → ℤ

abbrev pub int_ltb : ℤ → ℤ → Bool
int_ltb (pos a) (pos b) = ltb a b
int_ltb (pos a) (negsuc b) = false
int_ltb (negsuc a) (pos b) = true
int_ltb (negsuc a) (negsuc b) = ltb b a

abbrev pub is_negative : ℤ → Bool
is_negative (pos a) = false
is_negative (negsuc a) = true

-- `x <= 0`
abbrev pub is_not_positive : ℤ → Bool
is_not_positive (pos a) = a == 0
is_not_positive (negsuc a) = true

abbrev pub int_add : ℤ → ℤ → ℤ
int_add (pos a) (pos b) = pos (a + b)
int_add (pos a) (negsuc b) = if ltb b a then pos (a - suc b) else negsuc (b - a)
int_add (negsuc a) (pos b) = if ltb a b then pos (b - suc a) else negsuc (a - b)
int_add (negsuc a) (negsuc b) = negsuc (suc (a + b))

-- The 64-bit two's complement of a number.
abbrev pub wrap64 : ℤ → ℤ
wrap64 (pos a) =
    if ltb (a % 2 ^ 64) (2 ^ 63) then pos (a % 2 ^ 64) else negsuc (2 ^ 64 - 1 - a % 2 ^ 64)
wrap64 (negsuc a) =
    if ltb (a % 2 ^ 64) (2 ^ 63) then negsuc (a % 2 ^ 64) else pos (2 ^ 64 - 1 - a % 2 ^ 64)
