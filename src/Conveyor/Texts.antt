-- ===== src/Conveyor/Texts.antt =====
-- conveyor_device.go: the numbers that the firmware's log lines print with `fmt.Sprintf`.
use go_aioesphomeapi.Base.{
  Bool-cases, All, ◌<◌, inl, inr, arith, ℕ, zero, suc, ◌+◌, ◌*◌, ◌-◌, ◌/◌, ◌%◌, ◌^◌, Bool, ◌||◌,
  ◌&&◌, [], ◌∷◌, ◌++◌, ltb, leb, ◌==◌, if◌then◌else◌, Bytes, codes, ◌≡◌, refl,
}
use go_aioesphomeapi.Messages.{Float32}

decimal_loop : ℕ → ℕ → Bytes → Bytes
decimal_loop zero n text = text
decimal_loop (suc fuel) n text =
    let longer = (48 + n % 10) ∷ text in
    let rest = decimal_loop fuel (n / 10) longer in if n / 10 == 0 then longer else rest

-- `%d` of a number that is not negative; a number has at most as many digits as its successor counts.
unfoldable pub decimal : ℕ → Bytes
unfolding decimal_loop
decimal n = decimal_loop (suc n) n []

decimal_loop-All :
    (P : ℕ → Type 0) (fuel n : ℕ) (text : Bytes)
    → ((d : ℕ) → d < 10 → P (48 + d))
    → All P text
    → All P (decimal_loop fuel n text)
unfolding decimal_loop
decimal_loop-All P zero n text digit h = h
decimal_loop-All P (suc fuel) n text digit h =
    let longer : All P ((48 + n % 10) ∷ text) = (digit (n % 10) (omega arith), h) in
    let rest = decimal_loop-All P fuel (n / 10) ((48 + n % 10) ∷ text) digit longer in
    elim (Bool-cases (n / 10 == 0)) [ inl e ↦ rw e longer | inr e ↦ rw e rest ]

-- A number is printed in digits.
pub decimal-All : (P : ℕ → Type 0) (n : ℕ) → ((d : ℕ) → d < 10 → P (48 + d)) → All P (decimal n)
unfolding decimal
decimal-All P n digit = decimal_loop-All P (suc n) n [] digit tt

-- The nearest whole number to a fraction, and the even one of two.
unfoldable pub nearest_even : ℕ → ℕ → ℕ
nearest_even n d =
    let twice = 2 * (n % d) in
    if ltb d twice || (twice == d && (n / d % 2 == 1)) then suc (n / d) else n / d

-- The value times ten, to the nearest whole number, of finite bits without their sign.
unfoldable pub tenths : ℕ → ℕ
unfolding nearest_even
tenths bits =
    let exponent = bits / 2 ^ 23 % 256 in
    let significand = if exponent == 0 then bits % 2 ^ 23 else 2 ^ 23 + bits % 2 ^ 23 in
    let power = if exponent == 0 then 1 else exponent in
    if leb 150 power
    then significand * 10 * 2 ^ (power - 150)
    else nearest_even (significand * 10) (2 ^ (150 - power))

-- `%.1f` of a float32.
unfoldable pub one_decimal : Float32 → Bytes
unfolding tenths decimal
one_decimal bits =
    let magnitude = bits % 2 ^ 31 in
    let sign = if ltb bits (2 ^ 31) then [] else codes "-" in
    if magnitude == 255 * 2 ^ 23
    then (if ltb bits (2 ^ 31) then codes "+Inf" else codes "-Inf")
    else if ltb (255 * 2 ^ 23) magnitude
    then codes "NaN"
    else sign ++ decimal (tenths magnitude / 10) ++ codes "." ++ ((48 + tenths magnitude % 10) ∷ [])

-- `==` of float32 values: no NaN equals itself, and the two zeros are equal.
unfoldable pub float32_equal : Float32 → Float32 → Bool
float32_equal a b =
    (a == b && leb (a % 2 ^ 31) (255 * 2 ^ 23)) || (a % 2 ^ 31 == 0 && (b % 2 ^ 31 == 0))

test_48 : one_decimal 1111490560 ≡ codes "48.0"
unfolding one_decimal decimal_loop
test_48 = refl
