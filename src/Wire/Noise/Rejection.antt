-- ===== src/Wire/Noise/Rejection.antt =====
-- internal/wire/noise.go: the text of a rejection that may be shown, with what Go's packages bytes,
-- strings and encoding/base64 do for it.
pub mod Hidden
pub mod Shown
use go_aioesphomeapi.Base.{
  ℕ, suc, ◌+◌, ◌*◌, ◌-◌, ◌/◌, ◌%◌, Bool, true, false, ◌&&◌, ◌||◌, not, List, [], ◌∷◌, ◌++◌, map,
  ltb, leb, ◌==◌, if◌then◌else◌, Bytes, codes, length, take,
}

-- `bytes.HasPrefix`, the prefix first.
unfoldable pub starts : Bytes → Bytes → Bool
starts [] bs = true
starts (x ∷ xs) [] = false
starts (x ∷ xs) (b ∷ bs) = (x == b) && starts xs bs

-- `bytes.Contains`
unfoldable pub contains : Bytes → Bytes → Bool
unfolding starts
contains [] needle = starts needle []
contains (b ∷ bs) needle = starts needle (b ∷ bs) || contains bs needle

-- The alphabet of `base64.StdEncoding`.
unfoldable pub base64_letter : ℕ → ℕ
base64_letter n =
    if ltb n 26
    then 65 + n
    else if ltb n 52
    then 71 + n
    else if ltb n 62
    then n - 4
    else if n == 62
    then 43
    else 47

-- `base64.StdEncoding.EncodeToString`
unfoldable pub base64 : Bytes → Bytes
unfolding base64_letter
base64 [] = []
base64 (a ∷ []) = base64_letter (a / 4) ∷ base64_letter (a % 4 * 16) ∷ 61 ∷ 61 ∷ []
base64 (a ∷ b ∷ []) =
    base64_letter (a / 4)
    ∷ base64_letter (a % 4 * 16 + b / 16)
    ∷ base64_letter (b % 16 * 4)
    ∷ 61
    ∷ []
base64 (a ∷ b ∷ c ∷ rest) =
    base64_letter (a / 4)
    ∷ base64_letter (a % 4 * 16 + b / 16)
    ∷ base64_letter (b % 16 * 4 + c / 64)
    ∷ base64_letter (c % 64)
    ∷ base64 rest

-- The bytes without CR and LF.
unfoldable pub without_breaks : Bytes → Bytes
without_breaks [] = []
without_breaks (b ∷ bs) =
    let rest = without_breaks bs in if b == 13 || b == 10 then rest else b ∷ rest

-- `containsBase64KeyEcho`
unfoldable pub contains_base64_key_echo : Bytes → Bytes → Bool
unfolding contains base64 without_breaks
contains_base64_key_echo raw psk =
    contains raw (base64 psk) || contains (without_breaks raw) (base64 psk)

abbrev pub max_noise_rejection_reason : ℕ
max_noise_rejection_reason = 96

unfoldable pub clean_byte : ℕ → ℕ
clean_byte value = if leb 32 value && leb value 126 then value else 63

-- `unicode.IsSpace` of an ASCII byte.
abbrev pub is_space : ℕ → Bool
is_space b = b == 32 || (leb 9 b && leb b 13)

-- `strings.TrimSpace` of an ASCII text, front and back.
unfoldable pub trim_front : Bytes → Bytes
trim_front [] = []
trim_front (b ∷ bs) = let rest = trim_front bs in if is_space b then rest else b ∷ bs

unfoldable pub trim_back : Bytes → Bytes
trim_back [] = []
trim_back (b ∷ bs) =
    let rest = trim_back bs in if is_space b && (length rest == 0) then [] else b ∷ rest

abbrev pub redacted : Bytes
redacted = codes "peer rejection reason redacted"

abbrev pub unspecified : Bytes
unspecified = codes "unspecified rejection"

-- The printable text of a reason that hides nothing.
unfoldable pub clean_reason : Bytes → Bytes
unfolding clean_byte trim_front trim_back
clean_reason raw =
    let cut =
      if ltb max_noise_rejection_reason (length raw)
      then take max_noise_rejection_reason raw
      else raw in
    let reason = trim_back (trim_front (map clean_byte cut)) in
    if length reason == 0 then unspecified else reason

-- `sanitizeNoiseRejection`
unfoldable pub sanitize_noise_rejection : Bytes → Bytes → Bytes
unfolding contains contains_base64_key_echo clean_reason
sanitize_noise_rejection raw psk =
    if ltb 0 (length psk) && (contains raw psk || contains_base64_key_echo raw psk)
    then redacted
    else clean_reason raw
