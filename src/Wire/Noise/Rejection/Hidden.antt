-- ===== src/Wire/Noise/Rejection/Hidden.antt =====
-- internal/wire/noise.go: a rejection's text hides the key.
use go_aioesphomeapi.Base.{
  ℕ, zero, suc, ◌≤◌, ◌≡◌, refl, sym, ◌∙◌, ◌≢◌, ◌⊎◌, inl, inr, true, [], ◌∷◌, map, arith, length,
  take, All, Bytes, ◌+◌, ◌*◌, ◌/◌, ◌%◌, ◌<◌, false, ◌&&◌, ltb, ◌==◌, if◌then◌else◌, Bool-cases,
  Bool,
}
use go_aioesphomeapi.Wire.Noise.Rejection.{
  starts, contains, base64_letter, base64, trim_front, trim_back, max_noise_rejection_reason,
  clean_byte, is_space, redacted, unspecified, clean_reason,
}

module _ (f : ℕ → ℕ) (mark : ℕ) (only : (b : ℕ) → (f b ≡ b) ⊎ (f b ≡ mark)) where
  -- Bytes that a cleaning changed are its mark, so that a needle without the mark was there before.
  starts-map :
      (needle bs : Bytes)
      → All (λ b. b ≢ mark) needle
      → starts needle (map f bs) ≡ true
      → starts needle bs ≡ true
  unfolding starts
  starts-map [] bs h e = refl
  starts-map (x ∷ xs) [] h e = absurd cc
  starts-map (x ∷ xs) (b ∷ bs) h e =
      let rest = starts-map xs bs h.1 in
      let kept : f b ≡ x = ground (arith, e) in
      let same : f b ≡ b = (elim (only b) [ inl s ↦ s | inr m ↦ absurd (h.0 (sym kept ∙ m)) ]) in
      ground (arith, e, rest, same)

  contains-map :
      (bs needle : Bytes)
      → All (λ b. b ≢ mark) needle
      → contains (map f bs) needle ≡ true
      → contains bs needle ≡ true
  unfolding contains
  contains-map [] needle h e = e
  contains-map (b ∷ bs) needle h e =
      let first = starts-map needle (b ∷ bs) h in
      let later = contains-map bs needle h in ground (arith, e, first, later)

starts-take :
    (n : ℕ) (bs needle : Bytes) → starts needle (take n bs) ≡ true → starts needle bs ≡ true
unfolding starts
starts-take n bs [] e = refl
starts-take zero bs (x ∷ xs) e = absurd cc
starts-take (suc n) [] (x ∷ xs) e = absurd cc
starts-take (suc n) (b ∷ bs) (x ∷ xs) e = let rest = starts-take n bs xs in ground (arith, e, rest)

starts_empty : (needle bs : Bytes) → starts needle [] ≡ true → starts needle bs ≡ true
unfolding starts
starts_empty [] bs e = refl
starts_empty (x ∷ xs) bs e = absurd cc

contains_empty : (bs needle : Bytes) → starts needle [] ≡ true → contains bs needle ≡ true
unfolding contains
contains_empty [] needle e = e
contains_empty (b ∷ bs) needle e = let k = starts_empty needle (b ∷ bs) e in ground (arith, k)

contains-take :
    (n : ℕ) (bs needle : Bytes) → contains (take n bs) needle ≡ true → contains bs needle ≡ true
unfolding contains
contains-take zero bs needle e = contains_empty bs needle e
contains-take (suc n) [] needle e = e
contains-take (suc n) (b ∷ bs) needle e =
    let first = starts-take (suc n) (b ∷ bs) needle in
    let later = contains-take n bs needle in ground (arith, e, first, later)

contains-trim_front :
    (bs needle : Bytes) → contains (trim_front bs) needle ≡ true → contains bs needle ≡ true
unfolding contains trim_front
contains-trim_front [] needle e = e
contains-trim_front (b ∷ bs) needle e =
    let later = contains-trim_front bs needle in ground (arith, e, later)

starts-trim_back :
    (bs needle : Bytes) → starts needle (trim_back bs) ≡ true → starts needle bs ≡ true
unfolding starts trim_back
starts-trim_back bs [] e = refl
starts-trim_back [] (x ∷ xs) e = e
starts-trim_back (b ∷ bs) (x ∷ xs) e = let rest = starts-trim_back bs xs in ground (arith, e, rest)

contains-trim_back :
    (bs needle : Bytes) → contains (trim_back bs) needle ≡ true → contains bs needle ≡ true
unfolding contains trim_back
contains-trim_back [] needle e = e
contains-trim_back (b ∷ bs) needle e =
    elim (Bool-cases (is_space b && (length (trim_back bs) == 0))) [
      | inl s ↦ contains_empty (b ∷ bs) needle (ground (arith, e, s))
      | inr s ↦
          let first = starts-trim_back (b ∷ bs) needle in
          let later = contains-trim_back bs needle in ground (arith, e, s, first, later)
    ]

length-starts : (bs needle : Bytes) → starts needle bs ≡ true → length needle ≤ length bs
unfolding starts
length-starts bs [] e = omega arith
length-starts [] (x ∷ xs) e = absurd cc
length-starts (b ∷ bs) (x ∷ xs) e = let rest = length-starts bs xs in ground (arith, e, rest)

length-contains : (bs needle : Bytes) → contains bs needle ≡ true → length needle ≤ length bs
unfolding contains
length-contains [] needle e = length-starts [] needle e
length-contains (b ∷ bs) needle e =
    let first = length-starts (b ∷ bs) needle in
    let later = length-contains bs needle in ground (arith, e, first, later)

pub length-base64 : (bs : Bytes) → length bs ≤ length (base64 bs)
unfolding base64
length-base64 [] = omega arith
length-base64 (a ∷ []) = omega arith
length-base64 (a ∷ b ∷ []) = omega arith
length-base64 (a ∷ b ∷ c ∷ rest) = omega (arith, length-base64 rest)

base64_letter-≢ : (n : ℕ) → base64_letter n ≢ 63
unfolding base64_letter
base64_letter-≢ n = ground arith

pub base64-All : (bs : Bytes) → All (λ b. b ≢ 63) (base64 bs)
unfolding base64
base64-All [] = tt
base64-All (a ∷ []) =
    (base64_letter-≢ (a / 4), (base64_letter-≢ (a % 4 * 16), ((omega arith), ((omega arith), tt))))
base64-All (a ∷ b ∷ []) = (
  base64_letter-≢ (a / 4),
  (base64_letter-≢ (a % 4 * 16 + b / 16), (base64_letter-≢ (b % 16 * 4), ((omega arith), tt))),
)
base64-All (a ∷ b ∷ c ∷ rest) = (
  base64_letter-≢ (a / 4),
  (
    base64_letter-≢ (a % 4 * 16 + b / 16),
    (base64_letter-≢ (b % 16 * 4 + c / 64), (base64_letter-≢ (c % 64), base64-All rest)),
  ),
)

clean_byte_only : (b : ℕ) → (clean_byte b ≡ b) ⊎ (clean_byte b ≡ 63)
unfolding clean_byte
clean_byte_only b = ground arith

-- The part of the reason that may be shown, cleaned.
abbrev cut : Bytes → Bytes
cut raw =
    if ltb max_noise_rejection_reason (length raw) then take max_noise_rejection_reason raw else raw

choice-contains :
    (short : Bool) (xs ys zs needle : Bytes)
    → (contains xs needle ≡ true → contains zs needle ≡ true)
    → (contains ys needle ≡ true → contains zs needle ≡ true)
    → contains (if short then xs else ys) needle ≡ true
    → contains zs needle ≡ true
choice-contains true xs ys zs needle h k e = h e
choice-contains false xs ys zs needle h k e = k e

cut-contains : (raw needle : Bytes) → contains (cut raw) needle ≡ true → contains raw needle ≡ true
cut-contains raw needle =
    choice-contains (ltb max_noise_rejection_reason (length raw))
      (take max_noise_rejection_reason raw) raw raw needle
      (contains-take max_noise_rejection_reason raw needle) (λ e. e)

abbrev trimmed : Bytes → Bytes
trimmed raw = trim_back (trim_front (map clean_byte (cut raw)))

trimmed-contains :
    (raw needle : Bytes)
    → All (λ b. b ≢ 63) needle
    → contains (trimmed raw) needle ≡ true
    → contains raw needle ≡ true
trimmed-contains raw needle h e = cut-contains raw needle (
    contains-map clean_byte 63 clean_byte_only (cut raw) needle h (
      contains-trim_front (map clean_byte (cut raw)) needle
        (contains-trim_back (trim_front (map clean_byte (cut raw))) needle e)))

-- A long text is in no short one.
too_short : (bs needle : Bytes) → length bs < length needle → contains bs needle ≡ false
too_short bs needle h = elim (Bool-cases (contains bs needle)) [
  | inl e ↦ let k = length-contains bs needle e in absurd (omega (arith, k))
  | inr e ↦ e
]

-- What is not in the peer's text is not in the reason that is shown.
pub clean_reason-contains :
    (raw needle : Bytes)
    → All (λ b. b ≢ 63) needle
    → 31 ≤ length needle
    → contains raw needle ≡ false
    → contains (clean_reason raw) needle ≡ false
unfolding clean_reason
clean_reason-contains raw needle h long absent =
    let short = too_short unspecified needle (omega arith) in
    let shown = trimmed-contains raw needle h in
    elim (Bool-cases (contains (trimmed raw) needle)) [
      | inl e ↦ absurd (ground (arith, absent, shown, e))
      | inr e ↦ ground (arith, short, e)
    ]

pub redacted-contains : (needle : Bytes) → 31 ≤ length needle → contains redacted needle ≡ false
redacted-contains needle long = too_short redacted needle (omega arith)
