-- ===== src/Wire/Noise/Rejection/Shown.antt =====
-- internal/wire/noise.go: what a rejection's text may be.
use go_aioesphomeapi.Base.{
  ℕ, suc, ◌≤◌, ◌<◌, ◌≡◌, refl, ap, ◌≢◌, inl, inr, Bool, true, false, not, ◌&&◌, ◌||◌, [], ◌∷◌, map,
  arith, ltb, leb, ◌==◌, if◌then◌else◌, Bool-cases, length, take, All, length-take, Bytes,
}
use go_aioesphomeapi.Wire.Noise.Rejection.Hidden.{
  base64-All, length-base64, redacted-contains, clean_reason-contains,
}
use go_aioesphomeapi.Wire.Noise.Rejection.{
  contains, base64, without_breaks, contains_base64_key_echo, max_noise_rejection_reason,
  clean_byte, trim_front, trim_back, redacted, unspecified, clean_reason, sanitize_noise_rejection,
}

abbrev pub IsPrintable : ℕ → Type 0
IsPrintable b = (32 ≤ b) × (b ≤ 126)

clean_byte-IsPrintable : (b : ℕ) → IsPrintable (clean_byte b)
unfolding clean_byte
clean_byte-IsPrintable b = ground arith

clean-All : (bs : Bytes) → All IsPrintable (map clean_byte bs)
clean-All [] = tt
clean-All (b ∷ bs) = (clean_byte-IsPrintable b, clean-All bs)

trim_front-All : (bs : Bytes) → All IsPrintable bs → All IsPrintable (trim_front bs)
unfolding trim_front
trim_front-All [] h = h
trim_front-All (b ∷ bs) h = let k = trim_front-All bs h.1 in ground (arith, h, k)

trim_back-All : (bs : Bytes) → All IsPrintable bs → All IsPrintable (trim_back bs)
unfolding trim_back
trim_back-All [] h = h
trim_back-All (b ∷ bs) h = let k = trim_back-All bs h.1 in ground (arith, h, k)

length-trim_front : (bs : Bytes) → length (trim_front bs) ≤ length bs
unfolding trim_front
length-trim_front [] = omega arith
length-trim_front (b ∷ bs) = let k = length-trim_front bs in ground (arith, k)

length-trim_back : (bs : Bytes) → length (trim_back bs) ≤ length bs
unfolding trim_back
length-trim_back [] = omega arith
length-trim_back (b ∷ bs) = let k = length-trim_back bs in ground (arith, k)

length-map : (f : ℕ → ℕ) (bs : Bytes) → length (map f bs) ≡ length bs
length-map f [] = refl
length-map f (b ∷ bs) = ap suc (length-map f bs)

-- A text that is short, printable and not empty.
pub record IsText (reason : Bytes) : Type 0 where
  pub printable : All IsPrintable reason
  pub short : length reason ≤ 96
  pub filled : 0 < length reason

length-cut : (n : ℕ) (raw : Bytes) → length (if ltb n (length raw) then take n raw else raw) ≤ n
length-cut n raw = elim (Bool-cases (ltb n (length raw))) [
  | inl e ↦ let k = length-take n raw in ground (arith, e, k)
  | inr e ↦ ground (arith, e)
]

abbrev all_printable : Bytes → Bool
all_printable [] = true
all_printable (b ∷ bs) = (leb 32 b && leb b 126) && all_printable bs

all_printable-All : (bs : Bytes) → all_printable bs ≡ true → All IsPrintable bs
all_printable-All [] e = tt
all_printable-All (b ∷ bs) e = (ground (arith, e), all_printable-All bs (ground (arith, e)))

unspecified-IsText : IsText unspecified
unspecified-IsText = record {
  printable = all_printable-All unspecified refl;
  short = omega arith;
  filled = omega arith;
}

fallback-IsText :
    (bs : Bytes)
    → All IsPrintable bs
    → length bs ≤ 96
    → IsText (if length bs == 0 then unspecified else bs)
fallback-IsText bs h l = elim (Bool-cases (length bs == 0)) [
  | inl e ↦ rw e unspecified-IsText
  | inr e ↦
      let k : IsText bs = record { printable = h; short = l; filled = ground (arith, e) } in rw e k
]

clean_reason-IsText : (raw : Bytes) → IsText (clean_reason raw)
unfolding clean_reason
clean_reason-IsText raw =
    let part =
      if ltb max_noise_rejection_reason (length raw)
      then take max_noise_rejection_reason raw
      else raw in
    let shown = map clean_byte part in
    fallback-IsText (trim_back (trim_front shown))
      (trim_back-All (trim_front shown) (trim_front-All shown (clean-All part)))
      (omega (
        arith,
        length-trim_back (trim_front shown),
        length-trim_front shown,
        length-map clean_byte part,
        length-cut max_noise_rejection_reason raw,
      ))

redacted-IsText : IsText redacted
redacted-IsText = record {
  printable = all_printable-All redacted refl;
  short = omega arith;
  filled = omega arith;
}

-- Whether a text has a question mark.
abbrev pub has_mark : Bytes → Bool
has_mark [] = false
has_mark (b ∷ bs) = b == 63 || has_mark bs

has_mark-All : (bs : Bytes) → has_mark bs ≡ false → All (λ b. b ≢ 63) bs
has_mark-All [] e = tt
has_mark-All (b ∷ bs) e = (ground (arith, e), has_mark-All bs (ground (arith, e)))

-- What the code promises of a rejection's text, for a key: it may be shown, and it shows neither the
-- base64 form of the key nor, where the key has no question mark, the key itself.
pub record IsHarmless (psk reason : Bytes) : Type 0 where
  pub text : IsText reason
  pub no_base64 : contains reason (base64 psk) ≡ false
  pub no_key : (has_mark psk || not (contains reason psk)) ≡ true

clean_reason-no_key :
    (raw psk : Bytes)
    → 31 ≤ length psk
    → contains raw psk ≡ false
    → (has_mark psk || not (contains (clean_reason raw) psk)) ≡ true
clean_reason-no_key raw psk long absent = elim (Bool-cases (has_mark psk)) [
  | inl m ↦ ground (arith, m)
  | inr m ↦
      let k = clean_reason-contains raw psk (has_mark-All psk m) long absent in ground (arith, m, k)
]

hidden_key : (a b : Bool) → b ≡ false → (a || not b) ≡ true
hidden_key true b h = refl
hidden_key false b h = ground (arith, h)

long_key : (n : ℕ) → 31 ≤ n → ltb 0 n ≡ true
long_key n h = ground arith

neither : (a b c : Bool) → (a || (b || c)) ≡ false → (a ≡ false) × (b ≡ false)
neither false false c h = (refl, refl)
neither false true c h = absurd cc
neither true b c h = absurd cc

-- Whatever a peer sends as the reason of a rejection, with a key of at least 31 bytes the text
-- that is shown is printable ASCII of 1 to 96 bytes and contains neither the base64 form of the
-- key nor, if the key has no question mark, the key itself.
pub sanitize-IsHarmless :
    (raw psk : Bytes) → 31 ≤ length psk → IsHarmless psk (sanitize_noise_rejection raw psk)
unfolding sanitize_noise_rejection contains_base64_key_echo
sanitize-IsHarmless raw psk long =
    let wide : 31 ≤ length (base64 psk) = omega (arith, length-base64 psk) in
    let hidden = redacted-contains psk long in
    let redaction : IsHarmless psk redacted = record {
      text = redacted-IsText;
      no_base64 = redacted-contains (base64 psk) wide;
      no_key = hidden_key (has_mark psk) (contains redacted psk) hidden;
    } in
    let some_key = long_key (length psk) long in
    elim (Bool-cases (
      contains raw psk
      || (contains raw (base64 psk) || contains (without_breaks raw) (base64 psk)))) [
        | inl e ↦ rw (some_key, e, sanitize_noise_rejection) redaction
        | inr e ↦
            let quiet =
              neither (contains raw psk) (contains raw (base64 psk))
                (contains (without_breaks raw) (base64 psk)) e in
            let cleaned : IsHarmless psk (clean_reason raw) = record {
              text = clean_reason-IsText raw;
              no_base64 = clean_reason-contains raw (base64 psk) (base64-All psk) wide quiet.1;
              no_key = clean_reason-no_key raw psk long quiet.0;
            } in
            rw (some_key, e, sanitize_noise_rejection) cleaned
      ]
