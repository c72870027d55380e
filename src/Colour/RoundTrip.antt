-- ===== src/Colour/RoundTrip.antt =====
-- colour.go: a colour mode's name, read back.
use mathlib.Core.Path.{subst}
use go_aioesphomeapi.Colour.{same_mode}
use go_aioesphomeapi.Base.{
  suc, ◌≡◌, refl, ap, ◌≢◌, ◌⊎◌, inl, inr, true, false, none, List, [], ◌∷◌, arith, ◌==◌, ==_iff,
  Bool-cases, All, Bytes, codes, bytes_equal, ℤ, pos, negsuc, Bool,
}
use go_aioesphomeapi.Wire.Noise.Rejection.{starts}
use go_aioesphomeapi.Conveyor.Texts.{decimal-All}
use go_aioesphomeapi.Colour.{
  colour_mode_names, name_in, mode_in, mode_string, replace_all, colour_mode_name,
  parse_colour_mode,
}

-- A text without a capital C is no name and keeps its letters.
abbrev NoC : Bytes → Type 0
NoC = All (λ b. b ≢ 67)

replace_nothing : (old new s : Bytes) → NoC s → replace_all (67 ∷ old) new 0 s ≡ s
unfolding replace_all starts
replace_nothing old new [] h = refl
replace_nothing old new (b ∷ bs) h =
    let rest = replace_nothing old new bs h.1 in
    let other_byte : (67 == b) ≡ false = ground (arith, h.0) in rw (other_byte, rest) refl

abbrev is_c_word : Bytes → Bool
is_c_word [] = false
is_c_word (b ∷ bs) = b == 67

starts_with_c : (name s : Bytes) → is_c_word name ≡ true → NoC s → bytes_equal name s ≡ false
unfolding bytes_equal
starts_with_c [] s c h = absurd cc
starts_with_c (x ∷ xs) [] c h = refl
starts_with_c (x ∷ xs) (b ∷ bs) c h = ground (arith, c, h.0)

no_name :
    (table : List (ℤ × Bytes)) (s : Bytes)
    → All (λ p. is_c_word p.1 ≡ true) table
    → NoC s
    → mode_in table s ≡ none
unfolding mode_in
no_name [] s h n = refl
no_name ((m, name) ∷ rest) s h n =
    let later = no_name rest s h.1 n in
    let differs = starts_with_c name s h.0 n in rw (differs) later

-- What a name gives when it is parsed.
abbrev pub IsKnown : ℤ → Type 0
IsKnown mode = parse_colour_mode (colour_mode_name mode) ≡ (mode, true)

same_mode→≡ : (a b : ℤ) → same_mode a b ≡ true → a ≡ b
same_mode→≡ (pos a) (pos b) h = ap pos ((==_iff a b).0 h)
same_mode→≡ (negsuc a) (negsuc b) h = ap negsuc ((==_iff a b).0 h)
same_mode→≡ (pos a) (negsuc b) h = absurd cc
same_mode→≡ (negsuc a) (pos b) h = absurd cc

names-IsKnown :
    (table : List (ℤ × Bytes)) (mode : ℤ)
    → All (λ p. IsKnown p.0) table
    → (name_in table mode ≡ none) ⊎ IsKnown mode
unfolding name_in
names-IsKnown [] mode h = inl refl
names-IsKnown ((m, name) ∷ rest) mode h = elim (Bool-cases (same_mode m mode)) [
  | inl e ↦ inr (subst IsKnown (same_mode→≡ m mode e) h.0)
  | inr e ↦ elim (names-IsKnown rest mode h.1) [ inl n ↦ inl (rw e n) | inr k ↦ inr k ]
]

names_in_table-IsKnown : All (λ p. IsKnown p.0) colour_mode_names
unfolding parse_colour_mode colour_mode_name mode_string name_in mode_in replace_all starts
    bytes_equal
names_in_table-IsKnown =
    (refl, (refl, (refl, (refl, (refl, (refl, (refl, (refl, (refl, (refl, (refl, tt)))))))))))

table_words : All (λ p. is_c_word p.1 ≡ true) colour_mode_names
table_words =
    (refl, (refl, (refl, (refl, (refl, (refl, (refl, (refl, (refl, (refl, (refl, tt)))))))))))

number-NoC : (mode : ℤ) → name_in colour_mode_names mode ≡ none → NoC (mode_string mode)
unfolding mode_string name_in
number-NoC (pos n) h = rw (mode_string, h) (decimal-All (λ b. b ≢ 67) n (λ d lt. omega arith))
number-NoC (negsuc n) h =
    ((λ e. omega (arith, e)), decimal-All (λ b. b ≢ 67) (suc n) (λ d lt. omega arith))

-- Every colour mode that the pinned protocol names is read back from its name in the library's
-- spelling, and the name of any other mode, which is its number, is refused.
pub parse_colour_mode-colour_mode_name :
    (mode : ℤ)
    → IsKnown mode
      ⊎ ((name_in colour_mode_names mode ≡ none)
          × (parse_colour_mode (colour_mode_name mode) ≡ (pos 0, false)))
unfolding parse_colour_mode colour_mode_name
parse_colour_mode-colour_mode_name mode =
    elim (names-IsKnown colour_mode_names mode names_in_table-IsKnown) [
      | inr k ↦ inl k
      | inl n ↦
          let plain = number-NoC mode n in
          let named = replace_nothing (codes "OLOR") (codes "COLOUR") (mode_string mode) plain in
          let read = replace_nothing (codes "OLOUR") (codes "COLOR") (mode_string mode) plain in
          let absent = no_name colour_mode_names (mode_string mode) table_words plain in
          inr (n, rw (colour_mode_name, parse_colour_mode, named, read, absent) refl)
    ]
