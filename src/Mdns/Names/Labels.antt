-- ===== src/Mdns/Names/Labels.antt =====
-- internal/mdns/dns.go: the labels of a name as a text, split at its dots, and as bytes.
use go_aioesphomeapi.Base.{
  ℕ, suc, ◌+◌, ◌≤◌, ◌<◌, ◌≡◌, refl, List, [], ◌∷◌, ◌++◌, arith, length, All, length-append, Bytes,
  inl, inr, ◌==◌, Bool-cases, ap, ◌⊎◌, Bool, true, false, if◌then◌else◌,
}
use go_aioesphomeapi.Mdns.Names.{dot, onto_first, split_dots, join_dots, trim_dot}

-- A label that `appendName` takes.
abbrev pub IsLabel : Bytes → Type 0
IsLabel label = (0 < length label) × (length label ≤ 63)

-- The labels as bytes, without the end.
unfoldable pub label_bytes : List Bytes → Bytes
label_bytes [] = []
label_bytes (label ∷ labels) = (length label ∷ label) ++ label_bytes labels

split_dots-nonempty :
    (t : Bytes) → (piece : Bytes) × (pieces : List Bytes) × (split_dots t ≡ piece ∷ pieces)
unfolding split_dots onto_first
split_dots-nonempty [] = ([], [], refl)
split_dots-nonempty (b ∷ bs) =
    let (piece, pieces, e) = split_dots-nonempty bs in
    elim (Bool-cases (b == dot)) [
      | inl is_dot ↦ ([], split_dots bs, ground (arith, is_dot))
      | inr letter ↦ (b ∷ piece, pieces, ground (arith, letter, e))
    ]

join_dots-onto_first :
    (b : ℕ) (pieces : List Bytes) → join_dots (onto_first b pieces) ≡ b ∷ join_dots pieces
unfolding join_dots onto_first
join_dots-onto_first b [] = refl
join_dots-onto_first b (p ∷ []) = refl
join_dots-onto_first b (p ∷ q ∷ ps) = refl

pub join_dots-split_dots : (t : Bytes) → join_dots (split_dots t) ≡ t
unfolding split_dots join_dots
join_dots-split_dots [] = refl
join_dots-split_dots (b ∷ bs) =
    let (piece, pieces, e) = split_dots-nonempty bs in
    ground (arith, e, join_dots-split_dots bs, join_dots-onto_first b (split_dots bs))

length-label_bytes-onto_first :
    (b : ℕ) (p : Bytes) (ps : List Bytes)
    → length (label_bytes (onto_first b (p ∷ ps))) ≡ suc (length (label_bytes (p ∷ ps)))
unfolding label_bytes onto_first
length-label_bytes-onto_first b p ps = refl

pub length-label_bytes-split_dots : (t : Bytes) → length (label_bytes (split_dots t)) ≡ length t + 1
unfolding split_dots label_bytes
length-label_bytes-split_dots [] = refl
length-label_bytes-split_dots (b ∷ bs) =
    let (piece, pieces, e) = split_dots-nonempty bs in
    ground
      (arith, e, length-label_bytes-split_dots bs, length-label_bytes-onto_first b piece pieces)

pub length-labels : (labels : List Bytes) → length labels ≤ length (label_bytes labels)
unfolding label_bytes
length-labels [] = omega arith
length-labels (label ∷ labels) =
    omega (arith, length-labels labels, length-append label (label_bytes labels))

unfoldable has_empty : List Bytes → Bool
has_empty [] = false
has_empty ([] ∷ ps) = true
has_empty ((b ∷ p) ∷ ps) = has_empty ps

unfoldable tail_has_empty : List Bytes → Bool
tail_has_empty [] = false
tail_has_empty (p ∷ ps) = has_empty ps

tail_has_empty-onto_first :
    (b : ℕ) (ps : List Bytes) → tail_has_empty (onto_first b ps) ≡ tail_has_empty ps
unfolding tail_has_empty onto_first has_empty
tail_has_empty-onto_first b [] = refl
tail_has_empty-onto_first b (p ∷ ps) = refl

has_empty-tail : (ps : List Bytes) → tail_has_empty ps ≡ true → has_empty ps ≡ true
unfolding tail_has_empty has_empty
has_empty-tail [] h = h
has_empty-tail ([] ∷ ps) h = refl
has_empty-tail ((b ∷ p) ∷ ps) h = h

IsLabel-full : (ps : List Bytes) → All IsLabel ps → has_empty ps ≡ false
unfolding has_empty
IsLabel-full [] k = refl
IsLabel-full ([] ∷ ps) k = absurd (omega (arith, k.0.0))
IsLabel-full ((b ∷ p) ∷ ps) k = IsLabel-full ps k.1

tail_has_empty-step :
    (b : ℕ) (ps : List Bytes)
    → tail_has_empty ps ≡ true
    → tail_has_empty (if b == dot then [] ∷ ps else onto_first b ps) ≡ true
tail_has_empty-step b ps h =
    let split : tail_has_empty ([] ∷ ps) ≡ has_empty ps = unfold tail_has_empty in refl in
    ground (arith, has_empty-tail ps h, tail_has_empty-onto_first b ps, split)

-- Either nothing is trimmed, or the text ends with a dot and so has an empty last label.
trim_dot-cases : (t : Bytes) → (trim_dot t ≡ t) ⊎ (tail_has_empty (split_dots t) ≡ true)
trim_dot-cases [] = inl (unfold trim_dot in refl)
trim_dot-cases (b ∷ []) = elim (Bool-cases (b == dot)) [
  | inl is_dot ↦ inr (unfold split_dots tail_has_empty has_empty in ground (arith, is_dot))
  | inr letter ↦ inl (unfold trim_dot in ground (arith, letter))
]
trim_dot-cases (b ∷ c ∷ bs) = elim (trim_dot-cases (c ∷ bs)) [
  | inl whole ↦ inl (unfold trim_dot in ap (◌∷◌ b) whole)
  | inr trailing ↦ inr (trailing_step b (c ∷ bs) trailing)
]
  where
    trailing_step :
        (b : ℕ) (bs : Bytes)
        → tail_has_empty (split_dots bs) ≡ true
        → tail_has_empty (split_dots (b ∷ bs)) ≡ true
    trailing_step b bs h = unfold split_dots in tail_has_empty-step b (split_dots bs) h

-- A text that splits into labels does not end with a dot.
pub trim_dot-labels : (t : Bytes) → All IsLabel (split_dots t) → trim_dot t ≡ t
trim_dot-labels t k = elim (trim_dot-cases t) [
  | inl whole ↦ whole
  | inr trailing ↦
      absurd (ground (arith, has_empty-tail (split_dots t) trailing, IsLabel-full (split_dots t) k))
]
