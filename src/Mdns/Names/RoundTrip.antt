-- ===== src/Mdns/Names/RoundTrip.antt =====
-- internal/mdns/dns.go: `appendName` and then `readName`.
use go_aioesphomeapi.Base.{
  ℕ, suc, ◌+◌, ◌≤◌, ◌<◌, ◌≡◌, refl, none, some, List, [], ◌∷◌, ◌++◌, append_assoc, arith, length,
  drop, All, length-append, take-append, Bytes, byte_at, zero, inl, inr, append-nil, Bool-cases,
  sym, ap, ◌∙◌, ◌⊎◌, bytes_equal, bytes_equal_iff,
}
use go_aioesphomeapi.Mdns.Names.{
  append_labels, dot, split_dots, join_dots, trim_dot, Unicode, canonical_name, append_name,
  to_lower,
}
use go_aioesphomeapi.Mdns.Names.Labels.{
  IsLabel, label_bytes, join_dots-split_dots, length-labels, trim_dot-labels,
  length-label_bytes-split_dots,
}
use go_aioesphomeapi.Mdns.Names.Reading.{
  ReadState, take_label, read_round, found, go_on, read_loop, name_fuel, start_at, read_name,
}

pub append_labels_writes :
    (dst : Bytes) (labels : List Bytes) (out : Bytes)
    → append_labels dst labels ≡ some out
    → All IsLabel labels × (out ≡ dst ++ (label_bytes labels ++ (0 ∷ [])))
unfolding append_labels label_bytes
append_labels_writes dst [] out e = ground arith
append_labels_writes dst (label ∷ labels) out e = ground (
  arith,
  append_labels_writes (dst ++ (length label ∷ label)) labels out,
  append_assoc dst (length label ∷ label) (label_bytes labels ++ (0 ∷ [])),
  append_assoc label (label_bytes labels) (0 ∷ []),
)

byte_at-append : (pre : Bytes) (b : ℕ) (rest : Bytes) → byte_at (pre ++ (b ∷ rest)) (length pre) ≡ b
byte_at-append [] b rest = refl
byte_at-append (p ∷ pre) b rest = byte_at-append pre b rest

drop-append-suc :
    (pre : Bytes) (b : ℕ) (rest : Bytes) → drop (suc (length pre)) (pre ++ (b ∷ rest)) ≡ rest
drop-append-suc [] b rest = refl
drop-append-suc (p ∷ pre) b rest = drop-append-suc pre b rest

-- The state of the loop in front of the labels that are left.
abbrev reading : ℕ → ℕ → List Bytes → ReadState
reading offset name_length labels = record {
  offset = offset;
  next = none;
  jumps = 0;
  name_length = name_length;
  labels = labels;
}

read_round-end :
    (pre rest : Bytes) (n : ℕ) (acc : List Bytes)
    → read_round (pre ++ (0 ∷ rest)) (reading (length pre) n acc) ≡ found acc (suc (length pre))
unfolding read_round
read_round-end pre rest n acc =
    ground (arith, byte_at-append pre 0 rest, length-append pre (0 ∷ rest))

read_round-label :
    (pre label rest : Bytes) (n : ℕ) (acc : List Bytes)
    → IsLabel label
    → n + (length label + 1) ≤ 254
    → read_round (pre ++ (length label ∷ (label ++ rest))) (reading (length pre) n acc)
      ≡ go_on
          (reading (length pre + (length label + 1)) (n + (length label + 1)) (acc ++ (label ∷ [])))
unfolding read_round take_label
read_round-label pre label rest n acc k h = ground (
  arith,
  byte_at-append pre (length label) (label ++ rest),
  length-append pre (length label ∷ (label ++ rest)),
  length-append label rest,
  drop-append-suc pre (length label) (label ++ rest),
  take-append label rest,
)

read_loop_next :
    (fuel : ℕ) (message : Bytes) (st st' : ReadState)
    → read_round message st ≡ go_on st'
    → read_loop (suc fuel) message st ≡ read_loop fuel message st'
unfolding read_loop
read_loop_next fuel message st st' e = ground (arith, e)

read_loop-labels :
    (fuel : ℕ) (pre : Bytes) (labels : List Bytes) (rest : Bytes) (n : ℕ) (acc : List Bytes)
    → All IsLabel labels
    → n + length (label_bytes labels) ≤ 254
    → length labels < fuel
    → read_loop fuel (pre ++ (label_bytes labels ++ (0 ∷ rest))) (reading (length pre) n acc)
      ≡ some (some (acc ++ labels, length pre + length (label_bytes labels) + 1))
read_loop-labels zero pre labels rest n acc k h f = absurd (omega arith)
read_loop-labels (suc fuel) pre [] rest n acc k h f =
    unfold read_loop label_bytes in ground (arith, read_round-end pre rest n acc, append-nil acc)
read_loop-labels (suc fuel) pre (label ∷ labels) rest n acc k h f =
    ap (λ (m : Bytes). read_loop (suc fuel) m (reading (length pre) n acc)) shape
    ∙ read_loop_next fuel _ _ _ (read_round-label pre label tail n acc k.0 room)
    ∙ ap (λ (m : Bytes). read_loop fuel m st) (sym (append_assoc pre front tail))
    ∙ ap
        (λ (i : ℕ).
          read_loop fuel ((pre ++ front) ++ tail) (reading i (n + (length label + 1)) more))
        (sym (length-append pre front ∙ place))
    ∙ read_loop-labels fuel (pre ++ front) labels rest (n + (length label + 1)) more k.1 fits
        (omega arith)
    ∙ (unfold label_bytes in
        ground (
          arith,
          append_assoc acc (label ∷ []) labels,
          length-append pre front,
          length-append label (label_bytes labels),
        ))
  where
    tail : Bytes
    tail = label_bytes labels ++ (0 ∷ rest)

    front : Bytes
    front = length label ∷ label

    more : List Bytes
    more = acc ++ (label ∷ [])

    st : ReadState
    st = reading (length pre + (length label + 1)) (n + (length label + 1)) more

    size : length (label_bytes (label ∷ labels)) ≡ suc (length label) + length (label_bytes labels)
    size = unfold label_bytes in length-append front (label_bytes labels)

    room : n + (length label + 1) ≤ 254
    room = omega (arith, size, h)

    fits : n + (length label + 1) + length (label_bytes labels) ≤ 254
    fits = omega (arith, size, h)

    place : length pre + length front ≡ length pre + (length label + 1)
    place = omega arith

    shape :
        pre ++ (label_bytes (label ∷ labels) ++ (0 ∷ rest))
        ≡ pre ++ (length label ∷ (label ++ tail))
    shape =
        unfold label_bytes in
        ap (λ (bs : Bytes). pre ++ (length label ∷ bs))
          (append_assoc label (label_bytes labels) (0 ∷ rest))

read_loop_at :
    (u : Unicode) (pre : Bytes) (labels : List Bytes) (rest : Bytes)
    → All IsLabel labels
    → length (label_bytes labels) ≤ 254
    → read_name u (pre ++ (label_bytes labels ++ (0 ∷ rest))) (length pre)
      ≡ some (canonical_name u (join_dots labels), length pre + length (label_bytes labels) + 1)
unfolding read_name start_at
read_loop_at u pre labels rest k h = ground (
  arith,
  read_loop-labels name_fuel pre labels rest 0 [] k (omega arith)
      (omega (arith, length-labels labels)),
  length-append pre (label_bytes labels ++ (0 ∷ rest)),
  length-append (label_bytes labels) (0 ∷ rest),
)

read_name-written :
    (u : Unicode) (pre rest : Bytes) (labels : List Bytes) (out : Bytes)
    → All IsLabel labels
    → length (label_bytes labels) ≤ 254
    → out ≡ label_bytes labels ++ (0 ∷ [])
    → read_name u (pre ++ (out ++ rest)) (length pre)
      ≡ some (canonical_name u (join_dots labels), length pre + length out)
read_name-written u pre rest labels out k h e =
    ap (λ (bs : Bytes). read_name u (pre ++ bs) (length pre)) shape
    ∙ read_loop_at u pre labels rest k h
    ∙ ap (λ (n : ℕ). some (canonical_name u (join_dots labels), n)) (omega (arith, size))
  where
    shape : out ++ rest ≡ label_bytes labels ++ (0 ∷ rest)
    shape = ap (λ (bs : Bytes). bs ++ rest) e ∙ append_assoc (label_bytes labels) (0 ∷ []) rest

    size : length out ≡ length (label_bytes labels) + 1
    size = ap length e ∙ length-append (label_bytes labels) (0 ∷ [])

-- What `appendName` writes for a name.
pub append_name-cases :
    (name out : Bytes)
    → append_name [] name ≡ some out
    → ((trim_dot name ≡ []) × (out ≡ 0 ∷ []))
      ⊎ ((length (trim_dot name) ≤ 253)
          × (append_labels [] (split_dots (trim_dot name)) ≡ some out))
unfolding append_name
append_name-cases name out e = elim (Bool-cases (bytes_equal (trim_dot name) [])) [
  | inl empty ↦ inl ((bytes_equal_iff (trim_dot name) []).0 empty, ground (arith, empty))
  | inr full ↦ inr (ground (arith, full), ground (arith, full))
]

canonical_name-labels :
    (u : Unicode) (name : Bytes)
    → All IsLabel (split_dots (trim_dot name))
    → canonical_name u (join_dots (split_dots (trim_dot name))) ≡ canonical_name u name
unfolding canonical_name
canonical_name-labels u name k =
    let t = trim_dot name in
    ap (λ (bs : Bytes). to_lower u bs ++ (dot ∷ []))
      (ap trim_dot (join_dots-split_dots t) ∙ trim_dot-labels t k)

canonical_name-root :
    (u : Unicode) (name : Bytes)
    → trim_dot name ≡ []
    → canonical_name u (join_dots []) ≡ canonical_name u name
unfolding canonical_name trim_dot join_dots
canonical_name-root u name e = ap (λ (t : Bytes). to_lower u t ++ (dot ∷ [])) (sym e)

-- A name that appendName writes is read back at its place in any message, in canonical form, and
-- the reader stops right behind it.
pub read_name-append_name :
    (u : Unicode) (pre rest name out : Bytes)
    → append_name [] name ≡ some out
    → read_name u (pre ++ (out ++ rest)) (length pre)
      ≡ some (canonical_name u name, length pre + length out)
read_name-append_name u pre rest name out e = elim (append_name-cases name out e) [
  | inl (empty, is_root) ↦
      read_name-written u pre rest [] out tt (unfold label_bytes in omega arith)
        (unfold label_bytes in is_root)
      ∙ ap (λ (bs : Bytes). some (bs, length pre + length out)) (canonical_name-root u name empty)
  | inr (short, written) ↦
      let t = trim_dot name in
      let (k, shape) = append_labels_writes [] (split_dots t) out written in
      read_name-written u pre rest (split_dots t) out k
        (omega (arith, length-label_bytes-split_dots t, short)) shape
      ∙ ap (λ (bs : Bytes). some (bs, length pre + length out)) (canonical_name-labels u name k)
]

-- A name takes 255 bytes at most.
pub append_name_bounds : (name out : Bytes) → append_name [] name ≡ some out → length out ≤ 255
append_name_bounds name out e = elim (append_name-cases name out e) [
  | inl (empty, is_root) ↦ omega (arith, ap length is_root)
  | inr (short, written) ↦
      let t = trim_dot name in
      let (k, shape) = append_labels_writes [] (split_dots t) out written in
      omega (
        arith,
        length-label_bytes-split_dots t,
        length-append (label_bytes (split_dots t)) (0 ∷ []),
        ap length shape,
        short,
      )
]
