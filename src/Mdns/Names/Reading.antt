-- ===== src/Mdns/Names/Reading.antt =====
-- internal/mdns/dns.go: `readName`, with the compression pointers. Its loop runs on fuel, of which the
-- limits on jumps and on the length of a name leave enough.
use go_aioesphomeapi.Base.{
  ℕ, zero, suc, ◌+◌, ◌-◌, ◌*◌, ◌/◌, ◌%◌, ◌≤◌, ◌≡◌, ◌≢◌, not, ◌||◌, Option, none, some, List, [],
  ◌∷◌, ◌++◌, ltb, leb, ◌==◌, if◌then◌else◌, length, take, drop, Bytes, byte_at, refl, ◌⊎◌, inl, inr,
  arith, ◌<◌, Option-cases,
}
use go_aioesphomeapi.Mdns.Names.{Unicode, canonical_name, join_dots}

-- The variables of the loop; `next` is -1 in Go until it is known.
pub record ReadState : Type 0 where
  pub offset : ℕ
  pub next : Option ℕ
  pub jumps : ℕ
  pub name_length : ℕ
  pub labels : List Bytes

pub data ReadStep : Type 0 where
  refused : ReadStep
  found : (labels : List Bytes) (next : ℕ) → ReadStep
  go_on : ReadState → ReadStep

abbrev pub max_dns_name_jumps : ℕ
max_dns_name_jumps = 16

-- `if next < 0 { next = n }`
abbrev pub settle : Option ℕ → ℕ → ℕ
settle none n = n
settle (some m) n = m

-- A compression pointer: its two bytes stand inside the message.
unfoldable pub follow_pointer : Bytes → ReadState → ReadStep
follow_pointer message st =
    let target = byte_at message st.offset % 64 * 256 + byte_at message (suc st.offset) in
    if leb (length message) (suc st.offset) || leb max_dns_name_jumps st.jumps
    then refused
    else if leb (length message) target
    then refused
    else go_on (record st {
      offset = target;
      next = some (settle st.next (st.offset + 2));
      jumps = suc st.jumps;
    })

-- A label of `size` bytes.
unfoldable pub take_label : ℕ → Bytes → ReadState → ReadStep
take_label size message st =
    if ltb (length message) (suc st.offset + size)
    then refused
    else if ltb 254 (st.name_length + (size + 1))
    then refused
    else go_on (record st {
      offset = suc st.offset + size;
      name_length = st.name_length + (size + 1);
      labels = st.labels ++ (take size (drop (suc st.offset) message) ∷ []);
    })

-- One round of the loop. `/ 64` reads the two high bits of the byte.
unfoldable pub read_round : Bytes → ReadState → ReadStep
read_round message st =
    let size = byte_at message st.offset in
    if leb (length message) st.offset
    then refused
    else if size == 0
    then found st.labels (settle st.next (suc st.offset))
    else if size / 64 == 3
    then follow_pointer message st
    else if not (size / 64 == 0)
    then refused
    else take_label size message st

-- The loop: `none` where the fuel ends, `some none` for `errMalformedMessage`.
unfoldable pub read_loop : ℕ → Bytes → ReadState → Option (Option (List Bytes × ℕ))
read_loop zero message st = none
read_loop (suc fuel) message st = elim (read_round message st) [
  | refused ↦ some none
  | found labels next ↦ some (some (labels, next))
  | go_on st' ↦ read_loop fuel message st'
]

abbrev pub name_fuel : ℕ
name_fuel = 272

unfoldable pub start_at : ℕ → ReadState
start_at start = record { offset = start; next = none; jumps = 0; name_length = 0; labels = [] }

-- `readName`. A start past the end is refused by the loop's own first test, which is the same.
unfoldable pub read_name : Unicode → Bytes → ℕ → Option (Bytes × ℕ)
read_name u message start =
    if leb (length message) start
    then none
    else elim (read_loop name_fuel message (start_at start)) [
      | some (some (labels, next)) ↦ some (canonical_name u (join_dots labels), next)
      | _ ↦ none
    ]

-- How many rounds are left: a round that goes on adds a jump, or two to the name's length.
abbrev budget : ReadState → ℕ
budget st = (16 - st.jumps) + (254 - st.name_length)

follow_pointer_shrinks :
    (message : Bytes) (st st' : ReadState)
    → follow_pointer message st ≡ go_on st'
    → suc (budget st') ≤ budget st
unfolding follow_pointer
follow_pointer_shrinks message st st' e = ground arith

take_label_shrinks :
    (size : ℕ) (message : Bytes) (st st' : ReadState)
    → take_label size message st ≡ go_on st'
    → suc (budget st') ≤ budget st
unfolding take_label
take_label_shrinks size message st st' e = ground arith

read_round_shrinks :
    (message : Bytes) (st st' : ReadState)
    → read_round message st ≡ go_on st'
    → suc (budget st') ≤ budget st
unfolding read_round
read_round_shrinks message st st' e = ground (
  arith,
  follow_pointer_shrinks message st st',
  take_label_shrinks (byte_at message st.offset) message st st',
)

ReadStep-cases :
    (r : ReadStep)
    → (r ≡ refused)
      ⊎ ((labels : List Bytes) × (next : ℕ) × (r ≡ found labels next))
      ⊎ ((st : ReadState) × (r ≡ go_on st))
ReadStep-cases refused = inl refl
ReadStep-cases (found labels next) = inr (inl (labels, next, refl))
ReadStep-cases (go_on st) = inr (inr (st, refl))

-- x
pub read_loop_ends :
    (fuel : ℕ) (message : Bytes) (st : ReadState)
    → suc (budget st) ≤ fuel
    → read_loop fuel message st ≢ none
unfolding read_loop
read_loop_ends zero message st h = absurd (omega arith)
read_loop_ends (suc fuel) message st h = elim (ReadStep-cases (read_round message st)) [
  | inl e ↦ ground (arith, e)
  | inr (inl (labels, next, e)) ↦ ground (arith, e)
  | inr (inr (st', e)) ↦ ground (
    arith,
    e,
    read_loop_ends fuel message st' (omega (arith, read_round_shrinks message st st' e)),
  )
]

-- Where the name that began at `start` ends, as far as the loop knows.
abbrev IsPlaced : ℕ → Bytes → ReadState → Type 0
IsPlaced start message st = elim st.next [
  | none ↦ start ≤ st.offset
  | some n ↦ (start < n) × (n ≤ length message)
]

follow_pointer-IsPlaced :
    (start : ℕ) (message : Bytes) (st st' : ReadState)
    → IsPlaced start message st
    → follow_pointer message st ≡ go_on st'
    → IsPlaced start message st'
unfolding follow_pointer
follow_pointer-IsPlaced start message st st' p e = ground arith

take_label-IsPlaced :
    (start size : ℕ) (message : Bytes) (st st' : ReadState)
    → IsPlaced start message st
    → take_label size message st ≡ go_on st'
    → IsPlaced start message st'
unfolding take_label
take_label-IsPlaced start size message st st' p e = ground arith

read_round-IsPlaced :
    (start : ℕ) (message : Bytes) (st st' : ReadState)
    → IsPlaced start message st
    → read_round message st ≡ go_on st'
    → IsPlaced start message st'
unfolding read_round
read_round-IsPlaced start message st st' p e = ground (
  arith,
  follow_pointer-IsPlaced start message st st' p,
  take_label-IsPlaced start (byte_at message st.offset) message st st' p,
)

read_round-found :
    (start : ℕ) (message : Bytes) (st : ReadState) (labels : List Bytes) (next : ℕ)
    → IsPlaced start message st
    → read_round message st ≡ found labels next
    → (start < next) × (next ≤ length message)
unfolding read_round follow_pointer take_label
read_round-found start message st labels next p e = ground arith

read_loop_placed :
    (fuel start : ℕ) (message : Bytes) (st : ReadState) (labels : List Bytes) (next : ℕ)
    → IsPlaced start message st
    → read_loop fuel message st ≡ some (some (labels, next))
    → (start < next) × (next ≤ length message)
unfolding read_loop
read_loop_placed zero start message st labels next p h = absurd (ground arith)
read_loop_placed (suc fuel) start message st labels next p h =
    elim (ReadStep-cases (read_round message st)) [
      | inl e ↦ absurd (ground (arith, e))
      | inr (inl (ls, n, e)) ↦ read_round-found start message st labels next p (ground (arith, e))
      | inr (inr (st', e)) ↦
          read_loop_placed fuel start message st' labels next
            (read_round-IsPlaced start message st st' p e) (ground (arith, e))
    ]

-- A name that is read, compressed or not, ends behind its start and within the message, so that
-- every later read makes progress inside it.
pub read_name_bounds :
    (u : Unicode) (message : Bytes) (start : ℕ) (name : Bytes) (next : ℕ)
    → read_name u message start ≡ some (name, next)
    → (start < next) × (next ≤ length message)
unfolding read_name
read_name_bounds u message start name next h =
    elim (Option-cases (read_loop name_fuel message (start_at start))) [
      | inl e ↦ absurd (ground (arith, e))
      | inr (none, e) ↦ absurd (ground (arith, e))
      | inr (some (labels, n), e) ↦
          let placed : (start < n) × (n ≤ length message) =
            read_loop_placed name_fuel start message (start_at start) labels n
              (unfold start_at in omega arith) e in
          ground (arith, e, placed)
    ]

-- The loop that reads a name ends on every message and start, with a name or a refusal, within 272
-- rounds, whatever its pointers do.
pub read_name_total :
    (message : Bytes) (start : ℕ)
    → (answer : Option (List Bytes × ℕ)) × (read_loop name_fuel message (start_at start)
        ≡ some answer)
read_name_total message start = elim (Option-cases (read_loop name_fuel message (start_at start))) [
  | inl e ↦
      absurd (read_loop_ends name_fuel message (start_at start) (unfold start_at in omega arith) e)
  | inr answer ↦ answer
]
