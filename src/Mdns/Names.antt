-- ===== src/Mdns/Names.antt =====
-- internal/mdns/dns.go: names as labels, written and read. `strings.ToLower` and `strings.EqualFold` are
-- written out for ASCII; what they do with other texts is a parameter.
pub mod Labels
pub mod Reading
pub mod RoundTrip
use go_aioesphomeapi.Base.{
  ℕ, ◌+◌, Bool, true, ◌&&◌, ◌||◌, Option, none, some, List, [], ◌∷◌, ◌++◌, ltb, leb, ◌==◌,
  if◌then◌else◌, length, Bytes, bytes_equal,
}

-- `strings.ToLower` and `strings.EqualFold` on texts that are not ASCII.
pub record Unicode : Type 0 where
  pub lower : Bytes → Bytes
  pub fold : Bytes → Bytes → Bool

-- A byte as an ASCII letter in lower case.
unfoldable pub ascii_lower : ℕ → ℕ
ascii_lower b = if leb 65 b && leb b 90 then b + 32 else b

unfoldable pub is_ascii : Bytes → Bool
is_ascii [] = true
is_ascii (b ∷ bs) = ltb b 128 && is_ascii bs

unfoldable pub lower_all : Bytes → Bytes
lower_all [] = []
lower_all (b ∷ bs) = ascii_lower b ∷ lower_all bs

-- `strings.ToLower`
unfoldable pub to_lower : Unicode → Bytes → Bytes
to_lower u s = if is_ascii s then lower_all s else u.lower s

-- `strings.EqualFold`
unfoldable pub equal_fold : Unicode → Bytes → Bytes → Bool
equal_fold u s t =
    if is_ascii s && is_ascii t then bytes_equal (lower_all s) (lower_all t) else u.fold s t

abbrev pub dot : ℕ
dot = 46

-- `strings.TrimSuffix(name, ".")`
unfoldable pub trim_dot : Bytes → Bytes
trim_dot [] = []
trim_dot (b ∷ []) = if b == dot then [] else b ∷ []
trim_dot (b ∷ c ∷ bs) = b ∷ trim_dot (c ∷ bs)

-- `canonicalName`
unfoldable pub canonical_name : Unicode → Bytes → Bytes
canonical_name u name = to_lower u (trim_dot name) ++ (dot ∷ [])

-- A byte in front of the first of the pieces.
unfoldable pub onto_first : ℕ → List Bytes → List Bytes
onto_first b [] = (b ∷ []) ∷ []
onto_first b (piece ∷ pieces) = (b ∷ piece) ∷ pieces

-- `strings.Split(name, ".")`
unfoldable pub split_dots : Bytes → List Bytes
split_dots [] = [] ∷ []
split_dots (b ∷ bs) = let rest = split_dots bs in if b == dot then [] ∷ rest else onto_first b rest

-- `strings.Join(labels, ".")`
unfoldable pub join_dots : List Bytes → Bytes
join_dots [] = []
join_dots (piece ∷ []) = piece
join_dots (piece ∷ other ∷ pieces) = piece ++ (dot ∷ join_dots (other ∷ pieces))

-- The loop of `appendName`; `none` is `errNameTooLong`.
unfoldable pub append_labels : Bytes → List Bytes → Option Bytes
append_labels dst [] = some (dst ++ (0 ∷ []))
append_labels dst (label ∷ labels) =
    let rest = append_labels (dst ++ (length label ∷ label)) labels in
    if (length label == 0) || ltb 63 (length label) then none else rest

-- `appendName`
unfoldable pub append_name : Bytes → Bytes → Option Bytes
append_name dst name =
    let trimmed = trim_dot name in
    if bytes_equal trimmed []
    then some (dst ++ (0 ∷ []))
    else if ltb 253 (length trimmed)
    then none
    else append_labels dst (split_dots trimmed)
