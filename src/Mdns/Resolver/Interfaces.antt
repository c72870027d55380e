-- ===== src/Mdns/Resolver/Interfaces.antt =====
-- internal/mdns/resolver.go: the choice of the interfaces, and how the answers of their sockets are put
-- together.
use go_aioesphomeapi.Base.{
  ℕ, Bool, true, false, ◌&&◌, ◌||◌, Option, none, some, List, [], ◌∷◌, ◌++◌, ltb, ◌==◌,
  if◌then◌else◌, length, take, Bytes, bytes_equal, Result, ok, err,
}
use go_aioesphomeapi.Wire.Io.{IoError}
use go_aioesphomeapi.Mdns.Resolver.{Lookup, LookupError, asking, found, gave_up}

-- `net.Interface`, with the flags that the code asks for, and `net.Addr`; the text of an address of
-- another type is parsed by `net.ParseIP`, which is a parameter.
pub record Interface : Type 0 where
  pub index : ℕ
  pub name : Bytes
  pub is_up : Bool
  pub is_multicast : Bool
  pub is_loopback : Bool

pub data Addr : Type 0 where
  ip_net ip_addr : Bytes → Addr
  other_addr : Bytes → Addr

-- `ip.To4() != nil`
unfoldable pub is_ipv4 : Bytes → Bool
is_ipv4 ip =
    length ip == 4
    || (length ip == 16
        && bytes_equal (take 12 ip) (0 ∷ 0 ∷ 0 ∷ 0 ∷ 0 ∷ 0 ∷ 0 ∷ 0 ∷ 0 ∷ 0 ∷ 255 ∷ 255 ∷ []))

-- `hasIPv4Address`
unfoldable pub has_ipv4_address : (Bytes → Option Bytes) → List Addr → Bool
unfolding is_ipv4
has_ipv4_address parse_ip [] = false
has_ipv4_address parse_ip (ip_net ip ∷ rest) = is_ipv4 ip || has_ipv4_address parse_ip rest
has_ipv4_address parse_ip (ip_addr ip ∷ rest) = is_ipv4 ip || has_ipv4_address parse_ip rest
has_ipv4_address parse_ip (other_addr text ∷ rest) =
    elim (parse_ip text) [ none ↦ false | some ip ↦ is_ipv4 ip ] || has_ipv4_address parse_ip rest

-- The order of `slices.SortFunc`: by index, then by name.
unfoldable pub bytes_before : Bytes → Bytes → Bool
bytes_before [] [] = false
bytes_before [] (y ∷ ys) = true
bytes_before (x ∷ xs) [] = false
bytes_before (x ∷ xs) (y ∷ ys) = let rest = bytes_before xs ys in ltb x y || (x == y && rest)

unfoldable pub interface_before : Interface → Interface → Bool
unfolding bytes_before
interface_before a b = ltb a.index b.index || (a.index == b.index && bytes_before a.name b.name)

unfoldable pub insert_interface : Interface → List Interface → List Interface
unfolding interface_before
insert_interface a [] = a ∷ []
insert_interface a (b ∷ rest) =
    let later = insert_interface a rest in if interface_before b a then b ∷ later else a ∷ b ∷ rest

unfoldable pub sort_interfaces : List Interface → List Interface
unfolding insert_interface
sort_interfaces [] = []
sort_interfaces (a ∷ rest) = insert_interface a (sort_interfaces rest)

-- The test of `usableMulticastInterfaces`; the addresses of an interface may fail to be read.
unfoldable pub is_usable :
    (Bytes → Option Bytes) → (Interface → Option (List Addr)) → Interface → Bool
unfolding has_ipv4_address
is_usable parse_ip addresses i =
    i.is_up
    && (i.is_multicast || i.is_loopback)
    && elim (addresses i) [ none ↦ false | some items ↦ has_ipv4_address parse_ip items ]

unfoldable pub usable_interfaces :
    (Bytes → Option Bytes) → (Interface → Option (List Addr)) → List Interface → List Interface
unfolding is_usable
usable_interfaces parse_ip addresses [] = []
usable_interfaces parse_ip addresses (i ∷ rest) =
    let later = usable_interfaces parse_ip addresses rest in
    if is_usable parse_ip addresses i then i ∷ later else later

-- `usableMulticastInterfaces`
unfoldable pub usable_multicast_interfaces :
    (Bytes → Option Bytes) → (Interface → Option (List Addr)) → List Interface → List Interface
unfolding usable_interfaces sort_interfaces
usable_multicast_interfaces parse_ip addresses interfaces =
    sort_interfaces (usable_interfaces parse_ip addresses interfaces)

-- Why a lookup failed, with the errors of the sockets that could not be opened and those of the loops.
pub data LookupFailure : Type 0 where
  lookup_context query_not_built interfaces_not_listed no_interfaces : LookupFailure
  no_socket : List IoError → LookupFailure
  no_answer : (open_errors : List IoError) (errors : List LookupError) → LookupFailure

-- The errors of the interfaces that cannot be listened on, and how many can.
unfoldable pub open_errors : (Interface → Option IoError) → List Interface → List IoError
open_errors listen [] = []
open_errors listen (i ∷ rest) =
    let later = open_errors listen rest in elim (listen i) [ none ↦ later | some e ↦ e ∷ later ]

-- The results in the order in which they arrive: the first address, or all errors.
unfoldable pub first_result : List LookupError → List Lookup → Result (List LookupError) Bytes
first_result errors [] = err errors
first_result errors (asking a ∷ rest) = first_result errors rest
first_result errors (found ip sent ∷ rest) = ok ip
first_result errors (gave_up e sent ∷ rest) = first_result (errors ++ (e ∷ [])) rest

-- `lookupWithSchedule`, over what the context, the query, the list of interfaces and the sockets give.
unfoldable pub lookup_with_schedule :
    (ended_before : Bool) (message : Option Bytes) (interfaces : Option (List Interface))
    (listen : Interface → Option IoError) (results : List Lookup) (ended_after : Bool)
    → Result LookupFailure Bytes
unfolding sort_interfaces open_errors first_result
lookup_with_schedule ended_before message interfaces listen results ended_after =
    if ended_before then err lookup_context else elim message [
      | none ↦ err query_not_built
      | some bytes ↦ elim interfaces [
        | none ↦ err interfaces_not_listed
        | some listed ↦
            let sorted = sort_interfaces listed in
            let failed_opens = open_errors listen sorted in
            if length sorted == 0
            then err no_interfaces
            else if length failed_opens == length sorted
            then err (no_socket failed_opens)
            else elim (first_result [] results) [
              | ok ip ↦ ok ip
              | err errors ↦
                  if ended_after then err lookup_context else err (no_answer failed_opens errors)
            ]
      ]
    ]
