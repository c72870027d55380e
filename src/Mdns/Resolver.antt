-- ===== src/Mdns/Resolver.antt =====
-- internal/mdns/resolver.go: the query loop on one socket. What the network and the clock do is a list of
-- events.
pub mod Loop
pub mod Interfaces
use go_aioesphomeapi.Base.{
  ℕ, suc, ◌+◌, Bool, true, false, not, ◌&&◌, ◌||◌, Option, none, some, List, [], ◌∷◌, ltb, ◌==◌,
  if◌then◌else◌, length, get_elem?, take, Bytes, bytes_equal, ℤ, int_ltb, is_not_positive, pos,
}
use go_aioesphomeapi.Wire.Io.{IoError}
use go_aioesphomeapi.Mdns.Names.{Unicode}
use go_aioesphomeapi.Mdns.Packets.{answer_ip}

-- `fallbackTimeout` and `time.Millisecond`, in nanoseconds.
abbrev pub fallback_timeout : ℤ
fallback_timeout = pos 5000000000

abbrev pub millisecond : ℤ
millisecond = pos 1000000

-- `defaultRetransmitSchedule`
abbrev pub default_retransmit_schedule : List ℕ
default_retransmit_schedule = 1000000000 ∷ 3000000000 ∷ []

abbrev pub multicast_port : ℕ
multicast_port = 5353

-- `effectiveTimeout`, with the time that the context leaves, if it has a deadline.
unfoldable pub effective_timeout : Option ℤ → ℤ → ℤ
effective_timeout remaining timeout =
    let own = if is_not_positive timeout then fallback_timeout else timeout in
    elim remaining [
      | none ↦ own
      | some left ↦
          if int_ltb left own then (if int_ltb left millisecond then millisecond else left) else own
    ]

-- What happens to one round of the loop: the deadline cannot be set, a datagram arrives, with the port
-- of its source if it is known, or the read fails at a time, with a timeout or not, while the context
-- has ended or not.
pub data SocketEvent : Type 0 where
  deadline_refused : IoError → SocketEvent
  datagram : (port : Option ℕ) (bytes : Bytes) → SocketEvent
  read_fails : (is_timeout context_ended : Bool) (now : ℕ) (e : IoError) → SocketEvent

pub data LookupError : Type 0 where
  send_query set_deadline read_answer : IoError → LookupError
  context_ended_lookup : LookupError

-- A loop that goes on has sent queries and used entries of the schedule.
pub record Asking : Type 0 where
  pub sent : ℕ
  pub retransmit : ℕ

pub data Lookup : Type 0 where
  asking : Asking → Lookup
  found : (ip : Bytes) (sent : ℕ) → Lookup
  gave_up : LookupError → (sent : ℕ) → Lookup

module _ (u : Unicode) (host : Bytes) (writes : ℕ → Option IoError) (start deadline : ℕ)
    (schedule : List ℕ) where
  -- `writeQuery`; `writes` answers the calls of `WriteToUDP` in order.
  unfoldable pub write_query : Asking → Lookup
  write_query a = elim (writes a.sent) [
    | none ↦ asking (record a { sent = suc a.sent })
    | some e ↦ gave_up (send_query e) a.sent
  ]

  -- `retransmitAt`; the zero time is `none`.
  unfoldable pub retransmit_at : Asking → Option ℕ
  retransmit_at a = elim (get_elem? schedule a.retransmit) [
    | none ↦ none
    | some delay ↦ if ltb (start + delay) deadline then some (start + delay) else none
  ]

  -- One round of the loop.
  unfoldable pub lookup_round : SocketEvent → Asking → Lookup
  unfolding write_query retransmit_at
  lookup_round (deadline_refused e) a = gave_up (set_deadline e) a.sent
  lookup_round (datagram none bytes) a = asking a
  lookup_round (datagram (some port) bytes) a =
      if not (port == multicast_port)
      then asking a
      else elim (answer_ip u bytes host) [ none ↦ asking a | some ip ↦ found ip a.sent ]
  lookup_round (read_fails is_timeout context_ended now e) a =
      if context_ended then gave_up context_ended_lookup a.sent else elim (retransmit_at a) [
        | none ↦ gave_up (read_answer e) a.sent
        | some at ↦
            if is_timeout && not (ltb now at)
            then write_query (record a { retransmit = suc a.retransmit })
            else gave_up (read_answer e) a.sent
      ]

  -- The rounds, until the loop returns or the events that are known end.
  unfoldable pub lookup_rounds : List SocketEvent → Lookup → Lookup
  unfolding lookup_round
  lookup_rounds [] l = l
  lookup_rounds (e ∷ rest) (asking a) = lookup_rounds rest (lookup_round e a)
  lookup_rounds (e ∷ rest) (found ip sent) = found ip sent
  lookup_rounds (e ∷ rest) (gave_up x sent) = gave_up x sent

  -- `lookupOnConn`
  unfoldable pub lookup_on_conn : List SocketEvent → Lookup
  unfolding lookup_rounds write_query
  lookup_on_conn events = lookup_rounds events (write_query (record { sent = 0; retransmit = 0 }))
