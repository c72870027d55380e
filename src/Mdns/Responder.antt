-- ===== src/Mdns/Responder.antt =====
-- internal/mdns/responder.go: the simulator's answers, and a client that asks it.
pub mod Answering
use go_aioesphomeapi.Base.{
  ℕ, suc, ◌-◌, ◌%◌, ◌^◌, Bool, true, false, not, ◌&&◌, ◌||◌, Option, none, some, List, [], ◌∷◌, leb,
  ◌==◌, if◌then◌else◌, length, drop, Bytes, codes, bytes_equal, Result, ok, err,
}
use go_aioesphomeapi.Wire.Io.{IoError}
use go_aioesphomeapi.Mdns.Names.{Unicode, to_lower, trim_dot, canonical_name, equal_fold}
use go_aioesphomeapi.Mdns.Packets.{Question, type_a, class_in, response, questions}

abbrev pub type_any : ℕ
type_any = 255

-- `strings.HasSuffix`
unfoldable pub has_suffix : Bytes → Bytes → Bool
has_suffix s suffix =
    leb (length suffix) (length s) && bytes_equal (drop (length s - length suffix) s) suffix

count_true : List Bool → ℕ
count_true [] = 0
count_true (b ∷ rest) = let n = count_true rest in if b then suc n else n

-- `Responder`, with how many sockets it holds.
pub record Responder : Type 0 where
  pub conns : ℕ
  pub host : Bytes
  pub response : Bytes

pub data ResponderError : Type 0 where
  not_local no_response interfaces_unknown no_listener : ResponderError

module _ (u : Unicode) where
  -- `NewResponder`, given what `ip.To4()` answers, and of each usable interface whether it can be
  -- listened on.
  unfoldable pub new_responder :
      Bytes → Option Bytes → Option (List Bool) → Result ResponderError Responder
  unfolding has_suffix count_true
  new_responder host to4 interfaces =
      if not (has_suffix (trim_dot (to_lower u host)) (codes ".local"))
      then err not_local
      else elim (response u host to4) [
        | none ↦ err no_response
        | some message ↦ elim interfaces [
          | none ↦ err interfaces_unknown
          | some opened ↦
              if count_true opened == 0
              then err no_listener
              else ok (record {
                conns = count_true opened;
                host = canonical_name u host;
                response = message;
              })
        ]
      ]

  -- The test of `serveConn` on a question.
  unfoldable pub is_asked : Responder → Question → Bool
  is_asked r q =
      equal_fold u q.name r.host
      && (q.qclass % 2 ^ 15 == class_in)
      && (q.qtype == type_a || (q.qtype == type_any))

  -- Whether one of the questions is for the responder; the first ends the loop.
  unfoldable pub any_asked : Responder → List Question → Bool
  unfolding is_asked
  any_asked r [] = false
  any_asked r (q ∷ rest) = let later = any_asked r rest in if is_asked r q then true else later

  -- What a round of `serveConn` writes for a datagram.
  unfoldable pub respond : Responder → Bytes → Option Bytes
  unfolding any_asked
  respond r bytes = elim (questions u bytes) [
    | none ↦ none
    | some items ↦ if any_asked r items then some r.response else none
  ]

-- What a read of `serveConn` gives.
pub data ResponderEvent : Type 0 where
  asked : Bytes → ResponderEvent
  read_failed : IoError → ResponderEvent

-- `serveConn`, with the answers of `WriteToUDP` in order, and whether the context has ended: the number
-- of answers, and the error with which it returned.
pub record Served : Type 0 where
  pub answers : ℕ
  pub failure : Option IoError
  pub returned : Bool

module _ (u : Unicode) (r : Responder) (context_ended : Bool) (writes : ℕ → Option IoError) where
  unfoldable pub serve_conn : List ResponderEvent → ℕ → Served
  unfolding respond
  serve_conn [] answers = record { answers = answers; failure = none; returned = false }
  serve_conn (read_failed e ∷ rest) answers = record {
    answers = answers;
    failure = if context_ended then none else some e;
    returned = true;
  }
  serve_conn (asked bytes ∷ rest) answers =
      let unanswered = serve_conn rest answers in
      let answered = serve_conn rest (suc answers) in
      elim (respond u r bytes) [
        | none ↦ unanswered
        | some message ↦ elim (writes answers) [
          | none ↦ answered
          | some e ↦
              if context_ended
              then unanswered
              else record { answers = answers; failure = some e; returned = true }
        ]
      ]
