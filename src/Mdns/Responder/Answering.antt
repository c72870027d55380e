-- ===== src/Mdns/Responder/Answering.antt =====
-- internal/mdns: a client's query, the responder's answer, and the client's lookup.
use go_aioesphomeapi.Base.{
  ℕ, ◌≡◌, refl, Bool, true, Option, none, some, List, ◌∷◌, arith, length, Bytes, ok,
}
use go_aioesphomeapi.Wire.Io.{IoError}
use go_aioesphomeapi.Mdns.Names.{Unicode, is_ascii, canonical_name}
use go_aioesphomeapi.Mdns.Packets.{query, response}
use go_aioesphomeapi.Mdns.Packets.Answers.{
  questions-query, answer_ip-response, equal_fold_self, canonical_name-is_ascii,
}
use go_aioesphomeapi.Mdns.Resolver.{
  multicast_port, SocketEvent, Lookup, write_query, lookup_round, lookup_rounds, lookup_on_conn,
  datagram, found,
}
use go_aioesphomeapi.Mdns.Resolver.Loop.{kept_found}
use go_aioesphomeapi.Mdns.Responder.{Responder, new_responder, is_asked, any_asked, respond}

-- What a responder was made of.
record MadeOf (u : Unicode) (host : Bytes) (to4 : Option Bytes) (r : Responder) : Type 0 where
  named : r.host ≡ canonical_name u host
  answers : response u host to4 ≡ some r.response

new_responder-MadeOf :
    (u : Unicode) (host : Bytes) (to4 : Option Bytes) (interfaces : Option (List Bool))
    (r : Responder)
    → new_responder u host to4 interfaces ≡ ok r
    → MadeOf u host to4 r
unfolding new_responder
new_responder-MadeOf u host to4 interfaces r e = ground (arith, e)

-- The two ends of a resolution.
pub record Resolves (u : Unicode) (r : Responder) (host ipv4 message : Bytes) (lookup : Lookup)
    : Type 0 where
  pub answered : respond u r message ≡ some r.response
  pub resolved : lookup ≡ found ipv4 1

answered_lem :
    (u : Unicode) (host message : Bytes) (r : Responder)
    → is_ascii host ≡ true
    → r.host ≡ canonical_name u host
    → query u host ≡ some message
    → respond u r message ≡ some r.response
unfolding respond any_asked is_asked
answered_lem u host message r h named e =
    let same = equal_fold_self u (canonical_name u host) (canonical_name-is_ascii u host h) in
    rw (respond, questions-query u host message h e, named, same) refl

-- For a host in ASCII with a four-byte address, for which a responder could be made: the responder
-- answers the query that a client builds for the host, and a client whose query went out and whose
-- socket is given that answer from the multicast port finds the address with its first query,
-- whatever comes after it.
pub lookup-Resolves :
    (u : Unicode) (host ipv4 message : Bytes) (interfaces : Option (List Bool)) (r : Responder)
    → (writes : ℕ → Option IoError) (start deadline : ℕ) (schedule : List ℕ)
      (rest : List SocketEvent)
    → is_ascii host ≡ true
    → length ipv4 ≡ 4
    → new_responder u host (some ipv4) interfaces ≡ ok r
    → query u host ≡ some message
    → writes 0 ≡ none
    → Resolves u r host ipv4 message (
        lookup_on_conn u host writes start deadline schedule
          (datagram (some multicast_port) r.response ∷ rest))
unfolding lookup_on_conn lookup_rounds lookup_round write_query
lookup-Resolves u host ipv4 message interfaces r writes start deadline schedule rest h four made e
      sent =
    let m = new_responder-MadeOf u host (some ipv4) interfaces r made in
    let found_it = answer_ip-response u host ipv4 r.response h four m.answers in
    record {
      answered = answered_lem u host message r h m.named e;
      resolved =
          rw (lookup_on_conn, write_query, sent, found_it)
            (kept_found u host writes start deadline schedule rest ipv4 1);
    }
