-- ===== src/Mdns/Tests.antt =====
-- Names and messages of a lamp's host name, and the theorems at them.
use go_aioesphomeapi.Mdns.Responder.{Responder, new_responder, has_suffix}
use go_aioesphomeapi.Mdns.Responder.Answering.{Resolves, lookup-Resolves}
use go_aioesphomeapi.Mdns.Resolver.{
  SocketEvent, datagram, read_fails, default_retransmit_schedule, lookup_on_conn, found,
  effective_timeout, write_query, retransmit_at, lookup_round, lookup_rounds,
}
use go_aioesphomeapi.Mdns.Resolver.Loop.{Tallies, lookup_on_conn-Tallies}
use go_aioesphomeapi.Wire.Io.{IoError, deadline_exceeded}
use go_aioesphomeapi.Base.{
  ℕ, ◌≤◌, ◌<◌, ◌≡◌, refl, true, false, Option, none, some, List, [], ◌∷◌, ◌++◌, length, Bytes,
  codes, bytes_equal, pos, negsuc, ok,
}
use go_aioesphomeapi.Mdns.Names.{
  Unicode, ascii_lower, is_ascii, lower_all, to_lower, trim_dot, canonical_name, onto_first,
  split_dots, join_dots, append_labels, append_name,
}
use go_aioesphomeapi.Mdns.Names.Reading.{
  follow_pointer, take_label, read_round, read_loop, name_fuel, start_at, read_name,
  read_name_bounds, read_name_total,
}
use go_aioesphomeapi.Mdns.Names.RoundTrip.{read_name-append_name}
use go_aioesphomeapi.Mdns.Packets.{header, query, response}
use go_aioesphomeapi.Mdns.Packets.Answers.{answer_ip-response}

abbrev plain_text : Unicode
plain_text = record { lower = λ s. s; fold = λ s t. false }

abbrev lamp : Bytes
lamp = codes "Lamp.local"

abbrev lamp_wire : Bytes
lamp_wire = 4 ∷ 108 ∷ 97 ∷ 109 ∷ 112 ∷ 5 ∷ 108 ∷ 111 ∷ 99 ∷ 97 ∷ 108 ∷ 0 ∷ []

abbrev lamp_query : Bytes
lamp_query = header 0 1 0 ++ (lamp_wire ++ (0 ∷ 1 ∷ 0 ∷ 1 ∷ []))

abbrev lamp_address : Bytes
lamp_address = 10 ∷ 0 ∷ 0 ∷ 7 ∷ []

abbrev lamp_answer : Bytes
lamp_answer =
    header 33792 0 1 ++ (lamp_wire ++ (0 ∷ 1 ∷ 128 ∷ 1 ∷ 0 ∷ 0 ∷ 0 ∷ 120 ∷ 0 ∷ 4 ∷ lamp_address))

lamp_query_sent : query plain_text lamp ≡ some lamp_query
unfolding query append_name append_labels split_dots onto_first canonical_name to_lower lower_all
    ascii_lower is_ascii trim_dot bytes_equal
lamp_query_sent = refl

lamp_answer_sent : response plain_text lamp (some lamp_address) ≡ some lamp_answer
unfolding response append_name append_labels split_dots onto_first canonical_name to_lower lower_all
    ascii_lower is_ascii trim_dot bytes_equal
lamp_answer_sent = refl

lamp-is_ascii : is_ascii lamp ≡ true
unfolding is_ascii
lamp-is_ascii = refl

-- A pointer to itself is followed 16 times and then refused.
pointer_loop : read_name plain_text (192 ∷ 0 ∷ []) 0 ≡ none
unfolding read_name read_loop read_round follow_pointer start_at
pointer_loop = refl

lamp_name_written :
    append_name [] lamp ≡ some (4 ∷ 76 ∷ 97 ∷ 109 ∷ 112 ∷ 5 ∷ 108 ∷ 111 ∷ 99 ∷ 97 ∷ 108 ∷ 0 ∷ [])
unfolding append_name append_labels split_dots onto_first trim_dot bytes_equal
lamp_name_written = refl

lamp_name_read : read_name plain_text lamp_wire 0 ≡ some (codes "lamp.local.", 12)
unfolding read_name read_loop read_round follow_pointer take_label start_at join_dots canonical_name
    to_lower lower_all ascii_lower is_ascii trim_dot
lamp_name_read = refl

read_name_total_example :
    (answer : Option (List Bytes × ℕ)) × (read_loop name_fuel (192 ∷ 0 ∷ []) (start_at 0)
      ≡ some answer)
read_name_total_example = read_name_total (192 ∷ 0 ∷ []) 0

read_name_bounds_example : (0 < 12) × (12 ≤ length lamp_wire)
read_name_bounds_example =
    read_name_bounds plain_text lamp_wire 0 (codes "lamp.local.") 12 lamp_name_read

read_name-append_name_example :
    read_name plain_text
      (0 ∷ 0 ∷ 4 ∷ 76 ∷ 97 ∷ 109 ∷ 112 ∷ 5 ∷ 108 ∷ 111 ∷ 99 ∷ 97 ∷ 108 ∷ 0 ∷ 9 ∷ [])
      2
    ≡ some (canonical_name plain_text lamp, 14)
read_name-append_name_example =
    read_name-append_name plain_text (0 ∷ 0 ∷ []) (9 ∷ []) lamp
      (4 ∷ 76 ∷ 97 ∷ 109 ∷ 112 ∷ 5 ∷ 108 ∷ 111 ∷ 99 ∷ 97 ∷ 108 ∷ 0 ∷ []) lamp_name_written

-- A socket that times out once, is sent something from another port, and then the answer.
abbrev slow_answer : List SocketEvent
slow_answer =
    read_fails true false 1000000000 deadline_exceeded
    ∷ datagram (some 40000) lamp_answer
    ∷ datagram (some 5353) lamp_answer
    ∷ []

abbrev never_refused : ℕ → Option IoError
never_refused n = none

slow_answer_found :
    lookup_on_conn plain_text lamp never_refused 0 5000000000 default_retransmit_schedule
      slow_answer
    ≡ found lamp_address 2
unfolding lookup_on_conn lookup_rounds lookup_round write_query retransmit_at
slow_answer_found =
    rw
      (answer_ip-response plain_text lamp lamp_address lamp_answer lamp-is_ascii refl
        lamp_answer_sent)
      refl

effective_timeout_floor : effective_timeout (some (negsuc 4)) (pos 0) ≡ pos 1000000
unfolding effective_timeout
effective_timeout_floor = refl

lookup_on_conn-Tallies_example :
    Tallies plain_text lamp never_refused 0 5000000000 default_retransmit_schedule 0 slow_answer (
      lookup_on_conn plain_text lamp never_refused 0 5000000000 default_retransmit_schedule
        slow_answer)
lookup_on_conn-Tallies_example =
    lookup_on_conn-Tallies plain_text lamp never_refused 0 5000000000 default_retransmit_schedule
      slow_answer

abbrev lamp_responder : Responder
lamp_responder = record { conns = 1; host = canonical_name plain_text lamp; response = lamp_answer }

lamp_responder_made :
    new_responder plain_text lamp (some lamp_address) (some (true ∷ [])) ≡ ok lamp_responder
unfolding new_responder has_suffix to_lower lower_all ascii_lower is_ascii trim_dot bytes_equal
    canonical_name
lamp_responder_made = rw (lamp_answer_sent) refl

lookup-Resolves_example : Resolves plain_text lamp_responder lamp lamp_address lamp_query (
    lookup_on_conn plain_text lamp never_refused 0 5000000000 default_retransmit_schedule
      (datagram (some 5353) lamp_answer ∷ []))
lookup-Resolves_example =
    lookup-Resolves plain_text lamp lamp_address lamp_query (some (true ∷ [])) lamp_responder
      never_refused 0 5000000000 default_retransmit_schedule [] lamp-is_ascii refl
      lamp_responder_made lamp_query_sent refl
