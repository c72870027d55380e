-- ===== src/Client/ExchangeTests.antt =====
-- client.go: a ping that is answered, one whose context ends, and a subscription.
use go_aioesphomeapi.Client.Subscribe.{subscribe_states}
use go_aioesphomeapi.Client.Subscribe.Callbacks.{IsRegistry, callback_at}
use go_aioesphomeapi.Client.Subscribe.Restores.{Restores, subscribe_states-Restores}
use go_aioesphomeapi.Base.{
  ◌≡◌, refl, Bool, true, false, Option, none, some, [], lookup, insert, delete, values, ok, err,
}
use go_aioesphomeapi.Messages.{ping_response}
use go_aioesphomeapi.Messages.Kinds.{message_id}
use go_aioesphomeapi.Client.State.{
  ClientError, new_client, connected_client, begin_shutdown, disconnect, close_framer, close_done,
  on, remove, ping_probe, probe_no_response,
}
use go_aioesphomeapi.Client.Send.{Codec, decode, Writes, send}
use go_aioesphomeapi.Client.Read.{read_step, receive, deliver_direct}
use go_aioesphomeapi.Client.Steps.{reads}
use go_aioesphomeapi.Client.Probe.{
  is_response, ProbePhase, Probe, finishes, first_response, check_probe, ProbeChoice, wait_gate,
  send_request, expire, begin_close, expire_close, wait_response, advance, call_probe, returned,
  context_case, gate_case, response_case, advances, interferes, unmoved, moved,
}
use go_aioesphomeapi.Client.Probe.Moves.{IsSound}
use go_aioesphomeapi.Client.Probe.Sound.{reach-IsSound}

-- Every frame is the answer to a ping.
abbrev ping_codec : Codec
ping_codec = record {
  marshal = λ m. some [];
  known = λ id. true;
  unmarshal = λ id p. some ping_response;
}

abbrev takes_all : Writes
takes_all id payload = none

abbrev called : Probe
called = call_probe ping_probe (connected_client 4) true

abbrev moves : ProbeChoice → Probe → Probe
moves choice p = advance ping_codec takes_all choice p

abbrev in_wait : Probe
in_wait = moves gate_case (moves gate_case (moves gate_case called))

abbrev answered : Probe
answered = record in_wait {
  client =
      (read_step ping_codec takes_all true in_wait.client
        (ok (record { kind = 8; payload = [] }))).0;
}

abbrev has_result : Option ClientError → ProbePhase → Bool
has_result none (returned (ok m)) = true
has_result (some e) (returned (err f)) = true
has_result _ _ = false

answered_result : has_result none (moves response_case answered).phase ≡ true
unfolding advance check_probe wait_gate send_request wait_response finishes on remove send
    connected_client new_client read_step receive deliver_direct decode first_response is_response
    insert lookup delete values message_id
answered_result = refl

-- The context ends: the probe wins the verdict, and shuts the client down.
abbrev expired : Probe
expired = moves context_case (moves context_case (record in_wait { context_done = true }))

ended_begins : expired.client.is_ending ≡ true
unfolding advance check_probe wait_gate send_request wait_response finishes expire expire_close
    begin_close begin_shutdown on remove send connected_client new_client insert lookup delete
    message_id
ended_begins = refl

abbrev closed : Probe
closed =
    moves context_case
      (record expired { client = close_done (close_framer (disconnect expired.client)) })

ended_returns : has_result (some (probe_no_response ping_probe)) closed.phase ≡ true
unfolding advance check_probe wait_gate send_request wait_response finishes expire expire_close
    begin_close begin_shutdown disconnect close_framer close_done on remove send connected_client
    new_client insert lookup delete message_id
ended_returns = refl

reach-IsSound_example : IsSound (moves response_case answered)
reach-IsSound_example = reach-IsSound ping_codec ping_probe (connected_client 4) true (
    moved
      (moved
        (moved
          (moved (moved unmoved (advances takes_all gate_case called))
            (advances takes_all gate_case (moves gate_case called)))
          (advances takes_all gate_case (moves gate_case (moves gate_case called))))
        (interferes in_wait
          (reads takes_all true (ok (record { kind = 8; payload = [] })) in_wait.client)))
      (advances takes_all response_case answered))

connected-IsRegistry : IsRegistry (connected_client 4)
unfolding connected_client new_client callback_at lookup
connected-IsRegistry = record { unique = λ id. tt; fresh = λ id token lt. refl }

subscribe_states-Restores_example :
    Restores
      (connected_client 4)
      (subscribe_states ping_codec takes_all true (connected_client 4)).0
      (subscribe_states ping_codec takes_all true (connected_client 4)).1
subscribe_states-Restores_example =
    subscribe_states-Restores ping_codec takes_all (connected_client 4) connected-IsRegistry
