-- ===== src/Client/Subscribe/Restores.antt =====
-- client.go: what a subscription to the states leaves of a client's callbacks.
use mathlib.Core.Path.{subst}
use go_aioesphomeapi.Client.Send.{Codec, Writes, send}
use go_aioesphomeapi.Client.Subscribe.{
  register_all, unsubscribe, subscribe_states, state_response_ids,
}
use go_aioesphomeapi.Base.{
  ℕ, ◌≡◌, ap, inl, inr, some, List, arith, if◌then◌else◌, Option-cases, sym, true, map, ◌∙◌, Result,
  ok, err,
}
use go_aioesphomeapi.Messages.{Message, subscribe_states_request}
use go_aioesphomeapi.Client.State.{Client, ClientError}
use go_aioesphomeapi.Client.Subscribe.Callbacks.{
  callback_at, IsRegistry, has_pair, register_all-callback, register_all_ids, callback_at-handlers,
  undone,
}

send-handlers :
    (codec : Codec) (writes : Writes) (c : Client) (m : Message)
    → (send codec writes c m).0.handlers ≡ c.handlers
unfolding send
send-handlers codec writes c m = ground arith

-- What a subscription to the states leaves of the callbacks of a client, with its result.
pub record Restores (c d : Client) (result : Result ClientError (List (ℕ × ℕ))) : Type 0 where
  -- A failed one leaves them as they were.
  pub refused :
      (e : ClientError) → result ≡ err e → (i t : ℕ) → callback_at d i t ≡ callback_at c i t
  -- A successful one adds one for each ID of a state response, and nothing else,
  pub each : (pairs : List (ℕ × ℕ)) → result ≡ ok pairs → map (λ p. p.0) pairs ≡ state_response_ids
  pub added :
      (pairs : List (ℕ × ℕ))
      → result ≡ ok pairs
      → (i t : ℕ) → callback_at d i t ≡ (if has_pair i t pairs then some t else callback_at c i t)
  -- which unsubscribing takes away.
  pub restored :
      (pairs : List (ℕ × ℕ))
      → result ≡ ok pairs
      → (i t : ℕ) → callback_at (unsubscribe pairs d) i t ≡ callback_at c i t

abbrev Outcome : Type 0
Outcome = Result ClientError (List (ℕ × ℕ))

accepts_pairs : List (ℕ × ℕ) → Outcome
accepts_pairs pairs = ok pairs

ok_pairs : {pairs found : List (ℕ × ℕ)} → accepts_pairs pairs ≡ ok found → pairs ≡ found
unfolding accepts_pairs
ok_pairs e = cc

accepted-Restores :
    (c d : Client)
    → IsRegistry c
    → d.handlers ≡ (register_all state_response_ids c).0.handlers
    → Restores c d (ok (register_all state_response_ids c).1)
unfolding accepts_pairs
accepted-Restores c d h same =
    let r = register_all state_response_ids c in
    record {
      refused = λ e n. absurd cc;
      each =
          λ pairs n. ap (map (λ p. p.0)) (sym (ok_pairs n)) ∙ register_all_ids state_response_ids c;
      added = λ pairs n i t.
          subst (λ q. callback_at d i t ≡ (if has_pair i t q then some t else callback_at c i t))
            (ok_pairs n)
            (callback_at-handlers r.0 d i t same ∙ register_all-callback state_response_ids c i t);
      restored = λ pairs n i t.
          subst (λ q. callback_at (unsubscribe q d) i t ≡ callback_at c i t) (ok_pairs n)
            (undone state_response_ids c d i t h same);
    }

refused-Restores :
    (c d : Client) (failure : ClientError)
    → IsRegistry c
    → d.handlers ≡ (register_all state_response_ids c).0.handlers
    → Restores c (unsubscribe (register_all state_response_ids c).1 d) (err failure)
refused-Restores c d failure h same = record {
  refused = λ e n i t. undone state_response_ids c d i t h same;
  each = λ pairs n. absurd cc;
  added = λ pairs n. absurd cc;
  restored = λ pairs n. absurd cc;
}

-- On a client whose tokens are in order SubscribeStates with a handler adds one callback for each
-- ID of a state response and no other, which unsubscribing takes away again; and if the request
-- cannot be sent, every callback is as before.
pub subscribe_states-Restores :
    (codec : Codec) (writes : Writes) (c : Client)
    → IsRegistry c
    → Restores c (subscribe_states codec writes true c).0 (subscribe_states codec writes true c).1
unfolding subscribe_states
subscribe_states-Restores codec writes c h =
    let ids = state_response_ids in
    let d = (send codec writes (register_all ids c).0 subscribe_states_request).0 in
    let same = send-handlers codec writes (register_all ids c).0 subscribe_states_request in
    elim (Option-cases (send codec writes (register_all ids c).0 subscribe_states_request).1) [
      | inl n ↦ rw (n, subscribe_states) (accepted-Restores c d h same)
      | inr (e, n) ↦ rw (n, subscribe_states) (refused-Restores c d e h same)
    ]
