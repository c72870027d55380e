-- ===== src/Client/Subscribe.antt =====
-- client.go: `SubscribeStates` and `SubscribeLogs`, with the functions that they return.
pub mod Callbacks
pub mod Restores
use go_aioesphomeapi.Base.{ℕ, Bool, none, some, List, [], ◌∷◌, if◌then◌else◌, ℤ, Result, ok, err}
use go_aioesphomeapi.Messages.{Message, subscribe_states_request, subscribe_logs_request}
use go_aioesphomeapi.Client.State.{ClientError, Client, on, remove}
use go_aioesphomeapi.Client.Send.{Codec, Writes, send}

-- `stateResponseIDs`
abbrev pub state_response_ids : List ℕ
state_response_ids =
    21 ∷ 22 ∷ 23 ∷ 24 ∷ 25 ∷ 26 ∷ 27 ∷ 44 ∷ 47 ∷ 50 ∷ 53 ∷ 56 ∷ 59 ∷ 64 ∷ 95 ∷ 98 ∷ 101 ∷ 104 ∷ 108
    ∷ 110 ∷ 113 ∷ 117 ∷ 126 ∷ 133 ∷ []

-- A callback for each ID, and the IDs with their tokens, which stand for the functions that remove them.
unfoldable pub register_all : List ℕ → Client → Client × List (ℕ × ℕ)
unfolding on
register_all [] c = (c, [])
register_all (id ∷ ids) c =
    let (c₁, token) = on c id in
    let (c₂, removes) = register_all ids c₁ in (c₂, (id, token) ∷ removes)

-- The function that `SubscribeStates` returns.
unfoldable pub unsubscribe : List (ℕ × ℕ) → Client → Client
unfolding remove
unsubscribe [] c = c
unsubscribe ((id, token) ∷ removes) c = unsubscribe removes (remove c id token)

-- `SubscribeStates`, with a handler or without: the client, and what unsubscribing removes.
unfoldable pub subscribe_states :
    Codec → Writes → Bool → Client → Client × Result ClientError (List (ℕ × ℕ))
subscribe_states codec writes has_handler c =
    let (registered, removes) =
      if has_handler then register_all state_response_ids c else (c, []) in
    let (c', failure) = send codec writes registered subscribe_states_request in
    elim failure [ none ↦ (c', ok removes) | some e ↦ (unsubscribe removes c', err e) ]

-- `SubscribeLogs`: the callback passes a log message on if there is a handler.
unfoldable pub subscribe_logs :
    Codec → Writes → ℤ → Client → Client × Result ClientError (List (ℕ × ℕ))
subscribe_logs codec writes level c =
    let (registered, removes) = register_all (29 ∷ []) c in
    let (c', failure) = send codec writes registered (subscribe_logs_request level) in
    elim failure [ none ↦ (c', ok removes) | some e ↦ (unsubscribe removes c', err e) ]
