-- ===== src/Client/Dispatch.antt =====
-- client.go: `dispatchLoop` in the steps between which other goroutines may run, `handleList`, and
-- `ListEntitiesWithTimeout` up to its wait and after it.
use go_aioesphomeapi.Base.{
  ℕ, true, false, List, [], ◌∷◌, ◌++◌, Option, none, some, values, if◌then◌else◌, ◌≡◌, sym, arith,
  inl, inr, Bool-cases, List-cases,
}
use mathlib.Core.Path.{subst}
use go_aioesphomeapi.Messages.{Message, list_entities_done_response, list_entities_request}
use go_aioesphomeapi.Messages.Kinds.{message_id, is_list_entity}
use go_aioesphomeapi.Entities.{handle}
use go_aioesphomeapi.Client.State.{
  Client, ClientError, ListResult, listing_in_progress, handlers_of,
}
use go_aioesphomeapi.Client.Send.{Codec, Writes, send}

-- A message that is no end of a listing joins it if it describes an entity.
abbrev gather : ListResult → Message → ListResult
gather pending message =
    if is_list_entity message
    then record pending { messages = pending.messages ++ (message ∷ []) }
    else pending

-- `handleList`
unfoldable pub handle_list : Client → Message → Client
handle_list c list_entities_done_response = elim c.list [
  | none ↦ c
  | some pending ↦ record c { list = none; listed = some pending.messages }
]
handle_list c message = elim c.list [
  | none ↦ c
  | some pending ↦ record c { list = some (gather pending message) }
]

-- The callbacks that a message will run: none if it has no ID.
abbrev pub callbacks_for : Client → Message → List ℕ
callbacks_for c message = elim (message_id message) [
  | none ↦ []
  | some id ↦ values (handlers_of c id)
]

-- The loop returns, and closes `callbacksDone`.
abbrev pub dispatch_return : Client → Client
dispatch_return c = record c { running = none; callbacks_done = true }

-- An event goes to the registry and to a listing, and its callbacks are copied.
unfoldable pub take_message : Client → Message → List Message → Client
take_message c message rest =
    let c' =
      handle_list
        (record c {
          events = rest;
          taken = c.taken ++ (message ∷ []);
          entities = handle c.entities message;
        })
        message in
    record c' { running = some (message, callbacks_for c' message) }

-- The front half of a round, on the oldest event. With no event the loop waits.
unfoldable pub dispatch_take : Client → Client
dispatch_take c =
    if c.is_done
    then dispatch_return c
    else elim c.events [ [] ↦ c | message ∷ rest ↦ take_message c message rest ]

-- What holds on each branch holds of the result.
pub dispatch_take_cases {ℓ} :
    (P : Client → Type ℓ) (c : Client)
    → (c.is_done ≡ false → P c)
    → (c.is_done ≡ true → P (dispatch_return c))
    → ((m : Message) (rest : List Message)
        → c.is_done ≡ false
        → c.events ≡ m ∷ rest
        → P (take_message c m rest))
    → P (dispatch_take c)
unfolding dispatch_take
dispatch_take_cases P c idle returns takes = elim (Bool-cases c.is_done) [
  | inl d ↦
      let result : dispatch_take c ≡ dispatch_return c = ground arith in
      subst P (sym result) (returns d)
  | inr o ↦ elim (List-cases c.events) [
    | inl e ↦ let result : dispatch_take c ≡ c = ground arith in subst P (sym result) (idle o)
    | inr (m, rest, e) ↦
        let result : dispatch_take c ≡ take_message c m rest = ground arith in
        subst P (sym result) (takes m rest o e)
  ]
]

-- The back half, one callback: `done` is asked first.
unfoldable pub dispatch_call : Client → Client
dispatch_call c = elim c.running [
  | none ↦ c
  | some (message, []) ↦ record c { running = none }
  | some (message, token ∷ tokens) ↦
      if c.is_done
      then dispatch_return c
      else record c { running = some (message, tokens); calls = (token, message) ∷ c.calls }
]

-- `ListEntitiesWithTimeout`: one listing at a time, and the request is sent.
unfoldable pub list_start : Codec → Writes → Client → Client × Option ClientError
list_start codec writes c = elim c.list [
  | some pending ↦ (c, some listing_in_progress)
  | none ↦
      let (c', failure) =
        send codec writes (record c { list = some (record { messages = [] }); listed = none })
          list_entities_request in
      elim failure [ none ↦ (c', none) | some e ↦ (record c' { list = none }, some e) ]
]

-- The deferred function, when the wait has ended without a result.
unfoldable pub list_abandon : Client → Client
list_abandon c = record c { list = none }
