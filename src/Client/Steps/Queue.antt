-- ===== src/Client/Steps/Queue.antt =====
-- client.go: the bounded queue between the read loop and the dispatcher.
use go_aioesphomeapi.Base.{
  ℕ, ◌≤◌, ◌≡◌, Bool, List, [], ◌∷◌, ◌++◌, append_assoc, arith, ok, err, inl, inr, Result-cases,
  length, length-append,
}
use go_aioesphomeapi.Messages.{Message}
use go_aioesphomeapi.Client.State.{
  Client, begin_shutdown, disconnect, close_framer, close_done, on, remove, connected_client,
}
use go_aioesphomeapi.Client.Send.{Codec, Writes, send, decode}
use go_aioesphomeapi.Client.Read.{read_step, receive, enqueue, deliver_direct}
use go_aioesphomeapi.Client.Dispatch.{
  dispatch_take_cases, take_message, dispatch_call, list_start, list_abandon, handle_list,
}
use go_aioesphomeapi.Client.Steps.{
  Step, Reach, here, next, reads, takes, calls, sends, begins, disconnects, closes_framer,
  closes_done, registers, removes, lists, abandons,
}

-- The queue holds what was read and not yet taken, in order, and stays within its bound.
pub record IsQueue (c : Client) : Type 0 where
  pub in_order : c.queued ≡ c.taken ++ c.events
  pub bounded : length c.events ≤ c.queue_size

-- What the steps beside the reader's and the dispatcher's leave alone.
pub record SameQueue (c d : Client) : Type 0 where
  pub queued : d.queued ≡ c.queued
  pub taken : d.taken ≡ c.taken
  pub events : d.events ≡ c.events
  pub size : d.queue_size ≡ c.queue_size

SameQueue-IsQueue : {c d : Client} → SameQueue c d → IsQueue c → IsQueue d
SameQueue-IsQueue s q = ground arith

enqueue-IsQueue : (p : Bool) (c : Client) (m : Message) → IsQueue c → IsQueue (enqueue p c m).0
unfolding enqueue
enqueue-IsQueue p c m q =
    ground (arith, append_assoc c.taken c.events (m ∷ []), length-append c.events (m ∷ []))

take_message-IsQueue :
    (c : Client) (m : Message) (rest : List Message)
    → c.events ≡ m ∷ rest
    → IsQueue c
    → IsQueue (take_message c m rest)
unfolding take_message handle_list
take_message-IsQueue c Message.list_entities_done_response rest e q =
    ground (arith, append_assoc c.taken (Message.list_entities_done_response ∷ []) rest)
take_message-IsQueue c m rest e q = ground (arith, append_assoc c.taken (m ∷ []) rest)

module _ (codec : Codec) where
  receive-IsQueue :
      (writes : Writes) (p : Bool) (c : Client) (m : Message)
      → IsQueue c
      → IsQueue (receive codec writes p c m).0
  unfolding receive send deliver_direct
  receive-IsQueue writes p c Message.ping_request h = ground arith
  receive-IsQueue writes p c Message.disconnect_request h = ground arith
  receive-IsQueue writes p c Message.ping_response h = ground arith
  receive-IsQueue writes p c (Message.device_info_response i) h = ground arith
  receive-IsQueue writes p c m h = enqueue-IsQueue p c m h

  Step-IsQueue : {c d : Client} → Step codec c d → IsQueue c → IsQueue d
  unfolding read_step decode dispatch_call send begin_shutdown disconnect close_framer close_done on
      remove list_start list_abandon
  Step-IsQueue (reads writes p (err e) c) h = ground arith
  Step-IsQueue (reads writes p (ok f) c) h = elim (Result-cases (decode codec f.kind f.payload)) [
    | inl (m, e) ↦ rw (e, read_step) (receive-IsQueue writes p c m h)
    | inr (x, e) ↦ ground (arith, e)
  ]
  Step-IsQueue (takes c) h =
      dispatch_take_cases IsQueue c (λ _. h) (λ _. ground arith)
        (λ m rest _ e. take_message-IsQueue c m rest e h)
  Step-IsQueue (calls c) h = ground arith
  Step-IsQueue (sends writes m c) h = ground arith
  Step-IsQueue (begins reason c) h = ground arith
  Step-IsQueue (disconnects c _) h = ground arith
  Step-IsQueue (closes_framer c _ _) h = ground arith
  Step-IsQueue (closes_done c _) h = ground arith
  Step-IsQueue (registers id c) h = ground arith
  Step-IsQueue (removes id token c) h = ground arith
  Step-IsQueue (lists writes c) h = ground arith
  Step-IsQueue (abandons c) h = ground arith

  -- In every reachable client the messages that were queued are those that the dispatcher took
  -- followed by those that wait, in order, so that none is lost, doubled or overtaken, and no more
  -- wait than the queue's size.
  pub Reach-IsQueue : {c d : Client} → IsQueue c → Reach codec c d → IsQueue d
  Reach-IsQueue h here = h
  Reach-IsQueue h (next r s) = Step-IsQueue s (Reach-IsQueue h r)

pub connected-IsQueue : (n : ℕ) → IsQueue (connected_client n)
unfolding connected_client
connected-IsQueue n = ground arith
