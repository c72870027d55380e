-- ===== src/Client/Steps/Lifecycle.antt =====
-- client.go: how a client ends, over all steps.
use go_aioesphomeapi.Base.{
  ℕ, ◌≡◌, refl, Bool, true, false, List, Option, none, arith, Result, ok, err, inl, inr,
  Result-cases,
}
use go_aioesphomeapi.Messages.{Message}
use go_aioesphomeapi.Wire.Io.{WireError}
use go_aioesphomeapi.Wire.Plain.{Frame}
use go_aioesphomeapi.Client.State.{
  Client, ClientError, begin_shutdown, disconnect, close_framer, close_done, on, remove,
  connected_client,
}
use go_aioesphomeapi.Client.Send.{Codec, Writes, send, decode}
use go_aioesphomeapi.Client.Read.{read_step, receive, enqueue, deliver_direct}
use go_aioesphomeapi.Client.Dispatch.{
  dispatch_take, dispatch_take_cases, take_message, dispatch_call, list_start, list_abandon,
  handle_list,
}
use go_aioesphomeapi.Client.Steps.{
  Step, Reach, here, next, reads, takes, calls, sends, begins, disconnects, closes_framer,
  closes_done, registers, removes, lists, abandons,
}

-- What a client whose end has begun keeps.
pub record Ended (c d : Client) : Type 0 where
  pub ending : d.is_ending ≡ true
  pub reason : d.close_reason ≡ c.close_reason
  pub connected : c.connected ≡ false → d.connected ≡ false
  pub done : c.is_done ≡ true → (d.is_done ≡ true) × (d.sent ≡ c.sent)

-- The moments of a client's end, each after the one before it: the reason, the end of `Connected()`, of
-- the framer, and of `Done()`.
pub record IsCoherent (c : Client) : Type 0 where
  pub unended :
      c.is_ending ≡ false
      → (c.connected ≡ true) × (c.close_reason ≡ none) × (c.framer_closed ≡ false)
  pub framer_after_connected : c.framer_closed ≡ true → c.connected ≡ false
  pub done_after_framer : c.is_done ≡ true → c.framer_closed ≡ true

-- What the steps beside those of `shutdown` leave alone.
record SameEnd (c d : Client) : Type 0 where
  ending : d.is_ending ≡ c.is_ending
  reason : d.close_reason ≡ c.close_reason
  connected : d.connected ≡ c.connected
  framer : d.framer_closed ≡ c.framer_closed
  done : d.is_done ≡ c.is_done
  sent : c.is_done ≡ true → d.sent ≡ c.sent

SameEnd-Ended : {c d : Client} → SameEnd c d → c.is_ending ≡ true → Ended c d
SameEnd-Ended s h = ground arith

module _ (codec : Codec) where
  receive-SameEnd :
      (writes : Writes) (p : Bool) (c : Client) (m : Message)
      → SameEnd c (receive codec writes p c m).0
  unfolding receive enqueue send deliver_direct
  receive-SameEnd writes p c Message.ping_request = ground arith
  receive-SameEnd writes p c Message.disconnect_request = ground arith
  receive-SameEnd writes p c Message.ping_response = ground arith
  receive-SameEnd writes p c (Message.device_info_response i) = ground arith
  receive-SameEnd writes p c _ = ground arith

  take_message-SameEnd :
      (c : Client) (m : Message) (rest : List Message) → SameEnd c (take_message c m rest)
  unfolding take_message handle_list
  take_message-SameEnd c Message.list_entities_done_response rest = ground arith
  take_message-SameEnd c _ rest = ground arith

  read_step-SameEnd :
      (writes : Writes) (p : Bool) (frame : Result WireError Frame) (c : Client)
      → SameEnd c (read_step codec writes p c frame).0
  unfolding read_step decode
  read_step-SameEnd writes p (err e) c = ground arith
  read_step-SameEnd writes p (ok f) c = elim (Result-cases (decode codec f.kind f.payload)) [
    | inl (m, e) ↦ rw (e, read_step) (receive-SameEnd writes p c m)
    | inr (x, e) ↦ ground (arith, e)
  ]

  dispatch_take-SameEnd : (c : Client) → SameEnd c (dispatch_take c)
  dispatch_take-SameEnd c =
      dispatch_take_cases (SameEnd c) c (λ _. ground arith) (λ _. ground arith)
        (λ m rest _ _. take_message-SameEnd c m rest)

  -- A step is one of `shutdown`, or it leaves the end alone.
  data EndStep : Client → Client → Type 0 where
    beside : {c d : Client} → SameEnd c d → EndStep c d
    began : (reason : Option ClientError) (c : Client) → EndStep c (begin_shutdown c reason)
    disconnected : (c : Client) → c.is_ending ≡ true → EndStep c (disconnect c)
    closed : (c : Client) → c.is_ending ≡ true → c.connected ≡ false → EndStep c (close_framer c)
    over : (c : Client) → c.framer_closed ≡ true → EndStep c (close_done c)

  Step-EndStep : {c d : Client} → Step codec c d → EndStep c d
  unfolding dispatch_call send on remove list_start list_abandon
  Step-EndStep (reads writes p frame c) = beside (read_step-SameEnd writes p frame c)
  Step-EndStep (takes c) = beside (dispatch_take-SameEnd c)
  Step-EndStep (calls c) = beside (ground arith)
  Step-EndStep (sends writes m c) = beside (ground arith)
  Step-EndStep (begins reason c) = began reason c
  Step-EndStep (disconnects c e) = disconnected c e
  Step-EndStep (closes_framer c e n) = closed c e n
  Step-EndStep (closes_done c f) = over c f
  Step-EndStep (registers id c) = beside (ground arith)
  Step-EndStep (removes id token c) = beside (ground arith)
  Step-EndStep (lists writes c) = beside (ground arith)
  Step-EndStep (abandons c) = beside (ground arith)

  EndStep-Ended : {c d : Client} → EndStep c d → c.is_ending ≡ true → Ended c d
  unfolding begin_shutdown disconnect close_framer close_done
  EndStep-Ended (beside s) h = SameEnd-Ended s h
  EndStep-Ended (began reason c) h = ground arith
  EndStep-Ended (disconnected c e) h = ground arith
  EndStep-Ended (closed c e n) h = ground arith
  EndStep-Ended (over c f) h = ground arith

  EndStep-done : {c d : Client} → EndStep c d → c.is_done ≡ true → d.is_done ≡ true
  unfolding begin_shutdown disconnect close_framer close_done
  EndStep-done (beside s) h = ground arith
  EndStep-done (began reason c) h = ground arith
  EndStep-done (disconnected c e) h = ground arith
  EndStep-done (closed c e n) h = ground arith
  EndStep-done (over c f) h = ground arith

  -- A closed client stays closed.
  pub Step-done : {c d : Client} → Step codec c d → c.is_done ≡ true → d.is_done ≡ true
  Step-done s h = EndStep-done (Step-EndStep s) h

  Ended-trans : {c d e : Client} → Ended c d → Ended d e → Ended c e
  Ended-trans p q = ground arith

  -- Once the end of a client has begun, whatever steps its goroutines take, the reason recorded
  -- first is kept and `Connected()` stays false when it is false; and once `Done()` is closed it
  -- stays so and no further message is sent.
  pub Reach-Ended : {c d : Client} → c.is_ending ≡ true → Reach codec c d → Ended c d
  Reach-Ended h here = record {
    ending = h;
    reason = refl;
    connected = λ n. n;
    done = λ d. (d, refl);
  }
  Reach-Ended h (next r s) =
      let p = Reach-Ended h r in Ended-trans p (EndStep-Ended (Step-EndStep s) p.ending)

pub connected-IsCoherent : (n : ℕ) → IsCoherent (connected_client n)
unfolding connected_client
connected-IsCoherent n = ground arith
