-- ===== src/Client/Probe/Responses.antt =====
-- client.go: the responses that the callbacks of a probe have been given.
use go_aioesphomeapi.Base.{
  ℕ, ◌≡◌, refl, sym, ◌∙◌, inl, inr, Bool, List, [], ◌∷◌, ◌++◌, append_assoc, arith, Option-cases,
  values, ok, err, true, some, Bool-cases, List-cases, Result-cases,
}
use go_aioesphomeapi.Messages.{
  Message, disconnect_request, ping_request, ping_response, device_info_response,
  list_entities_done_response,
}
use go_aioesphomeapi.Messages.Kinds.{message_id}
use go_aioesphomeapi.Client.State.{
  Client, begin_shutdown, disconnect, close_framer, close_done, handlers_of, on, remove, ProbeKind,
}
use go_aioesphomeapi.Client.Send.{Codec, decode, Writes, send}
use go_aioesphomeapi.Client.Read.{call_all, deliver_direct, enqueue, receive, read_step}
use go_aioesphomeapi.Client.Dispatch.{
  handle_list, take_message, dispatch_take, dispatch_call, list_start, list_abandon,
  dispatch_take_cases,
}
use go_aioesphomeapi.Client.Steps.{
  Step, reads, takes, calls, sends, begins, disconnects, closes_framer, closes_done, registers,
  removes, lists, abandons,
}
use go_aioesphomeapi.Client.Probe.{ProbeKind, first_response, is_response}

-- The log of callbacks only grows.
abbrev pub Grown : Client → Client → Type 0
Grown c d = (more : List (ℕ × Message)) × (d.calls ≡ more ++ c.calls)

call_all-append :
    (tokens : List ℕ) (m : Message) (log : List (ℕ × Message))
    → (more : List (ℕ × Message)) × (call_all tokens m log ≡ more ++ log)
call_all-append [] m log = ([], refl)
call_all-append (t ∷ rest) m log =
    let k = call_all-append rest m ((t, m) ∷ log) in
    (k.0 ++ ((t, m) ∷ []), k.1 ∙ sym (append_assoc k.0 ((t, m) ∷ []) log))

deliver_direct-Grown : (c : Client) (m : Message) → Grown c (deliver_direct c m)
unfolding deliver_direct
deliver_direct-Grown c m = elim (Option-cases (message_id m)) [
  | inl e ↦ ([], ground (arith, e))
  | inr (id, e) ↦
      let k = call_all-append (values (handlers_of c id)) m c.calls in (k.0, ground (arith, e, k.1))
]

receive-Grown :
    (codec : Codec) (writes : Writes) (p : Bool) (c : Client) (m : Message)
    → Grown c (receive codec writes p c m).0
unfolding receive enqueue send
receive-Grown codec writes p c ping_request = ([], ground arith)
receive-Grown codec writes p c disconnect_request = ([], ground arith)
receive-Grown codec writes p c ping_response = deliver_direct-Grown c ping_response
receive-Grown codec writes p c (device_info_response i) =
    deliver_direct-Grown c (device_info_response i)
receive-Grown codec writes p c _ = ([], ground arith)

take_message-calls :
    (c : Client) (m : Message) (rest : List Message) → (take_message c m rest).calls ≡ c.calls
unfolding take_message handle_list
take_message-calls c list_entities_done_response rest = ground arith
take_message-calls c _ rest = ground arith

dispatch_take-calls : (c : Client) → (dispatch_take c).calls ≡ c.calls
dispatch_take-calls c =
    dispatch_take_cases (λ d. d.calls ≡ c.calls) c (λ _. refl) (λ _. refl)
      (λ m rest _ _. take_message-calls c m rest)

dispatch_call-Grown : (c : Client) → Grown c (dispatch_call c)
unfolding dispatch_call
dispatch_call-Grown c = elim (Option-cases c.running) [
  | inl e ↦ ([], ground (arith, e))
  | inr ((m, tokens), e) ↦ elim (List-cases tokens) [
    | inl f ↦ ([], ground (arith, e, f))
    | inr (token, rest, f) ↦ elim (Bool-cases c.is_done) [
      | inl d ↦ ([], ground (arith, e, f, d))
      | inr d ↦ ((token, m) ∷ [], ground (arith, e, f, d))
    ]
  ]
]

pub Step-Grown : (codec : Codec) {c d : Client} → Step codec c d → Grown c d
unfolding read_step decode send begin_shutdown disconnect close_framer close_done on remove
    list_start list_abandon
Step-Grown codec (reads writes p (err e) c) = ([], ground arith)
Step-Grown codec (reads writes p (ok f) c) = elim (Result-cases (decode codec f.kind f.payload)) [
  | inl (m, e) ↦ let k = receive-Grown codec writes p c m in (k.0, ground (arith, e, k.1))
  | inr (x, e) ↦ ([], ground (arith, e))
]
Step-Grown codec (takes c) = ([], dispatch_take-calls c)
Step-Grown codec (calls c) = dispatch_call-Grown c
Step-Grown codec (sends writes m c) = ([], ground arith)
Step-Grown codec (begins reason c) = ([], ground arith)
Step-Grown codec (disconnects c _) = ([], ground arith)
Step-Grown codec (closes_framer c _ _) = ([], ground arith)
Step-Grown codec (closes_done c _) = ([], ground arith)
Step-Grown codec (registers id c) = ([], ground arith)
Step-Grown codec (removes id token c) = ([], ground arith)
Step-Grown codec (lists writes c) = ([], ground arith)
Step-Grown codec (abandons c) = ([], ground arith)

pub first_response-append :
    (kind : ProbeKind) (token : ℕ) (more log : List (ℕ × Message)) (m : Message)
    → first_response kind token log ≡ some m
    → first_response kind token (more ++ log) ≡ some m
unfolding first_response
first_response-append kind token [] log m h = h
first_response-append kind token ((t, n) ∷ rest) log m h =
    let k = first_response-append kind token rest log m h in ground (arith, k)

pub first_response-is_response :
    (kind : ProbeKind) (token : ℕ) (log : List (ℕ × Message)) (m : Message)
    → first_response kind token log ≡ some m
    → is_response kind m ≡ true
unfolding first_response
first_response-is_response kind token [] m h = absurd cc
first_response-is_response kind token ((t, n) ∷ rest) m h =
    elim (Option-cases (first_response kind token rest)) [
      | inl e ↦ ground (arith, h, e)
      | inr (a, e) ↦ first_response-is_response kind token rest m (ground (arith, h, e))
    ]
