-- ===== src/Client/Probe.antt =====
-- client.go: `probe`, `DeviceInfo` and the keepalive loop, with the context and its watchdog.
pub mod Moves
pub mod Responses
pub mod Sound
use go_aioesphomeapi.Base.{
  ℕ, ◌≡◌, Bool, true, false, not, ◌&&◌, Option, none, some, List, [], ◌∷◌, ◌==◌, if◌then◌else◌,
  Result, ok, err,
}
use go_aioesphomeapi.Messages.{
  Message, ping_request, ping_response, device_info_request, device_info_response,
}
use go_aioesphomeapi.Client.State.{
  ProbeKind, ClientError, Client, begin_shutdown, shutdown, on, remove, ping_probe, keepalive_probe,
  device_info_probe, probe_nil_context, probe_not_started, probe_no_response, probe_client_closed,
  probe_closed, probe_send, probe_send_ended,
}
use go_aioesphomeapi.Client.Send.{Codec, Writes, send}
use go_aioesphomeapi.Client.Steps.{Step}

-- The message that a probe sends, and the ID and the type of its response.
abbrev pub probe_request : ProbeKind → Message
probe_request device_info_probe = device_info_request
probe_request _ = ping_request

abbrev pub response_id : ProbeKind → ℕ
response_id device_info_probe = 10
response_id _ = 8

unfoldable pub is_response : ProbeKind → Message → Bool
is_response device_info_probe (device_info_response info) = true
is_response device_info_probe _ = false
is_response ping_probe ping_response = true
is_response ping_probe _ = false
is_response keepalive_probe ping_response = true
is_response keepalive_probe _ = false

-- Where a probe is: before its checks, at the gate, through it with its callback registered, with its
-- request sent, in the call of `shutdown` that its context's end led to, or back with its result, which
-- is the response for a success.
pub data ProbePhase : Type 0 where
  calling waiting : ProbePhase
  registered requested expiring : (token : ℕ) → ProbePhase
  returned : Result ClientError Message → ProbePhase

-- A probe and its client: whether a context was given and has ended, whether the gate is free, and the
-- verdict, 0 while it is open, 1 for completed and 2 for expired; whether the watchdog may run, and
-- whether it is in its call of `shutdown`. `in_flight` notes for the theorems that the request was sent,
-- and `own_token` the token of the callback.
pub record Probe : Type 0 where
  pub kind : ProbeKind
  pub client : Client
  pub has_context : Bool
  pub context_done : Bool
  pub gate : Bool
  pub phase : ProbePhase
  pub verdict : ℕ
  pub watched : Bool
  pub closing : Bool
  pub in_flight : Bool
  pub own_token : ℕ

-- `closedError`
unfoldable pub closed_error : ProbeKind → Client → ClientError
closed_error kind c = elim c.close_reason [
  | none ↦ probe_client_closed kind
  | some reason ↦ probe_closed kind reason
]

-- A return before the gate is taken.
abbrev pub refuses : Probe → ClientError → Probe
refuses p e = record p { phase = returned (err e) }

-- The deferred calls of a probe that holds the gate: the watchdog is stopped, unless the context has
-- ended and it may run already; the callback is removed, and the gate is freed.
unfoldable pub finishes : Probe → ℕ → Result ClientError Message → Probe
finishes p token result = record p {
  client = remove p.client (response_id p.kind) token;
  gate = true;
  watched = p.context_done;
  phase = returned result;
}

-- The first response that the callback put into its channel of one element; the log of the callbacks is
-- newest first.
unfoldable pub first_response : ProbeKind → ℕ → List (ℕ × Message) → Option Message
first_response kind token [] = none
first_response kind token ((t, m) ∷ older) =
    let earlier = first_response kind token older in
    elim earlier [
      | some answer ↦ some answer
      | none ↦ if t == token && is_response kind m then some m else none
    ]

-- The checks before the gate.
unfoldable pub check_probe : Probe → Probe
unfolding closed_error
check_probe p =
    if not p.has_context
    then refuses p (probe_nil_context p.kind)
    else if p.context_done
    then refuses p (probe_not_started p.kind)
    else if p.client.is_done
    then refuses p (closed_error p.kind p.client)
    else record p { phase = waiting }

-- The cases of the two `select` statements.
pub data ProbeChoice : Type 0 where
  context_case done_case gate_case response_case : ProbeChoice

-- The `select` at the gate; a case that is not ready leaves the probe where it is.
unfoldable pub wait_gate : ProbeChoice → Probe → Probe
unfolding on
wait_gate context_case p = if p.context_done then refuses p (probe_not_started p.kind) else p
wait_gate done_case p = if p.client.is_done then refuses p (closed_error p.kind p.client) else p
wait_gate gate_case p =
    if p.gate
    then (let registration = on p.client (response_id p.kind) in
        record p {
          client = registration.0;
          gate = false;
          watched = true;
          own_token = registration.1;
          phase = registered registration.1;
        })
    else p
wait_gate response_case p = p

-- The request is sent; a failure ends the probe.
unfoldable pub send_request : Codec → Writes → ℕ → Probe → Probe
unfolding finishes
send_request codec writes token p =
    let (c, failure) = send codec writes p.client (probe_request p.kind) in
    elim failure [
      | none ↦ record p { client = c; phase = requested token; in_flight = true }
      | some e ↦
          finishes (record p { client = c }) token
            (err (if p.context_done then probe_send_ended p.kind e else probe_send p.kind e))
    ]

-- `verdict.CompareAndSwap(0, verdictExpired)`, with its answer.
unfoldable pub expire : Probe → Probe × Bool
expire p = if p.verdict == 0 then (record p { verdict = 2 }, true) else (p, false)

-- The watchdog of `context.AfterFunc`, once the context has ended, up to its call of `shutdown`.
unfoldable pub watchdog : Probe → Probe
unfolding expire
watchdog p =
    if p.watched && p.context_done
    then (let (q, won) = expire p in if won then record q { closing = true } else q)
    else p

-- The call of `shutdown` begins the client's end, unless it has begun. The later moments of the end are
-- steps of the client, whoever began it.
unfoldable pub begin_close : Probe → Probe
unfolding begin_shutdown
begin_close p = record p { client = begin_shutdown p.client (some (probe_no_response p.kind)) }

-- The watchdog in its call of `shutdown`, which returns when `Done()` is closed.
unfoldable pub watchdog_close : Probe → Probe
unfolding begin_close
watchdog_close p =
    if p.closing
    then if p.client.is_done then record p { closing = false } else begin_close p
    else p

-- The probe in its own.
unfoldable pub expire_close : ℕ → Probe → Probe
unfolding begin_close finishes
expire_close token p =
    if p.client.is_done then finishes p token (err (probe_no_response p.kind)) else begin_close p

-- The `select` for the response.
unfoldable pub wait_response : ProbeChoice → ℕ → Probe → Probe
unfolding expire finishes
wait_response response_case token p = elim (first_response p.kind token p.client.calls) [
  | none ↦ p
  | some m ↦
      if p.verdict == 0
      then finishes (record p { verdict = 1 }) token (ok m)
      else finishes p token (err (probe_no_response p.kind))
]
wait_response context_case token p =
    if p.context_done
    then (let (q, won) = expire p in
        if won
        then record q { phase = expiring token }
        else finishes q token (err (probe_no_response p.kind)))
    else p
wait_response done_case token p =
    if p.client.is_done then finishes p token (err (closed_error p.kind p.client)) else p
wait_response gate_case token p = p

-- What the probe's goroutine does next.
unfoldable pub advance : Codec → Writes → ProbeChoice → Probe → Probe
advance codec writes choice p = elim p.phase [
  | calling ↦ check_probe p
  | waiting ↦ wait_gate choice p
  | registered token ↦ send_request codec writes token p
  | requested token ↦ wait_response choice token p
  | expiring token ↦ expire_close token p
  | returned result ↦ p
]

-- A probe that holds the gate.
unfoldable pub is_holding : ProbePhase → Bool
is_holding (registered token) = true
is_holding (requested token) = true
is_holding (expiring token) = true
is_holding _ = false

-- What may happen around a probe: its own moves, the end of its context, the two moves of its watchdog,
-- also of one that runs late beside the return, the other probes at a gate that it does not hold, and any step of the
-- client's other goroutines.
pub data ProbeStep (codec : Codec) : Probe → Probe → Type 0 where
  advances :
      (writes : Writes) (choice : ProbeChoice) (p : Probe)
      → ProbeStep codec p (advance codec writes choice p)
  ends : (p : Probe) → ProbeStep codec p (record p { context_done = true })
  expires : (p : Probe) → ProbeStep codec p (watchdog p)
  closes : (p : Probe) → ProbeStep codec p (watchdog_close p)
  gates :
      (p : Probe) (free : Bool)
      → is_holding p.phase ≡ false
      → ProbeStep codec p (record p { gate = free })
  interferes :
      (p : Probe) {d : Client} → Step codec p.client d → ProbeStep codec p (record p { client = d })

pub data ProbeReach (codec : Codec) (p : Probe) : Probe → Type 0 where
  unmoved : ProbeReach codec p p
  moved : {q r : Probe} → ProbeReach codec p q → ProbeStep codec q r → ProbeReach codec p r

-- A call of `Ping`, of the keepalive loop's probe or of `DeviceInfo`.
abbrev pub call_probe : ProbeKind → Client → Bool → Probe
call_probe kind c gate = record {
  kind = kind;
  client = c;
  has_context = true;
  context_done = false;
  gate = gate;
  phase = calling;
  verdict = 0;
  watched = false;
  closing = false;
  in_flight = false;
  own_token = 0;
}

-- A round of the keepalive loop after its probe: whether the loop goes on.
unfoldable pub keepalive_round : Client → Option ClientError → Client × Bool
unfolding shutdown
keepalive_round c none = (c, true)
keepalive_round c (some (probe_not_started kind)) = (c, true)
keepalive_round c (some e) = (shutdown c (some e), false)
