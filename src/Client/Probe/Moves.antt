-- ===== src/Client/Probe/Moves.antt =====
-- client.go: what holds of a probe in each phase, and its own moves.
use go_aioesphomeapi.Client.Probe.Responses.{first_response-is_response}
use go_aioesphomeapi.Base.{
  ℕ, ◌≡◌, ◌⊎◌, true, false, not, ◌||◌, some, arith, ok, err, refl, ap, ◌∙◌, inl, inr, if◌then◌else◌,
  Option-cases, Bool-cases,
}
use go_aioesphomeapi.Messages.{Message}
use go_aioesphomeapi.Client.State.{
  on, remove, ClientError, Client, probe_no_response, probe_send, probe_send_ended,
}
use go_aioesphomeapi.Client.Send.{Codec, Writes, send}
use go_aioesphomeapi.Client.Probe.{
  ProbePhase, Probe, ProbeChoice, calling, waiting, registered, requested, expiring, returned,
  begin_close, expire_close, context_case, done_case, gate_case, response_case, is_response,
  first_response, closed_error, finishes, check_probe, wait_gate, send_request, wait_response,
  advance, probe_request, response_id,
}

-- The client is closed, or the watchdog is in its call of `shutdown`.
abbrev pub IsClosing : Probe → Type 0
IsClosing p = (p.client.is_done || p.closing) ≡ true

-- No verdict, or expiry.
abbrev pub IsUndecided : Probe → Type 0
IsUndecided p = ((p.verdict ≡ 0) × (p.closing ≡ false)) ⊎ ((p.verdict ≡ 2) × IsClosing p)

abbrev pub Untouched : Probe → Type 0
Untouched p = (p.verdict ≡ 0) × (p.closing ≡ false) × (p.in_flight ≡ false) × (p.watched ≡ false)

abbrev pub Holds : ℕ → Probe → Type 0
Holds token p = (p.gate ≡ false) × (p.own_token ≡ token)

-- What holds of a probe in each phase. A success has won the verdict, and its message is the first
-- response that its own callback was given. A failure has not, and when the request was sent the client is
-- closed, or the watchdog is about to close it.
abbrev pub Stands : ProbePhase → Probe → Type 0
Stands calling p = Untouched p
Stands waiting p = Untouched p
Stands (registered token) p = IsUndecided p × (p.in_flight ≡ false) × Holds token p
Stands (requested token) p = IsUndecided p × (p.in_flight ≡ true) × Holds token p
Stands (expiring token) p = (p.verdict ≡ 2) × (p.in_flight ≡ true) × Holds token p
Stands (returned (ok m)) p =
    (p.verdict ≡ 1)
    × (p.closing ≡ false)
    × (p.in_flight ≡ true)
    × (is_response p.kind m ≡ true)
    × (first_response p.kind p.own_token p.client.calls ≡ some m)
Stands (returned (err e)) p =
    IsUndecided p × ((not p.in_flight || p.client.is_done || p.closing) ≡ true)

pub record IsSound (p : Probe) : Type 0 where
  pub stands : Stands p.phase p

check-Stands : (p : Probe) → Stands calling p → IsSound (check_probe p)
unfolding check_probe
check-Stands p h = ground (arith, h)

wait_gate-Stands :
    (choice : ProbeChoice) (p : Probe)
    → p.phase ≡ waiting
    → Stands waiting p
    → IsSound (wait_gate choice p)
unfolding wait_gate on
wait_gate-Stands context_case p e h = ground (arith, e, h)
wait_gate-Stands done_case p e h = ground (arith, e, h)
wait_gate-Stands gate_case p e h = ground (arith, e, h)
wait_gate-Stands response_case p e h = ground (arith, e, h)

send-is_done :
    (codec : Codec) (writes : Writes) (c : Client) (m : Message)
    → (send codec writes c m).0.is_done ≡ c.is_done
unfolding send
send-is_done codec writes c m = ground arith

remove-is_done : (c : Client) (id token : ℕ) → (remove c id token).is_done ≡ c.is_done
unfolding remove
remove-is_done c id token = ground arith

remove-calls : (c : Client) (id token : ℕ) → (remove c id token).calls ≡ c.calls
unfolding remove
remove-calls c id token = ground arith

-- A failure that ends a probe without a verdict for it.
fails-Stands :
    (p : Probe) (token : ℕ) (e : ClientError)
    → IsUndecided p
    → (not p.in_flight || p.client.is_done || p.closing) ≡ true
    → IsSound (finishes p token (err e))
unfolding finishes
fails-Stands p token e u f =
    ground (arith, u, f, remove-is_done p.client (response_id p.kind) token)

send_request-Stands :
    (codec : Codec) (writes : Writes) (token : ℕ) (p : Probe)
    → Stands (registered token) p
    → IsSound (send_request codec writes token p)
unfolding send_request
send_request-Stands codec writes token p h =
    let kept = send-is_done codec writes p.client (probe_request p.kind) in
    let c = (send codec writes p.client (probe_request p.kind)).0 in
    elim (Option-cases (send codec writes p.client (probe_request p.kind)).1) [
      | inl n ↦ ground (arith, h, kept, n)
      | inr (e, n) ↦
          let failure = if p.context_done then probe_send_ended p.kind e else probe_send p.kind e in
          let k =
            fails-Stands (record p { client = c }) token failure (ground (arith, h, kept))
              (ground (arith, h, kept)) in
          ground (arith, n, k)
    ]

succeeds-Stands :
    (p : Probe) (token : ℕ) (m : Message)
    → p.in_flight ≡ true
    → p.closing ≡ false
    → p.own_token ≡ token
    → first_response p.kind token p.client.calls ≡ some m
    → IsSound (finishes (record p { verdict = 1 }) token (ok m))
unfolding finishes
succeeds-Stands p token m f n o a =
    let is_answer = first_response-is_response p.kind token p.client.calls m a in
    let kept = remove-calls p.client (response_id p.kind) token in
    record {
      stands = (
        refl,
        n,
        f,
        is_answer,
        ap (first_response p.kind p.own_token) kept
            ∙ ap (λ (t : ℕ). first_response p.kind t p.client.calls) o
            ∙ a,
      );
    }

wait_response-Stands :
    (choice : ProbeChoice) (token : ℕ) (p : Probe)
    → p.phase ≡ requested token
    → Stands (requested token) p
    → IsSound (wait_response choice token p)
unfolding wait_response
wait_response-Stands response_case token p e h =
    elim (Option-cases (first_response p.kind token p.client.calls)) [
      | inl n ↦ ground (arith, e, h, n)
      | inr (m, a) ↦
          let lost = fails-Stands p token (probe_no_response p.kind) h.0 in
          elim h.0 [
            | inl (unset, calm) ↦
                let won = succeeds-Stands p token m h.1 calm h.2.1 a in
                ground (arith, unset, a, won)
            | inr (set, closing) ↦ ground (arith, set, closing, a, lost)
          ]
    ]
wait_response-Stands context_case token p e h =
    let lost = fails-Stands p token (probe_no_response p.kind) h.0 in ground (arith, e, h, lost)
wait_response-Stands done_case token p e h =
    let lost = fails-Stands p token (closed_error p.kind p.client) h.0 in ground (arith, e, h, lost)
wait_response-Stands gate_case token p e h = ground (arith, e, h)

expire_close-Stands :
    (token : ℕ) (p : Probe)
    → p.phase ≡ expiring token
    → Stands (expiring token) p
    → IsSound (expire_close token p)
unfolding expire_close begin_close
expire_close-Stands token p e h = elim (Bool-cases p.client.is_done) [
  | inl d ↦
      let lost = fails-Stands p token (probe_no_response p.kind) (inr (h.0, ground (arith, d))) in
      ground (arith, d, lost)
  | inr d ↦ ground (arith, d, e, h)
]

pub advance-Stands :
    (codec : Codec) (writes : Writes) (choice : ProbeChoice) (p : Probe) (phase : ProbePhase)
    → p.phase ≡ phase
    → Stands phase p
    → IsSound (advance codec writes choice p)
unfolding advance
advance-Stands codec writes choice p calling e h = let k = check-Stands p h in ground (arith, e, k)
advance-Stands codec writes choice p waiting e h =
    let k = wait_gate-Stands choice p e h in ground (arith, e, k)
advance-Stands codec writes choice p (registered token) e h =
    let k = send_request-Stands codec writes token p h in ground (arith, e, k)
advance-Stands codec writes choice p (requested token) e h =
    let k = wait_response-Stands choice token p e h in ground (arith, e, k)
advance-Stands codec writes choice p (expiring token) e h =
    let k = expire_close-Stands token p e h in ground (arith, e, k)
advance-Stands codec writes choice p (returned (ok m)) e h = ground (arith, e, h)
advance-Stands codec writes choice p (returned (err x)) e h = ground (arith, e, h)
