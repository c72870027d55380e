-- ===== src/Client/Probe/Sound.antt =====
-- client.go: what a probe's result says.
use mathlib.Core.Path.{subst}
use go_aioesphomeapi.Client.Steps.Lifecycle.{Step-done}
use go_aioesphomeapi.Client.Probe.Responses.{Step-Grown, first_response-append}
use go_aioesphomeapi.Base.{◌≡◌, true, false, some, arith, ok, err, refl, ap, ◌∙◌, Option, sym, Bool}
use go_aioesphomeapi.Client.State.{ClientError, Client, begin_shutdown, probe_no_response}
use go_aioesphomeapi.Client.Send.{Codec}
use go_aioesphomeapi.Client.Steps.{Step}
use go_aioesphomeapi.Client.Probe.{
  ProbeKind, ProbePhase, Probe, ProbeStep, ProbeReach, calling, waiting, registered, requested,
  expiring, returned, closes, begin_close, watchdog_close, advances, ends, expires, gates,
  interferes, unmoved, moved, first_response, expire, watchdog, is_holding, call_probe,
}
use go_aioesphomeapi.Client.Probe.Moves.{Stands, IsSound, advance-Stands}

watchdog-Stands : (p : Probe) (phase : ProbePhase) → Stands phase p → Stands phase (watchdog p)
unfolding watchdog expire
watchdog-Stands p calling h = ground (arith, h)
watchdog-Stands p waiting h = ground (arith, h)
watchdog-Stands p (registered token) h = ground (arith, h)
watchdog-Stands p (requested token) h = ground (arith, h)
watchdog-Stands p (expiring token) h = ground (arith, h)
watchdog-Stands p (returned (ok m)) h =
    let same : watchdog p ≡ p = ground (arith, h.0) in subst (Stands (returned (ok m))) (sym same) h
watchdog-Stands p (returned (err e)) h = ground (arith, h)

watchdog-phase : (p : Probe) → (watchdog p).phase ≡ p.phase
unfolding watchdog expire
watchdog-phase p = ground arith

begin-is_done :
    (c : Client) (reason : Option ClientError) → (begin_shutdown c reason).is_done ≡ c.is_done
unfolding begin_shutdown
begin-is_done c reason = ground arith

watchdog_close-Stands :
    (p : Probe) (phase : ProbePhase) → Stands phase p → Stands phase (watchdog_close p)
unfolding watchdog_close begin_close
watchdog_close-Stands p calling h = ground (arith, h)
watchdog_close-Stands p waiting h = ground (arith, h)
watchdog_close-Stands p (registered token) h =
    let k = begin-is_done p.client (some (probe_no_response p.kind)) in ground (arith, h, k)
watchdog_close-Stands p (requested token) h =
    let k = begin-is_done p.client (some (probe_no_response p.kind)) in ground (arith, h, k)
watchdog_close-Stands p (expiring token) h = ground (arith, h)
watchdog_close-Stands p (returned (ok m)) h =
    let same : watchdog_close p ≡ p = ground (arith, h.1) in
    subst (Stands (returned (ok m))) (sym same) h
watchdog_close-Stands p (returned (err e)) h =
    let k = begin-is_done p.client (some (probe_no_response p.kind)) in ground (arith, h, k)

watchdog_close-phase : (p : Probe) → (watchdog_close p).phase ≡ p.phase
unfolding watchdog_close begin_close
watchdog_close-phase p = ground arith

ends-Stands :
    (p : Probe) (phase : ProbePhase)
    → Stands phase p
    → Stands phase (record p { context_done = true })
ends-Stands p calling h = h
ends-Stands p waiting h = h
ends-Stands p (registered token) h = h
ends-Stands p (requested token) h = h
ends-Stands p (expiring token) h = h
ends-Stands p (returned (ok m)) h = h
ends-Stands p (returned (err e)) h = h

gates-Stands :
    (p : Probe) (free : Bool) (phase : ProbePhase)
    → is_holding phase ≡ false
    → Stands phase p
    → Stands phase (record p { gate = free })
unfolding is_holding
gates-Stands p free calling n h = h
gates-Stands p free waiting n h = h
gates-Stands p free (registered token) n h = absurd cc
gates-Stands p free (requested token) n h = absurd cc
gates-Stands p free (expiring token) n h = absurd cc
gates-Stands p free (returned (ok m)) n h = h
gates-Stands p free (returned (err e)) n h = h

-- The client's other goroutines neither reopen it nor take back a response.
interferes-Stands :
    (codec : Codec) (p : Probe) (d : Client) (phase : ProbePhase)
    → Step codec p.client d
    → Stands phase p
    → Stands phase (record p { client = d })
interferes-Stands codec p d calling s h = h
interferes-Stands codec p d waiting s h = h
interferes-Stands codec p d (registered token) s h =
    let k = Step-done codec s in ground (arith, h, k)
interferes-Stands codec p d (requested token) s h =
    let k = Step-done codec s in ground (arith, h, k)
interferes-Stands codec p d (expiring token) s h = h
interferes-Stands codec p d (returned (ok m)) s (v, n, f, r, a) =
    let g = Step-Grown codec s in
    (
      v,
      n,
      f,
      r,
      ap (first_response p.kind p.own_token) g.1
          ∙ first_response-append p.kind p.own_token g.0 p.client.calls m a,
    )
interferes-Stands codec p d (returned (err e)) s h =
    let k = Step-done codec s in ground (arith, h, k)

step-IsSound : (codec : Codec) {p q : Probe} → ProbeStep codec p q → IsSound p → IsSound q
step-IsSound codec (advances writes choice p) h =
    advance-Stands codec writes choice p p.phase refl h.stands
step-IsSound codec (ends p) h = record { stands = ends-Stands p p.phase h.stands }
step-IsSound codec (expires p) h = record {
  stands =
      subst (λ f. Stands f (watchdog p)) (sym (watchdog-phase p))
        (watchdog-Stands p p.phase h.stands);
}
step-IsSound codec (closes p) h = record {
  stands =
      subst (λ f. Stands f (watchdog_close p)) (sym (watchdog_close-phase p))
        (watchdog_close-Stands p p.phase h.stands);
}
step-IsSound codec (gates p free n) h = record { stands = gates-Stands p free p.phase n h.stands }
step-IsSound codec (interferes p {d} s) h = record {
  stands = interferes-Stands codec p d p.phase s h.stands;
}

-- Whatever the client's other goroutines, the context and the watchdog do around a call of Ping,
-- of the keepalive's probe or of DeviceInfo, in any order and between the moments of a shutdown: a
-- success has won the verdict, its request was sent, its message is the first response that its
-- own callback was given, and its watchdog never shuts the client down; after a failure of a probe
-- whose request was sent the client is closed, or the watchdog has won the verdict and is in its
-- call of shutdown, which returns only when the client is closed; and while the probe waits for
-- its response it holds the gate.
pub reach-IsSound :
    (codec : Codec) (kind : ProbeKind) (c : Client) (gate : Bool) {p : Probe}
    → ProbeReach codec (call_probe kind c gate) p
    → IsSound p
reach-IsSound codec kind c gate unmoved = record { stands = (refl, refl, refl, refl) }
reach-IsSound codec kind c gate (moved r s) =
    step-IsSound codec s (reach-IsSound codec kind c gate r)
