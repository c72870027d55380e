-- ===== src/Client/Steps.antt =====
-- client.go: the goroutines of a client as steps on its state, in any order.
pub mod Lifecycle
pub mod Queue
use go_aioesphomeapi.Base.{ℕ, Bool, true, false, Option, Result, ◌≡◌, sym, arith}
use mathlib.Core.Path.{subst}
use go_aioesphomeapi.Messages.{Message}
use go_aioesphomeapi.Wire.Io.{WireError}
use go_aioesphomeapi.Wire.Plain.{Frame}
use go_aioesphomeapi.Client.State.{
  Client, ClientError, begin_shutdown, disconnect, close_framer, close_done, shutdown, on, remove,
}
use go_aioesphomeapi.Client.Send.{Codec, Writes, send}
use go_aioesphomeapi.Client.Read.{read_step}
use go_aioesphomeapi.Client.Dispatch.{dispatch_take, dispatch_call, list_start, list_abandon}

-- What may happen to a client once it is connected. The read loop, `Close`, the context's end, a failed
-- probe and the keepalive loop all call `shutdown`, with the reason that they have; its moments are steps
-- of their own, each after the one before it.
pub data Step (codec : Codec) : Client → Client → Type 0 where
  reads :
      (writes : Writes) (prefer_done : Bool) (frame : Result WireError Frame) (c : Client)
      → Step codec c (read_step codec writes prefer_done c frame).0
  takes : (c : Client) → Step codec c (dispatch_take c)
  calls : (c : Client) → Step codec c (dispatch_call c)
  sends : (writes : Writes) (m : Message) (c : Client) → Step codec c (send codec writes c m).0
  begins : (reason : Option ClientError) (c : Client) → Step codec c (begin_shutdown c reason)
  disconnects : (c : Client) → c.is_ending ≡ true → Step codec c (disconnect c)
  closes_framer :
      (c : Client) → c.is_ending ≡ true → c.connected ≡ false → Step codec c (close_framer c)
  closes_done : (c : Client) → c.framer_closed ≡ true → Step codec c (close_done c)
  registers : (id : ℕ) (c : Client) → Step codec c (on c id).0
  removes : (id token : ℕ) (c : Client) → Step codec c (remove c id token)
  lists : (writes : Writes) (c : Client) → Step codec c (list_start codec writes c).0
  abandons : (c : Client) → Step codec c (list_abandon c)

pub data Reach (codec : Codec) (c : Client) : Client → Type 0 where
  here : Reach codec c c
  next : {d e : Client} → Reach codec c d → Step codec d e → Reach codec c e

-- A call of `shutdown` on a client whose end has not begun is its moments, one after the other.
pub shutdown-Reach :
    (codec : Codec) (reason : Option ClientError) (c : Client)
    → c.is_ending ≡ false
    → Reach codec c (shutdown c reason)
shutdown-Reach codec reason c unended = subst (Reach codec c) (sym whole) (
    next
      (next
        (next (next here (begins reason c))
          (disconnects begun (unfold begin_shutdown in ground arith)))
        (closes_framer (disconnect begun) (unfold begin_shutdown disconnect in ground arith)
          (unfold disconnect in ground arith)))
      (closes_done (close_framer (disconnect begun)) (unfold close_framer in ground arith)))
  where
    begun : Client
    begun = begin_shutdown c reason

    whole : shutdown c reason ≡ close_done (close_framer (disconnect begun))
    whole = unfold shutdown in ground arith
