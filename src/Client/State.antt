-- ===== src/Client/State.antt =====
-- client.go: the state of a client, its handlers, and how it ends.
use go_aioesphomeapi.Base.{
  ℕ, suc, Bool, true, false, List, [], Bytes, Option, none, some, if◌then◌else◌, Table, lookup,
  insert, delete,
}
use go_aioesphomeapi.Messages.{Message}
use go_aioesphomeapi.Entities.{EntityRegistry, EntityDomain, new_entity_registry}
use go_aioesphomeapi.Wire.Io.{WireError}

-- The exchanges that share one shape: `Ping`, the keepalive loop's ping, and `DeviceInfo`. Their names
-- are those of the categories `ErrPing`, `ErrKeepalive` and `ErrDeviceInfo`.
pub data ProbeKind : Type 0 where
  ping_probe keepalive_probe device_info_probe : ProbeKind

-- The errors of the client, as chains of what `%w` wraps.
pub data ClientError : Type 0 where
  entity_not_found : (key : ℕ) → ClientError
  entity_type_mismatch : (key : ℕ) (domain want : EntityDomain) → ClientError
  client_closed peer_disconnected event_queue_full listing_in_progress : ClientError
  identify_message encode_message : ClientError
  write_message read_frame_failed : WireError → ClientError
  decode_failed : (id : ℕ) → WireError → ClientError
  answer_ping answer_disconnect : ClientError → ClientError
  -- The stages of the hello exchange that `ErrHello` wraps.
  hello_send : ClientError → ClientError
  hello_read hello_decode : WireError → ClientError
  hello_id hello_major : ℕ → ClientError
  hello_type hello_peer_name : ClientError
  context_ended : ClientError
  -- The failures of a probe under its category; those of a probe that waits carry the context's cause.
  probe_nil_context probe_not_started probe_no_response probe_client_closed :
      ProbeKind → ClientError
  probe_closed probe_send probe_send_ended : ProbeKind → ClientError → ClientError

-- `listResult`: what a listing has gathered.
pub record ListResult : Type 0 where
  pub messages : List Message

pub record Client : Type 0 where
  pub entities : EntityRegistry
  -- `closeOnce` is taken; the framer is closed; `done` is closed.
  pub is_ending : Bool
  pub framer_closed : Bool
  pub is_done : Bool
  pub connected : Bool
  pub close_reason : Option ClientError
  pub name : Bytes
  pub server_info : Bytes
  pub api_major : ℕ
  pub api_minor : ℕ
  pub next_handler : ℕ
  -- The callbacks by message ID and token; a callback is its token.
  pub handlers : Table (Table ℕ)
  -- The bounded channel of events, oldest first.
  pub events : List Message
  pub queue_size : ℕ
  pub list : Option ListResult
  -- The listing that ended: what its caller reads.
  pub listed : Option (List Message)
  -- The dispatcher: the message whose callbacks are run, with those still to run; and whether it has
  -- returned, which closes `callbacksDone`.
  pub running : Option (Message × List ℕ)
  pub callbacks_done : Bool
  -- Logs for the theorems: the messages that entered the queue and those that the dispatcher took,
  -- oldest first; the messages written, and the callbacks run, newest first.
  pub queued : List Message
  pub taken : List Message
  pub sent : List Message
  pub calls : List (ℕ × Message)

-- `newClient`
unfoldable pub new_client : ℕ → Client
new_client queue_size = record {
  entities = new_entity_registry;
  is_ending = false;
  framer_closed = false;
  is_done = false;
  connected = false;
  close_reason = none;
  name = [];
  server_info = [];
  api_major = 0;
  api_minor = 0;
  next_handler = 0;
  handlers = [];
  events = [];
  queue_size = queue_size;
  list = none;
  listed = none;
  running = none;
  callbacks_done = false;
  queued = [];
  taken = [];
  sent = [];
  calls = [];
}

-- The client that `DialWithContext` hands out, before its goroutines have done anything.
unfoldable pub connected_client : ℕ → Client
unfolding new_client
connected_client queue_size = record (new_client queue_size) { connected = true }

-- `shutdown`, moment by moment, since other goroutines see a client between them. `closeOnce` is taken,
-- and the reason stored.
unfoldable pub begin_shutdown : Client → Option ClientError → Client
begin_shutdown c reason =
    if c.is_ending then c else record c { is_ending = true; close_reason = reason }

unfoldable pub disconnect : Client → Client
disconnect c = record c { connected = false }

unfoldable pub close_framer : Client → Client
close_framer c = record c { framer_closed = true }

unfoldable pub close_done : Client → Client
close_done c = record c { is_done = true }

-- `shutdown` as its caller sees it when no other goroutine is ending the client.
unfoldable pub shutdown : Client → Option ClientError → Client
unfolding begin_shutdown disconnect close_framer close_done
shutdown c reason =
    if c.is_ending then c else close_done (close_framer (disconnect (begin_shutdown c reason)))

-- `Close`
unfoldable pub close : Client → Client
unfolding shutdown
close c = shutdown c none

-- The inner map for a message ID; a missing one is empty.
abbrev pub handlers_of : Client → ℕ → Table ℕ
handlers_of c id = elim (lookup id c.handlers) [ none ↦ [] | some m ↦ m ]

-- `on`: the token of the new callback.
unfoldable pub on : Client → ℕ → Client × ℕ
on c id =
    let token = suc c.next_handler in
    (
      record c {
        next_handler = token;
        handlers = insert id (insert token token (handlers_of c id)) c.handlers;
      },
      token,
    )

-- The function that `on` returns: it takes the callback away.
unfoldable pub remove : Client → ℕ → ℕ → Client
remove c id token = elim (lookup id c.handlers) [
  | none ↦ c
  | some m ↦ record c { handlers = insert id (delete token m) c.handlers }
]
