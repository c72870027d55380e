-- ===== src/Client/Tests.antt =====
-- Runs of a client over a small codec, and the theorems at concrete clients.
use go_aioesphomeapi.Base.{
  ℕ, ◌≡◌, refl, true, false, [], ◌∷◌, pos, none, some, ◌==◌, if◌then◌else◌, Result, ok,
}
use go_aioesphomeapi.Messages.{
  Message, Descriptor, HelloResponse, hello_response, ping_request, ping_response, switch_state,
  list_entities_switch,
}
use go_aioesphomeapi.Messages.Kinds.{message_id}
use go_aioesphomeapi.Entities.{switch, handle}
use go_aioesphomeapi.Wire.Io.{WireError}
use go_aioesphomeapi.Wire.Plain.{Frame}
use go_aioesphomeapi.Client.State.{
  Client, connected_client, new_client, shutdown, begin_shutdown, disconnect, close_framer,
  close_done, peer_disconnected, event_queue_full,
}
use go_aioesphomeapi.Client.Send.{Codec, Writes, send, decode}
use go_aioesphomeapi.Client.Read.{read_step, receive, enqueue, goes_on, end_round}
use go_aioesphomeapi.Client.Dispatch.{dispatch_take}
use go_aioesphomeapi.Client.Commands.{set_switch, FanCommandOpts, LightCommandOpts}
use go_aioesphomeapi.Client.Commands.Effects.{Effect, setters-Effect}
use go_aioesphomeapi.Client.Hello.{hello, accept_hello, DialConfig}
use go_aioesphomeapi.Client.Hello.Accepts.{IsAcceptable, hello_sound}
use go_aioesphomeapi.Client.Steps.{here, next, reads, takes, sends, begins}
use go_aioesphomeapi.Client.Steps.Lifecycle.{Ended, Reach-Ended}
use go_aioesphomeapi.Client.Steps.Queue.{IsQueue, Reach-IsQueue, connected-IsQueue}
use go_aioesphomeapi.Client.Read.Received.{Received, receive-Received}

abbrev greeting : HelloResponse
greeting = record {
  api_version_major = 1;
  api_version_minor = 10;
  server_info = [];
  name = 100 ∷ [];
}

abbrev lamp_state : Message
lamp_state = switch_state 5 true

-- Frame 2 is a greeting, 7 a ping, 26 the state of a switch; other IDs are unknown.
abbrev small_codec : Codec
small_codec = record {
  marshal = λ m. some [];
  known = λ id. if id == 2 then true else if id == 7 then true else id == 26;
  unmarshal = λ id p.
      if id == 2
      then some (hello_response greeting)
      else if id == 7
      then some ping_request
      else some lamp_state;
}

abbrev accepts_all : Writes
accepts_all id payload = none

abbrev frame_of : ℕ → Frame
frame_of kind = record { kind = kind; payload = [] }

abbrev one_slot : Client
unfolding connected_client
one_slot = connected_client 1

ping_answered :
    (read_step small_codec accepts_all false one_slot (ok (frame_of 7))).0.sent ≡ ping_response ∷ []
unfolding read_step decode receive send message_id connected_client
ping_answered = refl

unknown_skipped : (read_step small_codec accepts_all false one_slot (ok (frame_of 9))).1 ≡ goes_on
unfolding read_step decode connected_client
unknown_skipped = refl

-- The peer has disconnected, and the moments of the shutdown have run.
abbrev closed_client : Client
unfolding shutdown begin_shutdown disconnect close_framer close_done connected_client
closed_client = shutdown one_slot (some peer_disconnected)

closed_ending : closed_client.is_ending ≡ true
unfolding shutdown begin_shutdown disconnect close_framer close_done connected_client
closed_ending = refl

queue_overflow_closes :
    (end_round (enqueue true (record one_slot { queue_size = 0 }) lamp_state)).close_reason
    ≡ some event_queue_full
unfolding enqueue end_round shutdown begin_shutdown disconnect close_framer close_done
    connected_client
queue_overflow_closes = refl

Reach-Ended_example : Ended closed_client (
    begin_shutdown
      (send small_codec accepts_all
        (read_step small_codec accepts_all true closed_client (ok (frame_of 7))).0
        ping_request).0
      none)
Reach-Ended_example = Reach-Ended small_codec closed_ending (
    next
      (next (next here (reads accepts_all true (ok (frame_of 7)) closed_client))
        (sends accepts_all ping_request _))
      (begins none _))

Reach-IsQueue_example :
    IsQueue (dispatch_take (read_step small_codec accepts_all false one_slot (ok (frame_of 26))).0)
unfolding one_slot connected_client
Reach-IsQueue_example =
    Reach-IsQueue small_codec (connected-IsQueue 1)
      (next (next here (reads accepts_all false (ok (frame_of 26)) one_slot)) (takes _))

receive-Received_example :
    Received one_slot lamp_state (receive small_codec accepts_all false one_slot lamp_state)
unfolding connected_client
receive-Received_example =
    receive-Received small_codec accepts_all false one_slot lamp_state refl refl

abbrev no_fan_options : FanCommandOpts
no_fan_options = record {
  has_state = true;
  state = true;
  has_oscillating = false;
  oscillating = false;
  has_direction = false;
  direction = pos 0;
  has_speed_level = false;
  speed_level = pos 0;
  has_preset_mode = false;
  preset_mode = [];
}

abbrev no_light_options : LightCommandOpts
no_light_options = record {
  has_state = true;
  state = true;
  has_brightness = false;
  brightness = 0;
  has_colour_mode = false;
  colour_mode = pos 0;
  has_colour_brightness = false;
  colour_brightness = 0;
  has_rgb = false;
  red = 0;
  green = 0;
  blue = 0;
  has_white = false;
  white = 0;
  has_colour_temperature = false;
  colour_temperature = 0;
  has_cold_white = false;
  cold_white = 0;
  has_warm_white = false;
  warm_white = 0;
  has_transition_length = false;
  transition_length = 0;
  has_flash_length = false;
  flash_length = 0;
  has_effect = false;
  effect = [];
}

abbrev lamp : Descriptor
lamp = record { key = 5; object_id = []; name = []; more = [] }

abbrev knows_lamp : Client
unfolding connected_client
knows_lamp = record one_slot { entities = handle one_slot.entities (list_entities_switch lamp) }

setters-Effect_example :
    Effect knows_lamp switch 5
      (Message.switch_command 5 true)
      (set_switch small_codec accepts_all 5 true knows_lamp)
setters-Effect_example =
    (setters-Effect small_codec accepts_all knows_lamp 5 true 0 no_fan_options no_light_options).0

abbrev frame_reply : Result WireError Frame
frame_reply = ok (frame_of 2)

greeted : Client
unfolding hello send message_id decode accept_hello new_client
greeted = (hello small_codec accepts_all [] (100 ∷ []) frame_reply (new_client 1)).0

greeting_accepted :
    hello small_codec accepts_all [] (100 ∷ []) frame_reply (new_client 1) ≡ (greeted, none)
unfolding greeted
greeting_accepted = refl

hello_sound_example :
    (frame : Frame) × (r : HelloResponse) × (frame_reply ≡ ok frame)
    × (frame.kind ≡ 2)
    × (decode small_codec 2 frame.payload ≡ ok (hello_response r))
    × IsAcceptable (100 ∷ []) r
    × (greeted.name ≡ r.name)
hello_sound_example =
    hello_sound small_codec accepts_all [] (100 ∷ []) frame_reply (new_client 1) greeted
      greeting_accepted

abbrev keyed : DialConfig
keyed = record {
  encryption_key = 65 ∷ [];
  insecure_plaintext = false;
  callback_queue_size = pos 0;
  keepalive_requested = false;
  keepalive_interval = pos 0;
  keepalive_timeout = pos 0;
}
