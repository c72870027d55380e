-- ===== src/Client/Hello/Accepts.antt =====
-- client.go: when the hello exchange succeeds, and when plaintext is used.
use go_aioesphomeapi.Base.{
  ◌≡◌, ◌↔◌, Bool, ◌&&◌, ◌||◌, is_not_positive, refl, true, false, [], Bytes, bytes_equal,
  bytes_equal_iff, none, arith, inl, inr, ◌⊎◌, ◌≢◌, Result, ok, err, Result-cases, Bool-cases,
}
use go_aioesphomeapi.Messages.{Message, HelloResponse, hello_request, hello_response}
use go_aioesphomeapi.Wire.Io.{WireError}
use go_aioesphomeapi.Wire.Plain.{Frame}
use go_aioesphomeapi.Client.State.{Client}
use go_aioesphomeapi.Client.Send.{Codec, Writes, decode, send}
use go_aioesphomeapi.Client.Hello.{
  accept_hello, hello, DialConfig, Transport, noise, plaintext, dial_transport,
}

-- A response that the client may accept.
pub record IsAcceptable (expected_name : Bytes) (r : HelloResponse) : Type 0 where
  pub major : r.api_version_major ≡ 1
  pub named : (expected_name ≡ []) ⊎ (r.name ≡ expected_name)

accept_hello_sound :
    (expected_name : Bytes) (c d : Client) (m : Message)
    → accept_hello expected_name c m ≡ (d, none)
    → (r : HelloResponse) × (m ≡ hello_response r)
      × IsAcceptable expected_name r
      × (d.name ≡ r.name)
      × (d.api_minor ≡ r.api_version_minor)
unfolding accept_hello
accept_hello_sound expected c d (Message.hello_response r) e = (
  r,
  refl,
  record {
    major = ground arith;
    named = elim (Bool-cases (bytes_equal expected [])) [
      | inl none_expected ↦ inl ((bytes_equal_iff expected []).0 none_expected)
      | inr some_expected ↦ inr ((bytes_equal_iff r.name expected).0 (ground arith))
    ];
  },
  ground arith,
  ground arith,
)
accept_hello_sound expected c d _ e = absurd (ground arith)

-- A hello exchange that succeeds had a reply with message ID 2 that decodes to a hello response of
-- major version 1, whose name is the expected one if one was expected, and the client keeps that
-- name.
pub hello_sound :
    (codec : Codec) (writes : Writes) (info expected : Bytes) (reply : Result WireError Frame)
    (c d : Client)
    → hello codec writes info expected reply c ≡ (d, none)
    → (frame : Frame) × (r : HelloResponse) × (reply ≡ ok frame)
      × (frame.kind ≡ 2)
      × (decode codec 2 frame.payload ≡ ok (hello_response r))
      × IsAcceptable expected r
      × (d.name ≡ r.name)
unfolding hello
hello_sound codec writes info expected (err x) c d e = absurd (ground arith)
hello_sound codec writes info expected (ok frame) c d e =
    elim (Result-cases (decode codec frame.kind frame.payload)) [
      | inr (x, q) ↦ absurd (ground arith)
      | inl (m, q) ↦
          let sent : Client = (send codec writes c (hello_request info 1 10)).0 in
          let (r, shape, acceptable, name, minor) =
            accept_hello_sound expected sent d m (ground arith) in
          let two : frame.kind ≡ 2 = ground arith in
          (frame, r, refl, two, ground arith, acceptable, name)
    ]

-- How a configuration asks for each transport: a key and no opt-in to plaintext, or the other way.
abbrev pub Chooses : Transport → DialConfig → Type 0
Chooses noise cfg = (cfg.encryption_key ≢ []) × (cfg.insecure_plaintext ≡ false)
Chooses plaintext cfg = (cfg.encryption_key ≡ []) × (cfg.insecure_plaintext ≡ true)

-- Keepalive is not requested, or both its durations are positive.
abbrev pub keepalive_refused : DialConfig → Bool
keepalive_refused cfg =
    cfg.keepalive_requested
    && (is_not_positive cfg.keepalive_interval || is_not_positive cfg.keepalive_timeout)

-- A connection is encrypted exactly with a key and without the plaintext opt-in, and in plaintext
-- exactly with the opt-in and without a key, and in both cases only when a requested keepalive has
-- positive durations.
pub dial_transport_iff :
    (cfg : DialConfig) (t : Transport)
    → (dial_transport cfg ≡ ok t) ↔ (Chooses t cfg × (keepalive_refused cfg ≡ false))
unfolding dial_transport
dial_transport_iff cfg noise = (
  λ e. ((ground (arith, bytes_equal_iff cfg.encryption_key []), ground arith), ground arith),
  λ h. ground (arith, bytes_equal_iff cfg.encryption_key []),
)
dial_transport_iff cfg plaintext = (
  λ e. ((ground (arith, bytes_equal_iff cfg.encryption_key []), ground arith), ground arith),
  λ h. ground (arith, bytes_equal_iff cfg.encryption_key []),
)
