-- ===== src/Wire/NoiseTests.antt =====
-- internal/wire/noise.go: a handshake over a small library, and rejections.
use go_aioesphomeapi.Base.{
  ℕ, suc, ◌≡◌, refl, inr, none, some, ◌∷◌, ◌++◌, arith, ◌==◌, if◌then◌else◌, take, drop, replicate,
  Bytes, codes, bytes_equal, pos,
}
use go_aioesphomeapi.Wire.Noise.Rejection.{
  starts, contains, base64, without_breaks, contains_base64_key_echo, clean_byte, trim_front,
  trim_back, redacted, clean_reason, sanitize_noise_rejection,
}
use go_aioesphomeapi.Wire.Noise.Rejection.Shown.{IsHarmless, sanitize-IsHarmless}
use go_aioesphomeapi.Wire.Noise.Handshake.{NoiseLibrary, until_zero}
use go_aioesphomeapi.Wire.Noise.Handshake.Agreement.{Exchange, Agreed, handshake-Agreed}
use go_aioesphomeapi.Wire.Tests.{tagging, tagging-IsAead}

-- A library whose messages are the key: an end takes a message only if it has the same key.
abbrev key_library : NoiseLibrary
key_library = record {
  HandshakeState = ℕ × Bytes;
  new_handshake_state = λ seed initiator psk. some (0, psk);
  write_message = λ state.
      some
        ((suc state.0, state.1), state.1, if state.0 == 0 then none else some (tagging, tagging));
  read_message = λ state message.
      if bytes_equal message state.1
      then some ((suc state.0, state.1), if state.0 == 0 then none else some (tagging, tagging))
      else none;
}

abbrev sevens : Bytes
sevens = replicate 32 7

key_exchange : Exchange key_library 1 2 sevens
unfolding bytes_equal
key_exchange = record {
  client_start = (0, sevens);
  client_sent = (1, sevens);
  client_end = (2, sevens);
  server_start = (0, sevens);
  server_read = (1, sevens);
  server_end = (2, sevens);
  first = sevens;
  second = sevens;
  forward = tagging;
  backward = tagging;
  client_new = refl;
  client_writes = refl;
  server_new = refl;
  server_reads = refl;
  server_writes = refl;
  client_reads = refl;
  first_fits = (omega arith, omega arith);
  second_fits = (omega arith, omega arith);
}

handshake-Agreed_example : Agreed key_library 1 2 sevens (codes "lamp") (codes "lamp") (pos 0) 9
unfolding until_zero key_exchange
handshake-Agreed_example =
    handshake-Agreed key_library 1 2 sevens (codes "lamp") (codes "lamp") (pos 0) 9 key_exchange
      refl (omega arith) refl (inr refl) tagging-IsAead tagging-IsAead

-- A peer that echoes the key in base64, broken by a line end, and one that gives a reason.
sanitize_echo :
    sanitize_noise_rejection (take 20 (base64 sevens) ++ (10 ∷ drop 20 (base64 sevens))) sevens
    ≡ redacted
unfolding sanitize_noise_rejection contains_base64_key_echo contains starts base64 without_breaks
sanitize_echo = refl

sanitize_plain : sanitize_noise_rejection (32 ∷ 7 ∷ codes "bad key ") sevens ≡ codes "?bad key"
unfolding sanitize_noise_rejection contains_base64_key_echo contains starts base64 without_breaks
    clean_reason clean_byte trim_front trim_back
sanitize_plain = refl

sanitize-IsHarmless_example :
    IsHarmless sevens (sanitize_noise_rejection (32 ∷ 7 ∷ codes "bad key ") sevens)
sanitize-IsHarmless_example = sanitize-IsHarmless (32 ∷ 7 ∷ codes "bad key ") sevens (omega arith)
