-- ===== src/Mdns/Resolver/Loop.antt =====
-- internal/mdns/resolver.go: how many queries a socket sends, and when its loop ends.
use go_aioesphomeapi.Base.{
  ℕ, zero, suc, ◌+◌, ◌≤◌, ◌<◌, ◌≡◌, ◌⊎◌, inl, inr, Option, some, List, [], ◌∷◌, arith, Option-cases,
  length, get_elem?, Bytes, refl, ◌∙◌, none, ◌==◌, Bool-cases, ap, Bool, not, ◌&&◌, ltb, ==_iff,
}
use go_aioesphomeapi.Wire.Io.{IoError}
use go_aioesphomeapi.Mdns.Names.{Unicode}
use go_aioesphomeapi.Mdns.Packets.{answer_ip}
use go_aioesphomeapi.Mdns.Resolver.{
  multicast_port, SocketEvent, Asking, Lookup, retransmit_at, lookup_rounds, datagram, read_fails,
  asking, found, gave_up, LookupError, lookup_round, write_query, lookup_on_conn, deadline_refused,
  send_query, set_deadline, read_answer, context_ended_lookup,
}

-- The reads that failed.
unfoldable pub failures : List SocketEvent → ℕ
failures [] = 0
failures (read_fails t c n e ∷ rest) = suc (failures rest)
failures (_ ∷ rest) = failures rest

get_elem?_bound :
    {A : Type 0} (xs : List A) (i : ℕ) (x : A) → get_elem? xs i ≡ some x → i < length xs
get_elem?_bound [] i x e = absurd cc
get_elem?_bound (y ∷ ys) zero x e = omega arith
get_elem?_bound (y ∷ ys) (suc i) x e = omega (arith, get_elem?_bound ys i x e)

module _ (u : Unicode) (host : Bytes) (writes : ℕ → Option IoError) (start deadline : ℕ)
    (schedule : List ℕ) where
  -- A datagram from the multicast port that answers the host with an address.
  unfoldable pub IsAnswer : SocketEvent → Bytes → Type 0
  IsAnswer (datagram (some port) bytes) ip =
      (port ≡ multicast_port) × (answer_ip u bytes host ≡ some ip)
  IsAnswer _ ip = ⊥

  unfoldable pub IsHeard : List SocketEvent → Bytes → Type 0
  unfolding IsAnswer
  IsHeard [] ip = ⊥
  IsHeard (e ∷ rest) ip = IsAnswer e ip ⊎ IsHeard rest ip

  -- What holds after events when some reads had failed before. A loop that goes on has sent one query
  -- and one more for each failed read, and no more than the schedule has entries; an address is that of
  -- an answer that arrived.
  abbrev pub Tallies : ℕ → List SocketEvent → Lookup → Type 0
  Tallies before events (asking a) =
      (a.retransmit ≡ before + failures events)
      × (a.sent ≡ suc a.retransmit)
      × (a.retransmit ≤ length schedule)
  Tallies before events (found ip sent) = (sent ≤ suc (length schedule)) × IsHeard events ip
  Tallies before events (gave_up x sent) = sent ≤ suc (length schedule)

  retransmit_at_bound :
      (a : Asking) (at : ℕ)
      → retransmit_at u host writes start deadline schedule a ≡ some at
      → a.retransmit < length schedule
  unfolding retransmit_at
  retransmit_at_bound a at e = elim (Option-cases (get_elem? schedule a.retransmit)) [
    | inl n ↦ absurd (ground (arith, e, n))
    | inr (d, n) ↦ get_elem?_bound schedule a.retransmit d n
  ]

  -- What holds after the rest holds after one event more.
  later-Tallies :
      (before after : ℕ) (e : SocketEvent) (rest : List SocketEvent) (l : Lookup)
      → before + failures rest ≡ after + failures (e ∷ rest)
      → Tallies before rest l
      → Tallies after (e ∷ rest) l
  unfolding IsHeard
  later-Tallies before after e rest (asking a) same t = (t.0 ∙ same, t.1, t.2)
  later-Tallies before after e rest (found ip sent) same t = (t.0, inr t.1)
  later-Tallies before after e rest (gave_up x sent) same t = t

  pub kept_found :
      (rest : List SocketEvent) (ip : Bytes) (sent : ℕ)
      → lookup_rounds u host writes start deadline schedule rest (found ip sent) ≡ found ip sent
  unfolding lookup_rounds
  kept_found [] ip sent = refl
  kept_found (e ∷ rest) ip sent = refl

  kept_gave_up :
      (rest : List SocketEvent) (x : LookupError) (sent : ℕ)
      → lookup_rounds u host writes start deadline schedule rest (gave_up x sent) ≡ gave_up x sent
  unfolding lookup_rounds
  kept_gave_up [] x sent = refl
  kept_gave_up (e ∷ rest) x sent = refl

  abbrev after_round : SocketEvent → List SocketEvent → Asking → Lookup
  after_round e rest a =
      lookup_rounds u host writes start deadline schedule rest
        (lookup_round u host writes start deadline schedule e a)

  gives_up :
      (e : SocketEvent) (rest : List SocketEvent) (a : Asking) (x : LookupError) (sent : ℕ)
      → sent ≤ suc (length schedule)
      → lookup_round u host writes start deadline schedule e a ≡ gave_up x sent
      → Tallies a.retransmit (e ∷ rest) (after_round e rest a)
  gives_up e rest a x sent h r = rw (r, kept_gave_up rest x sent) h

  -- A datagram leaves the loop going or ends it with an address.
  datagram-Tallies :
      (port : Option ℕ) (bytes : Bytes) (rest : List SocketEvent) (a : Asking)
      → a.sent ≤ suc (length schedule)
      → Tallies a.retransmit rest
          (lookup_rounds u host writes start deadline schedule rest (asking a))
      → Tallies a.retransmit (datagram port bytes ∷ rest) (after_round (datagram port bytes) rest a)
  unfolding lookup_round failures IsHeard IsAnswer
  datagram-Tallies none bytes rest a s t =
      later-Tallies a.retransmit a.retransmit (datagram none bytes) rest _ refl t
  datagram-Tallies (some port) bytes rest a s t =
      let skipped =
        later-Tallies a.retransmit a.retransmit (datagram (some port) bytes) rest _ refl t in
      elim (Bool-cases (port == multicast_port)) [
        | inr o ↦ rw (o, lookup_round) skipped
        | inl o ↦ elim (Option-cases (answer_ip u bytes host)) [
          | inl n ↦ rw (o, n, lookup_round) skipped
          | inr (ip, n) ↦
              let heard : IsHeard (datagram (some port) bytes ∷ rest) ip =
                inl ((==_iff port multicast_port).0 o, n) in
              rw (o, n, lookup_round, kept_found rest ip a.sent) (s, heard)
        ]
      ]

  -- A failed read leaves the loop going only with an entry of the schedule used and a query sent.
  failure-Tallies :
      (is_timeout context_ended : Bool) (now : ℕ) (e : IoError) (rest : List SocketEvent)
      (a : Asking)
      → a.sent ≡ suc a.retransmit
      → a.retransmit ≤ length schedule
      → (suc a.retransmit ≤ length schedule
          → Tallies (suc a.retransmit) rest (
              lookup_rounds u host writes start deadline schedule rest
                (asking (record { sent = suc a.sent; retransmit = suc a.retransmit }))))
      → Tallies a.retransmit
          (read_fails is_timeout context_ended now e ∷ rest)
          (after_round (read_fails is_timeout context_ended now e) rest a)
  unfolding lookup_round write_query failures IsHeard
  failure-Tallies is_timeout context_ended now e rest a s r t =
      let event = read_fails is_timeout context_ended now e in
      let few : a.sent ≤ suc (length schedule) = omega (arith, s, r) in
      let ends = gives_up event rest a (read_answer e) a.sent few in
      elim (Bool-cases context_ended) [
        | inl c ↦ gives_up event rest a context_ended_lookup a.sent few (rw (c, lookup_round) refl)
        | inr c ↦ elim (Option-cases (retransmit_at u host writes start deadline schedule a)) [
          | inl n ↦ ends (rw (c, lookup_round, n) refl)
          | inr (at, n) ↦ elim (Bool-cases (is_timeout && not (ltb now at))) [
            | inr w ↦ ends (rw (c, lookup_round, n, w) refl)
            | inl w ↦ elim (Option-cases (writes a.sent)) [
              | inl q ↦
                  rw (c, lookup_round, n, w, write_query, q)
                    (later-Tallies (suc a.retransmit) a.retransmit event rest _ (omega arith)
                      (t (retransmit_at_bound a at n)))
              | inr (x, q) ↦
                  gives_up event rest a (send_query x) a.sent few
                    (rw (c, lookup_round, n, w, write_query, q) refl)
            ]
          ]
        ]
      ]

  rounds-Tallies :
      (events : List SocketEvent) (a : Asking)
      → a.sent ≡ suc a.retransmit
      → a.retransmit ≤ length schedule
      → Tallies a.retransmit events
          (lookup_rounds u host writes start deadline schedule events (asking a))
  unfolding lookup_rounds failures
  rounds-Tallies [] a s r = (omega arith, s, r)
  rounds-Tallies (deadline_refused e ∷ rest) a s r =
      gives_up (deadline_refused e) rest a (set_deadline e) a.sent (omega (arith, s, r))
        (unfold lookup_round in refl)
  rounds-Tallies (datagram port bytes ∷ rest) a s r =
      datagram-Tallies port bytes rest a (omega (arith, s, r)) (rounds-Tallies rest a s r)
  rounds-Tallies (read_fails is_timeout context_ended now e ∷ rest) a s r =
      failure-Tallies is_timeout context_ended now e rest a s r (λ l.
        rounds-Tallies rest (record { sent = suc a.sent; retransmit = suc a.retransmit }) (ap suc s)
          l)

  -- Whatever arrives at a socket and however its reads and writes fail: a lookup sends at most one
  -- query and one more for each entry of the schedule; a loop that goes on has survived exactly
  -- one failed read for each query after its first, so that the first failed read beyond the
  -- schedule ends it; and an address that it returns is that of an answer for the host that came
  -- from the multicast port.
  pub lookup_on_conn-Tallies :
      (events : List SocketEvent)
      → Tallies 0 events (lookup_on_conn u host writes start deadline schedule events)
  unfolding lookup_on_conn write_query
  lookup_on_conn-Tallies events = elim (Option-cases (writes 0)) [
    | inl q ↦
        rw (lookup_on_conn, write_query, q)
          (rounds-Tallies events (record { sent = 1; retransmit = 0 }) refl (omega arith))
    | inr (x, q) ↦
        rw (lookup_on_conn, write_query, q, kept_gave_up events (send_query x) 0) (omega arith)
  ]
