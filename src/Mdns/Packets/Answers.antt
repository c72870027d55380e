-- ===== src/Mdns/Packets/Answers.antt =====
-- internal/mdns/dns.go: queries and answers, written and then read.
use go_aioesphomeapi.Base.{
  ℕ, ◌+◌, ◌≡◌, refl, ap, true, [], ◌∷◌, ◌++◌, arith, length, Bytes, u16_at, suc, ◌*◌, ◌∙◌, some,
  drop, byte_at, ◌≤◌, sym, append_assoc, length-append, ◌%◌, inl, inr, Option-cases, take,
  bytes_equal_iff, zero,
}
use go_aioesphomeapi.Mdns.Names.{
  Unicode, ascii_lower, is_ascii, lower_all, to_lower, dot, trim_dot, canonical_name, append_name,
  equal_fold,
}
use go_aioesphomeapi.Mdns.Names.Reading.{read_name}
use go_aioesphomeapi.Mdns.Names.RoundTrip.{read_name-append_name, append_name_bounds}
use go_aioesphomeapi.Mdns.Packets.{
  read_question, type_a, class_in, header, Question, query, response, read_questions, questions,
  is_address, read_record, answer, read_records, answer_ip,
}

ascii_lower_twice : (b : ℕ) → ascii_lower (ascii_lower b) ≡ ascii_lower b
unfolding ascii_lower
ascii_lower_twice b = ground arith

lower_all_twice : (s : Bytes) → lower_all (lower_all s) ≡ lower_all s
unfolding lower_all
lower_all_twice [] = refl
lower_all_twice (b ∷ s) = ground (arith, lower_all_twice s, ascii_lower_twice b)

lower_all-is_ascii : (s : Bytes) → is_ascii s ≡ true → is_ascii (lower_all s) ≡ true
unfolding lower_all is_ascii ascii_lower
lower_all-is_ascii [] h = refl
lower_all-is_ascii (b ∷ s) h = ground (arith, lower_all-is_ascii s)

trim_dot-is_ascii : (s : Bytes) → is_ascii s ≡ true → is_ascii (trim_dot s) ≡ true
unfolding trim_dot is_ascii
trim_dot-is_ascii [] h = refl
trim_dot-is_ascii (b ∷ []) h = ground arith
trim_dot-is_ascii (b ∷ c ∷ s) h = ground (arith, trim_dot-is_ascii (c ∷ s))

append_dot-is_ascii : (s : Bytes) → is_ascii s ≡ true → is_ascii (s ++ (dot ∷ [])) ≡ true
unfolding is_ascii
append_dot-is_ascii [] h = refl
append_dot-is_ascii (b ∷ s) h = ground (arith, append_dot-is_ascii s)

trim_dot-append_dot : (s : Bytes) → trim_dot (s ++ (dot ∷ [])) ≡ s
unfolding trim_dot
trim_dot-append_dot [] = refl
trim_dot-append_dot (b ∷ []) = refl
trim_dot-append_dot (b ∷ c ∷ s) = ap (◌∷◌ b) (trim_dot-append_dot (c ∷ s))

pub canonical_name-is_ascii :
    (u : Unicode) (s : Bytes) → is_ascii s ≡ true → is_ascii (canonical_name u s) ≡ true
unfolding canonical_name to_lower
canonical_name-is_ascii u s h = ground (
  arith,
  trim_dot-is_ascii s h,
  lower_all-is_ascii (trim_dot s),
  append_dot-is_ascii (lower_all (trim_dot s)),
)

pub canonical_name_twice :
    (u : Unicode) (s : Bytes)
    → is_ascii s ≡ true
    → canonical_name u (canonical_name u s) ≡ canonical_name u s
unfolding canonical_name to_lower
canonical_name_twice u s h = ground (
  arith,
  trim_dot-is_ascii s h,
  lower_all-is_ascii (trim_dot s),
  trim_dot-append_dot (lower_all (trim_dot s)),
  lower_all_twice (trim_dot s),
)

byte_at-shift : (pre rest : Bytes) (i : ℕ) → byte_at (pre ++ rest) (length pre + i) ≡ byte_at rest i
byte_at-shift [] rest i = ap (byte_at rest) (omega arith)
byte_at-shift (b ∷ pre) rest i =
    let next : suc (length pre) + i ≡ suc (length pre + i) = omega arith in
    ap (byte_at (b ∷ (pre ++ rest))) next ∙ byte_at-shift pre rest i

pub u16_at-shift :
    (pre rest : Bytes) (i : ℕ) → u16_at (pre ++ rest) (length pre + i) ≡ u16_at rest i
u16_at-shift pre rest i =
    let next : suc (length pre + i) ≡ length pre + suc i = omega arith in
    let low : byte_at (pre ++ rest) (suc (length pre + i)) ≡ byte_at rest (suc i) =
      ap (byte_at (pre ++ rest)) next ∙ byte_at-shift pre rest (suc i) in
    omega (arith, byte_at-shift pre rest i, low)

drop-shift : (pre rest : Bytes) (i : ℕ) → drop (length pre + i) (pre ++ rest) ≡ drop i rest
drop-shift [] rest i = ap (λ (n : ℕ). drop n rest) (omega arith)
drop-shift (b ∷ pre) rest i =
    let next : suc (length pre) + i ≡ suc (length pre + i) = omega arith in
    ap (λ (n : ℕ). drop n (b ∷ (pre ++ rest))) next ∙ drop-shift pre rest i

-- Past two pieces of a message.
module _ (pre name rest : Bytes) (i : ℕ) where
  abbrev here : ℕ
  here = length pre + length name + i

  there : length (pre ++ name) + i ≡ length pre + length name + i
  there = omega (arith, length-append pre name)

  u16_at-after : u16_at (pre ++ (name ++ rest)) (length pre + length name + i) ≡ u16_at rest i
  u16_at-after =
      ap (λ (bs : Bytes). u16_at bs (length pre + length name + i))
        (sym (append_assoc pre name rest))
      ∙ ap (u16_at ((pre ++ name) ++ rest)) (sym there)
      ∙ u16_at-shift (pre ++ name) rest i

  drop-after : drop (length pre + length name + i) (pre ++ (name ++ rest)) ≡ drop i rest
  drop-after =
      ap (drop (length pre + length name + i)) (sym (append_assoc pre name rest))
      ∙ ap (λ (n : ℕ). drop n ((pre ++ name) ++ rest)) (sym there)
      ∙ drop-shift (pre ++ name) rest i

length-message :
    (pre name rest : Bytes)
    → length (pre ++ (name ++ rest)) ≡ length pre + length name + length rest
length-message pre name rest =
    omega (arith, length-append pre (name ++ rest), length-append name rest)

read_question-of :
    (u : Unicode) (message : Bytes) (offset : ℕ) (name : Bytes) (next qtype qclass : ℕ)
    → read_name u message offset ≡ some (name, next)
    → next + 4 ≤ length message
    → u16_at message next ≡ qtype
    → u16_at message (next + 2) ≡ qclass
    → read_question u message offset
      ≡ some (record { name = name; qtype = qtype; qclass = qclass }, next + 4)
unfolding read_question
read_question-of u message offset name next qtype qclass e h a b = ground (arith, e)

-- A name, written after a header.
module _ (u : Unicode) (host name : Bytes)
    (e : append_name [] (canonical_name u host) ≡ some name) where
  name_read :
      (pre rest : Bytes)
      → is_ascii host ≡ true
      → read_name u (pre ++ (name ++ rest)) (length pre)
        ≡ some (canonical_name u host, length pre + length name)
  name_read pre rest h =
      read_name-append_name u pre rest (canonical_name u host) name e
      ∙ ap (λ (bs : Bytes). some (bs, length pre + length name)) (canonical_name_twice u host h)

  question_read :
      (pre : Bytes) (a b c d : ℕ) (rest : Bytes)
      → is_ascii host ≡ true
      → read_question u (pre ++ (name ++ (a ∷ b ∷ c ∷ d ∷ rest))) (length pre)
        ≡ some (
          record { name = canonical_name u host; qtype = a * 256 + b; qclass = c * 256 + d },
          length pre + length name + 4,
        )
  question_read pre a b c d rest h =
      let tail = a ∷ b ∷ c ∷ d ∷ rest in
      let start : length pre + length name + 0 ≡ length pre + length name = omega arith in
      read_question-of u (pre ++ (name ++ tail)) (length pre) (canonical_name u host)
        (length pre + length name) (a * 256 + b) (c * 256 + d) (name_read pre tail h)
        (omega (arith, length-message pre name tail))
        (ap (u16_at (pre ++ (name ++ tail))) (sym start) ∙ u16_at-after pre name tail 0)
        (u16_at-after pre name tail 2)

query_shape :
    (u : Unicode) (host message : Bytes)
    → query u host ≡ some message
    → (name : Bytes) × (append_name [] (canonical_name u host) ≡ some name)
      × (message ≡ header 0 1 0 ++ (name ++ (0 ∷ 1 ∷ 0 ∷ 1 ∷ [])))
unfolding query
query_shape u host message e = elim (Option-cases (append_name [] (canonical_name u host))) [
  | inl long ↦ absurd (ground (arith, long))
  | inr (name, written) ↦ (name, written, ground (arith, written))
]

questions-header :
    (u : Unicode) (body : Bytes) (q : Question) (end : ℕ)
    → read_question u (header 0 1 0 ++ body) 12 ≡ some (q, end)
    → questions u (header 0 1 0 ++ body) ≡ some (q ∷ [])
unfolding questions read_questions
questions-header u body q end e = ground (arith, e)

-- For an ASCII host the query that query builds holds exactly one question, for the host's IPv4
-- address.
pub questions-query :
    (u : Unicode) (host message : Bytes)
    → is_ascii host ≡ true
    → query u host ≡ some message
    → questions u message
      ≡ some (record { name = canonical_name u host; qtype = type_a; qclass = class_in } ∷ [])
questions-query u host message h e =
    let (name, written, shape) = query_shape u host message e in
    ap (questions u) shape
    ∙ questions-header u (name ++ (0 ∷ 1 ∷ 0 ∷ 1 ∷ [])) _ _
        (question_read u host name written (header 0 1 0) 0 1 0 1 [] h)

-- What `response` puts after the name.
abbrev answer_bytes : Bytes → Bytes
answer_bytes ipv4 = 0 ∷ 1 ∷ 128 ∷ 1 ∷ 0 ∷ 0 ∷ 0 ∷ 120 ∷ 0 ∷ 4 ∷ ipv4

response_shape :
    (u : Unicode) (host ipv4 message : Bytes)
    → response u host (some ipv4) ≡ some message
    → (name : Bytes) × (append_name [] (canonical_name u host) ≡ some name)
      × (message ≡ header 33792 0 1 ++ (name ++ answer_bytes ipv4))
unfolding response
response_shape u host ipv4 message e =
    elim (Option-cases (append_name [] (canonical_name u host))) [
      | inl long ↦ absurd (ground (arith, long))
      | inr (name, written) ↦ (name, written, ground (arith, written))
    ]

read_record-of :
    (u : Unicode) (message want : Bytes) (offset : ℕ) (name : Bytes) (next : ℕ)
    → read_name u message offset ≡ some (name, next)
    → next + 10 + u16_at message (next + 8) ≤ length message
    → is_address u name want
        (u16_at message next)
        (u16_at message (next + 2) % 32768)
        (u16_at message (next + 8))
      ≡ true
    → read_record u message want offset
      ≡ answer (take (u16_at message (next + 8)) (drop (next + 10) message))
unfolding read_record
read_record-of u message want offset name next e h k =
    let fits : next + 10 ≤ length message = omega (arith, h) in ground (arith, e, k, h, fits)

pub equal_fold_self : (u : Unicode) (s : Bytes) → is_ascii s ≡ true → equal_fold u s s ≡ true
unfolding equal_fold
equal_fold_self u s h = ground (arith, h, bytes_equal_iff (lower_all s) (lower_all s))

take_whole : (n : ℕ) (xs : Bytes) → length xs ≡ n → take n xs ≡ xs
take_whole zero [] h = refl
take_whole zero (x ∷ xs) h = absurd (omega (arith, h))
take_whole (suc n) [] h = refl
take_whole (suc n) (x ∷ xs) h = ap (◌∷◌ x) (take_whole n xs (omega (arith, h)))

is_address-a :
    (u : Unicode) (want : Bytes) → is_ascii want ≡ true → is_address u want want 1 1 4 ≡ true
unfolding is_address
is_address-a u want h = ground (arith, equal_fold_self u want h)

-- The record that `response` writes.
module _ (u : Unicode) (host ipv4 name : Bytes) where
  abbrev body : Bytes
  body = header 33792 0 1 ++ (name ++ answer_bytes ipv4)

  record_read :
      append_name [] (canonical_name u host) ≡ some name
      → is_ascii host ≡ true
      → length ipv4 ≡ 4
      → read_record u body (canonical_name u host) 12 ≡ answer ipv4
  record_read e h size =
      let next = 12 + length name in
      let start : next + 0 ≡ next = omega arith in
      let rtype : u16_at body next ≡ 1 =
        ap (u16_at body) (sym start) ∙ u16_at-after (header 33792 0 1) name (answer_bytes ipv4) 0 in
      let rclass : u16_at body (next + 2) ≡ 32769 =
        u16_at-after (header 33792 0 1) name (answer_bytes ipv4) 2 in
      let length_field : u16_at body (next + 8) ≡ 4 =
        u16_at-after (header 33792 0 1) name (answer_bytes ipv4) 8 in
      let flushed : u16_at body (next + 2) % 32768 ≡ 1 = ap (λ (n : ℕ). n % 32768) rclass in
      let want = canonical_name u host in
      let asked : is_address u want want (u16_at body next) (u16_at body (next + 2) % 32768)
            (u16_at body (next + 8))
          ≡ true =
        ap
          (λ (n : ℕ).
            is_address u want want n (u16_at body (next + 2) % 32768) (u16_at body (next + 8)))
          rtype
        ∙ ap (λ (n : ℕ). is_address u want want 1 n (u16_at body (next + 8))) flushed
        ∙ ap (is_address u want want 1 1) length_field
        ∙ is_address-a u want (canonical_name-is_ascii u host h) in
      read_record-of u body want 12 want next
        (name_read u host name e (header 33792 0 1) (answer_bytes ipv4) h)
        (omega
          (arith, length_field, size, length-message (header 33792 0 1) name (answer_bytes ipv4)))
        asked
      ∙ ap (λ (n : ℕ). answer (take n (drop (next + 10) body))) length_field
      ∙ ap (λ (bs : Bytes). answer (take 4 bs))
          (drop-after (header 33792 0 1) name (answer_bytes ipv4) 10)
      ∙ ap answer (take_whole 4 ipv4 size)

  answer_read :
      append_name [] (canonical_name u host) ≡ some name
      → read_record u body (canonical_name u host) 12 ≡ answer ipv4
      → length ipv4 ≡ 4
      → answer_ip u body host ≡ some ipv4
  unfolding answer_ip read_questions read_records
  answer_read e r size = ground (
    arith,
    r,
    append_name_bounds (canonical_name u host) name e,
    length-message (header 33792 0 1) name (answer_bytes ipv4),
  )

-- For an ASCII host and a four-byte address the answer that response builds gives that address to
-- a client that asks for the host.
pub answer_ip-response :
    (u : Unicode) (host ipv4 message : Bytes)
    → is_ascii host ≡ true
    → length ipv4 ≡ 4
    → response u host (some ipv4) ≡ some message
    → answer_ip u message host ≡ some ipv4
answer_ip-response u host ipv4 message h size e =
    let (name, written, shape) = response_shape u host ipv4 message e in
    ap (λ (m : Bytes). answer_ip u m host) shape
    ∙ answer_read u host ipv4 name written (record_read u host ipv4 name written h size) size
