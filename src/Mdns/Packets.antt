-- ===== src/Mdns/Packets.antt =====
-- internal/mdns/dns.go: the query for a name, the test responder's answer, and their readers. `net.IP.To4`
-- is a parameter: its result is the argument of `response`.
pub mod Answers
use go_aioesphomeapi.Base.{
  ℕ, zero, suc, ◌+◌, ◌/◌, ◌%◌, Bool, ◌&&◌, ◌||◌, Option, none, some, List, [], ◌∷◌, ◌++◌, ltb, ◌==◌,
  if◌then◌else◌, length, take, drop, Bytes, be16, u16_at,
}
use go_aioesphomeapi.Mdns.Names.{Unicode, equal_fold, canonical_name, append_name}
use go_aioesphomeapi.Mdns.Names.Reading.{read_name}

abbrev pub dns_header_size : ℕ
dns_header_size = 12

abbrev pub max_dns_message_size : ℕ
max_dns_message_size = 9000

abbrev pub type_a : ℕ
type_a = 1

abbrev pub type_aaaa : ℕ
type_aaaa = 28

abbrev pub class_in : ℕ
class_in = 1

-- `classIN|classCacheFlush`
abbrev class_in_flush : ℕ
class_in_flush = 32769

abbrev response_flags : ℕ
response_flags = 33792

-- The header, with its ID and its last two counts 0.
abbrev pub header : (flags questions answers : ℕ) → Bytes
header flags questions answers =
    0 ∷ 0 ∷ (be16 flags ++ (be16 questions ++ (be16 answers ++ (0 ∷ 0 ∷ 0 ∷ 0 ∷ []))))

-- `question`
pub record Question : Type 0 where
  pub name : Bytes
  pub qtype : ℕ
  pub qclass : ℕ

-- `binary.BigEndian.AppendUint32` of `defaultRecordTTL`
abbrev record_ttl : Bytes
record_ttl = 0 ∷ 0 ∷ 0 ∷ 120 ∷ []

-- What one record of an answer leads to.
pub data RecordStep : Type 0 where
  bad : RecordStep
  answer : Bytes → RecordStep
  skip : ℕ → RecordStep

module _ (u : Unicode) where
  -- `query`
  unfoldable pub query : Bytes → Option Bytes
  query host = elim (append_name [] (canonical_name u host)) [
    | none ↦ none
    | some name ↦ some (header 0 1 0 ++ (name ++ (be16 type_a ++ be16 class_in)))
  ]

  -- `response`, given what `ip.To4()` answers.
  unfoldable pub response : Bytes → Option Bytes → Option Bytes
  response host to4 = elim to4 [
    | none ↦ none
    | some ipv4 ↦ elim (append_name [] (canonical_name u host)) [
      | none ↦ none
      | some name ↦ some (
          header response_flags 0 1
          ++ (name ++ (be16 type_a ++ (be16 class_in_flush ++ (record_ttl ++ (be16 4 ++ ipv4))))))
    ]
  ]

  -- One question of a message, and where the next one begins.
  unfoldable pub read_question : Bytes → ℕ → Option (Question × ℕ)
  read_question message offset = elim (read_name u message offset) [
    | none ↦ none
    | some (name, next) ↦
        if ltb (length message) (next + 4)
        then none
        else some (
          record { name = name; qtype = u16_at message next; qclass = u16_at message (next + 2) },
          next + 4,
        )
  ]

  unfoldable pub read_questions : ℕ → Bytes → ℕ → Option (List Question × ℕ)
  read_questions zero message offset = some ([], offset)
  read_questions (suc count) message offset = elim (read_question message offset) [
    | none ↦ none
    | some (q, next) ↦ elim (read_questions count message next) [
      | none ↦ none
      | some (qs, end) ↦ some (q ∷ qs, end)
    ]
  ]

  -- `questions`
  unfoldable pub questions : Bytes → Option (List Question)
  questions message =
      let count = u16_at message 4 in
      if ltb (length message) dns_header_size
      then none
      else if ltb 64 count
      then none
      else elim (read_questions count message dns_header_size) [
        | none ↦ none
        | some (qs, _) ↦ some qs
      ]

  -- A record that holds an address of the name that is asked for.
  unfoldable pub is_address : (name want : Bytes) (rtype rclass size : ℕ) → Bool
  is_address name want rtype rclass size =
      (rclass == class_in)
      && (equal_fold u name want
          && (((rtype == type_a) && (size == 4)) || ((rtype == type_aaaa) && (size == 16))))

  -- One round of the loop over the records.
  unfoldable pub read_record : Bytes → Bytes → ℕ → RecordStep
  read_record message want offset = elim (read_name u message offset) [
    | none ↦ bad
    | some (name, next) ↦
        let size = u16_at message (next + 8) in
        if ltb (length message) (next + 10)
        then bad
        else if ltb (length message) (next + 10 + size)
        then bad
        else if is_address name want (u16_at message next) (u16_at message (next + 2) % 32768) size
        then answer (take size (drop (next + 10) message))
        else skip (next + 10 + size)
  ]

  unfoldable pub read_records : ℕ → Bytes → Bytes → ℕ → Option Bytes
  read_records zero message want offset = none
  read_records (suc count) message want offset = elim (read_record message want offset) [
    | bad ↦ none
    | answer ip ↦ some ip
    | skip next ↦ read_records count message want next
  ]

  -- `answerIP`
  unfoldable pub answer_ip : Bytes → Bytes → Option Bytes
  answer_ip message host =
      let question_count = u16_at message 4 in
      let record_count = u16_at message 6 + u16_at message 8 + u16_at message 10 in
      if ltb (length message) dns_header_size || ltb max_dns_message_size (length message)
      then none
      else if u16_at message 2 / 32768 % 2 == 0
      then none
      else if ltb 64 question_count || ltb 256 record_count
      then none
      else elim (read_questions question_count message dns_header_size) [
        | none ↦ none
        | some (_, offset) ↦ read_records record_count message (canonical_name u host) offset
      ]
