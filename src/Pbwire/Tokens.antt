-- ===== src/Pbwire/Tokens.antt =====
-- What the append functions of internal/android/pbwire/wire.go write is what the consume
-- functions read: tags, length-delimited values and doubles.
use flowbaton.Prelude.{
  ℕ, ◌+◌, ◌*◌, ◌^◌, ◌<◌, ◌≤◌, ◌≡◌, List, ◌++◌, append_assoc, length, length-append, drop-append,
  take-append, arith,
}
use flowbaton.Prelude.Bits.{bit_and_seven, bit_or_high}
use flowbaton.Pbwire.Result.{ok}
use flowbaton.Pbwire.Encode.{IsU64, append_tag, append_message}
use flowbaton.Pbwire.Decode.{consume_tag, consume_length_delimited}
use flowbaton.Pbwire.Varint.{varint, append_varint-groups, consume_varint-varint}

-- A field number that a proto file may declare.
abbrev pub IsField : ℕ → Type 0
IsField field = (1 ≤ field) × (field < 2 ^ 29)

abbrev pub tag : ℕ → ℕ → List ℕ
tag field wire = varint (field * 8 + wire)

pub append_tag-varint :
    (b : List ℕ) (field wire : ℕ)
    → IsField field
    → wire < 8
    → append_tag b field wire ≡ b ++ tag field wire
unfolding append_tag
append_tag-varint b field wire hf hw =
    ground (arith, bit_or_high 3 field wire, append_varint-groups b (field * 8 + wire))

pub consume_tag-tag :
    (field wire : ℕ) (rest : List ℕ)
    → IsField field
    → wire < 8
    → consume_tag (tag field wire ++ rest) ≡ ok (field, wire, length (tag field wire))
unfolding consume_tag
consume_tag-tag field wire rest hf hw =
    ground (arith, consume_varint-varint (field * 8 + wire) rest, bit_and_seven (field * 8 + wire))

-- A length prefix and the bytes that it announces.
abbrev pub delimited : List ℕ → List ℕ
delimited v = varint (length v) ++ v

pub append_message-delimited :
    (b : List ℕ) (field : ℕ) (v : List ℕ)
    → IsField field
    → IsU64 (length v)
    → append_message b field v ≡ b ++ (tag field 2 ++ delimited v)
unfolding append_message
append_message-delimited b field v hf hv =
    rw (append_tag-varint b field 2 hf (omega arith), append_varint-groups _ (length v) hv)
      (simp append_assoc)

pub consume_length_delimited-delimited :
    (v rest : List ℕ)
    → IsU64 (length v)
    → consume_length_delimited (delimited v ++ rest) ≡ ok (v, length (delimited v))
unfolding consume_length_delimited
consume_length_delimited-delimited v rest h =
    let prefix : List ℕ = varint (length v) in
    rw (append_assoc, consume_varint-varint (length v) (v ++ rest) h)
      (ground (
        arith,
        drop-append prefix (v ++ rest),
        take-append v rest,
        length-append prefix (v ++ rest),
        length-append v rest,
        length-append prefix v,
      ))
