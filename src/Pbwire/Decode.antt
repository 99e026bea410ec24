-- ===== src/Pbwire/Decode.antt =====
-- internal/android/pbwire/wire.go, decoding: the consume functions, `skipField` and `discardAll`.
-- A count of consumed bytes is returned as in the source, and the caller drops that many.
use flowbaton.Prelude.{
  ℕ, ◌+◌, ◌-◌, ◌*◌, ◌/◌, ◌%◌, ◌^◌, List, [], ◌∷◌, bit_and, bit_or, ◌==◌, ltb, leb, if◌then◌else◌,
  Option, none, some, length, take, drop, get_or,
}
use flowbaton.Pbwire.Result.{
  Result, ok, err, ◌>>=◌, truncated, varint_too_long, length_overrun, field_zero, wire_type,
}
use flowbaton.Pbwire.Encode.{wire_varint, wire_fixed64, wire_bytes, wire_fixed32}

-- `for i := 0; i < len(data) && i < 10; i++`; the list is `data[i:]`. `none`: the loop ended
-- without a last byte.
unfoldable pub varint_groups : List ℕ → ℕ → ℕ → Option (ℕ × ℕ)
varint_groups [] i v = none
varint_groups (d ∷ rest) i v =
    let v' = bit_or v (bit_and d 0x7f * 2 ^ (7 * i) % 2 ^ 64) in
    let more = varint_groups rest (i + 1) v' in
    if ltb i 10 then (if ltb d 0x80 then some (v', i + 1) else more) else none

unfoldable pub consume_varint : List ℕ → Result (ℕ × ℕ)
consume_varint src = elim (varint_groups src 0 0) [
  | some r ↦ ok r
  | none ↦ if leb 10 (length src) then err varint_too_long else err truncated
]

-- The field number, the wire type and the count of bytes.
unfoldable pub consume_tag : List ℕ → Result (ℕ × ℕ × ℕ)
consume_tag src = do
  (v, n) ← consume_varint src
  if v / 2 ^ 3 == 0 then err field_zero else ok (v / 2 ^ 3, bit_and v 7, n)

unfoldable pub consume_length_delimited : List ℕ → Result (List ℕ × ℕ)
consume_length_delimited src = do
  (len, n) ← consume_varint src
  if ltb (length src - n) len then err length_overrun else ok (take len (drop n src), n + len)

unfoldable pub skip_field : List ℕ → ℕ → Result ℕ
skip_field src wire =
    if wire == wire_varint
    then consume_varint src >>= (λ r. ok (r.1))
    else if wire == wire_fixed64
    then (if ltb (length src) 8 then err truncated else ok 8)
    else if wire == wire_bytes
    then consume_length_delimited src >>= (λ r. ok (r.1))
    else if wire == wire_fixed32
    then (if ltb (length src) 4 then err truncated else ok 4)
    else err wire_type

unfoldable pub consume_varint_field : List ℕ → ℕ → Result (ℕ × ℕ)
consume_varint_field src wire = if wire == wire_varint then consume_varint src else err wire_type

unfoldable pub consume_bytes_field : List ℕ → ℕ → Result (List ℕ × ℕ)
consume_bytes_field src wire =
    if wire == wire_bytes then consume_length_delimited src else err wire_type

-- `uint64(data[0]) | uint64(data[1])<<8 | …`, lowest byte first.
abbrev pub fixed64_bits : List ℕ → ℕ
fixed64_bits src =
    let byte = λ (i : ℕ). get_or src i 0 * 2 ^ (8 * i) in
    bit_or
      (bit_or
        (bit_or (bit_or (bit_or (bit_or (bit_or (byte 0) (byte 1)) (byte 2)) (byte 3)) (byte 4))
          (byte 5))
        (byte 6))
      (byte 7)

unfoldable pub consume_double_field : List ℕ → ℕ → Result (ℕ × ℕ)
consume_double_field src wire =
    if wire == wire_fixed64
    then (if ltb (length src) 8 then err truncated else ok (fixed64_bits src, 8))
    else err wire_type
