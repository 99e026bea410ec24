-- ===== src/Pbwire/Encode.antt =====
-- internal/android/pbwire/wire.go, encoding: the append functions.
use mathlib.Core.Logic.{dite}
use mathlib.Core.WellFounded.{Acc}
use flowbaton.Prelude.{
  ℕ, ◌*◌, ◌/◌, ◌%◌, ◌^◌, ◌<◌, List, [], ◌∷◌, ◌++◌, Bool, bit_or, dec_lt, ◌==◌, if◌then◌else◌,
  length, arith,
}
use flowbaton.Prelude.Order.{lt_wf}

abbrev pub wire_varint : ℕ
wire_varint = 0

abbrev pub wire_fixed64 : ℕ
wire_fixed64 = 1

abbrev pub wire_bytes : ℕ
wire_bytes = 2

abbrev pub wire_fixed32 : ℕ
wire_fixed32 = 5

abbrev pub IsU64 : ℕ → Type 0
IsU64 v = v < 2 ^ 64

abbrev pub IsU32 : ℕ → Type 0
IsU32 v = v < 2 ^ 32

abbrev pub IsByte : ℕ → Type 0
IsByte b = b < 256

-- `for v >= 0x80 { b = append(b, byte(v)|0x80); v >>= 7 }`, and the last byte behind the loop.
unfoldable pub varint_loop : List ℕ → (v : ℕ) → Acc ◌<◌ v → List ℕ
varint_loop b v (Acc.intro _ smaller) =
    dite (dec_lt v 0x80) (λ _. b ++ (v % 256 ∷ []))
      (λ big. varint_loop (b ++ (bit_or (v % 256) 0x80 ∷ [])) (v / 128) (smaller _ (omega arith)))

unfoldable pub append_varint : List ℕ → ℕ → List ℕ
unfolding lt_wf dec_lt
append_varint b v = varint_loop b v (lt_wf.apply v)

unfoldable pub append_tag : List ℕ → ℕ → ℕ → List ℕ
append_tag b field wire = append_varint b (bit_or (field * 2 ^ 3) wire)

unfoldable pub append_uint32 : List ℕ → ℕ → ℕ → List ℕ
append_uint32 b field v = if v == 0 then b else append_varint (append_tag b field wire_varint) v

unfoldable pub append_bool : List ℕ → ℕ → Bool → List ℕ
append_bool b field v = if v then append_tag b field wire_varint ++ (1 ∷ []) else b

-- `byte(bits >> (8 * i))` for `i` from 0 to 7.
abbrev pub double_bytes : ℕ → List ℕ
double_bytes bits =
    bits % 256
    ∷ (bits / 2 ^ 8 % 256)
    ∷ (bits / 2 ^ 16 % 256)
    ∷ (bits / 2 ^ 24 % 256)
    ∷ (bits / 2 ^ 32 % 256)
    ∷ (bits / 2 ^ 40 % 256)
    ∷ (bits / 2 ^ 48 % 256)
    ∷ (bits / 2 ^ 56 % 256)
    ∷ []

-- The double is its bits, so the test for the zero value is the source's test on the bits.
unfoldable pub append_double : List ℕ → ℕ → ℕ → List ℕ
append_double b field bits =
    if bits == 0 then b else append_tag b field wire_fixed64 ++ double_bytes bits

-- `appendString` and `appendBytes` have the same body: both leave the empty value out.
unfoldable pub append_bytes : List ℕ → ℕ → List ℕ → List ℕ
append_bytes b field v =
    if length v == 0 then b else append_varint (append_tag b field wire_bytes) (length v) ++ v

unfoldable pub append_string : List ℕ → ℕ → List ℕ → List ℕ
append_string b field [] = b
append_string b field (c ∷ v) =
    append_varint (append_tag b field wire_bytes) (length (c ∷ v)) ++ (c ∷ v)

-- An embedded message is written even when it is empty.
unfoldable pub append_message : List ℕ → ℕ → List ℕ → List ℕ
append_message b field encoded =
    append_varint (append_tag b field wire_bytes) (length encoded) ++ encoded
