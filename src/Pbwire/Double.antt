-- ===== src/Pbwire/Double.antt =====
-- `consumeDoubleField` of internal/android/pbwire/wire.go puts the eight bytes that
-- `appendDouble` writes together again.
use flowbaton.Prelude.{
  ℕ, ◌*◌, ◌/◌, ◌%◌, ◌+◌, ◌^◌, ◌<◌, ◌≡◌, ◌∙◌, inl, inr, List, ◌∷◌, ◌++◌, arith, ◌==◌, Bool-cases,
}
use flowbaton.Prelude.Bits.{bit_or_low}
use flowbaton.Pbwire.Result.{ok}
use flowbaton.Pbwire.Encode.{IsU64, double_bytes}
use flowbaton.Pbwire.Decode.{consume_double_field, fixed64_bits}
use flowbaton.Pbwire.Tokens.{IsField}
use flowbaton.Pbwire.Fields.{Switch}
use flowbaton.Pbwire.Scalars.{Reads, Reads-nil, double_field}
use flowbaton.Pbwire.Loop.{decode_field}

-- The eight bytes of a double put together again.
join_bytes :
    (a b c d e f g h : ℕ)
    → a < 256
    → b < 256
    → c < 256
    → d < 256
    → e < 256
    → f < 256
    → g < 256
    → (rest : List ℕ)
    → fixed64_bits (a ∷ b ∷ c ∷ d ∷ e ∷ f ∷ g ∷ h ∷ rest)
      ≡ a + b * 2 ^ 8 + c * 2 ^ 16 + d * 2 ^ 24 + e * 2 ^ 32 + f * 2 ^ 40 + g * 2 ^ 48 + h * 2 ^ 56
join_bytes a b c d e f g h ha hb hc hd he hf hg rest = ground (
  arith,
  bit_or_low 8 a b,
  bit_or_low 16 (a + b * 2 ^ 8) c,
  bit_or_low 24 (a + b * 2 ^ 8 + c * 2 ^ 16) d,
  bit_or_low 32 (a + b * 2 ^ 8 + c * 2 ^ 16 + d * 2 ^ 24) e,
  bit_or_low 40 (a + b * 2 ^ 8 + c * 2 ^ 16 + d * 2 ^ 24 + e * 2 ^ 32) f,
  bit_or_low 48 (a + b * 2 ^ 8 + c * 2 ^ 16 + d * 2 ^ 24 + e * 2 ^ 32 + f * 2 ^ 40) g,
  bit_or_low 56 (a + b * 2 ^ 8 + c * 2 ^ 16 + d * 2 ^ 24 + e * 2 ^ 32 + f * 2 ^ 40 + g * 2 ^ 48) h,
)

fixed64_bits-double_bytes :
    (v : ℕ) (rest : List ℕ) → IsU64 v → fixed64_bits (double_bytes v ++ rest) ≡ v
fixed64_bits-double_bytes v rest h =
    join_bytes (v % 256) _ _ _ _ _ _ (v / 2 ^ 56 % 256) (omega arith) (omega arith) (omega arith)
      (omega arith) (omega arith) (omega arith) (omega arith) rest
    ∙ omega arith

module _ {M : Type 0} (switch : Switch M) where
  pub double_field-Reads :
      (m m' : M) (field v : ℕ)
      → IsField field
      → IsU64 v
      → (v ≡ 0 → m ≡ m')
      → ((src : List ℕ)
          → consume_double_field src 1 ≡ ok (v, 8)
          → switch m field 1 src ≡ ok (m', 8))
      → Reads switch m m' (double_field field v)
  unfolding double_field consume_double_field
  double_field-Reads m m' field v hf hv none takes = elim (Bool-cases (v == 0)) [
    | inl e ↦ rw e (Reads-nil switch m m' (none (ground arith)))
    | inr e ↦ rw e λ rest.
        decode_field switch m m' field 1 (double_bytes v) rest hf (omega arith)
          (takes (double_bytes v ++ rest) (ground (arith, fixed64_bits-double_bytes v rest hv)))
  ]
