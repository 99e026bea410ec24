-- ===== src/Prelude/Bits.antt =====
-- `|` of disjoint fields and `&` with a mask of low bits as arithmetic, at every width.
use Prim.Native.Nat.{
  ℕ, zero, suc, ◌+◌, ◌-◌, ◌*◌, ◌/◌, ◌%◌, ◌^◌, ◌≤◌, ◌<◌, min, max, bit_and, bit_or, digits,
  bit_and-bitwise, bit_or-bitwise,
}
use mathlib.Core.Path.{◌≡◌, refl, ap, sym, ◌∙◌}
use native.Mathlib.Nat.{pow-suc, one-le-pow}
use native.Mathlib.Omega.{arith}
use mathlib.Core.Bool.{Bool, true, ◌&&◌}
use flowbaton.Prelude.Tests.{◌==◌}

-- The recursion on digits behind the native operations does not depend on its fuel.
module _ (empty : ℕ → ℕ) (digit : ℕ → ℕ → ℕ) where
  digits_none : (fuel y : ℕ) → digits empty digit fuel 0 y ≡ empty y
  digits_none zero y = refl
  digits_none (suc fuel) y = refl

  digits_agree : (k l x y : ℕ) → x ≤ k → x ≤ l → digits empty digit k x y ≡ digits empty digit l x y
  digits_agree k l zero y in_k in_l = digits_none k y ∙ sym (digits_none l y)
  digits_agree zero l (suc x) y in_k in_l = absurd (omega arith)
  digits_agree (suc k) zero (suc x) y in_k in_l = absurd (omega arith)
  digits_agree (suc k) (suc l) (suc x) y in_k in_l =
      let halves = digits_agree k l (suc x / 2) (y / 2) (omega arith) (omega arith) in rw halves

-- One binary digit of each operation.
bit_step :
    (x y : ℕ)
    → (bit_or x y ≡ max (x % 2) (y % 2) + 2 * bit_or (x / 2) (y / 2))
      × (bit_and x y ≡ min (x % 2) (y % 2) + 2 * bit_and (x / 2) (y / 2))
bit_step zero y = (
  omega (arith, bit_or-bitwise 0 (y / 2), bit_or-bitwise 0 y),
  omega (arith, bit_and-bitwise 0 (y / 2), bit_and-bitwise 0 y),
)
bit_step (suc x) y =
    let half = suc x / 2 in
    let or_fuel = digits_agree (λ z. z) max x half half (y / 2) (omega arith) (omega arith) in
    let and_fuel = digits_agree (λ z. 0) min x half half (y / 2) (omega arith) (omega arith) in
    (
      omega (arith, or_fuel, bit_or-bitwise half (y / 2), bit_or-bitwise (suc x) y),
      omega (arith, and_fuel, bit_and-bitwise half (y / 2), bit_and-bitwise (suc x) y),
    )

split_pow : (q k : ℕ) → q * 2 ^ suc k ≡ 2 * (q * 2 ^ k)
split_pow q k = omega (arith, ap (λ (t : ℕ). q * t) (pow-suc 2 k))

-- What a zero on the right does.
right_zero : (bound x : ℕ) → x ≤ bound → (bit_or x 0 ≡ x) × (bit_and x 0 ≡ 0)
right_zero bound zero h = (bit_or-bitwise 0 0, bit_and-bitwise 0 0)
right_zero zero (suc x) h = absurd (omega arith)
right_zero (suc bound) (suc x) h =
    let smaller = right_zero bound (suc x / 2) (omega arith) in
    let digit = bit_step (suc x) 0 in
    (omega (arith, digit.0, smaller.0), omega (arith, digit.1, smaller.1))

-- `r | (q << k)` is a sum when `r` fits `k` bits.
pub bit_or_low : (k r q : ℕ) → r < 2 ^ k → bit_or r (q * 2 ^ k) ≡ r + q * 2 ^ k
bit_or_low zero zero q h = ground (arith, bit_or-bitwise 0 q)
bit_or_low zero (suc r) q h = absurd (omega arith)
bit_or_low (suc k) r q h = ground (
  arith,
  (bit_step r (q * 2 ^ suc k)).0,
  split_pow q k,
  pow-suc 2 k,
  bit_or_low k (r / 2) q (omega (arith, pow-suc 2 k)),
)

-- `(q << k) | r` is the same sum.
pub bit_or_high : (k q r : ℕ) → r < 2 ^ k → bit_or (q * 2 ^ k) r ≡ q * 2 ^ k + r
bit_or_high zero q zero h = ground (arith, (right_zero q q (omega arith)).0)
bit_or_high zero q (suc r) h = absurd (omega arith)
bit_or_high (suc k) q r h = ground (
  arith,
  (bit_step (q * 2 ^ suc k) r).0,
  split_pow q k,
  pow-suc 2 k,
  bit_or_high k q (r / 2) (omega (arith, pow-suc 2 k)),
)

-- A mask of `k` ones keeps the low `k` bits.
bit_and_fields : (k q r : ℕ) → r < 2 ^ k → bit_and (q * 2 ^ k + r) (2 ^ k - 1) ≡ r
bit_and_fields zero q zero h = ground (arith, (right_zero q q (omega arith)).1)
bit_and_fields zero q (suc r) h = absurd (omega arith)
bit_and_fields (suc k) q r h = ground (
  arith,
  (bit_step (q * 2 ^ suc k + r) (2 ^ suc k - 1)).1,
  split_pow q k,
  pow-suc 2 k,
  one-le-pow k 2,
  bit_and_fields k q (r / 2) (omega (arith, pow-suc 2 k)),
)

pub bit_and_seven : (a : ℕ) → bit_and a 7 ≡ a % 8
bit_and_seven a = ground (arith, bit_and_fields 3 (a / 8) (a % 8) (omega arith))

pub bit_and_127 : (a : ℕ) → bit_and a 0x7f ≡ a % 128
bit_and_127 a = ground (arith, bit_and_fields 7 (a / 128) (a % 128) (omega arith))

pub bit_or_128 : (a : ℕ) → a < 128 → bit_or a 0x80 ≡ a + 128
bit_or_128 a h = bit_or_low 7 a 1 h

-- Is the law for the top bit right at every number below this one?
top_bit_table : ℕ → Bool
top_bit_table zero = true
top_bit_table (suc byte) = (bit_or byte 0x80 == byte % 128 + 128) && top_bit_table byte

top_bit_lookup :
    (bound byte : ℕ)
    → byte < bound
    → top_bit_table bound ≡ true
    → bit_or byte 0x80 ≡ byte % 128 + 128
unfolding top_bit_table
top_bit_lookup zero byte below e = absurd (omega arith)
top_bit_lookup (suc bound) byte below e = ground (arith, top_bit_lookup bound byte)

whole_table : top_bit_table 256 ≡ true
unfolding top_bit_table
whole_table = refl

-- `byte(v) | 0x80`, whatever the top bit of the byte.
pub bit_or_top : (a : ℕ) → a < 256 → bit_or a 0x80 ≡ a % 128 + 128
bit_or_top a h = top_bit_lookup 256 a h whole_table

-- `|` stays within the width of its operands.
pub bit_or-lt : (k a b : ℕ) → a < 2 ^ k → b < 2 ^ k → bit_or a b < 2 ^ k
bit_or-lt zero zero b ha hb = omega (arith, bit_or-bitwise 0 b)
bit_or-lt zero (suc a) b ha hb = absurd (omega arith)
bit_or-lt (suc k) a b ha hb = ground (
  arith,
  (bit_step a b).0,
  pow-suc 2 k,
  bit_or-lt k (a / 2) (b / 2) (omega (arith, pow-suc 2 k)) (omega (arith, pow-suc 2 k)),
)
