-- ===== src/Pbwire/Varint.antt =====
-- Varints of internal/android/pbwire/wire.go: `appendVarint` against `consumeVarint`.
use mathlib.Core.WellFounded.{Acc}
use native.Mathlib.Numerals.{towards_suc}
use native.Mathlib.Nat.{div-add-mod}
use flowbaton.Prelude.{
  ℕ, zero, suc, ◌+◌, ◌*◌, ◌/◌, ◌%◌, ◌^◌, ◌≤◌, ◌<◌, ◌≡◌, ap, ◌∙◌, List, [], ◌∷◌, ◌++◌, append_assoc,
  length, ltb, if◌then◌else◌, some, bit_and, bit_or, arith,
}
use flowbaton.Prelude.Bits.{bit_and_127, bit_or_low, bit_or_top, bit_or-lt}
use flowbaton.Pbwire.Result.{ok}
use flowbaton.Pbwire.Encode.{IsU64, varint_loop, append_varint}
use flowbaton.Pbwire.Decode.{varint_groups, consume_varint}

-- The groups of seven bits of `v`, lowest first, with the top bit on all but the last, for `v`
-- below 128 ^ (k + 1).
unfoldable pub groups : ℕ → ℕ → List ℕ
groups zero v = v ∷ []
groups (suc k) v =
    let rest = groups k (v / 128) in if ltb v 128 then v ∷ [] else (v % 128 + 128) ∷ rest

-- What a varint holds: the groups of a uint64.
abbrev pub varint : ℕ → List ℕ
varint v = groups 9 v

varint_loop-groups :
    (k : ℕ) (b : List ℕ) (v : ℕ) (w : Acc ◌<◌ v)
    → v < 128 ^ suc k
    → varint_loop b v w ≡ b ++ groups k v
unfolding varint_loop groups
varint_loop-groups zero b v (Acc.intro _ smaller) h = ground arith
varint_loop-groups (suc k) b v (Acc.intro _ smaller) h =
    let first : List ℕ = (v % 128 + 128) ∷ [] in
    grind (
      arith,
      bit_or_top (v % 256) (omega arith),
      λ (w : Acc ◌<◌ (v / 128)). varint_loop-groups k (b ++ first) (v / 128) w (omega arith),
      append_assoc b first (groups k (v / 128)),
    )

pub append_varint-groups : (b : List ℕ) (v : ℕ) → IsU64 v → append_varint b v ≡ b ++ varint v
unfolding append_varint
append_varint-groups b v h = varint_loop-groups 9 b v _ (omega arith)

pub length-groups : (k v : ℕ) → (1 ≤ length (groups k v)) × (length (groups k v) ≤ k + 1)
unfolding groups
length-groups zero v = omega arith
length-groups (suc k) v = ground (arith, length-groups k (v / 128))

shift_seven : (i : ℕ) → 2 ^ (7 * (i + 1)) ≡ 128 * 2 ^ (7 * i)
shift_seven i =
    ap (λ (t : ℕ). 2 ^ t) {x = 7 * (i + 1)} {y = 7 * i + 7} (omega arith)
    ∙ simp towards_suc (omega arith)

split_group : (v i : ℕ) → v * 2 ^ (7 * i) ≡ v % 128 * 2 ^ (7 * i) + v / 128 * 2 ^ (7 * (i + 1))
split_group v i = omega (
  arith,
  ap (λ (t : ℕ). t * 2 ^ (7 * i)) (div-add-mod v 128),
  ap (λ (t : ℕ). v / 128 * t) (shift_seven i),
)

-- One round of the loop, on a last byte `d` and on an inner byte over the group `g`.
last_group :
    (d i v : ℕ) (rest : List ℕ)
    → d < 128
    → i < 10
    → v < 2 ^ (7 * i)
    → IsU64 (v + d * 2 ^ (7 * i))
    → varint_groups (d ∷ rest) i v ≡ some (v + d * 2 ^ (7 * i), i + 1)
unfolding varint_groups
last_group d i v rest hd hi hv fits = ground (arith, bit_and_127 d, bit_or_low (7 * i) v d hv)

inner_group :
    (g i v : ℕ) (rest : List ℕ)
    → g < 128
    → i < 10
    → v < 2 ^ (7 * i)
    → IsU64 (v + g * 2 ^ (7 * i))
    → varint_groups ((g + 128) ∷ rest) i v ≡ varint_groups rest (i + 1) (v + g * 2 ^ (7 * i))
unfolding varint_groups
inner_group g i v rest hg hi hv fits =
    ground (arith, bit_and_127 (g + 128), bit_or_low (7 * i) v g hv)

mul_le_127 : (g p : ℕ) → g < 128 → g * p ≤ 127 * p
mul_le_127 g p h = grind arith

grown : (v g i : ℕ) → g < 128 → v < 2 ^ (7 * i) → v + g * 2 ^ (7 * i) < 2 ^ (7 * (i + 1))
grown v g i hg hv = ground (arith, shift_seven i, mul_le_127 g (2 ^ (7 * i)))

varint_groups-groups :
    (k i v acc : ℕ) (rest : List ℕ)
    → v < 128 ^ suc k
    → i + k < 10
    → acc < 2 ^ (7 * i)
    → IsU64 (acc + v * 2 ^ (7 * i))
    → varint_groups (groups k v ++ rest) i acc
      ≡ some (acc + v * 2 ^ (7 * i), i + length (groups k v))
unfolding groups
varint_groups-groups zero i v acc rest hv hi ha fits =
    last_group v i acc rest hv (omega arith) ha fits
varint_groups-groups (suc k) i v acc rest hv hi ha fits = ground (
  arith,
  last_group v i acc rest,
  split_group v i,
  inner_group (v % 128) i acc (groups k (v / 128) ++ rest),
  grown acc (v % 128) i,
  varint_groups-groups k (i + 1) (v / 128) (acc + v % 128 * 2 ^ (7 * i)) rest (omega arith),
)

pub consume_varint-varint :
    (v : ℕ) (rest : List ℕ)
    → IsU64 v
    → consume_varint (varint v ++ rest) ≡ ok (v, length (varint v))
unfolding consume_varint
consume_varint-varint v rest h = ground (arith, varint_groups-groups 9 0 v 0 rest)

-- A uint64 that `appendVarint` writes is what `consumeVarint` reads back, whatever bytes follow it,
-- and the count that comes with it is that of the bytes written.
pub consume_varint-append_varint :
    (v : ℕ) (rest : List ℕ)
    → IsU64 v
    → consume_varint (append_varint [] v ++ rest) ≡ ok (v, length (append_varint [] v))
consume_varint-append_varint v rest h =
    rw (append_varint-groups [] v h) (consume_varint-varint v rest h)

-- The loop of `consumeVarint` on any bytes: what it has read stays a uint64, and it stops within
-- the input and within ten bytes.
varint_groups_takes :
    (src : List ℕ) (i acc v n : ℕ)
    → IsU64 acc
    → varint_groups src i acc ≡ some (v, n)
    → (i < n) × (n ≤ i + length src) × (n ≤ 10) × IsU64 v
unfolding varint_groups
varint_groups_takes [] i acc v n h e = cc
varint_groups_takes (d ∷ rest) i acc v n h e =
    let group = bit_and d 0x7f * 2 ^ (7 * i) % 2 ^ 64 in
    ground (
      arith,
      bit_or-lt 64 acc group h (omega arith),
      varint_groups_takes rest (i + 1) (bit_or acc group) v n,
    )

-- A varint that is read has 1 to 10 bytes, all within the input, and holds a uint64.
pub consume_varint_takes :
    (src : List ℕ) (r : ℕ × ℕ)
    → consume_varint src ≡ ok r
    → (1 ≤ r.1) × (r.1 ≤ length src) × (r.1 ≤ 10) × IsU64 (r.0)
unfolding consume_varint
consume_varint_takes src (v, n) e = ground (arith, varint_groups_takes src 0 0 v n)
