-- ===== src/Pbwire/Takes.antt =====
-- The consume functions of internal/android/pbwire/wire.go on any bytes: each count that they
-- return stays within the input, so that no slice expression of the decoder goes out of range,
-- and each ends with a value or an error.
use flowbaton.Prelude.{
  ℕ, ◌+◌, ◌≤◌, ◌<◌, ◌≡◌, ◌≢◌, refl, inl, inr, List, length, length-take, length-drop, drop, take,
  true, false, arith,
}
use flowbaton.Prelude.Bits.{bit_and_seven}
use flowbaton.Pbwire.Result.{Result, Result-cases, ◌>>=◌, ok, err, stuck}
use flowbaton.Pbwire.Decode.{consume_varint, consume_tag, consume_length_delimited, skip_field}
use flowbaton.Pbwire.Varint.{consume_varint_takes}

pub consume_varint-ne-stuck : (src : List ℕ) → consume_varint src ≢ stuck
unfolding consume_varint
consume_varint-ne-stuck src e = ground arith

-- A tag that is read lies within the input, names a field above zero and a wire type below 8.
pub consume_tag_takes :
    (src : List ℕ) (t : ℕ × ℕ × ℕ)
    → consume_tag src ≡ ok t
    → (1 ≤ t.2) × (t.2 ≤ length src) × (1 ≤ t.0) × (t.1 < 8)
unfolding consume_tag
consume_tag_takes src (field, wire, n) e = grind (arith, consume_varint_takes src, bit_and_seven)

pub consume_tag-ne-stuck : (src : List ℕ) → consume_tag src ≢ stuck
unfolding consume_tag
consume_tag-ne-stuck src e = ground (arith, consume_varint-ne-stuck src)

-- A length-delimited value that is read lies within the input, and has the length that it claims.
pub consume_length_delimited_takes :
    (src : List ℕ) (r : List ℕ × ℕ)
    → consume_length_delimited src ≡ ok r
    → (1 + length (r.0) ≤ r.1) × (r.1 ≤ length src)
unfolding consume_length_delimited
consume_length_delimited_takes src (v, n) e = elim (Result-cases (consume_varint src)) [
  | inl ((len, k), r) ↦
      ground (
        arith,
        consume_varint_takes src (len, k) r,
        length-take len (drop k src),
        length-drop k src,
      )
  | inr (inl (x, r)) ↦ ground arith
  | inr (inr r) ↦ ground arith
]

pub consume_length_delimited-ne-stuck : (src : List ℕ) → consume_length_delimited src ≢ stuck
unfolding consume_length_delimited
consume_length_delimited-ne-stuck src e = ground (arith, consume_varint-ne-stuck src)

count_takes {ℓ} :
    {A : Type ℓ} (src : List ℕ) (m : Result (A × ℕ)) (n : ℕ)
    → ((r : A × ℕ) → m ≡ ok r → (1 ≤ r.1) × (r.1 ≤ length src))
    → (m >>= (λ r. ok (r.1))) ≡ ok n
    → (1 ≤ n) × (n ≤ length src)
count_takes src (ok r) n h e = ground (arith, h r refl)
count_takes src (err x) n h e = cc
count_takes src stuck n h e = cc

-- A skipped value lies within the input.
pub skip_field_takes :
    (src : List ℕ) (wire n : ℕ) → skip_field src wire ≡ ok n → (1 ≤ n) × (n ≤ length src)
unfolding skip_field
skip_field_takes src wire n e = ground (
  arith,
  count_takes src (consume_varint src) n
      (λ r h. let t = consume_varint_takes src r h in (t.0, t.1)),
  count_takes src (consume_length_delimited src) n
      (λ r h. let t = consume_length_delimited_takes src r h in (omega arith, t.1)),
)

pub skip_field-ne-stuck : (src : List ℕ) (wire : ℕ) → skip_field src wire ≢ stuck
unfolding skip_field
skip_field-ne-stuck src wire e =
    ground (arith, consume_varint-ne-stuck src, consume_length_delimited-ne-stuck src)

-- A length-delimited value that is read is the bytes behind the length, as many as the length says.
pub consume_length_delimited_bytes :
    (src : List ℕ) (r : List ℕ × ℕ)
    → consume_length_delimited src ≡ ok r
    → (len : ℕ) × (k : ℕ) × (consume_varint src ≡ ok (len, k))
      × (length (r.0) ≡ len)
      × (r.1 ≡ k + len)
      × (r.1 ≤ length src)
      × (r.0 ≡ take len (drop k src))
unfolding consume_length_delimited
consume_length_delimited_bytes src (v, n) e = elim (Result-cases (consume_varint src)) [
  | inl ((len, k), r) ↦
      let claimed : (v ≡ take len (drop k src)) × (n ≡ k + len) × (k + len ≤ length src) =
        ground (arith, consume_varint_takes src (len, k) r) in
      (
        len,
        k,
        r,
        ground (arith, length-take len (drop k src), length-drop k src, claimed),
        claimed.1,
        ground (arith, claimed),
        claimed.0,
      )
  | inr (inl (x, r)) ↦ absurd (ground arith)
  | inr (inr r) ↦ absurd (ground arith)
]

-- A result that is an error or has a property; never without an end.
abbrev pub Within : {A : Type 0} → (A → Type 0) → Result A → Type 0
Within P (ok a) = P a
Within P (err e) = Unit {0}
Within P stuck = false ≡ true

within :
    {A : Type 0} (P : A → Type 0) (m : Result A)
    → ((a : A) → m ≡ ok a → P a)
    → m ≢ stuck
    → Within P m
within P (ok a) h k = h a refl
within P (err e) h k = tt
within P stuck h k = absurd (k refl)

-- A value with its count, behind the varint of its length.
abbrev pub Delimited : List ℕ → List ℕ × ℕ → Type 0
Delimited src (v, n) =
    (len : ℕ) × (k : ℕ) × (consume_varint src ≡ ok (len, k))
    × (length v ≡ len)
    × (n ≡ k + len)
    × (n ≤ length src)
    × (v ≡ take len (drop k src))

-- On any bytes the consume functions end with an error or a count within the input: a tag that is
-- read names a field above zero and a wire type below 8, a length-delimited value that is read is
-- the bytes behind the varint of its length, as many as that says, and the skipped value of any
-- wire type takes at least a byte.
pub counts-Within :
    (src : List ℕ) (wire : ℕ)
    → Within (λ t. (1 ≤ t.2) × (t.2 ≤ length src) × (1 ≤ t.0) × (t.1 < 8)) (consume_tag src)
      × Within (Delimited src) (consume_length_delimited src)
      × Within (λ n. (1 ≤ n) × (n ≤ length src)) (skip_field src wire)
counts-Within src wire = (
  within _ (consume_tag src) (consume_tag_takes src) (consume_tag-ne-stuck src),
  within _ (consume_length_delimited src) (consume_length_delimited_bytes src)
      (consume_length_delimited-ne-stuck src),
  within _ (skip_field src wire) (skip_field_takes src wire) (skip_field-ne-stuck src wire),
)
