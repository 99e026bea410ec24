-- ===== src/Pbwire/Scalars.antt =====
-- One field of a message: what an append function of internal/android/pbwire/wire.go adds, and
-- that the decoding loop reads it as one assignment.
use flowbaton.Prelude.{
  ℕ, ◌≡◌, ◌∙◌, ap, refl, sym, Bool, true, false, inl, inr, List, [], ◌∷◌, ◌++◌, append-nil,
  append_assoc, length, arith, ◌==◌, if◌then◌else◌, Bool-cases,
}
use flowbaton.Pbwire.Result.{ok}
use flowbaton.Pbwire.Encode.{
  IsU32, IsU64, append_uint32, append_bool, append_double, append_string, append_bytes,
  append_message, double_bytes,
}
use flowbaton.Pbwire.Decode.{consume_varint, consume_length_delimited}
use flowbaton.Pbwire.Varint.{groups, varint, append_varint-groups, consume_varint-varint}
use flowbaton.Pbwire.Tokens.{
  IsField, tag, append_tag-varint, delimited, append_message-delimited,
  consume_length_delimited-delimited,
}
use flowbaton.Pbwire.Fields.{Switch, decode}
use flowbaton.Pbwire.Loop.{decode-nil, decode_field}

-- A piece of the input that takes the message from `m` to `m'`, whatever follows it.
abbrev pub Reads : {M : Type 0} → Switch M → M → M → List ℕ → Type 0
Reads switch m m' piece = (rest : List ℕ) → decode switch m (piece ++ rest) ≡ decode switch m' rest

-- The bytes of one field.
unfoldable pub uint32_field : ℕ → ℕ → List ℕ
uint32_field field v = if v == 0 then [] else tag field 0 ++ varint v

unfoldable pub bool_field : ℕ → Bool → List ℕ
bool_field field v = if v then tag field 0 ++ varint 1 else []

unfoldable pub double_field : ℕ → ℕ → List ℕ
double_field field v = if v == 0 then [] else tag field 1 ++ double_bytes v

unfoldable pub message_field : ℕ → List ℕ → List ℕ
message_field field v = tag field 2 ++ delimited v

unfoldable pub bytes_field : ℕ → List ℕ → List ℕ
unfolding message_field
bytes_field field [] = []
bytes_field field (c ∷ v) = message_field field (c ∷ v)

pub append_uint32-field :
    (b : List ℕ) (field v : ℕ)
    → IsField field
    → IsU32 v
    → append_uint32 b field v ≡ b ++ uint32_field field v
unfolding append_uint32 uint32_field
append_uint32-field b field v hf hv = ground (
  arith,
  append-nil b,
  append_tag-varint b field 0 hf,
  append_varint-groups (b ++ tag field 0) v,
  append_assoc b (tag field 0) (varint v),
)

pub append_bool-field :
    (b : List ℕ) (field : ℕ) (v : Bool)
    → IsField field
    → append_bool b field v ≡ b ++ bool_field field v
unfolding append_bool bool_field
append_bool-field b field true hf =
    rw (append_tag-varint b field 0 hf (omega arith))
      (append_assoc b (tag field 0) (1 ∷ []) ∙ unfold groups in refl)
append_bool-field b field false hf = sym (append-nil b)

pub append_double-field :
    (b : List ℕ) (field v : ℕ) → IsField field → append_double b field v ≡ b ++ double_field field v
unfolding append_double double_field
append_double-field b field v hf = ground (
  arith,
  append-nil b,
  append_tag-varint b field 1 hf,
  append_assoc b (tag field 1) (double_bytes v),
)

pub append_message-field :
    (b : List ℕ) (field : ℕ) (v : List ℕ)
    → IsField field
    → IsU64 (length v)
    → append_message b field v ≡ b ++ message_field field v
unfolding message_field
append_message-field b field v hf hv = append_message-delimited b field v hf hv

pub append_string-field :
    (b : List ℕ) (field : ℕ) (v : List ℕ)
    → IsField field
    → IsU64 (length v)
    → append_string b field v ≡ b ++ bytes_field field v
unfolding append_string bytes_field
append_string-field b field [] hf hv = sym (append-nil b)
append_string-field b field (c ∷ v) hf hv =
    unfold append_message in append_message-field b field (c ∷ v) hf hv

pub append_bytes-field :
    (b : List ℕ) (field : ℕ) (v : List ℕ)
    → IsField field
    → IsU64 (length v)
    → append_bytes b field v ≡ b ++ bytes_field field v
unfolding append_bytes append_message bytes_field
append_bytes-field b field [] hf hv = sym (append-nil b)
append_bytes-field b field (c ∷ v) hf hv =
    let same : append_bytes b field (c ∷ v) ≡ append_message b field (c ∷ v) = ground arith in
    same ∙ append_message-field b field (c ∷ v) hf hv

module _ {M : Type 0} (switch : Switch M) where
  pub Reads-nil : (m m' : M) → m ≡ m' → Reads switch m m' []
  Reads-nil m m' e rest = ap (λ n. decode switch n rest) e

  pub Reads-append :
      (m m' m'' : M) (p q : List ℕ)
      → Reads switch m m' p
      → Reads switch m' m'' q
      → Reads switch m m'' (p ++ q)
  Reads-append m m' m'' p q hp hq rest = rw append_assoc (hp (q ++ rest) ∙ hq rest)

  -- A message that is read to the end.
  pub Reads→ok : (m m' : M) (p : List ℕ) → Reads switch m m' p → decode switch m p ≡ ok m'
  Reads→ok m m' p h = ap (decode switch m) (sym (append-nil p)) ∙ h [] ∙ decode-nil switch m'

  pub uint32_field-Reads :
      (m m' : M) (field v : ℕ)
      → IsField field
      → IsU32 v
      → (v ≡ 0 → m ≡ m')
      → ((src : List ℕ) (n : ℕ)
          → consume_varint src ≡ ok (v, n)
          → switch m field 0 src ≡ ok (m', n))
      → Reads switch m m' (uint32_field field v)
  unfolding uint32_field
  uint32_field-Reads m m' field v hf hv none takes = elim (Bool-cases (v == 0)) [
    | inl e ↦ rw e (Reads-nil m m' (none (ground arith)))
    | inr e ↦ rw e λ rest.
        decode_field switch m m' field 0 (varint v) rest hf (omega arith)
          (takes (varint v ++ rest) _ (consume_varint-varint v rest (omega arith)))
  ]

  pub message_field-Reads :
      (m m' : M) (field : ℕ) (v : List ℕ)
      → IsField field
      → IsU64 (length v)
      → ((src : List ℕ) (n : ℕ)
          → consume_length_delimited src ≡ ok (v, n)
          → switch m field 2 src ≡ ok (m', n))
      → Reads switch m m' (message_field field v)
  unfolding message_field
  message_field-Reads m m' field v hf hv takes rest =
      decode_field switch m m' field 2 (delimited v) rest hf (omega arith)
        (takes (delimited v ++ rest) _ (consume_length_delimited-delimited v rest hv))

  pub bytes_field-Reads :
      (m m' : M) (field : ℕ) (v : List ℕ)
      → IsField field
      → IsU64 (length v)
      → (v ≡ [] → m ≡ m')
      → ((src : List ℕ) (n : ℕ)
          → consume_length_delimited src ≡ ok (v, n)
          → switch m field 2 src ≡ ok (m', n))
      → Reads switch m m' (bytes_field field v)
  unfolding bytes_field
  bytes_field-Reads m m' field [] hf hv none takes = Reads-nil m m' (none refl)
  bytes_field-Reads m m' field (c ∷ v) hf hv none takes =
      message_field-Reads m m' field (c ∷ v) hf hv takes

  pub bool_field-Reads :
      (m m' : M) (field : ℕ) (v : Bool)
      → IsField field
      → (v ≡ false → m ≡ m')
      → ((src : List ℕ) (n : ℕ)
          → v ≡ true
          → consume_varint src ≡ ok (1, n)
          → switch m field 0 src ≡ ok (m', n))
      → Reads switch m m' (bool_field field v)
  unfolding bool_field
  bool_field-Reads m m' field true hf none takes rest =
      decode_field switch m m' field 0 (varint 1) rest hf (omega arith)
        (takes (varint 1 ++ rest) _ refl (consume_varint-varint 1 rest (omega arith)))
  bool_field-Reads m m' field false hf none takes rest = Reads-nil m m' (none refl) rest
