-- ===== src/Grpcwire/Percent.antt =====
-- internal/android/grpcwire/status.go: the percent-encoding of grpc-message.
use flowbaton.Prelude.Bits.{bit_or_high}
use flowbaton.Prelude.{
  ℕ, ◌+◌, ◌-◌, ◌*◌, ◌/◌, ◌%◌, ◌^◌, ◌<◌, ◌≡◌, ◌∙◌, sym, refl, ap, List, [], ◌∷◌, Bool, ◌&&◌, ◌||◌,
  not, Option, none, some, bit_or, leb, ltb, ◌==◌, if◌then◌else◌, All, arith, false, Bool-cases,
  inl, inr,
}

unfoldable pub unhex : ℕ → Option ℕ
unhex c =
    if leb b'0' c && leb c b'9'
    then some (c - b'0')
    else if leb b'a' c && leb c b'f'
    then some (c - b'a' + 10)
    else if leb b'A' c && leb c b'F'
    then some (c - b'A' + 10)
    else none

-- The byte of two hexadecimal digits.
abbrev hex_byte : Option ℕ → Option ℕ → Option ℕ
hex_byte (some high) (some low) = some (bit_or (high * 2 ^ 4) low)
hex_byte _ _ = none

-- The loop over `encoded[i:]`: a `%` with two digits behind it is one byte, any other byte is kept.
unfoldable pub decode_percent : List ℕ → List ℕ
unfolding unhex
decode_percent [] = []
decode_percent (c ∷ []) = c ∷ []
decode_percent (c ∷ d ∷ []) = c ∷ decode_percent (d ∷ [])
decode_percent (c ∷ d ∷ e ∷ rest) =
    let kept = c ∷ decode_percent (d ∷ e ∷ rest) in
    let tail = decode_percent rest in
    let pair = hex_byte (unhex d) (unhex e) in
    if c == b'%' then elim pair [ some b ↦ b ∷ tail | none ↦ kept ] else kept

unfoldable pub contains_percent : List ℕ → Bool
contains_percent [] = false
contains_percent (c ∷ cs) = c == b'%' || contains_percent cs

unfoldable pub decode_grpc_message : List ℕ → List ℕ
unfolding decode_percent contains_percent
decode_grpc_message encoded =
    if not (contains_percent encoded) then encoded else decode_percent encoded

-- One byte that is not `%` is kept.
decode_percent-keep :
    (c : ℕ) (cs : List ℕ) → (c == b'%') ≡ false → decode_percent (c ∷ cs) ≡ c ∷ decode_percent cs
unfolding decode_percent
decode_percent-keep c [] h = refl
decode_percent-keep c (d ∷ []) h = refl
decode_percent-keep c (d ∷ e ∷ rest) h = rw h

decode_percent-plain : (s : List ℕ) → contains_percent s ≡ false → decode_percent s ≡ s
unfolding contains_percent
decode_percent-plain [] h = unfold decode_percent in refl
decode_percent-plain (c ∷ cs) h = ground (arith, decode_percent-keep c cs, decode_percent-plain cs)

-- The early return for a text with no `%` changes nothing.
pub decode_grpc_message-decode_percent : (s : List ℕ) → decode_grpc_message s ≡ decode_percent s
unfolding decode_grpc_message
decode_grpc_message-decode_percent s = elim (Bool-cases (contains_percent s)) [
  | inl h ↦ rw h
  | inr h ↦ rw h (sym (decode_percent-plain s h))
]

-- The encoding of the gRPC HTTP/2 specification: printable ASCII but `%` stays, any other byte is
-- `%` and two digits.
abbrev pub hex_digit : ℕ → ℕ
hex_digit n = if ltb n 10 then b'0' + n else b'A' + (n - 10)

abbrev pub stays : ℕ → Bool
stays c = leb 0x20 c && leb c 0x7e && not (c == b'%')

unfoldable pub encode_percent : List ℕ → List ℕ
encode_percent [] = []
encode_percent (c ∷ cs) =
    let rest = encode_percent cs in
    if stays c then c ∷ rest else b'%' ∷ hex_digit (c / 16) ∷ hex_digit (c % 16) ∷ rest

unhex-hex_digit : (n : ℕ) → n < 16 → unhex (hex_digit n) ≡ some n
unfolding unhex
unhex-hex_digit n h = ground arith

hex_pair :
    (d e b : ℕ) (rest : List ℕ)
    → hex_byte (unhex d) (unhex e) ≡ some b
    → decode_percent (b'%' ∷ d ∷ e ∷ rest) ≡ b ∷ decode_percent rest
unfolding decode_percent
hex_pair d e b rest h = rw h

decode_percent_pair :
    (c : ℕ) (rest : List ℕ)
    → c < 256
    → decode_percent (b'%' ∷ hex_digit (c / 16) ∷ hex_digit (c % 16) ∷ rest)
      ≡ c ∷ decode_percent rest
decode_percent_pair c rest h = hex_pair (hex_digit (c / 16)) (hex_digit (c % 16)) c rest (
    rw (unhex-hex_digit (c / 16) (omega arith), unhex-hex_digit (c % 16) (omega arith))
      (ground (arith, bit_or_high 4 (c / 16) (c % 16))))

decode_percent-encode_percent :
    (s : List ℕ) → All (λ c. c < 256) s → decode_percent (encode_percent s) ≡ s
unfolding encode_percent
decode_percent-encode_percent [] h = unfold decode_percent in refl
decode_percent-encode_percent (c ∷ cs) h = elim (Bool-cases (stays c)) [
  | inl e ↦ rw e (
      decode_percent-keep c (encode_percent cs) (ground arith)
      ∙ ap (λ l. c ∷ l) (decode_percent-encode_percent cs h.1))
  | inr e ↦ rw e (
      decode_percent_pair c (encode_percent cs) h.0
      ∙ ap (λ l. c ∷ l) (decode_percent-encode_percent cs h.1))
]

-- Every text of bytes that a peer percent-encodes is decoded to itself.
pub decode_grpc_message-encode_percent :
    (s : List ℕ) → All (λ c. c < 256) s → decode_grpc_message (encode_percent s) ≡ s
decode_grpc_message-encode_percent s h =
    decode_grpc_message-decode_percent (encode_percent s) ∙ decode_percent-encode_percent s h
