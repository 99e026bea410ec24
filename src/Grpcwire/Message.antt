-- ===== src/Grpcwire/Message.antt =====
-- internal/android/grpcwire/message.go: length-prefixed messages on a byte stream.
use flowbaton.Prelude.{
  ℕ, ◌+◌, ◌*◌, ◌/◌, ◌%◌, ◌^◌, List, [], ◌∷◌, ◌++◌, Bool, true, false, not, Option, none, some,
  length, take, drop, ltb, leb, ◌==◌, if◌then◌else◌,
}

-- What an `io.Reader` still holds, and whether a transport error rather than a clean end follows.
pub record Reader : Type 0 where
  pub bytes : List ℕ
  pub broken : Bool

-- The errors of `io.ReadFull`: `io.EOF` before the first byte, `io.ErrUnexpectedEOF` behind it, or
-- the reader's own.
pub data ReadError : Type 0 where
  eof unexpected_eof transport : ReadError

-- The errors of message.go; one that wraps another by `%w` holds it.
pub data MessageError : Type 0 where
  clean_eof second_message : MessageError
  reading_prefix message_truncated after_reply : ReadError → MessageError
  compressed ceiling : ℕ → MessageError

pub data Read {ℓ} (E : Type 0) (A : Type ℓ) : Type ℓ where
  done : A → Read E A
  fail : E → Read E A

-- `errors.Is(err, io.EOF)` on what `io.ReadFull` returns, and through the wrapping.
abbrev pub is_eof : ReadError → Bool
is_eof eof = true
is_eof _ = false

abbrev pub is_message_eof : MessageError → Bool
is_message_eof clean_eof = true
is_message_eof (reading_prefix e) = is_eof e
is_message_eof (message_truncated e) = is_eof e
is_message_eof (after_reply e) = is_eof e
is_message_eof _ = false

abbrev pub short_read : Reader → ReadError
short_read r = if r.broken then transport else if length r.bytes == 0 then eof else unexpected_eof

-- `io.ReadFull` into a buffer of `n` bytes.
unfoldable pub read_full : ℕ → Reader → Read ReadError (List ℕ × Reader)
read_full n r =
    if leb n (length r.bytes)
    then done (take n r.bytes, record r { bytes = drop n r.bytes })
    else fail (short_read r)

abbrev pub max_message_bytes : ℕ
max_message_bytes = 64 * 2 ^ 20

-- `binary.BigEndian`
abbrev pub put_uint32 : ℕ → List ℕ
put_uint32 v = (v / 2 ^ 24 % 256) ∷ (v / 2 ^ 16 % 256) ∷ (v / 2 ^ 8 % 256) ∷ (v % 256) ∷ []

abbrev pub get_uint32 : List ℕ → ℕ
get_uint32 (a ∷ b ∷ c ∷ d ∷ rest) = a * 2 ^ 24 + b * 2 ^ 16 + c * 2 ^ 8 + d
get_uint32 _ = 0

unfoldable pub frame : List ℕ → List ℕ
frame message = (0 ∷ put_uint32 (length message % 2 ^ 32)) ++ message

abbrev pub flag : List ℕ → ℕ
flag [] = 0
flag (b ∷ bs) = b

abbrev pub behind_flag : List ℕ → List ℕ
behind_flag [] = []
behind_flag (b ∷ bs) = bs

abbrev pub wrap_read {ℓ κ} :
    {E : Type 0} {A : Type ℓ} {B : Type κ}
    → Read ReadError A
    → (ReadError → E)
    → (A → Read E B)
    → Read E B
wrap_read (done a) wrap f = f a
wrap_read (fail e) wrap f = fail (wrap e)

-- `readMessage` behind its read of the prefix.
unfoldable pub read_body : List ℕ → Reader → Read MessageError (List ℕ × Reader)
read_body prefix r =
    let len = get_uint32 (behind_flag prefix) in
    if not (flag prefix == 0)
    then fail (compressed (flag prefix))
    else if ltb max_message_bytes len
    then fail (ceiling len)
    else wrap_read (read_full len r) message_truncated (λ m. done m)

-- A clean end in front of the prefix is `io.EOF` itself; every other failure wraps its cause.
unfoldable pub read_message : Reader → Read MessageError (List ℕ × Reader)
read_message r =
    wrap_read (read_full 5 r) (λ e. if is_eof e then clean_eof else reading_prefix e)
      (λ p. read_body (p.0) (p.1))

-- The probe for a byte behind the reply: only `io.EOF` is right.
abbrev pub probe_end :
    List ℕ → Read ReadError (List ℕ × Reader) → Read MessageError (Option (List ℕ))
probe_end message (done p) = fail second_message
probe_end message (fail e) = if is_eof e then done (some message) else fail (after_reply e)

-- `none` is Go's nil message with no error.
unfoldable pub read_unary_body : Reader → Read MessageError (Option (List ℕ))
read_unary_body r = elim (read_message r) [
  | done (message, rest) ↦ probe_end message (read_full 1 rest)
  | fail e ↦ if is_message_eof e then done none else fail e
]
