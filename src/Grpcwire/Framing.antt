-- ===== src/Grpcwire/Framing.antt =====
-- `readMessage` and `readUnaryBody` of internal/android/grpcwire/message.go against `frame`.
use flowbaton.Prelude.{
  ℕ, ◌^◌, ◌≤◌, ◌<◌, ◌≡◌, ◌∙◌, ap, List, [], ◌∷◌, ◌++◌, false, none, some, length, length-append,
  take-append, append_assoc, if◌then◌else◌, ◌==◌, drop-append, arith,
}
use flowbaton.Grpcwire.Message.{
  Reader, done, fail, second_message, message_truncated, eof, read_full, max_message_bytes,
  put_uint32, get_uint32, frame, read_body, read_message, read_unary_body,
}

-- A stream that holds these bytes and then ends cleanly.
abbrev pub stream : List ℕ → Reader
stream bytes = record { bytes = bytes; broken = false }

uint32-lt : (n : ℕ) → n < 2 ^ 32 → get_uint32 (put_uint32 n) ≡ n
uint32-lt n h = omega arith

-- The exact bytes are there.
read_full-append :
    (xs ys : List ℕ) → read_full (length xs) (stream (xs ++ ys)) ≡ done (xs, stream ys)
unfolding read_full
read_full-append xs ys = ground (arith, take-append xs ys, drop-append xs ys, length-append xs ys)

-- The prefix of a message of `n` bytes.
abbrev pub prefix : ℕ → List ℕ
prefix n = 0 ∷ put_uint32 n

read_body_frame :
    (m rest : List ℕ)
    → length m ≤ max_message_bytes
    → read_body (prefix (length m)) (stream (m ++ rest)) ≡ done (m, stream rest)
unfolding read_body
read_body_frame m rest h =
    ground (arith, uint32-lt (length m) (omega arith), read_full-append m rest)

frame-prefix : (m : List ℕ) → length m ≤ max_message_bytes → frame m ≡ prefix (length m) ++ m
unfolding frame
frame-prefix m h = ap (λ n. prefix n ++ m) (omega arith)

read_message-prefix :
    (n : ℕ) (rest : List ℕ)
    → read_message (stream (prefix n ++ rest)) ≡ read_body (prefix n) (stream rest)
unfolding read_message
read_message-prefix n rest = rw (read_full-append (prefix n) rest)

-- A message that fits the ceiling is read back whole from in front of whatever follows it.
pub read_message-frame :
    (m rest : List ℕ)
    → length m ≤ max_message_bytes
    → read_message (stream (frame m ++ rest)) ≡ done (m, stream rest)
read_message-frame m rest h =
    rw (frame-prefix m h, append_assoc)
      (read_message-prefix (length m) (m ++ rest) ∙ read_body_frame m rest h)

-- A stream that ends inside the message is an error that wraps the cause of `io.ReadFull`.
read_message_cut :
    (n : ℕ)
    → 0 < n
    → n ≤ max_message_bytes
    → read_message (stream (prefix n)) ≡ fail (message_truncated eof)
read_message_cut n some_bytes fits =
    read_message-prefix n [] ∙ unfold read_body read_full in ground (arith, uint32-lt n)

-- Of a framed message that fits the ceiling, `readUnaryBody` gives the message where nothing is
-- behind it, and else the error of a second message.
pub read_unary_body-frame :
    (m rest : List ℕ)
    → length m ≤ max_message_bytes
    → read_unary_body (stream (frame m ++ rest))
      ≡ (if length rest == 0 then done (some m) else fail second_message)
unfolding read_unary_body
read_unary_body-frame m rest h =
    rw (read_message-frame m rest h, read_unary_body) (unfold read_full in ground arith)

-- A stream that ends right behind the prefix of a message that is not empty and fits the ceiling is
-- taken for a reply with no body.
pub read_unary_body_cut :
    (n : ℕ) → 0 < n → n ≤ max_message_bytes → read_unary_body (stream (prefix n)) ≡ done none
unfolding read_unary_body
read_unary_body_cut n some_bytes fits = rw (read_message_cut n some_bytes fits, read_unary_body)
