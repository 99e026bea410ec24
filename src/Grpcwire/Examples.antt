-- ===== src/Grpcwire/Examples.antt =====
-- Streams, replies and percent-encoded texts as internal/android/grpcwire meets them.
use text.Mathlib.Text.{◌==◌}
use flowbaton.Prelude.{ℕ, ◌≡◌, ◌↔◌, refl, List, [], ◌∷◌, ◌++◌, none, some, if◌then◌else◌, arith}
use flowbaton.Prelude.Int.{pos}
use flowbaton.Decimal.{atoi, read_nat, read_digits}
use flowbaton.Grpcwire.Message.{
  done, fail, second_message, frame, read_full, read_body, read_message, read_unary_body,
}
use flowbaton.Grpcwire.Framing.{stream, prefix, read_unary_body-frame, read_unary_body_cut}
use flowbaton.Grpcwire.Percent.{
  contains_percent, decode_grpc_message, encode_percent, decode_grpc_message-encode_percent,
}
use flowbaton.Grpcwire.Status.{
  Response, rpc_error, trailer_value, code_failure, status_failure, message, answered, call,
}
use flowbaton.Grpcwire.Whole.{Whole}
use flowbaton.Grpcwire.Call.{status_failure-Sorted, Sorted, call-message}

abbrev reply_bytes : List ℕ
reply_bytes = 8 ∷ 42 ∷ []

read_unary_body_example :
    read_unary_body (stream (frame reply_bytes ++ (9 ∷ []))) ≡ fail second_message
read_unary_body_example = read_unary_body-frame reply_bytes (9 ∷ []) (omega arith)

read_unary_body_cut_example : read_unary_body (stream (prefix 5)) ≡ done none
read_unary_body_cut_example = read_unary_body_cut 5 (omega arith) (omega arith)

abbrev accented : List ℕ
accented = 0xc3 ∷ 0xa9 ∷ b'%' ∷ b'x' ∷ []

decode_encoded_example : decode_grpc_message (encode_percent accented) ≡ accented
decode_encoded_example =
    decode_grpc_message-encode_percent accented
      (omega arith, (omega arith, (omega arith, (omega arith, tt))))

-- A reply with the status `status` and a body that holds `reply_bytes`.
abbrev reply : List ℕ → Response
reply status = record {
  status_code = 200;
  trailer = λ key. if key == "grpc-status" then status ∷ [] else [];
  header = λ key. [];
  body = stream (frame reply_bytes);
}

no_failure : status_failure (reply (b'0' ∷ [])) ≡ none
unfolding status_failure trailer_value code_failure atoi read_nat read_digits
no_failure = refl

not_found : status_failure (reply (b'5' ∷ [])) ≡ some (rpc_error (pos 5) [] [] [] [])
unfolding status_failure trailer_value code_failure atoi read_nat read_digits decode_grpc_message
    contains_percent
not_found = refl

delivered : call (answered (reply (b'0' ∷ []))) ≡ message reply_bytes
unfolding call read_unary_body read_message read_body read_full frame status_failure trailer_value
    code_failure atoi read_nat read_digits
delivered = refl

call-message_example : (call (answered (reply (b'0' ∷ []))) ≡ message reply_bytes) ↔ (
    ((reply (b'0' ∷ [])).status_code ≡ 200)
    × Whole (reply (b'0' ∷ [])).body reply_bytes
    × (status_failure (reply (b'0' ∷ [])) ≡ none))
call-message_example = call-message (reply (b'0' ∷ [])) reply_bytes

status_failure-Sorted_example : Sorted (reply (b'5' ∷ [])) (status_failure (reply (b'5' ∷ [])))
status_failure-Sorted_example = status_failure-Sorted (reply (b'5' ∷ []))
