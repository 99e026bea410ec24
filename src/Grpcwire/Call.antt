-- ===== src/Grpcwire/Call.antt =====
-- What `call` and `statusFailure` of internal/android/grpcwire answer.
use flowbaton.Prelude.{
  Option, ℕ, ◌≤◌, ◌≡◌, ◌≢◌, ◌⊎◌, ◌↔◌, inl, inr, refl, ◌∙◌, ap, sym, append-nil, List, [], none,
  some, length, arith, Option-cases,
}
use flowbaton.Prelude.Int.{ℤ, pos}
use flowbaton.Decimal.{atoi}
use flowbaton.Grpcwire.Message.{done, frame, max_message_bytes, read_unary_body}
use flowbaton.Grpcwire.Whole.{Whole, read_unary_body-Whole, Whole-read_unary_body}
use flowbaton.Grpcwire.Framing.{stream, read_unary_body-frame}
use flowbaton.Grpcwire.Status.{
  Response, Failure, transport_error, rpc_error, trailer_value, code_failure, status_failure,
  message, answered, call, Diagnosis,
}

-- A reply counts as a success only if its grpc-status is there and is the number 0.
pub status_failure-none :
    (r : Response)
    → status_failure r ≡ none
    → (raw : List ℕ) × (trailer_value r "grpc-status" ≡ some raw) × (atoi raw ≡ some (pos 0))
unfolding status_failure code_failure
status_failure-none r e = elim (Option-cases (trailer_value r "grpc-status")) [
  | inl missing ↦ ground arith
  | inr (raw, present) ↦ (raw, present, ground arith)
]

-- Where there is a status failure, it is a transport error with the status 0, 4 or 14, or an RPCError
-- with none of these three.
pub status_failure_codes :
    (r : Response) (f : Failure)
    → status_failure r ≡ some f
    → ((code : ℤ) × (d : Diagnosis) × (f ≡ transport_error code d)
        × ((code ≡ pos 0) ⊎ ((code ≡ pos 4) ⊎ (code ≡ pos 14))))
      ⊎ ((code : ℤ) × (m t e c : List ℕ) × (f ≡ rpc_error code m t e c)
          × (code ≢ pos 0)
          × (code ≢ pos 4)
          × (code ≢ pos 14))
unfolding status_failure code_failure
status_failure_codes r (transport_error code d) e = inl (code, d, refl, ground arith)
status_failure_codes r (rpc_error code m t x c) e =
    inr (code, m, t, x, c, refl, ground arith, ground arith, ground arith)

-- What a status failure, or none, says of the reply.
abbrev pub Sorted : Response → Option Failure → Type 0
Sorted r none =
    (raw : List ℕ) × (trailer_value r "grpc-status" ≡ some raw) × (atoi raw ≡ some (pos 0))
Sorted r (some (transport_error code d)) = (code ≡ pos 0) ⊎ ((code ≡ pos 4) ⊎ (code ≡ pos 14))
Sorted r (some (rpc_error code m t e c)) = (code ≢ pos 0) × (code ≢ pos 4) × (code ≢ pos 14)

transport_code :
    (r : Response) (code : ℤ) (d : Diagnosis)
    → status_failure r ≡ some (transport_error code d)
    → (code ≡ pos 0) ⊎ ((code ≡ pos 4) ⊎ (code ≡ pos 14))
unfolding status_failure code_failure
transport_code r code d e = ground arith

rpc_code :
    (r : Response) (code : ℤ) (m t x c : List ℕ)
    → status_failure r ≡ some (rpc_error code m t x c)
    → (code ≢ pos 0) × (code ≢ pos 4) × (code ≢ pos 14)
unfolding status_failure code_failure
rpc_code r code m t x c e = (ground arith, ground arith, ground arith)

sorted : (r : Response) (f : Option Failure) → status_failure r ≡ f → Sorted r f
sorted r none e = status_failure-none r e
sorted r (some (transport_error code d)) e = transport_code r code d e
sorted r (some (rpc_error code m t x c)) e = rpc_code r code m t x c e

-- A reply counts as a success only if its grpc-status is there and is the number 0. Where there is a
-- status failure, it is a transport error with the status 0, 4 or 14, or an RPCError with none of
-- these three.
pub status_failure-Sorted : (r : Response) → Sorted r (status_failure r)
status_failure-Sorted r = sorted r (status_failure r) refl

call-message_guards :
    (r : Response) (m : List ℕ)
    → call (answered r) ≡ message m
    → (r.status_code ≡ 200) × (read_unary_body r.body ≡ done (some m)) × (status_failure r ≡ none)
unfolding call
call-message_guards r m e = ground arith

guards-call :
    (r : Response) (m : List ℕ)
    → r.status_code ≡ 200
    → read_unary_body r.body ≡ done (some m)
    → status_failure r ≡ none
    → call (answered r) ≡ message m
unfolding call
guards-call r m ok_status read status = ground arith

-- `call` returns a message exactly where the reply is HTTP 200 with no status failure and its body
-- is a flag of no compression, the length of the message in four bytes, most significant first,
-- which does not pass the ceiling, and the bytes of that very message, and then ends cleanly.
pub call-message :
    (r : Response) (m : List ℕ)
    → (call (answered r) ≡ message m)
      ↔ ((r.status_code ≡ 200) × Whole r.body m × (status_failure r ≡ none))
call-message r m = (
  (λ e.
      let (ok_status, read, status) = call-message_guards r m e in
      (ok_status, read_unary_body-Whole r.body m read, status)),
  (λ w. guards-call r m w.0 (Whole-read_unary_body r.body m w.1) w.2),
)

-- A reply over HTTP 200 with no status failure, whose body is one framed message that fits the
-- ceiling, is delivered as that message.
pub call-frame :
    (r : Response) (m : List ℕ)
    → length m ≤ max_message_bytes
    → r.status_code ≡ 200
    → r.body ≡ stream (frame m)
    → status_failure r ≡ none
    → call (answered r) ≡ message m
unfolding call
call-frame r m fits ok_status body status =
    let read : read_unary_body r.body ≡ done (some m) =
      ap read_unary_body (body ∙ ap stream (sym (append-nil (frame m))))
      ∙ read_unary_body-frame m [] fits in
    ground arith
