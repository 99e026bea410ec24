-- ===== src/Grpcwire/Status.antt =====
-- internal/android/grpcwire/status.go and the reply half of grpcwire.go: what a reply's status and
-- trailers mean, and the order in which `call` looks at them. `http.Header.Values` and the round
-- trip of x/net/http2 are inputs. The formatting of the error texts is left out.
use Prim.Native.String.{String}
use flowbaton.Prelude.{ℕ, List, [], ◌∷◌, Bool, false, ◌||◌, Option, none, some, ◌==◌, if◌then◌else◌}
use flowbaton.Prelude.Int.{ℤ, pos, negsuc}
use flowbaton.Decimal.{atoi}
use flowbaton.Grpcwire.Message.{Reader, MessageError, done, fail, read_unary_body}
use flowbaton.Grpcwire.Percent.{decode_grpc_message}

-- What `response.Trailer.Values` and `response.Header.Values` answer for a key.
pub record Response : Type 0 where
  pub status_code : ℕ
  pub trailer : String → List (List ℕ)
  pub header : String → List (List ℕ)
  pub body : Reader

-- The `Message` of a TransportError, before it is put into words.
pub data Diagnosis : Type 0 where
  building_request round_trip no_grpc_status no_reply_message : Diagnosis
  http_status : ℕ → Diagnosis
  unparseable_status grpc_message : List ℕ → Diagnosis
  wire_defect : MessageError → Diagnosis

-- The two error types of the package. The method that was called is left out of both.
pub data Failure : Type 0 where
  transport_error : (code : ℤ) → Diagnosis → Failure
  rpc_error : (code : ℤ) → (message error_type error_message error_cause : List ℕ) → Failure

abbrev first : List (List ℕ) → Option (List ℕ)
first [] = none
first (v ∷ vs) = some v

-- Trailers first, and the headers of a trailers-only reply behind them.
unfoldable pub trailer_value : Response → String → Option (List ℕ)
trailer_value response key = elim (first (response.trailer key)) [
  | some v ↦ some v
  | none ↦ first (response.header key)
]

-- Go's zero value where the second result is discarded.
abbrev or_empty : Option (List ℕ) → List ℕ
or_empty none = []
or_empty (some v) = v

abbrev is : ℤ → ℕ → Bool
is (pos n) k = n == k
is (negsuc n) k = false

abbrev pub status_deadline_exceeded : ℕ
status_deadline_exceeded = 4

abbrev pub status_unavailable : ℕ
status_unavailable = 14

-- `statusFailure` behind its `strconv.Atoi`. `none` is Go's nil error.
unfoldable pub code_failure : Response → ℤ → Option Failure
code_failure response code =
    let message = decode_grpc_message (or_empty (trailer_value response "grpc-message")) in
    if is code 0
    then none
    else if is code status_unavailable || is code status_deadline_exceeded
    then some (transport_error code (grpc_message message))
    else some (
        rpc_error code message (or_empty (trailer_value response "error-type"))
          (or_empty (trailer_value response "error-message"))
          (or_empty (trailer_value response "error-cause")))

unfoldable pub status_failure : Response → Option Failure
status_failure response = elim (trailer_value response "grpc-status") [
  | none ↦ some (transport_error (pos 0) no_grpc_status)
  | some raw ↦ elim (atoi raw) [
    | none ↦ some (transport_error (pos 0) (unparseable_status raw))
    | some code ↦ code_failure response code
  ]
]

-- How far the request came.
pub data Exchange : Type 0 where
  not_built not_answered : Exchange
  answered : Response → Exchange

pub data Reply : Type 0 where
  message : List ℕ → Reply
  failed : Failure → Reply

-- `call` behind the read of the body.
abbrev pub checked_reply : Response → Option (List ℕ) → Reply
checked_reply response body = elim (status_failure response) [
  | some failure ↦ failed failure
  | none ↦ elim body [
    | none ↦ failed (transport_error (pos 0) no_reply_message)
    | some m ↦ message m
  ]
]

unfoldable pub call : Exchange → Reply
call not_built = failed (transport_error (pos 0) building_request)
call not_answered = failed (transport_error (pos 0) round_trip)
call (answered response) =
    if response.status_code == 200
    then (elim (read_unary_body response.body) [
      | fail e ↦ failed (transport_error (pos 0) (wire_defect e))
      | done body ↦ checked_reply response body
    ])
    else failed (transport_error (pos 0) (http_status response.status_code))
