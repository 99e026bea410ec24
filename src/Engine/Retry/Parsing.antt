-- ===== src/Engine/Retry/Parsing.antt =====
-- The counters of `retry` and `repeat`: parseRepeatTimes and parseRetryMaxRetries of
-- internal/engine/repeat_handler.go and internal/engine/retry_handler.go read what is printed.
use flowbaton.Prelude.{ℕ, ◌^◌, ◌≡◌, refl, List, [], ◌∷◌, All, some, ltb, leb, if◌then◌else◌, arith}
use flowbaton.Decimal.{print_nat, read_nat}
use flowbaton.Decimal.RoundTrip.{IsDigit, all_digits-IsDigit, print_nat-IsDigit, read_nat-print_nat}
use flowbaton.Engine.Composite.{
  not_an_int32, above_three, misconfigured, ok, err, in_31_bits, parse_repeat_times,
}
use flowbaton.Engine.Retry.Forms.{parse_retry_max_retries}

parse_digits :
    (cs : List ℕ) (n : ℕ)
    → All IsDigit cs
    → read_nat cs ≡ some n
    → parse_repeat_times cs ≡ in_31_bits (some n)
unfolding parse_repeat_times read_nat
parse_digits [] n digits e = cc
parse_digits (c ∷ cs) n digits e = rw (all_digits-IsDigit (c ∷ cs) digits, e) refl

-- A number that is printed is read back where it fits an Int32, as the retries only up to three,
-- and is refused otherwise.
pub parse_repeat_times-print_nat :
    (n : ℕ)
    → (parse_repeat_times (print_nat n)
        ≡ (if ltb n (2 ^ 31) then ok n else err (misconfigured not_an_int32)))
      × (parse_retry_max_retries (print_nat n) ≡ (
          if leb n 3
          then ok n
          else if ltb n (2 ^ 31)
          then err (misconfigured above_three)
          else err (misconfigured not_an_int32)))
unfolding parse_retry_max_retries
parse_repeat_times-print_nat n =
    let e : parse_repeat_times (print_nat n) ≡ in_31_bits (some n) =
      parse_digits (print_nat n) n (print_nat-IsDigit n) (read_nat-print_nat n) in
    (e, rw (e, parse_retry_max_retries) (ground arith))
