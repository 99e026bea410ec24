-- ===== src/Engine/Retry/Forms.antt =====
-- The payloads of `retry` in internal/engine/retry_handler.go, their validity and evaluateRetry.
use flowbaton.Prelude.{
  ℕ, List, [], ◌∷◌, Bool, true, false, ◌&&◌, Option, none, some, ltb, leb, if◌then◌else◌,
}
use flowbaton.Engine.Composite.{
  invalid_compiled_payload, above_three, misconfigured, Result, ok, err, Counter, Command, Services,
  is_valid_counter, parse_repeat_times, evaluate_counter,
}

abbrev pub retry_command_max_retries : ℕ
retry_command_max_retries = 3

pub data RetrySource : Type 0 where
  linked_source inline_source unknown_source : RetrySource

pub record RetryCompiled (Flow : Type 0) : Type 0 where
  pub source : RetrySource
  pub linked : Option Flow
  pub counter : Counter

pub record RetryEvaluated (Flow : Type 0) : Type 0 where
  pub source : RetrySource
  pub linked : Option Flow
  pub max_retries : ℕ

unfoldable pub is_valid_source : {Flow : Type 0} → RetrySource → Option Flow → Bool
is_valid_source linked_source none = false
is_valid_source linked_source (some flow) = true
is_valid_source inline_source none = true
is_valid_source inline_source (some flow) = false
is_valid_source unknown_source linked = false

abbrev at_most_three : ℕ → Result ℕ
at_most_three n = if ltb retry_command_max_retries n then err (misconfigured above_three) else ok n

abbrev bounded_retries : Result ℕ → Result ℕ
bounded_retries (ok n) = at_most_three n
bounded_retries (err e) = err e

-- `parseRetryMaxRetries`
unfoldable pub parse_retry_max_retries : List ℕ → Result ℕ
unfolding parse_repeat_times
parse_retry_max_retries cs = bounded_retries (parse_repeat_times cs)

abbrev max_retries_field : List ℕ
max_retries_field = b'm' ∷ b'a' ∷ b'x' ∷ b'R' ∷ b'e' ∷ b't' ∷ b'r' ∷ b'i' ∷ b'e' ∷ b's' ∷ []

unfoldable pub is_valid_compiled : {Flow : Type 0} → RetryCompiled Flow → Bool
unfolding is_valid_source is_valid_counter
is_valid_compiled p =
    is_valid_source p.source p.linked && is_valid_counter retry_command_max_retries p.counter

unfoldable pub is_valid_evaluated : {Flow : Type 0} → RetryEvaluated Flow → Bool
unfolding is_valid_source
is_valid_evaluated p =
    is_valid_source p.source p.linked && leb p.max_retries retry_command_max_retries

module _ {World Child Condition Flow : Type 0}
    (services : Services World Child Condition Flow) where
  -- `evaluateRetry`
  unfoldable pub evaluate_retry :
      Command Child Condition
      → RetryCompiled Flow
      → World
      → Result (RetryEvaluated Flow) × Command Child Condition × World
  unfolding is_valid_compiled evaluate_counter parse_retry_max_retries
  evaluate_retry command payload w =
      let (counted, command', w') =
        evaluate_counter services parse_retry_max_retries max_retries_field 1 payload.counter
          command w in
      let result : Result (RetryEvaluated Flow) = elim counted [
        | err e ↦ err e
        | ok n ↦ ok (record { source = payload.source; linked = payload.linked; max_retries = n })
      ] in
      if is_valid_compiled payload
      then (result, command', w')
      else (err (misconfigured invalid_compiled_payload), command, w)
