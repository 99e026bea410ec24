-- ===== src/Engine/Retry/Endings.antt =====
-- What `executeRetry` of internal/engine/retry_handler.go returns.
use flowbaton.Prelude.{ℕ, zero, suc, ◌+◌, ◌≤◌, ◌≡◌, ◌∙◌, ◌≢◌, ap, true, Option, none, some, arith}
use flowbaton.Engine.Composite.{
  Thrown, misconfigured, attempts_exceeded, Command, Effect, Services, thrown,
}
use flowbaton.Engine.Retry.{
  Return, returned, Turn, leave, another, retry_round, retry_from, execute_evaluated,
}
use flowbaton.Engine.Retry.Forms.{
  RetryEvaluated, is_valid_evaluated, inline_source, linked_source, unknown_source,
  retry_command_max_retries,
}
use flowbaton.Engine.Retry.Trial.{
  AttemptResult, execute_retry_attempt, inline_attempt, linked_attempt,
}
use flowbaton.Engine.Retry.Attempts.{after, Attempted, Tried, Ending}
use flowbaton.Engine.Retry.Concluding.{ContextErrors, Outcome}
use flowbaton.Engine.Retry.Rounds.{retry_round-Outcome}

module _ {World Child Condition Flow : Type 0} (services : Services World Child Condition Flow)
    (command : Command Child Condition) (payload : RetryEvaluated Flow) where
  -- A run from `w`: at most `max_retries` attempts that may be mended, then the end.
  abbrev pub Retried : World → Return services → Type 0
  Retried w r =
      (n : ℕ) × (w' : World) × (n ≤ payload.max_retries)
      × Tried services command payload n w w'
      × Ending services command payload n w' r

  go_round :
      (left n : ℕ) (effect : Effect Child Condition) (w : World)
      → Turn services × World
      → Return services
  go_round left n effect w (leave effect' e, w') = returned services effect' e w'
  go_round left n effect w (another effect', w') =
      retry_from services payload left (suc n) effect' w'

  retry_from-suc :
      (left n : ℕ) (effect : Effect Child Condition) (w : World)
      → retry_from services payload (suc left) n effect w
        ≡ go_round left n effect w (retry_round services payload n effect w)
  unfolding retry_from go_round
  retry_from-suc left n effect w = ground arith

  go_round-Retried :
      (left n : ℕ) (w₀ w : World) (t : Turn services × World)
      → n ≤ payload.max_retries
      → Tried services command payload n w₀ w
      → ((w' : World)
          → suc n ≤ payload.max_retries
          → Tried services command payload (suc n) w₀ w'
          → Retried w₀ (
              retry_from services payload left (suc n) (after services command payload (suc n)) w'))
      → Outcome services command payload n w t
      → Retried w₀ (go_round left n (after services command payload n) w t)
  unfolding go_round
  go_round-Retried left n w₀ w (leave effect e, w') low tried next ending =
      (n, w, low, tried, ending)
  go_round-Retried left n w₀ w (another effect, w') low tried next
        (same, more, a, w₁, made, again, reset) =
      rw same (next w' (omega arith) (Tried.more n w₀ w w₁ w' a tried made again reset))

  retry_from-Retried :
      ContextErrors services command payload
      → (left n : ℕ) (w₀ w : World) → n ≤ payload.max_retries
      → left + n ≡ suc payload.max_retries
      → Tried services command payload n w₀ w
      → Retried w₀ (retry_from services payload left n (after services command payload n) w)
  retry_from-Retried calm zero n w₀ w low sum tried = absurd (omega arith)
  retry_from-Retried calm (suc left) n w₀ w low sum tried =
      rw (retry_from-suc left n (after services command payload n) w) (
        go_round-Retried left n w₀ w
          (retry_round services payload n (after services command payload n) w) low tried
          (λ w' low' tried'. retry_from-Retried calm left (suc n) w₀ w' low' (omega arith) tried')
          (retry_round-Outcome services command payload calm n w))

  retried :
      ContextErrors services command payload
      → (w : World) → is_valid_evaluated payload ≡ true
      → Retried w (execute_evaluated services command payload w)
  unfolding execute_evaluated
  retried calm w valid = rw valid (
      retry_from-Retried calm (suc payload.max_retries) 0 w w (omega arith) (omega arith)
        (Tried.start w))

  Ending-runs :
      (n : ℕ) (w : World) (r : Return services)
      → Ending services command payload n w r
      → r.effect.number_of_runs ≤ suc n
  Ending-runs n w r (Ending.cancelled_before c w' e) = omega arith
  Ending-runs n w r (Ending.succeeded a w' made e) = omega arith
  Ending-runs n w r (Ending.not_recorded a m w' made e) = omega arith
  Ending-runs n w r (Ending.cancelled_behind a m c w' made) = omega arith
  Ending-runs n w r (Ending.cancelled_last a c₁ m c w' made) = omega arith
  Ending-runs n w r (Ending.failed_unrecorded a e m w' made failed) = omega arith
  Ending-runs n w r (Ending.failed_for_good a e w' made failed final) = omega arith
  Ending-runs n w r (Ending.out_of_attempts a e w' made failed again end p) = omega arith
  Ending-runs n w r (Ending.passed_on a source w' made again end p) = omega arith
  Ending-runs n w r (Ending.not_reset a e w₁ w' made again more reset) = omega arith

  thrown-raised : (e : Option ℕ) → thrown e ≢ some (misconfigured attempts_exceeded)
  thrown-raised none h = cc
  thrown-raised (some e) h = cc

  attempt-error :
      (w : World)
      → (execute_retry_attempt services command payload w).0.product_error
        ≢ some (misconfigured attempts_exceeded)
  unfolding execute_retry_attempt inline_attempt linked_attempt
  attempt-error w =
      elim payload.source
        as (λ source.
          (execute_retry_attempt services command (record payload { source = source })
            w).0.product_error
          ≢ some (misconfigured attempts_exceeded)) [
            | inline_source ↦ thrown-raised _
            | linked_source ↦
                elim payload.linked
                  as (λ linked.
                    (execute_retry_attempt services command
                      (record payload { source = linked_source; linked = linked })
                      w).0.product_error
                    ≢ some (misconfigured attempts_exceeded)) [
                      | none ↦ (λ h. cc)
                      | some flow ↦ thrown-raised _
                    ]
            | unknown_source ↦ (λ h. cc)
          ]

  Attempted-error :
      (n : ℕ) (w w' : World) (a : AttemptResult) (c₁ m c₂ : Option ℕ) (e : Thrown)
      → Attempted services command payload n w a c₁ m c₂ w'
      → a.product_error ≡ some e
      → some e ≢ some (misconfigured attempts_exceeded)
  Attempted-error n w w' a c₁ m c₂ e made failed h =
      attempt-error made.w₁
        (ap (λ (p : AttemptResult × World). p.0.product_error) made.attempted ∙ failed ∙ h)

  Ending-error :
      (n : ℕ) (w : World) (r : Return services)
      → Ending services command payload n w r
      → r.error ≢ some (misconfigured attempts_exceeded)
  Ending-error n w r (Ending.cancelled_before c w' e) h = cc
  Ending-error n w r (Ending.succeeded a w' made e) h = cc
  Ending-error n w r (Ending.not_recorded a m w' made e) h = cc
  Ending-error n w r (Ending.cancelled_behind a m c w' made) h = cc
  Ending-error n w r (Ending.cancelled_last a c₁ m c w' made) h = cc
  Ending-error n w r (Ending.failed_unrecorded a e m w' made failed) h =
      Attempted-error n w w' a none (some m) none e made failed h
  Ending-error n w r (Ending.failed_for_good a e w' made failed final) h =
      Attempted-error n w w' a none none none e made failed h
  Ending-error n w r (Ending.out_of_attempts a e w' made failed again end p) h =
      Attempted-error n w w' a none none none e made failed h
  Ending-error n w r (Ending.passed_on a source w' made again end p) h = cc
  Ending-error n w r (Ending.not_reset a e w₁ w' made again more reset) h = cc

  max_retries-bounded :
      is_valid_evaluated payload ≡ true → payload.max_retries ≤ retry_command_max_retries
  unfolding is_valid_evaluated
  max_retries-bounded valid = ground arith

  -- On a valid payload, and with a context whose errors are not retryable, the handler makes
  -- attempts one behind the other, each failed one with a retryable error, no skipped command and
  -- all of its results reset without an error, until an attempt or a cancellation ends the run, at
  -- the latest the attempt behind as many retries as the payload has, which are at most three: what
  -- it returns is how such a run ends. It makes at most one run more than retries, and never reaches
  -- the error behind the loop.
  pub execute_evaluated-Retried :
      ContextErrors services command payload
      → (w : World) → is_valid_evaluated payload ≡ true
      → Retried w (execute_evaluated services command payload w)
        × ((execute_evaluated services command payload w).effect.number_of_runs
            ≤ suc payload.max_retries)
        × (payload.max_retries ≤ retry_command_max_retries)
        × ((execute_evaluated services command payload w).error
            ≢ some (misconfigured attempts_exceeded))
  execute_evaluated-Retried calm w valid =
      let (n, w', low, tried, ending) = retried calm w valid in
      (
        (n, w', low, tried, ending),
        omega (arith, Ending-runs n w' _ ending),
        max_retries-bounded valid,
        Ending-error n w' _ ending,
      )
