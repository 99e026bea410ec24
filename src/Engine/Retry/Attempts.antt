-- ===== src/Engine/Retry/Attempts.antt =====
-- The attempts of `executeRetry` in internal/engine/retry_handler.go as a relation on worlds.
use flowbaton.Prelude.{ℕ, zero, suc, ◌≡◌, ◌≢◌, true, false, Option, none, some, not, ◌||◌}
use flowbaton.Engine.Composite.{
  Thrown, raised, Command, CommandResult, Insight, no_insight, succeeded_after_retry, Effect,
  Services, retryable,
}
use flowbaton.Engine.Retry.{judge, reset_all, Return, returned}
use flowbaton.Engine.Retry.Forms.{RetryEvaluated}
use flowbaton.Engine.Retry.Trial.{AttemptResult, execute_retry_attempt}

module _ {World Child Condition Flow : Type 0} (services : Services World Child Condition Flow)
    (command : Command Child Condition) (payload : RetryEvaluated Flow) where
  -- The effect behind so many runs, as long as nothing else is set.
  abbrev pub after : ℕ → Effect Child Condition
  after n = record {
    number_of_runs = n;
    evaluated_command = command;
    insight = no_insight;
    exact_error_propagation = none;
  }

  abbrev pub insight_after : ℕ → Insight
  insight_after zero = no_insight
  insight_after (suc n) = succeeded_after_retry

  -- What the metadata is told behind `n` failed attempts and one more.
  abbrev pub insight_told : ℕ → Option ℕ → Option Thrown → Insight
  insight_told n (some c) e = no_insight
  insight_told n none (some e) = no_insight
  insight_told n none none = insight_after n

  -- An attempt behind `n` others, the cancellations in front of and behind the update of the
  -- metadata, and the error of that update.
  pub record Attempted (n : ℕ) (w : World) (a : AttemptResult) (c₁ m c₂ : Option ℕ) (w' : World)
      : Type 0 where
    pub w₁ : World
    pub w₂ : World
    pub w₃ : World
    pub w₄ : World
    pub not_cancelled : services.context_error w ≡ (none, w₁)
    pub attempted : execute_retry_attempt services command payload w₁ ≡ (a, w₂)
    pub first_check : services.context_error w₂ ≡ (c₁, w₃)
    pub recorded :
        services.update_command_metadata (suc n) command (insight_told n c₁ a.product_error) w₃
        ≡ (m, w₄)
    pub second_check : services.context_error w₄ ≡ (c₂, w')

  -- The attempt failed in a way that another one may mend.
  abbrev pub IsRetryable : AttemptResult → Type 0
  IsRetryable a =
      (a.product_error ≢ none)
      × (a.direct_skipped ≡ false)
      × (retryable services.graph (judge services a).classification ≡ true)

  -- `n` attempts failed and may be mended, and the results of each were reset.
  pub data Tried : ℕ → World → World → Type 0 where
    start : (w : World) → Tried zero w w
    more :
        (n : ℕ) (w w₁ w₂ w₃ : World) (a : AttemptResult)
        → Tried n w w₁
        → Attempted n w₁ a none none none w₂
        → IsRetryable a
        → reset_all services a.results w₂ ≡ (none, w₃)
        → Tried (suc n) w w₃

  -- How the handler leaves a world in which `n` attempts have been made.
  pub data Ending (n : ℕ) (w : World) : Return services → Type 0 where
    cancelled_before :
        (c : ℕ) (w' : World)
        → services.context_error w ≡ (some c, w')
        → Ending n w (returned services (after n) (some (raised c)) w')
    succeeded :
        (a : AttemptResult) (w' : World)
        → Attempted n w a none none none w'
        → a.product_error ≡ none
        → Ending n w
            (returned services (record (after (suc n)) { insight = insight_after n }) none w')
    not_recorded :
        (a : AttemptResult) (m : ℕ) (w' : World)
        → Attempted n w a none (some m) none w'
        → a.product_error ≡ none
        → Ending n w (returned services (after (suc n)) (some (raised m)) w')
    cancelled_behind :
        (a : AttemptResult) (m : Option ℕ) (c : ℕ) (w' : World)
        → Attempted n w a (some c) m none w'
        → Ending n w (returned services (after (suc n)) (some (raised c)) w')
    cancelled_last :
        (a : AttemptResult) (c₁ m : Option ℕ) (c : ℕ) (w' : World)
        → Attempted n w a c₁ m (some c) w'
        → Ending n w (returned services (after (suc n)) (some (raised c)) w')
    failed_unrecorded :
        (a : AttemptResult) (e : Thrown) (m : ℕ) (w' : World)
        → Attempted n w a none (some m) none w'
        → a.product_error ≡ some e
        → Ending n w (returned services (after (suc n)) (some e) w')
    failed_for_good :
        (a : AttemptResult) (e : Thrown) (w' : World)
        → Attempted n w a none none none w'
        → a.product_error ≡ some e
        → ((a.direct_skipped || not (retryable services.graph (judge services a).classification))
            ≡ true)
        → Ending n w (returned services (after (suc n)) (some e) w')
    out_of_attempts :
        (a : AttemptResult) (e : Thrown) (w' : World)
        → Attempted n w a none none none w'
        → a.product_error ≡ some e
        → IsRetryable a
        → n ≡ payload.max_retries
        → (judge services a).propagation ≡ none
        → Ending n w (returned services (after (suc n)) (some e) w')
    passed_on :
        (a : AttemptResult) (source : CommandResult) (w' : World)
        → Attempted n w a none none none w'
        → IsRetryable a
        → n ≡ payload.max_retries
        → (judge services a).propagation ≡ some source
        → Ending n w (
            returned services
              (record (after (suc n)) { exact_error_propagation = some source })
              none
              w')
    not_reset :
        (a : AttemptResult) (e : ℕ) (w₁ w' : World)
        → Attempted n w a none none none w₁
        → IsRetryable a
        → n ≢ payload.max_retries
        → reset_all services a.results w₁ ≡ (some e, w')
        → Ending n w (returned services (after (suc n)) (some (raised e)) w')
