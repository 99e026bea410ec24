-- ===== src/Engine/Retry/Success.antt =====
-- `executeRetry` of internal/engine/retry_handler.go reaches an attempt that succeeds.
use flowbaton.Prelude.{ℕ, zero, suc, ◌-◌, ◌≤◌, ◌≡◌, ◌∙◌, ap, true, none, arith}
use flowbaton.Engine.Composite.{Command, Effect, Services}
use flowbaton.Engine.Retry.{
  returned, Turn, leave, another, retry_round, retry_from, execute_evaluated,
}
use flowbaton.Engine.Retry.Forms.{RetryEvaluated, is_valid_evaluated}
use flowbaton.Engine.Retry.Trial.{AttemptResult}
use flowbaton.Engine.Retry.Attempts.{after, insight_after, Attempted, Tried}
use flowbaton.Engine.Retry.Rounds.{retry_round-succeeded, retry_round-again}

module _ {World Child Condition Flow : Type 0} (services : Services World Child Condition Flow)
    (command : Command Child Condition) (payload : RetryEvaluated Flow) where
  retry_from-leave :
      (left n : ℕ) (effect effect' : Effect Child Condition) (w w' : World)
      → retry_round services payload n effect w ≡ (leave effect' none, w')
      → retry_from services payload (suc left) n effect w ≡ returned services effect' none w'
  unfolding retry_from
  retry_from-leave left n effect effect' w w' e =
      rw (e, retry_from) (ap (λ (p : Turn services × World). returned services effect' none p.1) e)

  retry_from-another :
      (left n : ℕ) (effect effect' : Effect Child Condition) (w w' : World)
      → retry_round services payload n effect w ≡ (another effect', w')
      → retry_from services payload (suc left) n effect w
        ≡ retry_from services payload left (suc n) effect' w'
  unfolding retry_from
  retry_from-another left n effect effect' w w' e =
      rw (e, retry_from)
        (ap (λ (p : Turn services × World). retry_from services payload left (suc n) effect' p.1) e)

  one_less :
      (n : ℕ)
      → suc n ≤ payload.max_retries
      → payload.max_retries - n ≡ suc (payload.max_retries - suc n)
  one_less n low = omega arith

  minus_zero : payload.max_retries ≡ payload.max_retries - 0
  minus_zero = omega arith

  -- The loop is where the failed attempts of a run have led it.
  retry_from-Tried :
      (n : ℕ) (w₀ w : World)
      → n ≤ payload.max_retries
      → Tried services command payload n w₀ w
      → retry_from services payload
          (suc payload.max_retries)
          0
          (after services command payload 0)
          w₀
        ≡ retry_from services payload
            (suc (payload.max_retries - n))
            n
            (after services command payload n)
            w
  retry_from-Tried zero w₀ w low (Tried.start _) =
      ap (λ left. retry_from services payload (suc left) 0 (after services command payload 0) w₀)
        minus_zero
  retry_from-Tried (suc n) w₀ w low (Tried.more _ _ w₁ w₂ _ a tried made again reset) =
      retry_from-Tried n w₀ w₁ (omega arith) tried
      ∙ retry_from-another (payload.max_retries - n) n (after services command payload n)
          (after services command payload (suc n)) w₁ w
          (retry_round-again services command payload n w₁ w₂ w a made again (omega arith) reset)
      ∙ ap
          (λ left.
            retry_from services payload left (suc n) (after services command payload (suc n)) w)
          (one_less n low)

  -- When so many attempts, no more than the payload's retries, have failed in a way that may be
  -- mended and been reset, and the next one meets no error and no cancellation, the handler returns
  -- no error: it made one run more than failed, and says that the command succeeded after a retry
  -- exactly when an attempt had failed.
  pub execute_evaluated-succeeds :
      (n : ℕ) (w₀ w w' : World) (a : AttemptResult)
      → is_valid_evaluated payload ≡ true
      → n ≤ payload.max_retries
      → Tried services command payload n w₀ w
      → Attempted services command payload n w a none none none w'
      → a.product_error ≡ none
      → execute_evaluated services command payload w₀
        ≡ returned services
            (record (after services command payload (suc n)) {
              insight = insight_after services command payload n;
            })
            none
            w'
  unfolding execute_evaluated
  execute_evaluated-succeeds n w₀ w w' a valid low tried made e = rw valid (
      retry_from-Tried n w₀ w low tried
      ∙ retry_from-leave (payload.max_retries - n) n _ _ w w'
          (retry_round-succeeded services command payload n w w' a made e))
