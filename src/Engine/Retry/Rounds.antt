-- ===== src/Engine/Retry/Rounds.antt =====
-- A round of the loop of `executeRetry` in internal/engine/retry_handler.go ends the run or makes one
-- more attempt of it.
use flowbaton.Prelude.{
  ℕ, suc, ◌≡◌, ◌∙◌, ◌≢◌, ap, inl, inr, refl, false, Option, none, some, Option-cases, ◌==◌, arith,
  not, ◌||◌,
}
use flowbaton.Engine.Composite.{raised, Command, Effect, Services, retryable}
use flowbaton.Engine.Retry.{
  judge, overruled, reset_all, Turn, leave, another, without_insight, conclude, retry_attempt,
  retry_round,
}
use flowbaton.Engine.Retry.Forms.{RetryEvaluated}
use flowbaton.Engine.Retry.Trial.{AttemptResult, execute_retry_attempt}
use flowbaton.Engine.Retry.Attempts.{after, insight_after, Attempted, IsRetryable, Ending}
use flowbaton.Engine.Retry.Concluding.{
  Outcome, ContextErrors, judge-error, told, with_insight-told, cancelled-Outcome,
  succeeded-Outcome, failed-Outcome, conclude-again,
}

module _ {World Child Condition Flow : Type 0} (services : Services World Child Condition Flow)
    (command : Command Child Condition) (payload : RetryEvaluated Flow) where
  -- The end of a round, by the cancellations seen in it.
  conclude-Outcome :
      (n : ℕ) (w w' : World) (a : AttemptResult) (c₁ m c₂ : Option ℕ)
      → Attempted services command payload n w a c₁ m c₂ w'
      → ((c : ℕ) → c₁ ≡ some c → retryable services.graph (some (raised c)) ≡ false)
      → ((c : ℕ) → c₂ ≡ some c → retryable services.graph (some (raised c)) ≡ false)
      → Outcome services command payload n w (
          conclude services a
            (overruled services c₂ (overruled services c₁ (judge services a)))
            m
            (n == payload.max_retries)
            (without_insight services c₂ (told services command payload n c₁ a.product_error))
            w')
  conclude-Outcome n w w' a c₁ m (some c) made calm₁ calm₂ =
      cancelled-Outcome services command payload n c w w' a m (calm₂ c refl)
        (Ending.cancelled_last a c₁ m c w' made)
  conclude-Outcome n w w' a (some c) m none made calm₁ calm₂ =
      cancelled-Outcome services command payload n c w w' a m (calm₁ c refl)
        (Ending.cancelled_behind a m c w' made)
  conclude-Outcome n w w' a none m none made calm₁ calm₂ = elim (Option-cases a.product_error) [
    | inl e ↦ succeeded-Outcome services command payload n w w' a m made e
    | inr (e, failed) ↦
        rw (ap (told services command payload n none) failed)
          (failed-Outcome services command payload n w w' a e m made failed)
  ]

  -- The metadata of a round, the check behind it and its end, from what it is told.
  abbrev finish :
      ℕ → AttemptResult → Option ℕ → Effect Child Condition → World → Turn services × World
  finish n a c₁ effect w₃ =
      let (m, w₄) =
        services.update_command_metadata effect.number_of_runs effect.evaluated_command
          effect.insight w₃ in
      let (c₂, w₅) = services.context_error w₄ in
      conclude services a (overruled services c₂ (overruled services c₁ (judge services a))) m
        (n == payload.max_retries) (without_insight services c₂ effect) w₅

  retry_attempt_lem :
      (n : ℕ) (a : AttemptResult) (c₁ : Option ℕ) (w₁ w₂ w₃ : World)
      → execute_retry_attempt services command payload w₁ ≡ (a, w₂)
      → services.context_error w₂ ≡ (c₁, w₃)
      → retry_attempt services payload n (after services command payload n) w₁
        ≡ finish n a c₁ (told services command payload n c₁ a.product_error) w₃
  unfolding retry_attempt
  retry_attempt_lem n a c₁ w₁ w₂ w₃ made checked =
      rw (made, retry_attempt, checked)
        (ap (λ effect. finish n a c₁ effect w₃) (with_insight-told services command payload n c₁ a))

  retry_round-none :
      (n : ℕ) (w w₁ : World) (effect : Effect Child Condition)
      → services.context_error w ≡ (none, w₁)
      → retry_round services payload n effect w ≡ retry_attempt services payload n effect w₁
  unfolding retry_round
  retry_round-none n w w₁ effect e =
      rw (e, retry_round)
        (ap (λ (p : Option ℕ × World). retry_attempt services payload n effect p.1) e)

  retry_round-some :
      (n : ℕ) (w w₁ : World) (c : ℕ) (effect : Effect Child Condition)
      → services.context_error w ≡ (some c, w₁)
      → retry_round services payload n effect w ≡ (leave effect (some (raised c)), w₁)
  unfolding retry_round
  retry_round-some n w w₁ c effect e =
      rw (e, retry_round) (ap (λ (p : Option ℕ × World). (leave effect (some (raised c)), p.1)) e)

  paired : {A : Type 0} (p : A × World) (a : A) → p.0 ≡ a → p ≡ (a, p.1)
  paired p a e = λ i. (e i, p.1)

  pub retry_round-Outcome :
      ContextErrors services command payload
      → (n : ℕ) (w : World)
      → Outcome services command payload n w
          (retry_round services payload n (after services command payload n) w)
  retry_round-Outcome calm n w = elim (Option-cases (services.context_error w).0) [
    | inr (c, e) ↦
        let cancelled = paired (services.context_error w) (some c) e in
        rw (retry_round-some n w _ c (after services command payload n) cancelled)
          (Ending.cancelled_before c _ cancelled)
    | inl e ↦
        let running = paired (services.context_error w) none e in
        rw
          (
            retry_round-none n w _ (after services command payload n) running,
            retry_attempt_lem n _ _ (services.context_error w).1 _ _ refl refl,
          )
          (conclude-Outcome n w _ _ _ _ _
            (record {
              w₁ = _;
              w₂ = _;
              w₃ = _;
              w₄ = _;
              not_cancelled = running;
              attempted = refl;
              first_check = refl;
              recorded = refl;
              second_check = refl;
            })
            (calm _) (calm _))
  ]

  -- A round of an attempt that nothing cancelled is its conclusion.
  retry_round-Attempted :
      (n : ℕ) (w w' : World) (a : AttemptResult)
      → Attempted services command payload n w a none none none w'
      → retry_round services payload n (after services command payload n) w
        ≡ conclude services a
            (judge services a)
            none
            (n == payload.max_retries)
            (told services command payload n none a.product_error)
            w'
  retry_round-Attempted n w w' a made =
      retry_round-none n w made.w₁ (after services command payload n) made.not_cancelled
      ∙ retry_attempt_lem n a none made.w₁ made.w₂ made.w₃ made.attempted made.first_check
      ∙ rw (made.recorded, made.second_check) refl

  pub retry_round-succeeded :
      (n : ℕ) (w w' : World) (a : AttemptResult)
      → Attempted services command payload n w a none none none w'
      → a.product_error ≡ none
      → retry_round services payload n (after services command payload n) w ≡ (
        leave
            (record (after services command payload (suc n)) {
              insight = insight_after services command payload n;
            })
            none,
        w',
      )
  unfolding conclude
  retry_round-succeeded n w w' a made e =
      rw (retry_round-Attempted n w w' a made, judge-error services command payload a, e) refl

  not_last : (n : ℕ) → n ≢ payload.max_retries → (n == payload.max_retries) ≡ false
  not_last n more = ground arith

  goes_again :
      (a : AttemptResult)
      → IsRetryable services command payload a
      → a.direct_skipped || not (retryable services.graph (judge services a).classification) ≡ false
  goes_again a (failed, direct, again) = ground arith

  pub retry_round-again :
      (n : ℕ) (w w₁ w' : World) (a : AttemptResult)
      → Attempted services command payload n w a none none none w₁
      → IsRetryable services command payload a
      → n ≢ payload.max_retries
      → reset_all services a.results w₁ ≡ (none, w')
      → retry_round services payload n (after services command payload n) w
        ≡ (another (after services command payload (suc n)), w')
  retry_round-again n w w₁ w' a made again more reset = elim (Option-cases a.product_error) [
    | inl e ↦ absurd (again.0 e)
    | inr (e, failed) ↦
        retry_round-Attempted n w w₁ a made
        ∙ ap
            (λ x.
              conclude services a (judge services a) none (n == payload.max_retries)
                (told services command payload n none x) w₁)
            failed
        ∙ (rw
            (
              not_last n more,
              conclude-again services command payload a (judge services a) e
                  (after services command payload (suc n)) w₁
                  (judge-error services command payload a ∙ failed) (goes_again a again),
              reset,
            )
            refl)
  ]
