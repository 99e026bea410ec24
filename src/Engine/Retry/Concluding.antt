-- ===== src/Engine/Retry/Concluding.antt =====
-- How a round of the loop of `executeRetry` in internal/engine/retry_handler.go concludes: it ends the
-- run, or one more attempt was made and reset.
use flowbaton.Prelude.{
  ℕ, zero, suc, ◌≡◌, ◌∙◌, ◌≢◌, inl, inr, refl, Bool, true, false, Bool-cases, Option, none, some,
  Option-cases, ◌==◌, arith, not, ◌||◌,
}
use flowbaton.Engine.Composite.{Thrown, raised, Command, CommandResult, Effect, Services, retryable}
use flowbaton.Engine.Retry.{
  Judgement, judge, overruled, reset_all, Turn, leave, another, returned, with_insight,
  out_of_retries, conclude, after_reset,
}
use flowbaton.Engine.Retry.Forms.{RetryEvaluated}
use flowbaton.Engine.Retry.Trial.{AttemptResult}
use flowbaton.Engine.Retry.Attempts.{after, insight_told, Attempted, IsRetryable, Ending}

module _ {World Child Condition Flow : Type 0} (services : Services World Child Condition Flow)
    (command : Command Child Condition) (payload : RetryEvaluated Flow) where
  -- `ctx.Err()` answers with a cancellation or a deadline, which no retry mends.
  abbrev pub ContextErrors : Type 0
  ContextErrors =
      (w : World) (c : ℕ)
      → (services.context_error w).0 ≡ some c
      → retryable services.graph (some (raised c)) ≡ false

  -- The handler returns, or one more attempt was made and reset.
  abbrev pub Outcome : ℕ → World → Turn services × World → Type 0
  Outcome n w (leave effect e, w') =
      Ending services command payload n w (returned services effect e w')
  Outcome n w (another effect, w') =
      (effect ≡ after services command payload (suc n))
      × (n ≢ payload.max_retries)
      × (a : AttemptResult) × (w₁ : World) × Attempted services command payload n w a none none none
          w₁
      × IsRetryable services command payload a
      × (reset_all services a.results w₁ ≡ (none, w'))

  pub judge-error : (a : AttemptResult) → (judge services a).error ≡ a.product_error
  unfolding judge
  judge-error a = ground arith

  -- The effect that the metadata is told.
  abbrev pub told : ℕ → Option ℕ → Option Thrown → Effect Child Condition
  told n c e = record (after services command payload (suc n)) {
    insight = insight_told services command payload n c e;
  }

  pub with_insight-told :
      (n : ℕ) (c : Option ℕ) (a : AttemptResult)
      → with_insight services
          (overruled services c (judge services a))
          n
          (after services command payload (suc n))
        ≡ told n c a.product_error
  with_insight-told n (some c) a = refl
  with_insight-told zero none a = elim (Option-cases a.product_error) [
    | inl e ↦ rw (judge-error a, e) refl
    | inr (x, e) ↦ rw (judge-error a, e) refl
  ]
  with_insight-told (suc n) none a = elim (Option-cases a.product_error) [
    | inl e ↦ rw (judge-error a, e) (ground arith)
    | inr (x, e) ↦ rw (judge-error a, e) refl
  ]

  pub cancelled-Outcome :
      (n c : ℕ) (w w' : World) (a : AttemptResult) (m : Option ℕ)
      → retryable services.graph (some (raised c)) ≡ false
      → Ending services command payload n w
          (returned services (after services command payload (suc n)) (some (raised c)) w')
      → Outcome n w (
          conclude services a
            (overruled services (some c) (judge services a))
            m
            (n == payload.max_retries)
            (after services command payload (suc n))
            w')
  unfolding conclude
  cancelled-Outcome n c w w' a (some m) calm ending = ending
  cancelled-Outcome n c w w' a none calm ending = elim (Bool-cases a.direct_skipped) [
    | inl e ↦ rw e ending
    | inr e ↦ rw (e, calm) ending
  ]

  pub succeeded-Outcome :
      (n : ℕ) (w w' : World) (a : AttemptResult) (m : Option ℕ)
      → Attempted services command payload n w a none m none w'
      → a.product_error ≡ none
      → Outcome n w (
          conclude services a
            (judge services a)
            m
            (n == payload.max_retries)
            (told n none a.product_error)
            w')
  unfolding conclude
  succeeded-Outcome n w w' a none made e = rw (judge-error a, e) (Ending.succeeded a w' made e)
  succeeded-Outcome n w w' a (some m) made e =
      rw (judge-error a, e) (Ending.not_recorded a m w' made e)

  last-Outcome :
      (n : ℕ) (w w' : World) (a : AttemptResult) (e : Thrown) (p : Option CommandResult)
      → Attempted services command payload n w a none none none w'
      → a.product_error ≡ some e
      → IsRetryable services command payload a
      → n ≡ payload.max_retries
      → (judge services a).propagation ≡ p
      → Outcome n w (
        elim p [
          | none ↦ leave (after services command payload (suc n)) (some e)
          | some source ↦
              leave
                (record (after services command payload (suc n)) {
                  exact_error_propagation = some source;
                })
                none
        ],
        w',
      )
  last-Outcome n w w' a e none made failed again end p =
      Ending.out_of_attempts a e w' made failed again end p
  last-Outcome n w w' a e (some source) made failed again end p =
      Ending.passed_on a source w' made again end p

  reset-Outcome :
      (n : ℕ) (w w₁ w' : World) (a : AttemptResult) (r : Option ℕ)
      → Attempted services command payload n w a none none none w₁
      → IsRetryable services command payload a
      → n ≢ payload.max_retries
      → reset_all services a.results w₁ ≡ (r, w')
      → Outcome n w (after_reset services r (after services command payload (suc n)), w')
  reset-Outcome n w w₁ w' a none made again more r = (refl, more, a, w₁, made, again, r)
  reset-Outcome n w w₁ w' a (some e) made again more r =
      Ending.not_reset a e w₁ w' made again more r

  conclude-unrecorded :
      (a : AttemptResult) (j : Judgement services) (e : Thrown) (m : ℕ) (is_last : Bool)
      (effect : Effect Child Condition) (w : World)
      → j.error ≡ some e
      → conclude services a j (some m) is_last effect w ≡ (leave effect (some e), w)
  unfolding conclude
  conclude-unrecorded a j e m is_last effect w failed = ground arith

  conclude-final :
      (a : AttemptResult) (j : Judgement services) (e : Thrown) (is_last : Bool)
      (effect : Effect Child Condition) (w : World)
      → j.error ≡ some e
      → a.direct_skipped || not (retryable services.graph j.classification) ≡ true
      → conclude services a j none is_last effect w ≡ (leave effect (some e), w)
  unfolding conclude
  conclude-final a j e is_last effect w failed final = ground arith

  conclude-last :
      (a : AttemptResult) (j : Judgement services) (e : Thrown) (effect : Effect Child Condition)
      (w : World)
      → j.error ≡ some e
      → a.direct_skipped || not (retryable services.graph j.classification) ≡ false
      → conclude services a j none true effect w ≡ (out_of_retries services j e effect, w)
  unfolding conclude
  conclude-last a j e effect w failed again = ground arith

  pub conclude-again :
      (a : AttemptResult) (j : Judgement services) (e : Thrown) (effect : Effect Child Condition)
      (w : World)
      → j.error ≡ some e
      → a.direct_skipped || not (retryable services.graph j.classification) ≡ false
      → conclude services a j none false effect w ≡ (
        after_reset services (reset_all services a.results w).0 effect,
        (reset_all services a.results w).1,
      )
  unfolding conclude
  conclude-again a j e effect w failed again = ground arith

  failed_again :
      (a : AttemptResult) (e : Thrown)
      → a.product_error ≡ some e
      → a.direct_skipped || not (retryable services.graph (judge services a).classification) ≡ false
      → IsRetryable services command payload a
  failed_again a e failed again = (λ nothing. cc, ground arith, ground arith)

  pub failed-Outcome :
      (n : ℕ) (w w' : World) (a : AttemptResult) (e : Thrown) (m : Option ℕ)
      → Attempted services command payload n w a none m none w'
      → a.product_error ≡ some e
      → Outcome n w (
          conclude services a
            (judge services a)
            m
            (n == payload.max_retries)
            (after services command payload (suc n))
            w')
  failed-Outcome n w w' a e (some m) made failed =
      rw
        (conclude-unrecorded a (judge services a) e m (n == payload.max_retries)
          (after services command payload (suc n)) w' (judge-error a ∙ failed))
        (Ending.failed_unrecorded a e m w' made failed)
  failed-Outcome n w w' a e none made failed =
      elim (Bool-cases
        (a.direct_skipped || not (retryable services.graph (judge services a).classification))) [
          | inl final ↦
              rw
                (conclude-final a (judge services a) e (n == payload.max_retries)
                  (after services command payload (suc n)) w' (judge-error a ∙ failed) final)
                (Ending.failed_for_good a e w' made failed final)
          | inr again ↦ elim (Bool-cases (n == payload.max_retries)) [
            | inl end ↦
                rw
                  (
                    end,
                    conclude-last a (judge services a) e (after services command payload (suc n)) w'
                        (judge-error a ∙ failed) again,
                  )
                  (last-Outcome n w w' a e ((judge services a).propagation) made failed
                    (failed_again a e failed again) (ground arith) refl)
            | inr more ↦
                rw
                  (
                    more,
                    conclude-again a (judge services a) e (after services command payload (suc n))
                        w' (judge-error a ∙ failed) again,
                  )
                  (reset-Outcome n w w' _ a _ made (failed_again a e failed again) (ground arith)
                    refl)
          ]
        ]
