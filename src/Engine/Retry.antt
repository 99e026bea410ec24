-- ===== src/Engine/Retry.antt =====
-- internal/engine/retry_handler.go: the handler of `retry` behind the compiler's checks of the
-- command's form. The checks for a nil context and a nil state are left out: both are there.
pub mod Forms
pub mod Trial
mod Attempts
mod Concluding
mod Rounds
mod Endings
mod Success
mod Parsing
mod Examples
use flowbaton.Prelude.{
  ℕ, zero, suc, ◌+◌, List, [], ◌∷◌, Bool, true, false, not, ◌&&◌, ◌||◌, Option, none, some, ltb,
  leb, ◌==◌, if◌then◌else◌,
}
use flowbaton.Prelude.Int.{ℤ, pos, negsuc}
use flowbaton.Engine.Errors.{classify_terminal_error}
use flowbaton.Engine.Errors.Direct.{Graph, skipped}
use flowbaton.Engine.Composite.{
  Issue, invalid_compiled_payload, invalid_evaluated_payload, invalid_source, above_three,
  attempts_exceeded, Thrown, raised, misconfigured, Result, ok, err, Counter, Command,
  RetryErrorClassification, CommandResult, FlowResult, Insight, no_insight, succeeded_after_retry,
  Effect, Services, thrown, retryable, is_valid_counter, dynamic, missing, fixed, invalid_kind,
  parse_repeat_times, evaluate_counter,
}
use flowbaton.Engine.Retry.Forms.{
  RetryCompiled, RetryEvaluated, is_valid_compiled, is_valid_evaluated, evaluate_retry,
}
use flowbaton.Engine.Retry.Trial.{AttemptResult, is_some, execute_retry_attempt}

module _ {World Child Condition Flow : Type 0}
    (services : Services World Child Condition Flow) where
  -- The error of an attempt, what it is classified by, and the request to pass on an exact error.
  pub record Judgement : Type 0 where
    pub error : Option Thrown
    pub classification : Option Thrown
    pub propagation : Option CommandResult

  unfoldable pub judge : AttemptResult → Judgement
  judge a =
      let plain : Judgement = record {
        error = a.product_error;
        classification = a.product_error;
        propagation = none;
      } in
      elim a.retry_classification [
        | none ↦ plain
        | some c ↦ elim c.classification [
          | none ↦ plain
          | some e ↦ record plain {
            classification = some (raised e);
            propagation = if is_some c.publication then a.exact_error_source else none;
          }
        ]
      ]

  -- A cancellation takes the place of what the attempt gave.
  abbrev pub overruled : Option ℕ → Judgement → Judgement
  overruled none j = j
  overruled (some c) j = record {
    error = some (raised c);
    classification = some (raised c);
    propagation = none;
  }

  -- The loop over the previous results, with the check for a cancellation behind each reset.
  unfoldable pub reset_all : List CommandResult → World → Option ℕ × World
  reset_all [] w = (none, w)
  reset_all (previous ∷ results) w =
      let (failed, w₁) = services.reset_command previous w in
      let (cancelled, w₂) = services.context_error w₁ in
      let (rest, w₃) = reset_all results w₂ in
      elim cancelled [
        | some c ↦ (some c, w₂)
        | none ↦ elim failed [ some e ↦ (some e, w₂) | none ↦ (rest, w₃) ]
      ]

  -- What one round of the loop comes to: the handler returns, or goes round again.
  pub data Turn : Type 0 where
    leave : Effect Child Condition → Option Thrown → Turn
    another : Effect Child Condition → Turn

  abbrev pub with_insight : Judgement → ℕ → Effect Child Condition → Effect Child Condition
  with_insight j attempt effect = elim j.error [
    | none ↦ if ltb 0 attempt then record effect { insight = succeeded_after_retry } else effect
    | some e ↦ effect
  ]

  abbrev pub without_insight : Option ℕ → Effect Child Condition → Effect Child Condition
  without_insight none effect = effect
  without_insight (some c) effect = record effect { insight = no_insight }

  -- The last attempt passes an exact error on instead of the error.
  abbrev pub out_of_retries : Judgement → Thrown → Effect Child Condition → Turn
  out_of_retries j e effect = elim j.propagation [
    | none ↦ leave effect (some e)
    | some source ↦ leave (record effect { exact_error_propagation = some source }) none
  ]

  abbrev pub after_reset : Option ℕ → Effect Child Condition → Turn
  after_reset none effect = another effect
  after_reset (some e) effect = leave effect (some (raised e))

  -- The end of a round, behind the update of the metadata.
  unfoldable pub conclude :
      AttemptResult → Judgement → Option ℕ → Bool → Effect Child Condition → World → Turn × World
  conclude a j metadata_error is_last effect w = elim j.error [
    | none ↦ elim metadata_error [
      | some m ↦ (leave (record effect { insight = no_insight }) (some (raised m)), w)
      | none ↦ (leave effect none, w)
    ]
    | some e ↦ elim metadata_error [
      | some m ↦ (leave effect (some e), w)
      | none ↦
          let (failed, w') = reset_all a.results w in
          if a.direct_skipped || not (retryable services.graph j.classification)
          then (leave effect (some e), w)
          else if is_last
          then (out_of_retries j e effect, w)
          else (after_reset failed effect, w')
    ]
  ]

  -- The body of the loop behind its first check, from the run's count on.
  unfoldable pub retry_attempt :
      RetryEvaluated Flow → ℕ → Effect Child Condition → World → Turn × World
  unfolding conclude execute_retry_attempt judge
  retry_attempt payload attempt effect w =
      let counted : Effect Child Condition = record effect {
        number_of_runs = suc effect.number_of_runs;
      } in
      let (a, w₁) = execute_retry_attempt services effect.evaluated_command payload w in
      let (c₁, w₂) = services.context_error w₁ in
      let j = overruled c₁ (judge a) in
      let told = with_insight j attempt counted in
      let (m, w₃) =
        services.update_command_metadata told.number_of_runs told.evaluated_command told.insight
          w₂ in
      let (c₂, w₄) = services.context_error w₃ in
      conclude a (overruled c₂ j) m (attempt == payload.max_retries) (without_insight c₂ told) w₄

  unfoldable pub retry_round :
      RetryEvaluated Flow → ℕ → Effect Child Condition → World → Turn × World
  unfolding retry_attempt
  retry_round payload attempt effect w =
      let (c, w₁) = services.context_error w in
      elim c [
        | some e ↦ (leave effect (some (raised e)), w₁)
        | none ↦ retry_attempt payload attempt effect w₁
      ]

  pub record Return : Type 0 where
    pub effect : Effect Child Condition
    pub error : Option Thrown
    pub world : World

  abbrev pub returned : Effect Child Condition → Option Thrown → World → Return
  returned effect error w = record { effect = effect; error = error; world = w }

  -- The loop: so many rounds are left before `attempt` exceeds the payload's retries.
  unfoldable pub retry_from : RetryEvaluated Flow → ℕ → ℕ → Effect Child Condition → World → Return
  unfolding retry_round
  retry_from payload zero attempt effect w =
      returned effect (some (misconfigured attempts_exceeded)) w
  retry_from payload (suc left) attempt effect w =
      let (turn, w') = retry_round payload attempt effect w in
      elim turn [
        | leave effect' e ↦ returned effect' e w'
        | another effect' ↦ retry_from payload left (suc attempt) effect' w'
      ]

  abbrev pub initial_effect : Command Child Condition → Effect Child Condition
  initial_effect command = record {
    number_of_runs = 0;
    evaluated_command = command;
    insight = no_insight;
    exact_error_propagation = none;
  }

  -- `executeRetry` on an evaluated payload.
  unfoldable pub execute_evaluated : Command Child Condition → RetryEvaluated Flow → World → Return
  unfolding retry_from is_valid_evaluated
  execute_evaluated command payload w =
      let result = retry_from payload (suc payload.max_retries) 0 (initial_effect command) w in
      if is_valid_evaluated payload
      then result
      else returned (initial_effect command) (some (misconfigured invalid_evaluated_payload)) w

  abbrev run_evaluated : Result (RetryEvaluated Flow) → Command Child Condition → World → Return
  run_evaluated (err e) command w = returned (initial_effect command) (some e) w
  run_evaluated (ok payload) command w = execute_evaluated command payload w

  -- `evaluateRetryForExecution` defers a dynamic counter to `executeRetry`, which takes the
  -- evaluation context first; other counters are evaluated in front of it.
  unfoldable pub execute_retry : Command Child Condition → RetryCompiled Flow → World → Return
  unfolding evaluate_retry execute_evaluated is_valid_compiled
  execute_retry command payload w =
      let (failed, w₁) = services.capture_evaluation_context w in
      let (now, now_command, now_world) = evaluate_retry services command payload w in
      let (later, later_command, later_world) = evaluate_retry services command payload w₁ in
      let deferred : Return = elim failed [
        | some e ↦ returned (initial_effect command) (some (raised e)) w₁
        | none ↦ run_evaluated later later_command later_world
      ] in
      let run : Return = elim payload.counter.kind [
        | dynamic ↦ deferred
        | _ ↦ run_evaluated now now_command now_world
      ] in
      if is_valid_compiled payload
      then run
      else returned (initial_effect command) (some (misconfigured invalid_compiled_payload)) w
