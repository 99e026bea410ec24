-- ===== src/Engine/Retry/Examples.antt =====
-- A `retry` command of internal/engine/retry_handler.go whose child fails an assertion once.
use flowbaton.Prelude.{
  ℕ, suc, ◌≤◌, ◌≡◌, ◌≢◌, inl, refl, [], ◌∷◌, true, false, Option, none, some, ltb, if◌then◌else◌,
  arith,
}
use flowbaton.Prelude.Int.{pos}
use flowbaton.Engine.Errors.{
  inspect_node, inspect, inspect_terminal_error, classify_terminal_error, is_retryable,
}
use flowbaton.Engine.Errors.Direct.{assertion_error, leaf, Graph, directly_matches, classify_direct}
use flowbaton.Engine.Composite.{
  raised, misconfigured, attempts_exceeded, not_an_object, Command, CommandResult, Services,
  succeeded_after_retry, retryable, missing, is_valid_counter, evaluate_counter,
}
use flowbaton.Engine.Retry.{
  returned, execute_evaluated, execute_retry, retry_from, retry_round, retry_attempt, conclude,
  reset_all, judge,
}
use flowbaton.Engine.Retry.Forms.{
  retry_command_max_retries, inline_source, RetryCompiled, RetryEvaluated, is_valid_source,
  is_valid_evaluated, is_valid_compiled, evaluate_retry,
}
use flowbaton.Engine.Retry.Trial.{
  AttemptResult, execute_retry_attempt, inline_attempt, immediate_retry_results,
  skipped_retry_result_error, is_command_skipped, inline_retry_classification,
}
use flowbaton.Engine.Retry.Attempts.{after, Attempted, Tried, IsRetryable}
use flowbaton.Engine.Retry.Concluding.{ContextErrors}
use flowbaton.Engine.Retry.Endings.{Retried, execute_evaluated-Retried}
use flowbaton.Engine.Retry.Success.{execute_evaluated-succeeds}

-- Every error is a failed assertion.
abbrev assertions : Graph
assertions r = record {
  typed_nil = false;
  identity = none;
  error_type = assertion_error;
  equals = λ target. false;
  matcher = none;
  caster = none;
  unwrap = leaf;
}

abbrev failure : Option ℕ → CommandResult
failure e = record { sequence = 0; depth = 1; product_error = e; retry_classification = none }

abbrev outcome : ℕ → Option ℕ
outcome w = if ltb w 1 then some 5 else none

-- The world counts the runs of the child.
abbrev once_failing : Services ℕ ℕ ℕ ℕ
once_failing = record {
  graph = assertions;
  depth = 0;
  context_error = λ w. (none, w);
  capture_evaluation_context = λ w. (none, w);
  interpolate = λ cs w. (inl cs, w);
  execute_children = λ children w. ((failure (outcome w) ∷ [], outcome w), suc w);
  execute_flow = λ flow w.
      ((record { commands = []; retry_classification = none; exact_error_source = none }, none), w);
  evaluate_condition = λ c w. ((c, true, none), w);
  update_command_metadata = λ runs command insight w. (none, w);
  reset_command = λ result w. (none, w);
  wait = none;
}

abbrev command : Command ℕ ℕ
command = record { arguments = not_an_object; children = 1 ∷ []; condition = none }

abbrev thrice : RetryEvaluated ℕ
thrice = record { source = inline_source; linked = none; max_retries = 3 }

abbrev once : RetryCompiled ℕ
once = record {
  source = inline_source;
  linked = none;
  counter = record { kind = missing; number = pos 0; expression = [] };
}

-- The second attempt succeeds.
mended :
    execute_evaluated once_failing command thrice 0
    ≡ returned once_failing
        (record (after once_failing command thrice 2) { insight = succeeded_after_retry })
        none
        2
unfolding execute_evaluated is_valid_evaluated is_valid_source retry_from retry_round retry_attempt
    conclude reset_all judge execute_retry_attempt inline_attempt immediate_retry_results
    skipped_retry_result_error is_command_skipped inline_retry_classification retryable is_retryable
    classify_terminal_error inspect_terminal_error inspect inspect_node classify_direct
    directly_matches
mended = refl

-- A single retry is enough, as the command has by default.
by_default :
    execute_retry once_failing command once 0
    ≡ returned once_failing
        (record (after once_failing command thrice 2) { insight = succeeded_after_retry })
        none
        2
unfolding execute_retry evaluate_retry is_valid_compiled is_valid_counter evaluate_counter
    execute_evaluated is_valid_evaluated is_valid_source retry_from retry_round retry_attempt
    conclude reset_all judge execute_retry_attempt inline_attempt immediate_retry_results
    skipped_retry_result_error is_command_skipped inline_retry_classification retryable is_retryable
    classify_terminal_error inspect_terminal_error inspect inspect_node classify_direct
    directly_matches
by_default = refl

never_cancelled : ContextErrors once_failing command thrice
never_cancelled w c e = cc

thrice-valid : is_valid_evaluated thrice ≡ true
unfolding is_valid_evaluated is_valid_source
thrice-valid = refl

abbrev attempt : ℕ → AttemptResult
attempt w = record {
  results = failure (outcome w) ∷ [];
  direct_skipped = false;
  product_error = elim (outcome w) [ none ↦ none | some e ↦ some (raised e) ];
  retry_classification = none;
  exact_error_source = none;
}

made_first : Attempted once_failing command thrice 0 0 (attempt 0) none none none 1
unfolding execute_retry_attempt inline_attempt immediate_retry_results skipped_retry_result_error
    is_command_skipped inline_retry_classification classify_terminal_error inspect_terminal_error
    inspect inspect_node classify_direct directly_matches
made_first = record {
  w₁ = _;
  w₂ = _;
  w₃ = _;
  w₄ = _;
  not_cancelled = refl;
  attempted = refl;
  first_check = refl;
  recorded = refl;
  second_check = refl;
}

made_second : Attempted once_failing command thrice 1 1 (attempt 1) none none none 2
unfolding execute_retry_attempt inline_attempt immediate_retry_results skipped_retry_result_error
    is_command_skipped inline_retry_classification classify_terminal_error inspect_terminal_error
    inspect inspect_node classify_direct directly_matches
made_second = record {
  w₁ = _;
  w₂ = _;
  w₃ = _;
  w₄ = _;
  not_cancelled = refl;
  attempted = refl;
  first_check = refl;
  recorded = refl;
  second_check = refl;
}

mendable : IsRetryable once_failing command thrice (attempt 0)
unfolding judge retryable is_retryable classify_terminal_error inspect_terminal_error inspect
    inspect_node classify_direct directly_matches
mendable = ((λ h. cc), refl, refl)

one_failed : Tried once_failing command thrice 1 0 1
unfolding reset_all
one_failed = Tried.more 0 0 0 1 1 (attempt 0) (Tried.start 0) made_first mendable refl

execute_evaluated-succeeds_example :
    execute_evaluated once_failing command thrice 0
    ≡ returned once_failing
        (record (after once_failing command thrice 2) { insight = succeeded_after_retry })
        none
        2
execute_evaluated-succeeds_example =
    execute_evaluated-succeeds once_failing command thrice 1 0 1 2 (attempt 1) thrice-valid
      (omega arith) one_failed made_second refl

execute_evaluated-Retried_example :
    Retried once_failing command thrice 0 (execute_evaluated once_failing command thrice 0)
    × ((execute_evaluated once_failing command thrice 0).effect.number_of_runs ≤ 4)
    × (3 ≤ retry_command_max_retries)
    × ((execute_evaluated once_failing command thrice 0).error
        ≢ some (misconfigured attempts_exceeded))
execute_evaluated-Retried_example =
    execute_evaluated-Retried once_failing command thrice never_cancelled 0 thrice-valid
