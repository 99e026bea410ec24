-- ===== src/Engine/Failures/Examples.antt =====
-- Small roots as internal/engine/failure_policy.go and internal/engine/flow_executor.go run them.
use flowbaton.Prelude.{
  ℕ, ◌+◌, ◌≡◌, refl, List, [], ◌∷◌, true, false, Option, none, some, ◌==◌, if◌then◌else◌,
}
use flowbaton.Engine.Errors.{
  nil, inspect_node, inspect, inspect_terminal_error, classify_terminal_error,
  sanitize_malformed_error,
}
use flowbaton.Engine.Errors.Direct.{
  device_connection_error, assertion_error, leaf, Graph, directly_matches, classify_direct,
}
use flowbaton.Engine.Failures.{
  Execution, passed, failed, entered, go_on, Core, RootFlow, root_precedence, add,
  resolver_bypassed, resolver_continues, sequence_from, execute_root_sequence, run_body,
  run_completion, run_in_scope, enter_and_run, run_root,
}
use flowbaton.Engine.Failures.Sequence.{Runs}
use flowbaton.Engine.Failures.Worst.{Reported, execute_root_sequence-Runs}
use flowbaton.Engine.Failures.Root.{Succeeded, run_root-Succeeded}

-- The error 2 is a lost device, every other one a failed assertion.
abbrev errors : Graph
errors r = record {
  typed_nil = false;
  identity = none;
  error_type = if r == 2 then device_connection_error else assertion_error;
  equals = λ target. false;
  matcher = none;
  caster = none;
  unwrap = leaf;
}

abbrev answer : Option ℕ → ℕ → Execution ℕ ℕ
answer none s = passed s (s + 1)
answer (some e) s = failed s e (s + 1)

-- A command is the error that it fails with; the state counts the commands.
abbrev counting : Core ℕ (Option ℕ) ℕ
counting = record {
  graph = errors;
  integrity_lost = λ e. false;
  execute = answer;
  rejection = 9;
  resolve = some (λ r s. (go_on, s));
  context_error = λ s. none;
  enter = entered;
  close_scope = λ s. (none, s);
  close_session = λ s. (none, s);
}

abbrev commands : List (Option ℕ)
commands = some 1 ∷ none ∷ some 2 ∷ some 3 ∷ []

-- The run goes on behind the assertion and stops at the lost device, which is its failure.
stopped :
    execute_root_sequence counting commands 0 ≡ (record { failure = some 2; halted = true }, 3)
unfolding execute_root_sequence sequence_from add root_precedence resolver_bypassed
    resolver_continues classify_terminal_error inspect_terminal_error inspect inspect_node
    classify_direct directly_matches
stopped = refl

execute_root_sequence_example :
    (es : List ℕ) × Runs counting commands 0 es
      ((execute_root_sequence counting commands 0).0).halted
      (execute_root_sequence counting commands 0).1
    × Reported counting es ((execute_root_sequence counting commands 0).0).failure
execute_root_sequence_example = execute_root_sequence-Runs counting commands 0

abbrev quiet : RootFlow (Option ℕ)
quiet = record { on_start = none ∷ []; body = none ∷ none ∷ []; on_complete = none ∷ [] }

quiet_ends : (run_root counting quiet 0).0 ≡ nil
unfolding run_root enter_and_run run_in_scope run_body run_completion execute_root_sequence
    sequence_from add sanitize_malformed_error
quiet_ends = refl

run_root_example : Succeeded counting quiet 0 ((run_root counting quiet 0).1)
run_root_example = run_root-Succeeded counting quiet 0 quiet_ends
