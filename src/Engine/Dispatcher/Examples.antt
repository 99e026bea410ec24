-- ===== src/Engine/Dispatcher/Examples.antt =====
-- Tests of internal/engine/dispatcher.go, and its theorem at a concrete effect.
use flowbaton.Prelude.{ℕ, ◌+◌, ◌≡◌, refl, [], Bool, true, false, none, some, ◌==◌}
use flowbaton.Prelude.Int.{pos}
use flowbaton.Engine.Errors.{
  inspect, inspect_node, normalize_terminal_error, sanitize_malformed_error,
}
use flowbaton.Engine.Errors.Direct.{classify_direct, Graph, operation_error, leaf}
use flowbaton.Engine.Ledger.{new_ledger}
use flowbaton.Engine.Dispatcher.{
  Errors, device_mutation, no_settle, press_key_publication, service_none, HandlerSpec,
  CommandEffect, finalize_exact_error_request, press_key, unauthorized_publication,
}
use flowbaton.Engine.Dispatcher.Finalized.{Finalized}
use flowbaton.Engine.Dispatcher.Exact.{finalize_exact_error_request-Finalized}

-- Every reference is an OperationError of its own.
abbrev operations : Graph
operations r = record {
  typed_nil = false;
  identity = some r;
  error_type = operation_error;
  equals = λ target. false;
  matcher = none;
  caster = none;
  unwrap = leaf;
}

abbrev run_errors : Errors
run_errors = record {
  graph = operations;
  configuration_error = λ complaint. 1;
  operation_error = λ e. e + 1000;
}

abbrev press_key_spec : HandlerSpec
press_key_spec = record {
  keyword = press_key;
  effect_class = device_mutation;
  post_action = no_settle;
  has_settle_request = false;
  exact_error_policy = press_key_publication;
  required_service = service_none;
  has_compiler = true;
  has_evaluator = true;
  has_executor = true;
}

abbrev asking : CommandEffect ℕ ℕ
asking = record {
  effect_class = device_mutation;
  exact_error_request = some (some 40);
  exact_error_propagation = none;
  exact_error_disposition = none;
  number_of_runs = pos 0;
  number_of_runs_set = false;
  evaluated_command = none;
  log_messages = [];
  insight = "";
  ai_reasoning = "";
  finalized_artifacts = [];
  artifact_writes = [];
}

abbrev equal : ℕ → ℕ → Bool
equal a b = a == b

published_as_asked :
    (finalize_exact_error_request run_errors equal new_ledger press_key_spec asking none).1
    ≡ some 40
unfolding finalize_exact_error_request normalize_terminal_error sanitize_malformed_error inspect
    inspect_node classify_direct
published_as_asked = refl

not_of_another_handler :
    (finalize_exact_error_request run_errors equal new_ledger
      (record press_key_spec { keyword = "tapOn" })
      asking
      none).1
    ≡ some (run_errors.configuration_error unauthorized_publication)
unfolding finalize_exact_error_request
not_of_another_handler = refl

finalize_exact_error_request_example :
    Finalized run_errors equal new_ledger press_key_spec asking none
      (finalize_exact_error_request run_errors equal new_ledger press_key_spec asking none).0
      (finalize_exact_error_request run_errors equal new_ledger press_key_spec asking none).1
finalize_exact_error_request_example =
    finalize_exact_error_request-Finalized run_errors equal new_ledger press_key_spec asking none
