-- ===== src/Engine/Repeat/Examples.antt =====
-- A `repeat` command of internal/engine/repeat_handler.go whose condition holds twice.
use flowbaton.Prelude.{ℕ, suc, ◌≤◌, ◌≡◌, inl, refl, [], ◌∷◌, true, false, none, some, ltb, arith}
use flowbaton.Engine.Errors.Direct.{other_error, leaf, Graph}
use flowbaton.Engine.Composite.{not_an_object, Command, Services}
use flowbaton.Engine.Repeat.{
  RepeatEvaluated, Return, returned, is_valid_run, execute_times, start_runs, repeat_from,
  repeat_round, check_condition, pause_and_reset, reset_children,
}
use flowbaton.Engine.Repeat.Runs.{after, Ending}
use flowbaton.Engine.Repeat.Endings.{execute_times-Returns}

abbrev no_errors : Graph
no_errors r = record {
  typed_nil = false;
  identity = none;
  error_type = other_error;
  equals = λ target. false;
  matcher = none;
  caster = none;
  unwrap = leaf;
}

-- The world counts the questions of the condition, which says yes twice.
abbrev asking : Services ℕ ℕ ℕ ℕ
asking = record {
  graph = no_errors;
  depth = 0;
  context_error = λ w. (none, w);
  capture_evaluation_context = λ w. (none, w);
  interpolate = λ cs w. (inl cs, w);
  execute_children = λ children w. (([], none), w);
  execute_flow = λ flow w.
      ((record { commands = []; retry_classification = none; exact_error_source = none }, none), w);
  evaluate_condition = λ c w. ((some w, ltb w 2, none), suc w);
  update_command_metadata = λ runs command insight w. (none, w);
  reset_command = λ result w. (none, w);
  wait = some (λ w. (none, w));
}

abbrev command : Command ℕ ℕ
command = record { arguments = not_an_object; children = 1 ∷ []; condition = some 9 }

abbrev five_times : RepeatEvaluated
five_times = record { times = 5; has_condition = true }

-- The third answer ends the loop behind two runs.
twice :
    execute_times asking command five_times 0
    ≡ some (returned asking (after asking command 5 0 2 (some 2)) none 3)
unfolding execute_times is_valid_run start_runs repeat_from repeat_round check_condition
    pause_and_reset reset_children
twice = refl

five_times-valid : is_valid_run five_times command ≡ true
unfolding is_valid_run
five_times-valid = refl

execute_times-Returns_example :
    (r : Return asking) × (execute_times asking command five_times 0 ≡ some r)
    × Ending asking command 5 0 r
    × (r.effect.number_of_runs ≤ 5)
execute_times-Returns_example =
    execute_times-Returns asking command five_times 0 five_times-valid (omega arith)
