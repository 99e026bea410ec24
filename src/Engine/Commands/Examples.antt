-- ===== src/Engine/Commands/Examples.antt =====
-- Tests of sameCommandSnapshot of internal/engine/result_ledger.go, and the ledger on commands.
use flowbaton.Prelude.{
  ℕ, ◌≡◌, refl, [], ◌∷◌, Bool, true, false, none, some, ◌==◌, not, ◌&&◌, if◌then◌else◌,
}
use flowbaton.Prelude.Int.{pos}
use flowbaton.Engine.Results.{
  completed, CommandResult, same_option, same_map, same_command_result, same_stored_error,
}
use flowbaton.Engine.Commands.{
  SourceInfo, some_selector, no_selector, selector, no_more, Command, command, plain, config_value,
  config, no_commands, next_command, equivalent,
}
use flowbaton.Engine.Commands.Origin.{same_command_snapshot}
use flowbaton.Engine.Commands.Plain.{PlainCommand, PlainOptional}
use flowbaton.Engine.Ledger.{new_ledger, record_result, result_of}
use flowbaton.Engine.Ledger.Readable.{IsKeyedCommand, result_of-record_accepted}

-- Facts are numbers, of which 13 holds a NaN.
abbrev deep_equal : ℕ → ℕ → Bool
deep_equal f g = f == g && not (f == 13)

abbrev source_at : ℕ → SourceInfo
source_at line = record {
  path = "login.yaml";
  start = record { line = pos line; column = pos 1; offset = pos 0 };
  end = record { line = pos line; column = pos 9; offset = pos 8 };
}

-- A command of one line with an element to find, which stands in another one, and with these
-- arguments.
abbrev line_of : ℕ → ℕ → Command ℕ
line_of line arguments =
    command 1 (source_at line)
      (some_selector (
        selector 2 (source_at line) (some (("text", source_at line) ∷ [])) no_selector no_selector
          no_selector no_selector no_selector
          (some_selector (
            selector 3 (source_at line) none no_selector no_selector no_selector no_selector
              no_selector no_selector no_more))
          no_more))
      none (plain arguments) no_commands []

abbrev configuration_at : ℕ → Command ℕ
configuration_at line =
    command 4 (source_at 1) no_selector none
      (config_value
        (config 5 (source_at 1) none (next_command (line_of line 6) no_commands) no_commands))
      no_commands []

one_line : same_command_snapshot deep_equal (line_of 2 6) (line_of 2 6) ≡ true
unfolding same_command_snapshot same_map
one_line = refl

two_lines : same_command_snapshot deep_equal (line_of 2 6) (line_of 3 6) ≡ false
unfolding same_command_snapshot
two_lines = refl

two_lines_are_equivalent : equivalent deep_equal (line_of 2 6) (line_of 3 6) ≡ true
unfolding equivalent
two_lines_are_equivalent = refl

hook_has_moved : same_command_snapshot deep_equal (configuration_at 2) (configuration_at 3) ≡ false
unfolding same_command_snapshot
hook_has_moved = refl

abbrev result_with : ℕ → CommandResult (Command ℕ)
result_with arguments = record {
  identity = some 50;
  root_run_id = "run";
  sequence = 1;
  depth = pos 0;
  command = line_of 2 arguments;
  outcome = completed;
  product_error = none;
  retry_classification = none;
  started_at = 10;
  finished_at = 12;
  duration = pos 2;
  metadata = record {
    number_of_runs = pos 0;
    number_of_runs_set = false;
    evaluated_command = some (configuration_at 2);
    log_messages = none;
    insight = "";
    ai_reasoning = "";
  };
  artifacts = none;
}

line_of-IsKeyedCommand : (line arguments : ℕ) → IsKeyedCommand (line_of line arguments)
unfolding PlainCommand PlainOptional
line_of-IsKeyedCommand line arguments = (
  (
    refl,
    ((refl, (refl, tt)), (tt, tt, tt), (tt, tt, ((refl, tt), (tt, tt, tt), (tt, tt, tt), tt)), tt),
    tt,
  ),
  (refl, tt, tt),
)

configuration_at_2-IsKeyedCommand : IsKeyedCommand (configuration_at 2)
unfolding PlainCommand PlainOptional
configuration_at_2-IsKeyedCommand =
    ((refl, tt, tt), (((refl, tt), ((line_of-IsKeyedCommand 2 6, tt), tt)), tt, tt))

result_of-record_accepted_example :
    result_of (same_command_snapshot deep_equal) (record_result (result_with 13) new_ledger).1 1 ≡ (
      if equivalent deep_equal (line_of 2 13) (line_of 2 13)
        && same_option
            (equivalent deep_equal)
            (some (configuration_at 2))
            (some (configuration_at 2))
      then some (result_with 13)
      else none)
result_of-record_accepted_example =
    result_of-record_accepted deep_equal (result_with 13) new_ledger refl
      (line_of-IsKeyedCommand 2 13) configuration_at_2-IsKeyedCommand tt (tt, tt)

readable :
    result_of (same_command_snapshot deep_equal) (record_result (result_with 6) new_ledger).1 1
    ≡ some (result_with 6)
unfolding result_of record_result same_command_snapshot same_command_result same_stored_error
readable = refl

lost_with_its_nan :
    result_of (same_command_snapshot deep_equal) (record_result (result_with 13) new_ledger).1 1
    ≡ none
unfolding result_of record_result same_command_snapshot same_command_result
lost_with_its_nan = refl
