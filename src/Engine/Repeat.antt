-- ===== src/Engine/Repeat.antt =====
-- internal/engine/repeat_handler.go: the handler of `repeat` behind the compiler's checks of the
-- command's form. The checks for a nil context and a nil state are left out: both are there.
mod Runs
mod Rounds
mod Endings
mod Examples
use flowbaton.Prelude.{
  ℕ, zero, suc, List, [], ◌∷◌, Bool, true, false, not, ◌&&◌, ◌||◌, Option, none, some, leb, ◌==◌,
  if◌then◌else◌,
}
use flowbaton.Engine.Composite.{
  Issue, invalid_compiled_payload, invalid_evaluated_payload, clock_unavailable, Thrown, raised,
  misconfigured, Result, ok, err, Counter, Command, CommandResult, no_insight, Effect, Services,
  thrown, is_valid_counter, dynamic, parse_repeat_times, evaluate_counter,
}

abbrev pub max_int32 : ℕ
max_int32 = 2_147_483_647

pub record RepeatCompiled : Type 0 where
  pub counter : Counter
  pub has_condition : Bool

pub record RepeatEvaluated : Type 0 where
  pub times : ℕ
  pub has_condition : Bool

abbrev times_field : List ℕ
times_field = b't' ∷ b'i' ∷ b'm' ∷ b'e' ∷ b's' ∷ []

-- `repeatCompiled.valid`
unfoldable pub is_valid_repeat : RepeatCompiled → Bool
unfolding is_valid_counter
is_valid_repeat p = is_valid_counter max_int32 p.counter

abbrev has : {A : Type 0} → Option A → Bool
has none = false
has (some a) = true

abbrev same : Bool → Bool → Bool
same true b = b
same false b = not b

unfoldable pub is_valid_run :
    {Child Condition : Type 0} → RepeatEvaluated → Command Child Condition → Bool
is_valid_run p command = leb p.times max_int32 && same p.has_condition (has command.condition)

module _ {World Child Condition Flow : Type 0}
    (services : Services World Child Condition Flow) where
  -- What one round of the loop comes to: the handler returns, or goes round again.
  pub data Round : Type 0 where
    done : Effect Child Condition → Option Thrown → Round
    next : Effect Child Condition → Round

  -- The loop over the children's results.
  unfoldable pub reset_children : List CommandResult → World → Option ℕ × World
  reset_children [] w = (none, w)
  reset_children (child ∷ children) w =
      let (failed, w₁) = services.reset_command child w in
      let (rest, w₂) = reset_children children w₁ in
      elim failed [ some e ↦ (some e, w₁) | none ↦ (rest, w₂) ]

  abbrev pub evaluated_with : Option Condition → Effect Child Condition → Effect Child Condition
  evaluated_with condition effect = record effect {
    evaluated_command = record effect.evaluated_command { condition = condition };
  }

  abbrev pub after_resets : Option ℕ → Effect Child Condition → Round
  after_resets none effect = next effect
  after_resets (some e) effect = done effect (some (raised e))

  -- The delay between two runs, the check for a cancellation and the resets.
  unfoldable pub pause_and_reset :
      List CommandResult → Effect Child Condition → World → Round × World
  unfolding reset_children
  pause_and_reset children effect w = elim services.wait [
    | none ↦ (done effect (some (misconfigured clock_unavailable)), w)
    | some wait ↦
        let (interrupted, w₁) = wait w in
        let (cancelled, w₂) = services.context_error w₁ in
        let (failed, w₃) = reset_children children w₂ in
        elim interrupted [
          | some e ↦ (done effect (some (raised e)), w₁)
          | none ↦ elim cancelled [
            | some c ↦ (done effect (some (raised c)), w₂)
            | none ↦ (after_resets failed effect, w₃)
          ]
        ]
  ]

  -- The condition in front of a run, on the source that it had at the start.
  unfoldable pub check_condition :
      Option Condition → List CommandResult → Effect Child Condition → World → Round × World
  unfolding pause_and_reset
  check_condition source children effect w =
      let ((condition, should_run, failed), w₁) = services.evaluate_condition source w in
      let effect' = evaluated_with condition effect in
      elim failed [
        | some e ↦ (done effect' (some (raised e)), w₁)
        | none ↦ if should_run then pause_and_reset children effect' w₁ else (done effect' none, w₁)
      ]

  unfoldable pub repeat_round :
      ℕ → Option Condition → Effect Child Condition → World → Round × World
  unfolding check_condition
  repeat_round times source effect w =
      let counted : Effect Child Condition = record effect {
        number_of_runs = suc effect.number_of_runs;
      } in
      let ((children, failed), w₁) =
        services.execute_children effect.evaluated_command.children w in
      let (unrecorded, w₂) =
        services.update_command_metadata counted.number_of_runs counted.evaluated_command no_insight
          w₁ in
      elim failed [
        | some e ↦ (done counted (some (raised e)), w₂)
        | none ↦ elim unrecorded [
          | some m ↦ (done counted (some (raised m)), w₂)
          | none ↦
              if leb times counted.number_of_runs
              then (done counted none, w₂)
              else check_condition source children counted w₂
        ]
      ]

  pub record Return : Type 0 where
    pub effect : Effect Child Condition
    pub error : Option Thrown
    pub world : World

  abbrev pub returned : Effect Child Condition → Option Thrown → World → Return
  returned effect error w = record { effect = effect; error = error; world = w }

  -- The endless loop, on fuel: `none` when it is used up.
  unfoldable pub repeat_from :
      ℕ → ℕ → Option Condition → Effect Child Condition → World → Option Return
  unfolding repeat_round
  repeat_from zero times source effect w = none
  repeat_from (suc fuel) times source effect w =
      let (round, w') = repeat_round times source effect w in
      elim round [
        | done effect' e ↦ some (returned effect' e w')
        | next effect' ↦ repeat_from fuel times source effect' w'
      ]

  abbrev pub initial_effect : Command Child Condition → Effect Child Condition
  initial_effect command = record {
    number_of_runs = 0;
    evaluated_command = command;
    insight = no_insight;
    exact_error_propagation = none;
  }

  -- The check of the condition in front of the first run, then the loop, with fuel for every run.
  unfoldable pub start_runs : Command Child Condition → ℕ → World → Option Return
  unfolding repeat_from
  start_runs command times w =
      let ((condition, should_run, failed), w₁) = services.evaluate_condition command.condition w in
      let effect = evaluated_with condition (initial_effect command) in
      let run = repeat_from times times command.condition effect w₁ in
      elim failed [
        | some e ↦ some (returned effect (some (raised e)) w₁)
        | none ↦ if should_run then run else some (returned effect none w₁)
      ]

  -- `executeRepeat` on an evaluated payload.
  unfoldable pub execute_times : Command Child Condition → RepeatEvaluated → World → Option Return
  unfolding start_runs is_valid_run
  execute_times command payload w =
      let effect = initial_effect command in
      if is_valid_run payload command
      then if payload.times == 0
        then some (returned effect none w)
        else start_runs command payload.times w
      else some (returned effect (some (misconfigured invalid_evaluated_payload)) w)

  -- `evaluateRepeat`
  unfoldable pub evaluate_repeat :
      Command Child Condition
      → RepeatCompiled
      → World
      → Result RepeatEvaluated × Command Child Condition × World
  unfolding is_valid_repeat evaluate_counter parse_repeat_times
  evaluate_repeat command payload w =
      let (counted, command', w') =
        evaluate_counter services parse_repeat_times times_field max_int32 payload.counter command
          w in
      let result : Result RepeatEvaluated = elim counted [
        | err e ↦ err e
        | ok n ↦ ok (record { times = n; has_condition = payload.has_condition })
      ] in
      if is_valid_repeat payload
      then (result, command', w')
      else (err (misconfigured invalid_compiled_payload), command, w)

  abbrev run_evaluated : Result RepeatEvaluated → Command Child Condition → World → Option Return
  run_evaluated (err e) command w = some (returned (initial_effect command) (some e) w)
  run_evaluated (ok payload) command w = execute_times command payload w

  -- `evaluateRepeatForExecution` defers a dynamic counter to `executeRepeat`, which takes the
  -- evaluation context first; other counters are evaluated in front of it.
  unfoldable pub execute_repeat : Command Child Condition → RepeatCompiled → World → Option Return
  unfolding evaluate_repeat execute_times is_valid_repeat
  execute_repeat command payload w =
      let effect = initial_effect command in
      let (failed, w₁) = services.capture_evaluation_context w in
      let (now, now_command, now_world) = evaluate_repeat command payload w in
      let (later, later_command, later_world) = evaluate_repeat command payload w₁ in
      let deferred : Option Return = elim failed [
        | some e ↦ some (returned effect (some (raised e)) w₁)
        | none ↦ run_evaluated later later_command later_world
      ] in
      let run : Option Return = elim payload.counter.kind [
        | dynamic ↦ deferred
        | _ ↦ run_evaluated now now_command now_world
      ] in
      if is_valid_repeat payload
      then run
      else some (returned effect (some (misconfigured invalid_compiled_payload)) w)
