-- ===== src/Engine/Repeat/Runs.antt =====
-- The runs of `executeRepeat` in internal/engine/repeat_handler.go as a relation on worlds.
use flowbaton.Prelude.{ℕ, suc, ◌<◌, ◌≡◌, List, Bool, true, false, Option, none, some}
use flowbaton.Engine.Composite.{
  raised, misconfigured, clock_unavailable, Command, CommandResult, no_insight, Effect, Services,
}
use flowbaton.Engine.Repeat.{reset_children, Return, returned}

module _ {World Child Condition Flow : Type 0} (services : Services World Child Condition Flow)
    (command : Command Child Condition) (times : ℕ) (start : World) where
  -- The effect behind so many runs, with the condition as it was evaluated last.
  abbrev pub after : ℕ → Option Condition → Effect Child Condition
  after n condition = record {
    number_of_runs = n;
    evaluated_command = record command { condition = condition };
    insight = no_insight;
    exact_error_propagation = none;
  }

  -- One run behind `n` others: what the children gave, and the error of the metadata's update.
  pub record Ran (n : ℕ) (condition : Option Condition) (w : World) (children : List CommandResult)
      (failed unrecorded : Option ℕ) (w' : World) : Type 0 where
    pub w₁ : World
    pub executed : services.execute_children command.children w ≡ ((children, failed), w₁)
    pub recorded :
        services.update_command_metadata
          (suc n)
          (record command { condition = condition })
          no_insight
          w₁
        ≡ (unrecorded, w')

  -- What the condition of the command answers.
  abbrev pub Asked : World → Option Condition → Bool → Option ℕ → World → Type 0
  Asked w condition should_run failed w' =
      services.evaluate_condition command.condition w ≡ ((condition, should_run, failed), w')

  -- `n` runs have been made, fewer than there may be, and the condition asks for one more.
  pub data Ready : ℕ → Option Condition → World → Type 0 where
    first :
        (condition : Option Condition) (w : World)
        → Asked start condition true none w
        → Ready 0 condition w
    again :
        (n : ℕ) (c c' : Option Condition) (children : List CommandResult)
        (wait : World → Option ℕ × World) (w w₁ w₂ w₃ w₄ w₅ : World)
        → Ready n c w
        → Ran n c w children none none w₁
        → suc n < times
        → Asked w₁ c' true none w₂
        → services.wait ≡ some wait
        → wait w₂ ≡ (none, w₃)
        → services.context_error w₃ ≡ (none, w₄)
        → reset_children services children w₄ ≡ (none, w₅)
        → Ready (suc n) c' w₅

  -- How the handler leaves the pause behind its run.
  pub data Broken (children : List CommandResult) (effect : Effect Child Condition) (w : World)
      : Return services → Type 0 where
    no_clock :
        services.wait ≡ none
        → Broken children effect w
            (returned services effect (some (misconfigured clock_unavailable)) w)
    interrupted :
        (wait : World → Option ℕ × World) (e : ℕ) (w' : World)
        → services.wait ≡ some wait
        → wait w ≡ (some e, w')
        → Broken children effect w (returned services effect (some (raised e)) w')
    cancelled :
        (wait : World → Option ℕ × World) (c : ℕ) (w₁ w' : World)
        → services.wait ≡ some wait
        → wait w ≡ (none, w₁)
        → services.context_error w₁ ≡ (some c, w')
        → Broken children effect w (returned services effect (some (raised c)) w')
    not_reset :
        (wait : World → Option ℕ × World) (e : ℕ) (w₁ w₂ w' : World)
        → services.wait ≡ some wait
        → wait w ≡ (none, w₁)
        → services.context_error w₁ ≡ (none, w₂)
        → reset_children services children w₂ ≡ (some e, w')
        → Broken children effect w (returned services effect (some (raised e)) w')

  -- How the handler returns.
  pub data Ending : Return services → Type 0 where
    refused :
        (c : Option Condition) (b : Bool) (e : ℕ) (w : World)
        → Asked start c b (some e) w
        → Ending (returned services (after 0 c) (some (raised e)) w)
    not_asked :
        (c : Option Condition) (w : World)
        → Asked start c false none w
        → Ending (returned services (after 0 c) none w)
    failed :
        (n : ℕ) (c : Option Condition) (children : List CommandResult) (e : ℕ) (m : Option ℕ)
        (w w' : World)
        → Ready n c w
        → Ran n c w children (some e) m w'
        → Ending (returned services (after (suc n) c) (some (raised e)) w')
    not_recorded :
        (n : ℕ) (c : Option Condition) (children : List CommandResult) (m : ℕ) (w w' : World)
        → Ready n c w
        → Ran n c w children none (some m) w'
        → Ending (returned services (after (suc n) c) (some (raised m)) w')
    all_run :
        (n : ℕ) (c : Option Condition) (children : List CommandResult) (w w' : World)
        → Ready n c w
        → Ran n c w children none none w'
        → suc n ≡ times
        → Ending (returned services (after (suc n) c) none w')
    condition_failed :
        (n : ℕ) (c c' : Option Condition) (children : List CommandResult) (b : Bool) (e : ℕ)
        (w w₁ w' : World)
        → Ready n c w
        → Ran n c w children none none w₁
        → suc n < times
        → Asked w₁ c' b (some e) w'
        → Ending (returned services (after (suc n) c') (some (raised e)) w')
    condition_over :
        (n : ℕ) (c c' : Option Condition) (children : List CommandResult) (w w₁ w' : World)
        → Ready n c w
        → Ran n c w children none none w₁
        → suc n < times
        → Asked w₁ c' false none w'
        → Ending (returned services (after (suc n) c') none w')
    broken_off :
        (n : ℕ) (c c' : Option Condition) (children : List CommandResult) (w w₁ w₂ : World)
        (r : Return services)
        → Ready n c w
        → Ran n c w children none none w₁
        → suc n < times
        → Asked w₁ c' true none w₂
        → Broken children (after (suc n) c') w₂ r
        → Ending r
