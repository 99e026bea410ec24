-- ===== src/Engine/Repeat/Endings.antt =====
-- What `executeRepeat` of internal/engine/repeat_handler.go returns.
use flowbaton.Prelude.{
  ℕ, zero, suc, ◌+◌, ◌<◌, ◌≤◌, ◌≡◌, ap, refl, List, Bool, true, false, Option, none, some, arith,
  if◌then◌else◌, ◌==◌,
}
use flowbaton.Engine.Composite.{raised, Command, CommandResult, Effect, Services}
use flowbaton.Engine.Repeat.{
  Return, returned, Round, done, next, repeat_round, repeat_from, start_runs, execute_times,
  RepeatEvaluated, is_valid_run,
}
use flowbaton.Engine.Repeat.Runs.{after, Asked, Ready, Broken, Ending}
use flowbaton.Engine.Repeat.Rounds.{Outcome, repeat_round-Outcome}

module _ {World Child Condition Flow : Type 0} (services : Services World Child Condition Flow)
    (command : Command Child Condition) (times : ℕ) (start : World) where
  -- The handler returns, and its return is one of the endings.
  abbrev pub Returns : Option (Return services) → Type 0
  Returns r = (r' : Return services) × (r ≡ some r') × Ending services command times start r'

  go_round : (fuel n : ℕ) (t : Round services × World) → Option (Return services)
  go_round fuel n (done effect e, w') = some (returned services effect e w')
  go_round fuel n (next effect, w') = repeat_from services fuel times command.condition effect w'

  repeat_from-suc :
      (fuel n : ℕ) (effect : Effect Child Condition) (w : World)
      → repeat_from services (suc fuel) times command.condition effect w
        ≡ go_round fuel n (repeat_round services times command.condition effect w)
  unfolding repeat_from go_round
  repeat_from-suc fuel n effect w = ground arith

  go_round-Returns :
      (fuel n : ℕ) (t : Round services × World)
      → ((c : Option Condition) (w : World)
          → suc n < times
          → Ready services command times start (suc n) c w
          → Returns (
              repeat_from services fuel times command.condition
                (after services command times start (suc n) c)
                w))
      → Outcome services command times start n t
      → Returns (go_round fuel n t)
  unfolding go_round
  go_round-Returns fuel n (done effect e, w') rest ending = (_, refl, ending)
  go_round-Returns fuel n (next effect, w') rest (c, same, ready, more) =
      rw same (rest c w' more ready)

  repeat_from-Returns :
      (fuel n : ℕ) (c : Option Condition) (w : World)
      → n < times
      → fuel + n ≡ times
      → Ready services command times start n c w
      → Returns (
          repeat_from services fuel times command.condition
            (after services command times start n c)
            w)
  repeat_from-Returns zero n c w low sum ready = absurd (omega arith)
  repeat_from-Returns (suc fuel) n c w low sum ready =
      rw (repeat_from-suc fuel n (after services command times start n c) w) (
        go_round-Returns fuel n
          (repeat_round services times command.condition (after services command times start n c) w)
          (λ c' w' more ready'. repeat_from-Returns fuel (suc n) c' w' more (omega arith) ready')
          (repeat_round-Outcome services command times start n c w low ready))

  abbrev started : (Option Condition × Bool × Option ℕ) × World → Option (Return services)
  started x = elim x.0.2 [
    | some e ↦
        some (returned services (after services command times start 0 x.0.0) (some (raised e)) x.1)
    | none ↦
        if x.0.1
        then repeat_from services times times command.condition
            (after services command times start 0 x.0.0) x.1
        else some (returned services (after services command times start 0 x.0.0) none x.1)
  ]

  start_lem :
      (w' : World) (c : Option Condition) (b : Bool) (failed : Option ℕ)
      → services.evaluate_condition command.condition start ≡ ((c, b, failed), w')
      → start_runs services command times start ≡ (elim failed [
        | some e ↦
            some (returned services (after services command times start 0 c) (some (raised e)) w')
        | none ↦
            if b
            then repeat_from services times times command.condition
                (after services command times start 0 c)
                w'
            else some (returned services (after services command times start 0 c) none w')
      ])
  unfolding start_runs
  start_lem w' c b failed e = ap started e

  start_runs-Asked :
      (w' : World) (c : Option Condition) (b : Bool) (failed : Option ℕ)
      → 0 < times
      → Asked services command times start start c b failed w'
      → Returns (start_runs services command times start)
  start_runs-Asked w' c b (some e) low asked =
      rw (start_lem w' c b (some e) asked) (_, refl, Ending.refused c b e w' asked)
  start_runs-Asked w' c false none low asked =
      rw (start_lem w' c false none asked) (_, refl, Ending.not_asked c w' asked)
  start_runs-Asked w' c true none low asked =
      rw (start_lem w' c true none asked)
        (repeat_from-Returns times 0 c w' low (omega arith) (Ready.first c w' asked))

  pub start_runs-Returns : 0 < times → Returns (start_runs services command times start)
  start_runs-Returns low = start_runs-Asked _ _ _ _ low refl

  Ready-low :
      (n : ℕ) (c : Option Condition) (w : World)
      → 0 < times
      → Ready services command times start n c w
      → n < times
  Ready-low n c w low (Ready.first _ _ asked) = low
  Ready-low n c w low
        (Ready.again _ _ _ children wait w' w₁ w₂ w₃ w₄ _ ready ran more asked ew ei ec er) =
      more

  Broken-runs :
      (children : List CommandResult) (effect : Effect Child Condition) (w : World)
      (r : Return services)
      → Broken services command times start children effect w r
      → r.effect ≡ effect
  Broken-runs children effect w r (Broken.no_clock e) = refl
  Broken-runs children effect w r (Broken.interrupted wait e w' h i) = refl
  Broken-runs children effect w r (Broken.cancelled wait c w₁ w' h i k) = refl
  Broken-runs children effect w r (Broken.not_reset wait e w₁ w₂ w' h i k l) = refl

  pub Ending-runs :
      (r : Return services)
      → 0 < times
      → Ending services command times start r
      → r.effect.number_of_runs ≤ times
  Ending-runs r low (Ending.refused c b e w asked) = omega arith
  Ending-runs r low (Ending.not_asked c w asked) = omega arith
  Ending-runs r low (Ending.failed n c children e m w w' ready ran) =
      omega (arith, Ready-low n c w low ready)
  Ending-runs r low (Ending.not_recorded n c children m w w' ready ran) =
      omega (arith, Ready-low n c w low ready)
  Ending-runs r low (Ending.all_run n c children w w' ready ran e) = omega arith
  Ending-runs r low (Ending.condition_failed n c c' children b e w w₁ w' ready ran more asked) =
      omega arith
  Ending-runs r low (Ending.condition_over n c c' children w w₁ w' ready ran more asked) =
      omega arith
  Ending-runs r low (Ending.broken_off n c c' children w w₁ w₂ _ ready ran more asked broken) =
      rw (Broken-runs children (after services command times start (suc n) c') w₂ r broken)
        (omega arith)

module _ {World Child Condition Flow : Type 0} (services : Services World Child Condition Flow)
    (command : Command Child Condition) (payload : RepeatEvaluated) where
  no_zero : (n : ℕ) → 0 < n → (n == 0) ≡ false
  no_zero n h = ground arith

  bounded :
      (w : World) (r : Option (Return services))
      → 0 < payload.times
      → Returns services command payload.times w r
      → (r' : Return services) × (r ≡ some r')
        × Ending services command payload.times w r'
        × (r'.effect.number_of_runs ≤ payload.times)
  bounded w r low (r', same, ending) =
      (r', same, ending, Ending-runs services command payload.times w r' low ending)

  -- On a valid payload with at least one run, the handler returns, on fuel for every run: a run is
  -- made only when the condition, evaluated directly in front of it from its source, asks for it,
  -- and, behind another run, when the clock has waited with no error, nothing was cancelled and
  -- every result of that run was reset. What the handler returns is one of the ends of such runs,
  -- without an error only when the condition asks for no more or all runs have been made, and it
  -- counts no more runs than the payload has.
  pub execute_times-Returns :
      (w : World)
      → is_valid_run payload command ≡ true
      → 0 < payload.times
      → (r : Return services) × (execute_times services command payload w ≡ some r)
        × Ending services command payload.times w r
        × (r.effect.number_of_runs ≤ payload.times)
  unfolding execute_times
  execute_times-Returns w valid low =
      rw (valid, no_zero payload.times low)
        (bounded w _ low (start_runs-Returns services command payload.times w low))
