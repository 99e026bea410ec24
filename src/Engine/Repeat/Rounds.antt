-- ===== src/Engine/Repeat/Rounds.antt =====
-- A round of the loop of `executeRepeat` in internal/engine/repeat_handler.go ends the run or makes the
-- next one ready.
use flowbaton.Prelude.{
  ℕ, suc, ◌<◌, ◌≡◌, ◌∙◌, ap, inl, inr, refl, List, Bool, true, false, Bool-cases, Option, none,
  some, Option-cases, arith, leb, if◌then◌else◌,
}
use flowbaton.Engine.Composite.{raised, Command, CommandResult, no_insight, Effect, Services}
use flowbaton.Engine.Repeat.{
  reset_children, returned, Round, done, next, pause_and_reset, check_condition, repeat_round,
  evaluated_with, after_resets,
}
use flowbaton.Engine.Repeat.Runs.{after, Ran, Asked, Ready, Broken, Ending}

module _ {World Child Condition Flow : Type 0} (services : Services World Child Condition Flow)
    (command : Command Child Condition) (times : ℕ) (start : World) where
  -- The handler returned, or the next run is ready.
  abbrev pub Outcome : ℕ → Round services × World → Type 0
  Outcome n (done effect e, w') =
      Ending services command times start (returned services effect e w')
  Outcome n (next effect, w') =
      (c : Option Condition) × (effect ≡ after services command times start (suc n) c)
      × Ready services command times start (suc n) c w'
      × (suc n < times)

  abbrev Paused :
      List CommandResult → Effect Child Condition → World → Round services × World → Type 0
  Paused children effect w (done effect' e, w') =
      Broken services command times start children effect w (returned services effect' e w')
  Paused children effect w (next effect', w₅) =
      (effect' ≡ effect)
      × (wait : World → Option ℕ × World) × (w₃ : World) × (w₄ : World) × (services.wait
          ≡ some wait)
      × (wait w ≡ (none, w₃))
      × (services.context_error w₃ ≡ (none, w₄))
      × (reset_children services children w₄ ≡ (none, w₅))

  resets-Paused :
      (children : List CommandResult) (effect : Effect Child Condition) (w w₃ w₄ w₅ : World)
      (wait : World → Option ℕ × World) (failed : Option ℕ)
      → services.wait ≡ some wait
      → wait w ≡ (none, w₃)
      → services.context_error w₃ ≡ (none, w₄)
      → reset_children services children w₄ ≡ (failed, w₅)
      → Paused children effect w (after_resets services failed effect, w₅)
  resets-Paused children effect w w₃ w₄ w₅ wait none ew ei ec er =
      (refl, wait, w₃, w₄, ew, ei, ec, er)
  resets-Paused children effect w w₃ w₄ w₅ wait (some e) ew ei ec er =
      Broken.not_reset wait e w₃ w₄ w₅ ew ei ec er

  paired : {A : Type 0} (p : A × World) (a : A) → p.0 ≡ a → p ≡ (a, p.1)
  paired p a e = λ i. (e i, p.1)

  pause_and_reset-Paused :
      (children : List CommandResult) (effect : Effect Child Condition) (w : World)
      → Paused children effect w (pause_and_reset services children effect w)
  unfolding pause_and_reset
  pause_and_reset-Paused children effect w = elim (Option-cases services.wait) [
    | inl e ↦ rw (e, pause_and_reset) (Broken.no_clock e)
    | inr (wait, e) ↦ elim (Option-cases (wait w).0) [
      | inr (x, i) ↦
          rw (e, pause_and_reset, i) (Broken.interrupted wait x _ e (paired (wait w) (some x) i))
      | inl i ↦ elim (Option-cases (services.context_error (wait w).1).0) [
        | inr (x, c) ↦
            rw (e, pause_and_reset, i, c)
              (Broken.cancelled wait x _ _ e (paired (wait w) none i)
                (paired (services.context_error (wait w).1) (some x) c))
        | inl c ↦
            rw (e, pause_and_reset, i, c)
              (resets-Paused children effect w _ _ _ wait _ e (paired (wait w) none i)
                (paired (services.context_error (wait w).1) none c) refl)
      ]
    ]
  ]

  broken-Outcome :
      (n : ℕ) (c c' : Option Condition) (children : List CommandResult) (w w₁ w₂ : World)
      (t : Round services × World)
      → Ready services command times start n c w
      → Ran services command times start n c w children none none w₁
      → suc n < times
      → Asked services command times start w₁ c' true none w₂
      → Paused children (after services command times start (suc n) c') w₂ t
      → Outcome n t
  broken-Outcome n c c' children w w₁ w₂ (done effect e, w') ready ran more asked broken =
      Ending.broken_off n c c' children w w₁ w₂ _ ready ran more asked broken
  broken-Outcome n c c' children w w₁ w₂ (next effect, w') ready ran more asked
        (same, wait, w₃, w₄, ew, ei, ec, er) =
      (
        c',
        same,
        Ready.again n c c' children wait w w₁ w₂ w₃ w₄ w' ready ran more asked ew ei ec er,
        more,
      )

  abbrev answered :
      List CommandResult
      → Effect Child Condition
      → (Option Condition × Bool × Option ℕ) × World
      → Round services × World
  answered children effect x = elim x.0.2 [
    | some e ↦ (done (evaluated_with services x.0.0 effect) (some (raised e)), x.1)
    | none ↦
        if x.0.1
        then pause_and_reset services children (evaluated_with services x.0.0 effect) x.1
        else (done (evaluated_with services x.0.0 effect) none, x.1)
  ]

  asked_lem :
      (source : Option Condition) (children : List CommandResult) (effect : Effect Child Condition)
      (w w' : World) (c : Option Condition) (b : Bool) (failed : Option ℕ)
      → services.evaluate_condition source w ≡ ((c, b, failed), w')
      → check_condition services source children effect w ≡ (elim failed [
        | some e ↦ (done (evaluated_with services c effect) (some (raised e)), w')
        | none ↦
            if b
            then pause_and_reset services children (evaluated_with services c effect) w'
            else (done (evaluated_with services c effect) none, w')
      ])
  unfolding check_condition
  asked_lem source children effect w w' c b failed e = ap (answered children effect) e

  check_condition-Outcome :
      (n : ℕ) (c c' : Option Condition) (children : List CommandResult) (w w₁ w₂ : World) (b : Bool)
      (failed : Option ℕ)
      → Ready services command times start n c w
      → Ran services command times start n c w children none none w₁
      → suc n < times
      → Asked services command times start w₁ c' b failed w₂
      → Outcome n (
          check_condition services command.condition children
            (after services command times start (suc n) c)
            w₁)
  check_condition-Outcome n c c' children w w₁ w₂ b (some e) ready ran more asked =
      rw
        (asked_lem command.condition children (after services command times start (suc n) c) w₁ w₂
          c' b (some e) asked)
        (Ending.condition_failed n c c' children b e w w₁ w₂ ready ran more asked)
  check_condition-Outcome n c c' children w w₁ w₂ false none ready ran more asked =
      rw
        (asked_lem command.condition children (after services command times start (suc n) c) w₁ w₂
          c' false none asked)
        (Ending.condition_over n c c' children w w₁ w₂ ready ran more asked)
  check_condition-Outcome n c c' children w w₁ w₂ true none ready ran more asked =
      rw
        (asked_lem command.condition children (after services command times start (suc n) c) w₁ w₂
          c' true none asked)
        (broken-Outcome n c c' children w w₁ w₂ _ ready ran more asked
          (pause_and_reset-Paused children (after services command times start (suc n) c') w₂))

  abbrev recorded_run :
      ℕ
      → Option Condition
      → List CommandResult
      → Option ℕ
      → Option ℕ × World
      → Round services × World
  recorded_run n c children failed x = elim failed [
    | some e ↦ (done (after services command times start (suc n) c) (some (raised e)), x.1)
    | none ↦ elim x.0 [
      | some m ↦ (done (after services command times start (suc n) c) (some (raised m)), x.1)
      | none ↦
          if leb times (suc n)
          then (done (after services command times start (suc n) c) none, x.1)
          else check_condition services command.condition children
              (after services command times start (suc n) c) x.1
    ]
  ]

  abbrev executed_run :
      ℕ → Option Condition → (List CommandResult × Option ℕ) × World → Round services × World
  executed_run n c x =
      recorded_run n c x.0.0 x.0.1
        (services.update_command_metadata (suc n) (record command { condition = c }) no_insight x.1)

  ran_lem :
      (n : ℕ) (c : Option Condition) (w w' : World) (children : List CommandResult)
      (failed unrecorded : Option ℕ)
      → Ran services command times start n c w children failed unrecorded w'
      → repeat_round services times command.condition (after services command times start n c) w
        ≡ (elim failed [
          | some e ↦ (done (after services command times start (suc n) c) (some (raised e)), w')
          | none ↦ elim unrecorded [
            | some m ↦ (done (after services command times start (suc n) c) (some (raised m)), w')
            | none ↦
                if leb times (suc n)
                then (done (after services command times start (suc n) c) none, w')
                else check_condition services command.condition children
                    (after services command times start (suc n) c)
                    w'
          ]
        ])
  unfolding repeat_round
  ran_lem n c w w' children failed unrecorded ran =
      ap (executed_run n c) ran.executed ∙ ap (recorded_run n c children failed) ran.recorded

  ran-Outcome :
      (n : ℕ) (c : Option Condition) (w w' : World) (children : List CommandResult)
      (failed unrecorded : Option ℕ)
      → n < times
      → Ready services command times start n c w
      → Ran services command times start n c w children failed unrecorded w'
      → Outcome n
          (repeat_round services times command.condition (after services command times start n c) w)
  ran-Outcome n c w w' children (some e) m low ready ran =
      rw (ran_lem n c w w' children (some e) m ran) (Ending.failed n c children e m w w' ready ran)
  ran-Outcome n c w w' children none (some m) low ready ran =
      rw (ran_lem n c w w' children none (some m) ran)
        (Ending.not_recorded n c children m w w' ready ran)
  ran-Outcome n c w w' children none none low ready ran = elim (Bool-cases (leb times (suc n))) [
    | inl end ↦
        rw (ran_lem n c w w' children none none ran, end)
          (Ending.all_run n c children w w' ready ran (ground arith))
    | inr more ↦
        rw (ran_lem n c w w' children none none ran, more)
          (check_condition-Outcome n c _ children w w' _ _ _ ready ran (ground arith) refl)
  ]

  pub repeat_round-Outcome :
      (n : ℕ) (c : Option Condition) (w : World)
      → n < times
      → Ready services command times start n c w
      → Outcome n
          (repeat_round services times command.condition (after services command times start n c) w)
  repeat_round-Outcome n c w low ready =
      ran-Outcome n c w _ _ _ _ low ready (record { w₁ = _; executed = refl; recorded = refl })
