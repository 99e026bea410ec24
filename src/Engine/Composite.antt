-- ===== src/Engine/Composite.antt =====
-- What the handlers of `retry` and `repeat` in internal/engine/retry_handler.go and
-- internal/engine/repeat_handler.go share: commands and results, as far as the handlers read them,
-- the counter field and the services of the executor. The services act on a world of their own.
use flowbaton.Prelude.{
  ℕ, ◌⊎◌, inl, inr, ◌^◌, List, [], ◌∷◌, Bool, true, false, ◌&&◌, Option, none, some, ltb, leb, ◌==◌,
  if◌then◌else◌,
}
use flowbaton.Prelude.Int.{ℤ, pos, negsuc}
use flowbaton.Decimal.{all_digits, read_nat}
use flowbaton.Engine.Errors.{is_retryable}
use flowbaton.Engine.Errors.Direct.{Graph}

-- The texts of the ConfigurationErrors that the handlers make.
pub data Issue : Type 0 where
  invalid_compiled_payload invalid_counter_kind invalid_evaluated_payload invalid_source : Issue
  not_an_int32 above_three wrong_range wrong_type : Issue
  attempts_exceeded clock_unavailable : Issue

-- An error that a call returned, by its reference, or a ConfigurationError of the handler's own.
pub data Thrown : Type 0 where
  raised : ℕ → Thrown
  misconfigured : Issue → Thrown

-- A value and no error, or an error.
pub data Result (A : Type 0) : Type 0 where
  ok : A → Result A
  err : Thrown → Result A

-- A decoded argument: an int64, a string, or a value of another type.
pub data Value : Type 0 where
  integer : ℤ → Value
  string : List ℕ → Value
  other_value : Value

-- `uint8` constants from one; a kind of another number is invalid.
pub data CounterKind : Type 0 where
  missing fixed dynamic invalid_kind : CounterKind

pub record Counter : Type 0 where
  pub kind : CounterKind
  pub number : ℤ
  pub expression : List ℕ

-- The argument map of a command, where its arguments are a map.
pub data Arguments : Type 0 where
  object : List (List ℕ × Value) → Arguments
  not_an_object : Arguments

pub record Command (Child Condition : Type 0) : Type 0 where
  pub arguments : Arguments
  pub children : List Child
  pub condition : Option Condition

pub record ExactErrorDisposition : Type 0 where
  pub published : Option ℕ
  pub classification : Option ℕ

pub record RetryErrorClassification : Type 0 where
  pub classification : Option ℕ
  pub publication : Option ExactErrorDisposition

pub record CommandResult : Type 0 where
  pub sequence : ℕ
  pub depth : ℕ
  pub product_error : Option ℕ
  pub retry_classification : Option RetryErrorClassification

pub record FlowResult : Type 0 where
  pub commands : List CommandResult
  pub retry_classification : Option RetryErrorClassification
  pub exact_error_source : Option CommandResult

pub data Insight : Type 0 where
  no_insight succeeded_after_retry : Insight

pub record Effect (Child Condition : Type 0) : Type 0 where
  pub number_of_runs : ℕ
  pub evaluated_command : Command Child Condition
  pub insight : Insight
  pub exact_error_propagation : Option CommandResult

pub record Services (World Child Condition Flow : Type 0) : Type 0 where
  pub graph : Graph
  -- The depth of the handler's own command.
  pub depth : ℕ
  -- `ctx.Err()`: every call of it may answer differently.
  pub context_error : World → Option ℕ × World
  pub capture_evaluation_context : World → Option ℕ × World
  pub interpolate : List ℕ → World → (List ℕ ⊎ ℕ) × World
  pub execute_children : List Child → World → (List CommandResult × Option ℕ) × World
  pub execute_flow : Flow → World → (FlowResult × Option ℕ) × World
  pub evaluate_condition : Option Condition → World → (Option Condition × Bool × Option ℕ) × World
  pub update_command_metadata : ℕ → Command Child Condition → Insight → World → Option ℕ × World
  pub reset_command : CommandResult → World → Option ℕ × World
  -- `Clock.Wait` for the delay of the handler; `none` for a nil clock.
  pub wait : Option (World → Option ℕ × World)

abbrev pub thrown : Option ℕ → Option Thrown
thrown none = none
thrown (some e) = some (raised e)

-- `IsRetryable`. A fresh ConfigurationError is not.
unfoldable pub retryable : Graph → Option Thrown → Bool
retryable graph none = is_retryable graph none
retryable graph (some (raised e)) = is_retryable graph (some e)
retryable graph (some (misconfigured issue)) = false

abbrev pub is_empty : List ℕ → Bool
is_empty [] = true
is_empty (c ∷ cs) = false

unfoldable pub is_between : ℤ → ℕ → Bool
is_between (pos n) limit = leb n limit
is_between (negsuc n) limit = false

abbrev is_zero : ℤ → Bool
is_zero (pos n) = n == 0
is_zero (negsuc n) = false

-- The switch of both `valid` methods on the counter, whose fixed number has an upper limit.
unfoldable pub is_valid_counter : ℕ → Counter → Bool
unfolding is_between
is_valid_counter limit c = elim c.kind [
  | missing ↦ is_zero c.number && is_empty c.expression
  | fixed ↦ is_between c.number limit && is_empty c.expression
  | dynamic ↦ is_zero c.number
  | invalid_kind ↦ false
]

-- The field of a command that holds the counter, as both compilers read it.
unfoldable pub compile_counter : ℕ → Option Value → Result Counter
unfolding is_between
compile_counter limit none = ok (record { kind = missing; number = pos 0; expression = [] })
compile_counter limit (some (integer z)) =
    if is_between z limit
    then ok (record { kind = fixed; number = z; expression = [] })
    else err (misconfigured wrong_range)
compile_counter limit (some (string cs)) =
    ok (record { kind = dynamic; number = pos 0; expression = cs })
compile_counter limit (some other_value) = err (misconfigured wrong_type)

abbrev pub in_31_bits : Option ℕ → Result ℕ
in_31_bits none = err (misconfigured not_an_int32)
in_31_bits (some n) = if ltb n (2 ^ 31) then ok n else err (misconfigured not_an_int32)

-- `parseRepeatTimes`, and the first part of `parseRetryMaxRetries`.
unfoldable pub parse_repeat_times : List ℕ → Result ℕ
unfolding all_digits read_nat
parse_repeat_times [] = err (misconfigured not_an_int32)
parse_repeat_times (c ∷ cs) =
    if all_digits (c ∷ cs) then in_31_bits (read_nat (c ∷ cs)) else err (misconfigured not_an_int32)

abbrev same_key : List ℕ → List ℕ → Bool
same_key [] [] = true
same_key (x ∷ xs) (y ∷ ys) = x == y && same_key xs ys
same_key _ _ = false

-- A write to a map.
abbrev store : List ℕ → Value → List (List ℕ × Value) → List (List ℕ × Value)
store key v [] = (key, v) ∷ []
store key v ((k, x) ∷ fields) =
    if same_key key k then (k, v) ∷ fields else (k, x) ∷ store key v fields

abbrev store_argument : List ℕ → Value → Arguments → Arguments
store_argument key v (object fields) = object (store key v fields)
store_argument key v not_an_object = not_an_object

-- `synchronizeRepeatTimes` and `synchronizeRetryMaxRetries`, with the name of the field.
unfoldable pub synchronize :
    {Child Condition : Type 0} → List ℕ → List ℕ → Command Child Condition → Command Child Condition
synchronize key cs command = record command {
  arguments = store_argument key (string cs) command.arguments;
}

-- The counter that a payload evaluates to: `missing` is what an absent field stands for.
unfoldable pub evaluate_counter :
    {World Child Condition Flow : Type 0}
    → Services World Child Condition Flow
    → (List ℕ → Result ℕ)
    → List ℕ
    → ℕ
    → Counter
    → Command Child Condition
    → World
    → Result ℕ × Command Child Condition × World
evaluate_counter services parse key absent c command w = elim c.kind [
  | missing ↦ (ok absent, command, w)
  | fixed ↦ elim c.number [
    | pos n ↦ (ok n, command, w)
    | negsuc n ↦ (err (misconfigured invalid_evaluated_payload), command, w)
  ]
  | dynamic ↦
      let (interpolated, w') = services.interpolate c.expression w in
      elim interpolated [
        | inr e ↦ (err (raised e), command, w')
        | inl cs ↦ elim (parse cs) [
          | err e ↦ (err e, command, w')
          | ok n ↦ (ok n, synchronize key cs command, w')
        ]
      ]
  | invalid_kind ↦ (err (misconfigured invalid_counter_kind), command, w)
]
