-- ===== src/Engine/Errors/Direct.antt =====
-- Error values and how internal/engine/errors.go classifies one by itself, without its causes.
use flowbaton.Prelude.{ℕ, List, [], ◌∷◌, Bool, true, false, Option, none, some, if◌then◌else◌}

pub data TerminalClass : Type 0 where
  nothing skipped cancelled device_connection configuration retryable failure : TerminalClass

pub record Classification : Type 0 where
  pub class : TerminalClass
  pub contains_aggregate : Bool
  pub invalid : Bool

-- A method call that returns, or panics and is recovered from.
pub data Verdict : Type 0 where
  answers : Bool → Verdict
  panics : Verdict

-- The two errors of package context that are looked for.
pub data ContextError : Type 0 where
  canceled deadline_exceeded : ContextError

-- The error types of the engine, as the type switch tells them apart.
pub data ErrorType : Type 0 where
  device_connection_error configuration_error command_skipped_error : ErrorType
  operation_error assertion_error other_error : ErrorType

-- What the unwrapping interface of a node gives: none, one cause (nil or not), or branches.
pub data Unwrap : Type 0 where
  leaf causal_panics aggregate_panics : Unwrap
  causal : Option ℕ → Unwrap
  aggregate : List (Option ℕ) → Unwrap

pub record ErrorNode : Type 0 where
  -- A nil pointer, map, slice or function in an error interface.
  pub typed_nil : Bool
  -- The type and address of a pointer.
  pub identity : Option ℕ
  pub error_type : ErrorType
  -- `err == target`, where the comparison cannot panic.
  pub equals : ContextError → Bool
  -- The node's own `Is` and `As` methods.
  pub matcher : Option (ContextError → Verdict)
  pub caster : Option (ErrorType → Verdict)
  pub unwrap : Unwrap

abbrev pub Graph : Type 0
Graph = ℕ → ErrorNode

unfoldable pub directly_matches : ErrorNode → ContextError → Verdict
directly_matches node target =
    if node.equals target
    then answers true
    else elim node.matcher [ none ↦ answers false | some is ↦ is target ]

-- `As` is asked for the engine's types in this order.
abbrev pub cast_targets : List (ErrorType × TerminalClass)
cast_targets =
    (device_connection_error, device_connection)
    ∷ (configuration_error, configuration)
    ∷ (command_skipped_error, skipped)
    ∷ (operation_error, retryable)
    ∷ (assertion_error, retryable)
    ∷ []

abbrev pub by_cast : (ErrorType → Verdict) → List (ErrorType × TerminalClass) → TerminalClass × Bool
by_cast cast [] = (nothing, false)
by_cast cast ((target, class) ∷ targets) =
    let more = by_cast cast targets in
    elim (cast target) [ panics ↦ (class, true) | answers b ↦ if b then (class, false) else more ]

abbrev pub by_type : ErrorNode → TerminalClass × Bool
by_type node = elim node.error_type [
  | device_connection_error ↦ (device_connection, false)
  | configuration_error ↦ (configuration, false)
  | command_skipped_error ↦ (skipped, false)
  | operation_error ↦ (retryable, false)
  | assertion_error ↦ (retryable, false)
  | other_error ↦ elim node.caster [
    | none ↦ (nothing, false)
    | some cast ↦ by_cast cast cast_targets
  ]
]

-- `classifyDirectTerminalError`: the class of the node alone, and whether one of its methods
-- panicked.
unfoldable pub classify_direct : ErrorNode → TerminalClass × Bool
unfolding directly_matches
classify_direct node = elim (directly_matches node canceled) [
  | panics ↦ (failure, true)
  | answers true ↦ (cancelled, false)
  | answers false ↦ elim (directly_matches node deadline_exceeded) [
    | panics ↦ (failure, true)
    | answers true ↦ (cancelled, false)
    | answers false ↦ by_type node
  ]
]
