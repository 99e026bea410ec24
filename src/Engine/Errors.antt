-- ===== src/Engine/Errors.antt =====
-- internal/engine/errors.go: the classification of error graphs. An error value is a reference into
-- a graph of nodes, which may be cyclic; a node says what the type switches, the interface
-- assertions and the calls of its methods answer. Error texts are left out.
pub mod Direct
pub mod Merge
pub mod Inspect
pub mod Normalize
mod Examples
use flowbaton.Prelude.{
  ℕ, zero, suc, List, [], ◌∷◌, Bool, true, false, ◌||◌, Option, none, some, ltb, ◌==◌,
  if◌then◌else◌,
}
use flowbaton.Engine.Errors.Direct.{
  TerminalClass, Classification, Verdict, ContextError, ErrorType, Unwrap, ErrorNode, Graph,
  directly_matches, cast_targets, by_cast, by_type, classify_direct, nothing, skipped, cancelled,
  device_connection, configuration, retryable, failure, answers, panics, canceled,
  deadline_exceeded, device_connection_error, configuration_error, command_skipped_error,
  operation_error, assertion_error, other_error, leaf, causal_panics, aggregate_panics, causal,
  aggregate,
}

abbrev pub precedence : TerminalClass → ℕ
precedence cancelled = 6
precedence device_connection = 5
precedence configuration = 4
precedence failure = 3
precedence retryable = 2
precedence skipped = 1
precedence nothing = 0

unfoldable pub merge_aggregate : TerminalClass → TerminalClass → TerminalClass
merge_aggregate left right = if ltb (precedence left) (precedence right) then right else left

abbrev pub invalid_classification : Bool → Classification
invalid_classification aggregates = record {
  class = failure;
  contains_aggregate = aggregates;
  invalid = true;
}

-- The switch of `mergeCausalTerminalClass` on the wrapper's own class.
unfoldable pub causal_class : TerminalClass → Classification → TerminalClass
unfolding merge_aggregate
causal_class nothing cause = cause.class
causal_class retryable cause = elim cause.class [
  | cancelled ↦ cancelled
  | device_connection ↦ device_connection
  | configuration ↦ configuration
  | failure ↦ if cause.contains_aggregate then failure else retryable
  | skipped ↦ skipped
  | _ ↦ retryable
]
causal_class skipped cause = elim cause.class [
  | cancelled ↦ cancelled
  | device_connection ↦ device_connection
  | configuration ↦ configuration
  | failure ↦ if cause.contains_aggregate then failure else skipped
  | _ ↦ skipped
]
causal_class direct cause = merge_aggregate direct cause.class

unfoldable pub merge_causal : TerminalClass → Classification → Classification
unfolding causal_class
merge_causal direct cause =
    if cause.invalid then invalid_classification cause.contains_aggregate else record {
      class = causal_class direct cause;
      contains_aggregate = cause.contains_aggregate;
      invalid = false;
    }

-- `if class == terminalErrorNone { class = terminalErrorFailure }`
abbrev pub or_failure : TerminalClass → TerminalClass
or_failure nothing = failure
or_failure class = class

-- The loop over the branches of an aggregate, and the default behind it.
unfoldable pub merge_branches :
    (Option ℕ → Classification) → TerminalClass → Bool → List (Option ℕ) → Classification
merge_branches inspect class aggregates [] = record {
  class = or_failure class;
  contains_aggregate = aggregates;
  invalid = false;
}
merge_branches inspect class aggregates (branch ∷ branches) =
    let c = inspect branch in
    let rest =
      merge_branches inspect (merge_aggregate class c.class) (aggregates || c.contains_aggregate)
        branches in
    if c.invalid then invalid_classification true else rest

-- `inspect` behind its guards, given the inspection of the nodes below.
unfoldable pub inspect_node :
    (Option ℕ → Classification) → TerminalClass × Bool → Unwrap → Classification
unfolding merge_branches merge_causal
inspect_node inspect (direct, true) unwrap = invalid_classification false
inspect_node inspect (direct, false) leaf = record {
  class = or_failure direct;
  contains_aggregate = false;
  invalid = false;
}
inspect_node inspect (direct, false) causal_panics = invalid_classification false
inspect_node inspect (direct, false) aggregate_panics = invalid_classification true
inspect_node inspect (direct, false) (causal none) = record {
  class = or_failure direct;
  contains_aggregate = false;
  invalid = false;
}
inspect_node inspect (direct, false) (causal (some cause)) =
    merge_causal direct (inspect (some cause))
inspect_node inspect (direct, false) (aggregate branches) =
    merge_branches inspect direct true branches

abbrev pub mem : ℕ → List ℕ → Bool
mem i [] = false
mem i (j ∷ js) = i == j || mem i js

-- Is a pointer on the way down from the root already?
abbrev pub is_active : Option ℕ → List ℕ → Bool
is_active none active = false
is_active (some i) active = mem i active

-- `defer delete` takes the pointer out again behind the node: here the list is passed down only.
abbrev pub enter : Option ℕ → List ℕ → List ℕ
enter none active = active
enter (some i) active = i ∷ active

-- `traversal.inspect`; the number is how many levels the depth limit still leaves.
unfoldable pub inspect : Graph → ℕ → List ℕ → Option ℕ → Classification
inspect graph levels active none = record {
  class = nothing;
  contains_aggregate = false;
  invalid = false;
}
inspect graph zero active (some r) = invalid_classification false
inspect graph (suc levels) active (some r) =
    let node = graph r in
    let below =
      inspect_node (inspect graph levels (enter node.identity active)) (classify_direct node)
        node.unwrap in
    if node.typed_nil
    then invalid_classification false
    else if is_active node.identity active
    then invalid_classification false
    else below

abbrev pub max_traversal_depth : ℕ
max_traversal_depth = 128

unfoldable pub inspect_terminal_error : Graph → Option ℕ → Classification
inspect_terminal_error graph err = inspect graph max_traversal_depth [] err

unfoldable pub classify_terminal_error : Graph → Option ℕ → TerminalClass
unfolding inspect_terminal_error
classify_terminal_error graph err = (inspect_terminal_error graph err).class

-- What `normalizeTerminalError` returns: nil, the error itself, an OperationError round it, or the
-- ConfigurationError that stands for a malformed graph.
pub data Normalized : Type 0 where
  nil malformed : Normalized
  same operation : ℕ → Normalized

abbrev pub normalize_class : Classification → ℕ → Normalized
normalize_class c r = elim c.class [
  | nothing ↦ nil
  | failure ↦ if c.contains_aggregate then same r else operation r
  | _ ↦ same r
]

unfoldable pub normalize_terminal_error : Graph → Option ℕ → Normalized
unfolding inspect_terminal_error
normalize_terminal_error graph none = nil
normalize_terminal_error graph (some r) =
    let c = inspect_terminal_error graph (some r) in
    if c.invalid then malformed else normalize_class c r

-- `sanitizeMalformedError`: an error and whether it was replaced.
unfoldable pub sanitize_malformed_error : Graph → Option ℕ → Normalized × Bool
unfolding inspect_terminal_error
sanitize_malformed_error graph none = (nil, false)
sanitize_malformed_error graph (some r) =
    if (inspect_terminal_error graph (some r)).invalid then (malformed, true) else (same r, false)

-- `IsRetryable` and `CanWarnWhenOptional`
unfoldable pub is_retryable : Graph → Option ℕ → Bool
unfolding classify_terminal_error
is_retryable graph err = elim (classify_terminal_error graph err) [ retryable ↦ true | _ ↦ false ]
