-- ===== src/Engine/Errors/Normalize.antt =====
-- `normalizeTerminalError` of internal/engine/errors.go.
use flowbaton.Prelude.{
  ℕ, ◌≡◌, ◌≢◌, ◌↔◌, ◌⊎◌, refl, true, false, [], if◌then◌else◌, Option, none, some, arith,
}
use flowbaton.Engine.Errors.{
  inspect, inspect_terminal_error, Normalized, nil, malformed, same, operation,
  normalize_terminal_error, normalize_class, sanitize_malformed_error,
}
use flowbaton.Engine.Errors.Direct.{nothing, causal, failure, Classification, Graph}
use flowbaton.Engine.Errors.Inspect.{inspect-ne-nothing, inspect_endless}

-- An error is normalised to nil exactly where it is nil.
pub normalize-nil_iff :
    (graph : Graph) (err : Option ℕ) → (normalize_terminal_error graph err ≡ nil) ↔ (err ≡ none)
unfolding normalize_terminal_error inspect_terminal_error
normalize-nil_iff graph none = ((λ e. refl), (λ e. refl))
normalize-nil_iff graph (some r) = (ground (arith, inspect-ne-nothing graph 128 [] r), λ e. cc)

-- Where every error of a set `P` wraps one error of `P`, as in a cycle of causes, each error of `P`
-- is normalised to the ConfigurationError of a malformed graph.
pub normalize_endless :
    (graph : Graph) (P : ℕ → Type 0)
    → ((r : ℕ) → P r → (cause : ℕ) × ((graph r).unwrap ≡ causal (some cause)) × P cause)
    → (r : ℕ) → P r
    → normalize_terminal_error graph (some r) ≡ malformed
unfolding normalize_terminal_error inspect_terminal_error
normalize_endless graph P onward r h = rw (inspect_endless graph P onward 128 [] r h)

-- The three ways out of the function, each with when it is taken, by the classification `c`.
abbrev pub Outcome : Normalized → Classification → ℕ → Type 0
Outcome n c r =
    ((n ≡ malformed) × (c.invalid ≡ true))
    ⊎ (((n ≡ same r) × (c.invalid ≡ false) × ((c.class ≢ failure) ⊎ (c.contains_aggregate ≡ true)))
        ⊎ ((n ≡ operation r)
            × (c.invalid ≡ false)
            × (c.class ≡ failure)
            × (c.contains_aggregate ≡ false)))

outcome :
    (c : Classification) (r : ℕ)
    → c.class ≢ nothing
    → Outcome (if c.invalid then malformed else normalize_class c r) c r
outcome c r h = ground arith

-- By what the inspection of its graph says, an error is malformed, kept or wrapped.
pub normalize_classes :
    (graph : Graph) (r : ℕ)
    → Outcome (normalize_terminal_error graph (some r)) (inspect_terminal_error graph (some r)) r
unfolding normalize_terminal_error inspect_terminal_error
normalize_classes graph r =
    outcome (inspect graph 128 [] (some r)) r (inspect-ne-nothing graph 128 [] r)

-- What the normalised form of an error, or of none, says.
abbrev pub Normal : Graph → Option ℕ → Type 0
Normal graph none = normalize_terminal_error graph none ≡ nil
Normal graph (some r) =
    (normalize_terminal_error graph (some r) ≢ nil)
    × Outcome (normalize_terminal_error graph (some r)) (inspect_terminal_error graph (some r)) r
    × ((normalize_terminal_error graph (some r) ≡ malformed)
        ↔ ((sanitize_malformed_error graph (some r)).1 ≡ true))

malformed_iff :
    (graph : Graph) (r : ℕ)
    → (inspect_terminal_error graph (some r)).class ≢ nothing
    → (normalize_terminal_error graph (some r) ≡ malformed)
      ↔ ((sanitize_malformed_error graph (some r)).1 ≡ true)
unfolding normalize_terminal_error sanitize_malformed_error
malformed_iff graph r h = ((λ e. ground arith), (λ e. ground arith))

-- Only no error at all is normalised to none. An error becomes the ConfigurationError of a malformed
-- graph only where the inspection of its graph is invalid. It stays as it is only where that is
-- valid and finds another class than failure or an aggregate. It is wrapped in an OperationError
-- only where that is valid and finds a failure with no aggregate. The errors that become malformed
-- are those that `sanitizeMalformedError` replaces.
pub normalize-Normal : (graph : Graph) (err : Option ℕ) → Normal graph err
normalize-Normal graph none = (normalize-nil_iff graph none).1 refl
normalize-Normal graph (some r) = (
  (λ e. unwrapped ((normalize-nil_iff graph (some r)).0 e)),
  normalize_classes graph r,
  malformed_iff graph r (unfold inspect_terminal_error in inspect-ne-nothing graph 128 [] r),
)
  where
    unwrapped : {A : Type 0} → some r ≡ none → A
    unwrapped e = cc
