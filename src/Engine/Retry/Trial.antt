-- ===== src/Engine/Retry/Trial.antt =====
-- One attempt of `retry`: executeRetryAttempt of internal/engine/retry_handler.go and what it keeps of
-- the results of the children or of the linked flow.
use flowbaton.Prelude.{
  ℕ, ◌+◌, List, [], ◌∷◌, Bool, true, false, Option, none, some, ◌==◌, if◌then◌else◌,
}
use flowbaton.Engine.Errors.{classify_terminal_error}
use flowbaton.Engine.Errors.Direct.{skipped}
use flowbaton.Engine.Composite.{
  invalid_source, Thrown, misconfigured, Command, RetryErrorClassification, CommandResult,
  FlowResult, Services, thrown,
}
use flowbaton.Engine.Retry.Forms.{RetryEvaluated, linked_source, inline_source, unknown_source}

pub record AttemptResult : Type 0 where
  pub results : List CommandResult
  pub direct_skipped : Bool
  pub product_error : Option Thrown
  pub retry_classification : Option RetryErrorClassification
  pub exact_error_source : Option CommandResult

-- `immediateRetryResults`
unfoldable pub immediate_retry_results : List CommandResult → ℕ → List CommandResult
immediate_retry_results [] depth = []
immediate_retry_results (result ∷ results) depth =
    let rest = immediate_retry_results results depth in
    if result.depth == depth then result ∷ rest else rest

abbrev pub last : {A : Type 0} → List A → Option A
last [] = none
last (x ∷ []) = some x
last (x ∷ y ∷ xs) = last (y ∷ xs)

abbrev classification_of : CommandResult → Option RetryErrorClassification
classification_of result = elim result.product_error [
  | none ↦ none
  | some e ↦ result.retry_classification
]

-- `inlineRetryClassification`
unfoldable pub inline_retry_classification : List CommandResult → Option RetryErrorClassification
inline_retry_classification results = elim (last results) [
  | none ↦ none
  | some result ↦ classification_of result
]

abbrev or_else : {A : Type 0} → Option A → Option A → Option A
or_else none b = b
or_else (some a) b = some a

abbrev pub is_some : {A : Type 0} → Option A → Bool
is_some none = false
is_some (some a) = true

abbrev is_published : Option RetryErrorClassification → Bool
is_published none = false
is_published (some c) = is_some c.publication

-- The classification that an attempt keeps: none behind a skipped command or without an error.
abbrev unless_settled : {A : Type 0} → Bool → Option Thrown → Option A → Option A
unless_settled true e a = none
unless_settled false none a = none
unless_settled false (some e) a = a

-- The fields of `retryAttemptResult`.
abbrev pub attempt_of :
    List CommandResult
    → Option ℕ
    → Option ℕ
    → Option RetryErrorClassification
    → Option CommandResult
    → AttemptResult
attempt_of results error skipping classification source =
    let e = thrown (or_else error skipping) in
    record {
      results = results;
      direct_skipped = is_some skipping;
      product_error = e;
      retry_classification = unless_settled (is_some skipping) e classification;
      exact_error_source = unless_settled (is_some skipping) e source;
    }

module _ {World Child Condition Flow : Type 0}
    (services : Services World Child Condition Flow) where
  unfoldable pub is_command_skipped : Option ℕ → Bool
  is_command_skipped e = elim (classify_terminal_error services.graph e) [
    | skipped ↦ true
    | _ ↦ false
  ]

  -- `skippedRetryResultError`
  unfoldable pub skipped_retry_result_error : List CommandResult → Option ℕ
  unfolding is_command_skipped
  skipped_retry_result_error [] = none
  skipped_retry_result_error (result ∷ results) =
      let rest = skipped_retry_result_error results in
      if is_command_skipped result.product_error then result.product_error else rest

  unfoldable pub inline_attempt : List CommandResult → Option ℕ → AttemptResult
  unfolding immediate_retry_results skipped_retry_result_error inline_retry_classification
  inline_attempt results error =
      let immediate = immediate_retry_results results (services.depth + 1) in
      let classification = inline_retry_classification immediate in
      attempt_of immediate error (skipped_retry_result_error immediate) classification
        (if is_published classification then last immediate else none)

  unfoldable pub linked_attempt : FlowResult → Option ℕ → AttemptResult
  unfolding immediate_retry_results skipped_retry_result_error
  linked_attempt flow error =
      let immediate = immediate_retry_results flow.commands (services.depth + 1) in
      attempt_of immediate error (skipped_retry_result_error immediate) flow.retry_classification
        flow.exact_error_source

  abbrev pub invalid_attempt : AttemptResult
  invalid_attempt = record {
    results = [];
    direct_skipped = false;
    product_error = some (misconfigured invalid_source);
    retry_classification = none;
    exact_error_source = none;
  }

  -- `executeRetryAttempt`
  unfoldable pub execute_retry_attempt :
      Command Child Condition → RetryEvaluated Flow → World → AttemptResult × World
  unfolding inline_attempt linked_attempt
  execute_retry_attempt command payload w = elim payload.source [
    | inline_source ↦
        let ((results, error), w') = services.execute_children command.children w in
        (inline_attempt results error, w')
    | linked_source ↦ elim payload.linked [
      | none ↦ (invalid_attempt, w)
      | some flow ↦
          let ((result, error), w') = services.execute_flow flow w in
          (linked_attempt result error, w')
    ]
    | unknown_source ↦ (invalid_attempt, w)
  ]
