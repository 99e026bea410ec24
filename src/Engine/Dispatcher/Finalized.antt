-- ===== src/Engine/Dispatcher/Finalized.antt =====
-- What `finalizeExactErrorRequest` of internal/engine/dispatcher.go makes of an effect, as a relation.
use text.Mathlib.Text.{◌==◌ as str_eq}
use flowbaton.Prelude.{ℕ, ◌≡◌, ◌≢◌, ◌⊎◌, Bool, true, false, ◌&&◌, Option, none, some}
use flowbaton.Engine.Errors.{sanitize_malformed_error, inspect_terminal_error}
use flowbaton.Engine.Results.{CommandResult}
use flowbaton.Engine.Ledger.{CommandResultLedger, exact_error_by, redeem_exact_error}
use flowbaton.Engine.Ledger.Genuine.{Genuine}
use flowbaton.Engine.Dispatcher.{
  Errors, Complaint, malformed_graph, forged_disposition, both_channels, unauthorized_propagation,
  propagation_not_sole, invalid_source, unauthorized_publication, request_not_sole, no_underlying,
  invalid_classification, press_key_publication, retry_propagation, HandlerSpec,
  ExactErrorDisposition, CommandEffect, press_key, retry_keyword, is_press_key_publication,
  is_retry_propagation, disposition_of, normalized, is_nil_error, invalid_disposition,
  clear_exact_error, publish,
}

module _ (errors : Errors) {Command Write : Type 0} (same_command : Command → Command → Bool)
    (ledger : CommandResultLedger Command) (spec : HandlerSpec) where
  -- What was asked for by a channel that is not authorized, beside an error, or with a graph that
  -- does not do: when each complaint is made.
  abbrev pub Misused : CommandEffect Command Write → Option ℕ → Complaint → Type 0
  Misused effect err forged_disposition = effect.exact_error_disposition ≢ none
  Misused effect err both_channels =
      (effect.exact_error_request ≢ none) × (effect.exact_error_propagation ≢ none)
  Misused effect err unauthorized_propagation =
      (effect.exact_error_propagation ≢ none)
      × (is_retry_propagation spec.exact_error_policy && str_eq spec.keyword retry_keyword ≡ false)
  Misused effect err propagation_not_sole =
      (effect.exact_error_propagation ≢ none) × (is_nil_error errors err ≡ false)
  Misused effect err invalid_source =
      (source : Option (CommandResult Command)) × (effect.exact_error_propagation ≡ some source)
      × (invalid_disposition errors (disposition_of (redeem_exact_error same_command ledger source))
          ≡ true)
  Misused effect err unauthorized_publication =
      (effect.exact_error_request ≢ none)
      × (is_press_key_publication spec.exact_error_policy && str_eq spec.keyword press_key ≡ false)
  Misused effect err request_not_sole =
      (effect.exact_error_request ≢ none) × (is_nil_error errors err ≡ false)
  Misused effect err no_underlying =
      (u : Option ℕ) × (effect.exact_error_request ≡ some u) × (is_nil_error errors u ≡ true)
  Misused effect err malformed_graph =
      (u : Option ℕ) × (effect.exact_error_request ≡ some u)
      × ((sanitize_malformed_error errors.graph u).1 ≡ true)
  Misused effect err invalid_classification =
      (u : Option ℕ) × (effect.exact_error_request ≡ some u)
      × ((normalized errors u ≡ none)
          ⊎ ((inspect_terminal_error errors.graph (normalized errors u)).invalid ≡ true))

  -- What a handler's effect and error become.
  pub data Finalized (effect : CommandEffect Command Write) (err : Option ℕ)
      : CommandEffect Command Write → Option ℕ → Type 0 where
    -- No channel was used: the error is normalised.
    unused :
        effect.exact_error_disposition ≡ none
        → effect.exact_error_request ≡ none
        → effect.exact_error_propagation ≡ none
        → Finalized effect err effect (normalized errors err)
    -- A channel was misused: every channel is cleared.
    refused :
        (complaint : Complaint)
        → Misused effect err complaint
        → Finalized effect err
            (clear_exact_error errors same_command effect)
            (some (errors.configuration_error complaint))
    -- The handler of `pressKey` asked for an error, which is published as it is, and classified by
    -- its normal form.
    requested :
        (u c : ℕ)
        → spec.exact_error_policy ≡ press_key_publication
        → str_eq spec.keyword press_key ≡ true
        → is_nil_error errors err ≡ true
        → effect.exact_error_request ≡ some (some u)
        → (effect.exact_error_disposition ≡ none) × (effect.exact_error_propagation ≡ none)
        → normalized errors (some u) ≡ some c
        → invalid_disposition errors (some (record { published = some u; classification = some c }))
          ≡ false
        → Finalized effect err
            (publish errors same_command
              (record { published = some u; classification = some c })
              effect).0
            (some u)
    -- The handler of `retry` passes on what a genuine result of the ledger stands for.
    propagated :
        (source row : CommandResult Command) (d : ExactErrorDisposition)
        → spec.exact_error_policy ≡ retry_propagation
        → str_eq spec.keyword retry_keyword ≡ true
        → is_nil_error errors err ≡ true
        → effect.exact_error_propagation ≡ some (some source)
        → (effect.exact_error_disposition ≡ none) × (effect.exact_error_request ≡ none)
        → Genuine same_command ledger source row
        → disposition_of (exact_error_by (some row)) ≡ some d
        → invalid_disposition errors (some d) ≡ false
        → Finalized effect err (publish errors same_command d effect).0 d.published
