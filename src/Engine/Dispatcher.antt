-- ===== src/Engine/Dispatcher.antt =====
-- internal/engine/registry.go and internal/engine/dispatcher.go: what a handler is registered as,
-- and how an exact-error request that a handler's effect makes is finalised. An error is a reference
-- into a graph; errors that the engine makes itself are references that the graph gives for them.
mod Finalized
mod Exact
mod Examples
use Prim.Native.String.{String}
use text.Mathlib.Text.{◌==◌ as str_eq}
use flowbaton.Prelude.{
  ℕ, List, [], ◌∷◌, Bool, true, false, not, ◌&&◌, ◌||◌, Option, none, some, if◌then◌else◌,
}
use flowbaton.Prelude.Int.{ℤ}
use flowbaton.Engine.Errors.{
  Normalized, nil, malformed, same, operation, normalize_terminal_error, sanitize_malformed_error,
  inspect_terminal_error,
}
use flowbaton.Engine.Errors.Direct.{Graph}
use flowbaton.Engine.Results.{ResultError, raw, sealed, untrusted, CommandResult, Artifact}
use flowbaton.Engine.Ledger.{CommandResultLedger, redeem_exact_error}
use flowbaton.Engine.Sealing.{ExactError}

-- The ConfigurationErrors of the dispatcher.
pub data Complaint : Type 0 where
  malformed_graph forged_disposition both_channels : Complaint
  unauthorized_propagation propagation_not_sole invalid_source : Complaint
  unauthorized_publication request_not_sole no_underlying invalid_classification : Complaint

-- The errors of a run: the graph, and what the engine makes in it.
pub record Errors : Type 0 where
  pub graph : Graph
  pub configuration_error : Complaint → ℕ
  -- An OperationError round another error.
  pub operation_error : ℕ → ℕ

-- `uint8` constants; a number that is none of them is invalid.
pub data EffectClass : Type 0 where
  effect_none observed device_mutation host_mutation composite artifact_effect : EffectClass
  invalid_class : EffectClass

pub data PostAction : Type 0 where
  post_unspecified settle no_settle invalid_post : PostAction

pub data ExactErrorPolicy : Type 0 where
  policy_unspecified press_key_publication retry_propagation invalid_policy : ExactErrorPolicy

pub data RequiredService : Type 0 where
  service_none input_generator invalid_required : RequiredService

-- `handlerSpec`; of the functions it says whether they are there.
pub record HandlerSpec : Type 0 where
  pub keyword : String
  pub effect_class : EffectClass
  pub post_action : PostAction
  pub has_settle_request : Bool
  pub exact_error_policy : ExactErrorPolicy
  pub required_service : RequiredService
  pub has_compiler : Bool
  pub has_evaluator : Bool
  pub has_executor : Bool

pub record ExactErrorDisposition : Type 0 where
  pub published : Option ℕ
  pub classification : Option ℕ

-- `commandEffect`. A request and a propagation are pointers, to an error and to a result that may
-- be nil in turn.
pub record CommandEffect (Command Write : Type 0) : Type 0 where
  pub effect_class : EffectClass
  pub exact_error_request : Option (Option ℕ)
  pub exact_error_propagation : Option (Option (CommandResult Command))
  pub exact_error_disposition : Option ExactErrorDisposition
  pub number_of_runs : ℤ
  pub number_of_runs_set : Bool
  pub evaluated_command : Option Command
  pub log_messages : List String
  pub insight : String
  pub ai_reasoning : String
  pub finalized_artifacts : List Artifact
  pub artifact_writes : List Write

abbrev pub press_key : String
press_key = "pressKey"

abbrev pub retry_keyword : String
retry_keyword = "retry"

abbrev pub is_press_key_publication : ExactErrorPolicy → Bool
is_press_key_publication press_key_publication = true
is_press_key_publication _ = false

abbrev pub is_retry_propagation : ExactErrorPolicy → Bool
is_retry_propagation retry_propagation = true
is_retry_propagation _ = false

-- The error of a result behind `unsealResultError`. An authentic row holds sealed errors only, so
-- no carrier is left.
abbrev pub reference : Option ResultError → Option ℕ
reference none = none
reference (some (raw e)) = some e
reference (some (sealed a e)) = some e
reference (some (untrusted a e)) = some e

abbrev pub disposition_of : Option ExactError → Option ExactErrorDisposition
disposition_of none = none
disposition_of (some e) =
    some (record { published = reference e.published; classification = reference e.classification })

module _ (errors : Errors) where
  abbrev pub normal_error : Normalized → Option ℕ
  normal_error nil = none
  normal_error malformed = some (errors.configuration_error malformed_graph)
  normal_error (same e) = some e
  normal_error (operation e) = some (errors.operation_error e)

  -- `normalizeTerminalError`
  unfoldable pub normalized : Option ℕ → Option ℕ
  normalized e = normal_error (normalize_terminal_error errors.graph e)

  -- `isNilValue` of an error.
  abbrev pub is_nil_error : Option ℕ → Bool
  is_nil_error none = true
  is_nil_error (some e) = (errors.graph e).typed_nil

  abbrev pub is_there : Option ℕ → Bool
  is_there none = false
  is_there (some e) = true

  -- `invalidExactErrorDisposition`
  unfoldable pub invalid_disposition : Option ExactErrorDisposition → Bool
  invalid_disposition none = true
  invalid_disposition (some d) =
      if is_nil_error d.published || not (is_there d.classification)
      then true
      else (sanitize_malformed_error errors.graph d.published).1
        || (inspect_terminal_error errors.graph d.classification).invalid

  module _ {Command Write : Type 0} (same_command : Command → Command → Bool) where
    -- `clearExactErrorState`
    abbrev pub clear_exact_error : CommandEffect Command Write → CommandEffect Command Write
    clear_exact_error effect = record effect {
      exact_error_request = none;
      exact_error_propagation = none;
      exact_error_disposition = none;
    }

    abbrev pub refuse :
        Complaint → CommandEffect Command Write → CommandEffect Command Write × Option ℕ
    refuse complaint effect =
        (clear_exact_error effect, some (errors.configuration_error complaint))

    abbrev pub publish :
        ExactErrorDisposition → CommandEffect Command Write → CommandEffect Command Write × Option ℕ
    publish d effect = (
      record effect {
        exact_error_request = none;
        exact_error_propagation = none;
        exact_error_disposition = some d;
      },
      d.published,
    )

    -- A redeemed disposition, where it is there and valid.
    abbrev pub publish_redeemed :
        Option ExactErrorDisposition
        → CommandEffect Command Write
        → CommandEffect Command Write × Option ℕ
    publish_redeemed none effect = refuse invalid_source effect
    publish_redeemed (some d) effect =
        if invalid_disposition (some d) then refuse invalid_source effect else publish d effect

    unfoldable pub finalize_propagation :
        CommandResultLedger Command
        → HandlerSpec
        → Option (CommandResult Command)
        → CommandEffect Command Write
        → Option ℕ
        → CommandEffect Command Write × Option ℕ
    unfolding invalid_disposition
    finalize_propagation ledger spec source effect err =
        if not (is_retry_propagation spec.exact_error_policy && str_eq spec.keyword retry_keyword)
        then refuse unauthorized_propagation effect
        else if not (is_nil_error err)
        then refuse propagation_not_sole effect
        else publish_redeemed (disposition_of (redeem_exact_error same_command ledger source))
            effect

    -- A request with its normalised classification.
    abbrev pub publish_classified :
        Option ℕ → Option ℕ → CommandEffect Command Write → CommandEffect Command Write × Option ℕ
    publish_classified published none effect = refuse invalid_classification effect
    publish_classified published (some c) effect =
        if (inspect_terminal_error errors.graph (some c)).invalid
        then refuse invalid_classification effect
        else publish (record { published = published; classification = some c }) effect

    unfoldable pub finalize_request :
        HandlerSpec
        → Option ℕ
        → CommandEffect Command Write
        → Option ℕ
        → CommandEffect Command Write × Option ℕ
    unfolding normalized
    finalize_request spec underlying effect err =
        if not (is_press_key_publication spec.exact_error_policy && str_eq spec.keyword press_key)
        then refuse unauthorized_publication effect
        else if not (is_nil_error err)
        then refuse request_not_sole effect
        else if is_nil_error underlying
        then refuse no_underlying effect
        else if (sanitize_malformed_error errors.graph underlying).1
        then refuse malformed_graph effect
        else publish_classified underlying (normalized underlying) effect

    -- `finalizeExactErrorRequest` on the channels of an effect.
    abbrev pub finalize_channels :
        CommandResultLedger Command
        → HandlerSpec
        → Option ExactErrorDisposition
        → Option (Option ℕ)
        → Option (Option (CommandResult Command))
        → CommandEffect Command Write
        → Option ℕ
        → CommandEffect Command Write × Option ℕ
    finalize_channels ledger spec (some d) request propagation effect err =
        refuse forged_disposition effect
    finalize_channels ledger spec none (some u) (some source) effect err =
        refuse both_channels effect
    finalize_channels ledger spec none none (some source) effect err =
        finalize_propagation ledger spec source effect err
    finalize_channels ledger spec none (some u) none effect err = finalize_request spec u effect err
    finalize_channels ledger spec none none none effect err = (effect, normalized err)

    unfoldable pub finalize_exact_error_request :
        CommandResultLedger Command
        → HandlerSpec
        → CommandEffect Command Write
        → Option ℕ
        → CommandEffect Command Write × Option ℕ
    unfolding finalize_propagation finalize_request
    finalize_exact_error_request ledger spec effect err =
        finalize_channels ledger spec effect.exact_error_disposition effect.exact_error_request
          effect.exact_error_propagation effect err
