-- ===== src/Engine/Dispatcher/Exact.antt =====
-- Which exact errors `finalizeExactErrorRequest` of internal/engine/dispatcher.go lets through.
use text.Mathlib.Text.{◌==◌ as str_eq}
use flowbaton.Prelude.{
  ℕ, ◌≡◌, refl, inl, inr, Bool, true, false, ◌&&◌, Option, none, some, Bool-cases, arith,
  if◌then◌else◌,
}
use flowbaton.Engine.Errors.{sanitize_malformed_error, inspect_terminal_error}
use flowbaton.Engine.Results.{CommandResult}
use flowbaton.Engine.Results.Same.{&&-true}
use flowbaton.Engine.Ledger.{CommandResultLedger, exact_error_by, authenticate, redeem_exact_error}
use flowbaton.Engine.Ledger.Genuine.{authenticate-Genuine}
use flowbaton.Engine.Dispatcher.{
  Errors, malformed_graph, forged_disposition, both_channels, unauthorized_propagation,
  propagation_not_sole, invalid_source, unauthorized_publication, request_not_sole, no_underlying,
  invalid_classification, ExactErrorPolicy, policy_unspecified, press_key_publication,
  retry_propagation, invalid_policy, HandlerSpec, ExactErrorDisposition, CommandEffect, press_key,
  retry_keyword, is_press_key_publication, is_retry_propagation, disposition_of, normalized,
  is_nil_error, invalid_disposition, refuse, publish_redeemed, finalize_propagation,
  publish_classified, finalize_request, finalize_channels, finalize_exact_error_request,
}
use flowbaton.Engine.Dispatcher.Finalized.{Finalized}

is_press_key_publication-true :
    (p : ExactErrorPolicy) → is_press_key_publication p ≡ true → p ≡ press_key_publication
is_press_key_publication-true press_key_publication h = refl
is_press_key_publication-true policy_unspecified h = cc
is_press_key_publication-true retry_propagation h = cc
is_press_key_publication-true invalid_policy h = cc

is_retry_propagation-true :
    (p : ExactErrorPolicy) → is_retry_propagation p ≡ true → p ≡ retry_propagation
is_retry_propagation-true retry_propagation h = refl
is_retry_propagation-true policy_unspecified h = cc
is_retry_propagation-true press_key_publication h = cc
is_retry_propagation-true invalid_policy h = cc

module _ (errors : Errors) {Command Write : Type 0} (same_command : Command → Command → Bool)
    (ledger : CommandResultLedger Command) (spec : HandlerSpec) where
  abbrev FinalizedAs :
      CommandEffect Command Write → Option ℕ → CommandEffect Command Write × Option ℕ → Type 0
  FinalizedAs effect err p = Finalized errors same_command ledger spec effect err p.0 p.1

  published_classified :
      (effect : CommandEffect Command Write) (err : Option ℕ) (u : ℕ) (c : Option ℕ)
      → spec.exact_error_policy ≡ press_key_publication
      → str_eq spec.keyword press_key ≡ true
      → is_nil_error errors err ≡ true
      → effect.exact_error_request ≡ some (some u)
      → (effect.exact_error_disposition ≡ none) × (effect.exact_error_propagation ≡ none)
      → is_nil_error errors (some u) ≡ false
      → (sanitize_malformed_error errors.graph (some u)).1 ≡ false
      → normalized errors (some u) ≡ c
      → FinalizedAs effect err (publish_classified errors same_command (some u) c effect)
  unfolding invalid_disposition
  published_classified effect err u none policy keyword sole asked alone there kept normal =
      Finalized.refused invalid_classification (some u, asked, inl normal)
  published_classified effect err u (some c) policy keyword sole asked alone there kept normal =
      elim (Bool-cases (inspect_terminal_error errors.graph (some c)).invalid) [
        | inl bad ↦
            rw bad (Finalized.refused invalid_classification (some u, asked, inr (rw normal bad)))
        | inr good ↦
            rw good (Finalized.requested u c policy keyword sole asked alone normal (ground arith))
      ]

  requested_there :
      (effect : CommandEffect Command Write) (err u : Option ℕ)
      → effect.exact_error_request ≡ some u
      → (effect.exact_error_disposition ≡ none) × (effect.exact_error_propagation ≡ none)
      → is_press_key_publication spec.exact_error_policy && str_eq spec.keyword press_key ≡ true
      → is_nil_error errors err ≡ true
      → FinalizedAs effect err (
          if is_nil_error errors u
          then refuse errors same_command no_underlying effect
          else if (sanitize_malformed_error errors.graph u).1
          then refuse errors same_command malformed_graph effect
          else publish_classified errors same_command u (normalized errors u) effect)
  requested_there effect err none asked alone authorized sole =
      Finalized.refused no_underlying (none, asked, refl)
  requested_there effect err (some u) asked alone authorized sole =
      elim (Bool-cases (is_nil_error errors (some u))) [
        | inl missing ↦ rw missing (Finalized.refused no_underlying (some u, asked, missing))
        | inr there ↦ elim (Bool-cases (sanitize_malformed_error errors.graph (some u)).1) [
          | inl replaced ↦
              rw (there, replaced) (Finalized.refused malformed_graph (some u, asked, replaced))
          | inr kept ↦
              let (policy, keyword) = &&-true _ _ authorized in
              rw (there, kept)
                (published_classified effect err u (normalized errors (some u))
                  (is_press_key_publication-true spec.exact_error_policy policy) keyword sole asked
                  alone there kept refl)
        ]
      ]

  finalized_request :
      (effect : CommandEffect Command Write) (err u : Option ℕ)
      → effect.exact_error_request ≡ some u
      → (effect.exact_error_disposition ≡ none) × (effect.exact_error_propagation ≡ none)
      → FinalizedAs effect err (finalize_request errors same_command spec u effect err)
  unfolding finalize_request
  finalized_request effect err u asked alone =
      elim (Bool-cases
        (is_press_key_publication spec.exact_error_policy && str_eq spec.keyword press_key)) [
          | inr other ↦ rw other (Finalized.refused unauthorized_publication ((λ e. cc), other))
          | inl authorized ↦ elim (Bool-cases (is_nil_error errors err)) [
            | inr told ↦
                rw (authorized, told) (Finalized.refused request_not_sole ((λ e. cc), told))
            | inl sole ↦
                rw (authorized, sole) (requested_there effect err u asked alone authorized sole)
          ]
        ]

  published_redeemed :
      (effect : CommandEffect Command Write) (err : Option ℕ) (source row : CommandResult Command)
      (d : ExactErrorDisposition)
      → spec.exact_error_policy ≡ retry_propagation
      → str_eq spec.keyword retry_keyword ≡ true
      → is_nil_error errors err ≡ true
      → effect.exact_error_propagation ≡ some (some source)
      → (effect.exact_error_disposition ≡ none) × (effect.exact_error_request ≡ none)
      → authenticate same_command ledger source ≡ some row
      → disposition_of (exact_error_by (some row)) ≡ some d
      → disposition_of (redeem_exact_error same_command ledger (some source)) ≡ some d
      → FinalizedAs effect err (publish_redeemed errors same_command (some d) effect)
  published_redeemed effect err source row d policy keyword sole asked alone found there redeemed =
      elim (Bool-cases (invalid_disposition errors (some d))) [
        | inl bad ↦ rw bad (Finalized.refused invalid_source (some source, asked, rw redeemed bad))
        | inr good ↦ rw good (
            Finalized.propagated source row d policy keyword sole asked alone
              (authenticate-Genuine same_command ledger source row found) there good)
      ]

  redeemed_source :
      (effect : CommandEffect Command Write) (err : Option ℕ) (source : CommandResult Command)
      (row : Option (CommandResult Command)) (d : Option ExactErrorDisposition)
      → spec.exact_error_policy ≡ retry_propagation
      → str_eq spec.keyword retry_keyword ≡ true
      → is_nil_error errors err ≡ true
      → effect.exact_error_propagation ≡ some (some source)
      → (effect.exact_error_disposition ≡ none) × (effect.exact_error_request ≡ none)
      → authenticate same_command ledger source ≡ row
      → disposition_of (exact_error_by row) ≡ d
      → disposition_of (redeem_exact_error same_command ledger (some source)) ≡ d
      → FinalizedAs effect err (publish_redeemed errors same_command d effect)
  redeemed_source effect err source row none policy keyword sole asked alone found there redeemed =
      Finalized.refused invalid_source
        (some source, asked, rw redeemed (unfold invalid_disposition in refl))
  redeemed_source effect err source none (some d) policy keyword sole asked alone found there
        redeemed =
      absurd (cc there)
  redeemed_source effect err source (some row) (some d) policy keyword sole asked alone found there
        redeemed =
      published_redeemed effect err source row d policy keyword sole asked alone found there
        redeemed

  finalized_propagation :
      (effect : CommandEffect Command Write) (err : Option ℕ)
      (source : Option (CommandResult Command))
      → effect.exact_error_propagation ≡ some source
      → (effect.exact_error_disposition ≡ none) × (effect.exact_error_request ≡ none)
      → FinalizedAs effect err
          (finalize_propagation errors same_command ledger spec source effect err)
  unfolding finalize_propagation redeem_exact_error
  finalized_propagation effect err none asked alone =
      elim (Bool-cases
        (is_retry_propagation spec.exact_error_policy && str_eq spec.keyword retry_keyword)) [
          | inr other ↦ rw other (Finalized.refused unauthorized_propagation ((λ e. cc), other))
          | inl authorized ↦ elim (Bool-cases (is_nil_error errors err)) [
            | inr told ↦
                rw (authorized, told) (Finalized.refused propagation_not_sole ((λ e. cc), told))
            | inl sole ↦
                rw (authorized, sole)
                  (Finalized.refused invalid_source
                    (none, asked, unfold invalid_disposition in refl))
          ]
        ]
  finalized_propagation effect err (some source) asked alone =
      elim (Bool-cases
        (is_retry_propagation spec.exact_error_policy && str_eq spec.keyword retry_keyword)) [
          | inr other ↦ rw other (Finalized.refused unauthorized_propagation ((λ e. cc), other))
          | inl authorized ↦ elim (Bool-cases (is_nil_error errors err)) [
            | inr told ↦
                rw (authorized, told) (Finalized.refused propagation_not_sole ((λ e. cc), told))
            | inl sole ↦
                let (policy, keyword) = &&-true _ _ authorized in
                rw (authorized, sole)
                  (redeemed_source effect err source (authenticate same_command ledger source) _
                    (is_retry_propagation-true spec.exact_error_policy policy) keyword sole asked
                    alone refl refl refl)
          ]
        ]

  finalized_channels :
      (effect : CommandEffect Command Write) (err : Option ℕ)
      (disposition : Option ExactErrorDisposition) (request : Option (Option ℕ))
      (propagation : Option (Option (CommandResult Command)))
      → effect.exact_error_disposition ≡ disposition
      → effect.exact_error_request ≡ request
      → effect.exact_error_propagation ≡ propagation
      → FinalizedAs effect err (
          finalize_channels errors same_command ledger spec disposition request propagation effect
            err)
  finalized_channels effect err (some d) request propagation forged asked passed =
      Finalized.refused forged_disposition (λ e. cc)
  finalized_channels effect err none (some u) (some source) clean asked passed =
      Finalized.refused both_channels ((λ e. cc), (λ e. cc))
  finalized_channels effect err none none (some source) clean asked passed =
      finalized_propagation effect err source passed (clean, asked)
  finalized_channels effect err none (some u) none clean asked passed =
      finalized_request effect err u asked (clean, passed)
  finalized_channels effect err none none none clean asked passed =
      Finalized.unused clean asked passed

  -- What a handler's effect and error become, whatever the ledger holds. Where no channel
  -- was used, the effect stays and the error is normalised. An exact error is let through only for
  -- `pressKey` under its policy, or for `retry` under its own, as the sole error on the sole channel, with a
  -- valid classification: for `pressKey` the error that was asked for, classified by its normal form, and
  -- for `retry` what a genuine result of the ledger stands for. The channels, a forged disposition
  -- included, are cleared with a ConfigurationError only where that complaint holds: of a forged
  -- disposition, of both channels, or, of the one that was used, of its authorization, of an error
  -- beside it, of its source or of its graph.
  pub finalize_exact_error_request-Finalized :
      (effect : CommandEffect Command Write) (err : Option ℕ)
      → Finalized errors same_command ledger spec effect err
          (finalize_exact_error_request errors same_command ledger spec effect err).0
          (finalize_exact_error_request errors same_command ledger spec effect err).1
  unfolding finalize_exact_error_request
  finalize_exact_error_request-Finalized effect err =
      finalized_channels effect err effect.exact_error_disposition effect.exact_error_request
        effect.exact_error_propagation refl refl refl
