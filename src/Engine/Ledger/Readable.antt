-- ===== src/Engine/Ledger/Readable.antt =====
-- Which results internal/engine/result_ledger.go gives back once it has recorded them.
use flowbaton.Prelude.{
  ◌≡◌, ◌∙◌, refl, sym, ap, Bool, true, false, ◌&&◌, ◌∷◌, Option, none, some, ◌==◌, arith,
  if◌then◌else◌,
}
use text.Mathlib.Text.{◌==◌ as str_eq}
use flowbaton.Prelude.Int.{◌==ℤ◌}
use flowbaton.Engine.Results.{
  CommandResult, same_place, same_outcome, same_times, same_list, same_artifact,
  same_classification, same_bool, same_option, same_metadata, same_command_result,
  same_stored_error,
}
use flowbaton.Engine.Results.Same.{
  &&-true, IsKeyedArtifacts, OfOption, EveryError, IsStored, same_stored_error_refl,
  same_command_result_refl,
}
use flowbaton.Engine.Commands.{Command, equivalent}
use flowbaton.Engine.Commands.Origin.{same_command_snapshot}
use flowbaton.Engine.Commands.Plain.{PlainCommand}
use flowbaton.Engine.Commands.Same.{same_command_origin_refl}
use flowbaton.Engine.Ledger.{
  CommandResultLedger, retain, insert, record_result, released_row, same_stored, trusted_row,
  result_of, agreeing_row, find_row, release,
}
use flowbaton.Engine.Ledger.Carriers.{IsOutside, retain-IsStored, release-retain}
use flowbaton.Engine.Ledger.Recorded.{accepts, record_accepted, find_row-cons_self}

&&-true_right : (a : Bool) → a && true ≡ a
&&-true_right true = refl
&&-true_right false = refl

bool_eq : (a b : Bool) → (a ≡ true → b ≡ true) → (b ≡ true → a ≡ true) → a ≡ b
bool_eq true b f g = sym (f refl)
bool_eq false true f g = g refl
bool_eq false false f g = refl

option_comparable :
    {A : Type 0} (same : A → A → Bool) (o : Option A)
    → same_option same o o ≡ true
    → OfOption (λ a. same a a ≡ true) o
option_comparable same none h = tt
option_comparable same (some a) h = h

-- What two of the tests say where all of them hold.
deep_inside :
    (a b x c d e y f : Bool)
    → (a && (b && x)) && (c && ((d && (e && y)) && f)) ≡ true
    → x && y ≡ true
deep_inside a b x c d e y f h = ground arith

module _ {Command : Type 0} (same_command : Command → Command → Bool) where
  -- The commands that a result holds are the same as themselves.
  abbrev pub own_commands : CommandResult Command → Bool
  own_commands r =
      same_command r.command r.command
      && same_option same_command r.metadata.evaluated_command r.metadata.evaluated_command

  same_stored_own :
      (r : CommandResult Command)
      → OfOption IsKeyedArtifacts r.artifacts
      → EveryError IsStored r
      → same_stored same_command r r ≡ own_commands r
  unfolding same_command_result same_metadata
  same_stored_own r keyed stored =
      bool_eq _ _
        (λ h.
          deep_inside
            (same_place same_command same_stored_error r r && same_outcome r.outcome r.outcome)
            (same_times same_command same_stored_error r r) (same_command r.command r.command)
            (same_stored_error r.product_error r.product_error
              && same_option (same_classification same_stored_error) r.retry_classification
                  r.retry_classification)
            ((r.metadata.number_of_runs ==ℤ r.metadata.number_of_runs
                && same_bool same_command r.metadata.number_of_runs_set
                    r.metadata.number_of_runs_set)
              && (str_eq r.metadata.insight r.metadata.insight
                  && str_eq r.metadata.ai_reasoning r.metadata.ai_reasoning))
            (same_option (same_list str_eq) r.metadata.log_messages r.metadata.log_messages)
            (same_option same_command r.metadata.evaluated_command r.metadata.evaluated_command)
            (same_option (same_list same_artifact) r.artifacts r.artifacts) h)
        (λ h.
          let parts = &&-true _ _ h in
          same_command_result_refl same_command same_stored_error IsStored same_stored_error_refl r
            (record {
              command = parts.0;
              evaluated = option_comparable same_command r.metadata.evaluated_command parts.1;
              keyed = keyed;
            })
            stored)

  trusted_row-insert_own :
      (r : CommandResult Command) (ledger : CommandResultLedger Command)
      → OfOption IsKeyedArtifacts r.artifacts
      → trusted_row same_command (insert r ledger) r.sequence
        ≡ (if own_commands r then some (retain ledger.next_address r).0 else none)
  unfolding trusted_row insert retain
  trusted_row-insert_own r ledger keyed =
      let stored = (retain ledger.next_address r).0 in
      ap
        (agreeing_row same_command
          (find_row r.sequence ((r.sequence, stored) ∷ ledger.by_sequence)))
        (find_row-cons_self r.sequence stored ledger.canonical_by_sequence)
      ∙ ap (λ row. agreeing_row same_command row (some stored))
          (find_row-cons_self r.sequence stored ledger.by_sequence)
      ∙ ap (λ test. if test then some stored else none)
          (same_stored_own stored keyed (retain-IsStored ledger.next_address r))

  released_own :
      (own : Bool) (stored r : CommandResult Command)
      → release stored ≡ r
      → released_row (if own then some stored else none) ≡ (if own then some r else none)
  released_own true stored r h = ap some h
  released_own false stored r h = refl

  result_of-insert_own :
      (r : CommandResult Command) (ledger : CommandResultLedger Command)
      → (r.sequence == 0) ≡ false
      → OfOption IsKeyedArtifacts r.artifacts
      → EveryError IsOutside r
      → result_of same_command (insert r ledger) r.sequence
        ≡ (if own_commands r then some r else none)
  unfolding result_of
  result_of-insert_own r ledger positive keyed outside =
      ap
        (λ test.
          if test
          then none
          else released_row (trusted_row same_command (insert r ledger) r.sequence))
        positive
      ∙ ap released_row (trusted_row-insert_own r ledger keyed)
      ∙ released_own (own_commands r) (retain ledger.next_address r).0 r
          (release-retain ledger.next_address r outside)

-- Every map of sources in a command has every key once.
abbrev pub IsKeyedCommand : {Facts : Type 0} → Command Facts → Type 0
IsKeyedCommand c = PlainCommand (λ f g. true) c

module _ {Facts : Type 0} (deep_equal : Facts → Facts → Bool) where
  same_command_snapshot_self :
      (c : Command Facts)
      → IsKeyedCommand c
      → same_command_snapshot deep_equal c c ≡ equivalent deep_equal c c
  unfolding same_command_snapshot
  same_command_snapshot_self c h =
      rw (same_command_origin_refl (λ f g. true) c h) (&&-true_right (equivalent deep_equal c c))

  same_option_self :
      (o : Option (Command Facts))
      → OfOption IsKeyedCommand o
      → same_option (same_command_snapshot deep_equal) o o ≡ same_option (equivalent deep_equal) o o
  same_option_self none h = refl
  same_option_self (some c) h = same_command_snapshot_self c h

  -- An accepted result whose errors are in no carrier of a ledger, and whose maps have every key
  -- once, is read back as it was where its command and its evaluated command are equivalent to
  -- themselves, and else not at all. So the places in the source never stand in the way, and a
  -- command that `reflect.DeepEqual` tells from its own copy is lost with its result.
  pub result_of-record_accepted :
      (r : CommandResult (Command Facts)) (ledger : CommandResultLedger (Command Facts))
      → accepts ledger r ≡ true
      → IsKeyedCommand r.command
      → OfOption IsKeyedCommand r.metadata.evaluated_command
      → OfOption IsKeyedArtifacts r.artifacts
      → EveryError IsOutside r
      → result_of (same_command_snapshot deep_equal) (record_result r ledger).1 r.sequence ≡ (
          if equivalent deep_equal r.command r.command
            && same_option
                (equivalent deep_equal)
                r.metadata.evaluated_command
                r.metadata.evaluated_command
          then some r
          else none)
  result_of-record_accepted r ledger accepted command evaluated keyed outside =
      ap (λ p. result_of (same_command_snapshot deep_equal) p.1 r.sequence)
        (record_accepted r ledger accepted)
      ∙ result_of-insert_own (same_command_snapshot deep_equal) r ledger (ground arith) keyed
          outside
      ∙ ap (λ own. if own then some r else none)
          (rw
            (
              same_command_snapshot_self r.command command,
              same_option_self r.metadata.evaluated_command evaluated,
            )
            refl)
