-- ===== src/Engine/Results.antt =====
-- Command results of internal/engine/results.go, and the comparisons of them in
-- internal/engine/result_ledger.go. Commands are values of any type. Copies are left out: values do
-- not change here, and the slices that a copy makes nil are nil already, since the executor copies a
-- command before it runs it; pointers that the code compares are addresses.
pub mod Same
use Prim.Native.String.{String}
use text.Mathlib.Text.{◌==◌ as str_eq}
use flowbaton.Prelude.{
  ℕ, List, [], ◌∷◌, Bool, true, false, not, ◌&&◌, ◌||◌, Option, none, some, ltb, ◌==◌, length,
  if◌then◌else◌,
}
use flowbaton.Prelude.Int.{ℤ, pos, negsuc, ◌==ℤ◌}

-- The five terminal outcomes, or a string that is none of them.
pub data Outcome : Type 0 where
  completed skipped warned failed cancelled : Outcome
  unknown : String → Outcome

unfoldable pub same_outcome : Outcome → Outcome → Bool
same_outcome completed completed = true
same_outcome skipped skipped = true
same_outcome warned warned = true
same_outcome failed failed = true
same_outcome cancelled cancelled = true
same_outcome (unknown s) (unknown t) = str_eq s t
same_outcome _ _ = false

-- An error in a result: as a call returned it, or in a carrier that is told by its address, the
-- executor's `resultErrorCarrier` or the ledger's own `ledgerUntrustedErrorCarrier`.
pub data ResultError : Type 0 where
  raw : ℕ → ResultError
  sealed : ℕ → ℕ → ResultError
  untrusted : ℕ → ℕ → ResultError

pub record Publication : Type 0 where
  pub published : Option ResultError
  pub classification : Option ResultError

pub record RetryClassification : Type 0 where
  pub classification : Option ResultError
  pub publication : Option Publication

pub record CommandMetadata (Command : Type 0) : Type 0 where
  pub number_of_runs : ℤ
  pub number_of_runs_set : Bool
  pub evaluated_command : Option Command
  pub log_messages : Option (List String)
  pub insight : String
  pub ai_reasoning : String

-- Slices and maps are `none` where they are nil.
pub record Artifact : Type 0 where
  pub kind : String
  pub path : String
  pub metadata : Option (List (String × String))

pub record CommandResult (Command : Type 0) : Type 0 where
  -- The address of the `commandResultIdentity`.
  pub identity : Option ℕ
  pub root_run_id : String
  pub sequence : ℕ
  pub depth : ℤ
  pub command : Command
  pub outcome : Outcome
  pub product_error : Option ResultError
  pub retry_classification : Option RetryClassification
  pub started_at : ℕ
  pub finished_at : ℕ
  pub duration : ℤ
  pub metadata : CommandMetadata Command
  pub artifacts : Option (List Artifact)

-- Two pointers: both nil, or one address.
abbrev pub same_pointer : Option ℕ → Option ℕ → Bool
same_pointer none none = true
same_pointer (some a) (some b) = a == b
same_pointer _ _ = false

-- `sameSealedResultError`
unfoldable pub same_sealed_error : Option ResultError → Option ResultError → Bool
same_sealed_error none none = true
same_sealed_error (some (sealed a e)) (some (sealed b f)) = a == b
same_sealed_error _ _ = false

-- `sameStoredResultError`
unfoldable pub same_stored_error : Option ResultError → Option ResultError → Bool
same_stored_error none none = true
same_stored_error (some (sealed a e)) (some (sealed b f)) = a == b
same_stored_error (some (untrusted a e)) (some (untrusted b f)) = a == b
same_stored_error _ _ = false

-- `sameStrings` without the test for nil.
abbrev pub same_list : {A : Type 0} → (A → A → Bool) → List A → List A → Bool
same_list same [] [] = true
same_list same (x ∷ xs) (y ∷ ys) = same x y && same_list same xs ys
same_list same _ _ = false

-- Both nil, or both there and the same.
abbrev pub same_option : {A : Type 0} → (A → A → Bool) → Option A → Option A → Bool
same_option same none none = true
same_option same (some a) (some b) = same a b
same_option same _ _ = false

abbrev pub find_entry : {V : Type 0} → String → List (String × V) → Option V
find_entry key [] = none
find_entry key ((k, v) ∷ entries) = if str_eq k key then some v else find_entry key entries

abbrev pub value_agrees : {V : Type 0} → (V → V → Bool) → Option V → V → Bool
value_agrees same none value = false
value_agrees same (some v) value = same v value

abbrev pub all_entries :
    {V : Type 0} → (V → V → Bool) → List (String × V) → List (String × V) → Bool
all_entries same [] candidate = true
all_entries same ((k, v) ∷ entries) candidate =
    value_agrees same (find_entry k candidate) v && all_entries same entries candidate

-- `sameStringMap` and `sameSourceMap` behind the test for nil.
unfoldable pub same_map :
    {V : Type 0} → (V → V → Bool) → List (String × V) → List (String × V) → Bool
same_map same recorded candidate =
    length recorded == length candidate && all_entries same recorded candidate

unfoldable pub same_artifact : Artifact → Artifact → Bool
unfolding same_map
same_artifact a b =
    (str_eq a.kind b.kind && str_eq a.path b.path)
    && same_option (same_map str_eq) a.metadata b.metadata

module _ (same_error : Option ResultError → Option ResultError → Bool) where
  abbrev pub same_publication : Publication → Publication → Bool
  same_publication a b =
      same_error a.published b.published && same_error a.classification b.classification

  -- `sameRetryClassification` behind the test for nil.
  unfoldable pub same_classification : RetryClassification → RetryClassification → Bool
  same_classification a b =
      same_error a.classification b.classification
      && same_option same_publication a.publication b.publication

module _ {Command : Type 0} (same_command : Command → Command → Bool) where
  abbrev pub same_bool : Bool → Bool → Bool
  same_bool true b = b
  same_bool false b = not b

  -- `sameCommandMetadata`
  unfoldable pub same_metadata : CommandMetadata Command → CommandMetadata Command → Bool
  same_metadata a b =
      ((a.number_of_runs ==ℤ b.number_of_runs
          && same_bool a.number_of_runs_set b.number_of_runs_set)
        && (str_eq a.insight b.insight && str_eq a.ai_reasoning b.ai_reasoning))
      && (same_option (same_list str_eq) a.log_messages b.log_messages
          && same_option same_command a.evaluated_command b.evaluated_command)

  module _ (same_error : Option ResultError → Option ResultError → Bool) where
    abbrev pub same_place : CommandResult Command → CommandResult Command → Bool
    same_place a b =
        (same_pointer a.identity b.identity && str_eq a.root_run_id b.root_run_id)
        && (a.sequence == b.sequence && a.depth ==ℤ b.depth)

    abbrev pub same_times : CommandResult Command → CommandResult Command → Bool
    same_times a b =
        (a.started_at == b.started_at && a.finished_at == b.finished_at)
        && a.duration ==ℤ b.duration

    -- `sameCommandResult`
    unfoldable pub same_command_result : CommandResult Command → CommandResult Command → Bool
    unfolding same_outcome same_classification same_metadata same_artifact
    same_command_result a b =
        ((same_place a b && same_outcome a.outcome b.outcome)
          && (same_times a b && same_command a.command b.command))
        && ((same_error a.product_error b.product_error
              && same_option (same_classification same_error) a.retry_classification
                  b.retry_classification)
            && (same_metadata a.metadata b.metadata
                && same_option (same_list same_artifact) a.artifacts b.artifacts))
