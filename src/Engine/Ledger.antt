-- ===== src/Engine/Ledger.antt =====
-- internal/engine/result_ledger.go: the ledger of one root's command results. A map is the list of
-- its entries, in no order that counts; a ledger that is nil, and the lock, are left out.
pub mod Carriers
pub mod Recorded
pub mod Authentic
pub mod Genuine
pub mod Orders
pub mod Collected
pub mod Snapshot
pub mod Readable
mod Examples
use flowbaton.Prelude.{
  ℕ, suc, List, [], ◌∷◌, ◌++◌, Bool, true, false, not, ◌&&◌, Option, none, some, ltb, leb, ◌==◌,
  if◌then◌else◌,
}
use flowbaton.Prelude.Int.{ℤ, pos, ltb_ℤ}
use flowbaton.Engine.Results.{
  ResultError, raw, sealed, untrusted, Publication, RetryClassification, CommandResult,
  same_sealed_error, same_stored_error, same_command_result,
}
use flowbaton.Engine.Sealing.{
  ExactError, retain_error, retain_publication, retain_classification, release_error,
  release_publication, release_classification, unseal_error, exact_error_of, exact_error_in,
}

abbrev pub Row : Type 0 → Type 0
Row Command = ℕ × CommandResult Command

pub record CommandResultLedger (Command : Type 0) : Type 0 where
  pub by_sequence : List (Row Command)
  pub canonical_by_sequence : List (Row Command)
  -- The next address that the ledger gives to a carrier of its own.
  pub next_address : ℕ

-- The ConfigurationErrors of `record`.
pub data Refusal : Type 0 where
  sequence_zero depth_negative already_recorded : Refusal

abbrev pub if_there : {A B : Type 0} → Option A → Option B → Option B
if_there none b = none
if_there (some a) b = b

abbrev pub find_row : {A : Type 0} → ℕ → List (ℕ × A) → Option A
find_row key [] = none
find_row key ((k, a) ∷ rows) = if k == key then some a else find_row key rows

abbrev pub in_rows : {A : Type 0} → ℕ → List (ℕ × A) → Bool
in_rows key [] = false
in_rows key ((k, a) ∷ rows) = if k == key then true else in_rows key rows

module _ {Command : Type 0} where
  -- `newCommandResultLedger`
  abbrev pub new_ledger : CommandResultLedger Command
  new_ledger = record { by_sequence = []; canonical_by_sequence = []; next_address = 0 }

  -- `retainLedgerResultErrors`
  unfoldable pub retain : ℕ → CommandResult Command → CommandResult Command × ℕ
  unfolding retain_error retain_classification
  retain next r =
      let (product_error, next₁) = retain_error next r.product_error in
      let (classification, next₂) = retain_classification next₁ r.retry_classification in
      (record r { product_error = product_error; retry_classification = classification }, next₂)

  -- `releaseLedgerResultErrors`
  unfoldable pub release : CommandResult Command → CommandResult Command
  unfolding release_error release_classification
  release r = record r {
    product_error = release_error r.product_error;
    retry_classification = release_classification r.retry_classification;
  }

  abbrev pub released_row : Option (CommandResult Command) → Option (CommandResult Command)
  released_row none = none
  released_row (some r) = some (release r)

  unfoldable pub insert :
      CommandResult Command → CommandResultLedger Command → CommandResultLedger Command
  unfolding retain
  insert r ledger =
      let (stored, next) = retain ledger.next_address r in
      record {
        by_sequence = (r.sequence, stored) ∷ ledger.by_sequence;
        canonical_by_sequence = (r.sequence, stored) ∷ ledger.canonical_by_sequence;
        next_address = next;
      }

  -- `record`
  unfoldable pub record_result :
      CommandResult Command
      → CommandResultLedger Command
      → Option Refusal × CommandResultLedger Command
  unfolding insert
  record_result r ledger =
      if r.sequence == 0
      then (some sequence_zero, ledger)
      else if ltb_ℤ r.depth (pos 0)
      then (some depth_negative, ledger)
      else if in_rows r.sequence ledger.by_sequence
      then (some already_recorded, ledger)
      else if in_rows r.sequence ledger.canonical_by_sequence
      then (some already_recorded, ledger)
      else (none, insert r ledger)

  -- The function that `snapshotAfter` sorts by.
  abbrev pub sequence_less : CommandResult Command → CommandResult Command → Bool
  sequence_less left right = ltb left.sequence right.sequence

  abbrev pub exact_error_by : Option (CommandResult Command) → Option ExactError
  exact_error_by none = none
  exact_error_by (some r) = exact_error_in r.retry_classification

module _ {Command : Type 0} (same_command : Command → Command → Bool) where
  -- `sameStoredCommandResult`
  abbrev pub same_stored : CommandResult Command → CommandResult Command → Bool
  same_stored = same_command_result same_command same_stored_error

  -- `sameAuthenticatedCommandResult`
  abbrev pub same_authenticated : CommandResult Command → CommandResult Command → Bool
  same_authenticated = same_command_result same_command same_sealed_error

  -- The canonical row where both maps hold the same.
  abbrev pub agreeing_row :
      Option (CommandResult Command)
      → Option (CommandResult Command)
      → Option (CommandResult Command)
  agreeing_row none canonical = none
  agreeing_row (some recorded) none = none
  agreeing_row (some recorded) (some canonical) =
      if same_stored canonical recorded then some canonical else none

  unfoldable pub trusted_row : CommandResultLedger Command → ℕ → Option (CommandResult Command)
  trusted_row ledger sequence =
      agreeing_row (find_row sequence ledger.by_sequence)
        (find_row sequence ledger.canonical_by_sequence)

  abbrev pub matching_row :
      Option (CommandResult Command) → CommandResult Command → Option (CommandResult Command)
  matching_row none candidate = none
  matching_row (some canonical) candidate =
      if same_authenticated canonical candidate then some canonical else none

  unfoldable pub authenticate :
      CommandResultLedger Command → CommandResult Command → Option (CommandResult Command)
  unfolding trusted_row
  authenticate ledger candidate = if_there candidate.identity (
      if candidate.sequence == 0
      then none
      else matching_row (trusted_row ledger candidate.sequence) candidate)

  -- `redeemExactError`
  unfoldable pub redeem_exact_error :
      CommandResultLedger Command → Option (CommandResult Command) → Option ExactError
  unfolding authenticate unseal_error
  redeem_exact_error ledger none = none
  redeem_exact_error ledger (some candidate) = exact_error_by (authenticate ledger candidate)

  -- `result`
  unfoldable pub result_of : CommandResultLedger Command → ℕ → Option (CommandResult Command)
  unfolding trusted_row release
  result_of ledger sequence =
      if sequence == 0 then none else released_row (trusted_row ledger sequence)

  abbrev pub row_after :
      CommandResultLedger Command → ℕ → Row Command → List (CommandResult Command)
  row_after ledger checkpoint (sequence, canonical) = elim (find_row sequence ledger.by_sequence) [
    | none ↦ []
    | some recorded ↦
        if leb sequence checkpoint
        then []
        else if same_stored canonical recorded
        then release canonical ∷ []
        else []
  ]

  -- The loop of `snapshotAfter` over the canonical map.
  unfoldable pub rows_after :
      CommandResultLedger Command → ℕ → List (Row Command) → List (CommandResult Command)
  unfolding release
  rows_after ledger checkpoint [] = []
  rows_after ledger checkpoint (row ∷ rows) =
      row_after ledger checkpoint row ++ rows_after ledger checkpoint rows

  -- `snapshotAfter`, where `sort` is `sort.Slice`.
  unfoldable pub snapshot_after :
      ((CommandResult Command → CommandResult Command → Bool)
        → List (CommandResult Command)
        → List (CommandResult Command))
      → CommandResultLedger Command
      → ℕ
      → List (CommandResult Command)
  unfolding rows_after
  snapshot_after sort ledger checkpoint =
      sort sequence_less (rows_after ledger checkpoint ledger.canonical_by_sequence)
