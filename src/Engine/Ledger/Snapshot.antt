-- ===== src/Engine/Ledger/Snapshot.antt =====
-- What `snapshotAfter` of internal/engine/result_ledger.go gives, and in which order.
use mathlib.Core.Option.{some-injective}
use flowbaton.Prelude.{
  ℕ, ◌<◌, ◌≡◌, ◌↔◌, ◌∙◌, sym, subst, refl, List, [], ◌∷◌, All, Bool, true, false, Option, none,
  some, ◌==◌, arith, if◌then◌else◌,
}
use flowbaton.Engine.Results.{CommandResult}
use flowbaton.Engine.Ledger.{
  Row, CommandResultLedger, find_row, in_rows, release, released_row, same_stored, trusted_row,
  result_of, rows_after, sequence_less, snapshot_after,
}
use flowbaton.Engine.Ledger.Recorded.{IsRows, IsConsistent}
use flowbaton.Engine.Ledger.Authentic.{agreeing_row-some, unless-some}
use flowbaton.Matching.Kept.{Occurs, All-of}
use flowbaton.Engine.Ledger.Orders.{
  All-Permuted, Occurs-Permuted, IsRising, Sorts, IsDistinct-Permuted, IsSorted-IsRising,
  sequence_less-IsStrictWeak,
}
use flowbaton.Engine.Ledger.Collected.{
  IsAnswer, trusted_row-found, rows_after-IsAnswer, rows_after-IsDistinct, Occurs-rows_after,
}

module _ {Command : Type 0} (same_command : Command → Command → Bool)
    (ledger : CommandResultLedger Command) (checkpoint : ℕ) where
  found_in_front :
      (k : ℕ) (r : CommandResult Command) (full rows : List (Row Command))
      → in_rows k rows ≡ false
      → All (λ (row : Row Command). find_row row.0 full ≡ some row.1) rows
      → All (λ (row : Row Command). find_row row.0 ((k, r) ∷ full) ≡ some row.1) rows
  found_in_front k r full [] absent h = tt
  found_in_front k r full ((j, q) ∷ rows) absent h =
      (ground (arith, h.0), found_in_front k r full rows (ground arith) h.1)

  found-All :
      (rows : List (Row Command))
      → IsRows rows
      → All (λ (row : Row Command). find_row row.0 rows ≡ some row.1) rows
  found-All [] h = tt
  found-All ((k, r) ∷ rows) h =
      (ground arith, found_in_front k r rows rows h.4 (found-All rows h.5))

  released_row-some :
      (row : Option (CommandResult Command)) (x : CommandResult Command)
      → released_row row ≡ some x
      → (r : CommandResult Command) × (row ≡ some r) × (release r ≡ x)
  released_row-some none x h = cc
  released_row-some (some r) x h = (r, refl, some-injective (release r) x h)

  if_same :
      (same : Bool) (r : CommandResult Command)
      → (if same then some r else none) ≡ some r
      → same ≡ true
  if_same true r h = refl
  if_same false r h = cc

  Occurs-answer :
      (x : CommandResult Command)
      → IsConsistent ledger
      → checkpoint < x.sequence
      → result_of same_command ledger x.sequence ≡ some x
      → Occurs x (rows_after same_command ledger checkpoint ledger.canonical_by_sequence)
  unfolding result_of trusted_row
  Occurs-answer x consistent late answer =
      let s = x.sequence in
      let (_, there) = unless-some (s == 0) _ x answer in
      let (r, trusted, e) = released_row-some (trusted_row same_command ledger s) x there in
      let (_, _, found) =
        agreeing_row-some same_command (find_row s ledger.by_sequence)
          (find_row s ledger.canonical_by_sequence) r trusted in
      subst (λ y. Occurs y (rows_after same_command ledger checkpoint ledger.canonical_by_sequence))
        e
        (Occurs-rows_after same_command ledger checkpoint s r ledger.canonical_by_sequence
          consistent (found-All ledger.canonical_by_sequence consistent.rows) found (ground arith)
          (if_same (same_stored same_command r r) r (
            sym (trusted_row-found same_command ledger checkpoint s r consistent found) ∙ trusted)))

  -- Where `sort.Slice` reorders any list so that it is sorted by any strict weak order, as it is
  -- documented, the snapshot of a consistent ledger has rising sequences, and a result `x` is in
  -- it exactly where it is behind the checkpoint and is what the ledger answers for its sequence.
  -- So neither the order of recording nor that of the map shows.
  pub snapshot_after-IsAnswer :
      (sort : (CommandResult Command → CommandResult Command → Bool)
        → List (CommandResult Command)
        → List (CommandResult Command))
      (x : CommandResult Command)
      → Sorts sort
      → IsConsistent ledger
      → IsRising (snapshot_after same_command sort ledger checkpoint)
        × (Occurs x (snapshot_after same_command sort ledger checkpoint)
            ↔ IsAnswer same_command ledger checkpoint x)
  unfolding snapshot_after
  snapshot_after-IsAnswer sort x sorts consistent =
      let rows = ledger.canonical_by_sequence in
      let found = found-All rows consistent.rows in
      let (permuted, sorted) =
        sorts sequence_less sequence_less-IsStrictWeak
          (rows_after same_command ledger checkpoint rows) in
      (
        IsSorted-IsRising (sort sequence_less (rows_after same_command ledger checkpoint rows))
            sorted
            (IsDistinct-Permuted permuted (
              rows_after-IsDistinct same_command ledger checkpoint rows consistent consistent.rows
                found)),
        (
          All-of (IsAnswer same_command ledger checkpoint) _ x (
              All-Permuted (IsAnswer same_command ledger checkpoint) permuted (
                rows_after-IsAnswer same_command ledger checkpoint rows consistent consistent.rows
                  found)),
          (λ h. Occurs-Permuted x permuted (Occurs-answer x consistent h.0 h.1)),
        ),
      )
