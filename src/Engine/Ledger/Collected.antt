-- ===== src/Engine/Ledger/Collected.antt =====
-- The rows that the loop of `snapshotAfter` of internal/engine/result_ledger.go collects.
use mathlib.Core.Option.{some-injective}
use flowbaton.Prelude.{
  ℕ, ◌<◌, ◌≡◌, ◌≢◌, ◌∙◌, sym, ap, subst, refl, inl, inr, List, [], ◌∷◌, ◌++◌, All, All-append, Bool,
  true, false, none, some, leb, ◌==◌, Bool-cases, arith, if◌then◌else◌,
}
use flowbaton.Engine.Results.{CommandResult}
use flowbaton.Engine.Ledger.{
  Row, CommandResultLedger, find_row, in_rows, release, released_row, agreeing_row, same_stored,
  trusted_row, result_of, row_after, rows_after,
}
use flowbaton.Engine.Ledger.Recorded.{IsRows, IsConsistent}
use flowbaton.Matching.Kept.{Occurs}
use flowbaton.Engine.Ledger.Orders.{Occurs-append, IsDistinct}

module _ {Command : Type 0} where
  release-sequence : (r : CommandResult Command) → (release r).sequence ≡ r.sequence
  unfolding release
  release-sequence r = refl

module _ {Command : Type 0} (same_command : Command → Command → Bool)
    (ledger : CommandResultLedger Command) (checkpoint : ℕ) where
  -- The rows that are there to be found, each under its key.
  abbrev pub AreFound : List (Row Command) → Type 0
  AreFound = All (λ (row : Row Command). find_row row.0 ledger.canonical_by_sequence ≡ some row.1)

  -- What a row that both maps hold gives.
  abbrev kept : Bool → Bool → CommandResult Command → List (CommandResult Command)
  kept early same r = if early then [] else if same then release r ∷ [] else []

  row_after-kept :
      (k : ℕ) (r : CommandResult Command)
      → find_row k ledger.by_sequence ≡ some r
      → row_after same_command ledger checkpoint (k, r)
        ≡ kept (leb k checkpoint) (same_stored same_command r r) r
  row_after-kept k r h = rw (h, row_after) refl

  -- What stands in a snapshot is behind the checkpoint and what the ledger answers.
  abbrev pub IsAnswer : CommandResult Command → Type 0
  IsAnswer x = (checkpoint < x.sequence) × (result_of same_command ledger x.sequence ≡ some x)

  pub trusted_row-found :
      (k : ℕ) (r : CommandResult Command)
      → IsConsistent ledger
      → find_row k ledger.canonical_by_sequence ≡ some r
      → trusted_row same_command ledger k ≡ (if same_stored same_command r r then some r else none)
  unfolding trusted_row
  trusted_row-found k r consistent found =
      ap
        (λ rows.
          agreeing_row same_command (find_row k rows) (find_row k ledger.canonical_by_sequence))
        consistent.agree
      ∙ ap (λ row. agreeing_row same_command row row) found

  result_of-found :
      (k : ℕ) (r : CommandResult Command)
      → IsConsistent ledger
      → 0 < k
      → find_row k ledger.canonical_by_sequence ≡ some r
      → same_stored same_command r r ≡ true
      → result_of same_command ledger k ≡ some (release r)
  unfolding result_of
  result_of-found k r consistent positive found same =
      let present : (k == 0) ≡ false = ground arith in
      ap (λ test. if test then none else released_row (trusted_row same_command ledger k)) present
      ∙ ap released_row
          (trusted_row-found k r consistent found ∙ ap (λ test. if test then some r else none) same)

  kept-IsAnswer :
      (k : ℕ) (r : CommandResult Command)
      → IsConsistent ledger
      → 0 < k
      → k ≡ r.sequence
      → find_row k ledger.canonical_by_sequence ≡ some r
      → All IsAnswer (kept (leb k checkpoint) (same_stored same_command r r) r)
  kept-IsAnswer k r consistent positive at found = elim (Bool-cases (leb k checkpoint)) [
    | inl early ↦ rw early tt
    | inr late ↦ elim (Bool-cases (same_stored same_command r r)) [
      | inr other ↦ rw (late, other) tt
      | inl same ↦
          let place : k ≡ (release r).sequence = at ∙ sym (release-sequence r) in
          rw (late, same)
            (
              (
                subst (λ n. checkpoint < n) place (ground arith),
                subst (λ n. result_of same_command ledger n ≡ some (release r)) place
                    (result_of-found k r consistent positive found same),
              ),
              tt,
            )
    ]
  ]

  pub rows_after-IsAnswer :
      (rows : List (Row Command))
      → IsConsistent ledger
      → IsRows rows
      → AreFound rows
      → All IsAnswer (rows_after same_command ledger checkpoint rows)
  unfolding rows_after
  rows_after-IsAnswer [] consistent h found = tt
  rows_after-IsAnswer ((k, r) ∷ rows) consistent h found =
      All-append IsAnswer (row_after same_command ledger checkpoint (k, r))
        (rows_after same_command ledger checkpoint rows)
        (subst (All IsAnswer)
          (sym (row_after-kept k r (ap (find_row k) consistent.agree ∙ found.0)))
          (kept-IsAnswer k r consistent h.1 h.0 found.0))
        (rows_after-IsAnswer rows consistent h.5 found.1)

  -- A row whose key no later row has.
  kept-ne :
      (s k : ℕ) (early same : Bool) (r : CommandResult Command)
      → k ≡ r.sequence
      → (s == k) ≡ false
      → All (λ (q : CommandResult Command). s ≢ q.sequence) (kept early same r)
  kept-ne s k true same r at other = tt
  kept-ne s k false false r at other = tt
  kept-ne s k false true r at other = (
    (λ (e : s ≡ (release r).sequence).
        let same : s ≡ k = e ∙ release-sequence r ∙ sym at in ground arith),
    tt,
  )

  rows_after-ne :
      (s : ℕ) (rows : List (Row Command))
      → IsConsistent ledger
      → IsRows rows
      → AreFound rows
      → in_rows s rows ≡ false
      → All
          (λ (q : CommandResult Command). s ≢ q.sequence)
          (rows_after same_command ledger checkpoint rows)
  unfolding rows_after
  rows_after-ne s [] consistent h found absent = tt
  rows_after-ne s ((k, r) ∷ rows) consistent h found absent =
      All-append (λ (q : CommandResult Command). s ≢ q.sequence)
        (row_after same_command ledger checkpoint (k, r))
        (rows_after same_command ledger checkpoint rows)
        (subst (All (λ (q : CommandResult Command). s ≢ q.sequence))
          (sym (row_after-kept k r (ap (find_row k) consistent.agree ∙ found.0)))
          (kept-ne s k (leb k checkpoint) (same_stored same_command r r) r h.0 (ground arith)))
        (rows_after-ne s rows consistent h.5 found.1 (ground arith))

  kept-IsDistinct :
      (early same : Bool) (r : CommandResult Command) (qs : List (CommandResult Command))
      → All (λ (q : CommandResult Command). r.sequence ≢ q.sequence) qs
      → IsDistinct qs
      → IsDistinct (kept early same r ++ qs)
  unfolding release
  kept-IsDistinct true same r qs other h = h
  kept-IsDistinct false false r qs other h = h
  kept-IsDistinct false true r qs other h = (other, h)

  pub rows_after-IsDistinct :
      (rows : List (Row Command))
      → IsConsistent ledger
      → IsRows rows
      → AreFound rows
      → IsDistinct (rows_after same_command ledger checkpoint rows)
  unfolding rows_after
  rows_after-IsDistinct [] consistent h found = tt
  rows_after-IsDistinct ((k, r) ∷ rows) consistent h found =
      let later = rows_after same_command ledger checkpoint rows in
      subst (λ front. IsDistinct (front ++ later))
        (sym (row_after-kept k r (ap (find_row k) consistent.agree ∙ found.0)))
        (kept-IsDistinct (leb k checkpoint) (same_stored same_command r r) r later
          (subst (λ n. All (λ (q : CommandResult Command). n ≢ q.sequence) later) h.0
            (rows_after-ne k rows consistent h.5 found.1 h.4))
          (rows_after-IsDistinct rows consistent h.5 found.1))

  pub Occurs-rows_after :
      (s : ℕ) (r : CommandResult Command) (rows : List (Row Command))
      → IsConsistent ledger
      → AreFound rows
      → find_row s rows ≡ some r
      → leb s checkpoint ≡ false
      → same_stored same_command r r ≡ true
      → Occurs (release r) (rows_after same_command ledger checkpoint rows)
  unfolding rows_after
  Occurs-rows_after s r [] consistent found there late same = cc
  Occurs-rows_after s r ((k, q) ∷ rows) consistent found there late same =
      Occurs-append (release r) (row_after same_command ledger checkpoint (k, q))
        (rows_after same_command ledger checkpoint rows)
        (elim (Bool-cases (k == s)) [
          | inr other ↦ inr (Occurs-rows_after s r rows consistent found.1 (ground arith) late same)
          | inl here ↦
              let e : q ≡ r = some-injective q r (ground arith) in
              let at : k ≡ s = ground arith in
              inl (
                subst (Occurs (release r))
                  (sym (
                    row_after-kept k q (ap (find_row k) consistent.agree ∙ found.0)
                    ∙ ap
                        (λ (p : ℕ × CommandResult Command).
                          kept (leb p.0 checkpoint) (same_stored same_command p.1 p.1) p.1)
                        (λ i. (at i, e i))
                    ∙ ap (λ early. kept early (same_stored same_command r r) r) late
                    ∙ ap (λ test. kept false test r) same))
                  (inl refl))
        ])
