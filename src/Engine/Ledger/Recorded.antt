-- ===== src/Engine/Ledger/Recorded.antt =====
-- What `record` of internal/engine/result_ledger.go does to the ledger, and what is read back.
use flowbaton.Prelude.{
  ℕ, ◌<◌, ◌≡◌, ◌∙◌, subst, ap, refl, inl, inr, List, [], ◌∷◌, Bool, true, false, not, ◌&&◌, Option,
  none, some, ◌==◌, Bool-cases, arith, if◌then◌else◌,
}
use flowbaton.Prelude.Int.{pos, ltb_ℤ}
use flowbaton.Engine.Results.{CommandResult, same_stored_error}
use flowbaton.Engine.Results.Same.{
  IsStored, EveryError, IsComparable, same_stored_error_refl, same_command_result_refl,
}
use flowbaton.Engine.Ledger.{
  Row, CommandResultLedger, Refusal, sequence_zero, depth_negative, already_recorded, find_row,
  in_rows, new_ledger, retain, insert, record_result, agreeing_row, released_row, same_stored,
  trusted_row, result_of,
}
use flowbaton.Engine.Ledger.Carriers.{IsOutside, retain-IsStored, release-retain}

abbrev pub refuses : Option Refusal → Bool
refuses none = false
refuses (some e) = true

pub find_row-cons_self :
    {A : Type 0} (k : ℕ) (a : A) (rows : List (ℕ × A)) → find_row k ((k, a) ∷ rows) ≡ some a
find_row-cons_self k a rows = ground arith

module _ {Command : Type 0} where
  -- Every row stands under its own sequence, which is above zero and in no other row, has a depth
  -- of at least zero, and holds no error but in a carrier.
  abbrev pub IsRows : List (Row Command) → Type 0
  IsRows [] = Unit {0}
  IsRows ((k, r) ∷ rows) =
      (k ≡ r.sequence)
      × (0 < k)
      × (ltb_ℤ r.depth (pos 0) ≡ false)
      × EveryError IsStored r
      × (in_rows k rows ≡ false)
      × IsRows rows

  -- Both maps hold the same rows.
  pub record IsConsistent (ledger : CommandResultLedger Command) : Type 0 where
    pub agree : ledger.by_sequence ≡ ledger.canonical_by_sequence
    pub rows : IsRows ledger.canonical_by_sequence

  pub new_ledger-IsConsistent : IsConsistent (new_ledger {Command = Command})
  new_ledger-IsConsistent = record { agree = refl; rows = tt }

  -- A result has a sequence that is new to the ledger, and a depth of at least zero.
  abbrev pub accepts : CommandResultLedger Command → CommandResult Command → Bool
  accepts ledger r =
      (not (r.sequence == 0) && not (ltb_ℤ r.depth (pos 0)))
      && (not (in_rows r.sequence ledger.by_sequence)
          && not (in_rows r.sequence ledger.canonical_by_sequence))

  pub record_accepted :
      (r : CommandResult Command) (ledger : CommandResultLedger Command)
      → accepts ledger r ≡ true
      → record_result r ledger ≡ (none, insert r ledger)
  unfolding record_result
  record_accepted r ledger h = ground arith

  pub record_refused :
      (r : CommandResult Command) (ledger : CommandResultLedger Command)
      → accepts ledger r ≡ false
      → (e : Refusal) × (record_result r ledger ≡ (some e, ledger))
  unfolding record_result
  record_refused r ledger h = elim (Bool-cases (r.sequence == 0)) [
    | inl zero_sequence ↦ (sequence_zero, rw zero_sequence refl)
    | inr positive ↦ elim (Bool-cases (ltb_ℤ r.depth (pos 0))) [
      | inl below ↦ (depth_negative, rw (positive, below) refl)
      | inr deep ↦ elim (Bool-cases (in_rows r.sequence ledger.by_sequence)) [
        | inl known ↦ (already_recorded, rw (positive, deep, known) refl)
        | inr new ↦ elim (Bool-cases (in_rows r.sequence ledger.canonical_by_sequence)) [
          | inl known ↦ (already_recorded, rw (positive, deep, new, known) refl)
          | inr fresh ↦ absurd (ground arith)
        ]
      ]
    ]
  ]

  insert-IsConsistent :
      (r : CommandResult Command) (ledger : CommandResultLedger Command)
      → accepts ledger r ≡ true
      → IsConsistent ledger
      → IsConsistent (insert r ledger)
  unfolding insert retain
  insert-IsConsistent r ledger h c = record {
    agree = ap (λ rows. (r.sequence, (retain ledger.next_address r).0) ∷ rows) c.agree;
    rows = (
      refl,
      ground arith,
      ground arith,
      retain-IsStored ledger.next_address r,
      ground arith,
      c.rows,
    );
  }

module _ {Command : Type 0} (same_command : Command → Command → Bool) where
  retain-IsComparable :
      (n : ℕ) (r : CommandResult Command)
      → IsComparable same_command r
      → IsComparable same_command (retain n r).0
  unfolding retain
  retain-IsComparable n r h = record {
    command = h.command;
    evaluated = h.evaluated;
    keyed = h.keyed;
  }

  same_stored-retain :
      (n : ℕ) (r : CommandResult Command)
      → IsComparable same_command r
      → same_stored same_command (retain n r).0 (retain n r).0 ≡ true
  same_stored-retain n r h =
      same_command_result_refl same_command same_stored_error IsStored same_stored_error_refl
        (retain n r).0 (retain-IsComparable n r h) (retain-IsStored n r)

  pub trusted_row-insert_self :
      (r : CommandResult Command) (ledger : CommandResultLedger Command)
      → IsComparable same_command r
      → trusted_row same_command (insert r ledger) r.sequence
        ≡ some (retain ledger.next_address r).0
  unfolding trusted_row insert
  trusted_row-insert_self r ledger h =
      let stored = (retain ledger.next_address r).0 in
      cc (
        ap
            (agreeing_row same_command
              (find_row r.sequence ((r.sequence, stored) ∷ ledger.by_sequence)))
            (find_row-cons_self r.sequence stored ledger.canonical_by_sequence),
        ap (λ row. agreeing_row same_command row (some stored))
            (find_row-cons_self r.sequence stored ledger.by_sequence),
        ap (λ test. if test then some stored else none)
            (same_stored-retain ledger.next_address r h),
      )

  pub trusted_row-insert_ne :
      (r : CommandResult Command) (ledger : CommandResultLedger Command) (s : ℕ)
      → (r.sequence == s) ≡ false
      → trusted_row same_command (insert r ledger) s ≡ trusted_row same_command ledger s
  unfolding trusted_row insert
  trusted_row-insert_ne r ledger s h = ground arith

  result_of-insert_self :
      (r : CommandResult Command) (ledger : CommandResultLedger Command)
      → (r.sequence == 0) ≡ false
      → IsComparable same_command r
      → EveryError IsOutside r
      → result_of same_command (insert r ledger) r.sequence ≡ some r
  unfolding result_of
  result_of-insert_self r ledger positive comparable outside =
      ap
        (λ test.
          if test
          then none
          else released_row (trusted_row same_command (insert r ledger) r.sequence))
        positive
      ∙ ap released_row (trusted_row-insert_self r ledger comparable)
      ∙ ap some (release-retain ledger.next_address r outside)

  result_of-insert_ne :
      (r : CommandResult Command) (ledger : CommandResultLedger Command) (s : ℕ)
      → (r.sequence == s) ≡ false
      → result_of same_command (insert r ledger) s ≡ result_of same_command ledger s
  unfolding result_of
  result_of-insert_ne r ledger s other =
      ap (λ row. if s == 0 then none else released_row row) (trusted_row-insert_ne r ledger s other)

  -- Recording a result whose commands are the same as themselves, and whose errors are in no
  -- carrier of a ledger, into a ledger whose two maps agree. It is refused exactly where its
  -- sequence is zero or known or its depth negative. An accepted result is read back as it was, and
  -- every other sequence gives what it gave. The maps still agree, with every row under its own
  -- sequence, above zero and in no other row, at a depth of at least zero, and every error in a
  -- carrier.
  pub result_of-record_result :
      (r : CommandResult Command) (ledger : CommandResultLedger Command) (s : ℕ)
      → IsConsistent ledger
      → IsComparable same_command r
      → EveryError IsOutside r
      → (result_of same_command (record_result r ledger).1 s ≡ (
          if accepts ledger r && r.sequence == s then some r else result_of same_command ledger s))
        × (refuses (record_result r ledger).0 ≡ not (accepts ledger r))
        × IsConsistent (record_result r ledger).1
  result_of-record_result r ledger s consistent comparable outside =
      elim (Bool-cases (accepts ledger r)) [
        | inr h ↦ rw (h, (record_refused r ledger h).1) (refl, refl, consistent)
        | inl h ↦
            let recorded = record_accepted r ledger h in
            (
              ap
                    (λ (p : Option Refusal × CommandResultLedger Command).
                      result_of same_command p.1 s)
                    recorded
                  ∙ (elim (Bool-cases (r.sequence == s)) [
                    | inl at_s ↦
                        rw (h, at_s)
                          (subst (λ t. result_of same_command (insert r ledger) t ≡ some r)
                            (ground arith)
                            (result_of-insert_self r ledger (ground arith) comparable outside))
                    | inr other ↦ rw (h, other) (result_of-insert_ne r ledger s other)
                  ]),
              rw (recorded, h) refl,
              rw recorded (insert-IsConsistent r ledger h consistent),
            )
      ]
