-- ===== src/Engine/Ledger/Genuine.antt =====
-- What a candidate shares with the recorded result that `authenticate` of
-- internal/engine/result_ledger.go takes it for.
use flowbaton.Prelude.{ℕ, ◌≡◌, ◌∙◌, sym, ap, Bool, true, false, Option, none, some, ◌==◌, arith}
use flowbaton.Engine.Results.{
  Publication, RetryClassification, CommandResult, same_outcome, same_pointer, same_option,
  same_sealed_error, same_publication, same_classification, same_command_result,
}
use flowbaton.Engine.Results.Same.{&&-true}
use flowbaton.Engine.Ledger.{CommandResultLedger, find_row, same_stored, trusted_row, authenticate}
use flowbaton.Engine.Ledger.Authentic.{
  OneCarrier, same_sealed_error-OneCarrier, agreeing_row-some, agreeing_row-same,
  authenticate-Passed,
}

-- Both nil, or both there and related.
abbrev pub OfBoth : {A : Type 0} → (A → A → Type 0) → Option A → Option A → Type 0
OfBoth R none none = Unit {0}
OfBoth R (some a) (some b) = R a b
OfBoth R _ _ = true ≡ false

abbrev pub OnePublication : Publication → Publication → Type 0
OnePublication p q =
    OneCarrier p.published q.published × OneCarrier p.classification q.classification

abbrev pub OneClassification : RetryClassification → RetryClassification → Type 0
OneClassification c d =
    OneCarrier c.classification d.classification × OfBoth OnePublication c.publication d.publication

same_option-OfBoth :
    {A : Type 0} (same : A → A → Bool) (R : A → A → Type 0)
    → ((a b : A) → same a b ≡ true → R a b)
    → (o p : Option A) → same_option same o p ≡ true
    → OfBoth R o p
same_option-OfBoth same R h none none e = tt
same_option-OfBoth same R h none (some b) e = cc
same_option-OfBoth same R h (some a) none e = cc
same_option-OfBoth same R h (some a) (some b) e = h a b e

same_publication-OnePublication :
    (p q : Publication) → same_publication same_sealed_error p q ≡ true → OnePublication p q
same_publication-OnePublication p q h =
    let (published, classification) = &&-true _ _ h in
    (
      same_sealed_error-OneCarrier p.published q.published published,
      same_sealed_error-OneCarrier p.classification q.classification classification,
    )

same_classification-OneClassification :
    (c d : RetryClassification)
    → same_classification same_sealed_error c d ≡ true
    → OneClassification c d
unfolding same_classification
same_classification-OneClassification c d h =
    let (classification, publication) = &&-true _ _ h in
    (
      same_sealed_error-OneCarrier c.classification d.classification classification,
      same_option-OfBoth (same_publication same_sealed_error) OnePublication
          same_publication-OnePublication c.publication d.publication publication,
    )

same_pointer-some : (p : Option ℕ) (a : ℕ) → same_pointer p (some a) ≡ true → p ≡ some a
same_pointer-some none a h = cc
same_pointer-some (some b) a h = ground arith

module _ {Command : Type 0} (same_command : Command → Command → Bool) where
  -- The row of the candidate's sequence in the canonical map, with a row in the other map that is
  -- the same as it, of one identity with the candidate, with the same command and outcome, and with
  -- every error in the very carrier of the candidate's.
  pub record Genuine (ledger : CommandResultLedger Command) (candidate r : CommandResult Command)
      : Type 0 where
    pub recorded : find_row candidate.sequence ledger.canonical_by_sequence ≡ some r
    pub agreed :
        (q : CommandResult Command) × (find_row candidate.sequence ledger.by_sequence ≡ some q)
        × (same_stored same_command r q ≡ true)
    pub in_place : r.sequence ≡ candidate.sequence
    pub identity : (a : ℕ) × (candidate.identity ≡ some a) × (r.identity ≡ some a)
    pub command : same_command r.command candidate.command ≡ true
    pub outcome : same_outcome r.outcome candidate.outcome ≡ true
    pub product_error : OneCarrier r.product_error candidate.product_error
    pub classification :
        OfBoth OneClassification r.retry_classification candidate.retry_classification

  same_sequence :
      (r candidate : CommandResult Command)
      → (r.sequence == candidate.sequence) ≡ true
      → r.sequence ≡ candidate.sequence
  same_sequence r candidate h = ground arith

  -- Whatever stands in the two maps, a candidate is taken only for the canonical row of its own
  -- sequence, where the other map holds the same row, its errors in the same carriers; and this row
  -- is of one identity with the candidate, with the same command and outcome. Each of its errors is nil as that of the row is, or stands
  -- in the same carrier of the executor: an error of any other origin is never taken.
  pub authenticate-Genuine :
      (ledger : CommandResultLedger Command) (candidate r : CommandResult Command)
      → authenticate same_command ledger candidate ≡ some r
      → Genuine ledger candidate r
  unfolding trusted_row same_command_result
  authenticate-Genuine ledger candidate r h =
      let p = authenticate-Passed same_command ledger candidate r h in
      let (q, _, found) =
        agreeing_row-some same_command (find_row candidate.sequence ledger.by_sequence)
          (find_row candidate.sequence ledger.canonical_by_sequence) r p.trusted in
      let agreed =
        agreeing_row-same same_command (find_row candidate.sequence ledger.by_sequence)
          (find_row candidate.sequence ledger.canonical_by_sequence) r p.trusted in
      let (front, back) = &&-true _ _ p.same in
      let (place_outcome, times_command) = &&-true _ _ front in
      let (place, outcome) = &&-true _ _ place_outcome in
      let (pointer_run, sequence_depth) = &&-true _ _ place in
      let (sequence, _) = &&-true _ _ sequence_depth in
      let (pointer, _) = &&-true _ _ pointer_run in
      let (_, command) = &&-true _ _ times_command in
      let (errors, _) = &&-true _ _ back in
      let (product_error, classification) = &&-true _ _ errors in
      record {
        recorded = found;
        agreed = agreed;
        in_place = same_sequence r candidate sequence;
        identity = (
          p.address,
          p.identified,
          same_pointer-some r.identity p.address
              (sym (ap (same_pointer r.identity) p.identified) ∙ pointer),
        );
        command = command;
        outcome = outcome;
        product_error =
            same_sealed_error-OneCarrier r.product_error candidate.product_error product_error;
        classification =
            same_option-OfBoth (same_classification same_sealed_error) OneClassification
              same_classification-OneClassification r.retry_classification
              candidate.retry_classification classification;
      }
