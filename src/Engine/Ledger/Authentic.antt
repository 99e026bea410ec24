-- ===== src/Engine/Ledger/Authentic.antt =====
-- Which candidates `authenticate` of internal/engine/result_ledger.go takes for recorded results.
use mathlib.Core.Option.{some-injective}
use flowbaton.Prelude.{
  ℕ, ◌≡◌, ◌∙◌, subst, ap, refl, inl, inr, List, [], ◌∷◌, Bool, true, false, Option, none, some,
  ◌==◌, Bool-cases, arith, if◌then◌else◌,
}
use flowbaton.Engine.Results.{ResultError, raw, sealed, untrusted, CommandResult, same_sealed_error}
use flowbaton.Engine.Results.Same.{
  IsSealed, EveryError, IsComparable, same_sealed_error_refl, same_command_result_refl,
}
use flowbaton.Engine.Ledger.{
  CommandResultLedger, find_row, in_rows, if_there, insert, record_result, agreeing_row,
  matching_row, same_stored, same_authenticated, trusted_row, authenticate,
}
use flowbaton.Engine.Ledger.Carriers.{retain-sealed}
use flowbaton.Engine.Ledger.Recorded.{
  accepts, record_accepted, record_refused, trusted_row-insert_self, trusted_row-insert_ne,
}

-- Both nil, or both sealed in one carrier.
abbrev pub OneCarrier : Option ResultError → Option ResultError → Type 0
OneCarrier none none = Unit {0}
OneCarrier (some (sealed a e)) (some (sealed b f)) = a ≡ b
OneCarrier _ _ = true ≡ false

pub same_sealed_error-OneCarrier :
    (e f : Option ResultError) → same_sealed_error e f ≡ true → OneCarrier e f
unfolding same_sealed_error
same_sealed_error-OneCarrier none none h = tt
same_sealed_error-OneCarrier none (some (raw f)) h = cc
same_sealed_error-OneCarrier none (some (sealed b f)) h = cc
same_sealed_error-OneCarrier none (some (untrusted b f)) h = cc
same_sealed_error-OneCarrier (some (raw e)) none h = cc
same_sealed_error-OneCarrier (some (raw e)) (some (raw f)) h = cc
same_sealed_error-OneCarrier (some (raw e)) (some (sealed b f)) h = cc
same_sealed_error-OneCarrier (some (raw e)) (some (untrusted b f)) h = cc
same_sealed_error-OneCarrier (some (sealed a e)) none h = cc
same_sealed_error-OneCarrier (some (sealed a e)) (some (raw f)) h = cc
same_sealed_error-OneCarrier (some (sealed a e)) (some (sealed b f)) h = ground arith
same_sealed_error-OneCarrier (some (sealed a e)) (some (untrusted b f)) h = cc
same_sealed_error-OneCarrier (some (untrusted a e)) none h = cc
same_sealed_error-OneCarrier (some (untrusted a e)) (some (raw f)) h = cc
same_sealed_error-OneCarrier (some (untrusted a e)) (some (sealed b f)) h = cc
same_sealed_error-OneCarrier (some (untrusted a e)) (some (untrusted b f)) h = cc

-- A row that is found is in the map.
find_row-in_rows :
    {A : Type 0} (k : ℕ) (rows : List (ℕ × A)) (a : A)
    → find_row k rows ≡ some a
    → in_rows k rows ≡ true
find_row-in_rows k [] a h = cc
find_row-in_rows k ((j, b) ∷ rows) a h = ground (arith, find_row-in_rows k rows a)

if_there-some :
    {A B : Type 0} (o : Option A) (b : Option B) (r : B)
    → if_there o b ≡ some r
    → (a : A) × (o ≡ some a) × (b ≡ some r)
if_there-some none b r h = cc
if_there-some (some a) b r h = (a, refl, h)

pub unless-some :
    {B : Type 0} (test : Bool) (b : Option B) (r : B)
    → (if test then none else b) ≡ some r
    → (test ≡ false) × (b ≡ some r)
unless-some true b r h = cc
unless-some false b r h = (refl, h)

other_row :
    {Command : Type 0} (r candidate : CommandResult Command) (ledger : CommandResultLedger Command)
    → accepts ledger r ≡ true
    → in_rows candidate.sequence ledger.by_sequence ≡ true
    → (r.sequence == candidate.sequence) ≡ false
other_row r candidate ledger accepted known = elim (Bool-cases (r.sequence == candidate.sequence)) [
  | inr other ↦ other
  | inl same ↦
      let e : r.sequence ≡ candidate.sequence = ground arith in
      let k : in_rows r.sequence ledger.by_sequence ≡ true = rw e known in absurd (ground arith)
]

module _ {Command : Type 0} (same_command : Command → Command → Bool) where
  pub agreeing_row-some :
      (recorded canonical : Option (CommandResult Command)) (r : CommandResult Command)
      → agreeing_row same_command recorded canonical ≡ some r
      → (q : CommandResult Command) × (recorded ≡ some q) × (canonical ≡ some r)
  agreeing_row-some none canonical r h = cc
  agreeing_row-some (some q) none r h = cc
  agreeing_row-some (some q) (some c) r h = elim (Bool-cases (same_stored same_command c q)) [
    | inl same ↦ (q, refl, rw same at h)
    | inr other ↦ absurd (cc (rw other at h))
  ]

  pub agreeing_row-same :
      (recorded canonical : Option (CommandResult Command)) (r : CommandResult Command)
      → agreeing_row same_command recorded canonical ≡ some r
      → (q : CommandResult Command) × (recorded ≡ some q) × (same_stored same_command r q ≡ true)
  agreeing_row-same none canonical r h = cc
  agreeing_row-same (some q) none r h = cc
  agreeing_row-same (some q) (some c) r h = elim (Bool-cases (same_stored same_command c q)) [
    | inl same ↦
        let e : some c ≡ some r = rw same at h in
        (q, refl, subst (λ x. same_stored same_command x q ≡ true) (some-injective c r e) same)
    | inr other ↦ absurd (cc (rw other at h))
  ]

  -- The steps of `authenticate` that a candidate passed.
  pub record Passed (ledger : CommandResultLedger Command) (candidate r : CommandResult Command)
      : Type 0 where
    pub address : ℕ
    pub identified : candidate.identity ≡ some address
    pub positive : (candidate.sequence == 0) ≡ false
    pub trusted : trusted_row same_command ledger candidate.sequence ≡ some r
    pub same : same_authenticated same_command r candidate ≡ true

  matching_row-some :
      (row : Option (CommandResult Command)) (candidate r : CommandResult Command)
      → matching_row same_command row candidate ≡ some r
      → (row ≡ some r) × (same_authenticated same_command r candidate ≡ true)
  matching_row-some none candidate r h = cc
  matching_row-some (some c) candidate r h =
      elim (Bool-cases (same_authenticated same_command c candidate)) [
        | inl same ↦
            let e : some c ≡ some r = rw same at h in
            (
              e,
              subst (λ x. same_authenticated same_command x candidate ≡ true) (some-injective c r e)
                  same,
            )
        | inr other ↦ absurd (cc (rw other at h))
      ]

  pub authenticate-Passed :
      (ledger : CommandResultLedger Command) (candidate r : CommandResult Command)
      → authenticate same_command ledger candidate ≡ some r
      → Passed ledger candidate r
  unfolding authenticate
  authenticate-Passed ledger candidate r h =
      let (address, identified, rest) = if_there-some candidate.identity _ r h in
      let (positive, matched) = unless-some (candidate.sequence == 0) _ r rest in
      let (trusted, same) =
        matching_row-some (trusted_row same_command ledger candidate.sequence) candidate r
          matched in
      record {
        address = address;
        identified = identified;
        positive = positive;
        trusted = trusted;
        same = same;
      }

  -- The same steps, taken forward.
  Passed-authenticate :
      (ledger : CommandResultLedger Command) (candidate r : CommandResult Command)
      → Passed ledger candidate r
      → authenticate same_command ledger candidate ≡ some r
  unfolding authenticate
  Passed-authenticate ledger candidate r p =
      ap
        (λ o. if_there o (
          if candidate.sequence == 0
          then none
          else matching_row same_command (trusted_row same_command ledger candidate.sequence)
              candidate))
        p.identified
      ∙ ap
          (λ test.
            if test
            then none
            else matching_row same_command (trusted_row same_command ledger candidate.sequence)
                candidate)
          p.positive
      ∙ ap (λ row. matching_row same_command row candidate) p.trusted
      ∙ ap (λ test. if test then some r else none) p.same

  trusted_row-in_rows :
      (ledger : CommandResultLedger Command) (s : ℕ) (r : CommandResult Command)
      → trusted_row same_command ledger s ≡ some r
      → in_rows s ledger.by_sequence ≡ true
  unfolding trusted_row
  trusted_row-in_rows ledger s r h =
      let (q, found, _) =
        agreeing_row-some (find_row s ledger.by_sequence) (find_row s ledger.canonical_by_sequence)
          r h in
      find_row-in_rows s ledger.by_sequence q found

  -- What was authentic stays so, whatever is recorded next.
  authenticate-record_later :
      (r candidate found : CommandResult Command) (ledger : CommandResultLedger Command)
      → authenticate same_command ledger candidate ≡ some found
      → authenticate same_command (record_result r ledger).1 candidate ≡ some found
  authenticate-record_later r candidate found ledger h = elim (Bool-cases (accepts ledger r)) [
    | inr no_change ↦ rw ((record_refused r ledger no_change).1) h
    | inl accepted ↦
        let p = authenticate-Passed ledger candidate found h in
        let known = trusted_row-in_rows ledger candidate.sequence found p.trusted in
        rw (record_accepted r ledger accepted) (
          Passed-authenticate (insert r ledger) candidate found (record {
            address = p.address;
            identified = p.identified;
            positive = p.positive;
            trusted =
                trusted_row-insert_ne same_command r ledger candidate.sequence
                  (other_row r candidate ledger accepted known)
                ∙ p.trusted;
            same = p.same;
          }))
  ]

  -- What was found is found again.
  abbrev pub Stays : Option (CommandResult Command) → Option (CommandResult Command) → Type 0
  Stays none after = Unit {0}
  Stays (some found) after = after ≡ some found

  stays :
      (r candidate : CommandResult Command) (ledger : CommandResultLedger Command)
      (before : Option (CommandResult Command))
      → authenticate same_command ledger candidate ≡ before
      → Stays before (authenticate same_command (record_result r ledger).1 candidate)
  stays r candidate ledger none h = tt
  stays r candidate ledger (some found) h = authenticate-record_later r candidate found ledger h

  authenticate-recorded :
      (r : CommandResult Command) (address : ℕ) (ledger : CommandResultLedger Command)
      → r.identity ≡ some address
      → IsComparable same_command r
      → EveryError IsSealed r
      → accepts ledger r ≡ true
      → authenticate same_command (record_result r ledger).1 r ≡ some r
  authenticate-recorded r address ledger identity comparable errors accepted =
      rw (record_accepted r ledger accepted) (
        Passed-authenticate (insert r ledger) r r (record {
          address = address;
          identified = identity;
          positive = ground arith;
          trusted =
              trusted_row-insert_self same_command r ledger comparable
              ∙ ap (λ (p : CommandResult Command × ℕ). some p.0)
                  (retain-sealed ledger.next_address r errors);
          same =
              same_command_result_refl same_command same_sealed_error IsSealed
                same_sealed_error_refl r comparable errors;
        }))

  -- A result of the executor's own, with an identity and with sealed errors, whose commands are the
  -- same as themselves, is authentic as soon as the ledger accepts it; refused, it is as authentic
  -- as it was. Whatever was authentic before stays so with the same row, whether the result is
  -- accepted or refused.
  pub authenticate-record_result :
      (r candidate : CommandResult Command) (address : ℕ) (ledger : CommandResultLedger Command)
      → r.identity ≡ some address
      → IsComparable same_command r
      → EveryError IsSealed r
      → (authenticate same_command (record_result r ledger).1 r
          ≡ (if accepts ledger r then some r else authenticate same_command ledger r))
        × Stays
            (authenticate same_command ledger candidate)
            (authenticate same_command (record_result r ledger).1 candidate)
  authenticate-record_result r candidate address ledger identity comparable errors = (
    elim (Bool-cases (accepts ledger r)) [
      | inl accepted ↦
          rw accepted (authenticate-recorded r address ledger identity comparable errors accepted)
      | inr refused ↦ rw (refused, (record_refused r ledger refused).1) refl
    ],
    stays r candidate ledger (authenticate same_command ledger candidate) refl,
  )
