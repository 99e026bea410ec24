-- ===== src/Engine/Sealing.antt =====
-- How internal/engine/result_ledger.go keeps the errors of a result in carriers and gives them back.
use flowbaton.Prelude.{ℕ, suc, Option, none, some}
use flowbaton.Engine.Results.{ResultError, raw, sealed, untrusted, Publication, RetryClassification}

-- The exact error that a result stands for, out of its carriers.
pub record ExactError : Type 0 where
  pub published : Option ResultError
  pub classification : Option ResultError

-- `retainLedgerResultError`: the error to keep, and the next address.
unfoldable pub retain_error : ℕ → Option ResultError → Option ResultError × ℕ
retain_error next none = (none, next)
retain_error next (some (raw e)) = (some (untrusted next e), suc next)
retain_error next (some (sealed a e)) = (some (sealed a e), next)
retain_error next (some (untrusted a e)) = (some (untrusted a e), next)

unfoldable pub retain_publication : ℕ → Option Publication → Option Publication × ℕ
unfolding retain_error
retain_publication next none = (none, next)
retain_publication next (some p) =
    let (published, next₁) = retain_error next p.published in
    let (classification, next₂) = retain_error next₁ p.classification in
    (some (record { published = published; classification = classification }), next₂)

unfoldable pub retain_classification :
    ℕ → Option RetryClassification → Option RetryClassification × ℕ
unfolding retain_publication
retain_classification next none = (none, next)
retain_classification next (some c) =
    let (classification, next₁) = retain_error next c.classification in
    let (publication, next₂) = retain_publication next₁ c.publication in
    (some (record { classification = classification; publication = publication }), next₂)

-- `releaseLedgerResultError`
unfoldable pub release_error : Option ResultError → Option ResultError
release_error none = none
release_error (some (raw e)) = some (raw e)
release_error (some (sealed a e)) = some (sealed a e)
release_error (some (untrusted a e)) = some (raw e)

unfoldable pub release_publication : Option Publication → Option Publication
unfolding release_error
release_publication none = none
release_publication (some p) = some (record {
  published = release_error p.published;
  classification = release_error p.classification;
})

unfoldable pub release_classification : Option RetryClassification → Option RetryClassification
unfolding release_publication
release_classification none = none
release_classification (some c) = some (record {
  classification = release_error c.classification;
  publication = release_publication c.publication;
})

-- `unsealResultError`
unfoldable pub unseal_error : Option ResultError → Option ResultError
unseal_error none = none
unseal_error (some (raw e)) = some (raw e)
unseal_error (some (sealed a e)) = some (raw e)
unseal_error (some (untrusted a e)) = some (untrusted a e)

abbrev pub exact_error_of : Option Publication → Option ExactError
exact_error_of none = none
exact_error_of (some p) = some (record {
  published = unseal_error p.published;
  classification = unseal_error p.classification;
})

abbrev pub exact_error_in : Option RetryClassification → Option ExactError
exact_error_in none = none
exact_error_in (some c) = exact_error_of c.publication
