-- ===== src/Engine/Ledger/Carriers.antt =====
-- What `record` of internal/engine/result_ledger.go keeps of a result's errors, and gives back.
use flowbaton.Prelude.{ℕ, ◌≡◌, refl, true, false, Option, none, some}
use flowbaton.Engine.Results.{
  ResultError, raw, sealed, untrusted, Publication, RetryClassification, CommandResult,
}
use flowbaton.Engine.Results.Same.{
  IsStored, IsSealed, OfOption, OfPublication, OfClassification, EveryError,
}
use flowbaton.Engine.Ledger.{retain, release}
use flowbaton.Engine.Sealing.{
  retain_error, retain_publication, retain_classification, release_error, release_publication,
  release_classification,
}

-- An error that is in no carrier of a ledger.
abbrev pub IsOutside : Option ResultError → Type 0
IsOutside none = Unit {0}
IsOutside (some (raw e)) = Unit {0}
IsOutside (some (sealed a e)) = Unit {0}
IsOutside (some (untrusted a e)) = true ≡ false

retain_error-IsStored : (n : ℕ) (e : Option ResultError) → IsStored (retain_error n e).0
unfolding retain_error
retain_error-IsStored n none = tt
retain_error-IsStored n (some (raw e)) = tt
retain_error-IsStored n (some (sealed a e)) = tt
retain_error-IsStored n (some (untrusted a e)) = tt

retain_publication-IsStored :
    (n : ℕ) (p : Option Publication) → OfOption (OfPublication IsStored) (retain_publication n p).0
unfolding retain_publication
retain_publication-IsStored n none = tt
retain_publication-IsStored n (some p) = (
  retain_error-IsStored n p.published,
  retain_error-IsStored (retain_error n p.published).1 p.classification,
)

retain_classification-IsStored :
    (n : ℕ) (c : Option RetryClassification)
    → OfOption (OfClassification IsStored) (retain_classification n c).0
unfolding retain_classification
retain_classification-IsStored n none = tt
retain_classification-IsStored n (some c) = (
  retain_error-IsStored n c.classification,
  retain_publication-IsStored (retain_error n c.classification).1 c.publication,
)

release_error-retain_error :
    (n : ℕ) (e : Option ResultError) → IsOutside e → release_error (retain_error n e).0 ≡ e
unfolding retain_error release_error
release_error-retain_error n none h = refl
release_error-retain_error n (some (raw e)) h = refl
release_error-retain_error n (some (sealed a e)) h = refl
release_error-retain_error n (some (untrusted a e)) h = cc

release_publication-retain_publication :
    (n : ℕ) (p : Option Publication)
    → OfOption (OfPublication IsOutside) p
    → release_publication (retain_publication n p).0 ≡ p
unfolding retain_publication release_publication
release_publication-retain_publication n none h = refl
release_publication-retain_publication n (some p) h = cc (
  release_error-retain_error n p.published h.0,
  release_error-retain_error (retain_error n p.published).1 p.classification h.1,
)

release_classification-retain_classification :
    (n : ℕ) (c : Option RetryClassification)
    → OfOption (OfClassification IsOutside) c
    → release_classification (retain_classification n c).0 ≡ c
unfolding retain_classification release_classification
release_classification-retain_classification n none h = refl
release_classification-retain_classification n (some c) h = cc (
  release_error-retain_error n c.classification h.0,
  release_publication-retain_publication (retain_error n c.classification).1 c.publication h.1,
)

retain_error-sealed : (n : ℕ) (e : Option ResultError) → IsSealed e → retain_error n e ≡ (e, n)
unfolding retain_error
retain_error-sealed n none h = refl
retain_error-sealed n (some (raw e)) h = cc
retain_error-sealed n (some (sealed a e)) h = refl
retain_error-sealed n (some (untrusted a e)) h = cc

retain_publication-sealed :
    (n : ℕ) (p : Option Publication)
    → OfOption (OfPublication IsSealed) p
    → retain_publication n p ≡ (p, n)
unfolding retain_publication
retain_publication-sealed n none h = refl
retain_publication-sealed n (some p) h =
    rw
      (
        retain_error-sealed n p.published h.0,
        retain_publication,
        retain_error-sealed n p.classification h.1,
      )
      refl

retain_classification-sealed :
    (n : ℕ) (c : Option RetryClassification)
    → OfOption (OfClassification IsSealed) c
    → retain_classification n c ≡ (c, n)
unfolding retain_classification
retain_classification-sealed n none h = refl
retain_classification-sealed n (some c) h =
    rw
      (
        retain_error-sealed n c.classification h.0,
        retain_classification,
        retain_publication-sealed n c.publication h.1,
      )
      refl

module _ {Command : Type 0} where
  pub retain-IsStored : (n : ℕ) (r : CommandResult Command) → EveryError IsStored (retain n r).0
  unfolding retain
  retain-IsStored n r = (
    retain_error-IsStored n r.product_error,
    retain_classification-IsStored (retain_error n r.product_error).1 r.retry_classification,
  )

  pub release-retain :
      (n : ℕ) (r : CommandResult Command) → EveryError IsOutside r → release (retain n r).0 ≡ r
  unfolding retain release
  release-retain n r h = cc (
    release_error-retain_error n r.product_error h.0,
    release_classification-retain_classification (retain_error n r.product_error).1
        r.retry_classification h.1,
  )

  pub retain-sealed :
      (n : ℕ) (r : CommandResult Command) → EveryError IsSealed r → retain n r ≡ (r, n)
  unfolding retain
  retain-sealed n r h =
      rw
        (
          retain_error-sealed n r.product_error h.0,
          retain,
          retain_classification-sealed n r.retry_classification h.1,
        )
        refl
