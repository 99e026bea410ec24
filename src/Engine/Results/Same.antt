-- ===== src/Engine/Results/Same.antt =====
-- When two results count as the same for internal/engine/result_ledger.go.
use Prim.Native.String.{String}
use text.Mathlib.Text.{◌==◌ as str_eq}
use text.Mathlib.TextEquality.{eq_iff}
use text.Mathlib.TextPositions.{eq_refl}
use flowbaton.Prelude.{
  ℕ, ◌≡◌, refl, List, [], ◌∷◌, Bool, true, false, ◌&&◌, Option, none, some, ◌==◌, length, arith,
}
use flowbaton.Prelude.Int.{ℤ, ◌==ℤ◌}
use flowbaton.Engine.Results.{
  Outcome, completed, skipped, warned, failed, cancelled, unknown, ResultError, raw, sealed,
  untrusted, Publication, RetryClassification, CommandMetadata, Artifact, CommandResult,
  same_outcome, same_pointer, same_sealed_error, same_stored_error, same_list, same_option,
  find_entry, all_entries, same_map, same_artifact, same_publication, same_classification,
  same_metadata, same_command_result,
}

pub &&-true : (a b : Bool) → a && b ≡ true → (a ≡ true) × (b ≡ true)
&&-true true b h = (refl, h)
&&-true false b h = (h, cc)

pub both : (a b : Bool) → a ≡ true → b ≡ true → a && b ≡ true
both a b h k = rw (h, k) refl

-- A map has every key once.
abbrev pub IsKeyed : {V : Type 0} → List (String × V) → Type 0
IsKeyed [] = Unit {0}
IsKeyed ((k, v) ∷ entries) = (find_entry k entries ≡ none) × IsKeyed entries

abbrev pub OfOption : {A : Type 0} → (A → Type 0) → Option A → Type 0
OfOption P none = Unit {0}
OfOption P (some a) = P a

abbrev pub IsKeyedArtifacts : List Artifact → Type 0
IsKeyedArtifacts [] = Unit {0}
IsKeyedArtifacts (a ∷ artifacts) = OfOption IsKeyed a.metadata × IsKeyedArtifacts artifacts

-- What may be stored without becoming readable as an error of the executor.
abbrev pub IsStored : Option ResultError → Type 0
IsStored none = Unit {0}
IsStored (some (raw e)) = true ≡ false
IsStored (some (sealed a e)) = Unit {0}
IsStored (some (untrusted a e)) = Unit {0}

-- No error, or one that the executor sealed.
abbrev pub IsSealed : Option ResultError → Type 0
IsSealed none = Unit {0}
IsSealed (some (raw e)) = true ≡ false
IsSealed (some (sealed a e)) = Unit {0}
IsSealed (some (untrusted a e)) = true ≡ false

module _ (P : Option ResultError → Type 0) where
  abbrev pub OfPublication : Publication → Type 0
  OfPublication p = P p.published × P p.classification

  abbrev pub OfClassification : RetryClassification → Type 0
  OfClassification c = P c.classification × OfOption OfPublication c.publication

  -- `P` of every error that a result holds.
  abbrev pub EveryError : {Command : Type 0} → CommandResult Command → Type 0
  EveryError r = P r.product_error × OfOption OfClassification r.retry_classification

pub same_stored_error_refl : (e : Option ResultError) → IsStored e → same_stored_error e e ≡ true
unfolding same_stored_error
same_stored_error_refl none h = refl
same_stored_error_refl (some (raw e)) h = cc
same_stored_error_refl (some (sealed a e)) h = ground arith
same_stored_error_refl (some (untrusted a e)) h = ground arith

pub same_sealed_error_refl : (e : Option ResultError) → IsSealed e → same_sealed_error e e ≡ true
unfolding same_sealed_error
same_sealed_error_refl none h = refl
same_sealed_error_refl (some (raw e)) h = cc
same_sealed_error_refl (some (sealed a e)) h = ground arith
same_sealed_error_refl (some (untrusted a e)) h = cc

pub str_eq_refl : (s : String) → str_eq s s ≡ true
str_eq_refl s = eq_refl s

same_outcome_refl : (o : Outcome) → same_outcome o o ≡ true
unfolding same_outcome
same_outcome_refl (unknown s) = str_eq_refl s
same_outcome_refl completed = refl
same_outcome_refl skipped = refl
same_outcome_refl warned = refl
same_outcome_refl failed = refl
same_outcome_refl cancelled = refl

same_pointer_refl : (p : Option ℕ) → same_pointer p p ≡ true
same_pointer_refl none = refl
same_pointer_refl (some a) = ground arith

pub same_int_refl : (z : ℤ) → (z ==ℤ z) ≡ true
same_int_refl z = ground arith

same_nat_refl : (n : ℕ) → (n == n) ≡ true
same_nat_refl n = ground arith

same_texts_refl : (xs : List String) → same_list str_eq xs xs ≡ true
same_texts_refl [] = refl
same_texts_refl (x ∷ xs) = both _ _ (str_eq_refl x) (same_texts_refl xs)

pub same_option_refl :
    {A : Type 0} (P : A → Type 0) (same : A → A → Bool)
    → ((a : A) → P a → same a a ≡ true)
    → (o : Option A) → OfOption P o
    → same_option same o o ≡ true
same_option_refl P same h none p = refl
same_option_refl P same h (some a) p = h a p

anything : {A : Type 0} (o : Option A) → OfOption (λ (a : A). Unit {0}) o
anything none = tt
anything (some a) = tt

-- An entry that is put in front hides no other key.
all_entries_front :
    {V : Type 0} (same : V → V → Bool) (k : String) (v : V) (es candidate : List (String × V))
    → find_entry k es ≡ none
    → all_entries same es candidate ≡ true
    → all_entries same es ((k, v) ∷ candidate) ≡ true
all_entries_front same k v [] candidate fresh h = refl
all_entries_front same k v ((j, w) ∷ es) candidate fresh h =
    ground (arith, eq_iff k j, eq_iff j k, all_entries_front same k v es candidate)

all_entries_refl :
    {V : Type 0} (same : V → V → Bool)
    → ((v : V) → same v v ≡ true)
    → (es : List (String × V)) → IsKeyed es
    → all_entries same es es ≡ true
all_entries_refl same self [] h = refl
all_entries_refl same self ((k, v) ∷ es) h =
    let rest = all_entries_front same k v es es h.0 (all_entries_refl same self es h.1) in
    rw (str_eq_refl k, self v) rest

pub same_map_refl :
    {V : Type 0} (same : V → V → Bool)
    → ((v : V) → same v v ≡ true)
    → (es : List (String × V)) → IsKeyed es
    → same_map same es es ≡ true
unfolding same_map
same_map_refl same self es h =
    both _ _ (same_nat_refl (length es)) (all_entries_refl same self es h)

same_artifacts_refl :
    (artifacts : List Artifact)
    → IsKeyedArtifacts artifacts
    → same_list same_artifact artifacts artifacts ≡ true
unfolding same_artifact
same_artifacts_refl [] h = refl
same_artifacts_refl (a ∷ artifacts) h =
    both _ _
      (both _ _ (both _ _ (str_eq_refl a.kind) (str_eq_refl a.path)) (
        same_option_refl IsKeyed (same_map str_eq) (same_map_refl str_eq str_eq_refl) a.metadata
          h.0))
      (same_artifacts_refl artifacts h.1)

module _ {Command : Type 0} (same_command : Command → Command → Bool) where
  -- The commands of a result are the same as themselves, which a floating-point NaN among their
  -- arguments is not, and its maps have every key once.
  pub record IsComparable (r : CommandResult Command) : Type 0 where
    pub command : same_command r.command r.command ≡ true
    pub evaluated : OfOption (λ c. same_command c c ≡ true) r.metadata.evaluated_command
    pub keyed : OfOption IsKeyedArtifacts r.artifacts

  same_metadata_refl :
      (m : CommandMetadata Command)
      → OfOption (λ c. same_command c c ≡ true) m.evaluated_command
      → same_metadata same_command m m ≡ true
  unfolding same_metadata
  same_metadata_refl m h =
      both _ _
        (both _ _ (both _ _ (same_int_refl m.number_of_runs) (ground arith))
          (both _ _ (str_eq_refl m.insight) (str_eq_refl m.ai_reasoning)))
        (both _ _
          (same_option_refl (λ xs. Unit {0}) (same_list str_eq) (λ xs u. same_texts_refl xs)
            m.log_messages (anything m.log_messages))
          (same_option_refl (λ c. same_command c c ≡ true) same_command (λ c e. e)
            m.evaluated_command h))

  module _ (same_error : Option ResultError → Option ResultError → Bool)
      (P : Option ResultError → Type 0)
      (same_error_refl : (e : Option ResultError) → P e → same_error e e ≡ true) where
    same_publication_refl :
        (p : Publication) → OfPublication P p → same_publication same_error p p ≡ true
    same_publication_refl p h =
        both _ _ (same_error_refl p.published h.0) (same_error_refl p.classification h.1)

    same_classification_refl :
        (c : RetryClassification) → OfClassification P c → same_classification same_error c c ≡ true
    unfolding same_classification
    same_classification_refl c h = both _ _ (same_error_refl c.classification h.0) (
        same_option_refl (OfPublication P) (same_publication same_error) same_publication_refl
          c.publication h.1)

    pub same_command_result_refl :
        (r : CommandResult Command)
        → IsComparable r
        → EveryError P r
        → same_command_result same_command same_error r r ≡ true
    unfolding same_command_result
    same_command_result_refl r comparable errors =
        both _ _
          (both _ _
            (both _ _
              (both _ _ (both _ _ (same_pointer_refl r.identity) (str_eq_refl r.root_run_id))
                (both _ _ (same_nat_refl r.sequence) (same_int_refl r.depth)))
              (same_outcome_refl r.outcome))
            (both _ _
              (both _ _ (both _ _ (same_nat_refl r.started_at) (same_nat_refl r.finished_at))
                (same_int_refl r.duration))
              comparable.command))
          (both _ _
            (both _ _ (same_error_refl r.product_error errors.0) (
              same_option_refl (OfClassification P) (same_classification same_error)
                same_classification_refl r.retry_classification errors.1))
            (both _ _ (same_metadata_refl r.metadata comparable.evaluated) (
              same_option_refl IsKeyedArtifacts (same_list same_artifact) same_artifacts_refl
                r.artifacts comparable.keyed)))
