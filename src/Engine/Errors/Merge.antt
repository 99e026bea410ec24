-- ===== src/Engine/Errors/Merge.antt =====
-- `mergeAggregateTerminalClasses` and the loop over the branches of an aggregate, of
-- internal/engine/errors.go.
use Prim.Native.Nat.{max}
use mathlib.Core.List.{Perm, Permᴰ}
use mathlib.Core.Logic.{∥∥₁_elim}
use flowbaton.Prelude.{
  ℕ, ◌≤◌, ◌≡◌, ◌≢◌, ◌∙◌, refl, ap, List, [], ◌∷◌, Bool, true, false, ◌||◌, Option, All, arith, inl,
  inr, Bool-cases,
}
use flowbaton.Engine.Errors.{precedence, merge_aggregate, merge_branches, or_failure}
use flowbaton.Engine.Errors.Direct.{TerminalClass, Classification}

precedence-injective : (a b : TerminalClass) → precedence a ≡ precedence b → a ≡ b
precedence-injective a b h = ground arith

precedence-merge_le :
    (a b : TerminalClass)
    → (precedence a ≤ precedence (merge_aggregate a b))
      × (precedence b ≤ precedence (merge_aggregate a b))
unfolding merge_aggregate
precedence-merge_le a b = ground arith

precedence-merge :
    (a b : TerminalClass) → precedence (merge_aggregate a b) ≡ max (precedence a) (precedence b)
unfolding merge_aggregate
precedence-merge a b = ground arith

-- Merging one class and then another does not depend on which comes first.
merge_right_comm :
    (a b c : TerminalClass)
    → merge_aggregate (merge_aggregate a b) c ≡ merge_aggregate (merge_aggregate a c) b
merge_right_comm a b c = precedence-injective _ _ (
    omega (
      arith,
      precedence-merge (merge_aggregate a b) c,
      precedence-merge a b,
      precedence-merge (merge_aggregate a c) b,
      precedence-merge a c,
    ))

or_right_comm : (a b c : Bool) → ((a || b) || c) ≡ ((a || c) || b)
or_right_comm a b c = ground arith

or_failure-le : (class : TerminalClass) → precedence class ≤ precedence (or_failure class)
or_failure-le class = ground arith

pub true≢false : true ≢ false
true≢false e = cc

Classification-set : IsSet Classification
Classification-set = hlevel

module _ (inspect : Option ℕ → Classification) where
  merge_branches_swap :
      (class : TerminalClass) (aggregates : Bool) (x y : Option ℕ) (bs : List (Option ℕ))
      → merge_branches inspect class aggregates (x ∷ y ∷ bs)
        ≡ merge_branches inspect class aggregates (y ∷ x ∷ bs)
  unfolding merge_branches
  merge_branches_swap class aggregates x y bs = ground (
    arith,
    merge_right_comm class (inspect x).class (inspect y).class,
    or_right_comm aggregates (inspect x).contains_aggregate (inspect y).contains_aggregate,
  )

  -- The highest class among the branches decides: none of them ranks above the result.
  pub merge_branches_dominates :
      (class : TerminalClass) (aggregates : Bool) (bs : List (Option ℕ)) (c : Classification)
      → merge_branches inspect class aggregates bs ≡ c
      → c.invalid ≡ false
      → (precedence class ≤ precedence c.class)
        × All (λ b. precedence (inspect b).class ≤ precedence c.class) bs
  unfolding merge_branches
  merge_branches_dominates class aggregates [] c e valid = (rw (← e) (or_failure-le class), tt)
  merge_branches_dominates class aggregates (b ∷ bs) c e valid =
      elim (Bool-cases (inspect b).invalid) [
        | inl bad ↦ absurd (true≢false (ap (λ k. k.invalid) (rw bad at e) ∙ valid))
        | inr good ↦
            let (here, rest) =
              merge_branches_dominates (merge_aggregate class (inspect b).class)
                (aggregates || (inspect b).contains_aggregate) bs c (rw good at e) valid in
            (
              omega (arith, precedence-merge_le class (inspect b).class),
              (omega (arith, precedence-merge_le class (inspect b).class), rest),
            )
      ]

  merge_branches_cons :
      (class : TerminalClass) (aggregates : Bool) (b : Option ℕ) (bs bs' : List (Option ℕ))
      → ((k : TerminalClass) (a : Bool)
          → merge_branches inspect k a bs ≡ merge_branches inspect k a bs')
      → merge_branches inspect class aggregates (b ∷ bs)
        ≡ merge_branches inspect class aggregates (b ∷ bs')
  unfolding merge_branches
  merge_branches_cons class aggregates b bs bs' same = rw (
      same (merge_aggregate class (inspect b).class) (aggregates || (inspect b).contains_aggregate))

  merge_branches-permᴰ :
      {bs bs' : List (Option ℕ)}
      → Permᴰ bs bs'
      → (class : TerminalClass) (aggregates : Bool)
      → merge_branches inspect class aggregates bs ≡ merge_branches inspect class aggregates bs'
  merge_branches-permᴰ Permᴰ.nil class aggregates = refl
  merge_branches-permᴰ (Permᴰ.cons {a = x} {l₁ = xs} {l₂ = ys} e p) class aggregates =
      merge_branches_cons class aggregates x xs ys (merge_branches-permᴰ p)
      ∙ ap (λ z. merge_branches inspect class aggregates (z ∷ ys)) e
  merge_branches-permᴰ (Permᴰ.swap {a = x} {b = y} {a' = x'} {l = l} e f) class aggregates =
      merge_branches_swap class aggregates x y l
      ∙ ap (λ z. merge_branches inspect class aggregates (z ∷ x ∷ l)) f
      ∙ ap (λ z. merge_branches inspect class aggregates (x' ∷ z ∷ l)) e
  merge_branches-permᴰ (Permᴰ.trans p q) class aggregates =
      merge_branches-permᴰ p class aggregates ∙ merge_branches-permᴰ q class aggregates

  -- The order of the branches of an aggregate does not matter.
  pub merge_branches-perm :
      (class : TerminalClass) (aggregates : Bool) (bs bs' : List (Option ℕ))
      → Perm bs bs'
      → merge_branches inspect class aggregates bs ≡ merge_branches inspect class aggregates bs'
  merge_branches-perm class aggregates bs bs' p =
      ∥∥₁_elim p (Classification-set _ _) (λ d. merge_branches-permᴰ d class aggregates)
