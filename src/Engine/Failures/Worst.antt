-- ===== src/Engine/Failures/Worst.antt =====
-- Which of several errors `rootFailureAccumulator` of internal/engine/failure_policy.go keeps.
use flowbaton.Prelude.{
  ℕ, ◌≤◌, ◌<◌, ◌≡◌, ◌∙◌, ap, subst, sym, ◌⊎◌, inl, inr, refl, List, [], ◌∷◌, ◌++◌, Bool-cases,
  Option, none, some, ltb, All, arith, ltb→lt,
}
use flowbaton.Engine.Failures.{Core, root_precedence, add, execute_root_sequence}
use flowbaton.Engine.Failures.Sequence.{Runs, add_all, sequence_from-Runs}

module _ {S Item R : Type 0} (core : Core S Item R) where
  -- All of these errors rank below `e`, or not above it.
  abbrev pub Below : ℕ → List ℕ → Type 0
  Below e es = All (λ x. root_precedence core x < root_precedence core e) es

  abbrev pub AtMost : ℕ → List ℕ → Type 0
  AtMost e es = All (λ x. root_precedence core x ≤ root_precedence core e) es

  -- `e` is the first of the errors that rank highest.
  abbrev pub FirstWorst : ℕ → List ℕ → Type 0
  FirstWorst e es =
      (before after : List ℕ) × (es ≡ before ++ (e ∷ after)) × Below e before × AtMost e after

  -- A failure is nil where no error was reported, and else the first of the worst.
  abbrev pub Reported : List ℕ → Option ℕ → Type 0
  Reported es none = es ≡ []
  Reported es (some e) = FirstWorst e es

  add-some :
      (f x : ℕ)
      → ((root_precedence core f < root_precedence core x) × (add core (some f) (some x) ≡ some x))
        ⊎ ((root_precedence core x ≤ root_precedence core f)
            × (add core (some f) (some x) ≡ some f))
  unfolding add
  add-some f x = elim (Bool-cases (ltb (root_precedence core f) (root_precedence core x))) [
    | inl less ↦ inl (ltb→lt _ _ less, rw less)
    | inr not_less ↦ inr (ground arith, rw not_less)
  ]

  -- What becomes of a failure `f` behind which `es` are added.
  abbrev Kept : ℕ → List ℕ → ℕ → Type 0
  Kept f es e =
      ((e ≡ f) × AtMost e es)
      ⊎ ((root_precedence core f < root_precedence core e) × FirstWorst e es)

  add_all-Kept : (es : List ℕ) (f : ℕ) → (e : ℕ) × (add_all core (some f) es ≡ some e) × Kept f es e
  unfolding add_all
  add_all-Kept [] f = (f, refl, inl (refl, tt))
  add_all-Kept (x ∷ xs) f = elim (add-some f x) [
    | inl (less, now) ↦
        let (e, same, kept) = add_all-Kept xs x in
        (
          e,
          ap (λ a. add_all core a xs) now ∙ same,
          elim kept [
            | inl (is_x, rest) ↦ inr (rw is_x less, ([], xs, rw is_x refl, tt, rest))
            | inr (above, (before, after, split, below, rest)) ↦
                inr (omega arith, (x ∷ before, after, ap (λ l. x ∷ l) split, (above, below), rest))
          ],
        )
    | inr (not_above, now) ↦
        let (e, same, kept) = add_all-Kept xs f in
        (
          e,
          ap (λ a. add_all core a xs) now ∙ same,
          elim kept [
            | inl (is_f, rest) ↦ inl (is_f, (rw is_f not_above, rest))
            | inr (above, (before, after, split, below, rest)) ↦
                inr (above, (x ∷ before, after, ap (λ l. x ∷ l) split, (omega arith, below), rest))
          ],
        )
  ]

  pub add_all-Reported : (es : List ℕ) → Reported es (add_all core none es)
  unfolding add_all add
  add_all-Reported [] = refl
  add_all-Reported (x ∷ xs) =
      let (e, same, kept) = add_all-Kept xs x in
      subst (Reported (x ∷ xs)) (sym same) (elim kept [
        | inl (is_x, rest) ↦ ([], xs, rw is_x refl, tt, rest)
        | inr (above, (before, after, split, below, rest)) ↦
            (x ∷ before, after, ap (λ l. x ∷ l) split, (above, below), rest)
      ])

  -- Executing a root sequence is a run of it, and the failure that comes of it is nil exactly where
  -- the run reported no error, and else the first of the errors that rank highest.
  pub execute_root_sequence-Runs :
      (items : List Item) (s : S)
      → (es : List ℕ) × Runs core items s es
          (execute_root_sequence core items s).0.halted
          (execute_root_sequence core items s).1
        × Reported es (execute_root_sequence core items s).0.failure
  unfolding execute_root_sequence
  execute_root_sequence-Runs items s =
      let (es, run, same) = sequence_from-Runs core items none s in
      (es, run, subst (Reported es) (sym same) (add_all-Reported es))
