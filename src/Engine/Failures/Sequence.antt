-- ===== src/Engine/Failures/Sequence.antt =====
-- What `executeRootSequenceWithPolicy` of internal/engine/failure_policy.go does with the errors
-- of the commands that it executes.
use flowbaton.Prelude.{
  ℕ, ◌≡◌, ◌∙◌, ap, ◌⊎◌, inl, inr, refl, List, [], ◌∷◌, Bool, true, false, Bool-cases, Option, some,
  if◌then◌else◌,
}
use flowbaton.Engine.Failures.{
  Core, Execution, unauthenticated, passed, failed, PolicyResult, or_rejection, add, result_of,
  resolver_bypassed, resolver_continues, sequence_from,
}

module _ {S Item R : Type 0} (core : Core S Item R) where
  -- The runs of a list of commands from one state to another, with the errors that its commands
  -- reported, in order, and whether it was halted.
  pub data Runs : List Item → S → List ℕ → Bool → S → Type 0 where
    over : (s : S) → Runs [] s [] false s
    reject :
        (item : Item) (items : List Item) (s s' : S) (e : Option ℕ)
        → core.execute item s ≡ unauthenticated e s'
        → Runs (item ∷ items) s (or_rejection core.rejection e ∷ []) true s'
    pass :
        (item : Item) (items : List Item) (s s' s'' : S) (r : R) (es : List ℕ) (h : Bool)
        → core.execute item s ≡ passed r s'
        → Runs items s' es h s''
        → Runs (item ∷ items) s es h s''
    bypass :
        (item : Item) (items : List Item) (s s' : S) (r : R) (e : ℕ)
        → core.execute item s ≡ failed r e s'
        → resolver_bypassed core e ≡ true
        → Runs (item ∷ items) s (e ∷ []) true s'
    give_up :
        (item : Item) (items : List Item) (s s' s'' : S) (r : R) (e : ℕ)
        → core.execute item s ≡ failed r e s'
        → resolver_bypassed core e ≡ false
        → resolver_continues core r s' ≡ (false, s'')
        → Runs (item ∷ items) s (e ∷ []) true s''
    keep_going :
        (item : Item) (items : List Item) (s s' s'' t : S) (r : R) (e : ℕ) (es : List ℕ) (h : Bool)
        → core.execute item s ≡ failed r e s'
        → resolver_bypassed core e ≡ false
        → resolver_continues core r s' ≡ (true, s'')
        → Runs items s'' es h t
        → Runs (item ∷ items) s (e ∷ es) h t

  -- The failure after more errors.
  unfoldable pub add_all : Option ℕ → List ℕ → Option ℕ
  add_all failure [] = failure
  add_all failure (e ∷ es) = add_all (add core failure (some e)) es

  -- A run that ends in what the loop returns from a failure so far.
  abbrev Taken : List Item → Option ℕ → S → PolicyResult × S → Type 0
  Taken items failure s r =
      (es : List ℕ) × Runs items s es ((r.0).halted) (r.1) × ((r.0).failure ≡ add_all failure es)

  Execution-cases :
      (x : Execution R S)
      → ((e : Option ℕ) × (s : S) × (x ≡ unauthenticated e s))
        ⊎ (((r : R) × (s : S) × (x ≡ passed r s))
            ⊎ ((r : R) × (e : ℕ) × (s : S) × (x ≡ failed r e s)))
  Execution-cases (unauthenticated e s) = inl (e, s, refl)
  Execution-cases (passed r s) = inr (inl (r, s, refl))
  Execution-cases (failed r e s) = inr (inr (r, e, s, refl))

  sequence_from-unauthenticated :
      (item : Item) (items : List Item) (failure e : Option ℕ) (s s' : S)
      → core.execute item s ≡ unauthenticated e s'
      → sequence_from core (item ∷ items) failure s
        ≡ result_of core (add core failure (some (or_rejection core.rejection e))) true s'
  unfolding sequence_from
  sequence_from-unauthenticated item items failure e s s' x = rw (x, sequence_from)

  sequence_from-passed :
      (item : Item) (items : List Item) (failure : Option ℕ) (r : R) (s s' : S)
      → core.execute item s ≡ passed r s'
      → sequence_from core (item ∷ items) failure s ≡ sequence_from core items failure s'
  unfolding sequence_from
  sequence_from-passed item items failure r s s' x = rw (x, sequence_from)

  sequence_from-failed :
      (item : Item) (items : List Item) (failure : Option ℕ) (r : R) (e : ℕ) (s s' s'' : S)
      (continues : Bool)
      → core.execute item s ≡ failed r e s'
      → resolver_continues core r s' ≡ (continues, s'')
      → sequence_from core (item ∷ items) failure s ≡ (
          if resolver_bypassed core e
          then result_of core (add core failure (some e)) true s'
          else if continues
          then sequence_from core items (add core failure (some e)) s''
          else result_of core (add core failure (some e)) true s'')
  unfolding sequence_from
  sequence_from-failed item items failure r e s s' s'' continues x answer =
      rw (x, sequence_from, answer)

  add_all-one : (failure : Option ℕ) (e : ℕ) → add core failure (some e) ≡ add_all failure (e ∷ [])
  unfolding add_all
  add_all-one failure e = refl

  add_all-cons :
      (failure : Option ℕ) (e : ℕ) (es : List ℕ)
      → add_all (add core failure (some e)) es ≡ add_all failure (e ∷ es)
  unfolding add_all
  add_all-cons failure e es = refl

  sequence_from-nil :
      (failure : Option ℕ) (s : S)
      → sequence_from core [] failure s ≡ result_of core failure false s
  unfolding sequence_from
  sequence_from-nil failure s = refl

  answered : (b : Bool) (p : Bool × S) → p.0 ≡ b → p ≡ (b, p.1)
  answered b p e = ap (λ c. (c, p.1)) e

  pub sequence_from-Runs :
      (items : List Item) (failure : Option ℕ) (s : S)
      → Taken items failure s (sequence_from core items failure s)
  sequence_from-Runs [] failure s =
      rw (sequence_from-nil failure s) ([], Runs.over s, unfold add_all in refl)
  sequence_from-Runs (item ∷ items) failure s = elim (Execution-cases (core.execute item s)) [
    | inl (e, s', x) ↦
        rw (sequence_from-unauthenticated item items failure e s s' x)
          (_, Runs.reject item items s s' e x, add_all-one failure (or_rejection core.rejection e))
    | inr (inl (r, s', x)) ↦
        let (es, run, same) = sequence_from-Runs items failure s' in
        rw (sequence_from-passed item items failure r s s' x)
          (es, Runs.pass item items s s' _ r es _ x run, same)
    | inr (inr (r, e, s', x)) ↦
        let s'' = (resolver_continues core r s').1 in
        let (es, run, same) = sequence_from-Runs items (add core failure (some e)) s'' in
        rw (sequence_from-failed item items failure r e s s' s'' _ x refl)
          (elim (Bool-cases (resolver_bypassed core e)) [
            | inl bypassed ↦
                rw bypassed (_, Runs.bypass item items s s' r e x bypassed, add_all-one failure e)
            | inr asked ↦ rw asked (elim (Bool-cases (resolver_continues core r s').0) [
              | inl on ↦ rw on (
                _,
                Runs.keep_going item items s s' s'' _ r e es _ x asked (answered true _ on) run,
                same ∙ add_all-cons failure e es,
              )
              | inr off ↦ rw off (
                _,
                Runs.give_up item items s s' s'' r e x asked (answered false _ off),
                add_all-one failure e,
              )
            ])
          ])
  ]
