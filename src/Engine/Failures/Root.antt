-- ===== src/Engine/Failures/Root.antt =====
-- The life of a selected root, of executeFlowLifecycle in internal/engine/flow_executor.go.
use flowbaton.Prelude.{
  ℕ, ◌≡◌, ◌∙◌, ap, ◌⊎◌, inl, inr, refl, subst, sym, List, [], Bool, false, Bool-cases, Option, none,
  some, arith, Option-cases,
}
use flowbaton.Engine.Errors.{nil, sanitize_malformed_error}
use flowbaton.Engine.Failures.{
  Core, PolicyResult, RootFlow, Entry, refused, entered, add, execute_root_sequence, run_body,
  run_completion, run_in_scope, enter_and_run, run_root,
}
use flowbaton.Engine.Failures.Sequence.{Runs}
use flowbaton.Engine.Failures.Worst.{Reported, execute_root_sequence-Runs}

module _ {S Item R : Type 0} (core : Core S Item R) where
  -- A run with no error is not halted.
  Runs-clean :
      {items : List Item} {s s' : S} {es : List ℕ} {h : Bool}
      → Runs core items s es h s'
      → es ≡ []
      → h ≡ false
  Runs-clean (Runs.over s) e = refl
  Runs-clean (Runs.reject item items s s' x answer) e = absurd (cc e)
  Runs-clean (Runs.pass item items s s' s'' r es h answer rest) e = Runs-clean rest e
  Runs-clean (Runs.bypass item items s s' r x answer b) e = absurd (cc e)
  Runs-clean (Runs.give_up item items s s' s'' r x answer b c) e = absurd (cc e)
  Runs-clean (Runs.keep_going item items s s' s'' t r x es h answer b c rest) e = absurd (cc e)

  -- A sequence that ends with no failure has run to its end with no error.
  clean :
      (items : List Item) (s : S)
      → ((execute_root_sequence core items s).0).failure ≡ none
      → Runs core items s [] false ((execute_root_sequence core items s).1)
        × (((execute_root_sequence core items s).0).halted ≡ false)
  clean items s e =
      let (es, run, reported) = execute_root_sequence-Runs core items s in
      let none_reported : es ≡ [] = subst (Reported core es) e reported in
      let on = Runs-clean run none_reported in
      (
        subst (λ h. Runs core items s [] h ((execute_root_sequence core items s).1)) on
            (subst
              (λ l.
                Runs core items s l ((execute_root_sequence core items s).0.halted)
                  ((execute_root_sequence core items s).1))
              none_reported run),
        on,
      )

  add-none :
      (failure more : Option ℕ) → add core failure more ≡ none → (failure ≡ none) × (more ≡ none)
  unfolding add
  add-none none none e = (refl, refl)
  add-none none (some x) e = absurd (cc e)
  add-none (some f) none e = absurd (cc e)
  add-none (some f) (some x) e = ground arith

  none-add : (more : Option ℕ) → add core none more ≡ more
  unfolding add
  none-add none = refl
  none-add (some x) = refl

  run_body_on :
      (flow : RootFlow Item) (start : PolicyResult) (s : S)
      → start.halted ≡ false
      → run_body core flow start s ≡ (
        add core (add core none start.failure) (execute_root_sequence core flow.body s).0.failure,
        (execute_root_sequence core flow.body s).1,
      )
  unfolding run_body
  run_body_on flow start s on = rw on refl

  body_clean :
      (flow : RootFlow Item) (start : PolicyResult) (s : S)
      → start.halted ≡ false
      → (run_body core flow start s).0 ≡ none
      → (start.failure ≡ none) × Runs core flow.body s [] false ((run_body core flow start s).1)
  body_clean flow start s on e =
      let same = run_body_on flow start s on in
      let (before, after) = add-none _ _ (sym (ap (λ p. p.0) same) ∙ e) in
      (
        sym (none-add start.failure) ∙ before,
        subst (Runs core flow.body s [] false) (sym (ap (λ p. p.1) same))
            ((clean flow.body s after).0),
      )

  body_starts :
      (flow : RootFlow Item) (start : PolicyResult) (s : S)
      → (run_body core flow start s).0 ≡ none
      → start.failure ≡ none
  unfolding run_body
  body_starts flow start s e = elim (Bool-cases start.halted) [
    | inl halted ↦ sym (none-add start.failure) ∙ rw (halted, run_body) at e
    | inr on ↦ sym (none-add start.failure) ∙ (add-none _ _ (rw (on, run_body) at e)).0
  ]

  completion_clean :
      (flow : RootFlow Item) (failure : Option ℕ) (s : S)
      → (run_completion core flow failure s).0 ≡ none
      → (failure ≡ none)
        × Runs core flow.on_complete s [] false ((run_completion core flow failure s).1)
  unfolding run_completion
  completion_clean flow none s e = (refl, (clean flow.on_complete s (sym (none-add _) ∙ e)).0)
  completion_clean flow (some f) s e = elim (Bool-cases (core.integrity_lost f)) [
    | inl lost ↦ absurd (cc (rw lost at e))
    | inr kept ↦
        let (before, after) =
          add-none (some f) ((execute_root_sequence core flow.on_complete s).0.failure)
            (rw kept at e) in
        absurd (cc before)
  ]

  -- A root that went through every phase from `s` to `s'` without an error.
  pub record Succeeded (flow : RootFlow Item) (s s' : S) : Type 0 where
    pub inside : S
    pub started : S
    pub ran : S
    pub completed : S
    pub left : S
    pub ready : core.context_error s ≡ none
    pub enters : core.enter s ≡ entered inside
    pub starts : Runs core flow.on_start inside [] false started
    pub runs : Runs core flow.body started [] false ran
    pub completes : Runs core flow.on_complete ran [] false completed
    pub closes_scope : core.close_scope completed ≡ (none, left)
    pub closes_session : core.close_session left ≡ (none, s')

  sanitize-nil :
      (failure : Option ℕ) → (sanitize_malformed_error core.graph failure).0 ≡ nil → failure ≡ none
  unfolding sanitize_malformed_error
  sanitize-nil none e = refl
  sanitize-nil (some r) e = ground arith

  closed_none : (p : Option ℕ × S) → p.0 ≡ none → p ≡ (none, p.1)
  closed_none p e = ap (λ o. (o, p.1)) e

  entered_clean :
      (flow : RootFlow Item) (s inside s' : S)
      → core.context_error s ≡ none
      → core.enter s ≡ entered inside
      → (run_in_scope core flow inside).0 ≡ none
      → core.close_session ((run_in_scope core flow inside).1) ≡ (none, s')
      → Succeeded flow s s'
  unfolding run_in_scope
  entered_clean flow s inside s' ready enters e ends =
      let start = execute_root_sequence core flow.on_start inside in
      let body = run_body core flow start.0 start.1 in
      let completion = run_completion core flow body.0 body.1 in
      let (finished, closed) = add-none (completion.0) ((core.close_scope completion.1).0) e in
      let (before, completes) = completion_clean flow (body.0) (body.1) finished in
      let (starts, on) = clean flow.on_start inside (body_starts flow start.0 start.1 before) in
      let (none_yet, runs) = body_clean flow (start.0) (start.1) on before in
      record {
        inside = inside;
        started = start.1;
        ran = body.1;
        completed = completion.1;
        left = (core.close_scope completion.1).1;
        ready = ready;
        enters = enters;
        starts = starts;
        runs = runs;
        completes = completes;
        closes_scope = closed_none (core.close_scope completion.1) closed;
        closes_session = ends;
      }

  Entry-cases :
      (x : Entry S) → ((e : ℕ) × (s : S) × (x ≡ refused e s)) ⊎ ((s : S) × (x ≡ entered s))
  Entry-cases (refused e s) = inl (e, s, refl)
  Entry-cases (entered s) = inr (s, refl)

  run_root-clean :
      (flow : RootFlow Item) (s s' : S)
      → (enter_and_run core flow s).0 ≡ none
      → core.close_session ((enter_and_run core flow s).1) ≡ (none, s')
      → Succeeded flow s s'
  unfolding enter_and_run
  run_root-clean flow s s' e ends = elim (Option-cases (core.context_error s)) [
    | inr (x, dead) ↦ absurd (cc (rw (dead, enter_and_run) at e))
    | inl ready ↦ elim (Entry-cases (core.enter s)) [
      | inl (x, s'', no_scope) ↦ absurd (cc (rw (ready, no_scope, enter_and_run) at e))
      | inr (inside, enters) ↦
          entered_clean flow s inside s' ready enters (rw (ready, enters, enter_and_run) at e)
            (rw (ready, enters, enter_and_run) at ends)
    ]
  ]

  -- A selected root ends with no failure only where its context was alive, its scope was entered,
  -- every command of the start hook, the body and the completion hook was executed and none
  -- reported an error, and scope and session were closed without one.
  pub run_root-Succeeded :
      (flow : RootFlow Item) (s : S)
      → (run_root core flow s).0 ≡ nil
      → Succeeded flow s ((run_root core flow s).1)
  unfolding run_root
  run_root-Succeeded flow s e =
      let work = enter_and_run core flow s in
      let (worked, closed) = add-none (work.0) ((core.close_session work.1).0) (sanitize-nil _ e) in
      run_root-clean flow s _ worked (closed_none (core.close_session work.1) closed)
