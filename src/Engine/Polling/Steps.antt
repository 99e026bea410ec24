-- ===== src/Engine/Polling/Steps.antt =====
-- What the polling loops of internal/engine/settle.go and internal/engine/stability.go have done when
-- they end, as a relation on worlds.
use flowbaton.Prelude.{
  ℕ, zero, suc, ◌≡◌, refl, inl, inr, Bool-cases, Option, none, some, Option-cases, ltb, subst,
  arith,
}
use flowbaton.Prelude.Int.{ℤ, sub_ℕ}
use flowbaton.Engine.Polling.{
  Clock, min_duration, Verdict, again, finish, Polled, interrupted, finished, timed_out, pause,
  poll, poll_attempts, poll_round, poll_until,
}
use flowbaton.Engine.Polling.Deadline.{
  Round-cases, poll_until-over, poll_until-finish, poll_until-again,
}

module _ {World S R : Type 0} (clock : Clock World) (body : S → World → Verdict S R × World) where
  -- From one state and world to another: the clock is read, or a pause with no error leads to the
  -- body, which asks for another round.
  pub data Steps (s₀ : S) (w₀ : World) : S → World → Type 0 where
    here : Steps s₀ w₀ s₀ w₀
    read : (s : S) (w : World) → Steps s₀ w₀ s w → Steps s₀ w₀ s ((clock.now w).1)
    look :
        (delay : ℤ) (s s' : S) (w w₁ w₂ : World)
        → Steps s₀ w₀ s w
        → pause clock delay w ≡ (none, w₁)
        → body s w₁ ≡ (again s', w₂)
        → Steps s₀ w₀ s' w₂

  -- The loop ended behind such steps, by the body behind a pause, by an error of a pause, or where it
  -- stands.
  abbrev pub Ended : S → World → Polled S R × World → Type 0
  Ended s₀ w₀ (finished r, w') =
      (s : S) × (w : World) × (w₁ : World) × (delay : ℤ) × Steps s₀ w₀ s w
      × (pause clock delay w ≡ (none, w₁))
      × (body s w₁ ≡ (finish r, w'))
  Ended s₀ w₀ (interrupted s e, w') =
      (w : World) × (delay : ℤ) × Steps s₀ w₀ s w × (pause clock delay w ≡ (some e, w'))
  Ended s₀ w₀ (timed_out s, w') = Steps s₀ w₀ s w'

  paired : {A : Type 0} (p : A × World) (a : A) → p.0 ≡ a → p ≡ (a, p.1)
  paired p a e = λ i. (e i, p.1)

  abbrev Polls : S → World → Verdict S (Polled S R) × World → Type 0
  Polls s₀ w₀ (again s, w) = Steps s₀ w₀ s w
  Polls s₀ w₀ (finish r, w) = Ended s₀ w₀ (r, w)

  -- The body behind a quiet pause.
  abbrev looked : Verdict S R × World → Verdict S (Polled S R) × World
  looked (again s, w) = (again s, w)
  looked (finish r, w) = (finish (finished r), w)

  looked-Polls :
      (delay : ℤ) (s₀ s : S) (w₀ w w₁ : World) (x : Verdict S R × World)
      → Steps s₀ w₀ s w
      → pause clock delay w ≡ (none, w₁)
      → body s w₁ ≡ x
      → Polls s₀ w₀ (looked x)
  looked-Polls delay s₀ s w₀ w w₁ (again s', w') steps quiet e =
      Steps.look delay s s' w w₁ w' steps quiet e
  looked-Polls delay s₀ s w₀ w w₁ (finish r, w') steps quiet e = (s, w, w₁, delay, steps, quiet, e)

  poll-quiet :
      (delay : ℤ) (s : S) (w : World)
      → (pause clock delay w).0 ≡ none
      → poll clock body delay s w ≡ looked (body s ((pause clock delay w).1))
  unfolding poll
  poll-quiet delay s w e = ground arith

  poll-failed :
      (delay : ℤ) (s : S) (w : World) (e : ℕ)
      → (pause clock delay w).0 ≡ some e
      → poll clock body delay s w ≡ (finish (interrupted s e), (pause clock delay w).1)
  unfolding poll
  poll-failed delay s w e h = ground arith

  poll-Polls :
      (delay : ℤ) (s₀ s : S) (w₀ w : World)
      → Steps s₀ w₀ s w
      → Polls s₀ w₀ (poll clock body delay s w)
  poll-Polls delay s₀ s w₀ w steps = elim (Option-cases (pause clock delay w).0) [
    | inl quiet ↦
        rw (poll-quiet delay s w quiet)
          (looked-Polls delay s₀ s w₀ w _ _ steps (paired (pause clock delay w) none quiet) refl)
    | inr (e, failed) ↦
        rw (poll-failed delay s w e failed)
          (w, delay, steps, paired (pause clock delay w) (some e) failed)
  ]

  attempts_step : ℕ → ℤ → Verdict S (Polled S R) × World → Polled S R × World
  attempts_step attempts delay (again s, w) = poll_attempts clock body attempts delay s w
  attempts_step attempts delay (finish r, w) = (r, w)

  poll_attempts-suc :
      (attempts : ℕ) (delay : ℤ) (s : S) (w : World)
      → poll_attempts clock body (suc attempts) delay s w
        ≡ attempts_step attempts delay (poll clock body delay s w)
  unfolding poll_attempts attempts_step
  poll_attempts-suc attempts delay s w = ground arith

  attempts_step-Ended :
      (attempts : ℕ) (delay : ℤ) (s₀ : S) (w₀ : World) (x : Verdict S (Polled S R) × World)
      → ((s : S) (w : World)
          → Steps s₀ w₀ s w
          → Ended s₀ w₀ (poll_attempts clock body attempts delay s w))
      → Polls s₀ w₀ x
      → Ended s₀ w₀ (attempts_step attempts delay x)
  unfolding attempts_step
  attempts_step-Ended attempts delay s₀ w₀ (again s, w) rest steps = rest s w steps
  attempts_step-Ended attempts delay s₀ w₀ (finish r, w) rest ended = ended

  poll_attempts-nil :
      (delay : ℤ) (s : S) (w : World) → poll_attempts clock body 0 delay s w ≡ (timed_out s, w)
  unfolding poll_attempts
  poll_attempts-nil delay s w = refl

  pub poll_attempts-Ended :
      (attempts : ℕ) (delay : ℤ) (s₀ s : S) (w₀ w : World)
      → Steps s₀ w₀ s w
      → Ended s₀ w₀ (poll_attempts clock body attempts delay s w)
  poll_attempts-Ended zero delay s₀ s w₀ w steps = rw (poll_attempts-nil delay s w) steps
  poll_attempts-Ended (suc attempts) delay s₀ s w₀ w steps =
      rw (poll_attempts-suc attempts delay s w) (
        attempts_step-Ended attempts delay s₀ w₀ (poll clock body delay s w)
          (λ s' w' more. poll_attempts-Ended attempts delay s₀ s' w₀ w' more)
          (poll-Polls delay s₀ s w₀ w steps))

  -- A loop up to a deadline ended, on enough fuel.
  abbrev pub EndedIf : S → World → Option (Polled S R × World) → Type 0
  EndedIf s₀ w₀ none = Unit {0}
  EndedIf s₀ w₀ (some x) = Ended s₀ w₀ x

  poll_round-Polls :
      (interval deadline : ℕ) (s₀ s : S) (w₀ w : World)
      → Steps s₀ w₀ s w
      → Polls s₀ w₀ (poll_round clock body interval deadline s w)
  unfolding poll_round
  poll_round-Polls interval deadline s₀ s w₀ w steps =
      poll-Polls (min_duration interval (sub_ℕ deadline (clock.now w).0)) s₀ s w₀ ((clock.now w).1)
        (Steps.read s w steps)

  poll_until-nil :
      (interval deadline : ℕ) (s : S) (w : World)
      → poll_until clock body 0 interval deadline s w ≡ none
  unfolding poll_until
  poll_until-nil interval deadline s w = refl

  pub poll_until-Ended :
      (fuel interval deadline : ℕ) (s₀ s : S) (w₀ w : World)
      → Steps s₀ w₀ s w
      → EndedIf s₀ w₀ (poll_until clock body fuel interval deadline s w)
  poll_until-Ended zero interval deadline s₀ s w₀ w steps =
      rw (poll_until-nil interval deadline s w) tt
  poll_until-Ended (suc fuel) interval deadline s₀ s w₀ w steps =
      let read = Steps.read s w steps in
      let polls = poll_round-Polls interval deadline s₀ s w₀ ((clock.now w).1) read in
      elim (Bool-cases (ltb (clock.now w).0 deadline)) [
        | inr over ↦ rw (poll_until-over clock body fuel interval deadline s w over) read
        | inl early ↦
            elim (Round-cases clock body
              (poll_round clock body interval deadline s ((clock.now w).1))) [
                | inr (r, w', e) ↦
                    rw (poll_until-finish clock body fuel interval deadline s r w w' early e)
                      (subst (Polls s₀ w₀) e polls)
                | inl (s', w', e) ↦
                    rw (poll_until-again clock body fuel interval deadline s s' w w' early e) (
                      poll_until-Ended fuel interval deadline s₀ s' w₀ w'
                        (subst (Polls s₀ w₀) e polls))
              ]
      ]
