-- ===== src/Engine/Settle/Confirmed.antt =====
-- What it takes for WaitForHierarchySettle of internal/engine/settle.go to return without an error.
use flowbaton.Prelude.{
  ℕ, ◌+◌, ◌≡◌, ◌∙◌, sym, subst, ap, refl, ◌⊎◌, inl, inr, true, false, Bool-cases, Option, none,
  some, Option-cases, ◌==◌, arith,
}
use flowbaton.Prelude.Int.{ℤ, pos}
use flowbaton.Engine.Polling.{
  Clock, Verdict, again, finish, Polled, finished, interrupted, timed_out, pause,
  hierarchy_settle_attempts, hierarchy_settle_poll_interval,
}
use flowbaton.Engine.Polling.Steps.{Steps, Ended, EndedIf, poll_attempts-Ended, poll_until-Ended}
use flowbaton.Engine.Settle.{
  SettleRequest, SettleDriver, SettleState, SettleFailure, not_settled_after_attempts,
  not_settled_before_timeout, Settling, settled, settle_fuel, explicit_settle_timeout, is_loading,
  samples_settled, observed, sample_verdict, sample, settling, looked_once, initial_state,
  settle_option, settle_within, wait_for_hierarchy_settle,
}

module _ {World Hierarchy : Type 0} (clock : Clock World) (driver : SettleDriver World Hierarchy)
    (request : SettleRequest Hierarchy) where
  -- What the driver answered last, nil included, or the request's initial hierarchy where it was not
  -- asked: from one world to another the clock is read, or behind a pause with no error the driver
  -- answers with no error and the context is not done.
  pub data Watched (w₀ : World) : Option Hierarchy → World → Type 0 where
    start : Watched w₀ request.initial_hierarchy w₀
    read : (p : Option Hierarchy) (w : World) → Watched w₀ p w → Watched w₀ p ((clock.now w).1)
    answered :
        (delay : ℤ) (p current : Option Hierarchy) (w w₁ w₂ w₃ : World)
        → Watched w₀ p w
        → pause clock delay w ≡ (none, w₁)
        → driver.wait_for_app_to_settle request w₁ ≡ ((current, none), w₂)
        → clock.context_error w₂ ≡ (none, w₃)
        → Watched w₀ current w₃

  -- The hierarchy is not nil and no longer loading, it is the driver's answer in a world that the
  -- polls behind the first check of the context have led to, and it equals the driver's answer just
  -- before, or the request's initial hierarchy where there is none.
  abbrev pub Confirmed : World → Option Hierarchy → Type 0
  Confirmed w r =
      (h : Hierarchy) × (p : Hierarchy) × (w₁ : World) × (w₂ : World) × (w₃ : World) × (r ≡ some h)
      × Watched ((clock.context_error w).1) (some p) w₁
      × ((w₁ ≡ w₂) ⊎ ((delay : ℤ) × (pause clock delay w₁ ≡ (none, w₂))))
      × (driver.wait_for_app_to_settle request w₂ ≡ ((some h, none), w₃))
      × (driver.deep_equal p h ≡ true)
      × (is_loading clock driver h ≡ false)

  paired : {A : Type 0} (p : A × World) (a : A) → p.0 ≡ a → p ≡ (a, p.1)
  paired p a e = λ i. (e i, p.1)

  answer : (a : (Option Hierarchy × Option ℕ) × World) → a.0.1 ≡ none → a ≡ ((a.0.0, none), a.1)
  answer a e = λ i. ((a.0.0, e i), a.1)

  -- Another round is asked for only by an answer, which the state then holds.
  sample-again :
      (state state' : SettleState Hierarchy) (w w' : World)
      → sample clock driver request state w ≡ (again state', w')
      → ((driver.wait_for_app_to_settle request w).0.1 ≡ none)
        × ((clock.context_error (driver.wait_for_app_to_settle request w).1).0 ≡ none)
        × ((clock.context_error (driver.wait_for_app_to_settle request w).1).1 ≡ w')
        × (state'.previous ≡ (driver.wait_for_app_to_settle request w).0.0)
  unfolding sample observed
  sample-again state state' w w' e = (ground arith, ground arith, ground arith, ground arith)

  Steps-Watched :
      (w₀ : World) (state : SettleState Hierarchy) (w : World)
      → Steps clock (sample clock driver request) (initial_state clock driver request) w₀ state w
      → Watched w₀ state.previous w
  Steps-Watched w₀ _ _ Steps.here = Watched.start
  Steps-Watched w₀ _ _ (Steps.read s w steps) =
      Watched.read s.previous w (Steps-Watched w₀ s w steps)
  Steps-Watched w₀ _ _ (Steps.look delay s s' w w₁ w₂ steps quiet e) =
      let (told, running, here, kept) = sample-again s s' w₁ w₂ e in
      let a = driver.wait_for_app_to_settle request w₁ in
      subst (λ p. Watched w₀ p w₂) (sym kept)
        (Watched.answered delay s.previous a.0.0 w w₁ a.1 w₂ (Steps-Watched w₀ s w steps) quiet
          (answer a told)
          (paired (clock.context_error a.1) none running ∙ ap (λ v. (none, v)) here))

  samples_settled-true :
      (previous current : Option Hierarchy)
      → samples_settled clock driver previous current ≡ true
      → (p : Hierarchy) × (h : Hierarchy) × (previous ≡ some p)
        × (current ≡ some h)
        × (driver.deep_equal p h ≡ true)
        × (is_loading clock driver h ≡ false)
  unfolding samples_settled
  samples_settled-true none current e = cc
  samples_settled-true (some p) none e = cc
  samples_settled-true (some p) (some h) e = (p, h, refl, refl, ground arith, ground arith)

  sample_verdict-settled :
      (state : SettleState Hierarchy) (current r : Option Hierarchy)
      → sample_verdict clock driver state current ≡ finish (settled r)
      → (samples_settled clock driver state.previous current ≡ true)
        × (r ≡ (observed clock driver state current).latest)
  sample_verdict-settled state current r e = (ground arith, ground arith)

  sample-settled :
      (state : SettleState Hierarchy) (w w' : World) (r : Option Hierarchy)
      → sample clock driver request state w ≡ (finish (settled r), w')
      → ((driver.wait_for_app_to_settle request w).0.1 ≡ none)
        × (sample_verdict clock driver state (driver.wait_for_app_to_settle request w).0.0
            ≡ finish (settled r))
  unfolding sample
  sample-settled state w w' r e = (ground arith, ground arith)

  sample-Confirmed :
      (state : SettleState Hierarchy) (w₀ w₁ w₂ w' : World) (r : Option Hierarchy)
      → Steps clock
          (sample clock driver request)
          (initial_state clock driver request)
          ((clock.context_error w₀).1)
          state
          w₁
      → (w₁ ≡ w₂) ⊎ ((delay : ℤ) × (pause clock delay w₁ ≡ (none, w₂)))
      → sample clock driver request state w₂ ≡ (finish (settled r), w')
      → Confirmed w₀ r
  unfolding observed
  sample-Confirmed state w₀ w₁ w₂ w' r steps pause e =
      let (quiet, verdict) = sample-settled state w₂ w' r e in
      let (same, latest) = sample_verdict-settled state _ r verdict in
      let (p, h, previous, current, equal, loaded) = samples_settled-true _ _ same in
      (
        h,
        p,
        w₁,
        w₂,
        _,
        cc,
        subst (λ q. Watched ((clock.context_error w₀).1) q w₁) previous
            (Steps-Watched ((clock.context_error w₀).1) state w₁ steps),
        pause,
        answer (driver.wait_for_app_to_settle request w₂) quiet
            ∙ ap
                (λ (a : Option Hierarchy).
                  ((a, none), (driver.wait_for_app_to_settle request w₂).1))
                current,
        equal,
        loaded,
      )

  -- A loop that ends without an error has confirmed its last sample.
  settling-Confirmed :
      (failure : SettleFailure) (w₀ w' : World) (r : Option Hierarchy)
      (polled : Polled (SettleState Hierarchy) (Settling Hierarchy))
      → Ended clock
          (sample clock driver request)
          (initial_state clock driver request)
          ((clock.context_error w₀).1)
          (polled, w')
      → settling clock driver failure polled ≡ settled r
      → Confirmed w₀ r
  settling-Confirmed failure w₀ w' r (finished x) (state, w, w₁, delay, steps, quiet, e) same =
      sample-Confirmed state w₀ w w₁ w' r steps (inr (delay, quiet))
        (e ∙ ap (λ s. (finish s, w')) same)
  settling-Confirmed failure w₀ w' r (interrupted state x) ended same = cc
  settling-Confirmed failure w₀ w' r (timed_out state) ended same = cc

  option-Confirmed :
      (w₀ w' : World) (r : Option Hierarchy)
      (polled : Option (Polled (SettleState Hierarchy) (Settling Hierarchy) × World))
      → EndedIf clock
          (sample clock driver request)
          (initial_state clock driver request)
          ((clock.context_error w₀).1)
          polled
      → settle_option clock driver polled ≡ some (settled r, w')
      → Confirmed w₀ r
  option-Confirmed w₀ w' r none ended e = cc
  option-Confirmed w₀ w' r (some (polled, w)) ended e =
      settling-Confirmed not_settled_before_timeout w₀ w r polled ended (some_settled _ _ _ _ e)
    where
      some_settled :
          (a b : Settling Hierarchy) (v v' : World)
          → ◌≡◌ {A = Option (Settling Hierarchy × World)} (some (a, v)) (some (b, v'))
          → a ≡ b
      some_settled a b v v' h = cc

  looked_once-settled :
      (x : Verdict (SettleState Hierarchy) (Settling Hierarchy)) (r : Option Hierarchy)
      → looked_once clock driver x ≡ settled r
      → x ≡ finish (settled r)
  looked_once-settled (finish x) r e = ap finish e
  looked_once-settled (again state) r e = cc

  within-Confirmed :
      (timeout : ℕ) (w w' : World) (r : Option Hierarchy)
      → settle_within clock driver request timeout ((clock.context_error w).1)
        ≡ some (settled r, w')
      → Confirmed w r
  unfolding settle_within
  within-Confirmed timeout w w' r e = elim (Bool-cases (timeout == 0)) [
    | inl zero ↦
        let w₁ = (clock.context_error w).1 in
        let x = sample clock driver request (initial_state clock driver request) w₁ in
        let same : looked_once clock driver (x.0) ≡ settled r = ground arith in
        sample-Confirmed (initial_state clock driver request) w w₁ w₁ (x.1) r Steps.here (inl refl)
          (ap (λ y. (y, x.1)) (looked_once-settled (x.0) r same))
    | inr some_time ↦
        let w₁ = (clock.context_error w).1 in
        option-Confirmed w w' r _
          (poll_until-Ended clock (sample clock driver request) settle_fuel
            hierarchy_settle_poll_interval ((clock.now w₁).0 + timeout)
            (initial_state clock driver request) (initial_state clock driver request) w₁
            ((clock.now w₁).1) (Steps.read _ w₁ Steps.here))
          (rw some_time at e)
  ]

  -- When the wait returns without an error, in any of its three modes, the hierarchy is the driver's
  -- last answer, no longer loading, and equals the driver's answer just before it, which was not nil
  -- either, or the request's initial hierarchy where the driver answered once.
  pub settled-Confirmed :
      (w w' : World) (r : Option Hierarchy)
      → wait_for_hierarchy_settle clock driver request w ≡ some (settled r, w')
      → Confirmed w r
  unfolding wait_for_hierarchy_settle
  settled-Confirmed w w' r e = elim (Option-cases (clock.context_error w).0) [
    | inr (c, cancelled) ↦ ground arith
    | inl running ↦ elim (Option-cases request.timeout_millis) [
      | inl omitted ↦
          let w₁ = (clock.context_error w).1 in
          settling-Confirmed not_settled_after_attempts w _ r _
            (poll_attempts-Ended clock (sample clock driver request) hierarchy_settle_attempts
              (pos hierarchy_settle_poll_interval) _ (initial_state clock driver request) w₁ w₁
              Steps.here)
            (ground arith)
      | inr (millis, given) ↦
          within-Confirmed (explicit_settle_timeout millis) w w' r (ground arith)
    ]
  ]
