-- ===== src/Engine/Polling/Deadline.antt =====
-- The polling loops of internal/engine/settle.go and internal/engine/stability.go under a clock that
-- moves: they end.
use flowbaton.Prelude.{
  ℕ, zero, suc, ◌+◌, ◌-◌, ◌*◌, ◌<◌, ◌≤◌, ◌≡◌, ◌⊎◌, leb→le, ltb→lt, subst, ◌∙◌, refl, inl, inr, true,
  false, Bool-cases, Option, none, some, leb, ltb, arith,
}
use flowbaton.Prelude.Int.{ℤ, pos, sub_ℕ}
use flowbaton.Engine.Polling.{
  Clock, min_duration, Verdict, again, finish, Polled, first_error, finished, timed_out, pause,
  poll, poll_round, poll_until,
}

-- A clock that answers with the instant at which it is asked, that does not run backwards, and that
-- has passed the delay when a wait reports no error.
pub record Advances {World : Type 0} (clock : Clock World) (time : World → ℕ) : Type 0 where
  pub reads : (w : World) → (time w ≤ (clock.now w).0) × ((clock.now w).0 ≤ time ((clock.now w).1))
  pub waits :
      (d : ℕ) (w : World)
      → (clock.wait (pos d) w).0 ≡ none
      → time w + d ≤ time ((clock.wait (pos d) w).1)
  pub waits_forwards : (d : ℤ) (w : World) → time w ≤ time ((clock.wait d w).1)
  pub checks_forwards : (w : World) → time w ≤ time ((clock.context_error w).1)

first_error-none : (a b : Option ℕ) → first_error a b ≡ none → b ≡ none
first_error-none none b e = e
first_error-none (some a) b e = cc

-- A rest with no error has taken the clock over its delay.
pub record Rests {World : Type 0} (time : World → ℕ) (rest : ℤ → World → Option ℕ × World)
    : Type 0 where
  pub waits :
      (d : ℕ) (w : World) → (rest (pos d) w).0 ≡ none → time w + d ≤ time ((rest (pos d) w).1)
  pub forwards : (d : ℤ) (w : World) → time w ≤ time ((rest d w).1)

module _ {World : Type 0} (clock : Clock World) (time : World → ℕ) where
  pause-waits :
      Advances clock time
      → (d : ℕ) (w : World) → (pause clock (pos d) w).0 ≡ none
      → time w + d ≤ time ((pause clock (pos d) w).1)
  unfolding pause
  pause-waits advances d w e = omega (
    arith,
    advances.waits d w (first_error-none _ _ e),
    advances.checks_forwards ((clock.wait (pos d) w).1),
  )

  pause-forwards : Advances clock time → (d : ℤ) (w : World) → time w ≤ time ((pause clock d w).1)
  unfolding pause
  pause-forwards advances d w =
      omega (arith, advances.waits_forwards d w, advances.checks_forwards ((clock.wait d w).1))

  pub pause-Rests : Advances clock time → Rests time (pause clock)
  pause-Rests advances = record { waits = pause-waits advances; forwards = pause-forwards advances }

  pub wait-Rests : Advances clock time → Rests time clock.wait
  wait-Rests advances = record { waits = advances.waits; forwards = advances.waits_forwards }

module _ {World : Type 0} (time : World → ℕ) (rest : ℤ → World → Option ℕ × World) where
  -- A wait for what is left, but at most for an interval, takes the clock over the interval or to
  -- the deadline.
  pub rest-reaches :
      Rests time rest
      → (interval deadline now : ℕ) (w : World) → now ≤ time w
      → (rest (min_duration interval (sub_ℕ deadline now)) w).0 ≡ none
      → (deadline ≤ time ((rest (min_duration interval (sub_ℕ deadline now)) w).1))
        ⊎ (now + interval ≤ time ((rest (min_duration interval (sub_ℕ deadline now)) w).1))
  unfolding min_duration
  rest-reaches rests interval deadline now w reached e = elim (Bool-cases (leb now deadline)) [
    | inr late ↦
        let forwards = rests.forwards (min_duration interval (sub_ℕ deadline now)) w in
        inl (omega (arith, forwards, late_lem late))
    | inl early ↦ elim (Bool-cases (ltb interval (deadline - now))) [
      | inl far ↦ inr (rw (early, far) (far_lem (rw (early, far) at e)))
      | inr near ↦ inl (rw (early, near) (near_lem early (rw (early, near) at e)))
    ]
  ]
    where
      late_lem : leb now deadline ≡ false → deadline < now
      late_lem h = ground arith

      far_lem : (rest (pos interval) w).0 ≡ none → now + interval ≤ time ((rest (pos interval) w).1)
      far_lem h = omega (arith, rests.waits interval w h)

      near_lem :
          leb now deadline ≡ true
          → (rest (pos (deadline - now)) w).0 ≡ none
          → deadline ≤ time ((rest (pos (deadline - now)) w).1)
      near_lem early h = omega (arith, rests.waits (deadline - now) w h, leb→le now deadline early)

module _ {World S R : Type 0} (clock : Clock World) (body : S → World → Verdict S R × World) where
  pub poll-again :
      (delay : ℤ) (s s' : S) (w w' : World)
      → poll clock body delay s w ≡ (again s', w')
      → ((pause clock delay w).0 ≡ none) × (body s ((pause clock delay w).1) ≡ (again s', w'))
  unfolding poll
  poll-again delay s s' w w' e = ground arith

  pub poll-finish :
      (delay : ℤ) (s : S) (r : R) (w w' : World)
      → poll clock body delay s w ≡ (finish (finished r), w')
      → ((pause clock delay w).0 ≡ none) × (body s ((pause clock delay w).1) ≡ (finish r, w'))
  unfolding poll
  poll-finish delay s r w w' e = ground arith

  -- A round leads to another state, or ends the loop.
  pub Round-cases :
      (x : Verdict S (Polled S R) × World)
      → ((s : S) × (w : World) × (x ≡ (again s, w)))
        ⊎ ((r : Polled S R) × (w : World) × (x ≡ (finish r, w)))
  Round-cases (again s, w) = inl (s, w, refl)
  Round-cases (finish r, w) = inr (r, w, refl)

  pub poll_until-over :
      (fuel interval deadline : ℕ) (s : S) (w : World)
      → ltb (clock.now w).0 deadline ≡ false
      → poll_until clock body (suc fuel) interval deadline s w ≡ some (timed_out s, (clock.now w).1)
  unfolding poll_until
  poll_until-over fuel interval deadline s w e = ground arith

  pub poll_until-finish :
      (fuel interval deadline : ℕ) (s : S) (r : Polled S R) (w w' : World)
      → ltb (clock.now w).0 deadline ≡ true
      → poll_round clock body interval deadline s ((clock.now w).1) ≡ (finish r, w')
      → poll_until clock body (suc fuel) interval deadline s w ≡ some (r, w')
  unfolding poll_until
  poll_until-finish fuel interval deadline s r w w' e f = ground arith

  pub poll_until-again :
      (fuel interval deadline : ℕ) (s s' : S) (w w' : World)
      → ltb (clock.now w).0 deadline ≡ true
      → poll_round clock body interval deadline s ((clock.now w).1) ≡ (again s', w')
      → poll_until clock body (suc fuel) interval deadline s w
        ≡ poll_until clock body fuel interval deadline s' w'
  unfolding poll_until
  poll_until-again fuel interval deadline s s' w w' e f = ground arith

module _ {World : Type 0} (time : World → ℕ) (interval deadline : ℕ) where
  -- Fuel for the intervals that are left, and for one round more.
  abbrev pub Enough : ℕ → World → Type 0
  Enough fuel w = interval + (deadline - time w) ≤ fuel * interval

  pub Enough-again :
      (fuel : ℕ) (w w₁ w' : World)
      → 0 < interval
      → time w < deadline
      → time w ≤ time w₁
      → (deadline ≤ time w') ⊎ (time w₁ + interval ≤ time w')
      → Enough (suc fuel) w
      → Enough fuel w'
  Enough-again zero w w₁ w' some_interval early on reached enough = absurd (omega arith)
  Enough-again (suc fuel) w w₁ w' some_interval early on (inl end) enough = omega arith
  Enough-again (suc fuel) w w₁ w' some_interval early on (inr far) enough = omega arith

module _ {World S R : Type 0} (clock : Clock World) (body : S → World → Verdict S R × World)
    (time : World → ℕ) (interval deadline : ℕ) where
  -- The body takes the clock no way back.
  abbrev pub Forwards : Type 0
  Forwards = (s : S) (w : World) → time w ≤ time ((body s w).1)

  poll_round-reaches :
      Advances clock time
      → Forwards
      → (s s' : S) (w w' : World) → poll_round clock body interval deadline s w ≡ (again s', w')
      → (deadline ≤ time w') ⊎ (time w + interval ≤ time w')
  unfolding poll_round
  poll_round-reaches advances forwards s s' w w' e =
      let read = advances.reads w in
      let delay = min_duration interval (sub_ℕ deadline (clock.now w).0) in
      let (quiet, went) = poll-again clock body delay s s' ((clock.now w).1) w' e in
      let w₂ = (pause clock delay ((clock.now w).1)).1 in
      let on : time w₂ ≤ time w' =
        subst (λ (x : Verdict S R × World). time w₂ ≤ time (x.1)) went (forwards s w₂) in
      elim (rest-reaches time (pause clock) (pause-Rests clock time advances) interval deadline
        (clock.now w).0 ((clock.now w).1) (read.1) quiet) [
          | inl end ↦ inl (omega (arith, on, end))
          | inr far ↦ inr (omega (arith, on, far, read.0))
        ]

  -- With enough fuel, the loop up to the deadline ends.
  pub poll_until-ends :
      Advances clock time
      → Forwards
      → 0 < interval
      → (fuel : ℕ) (s : S) (w : World) → Enough time interval deadline fuel w
      → (r : Polled S R) × (w' : World) × (poll_until clock body fuel interval deadline s w
          ≡ some (r, w'))
  poll_until-ends advances forwards some_interval zero s w enough = absurd (omega arith)
  poll_until-ends advances forwards some_interval (suc fuel) s w enough =
      elim (Bool-cases (ltb (clock.now w).0 deadline)) [
        | inr over ↦ (_, _, poll_until-over clock body fuel interval deadline s w over)
        | inl early ↦
            elim (Round-cases clock body
              (poll_round clock body interval deadline s ((clock.now w).1))) [
                | inr (r, w', e) ↦
                    (r, w', poll_until-finish clock body fuel interval deadline s r w w' early e)
                | inl (s', w', e) ↦
                    let read = advances.reads w in
                    let reached =
                      poll_round-reaches advances forwards s s' ((clock.now w).1) w' e in
                    let enough' =
                      Enough-again time interval deadline fuel w ((clock.now w).1) w' some_interval
                        (omega (arith, read.0, ltb→lt (clock.now w).0 deadline early))
                        (omega (arith, read)) reached enough in
                    let (r, w₂, same) =
                      poll_until-ends advances forwards some_interval fuel s' w' enough' in
                    (
                      r,
                      w₂,
                      poll_until-again clock body fuel interval deadline s s' w w' early e ∙ same,
                    )
              ]
      ]
