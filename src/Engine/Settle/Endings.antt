-- ===== src/Engine/Settle/Endings.antt =====
-- WaitForHierarchySettle of internal/engine/settle.go returns.
use flowbaton.Prelude.{
  ℕ, ◌+◌, ◌≤◌, ◌≡◌, refl, inl, inr, Bool-cases, Option, some, Option-cases, ◌==◌, arith,
}
use flowbaton.Prelude.Int.{ℤ, pos, negsuc}
use flowbaton.Engine.Polling.{Clock, Polled, maximum_settle_timeout, hierarchy_settle_poll_interval}
use flowbaton.Engine.Polling.Deadline.{Advances, Forwards, poll_until-ends}
use flowbaton.Engine.Settle.{
  SettleRequest, SettleDriver, SettleState, Settling, settle_fuel, explicit_settle_timeout, sample,
  initial_state, settle_option, settle_within, wait_for_hierarchy_settle,
}

explicit_settle_timeout-bounded :
    (millis : ℤ) → explicit_settle_timeout millis ≤ maximum_settle_timeout
unfolding explicit_settle_timeout
explicit_settle_timeout-bounded (negsuc n) = omega arith
explicit_settle_timeout-bounded (pos n) = ground arith

module _ {World Hierarchy : Type 0} (clock : Clock World) (driver : SettleDriver World Hierarchy)
    (time : World → ℕ) (request : SettleRequest Hierarchy) where
  -- An answer of the driver takes the clock no way back.
  abbrev pub DriverForwards : Type 0
  DriverForwards = (w : World) → time w ≤ time ((driver.wait_for_app_to_settle request w).1)

  sample-forwards :
      Advances clock time
      → DriverForwards
      → Forwards clock (sample clock driver request) time hierarchy_settle_poll_interval 0
  unfolding sample
  sample-forwards advances forwards state w =
      let on = forwards w in
      let checked = advances.checks_forwards ((driver.wait_for_app_to_settle request w).1) in
      ground arith

  abbrev pub Ends : Option (Settling Hierarchy × World) → Type 0
  Ends r = (x : Settling Hierarchy) × (w : World) × (r ≡ some (x, w))

  option-Ends :
      (polled : Option (Polled (SettleState Hierarchy) (Settling Hierarchy) × World))
      (p : Polled (SettleState Hierarchy) (Settling Hierarchy)) (w : World)
      → polled ≡ some (p, w)
      → Ends (settle_option clock driver polled)
  option-Ends polled p w e = rw e (_, _, refl)

  within-Ends :
      Advances clock time
      → DriverForwards
      → (timeout : ℕ) (w : World) → timeout ≤ maximum_settle_timeout
      → Ends (settle_within clock driver request timeout w)
  unfolding settle_within
  within-Ends advances forwards timeout w low = elim (Bool-cases (timeout == 0)) [
    | inl zero ↦ rw zero (_, _, refl)
    | inr some_time ↦
        let read = advances.reads w in
        let (p, w', same) =
          poll_until-ends clock (sample clock driver request) time hierarchy_settle_poll_interval
            ((clock.now w).0 + timeout) advances (sample-forwards advances forwards) (omega arith)
            settle_fuel (initial_state clock driver request) ((clock.now w).1)
            (omega (arith, read.1, low)) in
        rw some_time (option-Ends _ p w' same)
  ]

  -- Under a clock that advances and a driver that does not turn it back, the wait returns, whatever
  -- the driver answers and however long a timeout the request names: the fuel of 152 rounds, for
  -- the longest timeout at the interval of the polls, is never used up.
  pub wait_for_hierarchy_settle-Ends :
      Advances clock time
      → DriverForwards
      → (w : World) → Ends (wait_for_hierarchy_settle clock driver request w)
  unfolding wait_for_hierarchy_settle
  wait_for_hierarchy_settle-Ends advances forwards w =
      elim (Option-cases (clock.context_error w).0) [
        | inr (c, cancelled) ↦ rw (cancelled, wait_for_hierarchy_settle) (_, _, refl)
        | inl running ↦ elim (Option-cases request.timeout_millis) [
          | inl omitted ↦ rw (running, wait_for_hierarchy_settle, omitted) (_, _, refl)
          | inr (millis, given) ↦
              rw (running, wait_for_hierarchy_settle, given)
                (within-Ends advances forwards (explicit_settle_timeout millis)
                  ((clock.context_error w).1) (explicit_settle_timeout-bounded millis))
        ]
      ]
