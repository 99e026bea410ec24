-- ===== src/Engine/Stability/Measured.antt =====
-- What WaitForElementStability of internal/engine/stability.go returns, and that it returns.
use flowbaton.Prelude.{ℕ, ◌+◌, ◌≤◌, ◌≡◌, refl, true, false, Option, none, some, arith}
use flowbaton.Prelude.Int.{ℤ}
use flowbaton.Hierarchy.Rectangle.{Bounds}
use flowbaton.Matching.{Refreshed, refreshed, found_others, refresh}
use flowbaton.Matching.Filters.{Tree}
use flowbaton.Engine.Polling.{
  element_stability_poll_interval, element_stability_timeout, Clock, finish, Polled, finished,
  interrupted, timed_out, pause,
}
use flowbaton.Engine.Polling.Deadline.{Advances, Forwards, poll_until-ends}
use flowbaton.Engine.Polling.Steps.{Steps, Ended, EndedIf, poll_until-Ended}
use flowbaton.Engine.Stability.{
  Visible, visible, invisible, Stability, stable, unstable, raised, without_bounds, element_bounds,
  stability_fuel, compare_bounds, refreshed_verdict, seen_verdict, measure, stability,
  stability_option, measure_until,
}
use flowbaton.Engine.Stability.Looks.{
  HasBounds, Unmoved, measure-stable, Steps-HasBounds, not_without_bounds, unstable_seen,
}

module _ {World : Type 0} (clock : Clock World) (visible_hierarchy : World → Visible × World) where
  -- What a return of the loop says, for a deadline.
  abbrev pub Measured : ℕ → Tree → World → Stability × World → Type 0
  Measured deadline previous w₀ (stable e b, w') =
      (last : Tree) × (w : World) × (w₁ : World) × (delay : ℤ) × Steps clock
        (measure clock visible_hierarchy deadline) previous w₀ last w
      × (pause clock delay w ≡ (none, w₁))
      × Unmoved clock visible_hierarchy deadline last w₁ e b
  Measured deadline previous w₀ (unstable e, w') =
      Steps clock (measure clock visible_hierarchy deadline) previous w₀ e w' × HasBounds e
  Measured deadline previous w₀ (raised e, w') = Unit {0}
  Measured deadline previous w₀ (without_bounds, w') = false ≡ true

  loop_result :
      (deadline : ℕ) (previous : Tree) (w₀ : World) (r : Stability) (last : Tree) (w w₁ w' : World)
      (delay : ℤ)
      → Steps clock (measure clock visible_hierarchy deadline) previous w₀ last w
      → pause clock delay w ≡ (none, w₁)
      → measure clock visible_hierarchy deadline last w₁ ≡ (finish r, w')
      → Measured deadline previous w₀ (r, w')
  unfolding measure
  loop_result deadline previous w₀ (stable e b) last w w₁ w' delay steps quiet h = (
    last,
    w,
    w₁,
    delay,
    steps,
    quiet,
    unfold measure in measure-stable clock visible_hierarchy deadline last e b w₁ w' h,
  )
  loop_result deadline previous w₀ (unstable e) last w w₁ w' delay steps quiet h = absurd (
      unstable_seen clock visible_hierarchy deadline last e ((visible_hierarchy w₁).0)
        ((visible_hierarchy w₁).1) w' h)
  loop_result deadline previous w₀ (raised e) last w w₁ w' delay steps quiet h = tt
  loop_result deadline previous w₀ without_bounds last w w₁ w' delay steps quiet h = absurd (
      not_without_bounds clock visible_hierarchy deadline last ((visible_hierarchy w₁).0)
        ((visible_hierarchy w₁).1) w' h)

  Ended-Measured :
      (deadline : ℕ) (previous : Tree) (w₀ w' : World) (p : Polled Tree Stability)
      → HasBounds previous
      → Ended clock (measure clock visible_hierarchy deadline) previous w₀ (p, w')
      → Measured deadline previous w₀ (stability clock visible_hierarchy p, w')
  Ended-Measured deadline previous w₀ w' (finished r) bounded
        (last, w, w₁, delay, steps, quiet, h) =
      loop_result deadline previous w₀ r last w w₁ w' delay steps quiet h
  Ended-Measured deadline previous w₀ w' (interrupted last e) bounded ended = tt
  Ended-Measured deadline previous w₀ w' (timed_out last) bounded steps =
      (steps, Steps-HasBounds clock visible_hierarchy deadline previous w₀ last w' bounded steps)

module _ {World : Type 0} (clock : Clock World) (visible_hierarchy : World → Visible × World)
    (time : World → ℕ) where
  -- No look takes the clock back.
  abbrev pub LooksForwards : Type 0
  LooksForwards = (w : World) → time w ≤ time ((visible_hierarchy w).1)

  compare_bounds-forwards :
      Advances clock time
      → (deadline : ℕ) (last found : Tree) (x : Option Bounds) (w : World)
      → time w ≤ time ((compare_bounds clock visible_hierarchy deadline last found x w).1)
  compare_bounds-forwards advances deadline last found none w = omega arith
  compare_bounds-forwards advances deadline last found (some b) w =
      let read = advances.reads w in omega (arith, read)

  seen_verdict-forwards :
      Advances clock time
      → (deadline : ℕ) (last : Tree) (x : Visible) (w : World)
      → time w ≤ time ((seen_verdict clock visible_hierarchy deadline last x w).1)
  seen_verdict-forwards advances deadline last (invisible e) w = omega arith
  seen_verdict-forwards advances deadline last (visible root) w =
      by_refresh (refresh root (some last))
    where
      by_refresh :
          (x : Refreshed)
          → time w ≤ time ((refreshed_verdict clock visible_hierarchy deadline last x w).1)
      by_refresh (found_others n) = omega arith
      by_refresh (refreshed found) =
          compare_bounds-forwards advances deadline last found (element_bounds found) w

  measure-Forwards :
      Advances clock time
      → LooksForwards
      → (deadline : ℕ)
      → Forwards clock
          (measure clock visible_hierarchy deadline)
          time
          element_stability_poll_interval
          0
  unfolding measure
  measure-Forwards advances forwards deadline last w =
      let on = forwards w in
      let judged =
        seen_verdict-forwards advances deadline last ((visible_hierarchy w).0)
          ((visible_hierarchy w).1) in
      omega (arith, on, judged)

  option-Measured :
      (deadline : ℕ) (previous : Tree) (w₀ w' : World)
      (polled : Option (Polled Tree Stability × World)) (p : Polled Tree Stability)
      → HasBounds previous
      → polled ≡ some (p, w')
      → EndedIf clock (measure clock visible_hierarchy deadline) previous w₀ polled
      → (r : Stability × World) × (stability_option clock visible_hierarchy polled ≡ some r)
        × Measured clock visible_hierarchy deadline previous w₀ r
  option-Measured deadline previous w₀ w' none p bounded e ended = cc
  option-Measured deadline previous w₀ w' (some (q, v)) p bounded e ended =
      (_, refl, Ended-Measured clock visible_hierarchy deadline previous w₀ v q bounded ended)

  -- Under a clock that advances and looks that do not turn it back, the measurement of an element
  -- with bounds returns within 32 rounds. An element is stable only when a poll in front of the
  -- deadline, three seconds behind the start, found it as the only one with the attributes of the
  -- element that it kept, with the bounds of that one; where the time is over, the element that is
  -- kept still has bounds.
  pub measure_until-Measured :
      Advances clock time
      → LooksForwards
      → (previous : Tree) (w : World) → HasBounds previous
      → (r : Stability × World) × (measure_until clock visible_hierarchy previous w ≡ some r)
        × Measured clock visible_hierarchy
            ((clock.now w).0 + element_stability_timeout)
            previous
            ((clock.now w).1)
            r
  unfolding measure_until
  measure_until-Measured advances forwards previous w bounded =
      let deadline = (clock.now w).0 + element_stability_timeout in
      let w₁ = (clock.now w).1 in
      let read = advances.reads w in
      let (p, w', same) =
        poll_until-ends clock (measure clock visible_hierarchy deadline) time
          element_stability_poll_interval deadline advances
          (measure-Forwards advances forwards deadline) (omega arith) stability_fuel previous w₁
          (omega (arith, read.1)) in
      option-Measured deadline previous w₁ w' _ p bounded same (
        poll_until-Ended clock (measure clock visible_hierarchy deadline) stability_fuel
          element_stability_poll_interval deadline previous previous w₁ w₁ Steps.here)
