-- ===== src/Engine/Stability.antt =====
-- WaitForElementStability of internal/engine/stability.go: polls up to a deadline, each of which
-- refreshes the element in the visible hierarchy, which is an operation of the driver.
mod Looks
mod Measured
mod Examples
use flowbaton.Prelude.{
  ℕ, ◌+◌, Bool, true, false, not, ◌&&◌, ◌||◌, Option, none, some, ltb, if◌then◌else◌,
}
use flowbaton.Prelude.Int.{ℤ, ltb_ℤ}
use flowbaton.Hierarchy.{attributes}
use flowbaton.Hierarchy.Rectangle.{Bounds}
use flowbaton.Matching.{Refreshed, refreshed, found_others, refresh}
use flowbaton.Matching.Filters.{Tree}
use flowbaton.Engine.Polling.{
  element_stability_poll_interval, element_stability_timeout, Clock, Verdict, again, finish, Polled,
  finished, interrupted, timed_out, poll_until,
}

-- `visibleHierarchy`: a tree, or an error.
pub data Visible : Type 0 where
  visible : Tree → Visible
  invisible : ℕ → Visible

-- `ElementStabilityResult`, or an error: one that a call returned, or the ConfigurationError for an
-- element with no bounds.
pub data Stability : Type 0 where
  stable : Tree → Bounds → Stability
  unstable : Tree → Stability
  raised : ℕ → Stability
  without_bounds : Stability

abbrev pub element_bounds : Tree → Option Bounds
element_bounds e = (attributes e).bounds

abbrev same_number : ℤ → ℤ → Bool
same_number a b = not (ltb_ℤ a b || ltb_ℤ b a)

unfoldable pub same_bounds : Bounds → Option Bounds → Bool
same_bounds a none = false
same_bounds a (some b) =
    (same_number a.x b.x && same_number a.y b.y)
    && (same_number a.width b.width && same_number a.height b.height)

-- Fuel for the timeout at the interval of the polls, and for two rounds more.
abbrev pub stability_fuel : ℕ
stability_fuel = 32

module _ {World : Type 0} (clock : Clock World) (visible_hierarchy : World → Visible × World) where
  -- An element found again, with its bounds: stable in front of the deadline on equal bounds.
  abbrev pub compare_bounds :
      ℕ → Tree → Tree → Option Bounds → World → Verdict Tree Stability × World
  compare_bounds deadline last found none w = (again last, w)
  compare_bounds deadline last found (some b) w =
      let (now, w₁) = clock.now w in
      (
        if ltb now deadline && same_bounds b (element_bounds last)
            then finish (stable found b)
            else again found,
        w₁,
      )

  abbrev pub refreshed_verdict : ℕ → Tree → Refreshed → World → Verdict Tree Stability × World
  refreshed_verdict deadline last (found_others n) w = (again last, w)
  refreshed_verdict deadline last (refreshed found) w =
      compare_bounds deadline last found (element_bounds found) w

  abbrev pub seen_verdict : ℕ → Tree → Visible → World → Verdict Tree Stability × World
  seen_verdict deadline last (invisible e) w = (finish (raised e), w)
  seen_verdict deadline last (visible root) w =
      refreshed_verdict deadline last (refresh root (some last)) w

  -- The body of the loop behind its wait.
  unfoldable pub measure : ℕ → Tree → World → Verdict Tree Stability × World
  unfolding same_bounds refresh
  measure deadline last w =
      let (seen, w₁) = visible_hierarchy w in seen_verdict deadline last seen w₁

  abbrev pub stability : Polled Tree Stability → Stability
  stability (finished r) = r
  stability (interrupted last e) = raised e
  stability (timed_out last) = unstable last

  abbrev pub stability_option : Option (Polled Tree Stability × World) → Option (Stability × World)
  stability_option none = none
  stability_option (some (p, w)) = some (stability p, w)

  -- The loop, from an element with bounds.
  unfoldable pub measure_until : Tree → World → Option (Stability × World)
  unfolding measure poll_until
  measure_until previous w =
      let (now, w₁) = clock.now w in
      let deadline = now + element_stability_timeout in
      stability_option (
        poll_until clock (measure deadline) stability_fuel element_stability_poll_interval deadline
          previous w₁)

  abbrev pub with_bounds :
      Tree → Option Bounds → World → Option (Stability × World) → Option (Stability × World)
  with_bounds previous none w r = some (without_bounds, w)
  with_bounds previous (some b) w r = r

  abbrev pub with_element : Option Tree → World → Option (Stability × World)
  with_element none w = some (without_bounds, w)
  with_element (some previous) w =
      with_bounds previous (element_bounds previous) w (measure_until previous w)

  -- `WaitForElementStability`; `none` would be the end of the fuel.
  unfoldable pub wait_for_element_stability : Option Tree → World → Option (Stability × World)
  unfolding measure_until
  wait_for_element_stability previous w =
      let (cancelled, w₁) = clock.context_error w in
      elim cancelled [ some c ↦ some (raised c, w₁) | none ↦ with_element previous w₁ ]
