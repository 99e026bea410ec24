-- ===== src/Engine/Stability/Examples.antt =====
-- An element that internal/engine/stability.go sees come to rest.
use flowbaton.Prelude.{ℕ, ◌+◌, ◌≤◌, ◌≡◌, refl, [], ◌∷◌, true, none, some, ltb, if◌then◌else◌, arith}
use flowbaton.Prelude.Int.{ℤ, pos, negsuc}
use flowbaton.Hierarchy.{element, no_elements}
use flowbaton.Hierarchy.Rectangle.{Bounds}
use flowbaton.Matching.{refresh, attributes_equal_ignoring_bounds}
use flowbaton.Matching.Filters.{Node, Tree, lookup}
use flowbaton.Matching.Relatives.{walk, filter}
use flowbaton.Engine.Polling.{
  element_stability_timeout, Clock, min_duration, pause, poll, poll_round, poll_until,
}
use flowbaton.Engine.Polling.Deadline.{Advances}
use flowbaton.Engine.Stability.{
  Visible, visible, Stability, stable, same_bounds, measure, measure_until,
  wait_for_element_stability,
}
use flowbaton.Engine.Stability.Measured.{Measured, measure_until-Measured}

abbrev passed : ℤ → ℕ → ℕ
passed (pos d) w = w + d
passed (negsuc d) w = w

-- The world is the instant.
abbrev wall_clock : Clock ℕ
wall_clock = record {
  now = λ w. (w, w);
  wait = λ d w. (none, passed d w);
  context_error = λ w. (none, w);
}

abbrev node : Node
node = record {
  attributes = (b'i' ∷ b'd' ∷ [], b'x' ∷ []) ∷ [];
  clickable = none;
  enabled = none;
  focused = none;
  checked = none;
  selected = none;
}

abbrev at : ℕ → Bounds
at y = record { x = pos 0; y = pos y; width = pos 10; height = pos 10 }

abbrev placed : ℕ → Tree
placed y =
    element (record { node = node; bounds = some (at y); order = 0; on_screen = true }) no_elements

-- The element moves until 150 ms.
abbrev moving : ℕ → Visible × ℕ
moving w = (visible (placed (if ltb w 150_000_000 then 5 else 9)), w)

comes_to_rest :
    wait_for_element_stability wall_clock moving (some (placed 1)) 0
    ≡ some (stable (placed 9) (at 9), 300_000_000)
unfolding wait_for_element_stability measure_until poll_until poll_round poll pause min_duration
    measure refresh walk filter attributes_equal_ignoring_bounds lookup same_bounds
comes_to_rest = refl

passes : (d : ℤ) (w : ℕ) → w ≤ passed d w
passes (pos d) w = omega arith
passes (negsuc d) w = omega arith

wall_clock-Advances : Advances wall_clock (λ w. w)
wall_clock-Advances = record {
  reads = λ w. (omega arith, omega arith);
  waits = λ d w e. omega arith;
  waits_forwards = passes;
  checks_forwards = λ w. omega arith;
}

measure_until-Measured_example :
    (r : Stability × ℕ) × (measure_until wall_clock moving (placed 1) 0 ≡ some r)
    × Measured wall_clock moving (0 + element_stability_timeout) (placed 1) 0 r
measure_until-Measured_example =
    measure_until-Measured wall_clock moving (λ w. w) wall_clock-Advances (λ w. omega arith)
      (placed 1) 0 (at 1, refl)
