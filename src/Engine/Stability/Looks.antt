-- ===== src/Engine/Stability/Looks.antt =====
-- One look of WaitForElementStability of internal/engine/stability.go, and what it keeps.
use flowbaton.Prelude.{ℕ, ◌<◌, ◌≡◌, ◌≢◌, ◌∙◌, refl, ap, sym, subst, true, Option, none, some, arith}
use flowbaton.Hierarchy.Rectangle.{Bounds}
use flowbaton.Matching.{Refreshed, refreshed, found_others, refresh}
use flowbaton.Matching.Filters.{Tree}
use flowbaton.Engine.Polling.{Clock, again, finish}
use flowbaton.Engine.Polling.Steps.{Steps}
use flowbaton.Engine.Stability.{
  Visible, visible, invisible, stable, unstable, without_bounds, element_bounds, same_bounds,
  compare_bounds, refreshed_verdict, seen_verdict, measure,
}

abbrev pub HasBounds : Tree → Type 0
HasBounds e = (b : Bounds) × (element_bounds e ≡ some b)

module _ {World : Type 0} (clock : Clock World) (visible_hierarchy : World → Visible × World) where
  -- One look: the element is the only one in the visible tree with the attributes of the last, and
  -- has its bounds, in front of the deadline.
  abbrev pub Unmoved : ℕ → Tree → World → Tree → Bounds → Type 0
  Unmoved deadline last w e b =
      (root : Tree) × (w₁ : World) × (visible_hierarchy w ≡ (visible root, w₁))
      × (refresh root (some last) ≡ refreshed e)
      × (element_bounds e ≡ some b)
      × (same_bounds b (element_bounds last) ≡ true)
      × ((clock.now w₁).0 < deadline)

  compare_bounds-stable :
      (deadline : ℕ) (last found e : Tree) (x : Option Bounds) (b : Bounds) (w w' : World)
      → compare_bounds clock visible_hierarchy deadline last found x w ≡ (finish (stable e b), w')
      → (found ≡ e)
        × (x ≡ some b)
        × (same_bounds b (element_bounds last) ≡ true)
        × ((clock.now w).0 < deadline)
  compare_bounds-stable deadline last found e none b w w' h = cc
  compare_bounds-stable deadline last found e (some c) b w w' h =
      (ground arith, ground arith, ground arith, ground arith)

  refreshed_verdict-stable :
      (deadline : ℕ) (last e : Tree) (x : Refreshed) (b : Bounds) (w w' : World)
      → refreshed_verdict clock visible_hierarchy deadline last x w ≡ (finish (stable e b), w')
      → (x ≡ refreshed e)
        × (element_bounds e ≡ some b)
        × (same_bounds b (element_bounds last) ≡ true)
        × ((clock.now w).0 < deadline)
  refreshed_verdict-stable deadline last e (found_others n) b w w' h = cc
  refreshed_verdict-stable deadline last e (refreshed found) b w w' h =
      let (same, bounded, equal, early) =
        compare_bounds-stable deadline last found e (element_bounds found) b w w' h in
      (ap refreshed same, ap element_bounds (sym same) ∙ bounded, equal, early)

  seen_verdict-stable :
      (deadline : ℕ) (last e : Tree) (x : Visible) (b : Bounds) (w w' : World)
      → seen_verdict clock visible_hierarchy deadline last x w ≡ (finish (stable e b), w')
      → (root : Tree) × (x ≡ visible root)
        × (refresh root (some last) ≡ refreshed e)
        × (element_bounds e ≡ some b)
        × (same_bounds b (element_bounds last) ≡ true)
        × ((clock.now w).0 < deadline)
  seen_verdict-stable deadline last e (invisible x) b w w' h = cc
  seen_verdict-stable deadline last e (visible root) b w w' h =
      let (same, bounded, equal, early) =
        refreshed_verdict-stable deadline last e (refresh root (some last)) b w w' h in
      (root, refl, same, bounded, equal, early)

  pub measure-stable :
      (deadline : ℕ) (last e : Tree) (b : Bounds) (w w' : World)
      → measure clock visible_hierarchy deadline last w ≡ (finish (stable e b), w')
      → Unmoved deadline last w e b
  unfolding measure
  measure-stable deadline last e b w w' h =
      let (root, seen, same, bounded, equal, early) =
        seen_verdict-stable deadline last e _ b _ w' h in
      (
        root,
        (visible_hierarchy w).1,
        (λ i. (seen i, (visible_hierarchy w).1)),
        same,
        bounded,
        equal,
        early,
      )

  -- The element that is kept has bounds.
  compare_bounds-HasBounds :
      (deadline : ℕ) (last found s : Tree) (x : Option Bounds) (w w' : World)
      → element_bounds found ≡ x
      → HasBounds last
      → compare_bounds clock visible_hierarchy deadline last found x w ≡ (again s, w')
      → HasBounds s
  compare_bounds-HasBounds deadline last found s none w w' bounded kept h =
      subst HasBounds {x = last} {y = s} (cc) kept
  compare_bounds-HasBounds deadline last found s (some c) w w' bounded kept h =
      subst HasBounds {x = found} {y = s} (ground arith) (c, bounded)

  seen_verdict-HasBounds :
      (deadline : ℕ) (last s : Tree) (x : Visible) (w w' : World)
      → HasBounds last
      → seen_verdict clock visible_hierarchy deadline last x w ≡ (again s, w')
      → HasBounds s
  seen_verdict-HasBounds deadline last s (invisible x) w w' kept h = cc
  seen_verdict-HasBounds deadline last s (visible root) w w' kept h =
      by_refresh (refresh root (some last)) h
    where
      by_refresh :
          (x : Refreshed)
          → refreshed_verdict clock visible_hierarchy deadline last x w ≡ (again s, w')
          → HasBounds s
      by_refresh (found_others n) e = subst HasBounds {x = last} {y = s} (cc) kept
      by_refresh (refreshed found) e =
          compare_bounds-HasBounds deadline last found s (element_bounds found) w w' refl kept e

  pub Steps-HasBounds :
      (deadline : ℕ) (s₀ : Tree) (w₀ : World) (s : Tree) (w : World)
      → HasBounds s₀
      → Steps clock (measure clock visible_hierarchy deadline) s₀ w₀ s w
      → HasBounds s
  unfolding measure
  Steps-HasBounds deadline s₀ w₀ s w kept Steps.here = kept
  Steps-HasBounds deadline s₀ w₀ s w kept (Steps.read _ w₁ steps) =
      Steps-HasBounds deadline s₀ w₀ s w₁ kept steps
  Steps-HasBounds deadline s₀ w₀ s w kept (Steps.look delay s₁ _ w₁ w₂ _ steps quiet e) =
      seen_verdict-HasBounds deadline s₁ s ((visible_hierarchy w₂).0) ((visible_hierarchy w₂).1) w
        (Steps-HasBounds deadline s₀ w₀ s₁ w₁ kept steps) e

  pub not_without_bounds :
      (deadline : ℕ) (last : Tree) (x : Visible) (w w' : World)
      → seen_verdict clock visible_hierarchy deadline last x w ≢ (finish without_bounds, w')
  not_without_bounds deadline last (invisible x) w w' h = cc
  not_without_bounds deadline last (visible root) w w' h = by_refresh (refresh root (some last)) h
    where
      by_bounds :
          (found : Tree) (x : Option Bounds)
          → compare_bounds clock visible_hierarchy deadline last found x w
            ≢ (finish without_bounds, w')
      by_bounds found none e = cc
      by_bounds found (some c) e = ground arith

      by_refresh :
          (x : Refreshed)
          → refreshed_verdict clock visible_hierarchy deadline last x w
            ≢ (finish without_bounds, w')
      by_refresh (found_others n) e = cc
      by_refresh (refreshed found) e = by_bounds found (element_bounds found) e

  pub unstable_seen :
      (deadline : ℕ) (last t : Tree) (x : Visible) (w w' : World)
      → seen_verdict clock visible_hierarchy deadline last x w ≢ (finish (unstable t), w')
  unstable_seen deadline last t (invisible x) w w' h = cc
  unstable_seen deadline last t (visible root) w w' h = by_refresh (refresh root (some last)) h
    where
      by_bounds :
          (found : Tree) (x : Option Bounds)
          → compare_bounds clock visible_hierarchy deadline last found x w
            ≢ (finish (unstable t), w')
      by_bounds found none e = cc
      by_bounds found (some c) e = ground arith

      by_refresh :
          (x : Refreshed)
          → refreshed_verdict clock visible_hierarchy deadline last x w ≢ (finish (unstable t), w')
      by_refresh (found_others n) e = cc
      by_refresh (refreshed found) e = by_bounds found (element_bounds found) e
