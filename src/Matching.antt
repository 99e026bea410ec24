-- ===== src/Matching.antt =====
-- internal/matching: Find behind compileSelector, and Refresh. A compiled selector holds the
-- selectors of its relatives; what they find in the whole tree is handed to the filters.
pub mod Filters
pub mod Relatives
pub mod Rank
mod Ranking
pub mod Kept
mod Selected
mod Examples
use flowbaton.Prelude.{
  ℕ, zero, suc, ◌+◌, ◌-◌, List, [], ◌∷◌, ◌++◌, map, Bool, true, false, not, ◌&&◌, ◌||◌, Option,
  none, some, ltb, leb, ◌==◌, length, get_elem?, if◌then◌else◌,
}
use flowbaton.Prelude.Int.{ℤ, pos, negsuc, ◌+ℤ◌, ◌-ℤ◌, ltb_ℤ}
use flowbaton.Hierarchy.{
  Attributes, Element, element, Elements, no_elements, more_elements, attributes, children, to_list,
}
use flowbaton.Hierarchy.Rectangle.{Bounds, wrap}
use flowbaton.Matching.Filters.{
  Text, Node, Tree, Basic, same_text, lookup, matches_basic, has_basic_filter,
}
use flowbaton.Matching.Relatives.{
  walk, filter, deepest, Direction, below, above, left_of, right_of, apply_direction,
  filter_structural,
}
use flowbaton.Matching.Rank.{rank}

-- `compiledSelector`: below, above, leftOf, rightOf, containsChild, childOf, containsDescendants and
-- the index.
mutual
  pub data Selector : Type 0 where
    compiled :
        Basic → Anchor → Anchor → Anchor → Anchor → Anchor → Anchor → Anchors → Option ℤ → Selector

  pub data Anchor : Type 0 where
    no_anchor : Anchor
    anchor : Selector → Anchor

  pub data Anchors : Type 0 where
    no_anchors : Anchors
    more_anchors : Selector → Anchors → Anchors

-- The first element that a childOf selector found, or no place to look.
abbrev pub scope_of : Tree → Option (List Tree) → Option Tree
scope_of root none = some root
scope_of root (some []) = none
scope_of root (some (e ∷ es)) = some e

module _ (is_square : ℤ → ℤ → Bool) where
  -- The candidates in a scope, behind the structural filters and the reduction to the deepest.
  unfoldable pub candidates_in : Basic → Option (List Tree) → List (List Tree) → Tree → List Tree
  unfolding walk filter matches_basic filter_structural deepest has_basic_filter
  candidates_in basic child descendants scope =
      let found =
        filter_structural child descendants
          (filter (λ e. matches_basic is_square basic (attributes e)) (walk scope)) in
      if has_basic_filter basic then deepest found else found

  -- `find` in a scope, given what the nested selectors found.
  unfoldable pub find_in :
      Basic
      → Option (List Tree)
      → Option (List Tree)
      → Option (List Tree)
      → Option (List Tree)
      → Option (List Tree)
      → List (List Tree)
      → Option ℤ
      → Option Tree
      → List Tree
  unfolding candidates_in apply_direction rank
  find_in basic b a l r child descendants index none = []
  find_in basic b a l r child descendants index (some scope) = rank index (
      apply_direction right_of r (
        apply_direction left_of l (
          apply_direction above a
            (apply_direction below b (candidates_in basic child descendants scope)))))

  unfoldable mutual
    -- `find`
    pub find : Selector → Tree → List Tree
    find (compiled basic b a l r child child_of descendants index) root =
        find_in basic (find_anchor b root) (find_anchor a root) (find_anchor l root)
          (find_anchor r root) (find_anchor child root) (find_anchors descendants root) index
          (scope_of root (find_anchor child_of root))

    pub find_anchor : Anchor → Tree → Option (List Tree)
    find_anchor no_anchor root = none
    find_anchor (anchor s) root = some (find s root)

    pub find_anchors : Anchors → Tree → List (List Tree)
    find_anchors no_anchors root = []
    find_anchors (more_anchors s ss) root = find s root ∷ find_anchors ss root

-- `attributesEqualIgnoringBounds`
abbrev bounds_key : Text
bounds_key = b'b' ∷ b'o' ∷ b'u' ∷ b'n' ∷ b'd' ∷ b's' ∷ []

abbrev has_value : Text → Option Text → Bool
has_value value none = false
has_value value (some v) = same_text v value

abbrev all_in : List (Text × Text) → List (Text × Text) → Bool
all_in [] right = true
all_in ((key, value) ∷ fields) right =
    (same_text key bounds_key || has_value value (lookup key right)) && all_in fields right

abbrev count_others : List (Text × Text) → ℕ
count_others [] = 0
count_others ((key, value) ∷ fields) =
    if same_text key bounds_key then count_others fields else suc (count_others fields)

unfoldable pub attributes_equal_ignoring_bounds : List (Text × Text) → List (Text × Text) → Bool
unfolding lookup
attributes_equal_ignoring_bounds left right =
    all_in left right && count_others left == count_others right

abbrev fields_of : Tree → List (Text × Text)
fields_of e = ((attributes e).node).attributes

-- The element, or how many there are in its place.
pub data Refreshed : Type 0 where
  refreshed : Tree → Refreshed
  found_others : ℕ → Refreshed

abbrev pub the_only : List Tree → Refreshed
the_only [] = found_others 0
the_only (e ∷ []) = refreshed e
the_only (e ∷ f ∷ es) = found_others (length (e ∷ f ∷ es))

-- `Refresh`, where `none` is a nil element.
unfoldable pub refresh : Tree → Option Tree → Refreshed
unfolding walk filter attributes_equal_ignoring_bounds
refresh root none = found_others 0
refresh root (some previous) =
    the_only (
      filter (λ e. attributes_equal_ignoring_bounds (fields_of e) (fields_of previous)) (walk root))
