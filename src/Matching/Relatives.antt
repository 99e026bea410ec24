-- ===== src/Matching/Relatives.antt =====
-- The filters of internal/matching/matching.go on an element's relatives and place. An element is told
-- from others by its order, which hierarchy.New makes unique, in place of its address.
use flowbaton.Prelude.{
  ℕ, List, [], ◌∷◌, ◌++◌, Bool, true, false, not, ◌&&◌, ◌||◌, Option, none, some, ◌==◌,
  if◌then◌else◌,
}
use flowbaton.Prelude.Int.{ltb_ℤ}
use flowbaton.Hierarchy.{element, no_elements, more_elements, attributes, children, to_list}
use flowbaton.Hierarchy.Rectangle.{Bounds}
use flowbaton.Matching.Filters.{Tree, Trees}

-- `Walk`: the elements in document order.
unfoldable mutual
  pub walk : Tree → List Tree
  walk (element a es) = element a es ∷ walk_all es

  pub walk_all : Trees → List Tree
  walk_all no_elements = []
  walk_all (more_elements e es) = walk e ++ walk_all es

abbrev pub order_of : Tree → ℕ
order_of e = (attributes e).order

-- Is an element in a set of elements?
abbrev pub in_set : List Tree → Tree → Bool
in_set [] e = false
in_set (x ∷ xs) e = order_of x == order_of e || in_set xs e

unfoldable pub filter : {A : Type 0} → (A → Bool) → List A → List A
filter test [] = []
filter test (x ∷ xs) = let rest = filter test xs in if test x then x ∷ rest else rest

unfoldable pub any : {A : Type 0} → (A → Bool) → List A → Bool
any test [] = false
any test (x ∷ xs) = test x || any test xs

abbrev below_of : Tree → List Tree
below_of (element a es) = walk_all es

-- `hasDescendantIn` and `hasMatchingDescendant`, whose stacks visit all that is below.
unfoldable pub has_descendant_in : List Tree → Tree → Bool
unfolding walk_all any
has_descendant_in set candidate = any (in_set set) (below_of candidate)

unfoldable pub has_direct_child_in : List Tree → Tree → Bool
unfolding any
has_direct_child_in set candidate = any (in_set set) (to_list (children candidate))

unfoldable pub deepest : List Tree → List Tree
unfolding filter has_descendant_in
deepest candidates = filter (λ e. not (has_descendant_in candidates e)) candidates

pub data Direction : Type 0 where
  below above left_of right_of : Direction

unfoldable pub is_directional_match : Direction → Bounds → Bounds → Bool
is_directional_match below candidate origin = ltb_ℤ origin.y candidate.y
is_directional_match above candidate origin = ltb_ℤ candidate.y origin.y
is_directional_match left_of candidate origin = ltb_ℤ candidate.x origin.x
is_directional_match right_of candidate origin = ltb_ℤ origin.x candidate.x

abbrev anchor_in_direction : Direction → Bounds → Option Bounds → Bool
anchor_in_direction relation b none = false
anchor_in_direction relation b (some origin) = is_directional_match relation b origin

abbrev candidate_in_direction : Direction → List Tree → Option Bounds → Bool
candidate_in_direction relation anchors none = false
candidate_in_direction relation anchors (some b) =
    any (λ e. anchor_in_direction relation b (attributes e).bounds) anchors

unfoldable pub matches_any_anchor : Direction → List Tree → Tree → Bool
unfolding is_directional_match any
matches_any_anchor relation anchors candidate =
    candidate_in_direction relation anchors (attributes candidate).bounds

abbrev pub in_direction : Direction → Option (List Tree) → Tree → Bool
in_direction relation none candidate = true
in_direction relation (some anchors) candidate = matches_any_anchor relation anchors candidate

-- `applyDirection`, where `none` is a nil anchor.
unfoldable pub apply_direction : Direction → Option (List Tree) → List Tree → List Tree
unfolding matches_any_anchor filter
apply_direction relation anchors candidates = filter (in_direction relation anchors) candidates

abbrev pub has_child_of : Option (List Tree) → Tree → Bool
has_child_of none candidate = true
has_child_of (some set) candidate = has_direct_child_in set candidate

abbrev pub has_descendants_of : List (List Tree) → Tree → Bool
has_descendants_of [] candidate = true
has_descendants_of (set ∷ sets) candidate =
    has_descendant_in set candidate && has_descendants_of sets candidate

unfoldable pub filter_structural : Option (List Tree) → List (List Tree) → List Tree → List Tree
unfolding has_direct_child_in has_descendant_in filter
filter_structural child descendants candidates =
    filter (λ e. has_child_of child e && has_descendants_of descendants e) candidates
