-- ===== src/Hierarchy.antt =====
-- internal/hierarchy/tree.go: the normalised tree. A node's attributes are what the tree asks of
-- them: the text of its bounds, if any. ParseBounds and the geometry of IsVisible and Intersection
-- are a parameter. A parent pointer is the place in the tree.
pub mod Numbering
pub mod Visible
pub mod Rectangle
mod Examples
use flowbaton.Prelude.{
  ℕ, zero, suc, ◌+◌, List, [], ◌∷◌, ◌++◌, Bool, true, false, not, ◌||◌, Option, none, some,
  if◌then◌else◌,
}

-- What the tree asks of the geometry, and which nodes of its caller clip.
pub record Geometry (Raw Bounds : Type 0) : Type 0 where
  -- `ParseBounds` on the attribute of a node: an error, no attribute, or bounds.
  pub parse : Raw → Option (Option Bounds)
  pub is_visible : Bounds → Bounds → Bool
  pub is_area_zero : Bounds → Bool
  pub intersection : Bounds → Bounds → Bounds
  -- `none` for a nil function.
  pub clips : Option (Raw → Bool)

mutual
  pub data TreeNode (Raw : Type 0) : Type 0 where
    tree_node : Raw → Nodes Raw → TreeNode Raw

  pub data Nodes (Raw : Type 0) : Type 0 where
    no_nodes : Nodes Raw
    more_nodes : TreeNode Raw → Nodes Raw → Nodes Raw

-- The node, its bounds, its order and whether it is on screen.
pub record Attributes (Raw Bounds : Type 0) : Type 0 where
  pub node : Raw
  pub bounds : Option Bounds
  pub order : ℕ
  pub on_screen : Bool

mutual
  pub data Element (Raw Bounds : Type 0) : Type 0 where
    element : Attributes Raw Bounds → Elements Raw Bounds → Element Raw Bounds

  pub data Elements (Raw Bounds : Type 0) : Type 0 where
    no_elements : Elements Raw Bounds
    more_elements : Element Raw Bounds → Elements Raw Bounds → Elements Raw Bounds

module _ {Raw Bounds : Type 0} where
  abbrev pub attributes : Element Raw Bounds → Attributes Raw Bounds
  attributes (element a children) = a

  abbrev pub to_list : Elements Raw Bounds → List (Element Raw Bounds)
  to_list no_elements = []
  to_list (more_elements e es) = e ∷ to_list es

  abbrev pub children : Element Raw Bounds → Elements Raw Bounds
  children (element a es) = es

  -- `Walk`, its stack a list with the top in front, on fuel.
  unfoldable pub walk_loop : ℕ → List (Element Raw Bounds) → Option (List (Attributes Raw Bounds))
  walk_loop fuel [] = some []
  walk_loop zero (e ∷ stack) = none
  walk_loop (suc fuel) (e ∷ stack) = elim (walk_loop fuel (to_list (children e) ++ stack)) [
    | none ↦ none
    | some rest ↦ some (attributes e ∷ rest)
  ]

module _ {Raw Bounds : Type 0} (geometry : Geometry Raw Bounds) where
  -- The element of a node whose bounds parse, with its children; else no tree at all.
  abbrev pub assemble :
      Raw
      → ℕ
      → Option (Option Bounds)
      → Option (Elements Raw Bounds × ℕ)
      → Option (Element Raw Bounds × ℕ)
  assemble raw order none below = none
  assemble raw order (some bounds) none = none
  assemble raw order (some bounds) (some (es, next)) =
      some (
        element (record { node = raw; bounds = bounds; order = order; on_screen = false }) es,
        next,
      )

  abbrev pub prepend :
      Element Raw Bounds → Option (Elements Raw Bounds × ℕ) → Option (Elements Raw Bounds × ℕ)
  prepend e none = none
  prepend e (some (es, next)) = some (more_elements e es, next)

  -- A child, and the children behind it, numbered from where the child ends.
  abbrev pub append_child :
      Option (Element Raw Bounds × ℕ)
      → (ℕ → Option (Elements Raw Bounds × ℕ))
      → Option (Elements Raw Bounds × ℕ)
  append_child none others = none
  append_child (some (e, next)) others = prepend e (others next)

  unfoldable mutual
    -- `newElement`; the number is `*order`, and the new one is returned.
    pub new_element : TreeNode Raw → ℕ → Option (Element Raw Bounds × ℕ)
    new_element (tree_node raw nodes) order =
        assemble raw order (geometry.parse raw) (new_elements nodes (order + 1))

    pub new_elements : Nodes Raw → ℕ → Option (Elements Raw Bounds × ℕ)
    new_elements no_nodes order = some (no_elements, order)
    new_elements (more_nodes node nodes) order =
        append_child (new_element node order) (λ next. new_elements nodes next)

  -- `New`
  unfoldable pub new : TreeNode Raw → Option (Element Raw Bounds)
  new root = elim (new_element root 0) [ none ↦ none | some r ↦ some (r.0) ]

  unfoldable pub clip_to : Attributes Raw Bounds → Bounds → Bounds
  clip_to a viewport = elim geometry.clips [
    | none ↦ viewport
    | some clips ↦ elim a.bounds [
      | none ↦ viewport
      | some b ↦
          if geometry.is_area_zero b || not (clips a.node)
          then viewport
          else geometry.intersection viewport b
    ]
  ]

  abbrev pub is_on_screen : Option Bounds → Bounds → Bool
  is_on_screen none viewport = true
  is_on_screen (some b) viewport = geometry.is_visible b viewport

  abbrev pub keep : Attributes Raw Bounds → Bool → Elements Raw Bounds → Option (Element Raw Bounds)
  keep a on_screen kept =
      let clone : Option (Element Raw Bounds) =
        some (element (record a { on_screen = on_screen }) kept) in
      elim kept [ no_elements ↦ if on_screen then clone else none | more_elements e es ↦ clone ]

  abbrev pub push : Option (Element Raw Bounds) → Elements Raw Bounds → Elements Raw Bounds
  push none es = es
  push (some e) es = more_elements e es

  unfoldable mutual
    pub filter_visible : Element Raw Bounds → Bounds → Option (Element Raw Bounds)
    filter_visible (element a es) viewport =
        keep a (is_on_screen a.bounds viewport) (filter_all es (clip_to a viewport))

    pub filter_all : Elements Raw Bounds → Bounds → Elements Raw Bounds
    filter_all no_elements viewport = no_elements
    filter_all (more_elements e es) viewport =
        push (filter_visible e viewport) (filter_all es viewport)
