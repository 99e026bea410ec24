-- ===== src/Hierarchy/Examples.antt =====
-- A tree of four nodes as internal/hierarchy/tree.go numbers and filters it.
use flowbaton.Prelude.{
  ℕ, ◌≡◌, ◌-◌, ◌^◌, refl, arith, List, [], ◌∷◌, map, Bool, true, false, ltb, length, none, some,
}
use flowbaton.Hierarchy.{
  Geometry, TreeNode, tree_node, no_nodes, more_nodes, Attributes, Element, element, no_elements,
  more_elements, walk_loop, new_element, new, clip_to, filter_visible,
}
use flowbaton.Hierarchy.Numbering.{preorder, order_of, count_from, walk-new}
use flowbaton.Prelude.Int.{pos, negsuc, ◌+ℤ◌}
use flowbaton.Decimal.{IsInt64}
use flowbaton.Hierarchy.Rectangle.{Bounds, parsed, parse_bounds, format_pair, format_bounds}
use flowbaton.Hierarchy.Rectangle.RoundTrip.{parse_bounds-format_bounds, parse_bounds_wide}
use flowbaton.Hierarchy.Visible.{filter_visible-filter_visible}

-- Bounds are heights; a node is visible where it is not below the viewport's edge.
abbrev heights : Geometry ℕ ℕ
heights = record {
  parse = λ raw. some (some raw);
  is_visible = λ b viewport. ltb b viewport;
  is_area_zero = λ b. false;
  intersection = λ viewport b. viewport;
  clips = none;
}

abbrev tree : TreeNode ℕ
tree = tree_node 90 (
    more_nodes (tree_node 5 (more_nodes (tree_node 70 no_nodes) no_nodes))
      (more_nodes (tree_node 80 no_nodes) no_nodes))

abbrev item : ℕ → ℕ → Bool → Attributes ℕ ℕ
item raw order on_screen = record {
  node = raw;
  bounds = some raw;
  order = order;
  on_screen = on_screen;
}

abbrev numbered : Element ℕ ℕ
numbered = element (item 90 0 false) (
    more_elements
      (element (item 5 1 false) (more_elements (element (item 70 2 false) no_elements) no_elements))
      (more_elements (element (item 80 3 false) no_elements) no_elements))

made : new heights tree ≡ some numbered
unfolding new new_element
made = refl

walk-new_example :
    (visited : List (Attributes ℕ ℕ)) × (walk_loop (length (preorder numbered)) (numbered ∷ [])
      ≡ some visited)
    × (visited ≡ preorder numbered)
    × (map order_of visited ≡ count_from 0 (length visited))
walk-new_example = walk-new heights tree numbered made

-- The root stays for the child that is on screen.
abbrev visible : Element ℕ ℕ
visible =
    element (item 90 0 false) (more_elements (element (item 5 1 true) no_elements) no_elements)

filtered : filter_visible heights numbered 50 ≡ some visible
unfolding filter_visible clip_to
filtered = refl

filter_visible_example : filter_visible heights visible 50 ≡ some visible
filter_visible_example = filter_visible-filter_visible heights numbered visible 50 filtered

abbrev card : Bounds
card = record { x = negsuc 9; y = pos 0; width = pos 120; height = pos 7 }

card_right : IsInt64 (negsuc 9 +ℤ pos 120)
unfolding ◌+ℤ◌
card_right = omega arith

card_bottom : IsInt64 (pos 0 +ℤ pos 7)
unfolding ◌+ℤ◌
card_bottom = omega arith

wide_right : IsInt64 (negsuc 0 +ℤ pos (2 ^ 63))
unfolding ◌+ℤ◌
wide_right = omega arith

parse_bounds_example : parse_bounds (format_bounds card) ≡ parsed card
parse_bounds_example =
    parse_bounds-format_bounds (negsuc 9) (pos 0) 120 7 (omega arith) (omega arith) card_right
      card_bottom (omega arith) (omega arith)

parse_bounds_wide_example :
    parse_bounds
      (format_pair (negsuc 0) (pos 0) (format_pair (negsuc 0 +ℤ pos (2 ^ 63)) (pos 0 +ℤ pos 7) []))
    ≡ parsed
        (record { x = negsuc 0; y = pos 0; width = negsuc (2 ^ 64 - 1 - 2 ^ 63); height = pos 7 })
parse_bounds_wide_example =
    parse_bounds_wide (negsuc 0) (pos 0) (2 ^ 63) 7 (omega arith) (omega arith) wide_right
      card_bottom (omega arith) (omega arith) (omega arith)
