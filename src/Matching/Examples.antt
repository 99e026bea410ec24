-- ===== src/Matching/Examples.antt =====
-- A header and a button of one label, as internal/matching/matching.go finds them.
use flowbaton.Prelude.{ℕ, ◌≡◌, ◌↔◌, refl, [], ◌∷◌, ◌++◌, All, Bool, true, false, Option, none, some}
use flowbaton.Prelude.Int.{ℤ, pos, negsuc}
use flowbaton.Hierarchy.{element, no_elements, more_elements}
use flowbaton.Hierarchy.Rectangle.{Bounds}
use flowbaton.Matching.{
  Selector, compiled, no_anchor, anchor, no_anchors, candidates_in, find_in, find, find_anchor,
  find_anchors, refresh, refreshed, found_others, attributes_equal_ignoring_bounds,
}
use flowbaton.Matching.Filters.{
  Text, Node, Tree, Pattern, Basic, lookup, matches, matches_size, matches_traits, matches_bool,
  matches_basic, has_basic_filter,
}
use flowbaton.Matching.Relatives.{
  walk, filter, any, has_descendant_in, deepest, is_directional_match, matches_any_anchor,
  apply_direction, filter_structural,
}
use flowbaton.Matching.Rank.{insert_stable, slice_stable, index_less, rank}
use flowbaton.Matching.Ranking.{group, rank-group}
use flowbaton.Matching.Kept.{Occurs}
use flowbaton.Matching.Selected.{FoundIn, find-FoundIn}

abbrev ok_text : Text
ok_text = b'O' ∷ b'K' ∷ []

abbrev label_key : Text
label_key = b't' ∷ b'e' ∷ b'x' ∷ b't' ∷ []

abbrev labelled : Bool → Node
labelled clickable = record {
  attributes = (label_key, ok_text) ∷ [];
  clickable = some clickable;
  enabled = none;
  focused = none;
  checked = none;
  selected = none;
}

abbrev plain : Node
plain = record {
  attributes = [];
  clickable = none;
  enabled = none;
  focused = none;
  checked = none;
  selected = none;
}

abbrev at : ℕ → Bounds
at y = record { x = pos 0; y = pos y; width = pos 10; height = pos 10 }

-- The header is above the screen, the button is on it.
abbrev header : Tree
header =
    element (record { node = labelled false; bounds = some (at 3); order = 1; on_screen = false })
      no_elements

abbrev button : Tree
button =
    element (record { node = labelled true; bounds = some (at 90); order = 2; on_screen = true })
      no_elements

abbrev page : Tree
page =
    element (record { node = plain; bounds = none; order = 0; on_screen = true })
      (more_elements header (more_elements button no_elements))

-- An expression that matches nothing; the raw text is compared too.
abbrev ok_pattern : Pattern
ok_pattern = record { raw = ok_text; match_string = λ value. false }

abbrev by_text : Basic
by_text = record {
  text = some ok_pattern;
  id = none;
  size = none;
  traits = [];
  enabled = none;
  selected = none;
  checked = none;
  focused = none;
}

abbrev labels : Option ℤ → Selector
labels index =
    compiled by_text no_anchor no_anchor no_anchor no_anchor no_anchor no_anchor no_anchors index

abbrev under_label : Selector
under_label =
    compiled by_text (anchor (labels none)) no_anchor no_anchor no_anchor no_anchor no_anchor
      no_anchors none

abbrev no_square : ℤ → ℤ → Bool
no_square width height = false

button_first : find no_square (labels none) page ≡ button ∷ header ∷ []
unfolding find find_in candidates_in walk filter matches_basic matches lookup matches_size
    matches_traits matches_bool filter_structural deepest has_basic_filter has_descendant_in any
    apply_direction rank slice_stable insert_stable
button_first = refl

last_index : find no_square (labels (some (negsuc 0))) page ≡ button ∷ []
unfolding find find_in candidates_in walk filter matches_basic matches lookup matches_size
    matches_traits matches_bool filter_structural deepest has_basic_filter has_descendant_in any
    apply_direction rank slice_stable insert_stable index_less
last_index = refl

under_header : find no_square under_label page ≡ button ∷ []
unfolding find find_in candidates_in walk filter matches_basic matches lookup matches_size
    matches_traits matches_bool filter_structural deepest has_basic_filter has_descendant_in any
    apply_direction rank slice_stable insert_stable matches_any_anchor is_directional_match
under_header = refl

abbrev inside_nothing : Selector
inside_nothing =
    compiled by_text no_anchor no_anchor no_anchor no_anchor no_anchor
      (anchor (labels (some (pos 5)))) no_anchors none

-- A childOf selector that finds nothing leaves no place to look.
nowhere : find no_square inside_nothing page ≡ []
unfolding find find_in candidates_in walk filter matches_basic matches lookup matches_size
    matches_traits matches_bool filter_structural deepest has_basic_filter has_descendant_in any
    apply_direction rank slice_stable insert_stable index_less
nowhere = refl

-- Two elements have the button's attributes.
ambiguous : refresh page (some button) ≡ found_others 2
unfolding refresh walk filter attributes_equal_ignoring_bounds lookup
ambiguous = refl

unique : refresh page (some page) ≡ refreshed page
unfolding refresh walk filter attributes_equal_ignoring_bounds lookup
unique = refl

rank-group_example :
    rank none (header ∷ button ∷ [])
    ≡ (group true true (header ∷ button ∷ []) ++ group false true (header ∷ button ∷ []))
      ++ (group true false (header ∷ button ∷ []) ++ group false false (header ∷ button ∷ []))
rank-group_example = rank-group (header ∷ button ∷ [])

find-FoundIn_example :
    All
      (FoundIn no_square by_text
        (find_anchor no_square (anchor (labels none)) page)
        (find_anchor no_square no_anchor page)
        (find_anchor no_square no_anchor page)
        (find_anchor no_square no_anchor page)
        (find_anchor no_square no_anchor page)
        (find_anchors no_square no_anchors page)
        page
        (find_anchor no_square no_anchor page))
      (find no_square under_label page)
    × (Occurs button (find no_square under_label page)
        ↔ FoundIn no_square by_text
            (find_anchor no_square (anchor (labels none)) page)
            (find_anchor no_square no_anchor page)
            (find_anchor no_square no_anchor page)
            (find_anchor no_square no_anchor page)
            (find_anchor no_square no_anchor page)
            (find_anchors no_square no_anchors page)
            page
            (find_anchor no_square no_anchor page)
            button)
find-FoundIn_example =
    find-FoundIn no_square by_text (anchor (labels none)) no_anchor no_anchor no_anchor no_anchor
      no_anchor no_anchors none page button
