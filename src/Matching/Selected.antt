-- ===== src/Matching/Selected.antt =====
-- What `find` of internal/matching/matching.go returns.
use flowbaton.Prelude.{
  ◌≡◌, ◌↔◌, inl, inr, List, [], ◌∷◌, All, Bool, true, false, Bool-cases, not, ◌&&◌, Option, none,
  some, arith,
}
use flowbaton.Prelude.Int.{ℤ}
use flowbaton.Hierarchy.{attributes}
use flowbaton.Matching.{
  compiled, Anchor, Anchors, scope_of, candidates_in, find_in, find, find_anchor, find_anchors,
}
use flowbaton.Matching.Filters.{Tree, Basic, matches_basic, has_basic_filter}
use flowbaton.Matching.Relatives.{
  walk, filter, has_descendant_in, deepest, below, above, left_of, right_of, in_direction,
  apply_direction, has_child_of, has_descendants_of, filter_structural,
}
use flowbaton.Matching.Kept.{
  Occurs, All-map, All-Occurs, All-filter, All-rank, All-of, Occurs-filter, Occurs-rank,
}

module _ (is_square : ℤ → ℤ → Bool) (basic : Basic) (child : Option (List Tree))
    (descendants : List (List Tree)) (scope : Tree) where
  -- The elements of a scope that pass the filters of their own and of their relatives.
  abbrev pub passing : List Tree
  passing =
      filter_structural child descendants
        (filter (λ e. matches_basic is_square basic (attributes e)) (walk scope))

  -- An element of the scope that passes those filters and, where the selector has a filter of its
  -- own, has no other such element below it.
  abbrev pub Candidate : Tree → Type 0
  Candidate e =
      ((Occurs e (walk scope) × (matches_basic is_square basic (attributes e) ≡ true))
        × (has_child_of child e && has_descendants_of descendants e ≡ true))
      × (has_basic_filter basic && has_descendant_in passing e ≡ false)

  abbrev Passing : Tree → Type 0
  Passing e =
      (Occurs e (walk scope) × (matches_basic is_square basic (attributes e) ≡ true))
      × (has_child_of child e && has_descendants_of descendants e ≡ true)

  passing-Passing : All Passing passing
  unfolding filter_structural
  passing-Passing =
      All-filter
        (λ e. Occurs e (walk scope) × (matches_basic is_square basic (attributes e) ≡ true))
        (λ e. has_child_of child e && has_descendants_of descendants e) _
        (All-filter (λ e. Occurs e (walk scope)) (λ e. matches_basic is_square basic (attributes e))
          (walk scope) (All-Occurs (walk scope)))

  deepest-Candidate : has_basic_filter basic ≡ true → All Candidate (deepest passing)
  unfolding deepest
  deepest-Candidate some_filter =
      All-map (λ e. Passing e × (not (has_descendant_in passing e) ≡ true)) Candidate _
        (λ e h. (h.0, lowest e h.1))
        (All-filter Passing (λ e. not (has_descendant_in passing e)) passing passing-Passing)
    where
      lowest :
          (e : Tree)
          → not (has_descendant_in passing e) ≡ true
          → has_basic_filter basic && has_descendant_in passing e ≡ false
      lowest e h = ground arith

  candidates_in-Candidate : All Candidate (candidates_in is_square basic child descendants scope)
  unfolding candidates_in
  candidates_in-Candidate = elim (Bool-cases (has_basic_filter basic)) [
    | inl some_filter ↦ rw (some_filter, candidates_in) (deepest-Candidate some_filter)
    | inr no_filter ↦
        rw (no_filter, candidates_in)
          (All-map Passing Candidate passing (λ e h. (h, unfiltered e no_filter)) passing-Passing)
  ]
    where
      unfiltered :
          (e : Tree)
          → has_basic_filter basic ≡ false
          → has_basic_filter basic && has_descendant_in passing e ≡ false
      unfiltered e h = ground arith

module _ (is_square : ℤ → ℤ → Bool) (basic : Basic) (child : Option (List Tree))
    (descendants : List (List Tree)) (scope : Tree) where
  Occurs-passing :
      (e : Tree)
      → Occurs e (walk scope)
      → matches_basic is_square basic (attributes e) ≡ true
      → has_child_of child e && has_descendants_of descendants e ≡ true
      → Occurs e (passing is_square basic child descendants scope)
  unfolding filter_structural
  Occurs-passing e inside own relatives =
      Occurs-filter (λ x. has_child_of child x && has_descendants_of descendants x) e _
        (Occurs-filter (λ x. matches_basic is_square basic (attributes x)) e (walk scope) inside
          own)
        relatives

  -- Every such element is among the candidates.
  Candidate-candidates_in :
      (e : Tree)
      → Candidate is_square basic child descendants scope e
      → Occurs e (candidates_in is_square basic child descendants scope)
  unfolding candidates_in deepest
  Candidate-candidates_in e h =
      let here = Occurs-passing e h.0.0.0 h.0.0.1 h.0.1 in
      elim (Bool-cases (has_basic_filter basic)) [
        | inr no_filter ↦ rw (no_filter, candidates_in) here
        | inl some_filter ↦
            rw (some_filter, candidates_in)
              (Occurs-filter
                (λ x. not (has_descendant_in (passing is_square basic child descendants scope) x)) e
                _ here (ground arith))
      ]

-- The element lies so, if an anchor is given: below, above, left of and right of the four anchors.
abbrev pub Directed :
    Option (List Tree)
    → Option (List Tree)
    → Option (List Tree)
    → Option (List Tree)
    → Tree
    → Type 0
Directed b a l r e =
    (in_direction below b e ≡ true)
    × (in_direction above a e ≡ true)
    × (in_direction left_of l e ≡ true)
    × (in_direction right_of r e ≡ true)

module _ (P : Tree → Type 0) where
  All-Directed :
      (b a l r : Option (List Tree)) (xs : List Tree)
      → All P xs
      → All
          (λ e. P e × Directed b a l r e)
          (apply_direction right_of r
            (apply_direction left_of l (apply_direction above a (apply_direction below b xs))))
  unfolding apply_direction
  All-Directed b a l r xs h =
      All-map
        (λ e.
          (((P e × (in_direction below b e ≡ true)) × (in_direction above a e ≡ true))
            × (in_direction left_of l e ≡ true))
          × (in_direction right_of r e ≡ true))
        (λ e. P e × Directed b a l r e) _ (λ e k. (k.0.0.0.0, (k.0.0.0.1, k.0.0.1, k.0.1, k.1)))
        (All-filter _ (in_direction right_of r) _ (
          All-filter _ (in_direction left_of l) _
            (All-filter _ (in_direction above a) _ (All-filter P (in_direction below b) xs h))))

Occurs-Directed :
    (b a l r : Option (List Tree)) (e : Tree) (xs : List Tree)
    → Occurs e xs
    → Directed b a l r e
    → Occurs e (
        apply_direction right_of r
          (apply_direction left_of l (apply_direction above a (apply_direction below b xs))))
unfolding apply_direction
Occurs-Directed b a l r e xs here d =
    Occurs-filter (in_direction right_of r) e _
      (Occurs-filter (in_direction left_of l) e _
        (Occurs-filter (in_direction above a) e _
          (Occurs-filter (in_direction below b) e xs here d.0) d.1)
        d.2)
      d.3

module _ (is_square : ℤ → ℤ → Bool) where
  -- A candidate in such a direction: of the whole tree without a childOf selector, of the first
  -- element that this selector found, and of nothing where it found none.
  abbrev pub FoundIn :
      Basic
      → Option (List Tree)
      → Option (List Tree)
      → Option (List Tree)
      → Option (List Tree)
      → Option (List Tree)
      → List (List Tree)
      → Tree
      → Option (List Tree)
      → Tree
      → Type 0
  FoundIn basic b a l r child descendants root none e =
      Candidate is_square basic child descendants root e × Directed b a l r e
  FoundIn basic b a l r child descendants root (some []) e = false ≡ true
  FoundIn basic b a l r child descendants root (some (scope ∷ others)) e =
      Candidate is_square basic child descendants scope e × Directed b a l r e

  module _ (basic : Basic) (b a l r child : Option (List Tree))
      (descendants : List (List Tree)) where
    found_in_scope :
        (index : Option ℤ) (scope : Tree)
        → All
            (λ e. Candidate is_square basic child descendants scope e × Directed b a l r e)
            (find_in is_square basic b a l r child descendants index (some scope))
    unfolding find_in
    found_in_scope index scope = All-rank _ index _ (
        All-Directed (Candidate is_square basic child descendants scope) b a l r _
          (candidates_in-Candidate is_square basic child descendants scope))

    Occurs-find_in :
        (scope e : Tree)
        → Candidate is_square basic child descendants scope e
        → Directed b a l r e
        → Occurs e (find_in is_square basic b a l r child descendants none (some scope))
    unfolding find_in
    Occurs-find_in scope e candidate directed = Occurs-rank e _ (
        Occurs-Directed b a l r e _
          (Candidate-candidates_in is_square basic child descendants scope e candidate) directed)

    find_in-FoundIn :
        (index : Option ℤ) (root : Tree) (child_of : Option (List Tree))
        → All
            (FoundIn basic b a l r child descendants root child_of)
            (find_in is_square basic b a l r child descendants index (scope_of root child_of))
    find_in-FoundIn index root none = found_in_scope index root
    find_in-FoundIn index root (some []) = unfold find_in in tt
    find_in-FoundIn index root (some (scope ∷ others)) = found_in_scope index scope

    FoundIn-find_in :
        (root : Tree) (child_of : Option (List Tree)) (e : Tree)
        → FoundIn basic b a l r child descendants root child_of e
        → Occurs e (find_in is_square basic b a l r child descendants none (scope_of root child_of))
    FoundIn-find_in root none e h = Occurs-find_in root e h.0 h.1
    FoundIn-find_in root (some []) e h = cc
    FoundIn-find_in root (some (scope ∷ others)) e h = Occurs-find_in scope e h.0 h.1

  -- Without an index a selector finds exactly the elements of its scope that pass, and with one it
  -- finds nothing else. The scope is the whole tree without a childOf selector, the first element
  -- that this selector finds, or nothing where it finds none. An element passes that has what the
  -- selector's own filters ask for, a child and descendants among what those selectors find in the
  -- whole tree, and lies below, above, left of and right of one of the elements that those selectors
  -- find there; where the selector has a filter of its own, no element below it in the scope may
  -- pass that filter and those on children and descendants.
  pub find-FoundIn :
      (basic : Basic) (b a l r child child_of : Anchor) (descendants : Anchors) (index : Option ℤ)
      (root e : Tree)
      → All
          (FoundIn basic
            (find_anchor is_square b root)
            (find_anchor is_square a root)
            (find_anchor is_square l root)
            (find_anchor is_square r root)
            (find_anchor is_square child root)
            (find_anchors is_square descendants root)
            root
            (find_anchor is_square child_of root))
          (find is_square (compiled basic b a l r child child_of descendants index) root)
        × (Occurs e (find is_square (compiled basic b a l r child child_of descendants none) root)
            ↔ FoundIn basic
                (find_anchor is_square b root)
                (find_anchor is_square a root)
                (find_anchor is_square l root)
                (find_anchor is_square r root)
                (find_anchor is_square child root)
                (find_anchors is_square descendants root)
                root
                (find_anchor is_square child_of root)
                e)
  unfolding find
  find-FoundIn basic b a l r child child_of descendants index root e =
      let scopes = find_anchor is_square child_of root in
      (
        find_in-FoundIn basic _ _ _ _ _ _ index root scopes,
        (
          All-of _ _ e (find_in-FoundIn basic _ _ _ _ _ _ none root scopes),
          FoundIn-find_in basic _ _ _ _ _ _ root scopes e,
        ),
      )
