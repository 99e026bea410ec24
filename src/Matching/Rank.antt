-- ===== src/Matching/Rank.antt =====
-- The order in which internal/matching/matching.go returns what it found.
use flowbaton.Prelude.{
  ℕ, suc, ◌-◌, List, [], ◌∷◌, Bool, true, false, not, ◌&&◌, ◌||◌, Option, none, some, ltb, length,
  get_elem?, if◌then◌else◌,
}
use flowbaton.Prelude.Int.{ℤ, pos, negsuc, ltb_ℤ}
use flowbaton.Hierarchy.{attributes}
use flowbaton.Hierarchy.Rectangle.{Bounds}
use flowbaton.Matching.Filters.{Tree}
use flowbaton.Matching.Relatives.{order_of}

-- `sort.SliceStable`: each element goes behind those that it is not less than.
unfoldable pub insert_stable : {A : Type 0} → (A → A → Bool) → A → List A → List A
insert_stable less x [] = x ∷ []
insert_stable less x (y ∷ ys) =
    let rest = insert_stable less x ys in if less y x then y ∷ rest else x ∷ y ∷ ys

unfoldable pub slice_stable : {A : Type 0} → (A → A → Bool) → List A → List A
unfolding insert_stable
slice_stable less [] = []
slice_stable less (x ∷ xs) = insert_stable less x (slice_stable less xs)

abbrev pub is_true : Option Bool → Bool
is_true none = false
is_true (some b) = b

abbrev pub is_clickable : Tree → Bool
is_clickable e = is_true ((attributes e).node).clickable

abbrev pub is_shown : Tree → Bool
is_shown e = (attributes e).on_screen

-- `indexLess`
abbrev bounds_less : Option Bounds → Option Bounds → ℕ → ℕ → Bool
bounds_less none none m n = ltb m n
bounds_less none (some b) m n = false
bounds_less (some a) none m n = true
bounds_less (some a) (some b) m n =
    if ltb_ℤ a.y b.y || ltb_ℤ b.y a.y
    then ltb_ℤ a.y b.y
    else if ltb_ℤ a.x b.x || ltb_ℤ b.x a.x
    then ltb_ℤ a.x b.x
    else ltb m n

unfoldable pub index_less : Tree → Tree → Bool
index_less l r = bounds_less (attributes l).bounds (attributes r).bounds (order_of l) (order_of r)

abbrev pub at_index : Option Tree → List Tree
at_index none = []
at_index (some e) = e ∷ []

-- A negative index counts from the end.
abbrev pub pick : ℤ → List Tree → List Tree
pick (pos n) candidates = at_index (get_elem? candidates n)
pick (negsuc n) candidates =
    if ltb n (length candidates)
    then at_index (get_elem? candidates (length candidates - suc n))
    else []

unfoldable pub rank : Option ℤ → List Tree → List Tree
unfolding slice_stable index_less
rank (some index) candidates = pick index (slice_stable index_less candidates)
rank none candidates =
    slice_stable (λ l r. is_shown l && not (is_shown r))
      (slice_stable (λ l r. is_clickable l && not (is_clickable r)) candidates)
