-- ===== src/Matching/Ranking.antt =====
-- The order of what internal/matching/matching.go finds for a selector with no index.
use flowbaton.Prelude.{
  ◌≡◌, ◌∙◌, ap, refl, inl, inr, List, [], ◌∷◌, ◌++◌, Bool, true, false, Bool-cases, not, ◌&&◌, none,
  if◌then◌else◌, arith,
}
use flowbaton.Matching.Filters.{Tree}
use flowbaton.Matching.Relatives.{filter}
use flowbaton.Matching.Rank.{insert_stable, slice_stable, is_clickable, is_shown, rank}

module _ {A : Type 0} where
  pub filter-append :
      (test : A → Bool) (xs ys : List A) → filter test (xs ++ ys) ≡ filter test xs ++ filter test ys
  unfolding filter
  filter-append test [] ys = refl
  filter-append test (x ∷ xs) ys = ground (arith, filter-append test xs ys)

  pub filter-filter :
      (f g : A → Bool) (xs : List A) → filter f (filter g xs) ≡ filter (λ x. g x && f x) xs
  unfolding filter
  filter-filter f g [] = refl
  filter-filter f g (x ∷ xs) = ground (arith, filter-filter f g xs)

  -- Those that pass a test before the others.
  abbrev first : (A → Bool) → A → A → Bool
  first p l r = p l && not (p r)

  abbrev fails : (A → Bool) → A → Bool
  fails p x = not (p x)

  insert_first :
      (p : A → Bool) (x : A) (ys : List A) → p x ≡ true → insert_stable (first p) x ys ≡ x ∷ ys
  unfolding insert_stable
  insert_first p x [] e = refl
  insert_first p x (y ∷ ys) e = ground arith

  insert_over :
      (p : A → Bool) (x : A) (ys zs : List A)
      → p x ≡ false
      → insert_stable (first p) x (filter p ys ++ zs) ≡ filter p ys ++ insert_stable (first p) x zs
  unfolding insert_stable filter
  insert_over p x [] zs e = refl
  insert_over p x (y ∷ ys) zs e = ground (arith, insert_over p x ys zs e)

  insert_last :
      (p : A → Bool) (x : A) (ys : List A)
      → p x ≡ false
      → insert_stable (first p) x (filter (fails p) ys) ≡ x ∷ filter (fails p) ys
  unfolding insert_stable filter
  insert_last p x [] e = refl
  insert_last p x (y ∷ ys) e = elim (Bool-cases (p y)) [
    | inl passes ↦ rw passes (insert_last p x ys e)
    | inr other ↦ rw (other, other) refl
  ]

  -- A stable sort by a test puts those that pass it in front, each group in its order.
  pub slice_stable-filter :
      (p : A → Bool) (xs : List A) → slice_stable (first p) xs ≡ filter p xs ++ filter (fails p) xs
  unfolding slice_stable filter
  slice_stable-filter p [] = refl
  slice_stable-filter p (x ∷ xs) = elim (Bool-cases (p x)) [
    | inl passes ↦ rw (slice_stable-filter p xs, passes) (insert_first p x _ passes)
    | inr other ↦
        rw (slice_stable-filter p xs, other)
          (insert_over p x xs (filter (fails p) xs) other
            ∙ ap (λ ys. filter p xs ++ ys) (insert_last p x xs other))
  ]

-- The elements with an answer to each of the two questions of the order.
abbrev pub group : Bool → Bool → List Tree → List Tree
group clickable on_screen = filter (λ e.
    (if clickable then is_clickable e else not (is_clickable e))
    && (if on_screen then is_shown e else not (is_shown e)))

-- With no index, the candidates come in four groups: on screen and clickable, on screen only,
-- clickable only, and the rest; each group is in the order of the candidates, and none is lost.
pub rank-group :
    (candidates : List Tree)
    → rank none candidates
      ≡ (group true true candidates ++ group false true candidates)
        ++ (group true false candidates ++ group false false candidates)
unfolding rank
rank-group candidates = rw (slice_stable-filter is_clickable candidates) (
    rw
      (slice_stable-filter is_shown
        (filter is_clickable candidates ++ filter (fails is_clickable) candidates))
      (rw
        (
          filter-append is_shown (filter is_clickable candidates)
              (filter (fails is_clickable) candidates),
          filter-append (fails is_shown) (filter is_clickable candidates)
              (filter (fails is_clickable) candidates),
          filter-filter is_shown is_clickable candidates,
          filter-filter is_shown (fails is_clickable) candidates,
          filter-filter (fails is_shown) is_clickable candidates,
          filter-filter (fails is_shown) (fails is_clickable) candidates,
        )
        refl))
