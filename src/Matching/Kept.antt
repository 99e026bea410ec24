-- ===== src/Matching/Kept.antt =====
-- What the filters and the sorts of internal/matching/matching.go keep of every candidate.
use flowbaton.Prelude.{
  ℕ, zero, suc, ◌-◌, ◌≡◌, ◌⊎◌, inl, inr, refl, sym, subst, List, [], ◌∷◌, All, Bool, true, false,
  Bool-cases, not, ◌&&◌, Option, none, some, length, get_elem?, ltb,
}
use flowbaton.Prelude.Int.{ℤ, pos, negsuc}
use flowbaton.Matching.Filters.{Tree}
use flowbaton.Matching.Relatives.{filter}
use flowbaton.Matching.Rank.{
  insert_stable, slice_stable, index_less, is_clickable, is_shown, at_index, pick, rank,
}

module _ {A : Type 0} where
  abbrev pub Occurs : A → List A → Type 0
  Occurs x [] = false ≡ true
  Occurs x (y ∷ ys) = (x ≡ y) ⊎ Occurs x ys

  pub All-map : (P Q : A → Type 0) (xs : List A) → ((x : A) → P x → Q x) → All P xs → All Q xs
  All-map P Q [] f h = tt
  All-map P Q (x ∷ xs) f h = (f x h.0, All-map P Q xs f h.1)

  pub All-Occurs : (xs : List A) → All (λ x. Occurs x xs) xs
  All-Occurs [] = tt
  All-Occurs (x ∷ xs) = (
    inl refl,
    All-map (λ y. Occurs y xs) (λ y. Occurs y (x ∷ xs)) xs (λ y h. inr h) (All-Occurs xs),
  )

  pub All-filter :
      (P : A → Type 0) (f : A → Bool) (xs : List A)
      → All P xs
      → All (λ x. P x × (f x ≡ true)) (filter f xs)
  unfolding filter
  All-filter P f [] h = tt
  All-filter P f (x ∷ xs) h = elim (Bool-cases (f x)) [
    | inl kept ↦ rw kept ((h.0, kept), All-filter P f xs h.1)
    | inr left ↦ rw left (All-filter P f xs h.1)
  ]

  pub All-insert_stable :
      (P : A → Type 0) (less : A → A → Bool) (x : A) (ys : List A)
      → P x
      → All P ys
      → All P (insert_stable less x ys)
  unfolding insert_stable
  All-insert_stable P less x [] hx h = (hx, tt)
  All-insert_stable P less x (y ∷ ys) hx h = elim (Bool-cases (less y x)) [
    | inl over ↦ rw over (h.0, All-insert_stable P less x ys hx h.1)
    | inr here ↦ rw here (hx, h)
  ]

  pub All-slice_stable :
      (P : A → Type 0) (less : A → A → Bool) (xs : List A) → All P xs → All P (slice_stable less xs)
  unfolding slice_stable
  All-slice_stable P less [] h = tt
  All-slice_stable P less (x ∷ xs) h =
      All-insert_stable P less x (slice_stable less xs) h.0 (All-slice_stable P less xs h.1)

  pub All-of : (P : A → Type 0) (xs : List A) (x : A) → All P xs → Occurs x xs → P x
  All-of P [] x h o = absurd (cc o)
  All-of P (y ∷ ys) x h (inl e) = subst P (sym e) h.0
  All-of P (y ∷ ys) x h (inr o) = All-of P ys x h.1 o

  pub Occurs-filter :
      (f : A → Bool) (x : A) (xs : List A) → Occurs x xs → f x ≡ true → Occurs x (filter f xs)
  unfolding filter
  Occurs-filter f x [] h k = h
  Occurs-filter f x (y ∷ ys) (inl e) k = rw (subst (λ z. f z ≡ true) e k) (inl e)
  Occurs-filter f x (y ∷ ys) (inr h) k = elim (Bool-cases (f y)) [
    | inl kept ↦ rw kept (inr (Occurs-filter f x ys h k))
    | inr left ↦ rw left (Occurs-filter f x ys h k)
  ]

  Occurs-insert_stable :
      (less : A → A → Bool) (a x : A) (ys : List A)
      → (a ≡ x) ⊎ Occurs a ys
      → Occurs a (insert_stable less x ys)
  unfolding insert_stable
  Occurs-insert_stable less a x [] h = h
  Occurs-insert_stable less a x (y ∷ ys) h = elim (Bool-cases (less y x)) [
    | inr here ↦ rw here h
    | inl over ↦ rw over (elim h [
      | inl e ↦ inr (Occurs-insert_stable less a x ys (inl e))
      | inr (inl e) ↦ inl e
      | inr (inr o) ↦ inr (Occurs-insert_stable less a x ys (inr o))
    ])
  ]

  pub Occurs-slice_stable :
      (less : A → A → Bool) (a : A) (xs : List A) → Occurs a xs → Occurs a (slice_stable less xs)
  unfolding slice_stable
  Occurs-slice_stable less a [] h = h
  Occurs-slice_stable less a (x ∷ xs) (inl e) =
      Occurs-insert_stable less a x (slice_stable less xs) (inl e)
  Occurs-slice_stable less a (x ∷ xs) (inr h) =
      Occurs-insert_stable less a x (slice_stable less xs) (inr (Occurs-slice_stable less a xs h))

-- Without an index nothing that was found goes.
pub Occurs-rank : (e : Tree) (xs : List Tree) → Occurs e xs → Occurs e (rank none xs)
unfolding rank
Occurs-rank e xs h =
    Occurs-slice_stable (λ l r. is_shown l && not (is_shown r)) e _
      (Occurs-slice_stable (λ l r. is_clickable l && not (is_clickable r)) e xs h)

pub All-at_index :
    (P : Tree → Type 0) (xs : List Tree) (i : ℕ) → All P xs → All P (at_index (get_elem? xs i))
All-at_index P [] i h = tt
All-at_index P (x ∷ xs) zero h = (h.0, tt)
All-at_index P (x ∷ xs) (suc i) h = All-at_index P xs i h.1

pub All-pick : (P : Tree → Type 0) (index : ℤ) (xs : List Tree) → All P xs → All P (pick index xs)
All-pick P (pos n) xs h = All-at_index P xs n h
All-pick P (negsuc n) xs h = elim (Bool-cases (ltb n (length xs))) [
  | inl inside ↦ rw inside (All-at_index P xs (length xs - suc n) h)
  | inr outside ↦ rw outside tt
]

pub All-rank :
    (P : Tree → Type 0) (index : Option ℤ) (xs : List Tree) → All P xs → All P (rank index xs)
unfolding rank
All-rank P (some index) xs h = All-pick P index _ (All-slice_stable P index_less xs h)
All-rank P none xs h =
    All-slice_stable P (λ l r. is_shown l && not (is_shown r)) _
      (All-slice_stable P (λ l r. is_clickable l && not (is_clickable r)) xs h)
