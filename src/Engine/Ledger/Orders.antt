-- ===== src/Engine/Ledger/Orders.antt =====
-- Lists of results in another order, as `sort.Slice` of `snapshotAfter` in
-- internal/engine/result_ledger.go leaves them.
use flowbaton.Prelude.{
  ◌<◌, ◌≢◌, ◌⊎◌, sym, inl, inr, List, [], ◌∷◌, ◌++◌, All, Bool, true, false, Bool-cases, ◌≡◌, arith,
}
use flowbaton.Engine.Results.{CommandResult}
use flowbaton.Matching.Kept.{Occurs, All-map, All-insert_stable}
use flowbaton.Matching.Rank.{insert_stable, slice_stable}
use flowbaton.Engine.Ledger.{sequence_less}

-- One list holds what the other does, as often, in another order.
pub data Permuted {A : Type 0} : List A → List A → Type 0 where
  nothing : Permuted [] []
  keep : {x : A} {xs ys : List A} → Permuted xs ys → Permuted (x ∷ xs) (x ∷ ys)
  swap : {x y : A} {xs : List A} → Permuted (x ∷ y ∷ xs) (y ∷ x ∷ xs)
  behind : {xs ys zs : List A} → Permuted xs ys → Permuted ys zs → Permuted xs zs

module _ {A : Type 0} where
  pub All-Permuted : (P : A → Type 0) {xs ys : List A} → Permuted xs ys → All P xs → All P ys
  All-Permuted P nothing h = tt
  All-Permuted P (keep p) h = (h.0, All-Permuted P p h.1)
  All-Permuted P swap h = (h.1.0, (h.0, h.1.1))
  All-Permuted P (behind p q) h = All-Permuted P q (All-Permuted P p h)

  pub Occurs-Permuted : (a : A) {xs ys : List A} → Permuted xs ys → Occurs a xs → Occurs a ys
  Occurs-Permuted a nothing o = o
  Occurs-Permuted a (keep p) (inl e) = inl e
  Occurs-Permuted a (keep p) (inr o) = inr (Occurs-Permuted a p o)
  Occurs-Permuted a swap (inl e) = inr (inl e)
  Occurs-Permuted a swap (inr (inl e)) = inl e
  Occurs-Permuted a swap (inr (inr o)) = inr (inr o)
  Occurs-Permuted a (behind p q) o = Occurs-Permuted a q (Occurs-Permuted a p o)

  pub Occurs-append : (a : A) (xs ys : List A) → Occurs a xs ⊎ Occurs a ys → Occurs a (xs ++ ys)
  Occurs-append a [] ys (inl o) = absurd (cc o)
  Occurs-append a [] ys (inr o) = o
  Occurs-append a (x ∷ xs) ys (inl (inl e)) = inl e
  Occurs-append a (x ∷ xs) ys (inl (inr o)) = inr (Occurs-append a xs ys (inl o))
  Occurs-append a (x ∷ xs) ys (inr o) = inr (Occurs-append a xs ys (inr o))

module _ {A : Type 0} where
  -- What `sort.Slice` asks of the function that it sorts by: a strict weak order.
  pub record IsStrictWeak (less : A → A → Bool) : Type 0 where
    pub one_way : (a b : A) → less a b ≡ true → less b a ≡ false
    pub not_less_trans : (a b c : A) → less a b ≡ false → less b c ≡ false → less a c ≡ false

  -- No element stands behind one that it is less than.
  abbrev pub IsSorted : (A → A → Bool) → List A → Type 0
  IsSorted less [] = Unit {0}
  IsSorted less (x ∷ xs) = All (λ y. less y x ≡ false) xs × IsSorted less xs

  -- What `sort.Slice` does: it reorders a list so that it is sorted by any strict weak order.
  abbrev pub Sorts : ((A → A → Bool) → List A → List A) → Type 0
  Sorts sort =
      (less : A → A → Bool)
      → IsStrictWeak less
      → (xs : List A) → Permuted xs (sort less xs) × IsSorted less (sort less xs)

  Permuted-refl : (xs : List A) → Permuted xs xs
  Permuted-refl [] = nothing
  Permuted-refl (x ∷ xs) = keep (Permuted-refl xs)

  Permuted-insert_stable :
      (less : A → A → Bool) (x : A) (ys : List A) → Permuted (x ∷ ys) (insert_stable less x ys)
  unfolding insert_stable
  Permuted-insert_stable less x [] = Permuted-refl (x ∷ [])
  Permuted-insert_stable less x (y ∷ ys) = elim (Bool-cases (less y x)) [
    | inl over ↦ rw over (behind swap (keep (Permuted-insert_stable less x ys)))
    | inr here ↦ rw here (Permuted-refl (x ∷ y ∷ ys))
  ]

  insert_stable-IsSorted :
      (less : A → A → Bool) (order : IsStrictWeak less) (x : A) (ys : List A)
      → IsSorted less ys
      → IsSorted less (insert_stable less x ys)
  unfolding insert_stable
  insert_stable-IsSorted less order x [] h = (tt, tt)
  insert_stable-IsSorted less order x (y ∷ ys) h = elim (Bool-cases (less y x)) [
    | inl over ↦ rw over (
      All-insert_stable (λ z. less z y ≡ false) less x ys (order.one_way y x over) h.0,
      insert_stable-IsSorted less order x ys h.1,
    )
    | inr here ↦ rw here (
      (
        here,
        All-map (λ z. less z y ≡ false) (λ z. less z x ≡ false) ys
            (λ z k. order.not_less_trans z y x k here) h.0,
      ),
      h,
    )
  ]

  -- A sort as the documentation of `sort.Slice` has it.
  pub slice_stable-Sorts : Sorts slice_stable
  unfolding slice_stable
  slice_stable-Sorts less order [] = (nothing, tt)
  slice_stable-Sorts less order (x ∷ xs) =
      let (reordered, sorted) = slice_stable-Sorts less order xs in
      (
        behind (keep reordered) (Permuted-insert_stable less x (slice_stable less xs)),
        insert_stable-IsSorted less order x (slice_stable less xs) sorted,
      )

module _ {Command : Type 0} where
  pub sequence_less-IsStrictWeak : IsStrictWeak (sequence_less {Command = Command})
  sequence_less-IsStrictWeak = record {
    one_way = λ a b h. ground arith;
    not_less_trans = λ a b c h k. ground arith;
  }

  -- The sequences rise from each result to every later one.
  abbrev pub IsRising : List (CommandResult Command) → Type 0
  IsRising [] = Unit {0}
  IsRising (r ∷ rs) = All (λ q. r.sequence < q.sequence) rs × IsRising rs

  abbrev pub IsDistinct : List (CommandResult Command) → Type 0
  IsDistinct [] = Unit {0}
  IsDistinct (r ∷ rs) = All (λ q. r.sequence ≢ q.sequence) rs × IsDistinct rs

  pub IsDistinct-Permuted :
      {rs qs : List (CommandResult Command)} → Permuted rs qs → IsDistinct rs → IsDistinct qs
  IsDistinct-Permuted nothing h = tt
  IsDistinct-Permuted (keep p) h = (All-Permuted _ p h.0, IsDistinct-Permuted p h.1)
  IsDistinct-Permuted swap h = (((λ e. h.0.0 (sym e)), h.1.0), (h.0.1, h.1.1))
  IsDistinct-Permuted (behind p q) h = IsDistinct-Permuted q (IsDistinct-Permuted p h)

  rise :
      (r : CommandResult Command) (rs : List (CommandResult Command))
      → All (λ q. sequence_less q r ≡ false) rs
      → All (λ q. r.sequence ≢ q.sequence) rs
      → All (λ q. r.sequence < q.sequence) rs
  rise r [] h k = tt
  rise r (q ∷ rs) h k = (ground (arith, h.0, k.0), rise r rs h.1 k.1)

  pub IsSorted-IsRising :
      (rs : List (CommandResult Command)) → IsSorted sequence_less rs → IsDistinct rs → IsRising rs
  IsSorted-IsRising [] h k = tt
  IsSorted-IsRising (r ∷ rs) h k = (rise r rs h.0 k.0, IsSorted-IsRising rs h.1 k.1)
