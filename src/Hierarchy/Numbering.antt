-- ===== src/Hierarchy/Numbering.antt =====
-- `New` and `Walk` of internal/hierarchy/tree.go.
use mathlib.Core.List.{map-append}
use flowbaton.Prelude.{
  ℕ, zero, suc, ◌+◌, ◌≤◌, ◌≡◌, ◌∙◌, ap, sym, subst, refl, List, [], ◌∷◌, ◌++◌, append_assoc,
  append-nil, map, false, Option, none, some, Option-cases, inl, inr, length, length-append, arith,
}
use flowbaton.Hierarchy.{
  Geometry, TreeNode, tree_node, Nodes, no_nodes, more_nodes, Attributes, Element, element,
  Elements, no_elements, more_elements, to_list, walk_loop, new_element, new_elements, new,
  assemble, append_child,
}

-- The numbers from `n` on, `k` of them.
unfoldable pub count_from : ℕ → ℕ → List ℕ
count_from n zero = []
count_from n (suc k) = n ∷ count_from (n + 1) k

count_from-+ : (n k l : ℕ) → count_from n (k + l) ≡ count_from n k ++ count_from (n + k) l
unfolding count_from
count_from-+ n zero l =
    ap (λ m. count_from n m) {x = 0 + l} {y = l} (omega arith)
    ∙ ap (λ m. count_from m l) {x = n} {y = n + 0} (omega arith)
count_from-+ n (suc k) l =
    ap (λ m. count_from n m) {x = suc k + l} {y = suc (k + l)} (omega arith)
    ∙ ap (λ t. n ∷ t)
        (count_from-+ (n + 1) k l
          ∙ ap (λ m. count_from (n + 1) k ++ count_from m l) {x = n + 1 + k} {y = n + suc k}
              (omega arith))

module _ {Raw Bounds : Type 0} where
  -- The elements of a tree, each in front of those below it, by recursion.
  unfoldable mutual
    pub preorder : Element Raw Bounds → List (Attributes Raw Bounds)
    preorder (element a es) = a ∷ preorders es

    pub preorders : Elements Raw Bounds → List (Attributes Raw Bounds)
    preorders no_elements = []
    preorders (more_elements e es) = preorder e ++ preorders es

  -- What a stack still holds.
  unfoldable pub pending : List (Element Raw Bounds) → List (Attributes Raw Bounds)
  pending [] = []
  pending (e ∷ stack) = preorder e ++ pending stack

  pending-to_list :
      (es : Elements Raw Bounds) (stack : List (Element Raw Bounds))
      → pending (to_list es ++ stack) ≡ preorders es ++ pending stack
  unfolding pending preorders
  pending-to_list no_elements stack = refl
  pending-to_list (more_elements e es) stack =
      ap (λ l. preorder e ++ l) (pending-to_list es stack)
      ∙ sym (append_assoc (preorder e) (preorders es) (pending stack))

  walk_loop-pending :
      (fuel : ℕ) (stack : List (Element Raw Bounds))
      → length (pending stack) ≤ fuel
      → walk_loop fuel stack ≡ some (pending stack)
  unfolding walk_loop pending preorder
  walk_loop-pending fuel [] h = refl
  walk_loop-pending zero (element a es ∷ stack) h = absurd (omega arith)
  walk_loop-pending (suc fuel) (element a es ∷ stack) h =
      let below = pending-to_list es stack in
      rw (walk_loop-pending fuel (to_list es ++ stack) (rw below (omega arith)), walk_loop, below)

  abbrev pub order_of : Attributes Raw Bounds → ℕ
  order_of a = a.order

  -- Attributes that are numbered from `n` to `n'`.
  abbrev pub Numbered : List (Attributes Raw Bounds) → ℕ → ℕ → Type 0
  Numbered l n n' = (n' ≡ n + length l) × (map order_of l ≡ count_from n (length l))

  Numbered-append :
      (l r : List (Attributes Raw Bounds)) (n m n' : ℕ)
      → Numbered l n m
      → Numbered r m n'
      → Numbered (l ++ r) n n'
  Numbered-append l r n m n' (el, ml) (er, mr) = (
    omega (arith, length-append l r),
    map-append order_of l r
        ∙ ap (λ t. t ++ map order_of r) ml
        ∙ ap (λ t. count_from n (length l) ++ t) mr
        ∙ ap (λ t. count_from n (length l) ++ count_from t (length r)) el
        ∙ sym (count_from-+ n (length l) (length r))
        ∙ ap (λ t. count_from n t) (sym (length-append l r)),
  )

module _ {Raw Bounds : Type 0} (geometry : Geometry Raw Bounds) where
  assemble-some :
      (raw : Raw) (n : ℕ) (parsed : Option (Option Bounds))
      (below : Option (Elements Raw Bounds × ℕ)) (r : Element Raw Bounds × ℕ)
      → assemble geometry raw n parsed below ≡ some r
      → (a : Attributes Raw Bounds) × (es : Elements Raw Bounds) × (next : ℕ) × (a.order ≡ n)
        × (below ≡ some (es, next))
        × ((element a es, next) ≡ r)
  assemble-some raw n none below r e = absurd (cc e)
  assemble-some raw n (some bounds) none r e = absurd (cc e)
  assemble-some raw n (some bounds) (some (es, next)) r e = (
    record { node = raw; bounds = bounds; order = n; on_screen = false },
    es,
    next,
    refl,
    refl,
    cc,
  )

  append_child-some :
      (first : Option (Element Raw Bounds × ℕ)) (others : ℕ → Option (Elements Raw Bounds × ℕ))
      (r : Elements Raw Bounds × ℕ)
      → append_child geometry first others ≡ some r
      → (x : Element Raw Bounds) × (m : ℕ) × (es : Elements Raw Bounds) × (next : ℕ) × (first
          ≡ some (x, m))
        × (others m ≡ some (es, next))
        × ((more_elements x es, next) ≡ r)
  append_child-some none others r e = absurd (cc e)
  append_child-some (some (x, m)) others r e = elim (Option-cases (others m)) [
    | inl refused ↦ absurd (cc (rw refused at e))
    | inr ((es, next), made) ↦ (x, m, es, next, refl, made, cc (rw made at e))
  ]

  new_element-node :
      (raw : Raw) (nodes : Nodes Raw) (n : ℕ)
      → new_element geometry (tree_node raw nodes) n
        ≡ assemble geometry raw n (geometry.parse raw) (new_elements geometry nodes (n + 1))
  unfolding new_element
  new_element-node raw nodes n = refl

  new_elements-more :
      (node : TreeNode Raw) (nodes : Nodes Raw) (n : ℕ)
      → new_elements geometry (more_nodes node nodes) n
        ≡ append_child geometry (new_element geometry node n) (λ m. new_elements geometry nodes m)
  unfolding new_element
  new_elements-more node nodes n = refl

  new_elements-nil :
      (n : ℕ) (r : Elements Raw Bounds × ℕ)
      → new_elements geometry no_nodes n ≡ some r
      → (no_elements, n) ≡ r
  unfolding new_element
  new_elements-nil n r e = cc

  Numbered-element :
      (a : Attributes Raw Bounds) (es : Elements Raw Bounds) (n n' : ℕ)
      → a.order ≡ n
      → Numbered (preorders es) (n + 1) n'
      → Numbered (preorder (element a es)) n n'
  unfolding preorder count_from
  Numbered-element a es n n' number (e, m) =
      (omega arith, ap (λ t. t ∷ map order_of (preorders es)) number ∙ ap (λ t. n ∷ t) m)

  Numbered-elements :
      (x : Element Raw Bounds) (es : Elements Raw Bounds) (n m n' : ℕ)
      → Numbered (preorder x) n m
      → Numbered (preorders es) m n'
      → Numbered (preorders (more_elements x es)) n n'
  unfolding preorders
  Numbered-elements x es n m n' hx hs = Numbered-append (preorder x) (preorders es) n m n' hx hs

  Numbered-nil : (n : ℕ) → Numbered {Raw = Raw} {Bounds = Bounds} (preorders no_elements) n n
  unfolding preorders count_from
  Numbered-nil n = (omega arith, refl)

  mutual
    new_element-Numbered :
        (node : TreeNode Raw) (n : ℕ) (r : Element Raw Bounds × ℕ)
        → new_element geometry node n ≡ some r
        → Numbered (preorder (r.0)) n (r.1)
    new_element-Numbered (tree_node raw nodes) n r e =
        let (a, es, next, number, made, same) =
          assemble-some raw n (geometry.parse raw) (new_elements geometry nodes (n + 1)) r
            (sym (new_element-node raw nodes n) ∙ e) in
        subst (λ (t : Element Raw Bounds × ℕ). Numbered (preorder (t.0)) n (t.1)) same
          (Numbered-element a es n next number
            (new_elements-Numbered nodes (n + 1) (es, next) made))

    new_elements-Numbered :
        (nodes : Nodes Raw) (n : ℕ) (r : Elements Raw Bounds × ℕ)
        → new_elements geometry nodes n ≡ some r
        → Numbered (preorders (r.0)) n (r.1)
    new_elements-Numbered no_nodes n r e =
        subst (λ (t : Elements Raw Bounds × ℕ). Numbered (preorders (t.0)) n (t.1))
          (new_elements-nil n r e) (Numbered-nil n)
    new_elements-Numbered (more_nodes node nodes) n r e =
        let (x, m, es, next, made, made', same) =
          append_child-some (new_element geometry node n) (λ m. new_elements geometry nodes m) r
            (sym (new_elements-more node nodes n) ∙ e) in
        subst (λ (t : Elements Raw Bounds × ℕ). Numbered (preorders (t.0)) n (t.1)) same
          (Numbered-elements x es n m next (new_element-Numbered node n (x, m) made)
            (new_elements-Numbered nodes m (es, next) made'))

  new-Numbered :
      (root : TreeNode Raw) (e : Element Raw Bounds)
      → new geometry root ≡ some e
      → (next : ℕ) × Numbered (preorder e) 0 next
  unfolding new
  new-Numbered root e made = elim (Option-cases (new_element geometry root 0)) [
    | inl refused ↦ absurd (cc (rw (refused, new) at made))
    | inr (r, found) ↦
        let same : r.0 ≡ e = cc (rw (found, new) at made) in
        (r.1, subst (λ t. Numbered (preorder t) 0 (r.1)) same (new_element-Numbered root 0 r found))
  ]

  walk-preorder :
      (e : Element Raw Bounds) → walk_loop (length (preorder e)) (e ∷ []) ≡ some (preorder e)
  unfolding pending
  walk-preorder e =
      walk_loop-pending (length (preorder e)) (e ∷ []) (rw (append-nil (preorder e)) (omega arith))
      ∙ ap some (append-nil (preorder e))

  -- Where the tree is made, walking it on fuel that is the count of its elements visits every
  -- element, each in front of those below it, and the visited elements bear the numbers from 0 on.
  pub walk-new :
      (root : TreeNode Raw) (e : Element Raw Bounds)
      → new geometry root ≡ some e
      → (visited : List (Attributes Raw Bounds)) × (walk_loop (length (preorder e)) (e ∷ [])
          ≡ some visited)
        × (visited ≡ preorder e)
        × (map order_of visited ≡ count_from 0 (length visited))
  walk-new root e made =
      let (next, numbered) = new-Numbered root e made in
      (preorder e, walk-preorder e, refl, numbered.1)
