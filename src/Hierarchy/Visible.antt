-- ===== src/Hierarchy/Visible.antt =====
-- `FilterVisibleWithin` of internal/hierarchy/tree.go.
use flowbaton.Prelude.{◌≡◌, ◌∙◌, ap, sym, subst, refl, Bool, true, false, Option, none, some}
use flowbaton.Hierarchy.{
  Geometry, Attributes, Element, element, Elements, no_elements, more_elements, clip_to,
  is_on_screen, keep, push, filter_visible, filter_all,
}

module _ {Raw Bounds : Type 0} (geometry : Geometry Raw Bounds) where
  filter_visible-element :
      (a : Attributes Raw Bounds) (es : Elements Raw Bounds) (viewport : Bounds)
      → filter_visible geometry (element a es) viewport
        ≡ keep geometry a
            (is_on_screen geometry a.bounds viewport)
            (filter_all geometry es (clip_to geometry a viewport))
  unfolding filter_visible
  filter_visible-element a es viewport = refl

  filter_all-more :
      (e : Element Raw Bounds) (es : Elements Raw Bounds) (viewport : Bounds)
      → filter_all geometry (more_elements e es) viewport
        ≡ push geometry (filter_visible geometry e viewport) (filter_all geometry es viewport)
  unfolding filter_visible
  filter_all-more e es viewport = refl

  filter_all-none : (viewport : Bounds) → filter_all geometry no_elements viewport ≡ no_elements
  unfolding filter_visible
  filter_all-none viewport = refl

  -- What is kept of an element.
  keep-some :
      (a : Attributes Raw Bounds) (on : Bool) (es : Elements Raw Bounds) (e : Element Raw Bounds)
      → keep geometry a on es ≡ some e
      → element (record a { on_screen = on }) es ≡ e
  keep-some a true no_elements e k = cc
  keep-some a false no_elements e k = absurd (cc k)
  keep-some a on (more_elements x xs) e k = cc

  clip_to-on_screen :
      (a : Attributes Raw Bounds) (on : Bool) (viewport : Bounds)
      → clip_to geometry (record a { on_screen = on }) viewport ≡ clip_to geometry a viewport
  unfolding clip_to
  clip_to-on_screen a on viewport = refl

  keep_again :
      (a : Attributes Raw Bounds) (on : Bool) (es : Elements Raw Bounds)
      → keep geometry (record a { on_screen = on }) on es ≡ keep geometry a on es
  keep_again a on no_elements = refl
  keep_again a on (more_elements x xs) = refl

  -- Filtering what is kept keeps it.
  abbrev Settled : Option (Element Raw Bounds) → Bounds → Type 0
  Settled none viewport = Unit {0}
  Settled (some e) viewport = filter_visible geometry e viewport ≡ some e

  Settled-intro :
      (o : Option (Element Raw Bounds)) (viewport : Bounds)
      → ((e : Element Raw Bounds) → o ≡ some e → filter_visible geometry e viewport ≡ some e)
      → Settled o viewport
  Settled-intro none viewport h = tt
  Settled-intro (some e) viewport h = h e refl

  filtered_again :
      (a : Attributes Raw Bounds) (kept : Elements Raw Bounds) (viewport : Bounds)
      → filter_all geometry kept (clip_to geometry a viewport) ≡ kept
      → filter_visible geometry
          (element (record a { on_screen = is_on_screen geometry a.bounds viewport }) kept)
          viewport
        ≡ keep geometry a (is_on_screen geometry a.bounds viewport) kept
  filtered_again a kept viewport same =
      let on = is_on_screen geometry a.bounds viewport in
      filter_visible-element (record a { on_screen = on }) kept viewport
      ∙ ap (λ v. keep geometry (record a { on_screen = on }) on (filter_all geometry kept v))
          (clip_to-on_screen a on viewport)
      ∙ ap (λ es. keep geometry (record a { on_screen = on }) on es) same
      ∙ keep_again a on kept

  keep-Settled :
      (a : Attributes Raw Bounds) (kept : Elements Raw Bounds) (viewport : Bounds)
      → filter_all geometry kept (clip_to geometry a viewport) ≡ kept
      → Settled (keep geometry a (is_on_screen geometry a.bounds viewport) kept) viewport
  keep-Settled a kept viewport same =
      let on = is_on_screen geometry a.bounds viewport in
      Settled-intro (keep geometry a on kept) viewport (λ e made.
        subst (λ t. filter_visible geometry t viewport ≡ some e) (keep-some a on kept e made)
          (filtered_again a kept viewport same ∙ made))

  push-Settled :
      (first : Option (Element Raw Bounds)) (kept : Elements Raw Bounds) (viewport : Bounds)
      → Settled first viewport
      → filter_all geometry kept viewport ≡ kept
      → filter_all geometry (push geometry first kept) viewport ≡ push geometry first kept
  push-Settled none kept viewport settled same = same
  push-Settled (some e) kept viewport settled same =
      rw (filter_all-more e kept viewport, settled, same) refl

  mutual
    filter_visible-Settled :
        (e : Element Raw Bounds) (viewport : Bounds)
        → Settled (filter_visible geometry e viewport) viewport
    filter_visible-Settled (element a es) viewport =
        subst (λ o. Settled o viewport) (sym (filter_visible-element a es viewport))
          (keep-Settled a (filter_all geometry es (clip_to geometry a viewport)) viewport
            (filter_all-filter_all es (clip_to geometry a viewport)))

    filter_all-filter_all :
        (es : Elements Raw Bounds) (viewport : Bounds)
        → filter_all geometry (filter_all geometry es viewport) viewport
          ≡ filter_all geometry es viewport
    filter_all-filter_all no_elements viewport =
        rw (filter_all-none viewport) (filter_all-none viewport)
    filter_all-filter_all (more_elements e es) viewport = rw (filter_all-more e es viewport) (
        push-Settled (filter_visible geometry e viewport) (filter_all geometry es viewport) viewport
          (filter_visible-Settled e viewport) (filter_all-filter_all es viewport))

  -- Filtering a tree that has been filtered for the same viewport changes nothing, the marks of what
  -- is on screen included.
  pub filter_visible-filter_visible :
      (e kept : Element Raw Bounds) (viewport : Bounds)
      → filter_visible geometry e viewport ≡ some kept
      → filter_visible geometry kept viewport ≡ some kept
  filter_visible-filter_visible e kept viewport made =
      subst (λ o. Settled o viewport) made (filter_visible-Settled e viewport)
