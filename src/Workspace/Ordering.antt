-- ===== src/Workspace/Ordering.antt =====
-- What `applyOrder` of internal/workspace/planner.go returns: the sequence, and the flows behind it.
use Prim.Native.String.{String}
use mathlib.Core.List.{Perm}
use text.Mathlib.Text.{◌==◌}
use text.Mathlib.TextEquality.{eq_iff}
use flowbaton.Prelude.{
  ℕ, ◌+◌, List, [], ◌∷◌, ◌++◌, map, true, false, ◌||◌, none, some, Option-cases, ◌≡◌, ◌∙◌, ap, sym,
  subst, refl, inl, inr, Bool-cases, arith, if◌then◌else◌,
}
use flowbaton.Workspace.Select.{Flow, contains, WorkspaceConfig, is_empty}
use flowbaton.Workspace.Order.{
  Result, ok, err, sequence_loop, not_taken, apply_flows_order, apply_order,
}
use flowbaton.Workspace.Permutation.{
  flow_name, UniqueNames, pair_eq, taken_eq, sequence_loop_step, by_name-name, sequence_loop-names,
  sequence_loop-perm, not_taken_all,
}

-- Order keeps what the loop gave and puts the rest behind it.
apply_flows_order_ok :
    (selected : List Flow) (names : List String) (ordered sequence : List Flow)
    → apply_flows_order selected names ≡ ok (ordered, sequence)
    → (taken : List String) × (sequence_loop selected names [] [] ≡ ok (sequence, taken))
      × (ordered ≡ sequence ++ not_taken taken selected)
unfolding apply_flows_order
apply_flows_order_ok selected names ordered sequence e =
    go (sequence_loop selected names [] []) refl
  where
    go :
        (r : Result (List Flow × List String))
        → sequence_loop selected names [] [] ≡ r
        → (taken : List String) × (sequence_loop selected names [] [] ≡ ok (sequence, taken))
          × (ordered ≡ sequence ++ not_taken taken selected)
    go (err x) run = absurd (cc (rw run at e))
    go (ok (s, t)) run =
        let same : ok (s ++ not_taken t selected, s) ≡ ok (ordered, sequence) = rw run at e in
        let sequences : s ≡ sequence = cc same in
        let all : s ++ not_taken t selected ≡ ordered = cc same in
        (
          t,
          run ∙ ap (λ l. ok (l, t)) sequences,
          sym all ∙ ap (λ l. l ++ not_taken t selected) sequences,
        )

-- The authored order of a configuration.
unfoldable pub ordered_names : WorkspaceConfig → List String
ordered_names config = elim config.execution_order [ none ↦ [] | some order ↦ order.flows_order ]

abbrev plan : List Flow → List Flow → Result (List Flow × List Flow)
plan ordered sequence = ok (ordered, sequence)

abbrev Planned : List Flow → List String → List Flow → List Flow → Type 0
Planned selected names ordered sequence =
    (taken : List String) × (sequence_loop selected names [] [] ≡ ok (sequence, taken))
    × (ordered ≡ sequence ++ not_taken taken selected)

unordered :
    (selected ordered sequence : List Flow)
    → plan selected [] ≡ plan ordered sequence
    → Planned selected [] ordered sequence
unordered selected ordered sequence h =
    let none_ordered : [] ≡ sequence = cc h in
    let all : selected ≡ ordered = cc h in
    (
      [],
      unfold sequence_loop in ap (λ l. ok (l, [])) none_ordered,
      sym all ∙ sym (not_taken_all selected) ∙ ap (λ l. l ++ not_taken [] selected) none_ordered,
    )

authored :
    (selected : List Flow) (names : List String) (ordered sequence : List Flow)
    → (if is_empty names then plan selected [] else apply_flows_order selected names)
      ≡ plan ordered sequence
    → Planned selected names ordered sequence
authored selected [] ordered sequence h = unordered selected ordered sequence h
authored selected (name ∷ names) ordered sequence h =
    apply_flows_order_ok selected (name ∷ names) ordered sequence h

-- What an order that is empty or absent gives is what the loop gives on no names.
apply_order_ok :
    (selected : List Flow) (config : WorkspaceConfig) (ordered sequence : List Flow)
    → apply_order selected config ≡ ok (ordered, sequence)
    → Planned selected (ordered_names config) ordered sequence
unfolding apply_order ordered_names
apply_order_ok selected config ordered sequence e = elim (Option-cases config.execution_order) [
  | inl absent ↦ rw absent (unordered selected ordered sequence (rw absent at e))
  | inr (order, present) ↦
      rw present (authored selected order.flows_order ordered sequence (rw present at e))
]

-- Where no two selected flows share a name and ordering succeeds, the plan holds every selected
-- flow exactly once: it is a rearrangement of the selection.
pub apply_order-perm :
    (selected : List Flow) (config : WorkspaceConfig) (ordered sequence : List Flow)
    → UniqueNames selected
    → apply_order selected config ≡ ok (ordered, sequence)
    → Perm ordered selected
apply_order-perm selected config ordered sequence unique e =
    let (taken, run, all) = apply_order_ok selected config ordered sequence e in
    rw all (
      subst (λ l. Perm (sequence ++ not_taken taken selected) l) (not_taken_all selected)
        (sequence_loop-perm selected (ordered_names config) [] [] (sequence, taken) unique run))

-- The flows whose name is not in a list, in order.
abbrev pub unlisted : List String → List Flow → List Flow
unlisted names [] = []
unlisted names (item ∷ items) =
    if contains names item.name then unlisted names items else item ∷ unlisted names items

-- The loop takes the names that it has taken before and those that it is given.
sequence_loop-taken :
    (selected : List Flow) (names taken : List String) (sequence : List Flow)
    (r : List Flow × List String) (name : String)
    → sequence_loop selected names taken sequence ≡ ok r
    → contains (r.1) name ≡ (contains taken name || contains names name)
sequence_loop-taken selected [] taken sequence r name e =
    let same : ok (sequence, taken) ≡ ok r = unfold sequence_loop in e in
    let t_eq = taken_eq sequence taken r same in rw⁻¹ t_eq (unfold contains in ground arith)
sequence_loop-taken selected (n ∷ names) taken sequence r name e =
    let (item, found, new, more) = sequence_loop_step selected n names taken sequence r e in
    sequence_loop-taken selected names (n ∷ taken) (sequence ++ (item ∷ [])) r name more
    ∙ unfold contains in ground arith

not_taken-unlisted :
    (taken names : List String)
    → ((name : String) → contains taken name ≡ contains names name)
    → (items : List Flow) → not_taken taken items ≡ unlisted names items
unfolding not_taken
not_taken-unlisted taken names same [] = refl
not_taken-unlisted taken names same (item ∷ items) =
    rw (same item.name, not_taken-unlisted taken names same items) refl

-- Where ordering succeeds, the sequence is the authored order, name by name, and the plan is the
-- sequence with the selected flows behind it whose name the order does not have, in their order.
pub apply_order_follows :
    (selected : List Flow) (config : WorkspaceConfig) (ordered sequence : List Flow)
    → apply_order selected config ≡ ok (ordered, sequence)
    → (map flow_name sequence ≡ ordered_names config)
      × (ordered ≡ sequence ++ unlisted (ordered_names config) selected)
apply_order_follows selected config ordered sequence e =
    let (taken, run, all) = apply_order_ok selected config ordered sequence e in
    (
      sequence_loop-names selected (ordered_names config) [] [] (sequence, taken) run,
      all
          ∙ ap (λ rest. sequence ++ rest)
              (not_taken-unlisted taken (ordered_names config)
                (λ name.
                  sequence_loop-taken selected (ordered_names config) [] [] (sequence, taken) name
                    run
                  ∙ unfold contains in refl)
                selected),
    )

-- How many flows have a name.
unfoldable pub named : String → List Flow → ℕ
named name [] = 0
named name (item ∷ items) = (if item.name == name then 1 else 0) + named name items

named-append :
    (name : String) (xs ys : List Flow) → named name (xs ++ ys) ≡ named name xs + named name ys
unfolding named
named-append name [] ys = omega arith
named-append name (x ∷ xs) ys = omega (arith, named-append name xs ys)

-- No flow with a taken name is left.
named-not_taken :
    (name : String) (taken : List String) (items : List Flow)
    → contains taken name ≡ true
    → named name (not_taken taken items) ≡ 0
unfolding named not_taken
named-not_taken name taken [] h = refl
named-not_taken name taken (item ∷ items) h =
    ground (arith, named-not_taken name taken items h, eq_iff item.name name)

-- The loop takes each name once.
sequence_loop-named :
    (selected : List Flow) (names taken : List String) (sequence : List Flow)
    (r : List Flow × List String) (name : String)
    → sequence_loop selected names taken sequence ≡ ok r
    → (contains taken name ≡ true
        → (contains (r.1) name ≡ true) × (named name (r.0) ≡ named name sequence))
      × (contains taken name ≡ false
          → contains names name ≡ true
          → (contains (r.1) name ≡ true) × (named name (r.0) ≡ 1 + named name sequence))
sequence_loop-named selected [] taken sequence r name e =
    let same : ok (sequence, taken) ≡ ok r = unfold sequence_loop in e in
    let s_eq = pair_eq sequence taken r same in
    let t_eq = taken_eq sequence taken r same in
    ((λ h. (rw⁻¹ t_eq h, rw⁻¹ s_eq refl)), (λ h m. absurd (unfold contains in cc m)))
sequence_loop-named selected (n ∷ names) taken sequence r name e =
    let (item, found, new, more) = sequence_loop_step selected n names taken sequence r e in
    let (before, after) =
      sequence_loop-named selected names (n ∷ taken) (sequence ++ (item ∷ [])) r name more in
    let one = named-append name sequence (item ∷ []) in
    let called = by_name-name n selected item found in
    (
      (λ h.
          let (in_taken, count) = before (unfold contains in ground arith) in
          (in_taken, count ∙ one ∙ unfold named in ground (arith, eq_iff item.name name))),
      (λ out asked. elim (Bool-cases (n == name)) [
        | inl this ↦
            let (in_taken, count) = before (unfold contains in ground arith) in
            (
              in_taken,
              count ∙ one ∙ unfold named in ground (arith, eq_iff n name, eq_iff item.name name),
            )
        | inr other ↦
            let (in_taken, count) =
              after (unfold contains in ground arith) (unfold contains in ground arith) in
            (
              in_taken,
              count ∙ unfold named in ground (arith, one, eq_iff n name, eq_iff item.name name),
            )
      ]),
    )

-- Where ordering succeeds, every name of the authored order has exactly one flow in the plan,
-- however many selected flows share it: the others are gone without an error.
pub apply_order_keeps_one :
    (selected : List Flow) (config : WorkspaceConfig) (ordered sequence : List Flow) (name : String)
    → apply_order selected config ≡ ok (ordered, sequence)
    → contains (ordered_names config) name ≡ true
    → named name ordered ≡ 1
apply_order_keeps_one selected config ordered sequence name e asked =
    let (taken, run, all) = apply_order_ok selected config ordered sequence e in
    let (in_taken, count) =
      (sequence_loop-named selected (ordered_names config) [] [] (sequence, taken) name run).1
        (unfold contains in refl) asked in
    rw
      (
        all,
        named-append name sequence (not_taken taken selected),
        named-not_taken name taken selected in_taken,
        count,
      )
      (unfold named in omega arith)
