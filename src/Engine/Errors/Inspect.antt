-- ===== src/Engine/Errors/Inspect.antt =====
-- `inspect` of internal/engine/errors.go on any graph, cyclic ones too.
use mathlib.Core.List.{Perm}
use flowbaton.Prelude.{
  ℕ, zero, suc, ◌≤◌, ◌≡◌, ◌≢◌, ◌∙◌, subst, refl, sym, ap, List, [], ◌∷◌, Bool, true, false, ◌||◌,
  Option, none, some, All, arith,
}
use flowbaton.Engine.Errors.{
  precedence, merge_branches, merge_causal, inspect_node, inspect, merge_aggregate, enter,
}
use flowbaton.Engine.Errors.Direct.{
  TerminalClass, nothing, Classification, Graph, Unwrap, leaf, causal, aggregate, causal_panics,
  aggregate_panics, classify_direct,
}
use flowbaton.Engine.Errors.Merge.{true≢false, merge_branches-perm, merge_branches_dominates}

-- An inspection that gives every error some class.
abbrev Names : (Option ℕ → Classification) → Type 0
Names inspect = (r : ℕ) → (inspect (some r)).class ≢ nothing

merge_branches-ne-nothing :
    (look : Option ℕ → Classification) (class : TerminalClass) (aggregates : Bool)
    (bs : List (Option ℕ))
    → (merge_branches look class aggregates bs).class ≢ nothing
unfolding merge_branches
merge_branches-ne-nothing look class aggregates [] = ground arith
merge_branches-ne-nothing look class aggregates (b ∷ bs) = ground (
  arith,
  merge_branches-ne-nothing look (merge_aggregate class (look b).class)
      (aggregates || (look b).contains_aggregate) bs,
)

merge_causal-ne-nothing :
    (direct : TerminalClass) (cause : Classification)
    → cause.class ≢ nothing
    → (merge_causal direct cause).class ≢ nothing
unfolding merge_causal
merge_causal-ne-nothing direct cause h = ground arith

inspect_node-ne-nothing :
    (look : Option ℕ → Classification) (direct : TerminalClass × Bool) (unwrap : Unwrap)
    → Names look
    → (inspect_node look direct unwrap).class ≢ nothing
unfolding inspect_node
inspect_node-ne-nothing look (direct, true) unwrap h = ground arith
inspect_node-ne-nothing look (direct, false) leaf h = ground arith
inspect_node-ne-nothing look (direct, false) causal_panics h = ground arith
inspect_node-ne-nothing look (direct, false) aggregate_panics h = ground arith
inspect_node-ne-nothing look (direct, false) (causal none) h = ground arith
inspect_node-ne-nothing look (direct, false) (causal (some cause)) h =
    merge_causal-ne-nothing direct (look (some cause)) (h cause)
inspect_node-ne-nothing look (direct, false) (aggregate bs) h =
    merge_branches-ne-nothing look direct true bs

-- An error that is not nil always gets a class.
pub inspect-ne-nothing :
    (graph : Graph) (levels : ℕ) (active : List ℕ) → Names (inspect graph levels active)
unfolding inspect
inspect-ne-nothing graph zero active r = ground arith
inspect-ne-nothing graph (suc levels) active r =
    let node = graph r in
    let look = inspect graph levels (enter node.identity active) in
    ground (
      arith,
      inspect_node-ne-nothing look (classify_direct node) node.unwrap
          (inspect-ne-nothing graph levels (enter node.identity active)),
    )

inspect_node-invalid :
    (look : Option ℕ → Classification) (direct : TerminalClass × Bool) (cause : ℕ)
    → (look (some cause)).invalid ≡ true
    → (inspect_node look direct (causal (some cause))).invalid ≡ true
unfolding inspect_node merge_causal
inspect_node-invalid look (direct, true) cause h = refl
inspect_node-invalid look (direct, false) cause h = ground arith

-- A chain of causes that never ends, a cycle for one, is malformed wherever it is entered.
pub inspect_endless :
    (graph : Graph) (P : ℕ → Type 0)
    → ((r : ℕ) → P r → (cause : ℕ) × ((graph r).unwrap ≡ causal (some cause)) × P cause)
    → (levels : ℕ) (active : List ℕ) (r : ℕ) → P r
    → (inspect graph levels active (some r)).invalid ≡ true
unfolding inspect
inspect_endless graph P onward zero active r h = refl
inspect_endless graph P onward (suc levels) active r h =
    let node = graph r in
    let look = inspect graph levels (enter node.identity active) in
    let (cause, below, h') = onward r h in
    ground (
      arith,
      inspect_node-invalid look (classify_direct node) cause
          (inspect_endless graph P onward levels (enter node.identity active) cause h'),
    )

-- The order in which an aggregate lists its branches does not change what it is classified as.
pub inspect_node-perm :
    (look : Option ℕ → Classification) (direct : TerminalClass × Bool) (bs bs' : List (Option ℕ))
    → Perm bs bs'
    → inspect_node look direct (aggregate bs) ≡ inspect_node look direct (aggregate bs')
unfolding inspect_node
inspect_node-perm look (direct, true) bs bs' p = refl
inspect_node-perm look (direct, false) bs bs' p = merge_branches-perm look direct true bs bs' p

inspect_node-dominates :
    (look : Option ℕ → Classification) (direct : TerminalClass × Bool) (bs : List (Option ℕ))
    → (inspect_node look direct (aggregate bs)).invalid ≡ false
    → All
        (λ b.
          precedence (look b).class ≤ precedence (inspect_node look direct (aggregate bs)).class)
        bs
unfolding inspect_node
inspect_node-dominates look (direct, true) bs valid = absurd (true≢false valid)
inspect_node-dominates look (direct, false) bs valid =
    (merge_branches_dominates look direct true bs _ refl valid).1

inspect_aggregate :
    (graph : Graph) (levels : ℕ) (active : List ℕ) (r : ℕ) (bs : List (Option ℕ))
    → (graph r).unwrap ≡ aggregate bs
    → (inspect graph (suc levels) active (some r)).invalid ≡ false
    → inspect graph (suc levels) active (some r)
      ≡ inspect_node
          (inspect graph levels (enter (graph r).identity active))
          (classify_direct (graph r))
          (aggregate bs)
unfolding inspect
inspect_aggregate graph levels active r bs e valid = ground arith

-- No branch of a well-formed aggregate ranks above the aggregate.
pub inspect_dominates :
    (graph : Graph) (levels : ℕ) (active : List ℕ) (r : ℕ) (bs : List (Option ℕ))
    → (graph r).unwrap ≡ aggregate bs
    → (inspect graph (suc levels) active (some r)).invalid ≡ false
    → All
        (λ b.
          precedence (inspect graph levels (enter (graph r).identity active) b).class
          ≤ precedence (inspect graph (suc levels) active (some r)).class)
        bs
inspect_dominates graph levels active r bs e valid =
    let same = inspect_aggregate graph levels active r bs e valid in
    let look = inspect graph levels (enter (graph r).identity active) in
    subst (λ c. All (λ b. precedence (look b).class ≤ precedence c.class) bs) (sym same)
      (inspect_node-dominates look (classify_direct (graph r)) bs
        (ap (λ c. c.invalid) (sym same) ∙ valid))
