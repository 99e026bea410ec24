-- ===== src/Engine/Errors/Examples.antt =====
-- Small error graphs as internal/engine/errors.go classifies them.
use mathlib.Core.List.Perm
use flowbaton.Prelude.{
  Option, ℕ, ◌≤◌, ◌≡◌, refl, [], ◌∷◌, false, none, some, All, ◌==◌, if◌then◌else◌,
}
use flowbaton.Engine.Errors.{
  precedence, merge_aggregate, merge_branches, inspect_node, inspect, enter, malformed,
  normalize_terminal_error,
}
use flowbaton.Engine.Errors.Direct.{
  failure, ErrorType, configuration_error, assertion_error, other_error, Unwrap, leaf, causal,
  aggregate, ErrorNode, Graph, directly_matches, classify_direct,
}
use flowbaton.Engine.Errors.Inspect.{inspect_node-perm, inspect_dominates}
use flowbaton.Engine.Errors.Normalize.{normalize_endless, Normal, normalize-Normal}

abbrev node : ErrorType → Unwrap → ErrorNode
node type unwrap = record {
  typed_nil = false;
  identity = none;
  error_type = type;
  equals = λ target. false;
  matcher = none;
  caster = none;
  unwrap = unwrap;
}

-- 0 joins 1 and 2, 3 wraps itself.
abbrev graph : Graph
graph r =
    if r == 0
    then node other_error (aggregate (some 1 ∷ some 2 ∷ []))
    else if r == 1
    then node assertion_error leaf
    else if r == 2
    then node configuration_error leaf
    else node other_error (causal (some r))

abbrev asserted : Option ℕ
asserted = some 1

wraps_itself :
    (r : ℕ) → r ≡ 3 → (cause : ℕ) × ((graph r).unwrap ≡ causal (some cause)) × (cause ≡ 3)
wraps_itself r e = (3, rw e refl, refl)

normalize_endless_example : normalize_terminal_error graph (some 3) ≡ malformed
normalize_endless_example = normalize_endless graph (λ r. r ≡ 3) wraps_itself 3 refl

inspect_node-perm_example :
    inspect_node (inspect graph 5 []) (failure, false) (aggregate (some 1 ∷ some 2 ∷ []))
    ≡ inspect_node (inspect graph 5 []) (failure, false) (aggregate (some 2 ∷ some 1 ∷ []))
inspect_node-perm_example =
    inspect_node-perm (inspect graph 5 []) (failure, false) (some 1 ∷ some 2 ∷ [])
      (some 2 ∷ some 1 ∷ []) (Perm.swap (some 2) (some 1) [])

well_formed : (inspect graph 2 [] (some 0)).invalid ≡ false
unfolding inspect inspect_node classify_direct directly_matches merge_branches merge_aggregate
well_formed = refl

inspect_dominates_example :
    All
      (λ b.
        precedence (inspect graph 1 (enter (graph 0).identity []) b).class
        ≤ precedence (inspect graph 2 [] (some 0)).class)
      (some 1 ∷ some 2 ∷ [])
inspect_dominates_example = inspect_dominates graph 1 [] 0 (some 1 ∷ some 2 ∷ []) refl well_formed

normalize-Normal_example : Normal graph asserted
normalize-Normal_example = normalize-Normal graph asserted
