-- ===== src/Workspace/Order.antt =====
-- internal/workspace/planner.go: `applyOrder`.
use Prim.Native.String.{String}
use text.Mathlib.Text.{◌==◌}
use flowbaton.Prelude.{List, [], ◌∷◌, ◌++◌, Option, none, some, if◌then◌else◌}
use flowbaton.Workspace.Select.{Flow, contains, WorkspaceConfig, is_empty}

-- What planning fails with. The last four are errors of the file system, of a flow that does not
-- parse and of a malformed glob.
pub data PlanError : Type 0 where
  no_roots no_flow_files no_tag_matches : PlanError
  unknown_flow named_twice : String → PlanError
  stat_failed walk_failed load_failed bad_glob : String → PlanError

-- Go's (value, error) pair.
pub data Result {κ} (V : Type κ) : Type κ where
  err : PlanError → Result V
  ok : V → Result V

infixl 5 ◌>>=◌
abbrev pub ◌>>=◌ {κ μ} : {V : Type κ} {W : Type μ} → Result V → (V → Result W) → Result W
err problem >>= next = err problem
ok value >>= next = next value

-- `byName[name]`: the map is filled in order, so the last flow of a name is the one that stays.
unfoldable pub by_name : String → List Flow → Option Flow
by_name name [] = none
by_name name (item ∷ items) = elim (by_name name items) [
  | some later ↦ some later
  | none ↦ if item.name == name then some item else none
]

-- The loop over `flowsOrder`: the sequence and the names taken, on top of those so far.
unfoldable pub sequence_loop :
    List Flow → List String → List String → List Flow → Result (List Flow × List String)
sequence_loop selected [] taken sequence = ok (sequence, taken)
sequence_loop selected (name ∷ names) taken sequence = elim (by_name name selected) [
  | none ↦ err (unknown_flow name)
  | some item ↦
      let more = sequence_loop selected names (name ∷ taken) (sequence ++ (item ∷ [])) in
      if contains taken name then err (named_twice name) else more
]

-- `for _, item := range selected { if !taken[item.Name] { … } }`
unfoldable pub not_taken : List String → List Flow → List Flow
not_taken taken [] = []
not_taken taken (item ∷ items) =
    let rest = not_taken taken items in if contains taken item.name then rest else item ∷ rest

-- The ordered flows, and the sequence in front of them.
unfoldable pub apply_flows_order : List Flow → List String → Result (List Flow × List Flow)
apply_flows_order selected names = do
  (sequence, taken) ← sequence_loop selected names [] []
  ok (sequence ++ not_taken taken selected, sequence)

unfoldable pub apply_order : List Flow → WorkspaceConfig → Result (List Flow × List Flow)
apply_order selected config = elim config.execution_order [
  | none ↦ ok (selected, [])
  | some order ↦
      if is_empty order.flows_order
      then ok (selected, [])
      else apply_flows_order selected order.flows_order
]
