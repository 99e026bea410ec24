-- ===== src/Workspace/Select.antt =====
-- internal/workspace/planner.go: flows, candidates and the tag filters.
use Prim.Native.String.{String}
use text.Mathlib.Text.{◌==◌}
use flowbaton.Prelude.{
  List, [], ◌∷◌, ◌++◌, Bool, true, false, not, ◌&&◌, ◌||◌, Option, if◌then◌else◌,
}

pub record Flow : Type 0 where
  pub path : String
  pub name : String
  pub tags : List String

-- A flow that the operator named as a file is explicit.
pub record Candidate : Type 0 where
  pub flow : Flow
  pub explicit : Bool

pub record ExecutionOrder : Type 0 where
  pub continue_on_failure : Bool
  pub flows_order : List String

-- The fields of the workspace configuration that planning reads.
pub record WorkspaceConfig : Type 0 where
  pub flows : List String
  pub include_tags : List String
  pub exclude_tags : List String
  pub execution_order : Option ExecutionOrder

pub record Options : Type 0 where
  pub include_tags : List String
  pub exclude_tags : List String

-- `slices.Contains`
unfoldable pub contains : List String → String → Bool
contains [] s = false
contains (x ∷ xs) s = x == s || contains xs s

unfoldable pub has_any_tag : List String → List String → Bool
has_any_tag [] wanted = false
has_any_tag (tag ∷ tags) wanted = contains wanted tag || has_any_tag tags wanted

abbrev pub is_empty {ℓ} : {A : Type ℓ} → List A → Bool
is_empty [] = true
is_empty (x ∷ xs) = false

-- The three tests of the loop: an explicit candidate stays, one that the include tags miss or an
-- exclude tag hits goes.
unfoldable pub is_selected : List String → List String → Candidate → Bool
is_selected include exclude item =
    if item.explicit
    then true
    else if not (is_empty include) && not (has_any_tag item.flow.tags include)
    then false
    else not (has_any_tag item.flow.tags exclude)

unfoldable pub keep_selected : List String → List String → List Candidate → List Flow
keep_selected include exclude [] = []
keep_selected include exclude (item ∷ items) =
    let rest = keep_selected include exclude items in
    if is_selected include exclude item then item.flow ∷ rest else rest

unfoldable pub filter_by_tags : List Candidate → WorkspaceConfig → Options → List Flow
filter_by_tags candidates config options =
    keep_selected (config.include_tags ++ options.include_tags)
      (config.exclude_tags ++ options.exclude_tags) candidates
