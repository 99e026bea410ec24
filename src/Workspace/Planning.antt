-- ===== src/Workspace/Planning.antt =====
-- `Discover` of internal/workspace/planner.go as a whole.
use Prim.Native.String.{String}
use mathlib.Core.List.{Perm}
use flowbaton.Prelude.{List, ◌≡◌, arith}
use flowbaton.Workspace.Select.{Candidate, WorkspaceConfig, Options, filter_by_tags}
use flowbaton.Workspace.Order.{ok, apply_order}
use flowbaton.Workspace.Discover.{Environment, Plan, collect_candidates, discover}
use flowbaton.Workspace.Permutation.{UniqueNames}
use flowbaton.Workspace.Ordering.{apply_order-perm}

discover_ok :
    (env : Environment) (roots : List String) (config : WorkspaceConfig) (config_path : String)
    (options : Options) (candidates : List Candidate) (plan : Plan)
    → collect_candidates env roots config config_path ≡ ok candidates
    → discover env roots config config_path options ≡ ok plan
    → apply_order (filter_by_tags candidates config options) config ≡ ok (plan.flows, plan.sequence)
unfolding discover
discover_ok env roots config config_path options candidates plan found e = ground arith

-- Where the candidates that are collected and pass the tags have different names, a plan that is
-- made holds exactly these flows, each once.
pub discover-perm :
    (env : Environment) (roots : List String) (config : WorkspaceConfig) (config_path : String)
    (options : Options) (candidates : List Candidate) (plan : Plan)
    → collect_candidates env roots config config_path ≡ ok candidates
    → UniqueNames (filter_by_tags candidates config options)
    → discover env roots config config_path options ≡ ok plan
    → Perm plan.flows (filter_by_tags candidates config options)
discover-perm env roots config config_path options candidates plan found unique e =
    apply_order-perm (filter_by_tags candidates config options) config plan.flows plan.sequence
      unique (discover_ok env roots config config_path options candidates plan found e)
