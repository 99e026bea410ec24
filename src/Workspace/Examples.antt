-- ===== src/Workspace/Examples.antt =====
-- Selections of flows as internal/workspace/planner.go orders and filters them.
use Prim.Native.String.{String}
use mathlib.Core.List.{Perm, Sublistᴰ}
use flowbaton.Prelude.{◌≡◌, ◌≢◌, refl, List, [], ◌∷◌, ◌++◌, map, true, false, none, some}
use flowbaton.Workspace.Select.{
  Flow, Candidate, WorkspaceConfig, Options, contains, is_selected, keep_selected, filter_by_tags,
}
use flowbaton.Workspace.Order.{
  ok, by_name, sequence_loop, not_taken, apply_flows_order, apply_order,
}
use flowbaton.Workspace.Discover.{
  Environment, Plan, file, collect_roots, collect_candidates, discover,
}
use flowbaton.Workspace.Narrowing.{Widened, explicit_flows, filter_by_tags-Sublist}
use flowbaton.Workspace.Permutation.{flow_name, UniqueNames}
use flowbaton.Workspace.Ordering.{
  ordered_names, unlisted, named, apply_order-perm, apply_order_follows, apply_order_keeps_one,
}
use flowbaton.Workspace.Planning.{discover-perm}

abbrev flow : String → String → Flow
flow path name = record { path = path; name = name; tags = [] }

abbrev login : Flow
login = flow "login.yaml" "login"

abbrev logout : Flow
logout = flow "logout.yaml" "logout"

-- A second flow that is called login.
abbrev other_login : Flow
other_login = flow "sub/login.yaml" "login"

abbrev config : WorkspaceConfig
config = record {
  flows = [];
  include_tags = "smoke" ∷ [];
  exclude_tags = [];
  execution_order = some (record { continue_on_failure = false; flows_order = "logout" ∷ [] });
}

abbrev login_first : WorkspaceConfig
login_first = record config {
  execution_order = some (record { continue_on_failure = false; flows_order = "login" ∷ [] });
}

ordered : apply_order (login ∷ logout ∷ []) config ≡ ok (logout ∷ login ∷ [], logout ∷ [])
unfolding apply_order apply_flows_order sequence_loop by_name not_taken contains
ordered = refl

unique_two : by_name "login" (logout ∷ []) ≡ none
unfolding by_name
unique_two = refl

unique_one : by_name "logout" [] ≡ none
unfolding by_name
unique_one = refl

apply_order-perm_example : Perm (logout ∷ login ∷ []) (login ∷ logout ∷ [])
apply_order-perm_example =
    apply_order-perm (login ∷ logout ∷ []) config (logout ∷ login ∷ []) (logout ∷ [])
      (unique_two, (unique_one, tt)) ordered

apply_order_follows_example :
    (map flow_name (logout ∷ []) ≡ ordered_names config)
    × (logout ∷ login ∷ [] ≡ (logout ∷ []) ++ unlisted (ordered_names config) (login ∷ logout ∷ []))
apply_order_follows_example =
    apply_order_follows (login ∷ logout ∷ []) config (logout ∷ login ∷ []) (logout ∷ []) ordered

-- Of the two flows that are called login, the plan drops the first.
dropped :
    apply_order (login ∷ logout ∷ other_login ∷ []) login_first
    ≡ ok (other_login ∷ logout ∷ [], other_login ∷ [])
unfolding apply_order apply_flows_order sequence_loop by_name not_taken contains
dropped = refl

login_ordered : contains (ordered_names login_first) "login" ≡ true
unfolding contains ordered_names
login_ordered = refl

apply_order_keeps_one_example : named "login" (other_login ∷ logout ∷ []) ≡ 1
apply_order_keeps_one_example =
    apply_order_keeps_one (login ∷ logout ∷ other_login ∷ []) login_first
      (other_login ∷ logout ∷ []) (other_login ∷ []) "login" dropped login_ordered

abbrev tagged : String → Candidate
tagged tag = record { flow = record { path = tag; name = tag; tags = tag ∷ [] }; explicit = false }

some_tag : config.include_tags ≢ []
some_tag e = cc

-- Every path is a file that holds a flow of its own name.
abbrev files : Environment
files = record {
  stat = λ path. file;
  walk = λ path. [];
  load = λ path. some (flow path path);
  matches = λ glob path. some true;
  sort = λ found. found;
}

abbrev roots : List String
roots = "login" ∷ "logout" ∷ []

abbrev named_file : String → Candidate
named_file path = record { flow = flow path path; explicit = true }

abbrev options : Options
options = record { include_tags = []; exclude_tags = [] }

collected :
    collect_candidates files roots config "" ≡ ok (named_file "login" ∷ named_file "logout" ∷ [])
unfolding collect_candidates collect_roots
collected = refl

abbrev whole_plan : Plan
whole_plan = record {
  config = config;
  flows = flow "logout" "logout" ∷ flow "login" "login" ∷ [];
  sequence = flow "logout" "logout" ∷ [];
  continue_on_failure = false;
}

planned : discover files roots config "" options ≡ ok whole_plan
unfolding discover collect_candidates collect_roots filter_by_tags keep_selected is_selected
    apply_order apply_flows_order sequence_loop by_name not_taken contains
planned = refl

different :
    UniqueNames (filter_by_tags (named_file "login" ∷ named_file "logout" ∷ []) config options)
unfolding filter_by_tags keep_selected is_selected by_name
different = (refl, (refl, tt))

discover-perm_example :
    Perm whole_plan.flows
      (filter_by_tags (named_file "login" ∷ named_file "logout" ∷ []) config options)
discover-perm_example =
    discover-perm files roots config "" options (named_file "login" ∷ named_file "logout" ∷ [])
      whole_plan collected different planned

abbrev mixed : List Candidate
mixed = tagged "smoke" ∷ record (tagged "slow") { explicit = true } ∷ []

filter_by_tags_example :
    Widened config.include_tags
      (filter_by_tags mixed config (record { include_tags = []; exclude_tags = "slow" ∷ [] }))
      (filter_by_tags mixed config
        (record { include_tags = "slow" ∷ []; exclude_tags = "slow" ∷ [] }))
    × Sublistᴰ
        (filter_by_tags mixed config
          (record { include_tags = "slow" ∷ []; exclude_tags = "slow" ∷ [] }))
        (filter_by_tags mixed config (record { include_tags = "slow" ∷ []; exclude_tags = [] }))
    × Sublistᴰ (explicit_flows mixed) (
        filter_by_tags mixed config
          (record { include_tags = "slow" ∷ []; exclude_tags = "slow" ∷ [] }))
filter_by_tags_example = filter_by_tags-Sublist mixed config ("slow" ∷ []) ("slow" ∷ [])
