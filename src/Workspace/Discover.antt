-- ===== src/Workspace/Discover.antt =====
-- internal/workspace/planner.go: collecting candidates and the whole of `Discover` behind the
-- configuration. The file system, the flow parser and `path.Match` are a parameter.
use Prim.Native.String.{String}
use text.Mathlib.Text.{◌==◌}
use flowbaton.Prelude.{
  List, [], ◌∷◌, ◌++◌, Bool, true, false, not, ◌||◌, Option, none, some, if◌then◌else◌,
}
use flowbaton.Workspace.Select.{
  Flow, Candidate, WorkspaceConfig, Options, contains, is_empty, filter_by_tags,
}
use flowbaton.Workspace.Order.{
  Result, ok, err, ◌>>=◌, no_roots, no_flow_files, no_tag_matches, stat_failed, walk_failed,
  load_failed, bad_glob, apply_order,
}

-- One entry of a directory walk: its path, its base name with the extension, its extension, and its
-- path below the root with slashes, with and without the extension.
pub record Entry : Type 0 where
  pub path : String
  pub base : String
  pub extension : String
  pub relative : String
  pub stem : String
  pub is_dir : Bool

pub data Root : Type 0 where
  missing file directory : Root

-- What the planner asks of its environment.
pub record Environment : Type 0 where
  pub stat : String → Root
  -- `filepath.WalkDir`, `none` for an entry that it cannot read.
  pub walk : String → List (Option Entry)
  -- `loadFlow`
  pub load : String → Option Flow
  -- `path.Match`, `none` for a malformed pattern.
  pub matches : String → String → Option Bool
  -- `sort.Slice` by the path.
  pub sort : List Candidate → List Candidate

abbrev pub default_flow_glob : String
default_flow_glob = "*"

abbrev flow_extensions : List String
flow_extensions = ".yaml" ∷ ".yml" ∷ []

abbrev config_file_names : List String
config_file_names = "config.yaml" ∷ "config.yml" ∷ []

pub record Plan : Type 0 where
  pub config : WorkspaceConfig
  pub flows : List Flow
  pub sequence : List Flow
  pub continue_on_failure : Bool

module _ (env : Environment) where
  -- Each glob is tried with the extension and without it.
  unfoldable pub matches_any_glob : Entry → List String → Result Bool
  matches_any_glob entry [] = ok false
  matches_any_glob entry (glob ∷ globs) = elim (env.matches glob entry.relative) [
    | none ↦ err (bad_glob glob)
    | some whole ↦
        let more = matches_any_glob entry globs in
        let bare : Result Bool = elim (env.matches glob entry.stem) [
          | none ↦ err (bad_glob glob)
          | some matched ↦ if matched then ok true else more
        ] in
        if whole then ok true else bare
  ]

  -- The callback of the walk on one entry, with what was collected.
  unfoldable pub visit_entry :
      String → List String → Entry → List Candidate → Result (List Candidate)
  visit_entry config_path globs entry found =
      if entry.is_dir || not (contains flow_extensions entry.extension)
      then ok found
      else if entry.path == config_path || contains config_file_names entry.base
      then ok found
      else do
        matched ← matches_any_glob entry globs
        if not matched then ok found else elim (env.load entry.path) [
          | none ↦ err (load_failed entry.path)
          | some flow ↦ ok (found ++ (record { flow = flow; explicit = false } ∷ []))
        ]

  unfoldable pub walk_entries :
      String → String → List String → List (Option Entry) → List Candidate → Result (List Candidate)
  walk_entries root config_path globs [] found = ok found
  walk_entries root config_path globs (none ∷ entries) found = err (walk_failed root)
  walk_entries root config_path globs (some entry ∷ entries) found = do
    found' ← visit_entry config_path globs entry found
    walk_entries root config_path globs entries found'

  unfoldable pub walk_directory : String → WorkspaceConfig → String → Result (List Candidate)
  walk_directory root config config_path = do
    let globs = if is_empty config.flows then default_flow_glob ∷ [] else config.flows
    found ← walk_entries root config_path globs (env.walk root) []
    ok (env.sort found)

  unfoldable pub collect_roots :
      List String → WorkspaceConfig → String → List Candidate → Result (List Candidate)
  collect_roots [] config config_path found = ok found
  collect_roots (root ∷ roots) config config_path found = elim (env.stat root) [
    | missing ↦ err (stat_failed root)
    | file ↦ elim (env.load root) [
      | none ↦ err (load_failed root)
      | some flow ↦
          collect_roots roots config config_path
            (found ++ (record { flow = flow; explicit = true } ∷ []))
    ]
    | directory ↦
        walk_directory root config config_path
        >>= (λ walked. collect_roots roots config config_path (found ++ walked))
  ]

  unfoldable pub collect_candidates :
      List String → WorkspaceConfig → String → Result (List Candidate)
  collect_candidates roots config config_path = do
    found ← collect_roots roots config config_path []
    if is_empty found then err no_flow_files else ok found

  abbrev pub continues : WorkspaceConfig → Bool
  continues config = elim config.execution_order [
    | none ↦ false
    | some order ↦ order.continue_on_failure
  ]

  -- `Discover` behind `loadConfig`.
  unfoldable pub discover : List String → WorkspaceConfig → String → Options → Result Plan
  discover roots config config_path options = if is_empty roots then err no_roots else do
    candidates ← collect_candidates roots config config_path
    let selected = filter_by_tags candidates config options
    if is_empty selected then err no_tag_matches else do
      (ordered, sequence) ← apply_order selected config
      ok (record {
        config = config;
        flows = ordered;
        sequence = sequence;
        continue_on_failure = continues config;
      })
