-- ===== src/Workspace/Narrowing.antt =====
-- What the operator's tags do to a workspace selection: `filterByTags` of
-- internal/workspace/planner.go.
use mathlib.Core.List.{Sublistᴰ}
use Prim.Native.String.{String}
use flowbaton.Prelude.{
  List, [], ◌∷◌, ◌++◌, true, false, ◌||◌, ◌≡◌, ◌≢◌, refl, inl, inr, Bool-cases, arith, append-nil,
  if◌then◌else◌,
}
use flowbaton.Workspace.Select.{
  Flow, Candidate, WorkspaceConfig, Options, contains, has_any_tag, is_empty, is_selected,
  keep_selected, filter_by_tags,
}

contains-append :
    (xs ys : List String) (s : String) → contains (xs ++ ys) s ≡ (contains xs s || contains ys s)
unfolding contains
contains-append [] ys s = refl
contains-append (x ∷ xs) ys s = ground (arith, contains-append xs ys s)

has_any_tag-append :
    (tags xs ys : List String)
    → has_any_tag tags (xs ++ ys) ≡ (has_any_tag tags xs || has_any_tag tags ys)
unfolding has_any_tag
has_any_tag-append [] xs ys = refl
has_any_tag-append (t ∷ tags) xs ys =
    ground (arith, contains-append xs ys t, has_any_tag-append tags xs ys)

-- Filters under which every item that was selected still is.
keep_selected-mono :
    (include exclude include' exclude' : List String)
    → ((item : Candidate)
        → is_selected include exclude item ≡ true
        → is_selected include' exclude' item ≡ true)
    → (items : List Candidate)
    → Sublistᴰ (keep_selected include exclude items) (keep_selected include' exclude' items)
unfolding keep_selected
keep_selected-mono include exclude include' exclude' weaker [] = Sublistᴰ.slnil
keep_selected-mono include exclude include' exclude' weaker (item ∷ items) =
    let rest = keep_selected-mono include exclude include' exclude' weaker items in
    elim (Bool-cases (is_selected include exclude item)) [
      | inl chosen ↦ rw (chosen, weaker item chosen) (Sublistᴰ.cons-cons refl rest)
      | inr dropped ↦ rw dropped (elim (Bool-cases (is_selected include' exclude' item)) [
        | inl chosen ↦ rw chosen (Sublistᴰ.cons rest)
        | inr other ↦ rw other rest
      ])
    ]

is_empty-append : (xs ys : List String) → xs ≢ [] → is_empty (xs ++ ys) ≡ false
is_empty-append [] ys h = absurd (h refl)
is_empty-append (x ∷ xs) ys h = refl

is_empty-ne : (xs : List String) → xs ≢ [] → is_empty xs ≡ false
is_empty-ne [] h = absurd (h refl)
is_empty-ne (x ∷ xs) h = refl

-- Where the workspace has include tags, include tags of the operator take no flow away from what
-- the workspace alone selects: they add to it.
pub include_widens :
    (candidates : List Candidate) (config : WorkspaceConfig) (include exclude : List String)
    → config.include_tags ≢ []
    → Sublistᴰ
        (filter_by_tags candidates config (record { include_tags = []; exclude_tags = exclude }))
        (filter_by_tags candidates config
          (record { include_tags = include; exclude_tags = exclude }))
unfolding filter_by_tags
include_widens candidates config include exclude some_tags = rw append-nil (
    keep_selected-mono config.include_tags (config.exclude_tags ++ exclude) _ _
      (λ item chosen. weaker item chosen) candidates)
  where
    weaker :
        (item : Candidate)
        → is_selected config.include_tags (config.exclude_tags ++ exclude) item ≡ true
        → is_selected (config.include_tags ++ include) (config.exclude_tags ++ exclude) item ≡ true
    weaker item chosen =
        unfold is_selected in
        ground (
          arith,
          has_any_tag-append item.flow.tags config.include_tags include,
          is_empty-append config.include_tags include,
          is_empty-ne config.include_tags,
        )

-- Exclude tags of the operator only take flows away.
pub exclude_narrows :
    (candidates : List Candidate) (config : WorkspaceConfig) (include exclude : List String)
    → Sublistᴰ
        (filter_by_tags candidates config
          (record { include_tags = include; exclude_tags = exclude }))
        (filter_by_tags candidates config (record { include_tags = include; exclude_tags = [] }))
unfolding filter_by_tags is_selected
exclude_narrows candidates config include exclude = rw (append-nil config.exclude_tags) (
    keep_selected-mono _ _ _ _
      (λ (item : Candidate) chosen.
        ground (arith, has_any_tag-append item.flow.tags config.exclude_tags exclude))
      candidates)

-- The flows that were named as files.
unfoldable pub explicit_flows : List Candidate → List Flow
explicit_flows [] = []
explicit_flows (item ∷ items) =
    let rest = explicit_flows items in if item.explicit then item.flow ∷ rest else rest

is_selected_explicit :
    (include exclude : List String) (item : Candidate)
    → item.explicit ≡ true
    → is_selected include exclude item ≡ true
unfolding is_selected
is_selected_explicit include exclude item named = ground arith

stay :
    (include exclude : List String) (items : List Candidate)
    → Sublistᴰ (explicit_flows items) (keep_selected include exclude items)
unfolding explicit_flows keep_selected
stay include exclude [] = Sublistᴰ.slnil
stay include exclude (item ∷ items) =
    let rest = stay include exclude items in
    elim (Bool-cases (is_selected include exclude item)) [
      | inl chosen ↦ simp chosen (elim (Bool-cases item.explicit) [
        | inl named ↦ simp named (Sublistᴰ.cons-cons refl rest)
        | inr walked ↦ simp walked (Sublistᴰ.cons rest)
      ])
      | inr other ↦ simp other (elim (Bool-cases item.explicit) [
        | inl named ↦ absurd (cc (is_selected_explicit include exclude item named))
        | inr walked ↦ simp walked rest
      ])
    ]

-- A flow that the operator named as a file passes every filter.
pub explicit_flows_stay :
    (candidates : List Candidate) (config : WorkspaceConfig) (options : Options)
    → Sublistᴰ (explicit_flows candidates) (filter_by_tags candidates config options)
unfolding filter_by_tags
explicit_flows_stay candidates config options = stay _ _ candidates

include_narrows :
    (candidates : List Candidate) (config : WorkspaceConfig) (include exclude : List String)
    → config.include_tags ≡ []
    → Sublistᴰ
        (filter_by_tags candidates config
          (record { include_tags = include; exclude_tags = exclude }))
        (filter_by_tags candidates config (record { include_tags = []; exclude_tags = exclude }))
unfolding filter_by_tags is_selected
include_narrows candidates config include exclude no_tags = rw no_tags (
    keep_selected-mono include (config.exclude_tags ++ exclude) [] _ (λ item chosen. ground arith)
      candidates)

-- Two selections, the second within the first where there are no include tags, and the first within
-- the second where there are some.
abbrev pub Widened : List String → List Flow → List Flow → Type 0
Widened [] without with = Sublistᴰ with without
Widened (t ∷ tags) without with = Sublistᴰ without with

widened :
    (tags : List String) (candidates : List Candidate) (config : WorkspaceConfig)
    (include exclude : List String)
    → config.include_tags ≡ tags
    → Widened tags
        (filter_by_tags candidates config (record { include_tags = []; exclude_tags = exclude }))
        (filter_by_tags candidates config
          (record { include_tags = include; exclude_tags = exclude }))
widened [] candidates config include exclude e = include_narrows candidates config include exclude e
widened (t ∷ tags) candidates config include exclude e =
    include_widens candidates config include exclude (λ none_there. cc)

-- What the operator's tags do to a selection, in which the order is kept. Where the workspace has
-- include tags, include tags of the operator take no flow away from what the workspace's alone
-- select; where it has none, they only take flows away. Exclude tags of the operator only take flows
-- away. Whatever the tags, a flow that was named as a file stays.
pub filter_by_tags-Sublist :
    (candidates : List Candidate) (config : WorkspaceConfig) (include exclude : List String)
    → Widened config.include_tags
        (filter_by_tags candidates config (record { include_tags = []; exclude_tags = exclude }))
        (filter_by_tags candidates config
          (record { include_tags = include; exclude_tags = exclude }))
      × Sublistᴰ
          (filter_by_tags candidates config
            (record { include_tags = include; exclude_tags = exclude }))
          (filter_by_tags candidates config (record { include_tags = include; exclude_tags = [] }))
      × Sublistᴰ (explicit_flows candidates) (
          filter_by_tags candidates config
            (record { include_tags = include; exclude_tags = exclude }))
filter_by_tags-Sublist candidates config include exclude = (
  widened config.include_tags candidates config include exclude refl,
  exclude_narrows candidates config include exclude,
  explicit_flows_stay candidates config _,
)
