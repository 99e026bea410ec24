-- ===== src/Workspace/Permutation.antt =====
-- The loop of `applyOrder` of internal/workspace/planner.go moves flows and loses none.
use Prim.Native.String.{String}
use mathlib.Core.List.{Perm}
use mathlib.Core.List.Perm
use mathlib.Core.List.{map-append}
use text.Mathlib.TextEquality.{eq_iff}
use text.Mathlib.TextPositions.{eq_refl}
use flowbaton.Prelude.{
  List, [], ◌∷◌, ◌++◌, map, append_assoc, append-nil, Bool, true, false, none, some, Option-cases,
  ◌≡◌, ◌≢◌, ◌∙◌, ap, sym, refl, inl, inr, arith, if◌then◌else◌,
}
use flowbaton.Workspace.Select.{Flow, contains}
use flowbaton.Workspace.Order.{ok, by_name, sequence_loop, not_taken}

abbrev pub flow_name : Flow → String
flow_name f = f.name

-- No two flows of the selection share a name.
abbrev pub UniqueNames : List Flow → Type 0
UniqueNames [] = Unit {0}
UniqueNames (f ∷ fs) = (by_name f.name fs ≡ none) × UniqueNames fs

-- A flow that is found has the name that was asked for.
pub by_name-name :
    (name : String) (items : List Flow) (f : Flow) → by_name name items ≡ some f → f.name ≡ name
unfolding by_name
by_name-name name [] f e = cc
by_name-name name (item ∷ items) f e = elim (Option-cases (by_name name items)) [
  | inl missing ↦ ground (arith, eq_iff item.name name)
  | inr (later, found) ↦ ground (arith, by_name-name name items later)
]

pub pair_eq :
    (sequence : List Flow) (taken : List String) (r : List Flow × List String)
    → ok (sequence, taken) ≡ ok r
    → sequence ≡ r.0
pair_eq sequence taken (s, t) e = cc

pub taken_eq :
    (sequence : List Flow) (taken : List String) (r : List Flow × List String)
    → ok (sequence, taken) ≡ ok r
    → taken ≡ r.1
taken_eq sequence taken (s, t) e = cc

-- A round of the loop that goes on.
pub sequence_loop_step :
    (selected : List Flow) (name : String) (names taken : List String) (sequence : List Flow)
    (r : List Flow × List String)
    → sequence_loop selected (name ∷ names) taken sequence ≡ ok r
    → (item : Flow) × (by_name name selected ≡ some item)
      × (contains taken name ≡ false)
      × (sequence_loop selected names (name ∷ taken) (sequence ++ (item ∷ [])) ≡ ok r)
unfolding sequence_loop
sequence_loop_step selected name names taken sequence r e =
    elim (Option-cases (by_name name selected)) [
      | inl missing ↦ absurd (cc (rw (missing, sequence_loop) at e))
      | inr (item, found) ↦ (item, found, ground arith, ground arith)
    ]

-- The sequence holds the ordered flows in the authored order, behind what it held.
pub sequence_loop-names :
    (selected : List Flow) (names taken : List String) (sequence : List Flow)
    (r : List Flow × List String)
    → sequence_loop selected names taken sequence ≡ ok r
    → map flow_name (r.0) ≡ map flow_name sequence ++ names
sequence_loop-names selected [] taken sequence r e =
    unfold sequence_loop in
    ap (λ l. map flow_name l) (sym (pair_eq sequence taken r e)) ∙ sym (append-nil _)
sequence_loop-names selected (name ∷ names) taken sequence r e =
    let (item, found, new, more) = sequence_loop_step selected name names taken sequence r e in
    sequence_loop-names selected names (name ∷ taken) (sequence ++ (item ∷ [])) r more
    ∙ ap (λ l. l ++ names) (map-append _ sequence (item ∷ []))
    ∙ append_assoc (map flow_name sequence) (item.name ∷ []) names
    ∙ ap (λ n. map flow_name sequence ++ (n ∷ names)) (by_name-name name selected item found)

-- With no flow of that name, taking the name takes nothing.
not_taken_absent :
    (taken : List String) (name : String) (items : List Flow)
    → by_name name items ≡ none
    → not_taken (name ∷ taken) items ≡ not_taken taken items
unfolding not_taken by_name contains
not_taken_absent taken name [] e = refl
not_taken_absent taken name (item ∷ items) e = elim (Option-cases (by_name name items)) [
  | inl missing ↦ ground (
    arith,
    not_taken_absent taken name items missing,
    eq_iff item.name name,
    eq_iff name item.name,
  )
  | inr (later, found) ↦ absurd (cc (rw found at e))
]

-- A flow whose name is not taken is taken with its name.
not_taken_here :
    (taken : List String) (item : Flow) (items : List Flow)
    → contains taken item.name ≡ false
    → (not_taken taken (item ∷ items) ≡ item ∷ not_taken taken items)
      × (not_taken (item.name ∷ taken) (item ∷ items) ≡ not_taken (item.name ∷ taken) items)
unfolding not_taken contains
not_taken_here taken item items new = (ground arith, ground (arith, eq_refl item.name))

not_taken_other :
    (taken : List String) (name : String) (item : Flow) (items : List Flow)
    → name ≢ item.name
    → not_taken (name ∷ taken) (item ∷ items) ≡ (
        if contains taken item.name
        then not_taken (name ∷ taken) items
        else item ∷ not_taken (name ∷ taken) items)
unfolding not_taken contains
not_taken_other taken name item items other = ground (arith, eq_iff name item.name)

pub not_taken_cons :
    (taken : List String) (item : Flow) (items : List Flow)
    → not_taken taken (item ∷ items)
      ≡ (if contains taken item.name then not_taken taken items else item ∷ not_taken taken items)
unfolding not_taken
not_taken_cons taken item items = refl

keep_or_skip :
    (skipped : Bool) (item : Flow) {f : Flow} {rest rest' : List Flow}
    → Perm rest (f ∷ rest')
    → Perm (if skipped then rest else item ∷ rest) (f ∷ (if skipped then rest' else item ∷ rest'))
keep_or_skip true item p = p
keep_or_skip false item {f} p = Perm.trans (Perm.cons item p) (Perm.swap f item _)

-- Where names are unique, taking a name takes exactly its flow.
not_taken_extract :
    (taken : List String) (name : String) (items : List Flow) (f : Flow)
    → UniqueNames items
    → contains taken name ≡ false
    → by_name name items ≡ some f
    → Perm (not_taken taken items) (f ∷ not_taken (name ∷ taken) items)
not_taken_extract taken name [] f unique new e = absurd (unfold by_name in cc e)
not_taken_extract taken name (item ∷ items) f unique new e =
    elim (Option-cases (by_name name items)) [
      | inl missing ↦
          let same : f ≡ item = unfold by_name in ground arith in
          let named : item.name ≡ name = unfold by_name in ground (arith, eq_iff item.name name) in
          let here = not_taken_here taken item items (rw named new) in
          rw
            (
              here.0,
              sym named,
              here.1,
              not_taken_absent taken item.name items (rw named missing),
              same,
            )
            (Perm.refl _)
      | inr (later, found) ↦
          let same : f ≡ later = unfold by_name in ground arith in
          let other : name ≢ item.name = λ n. absurd (cc (unique.0, found, n)) in
          let rest = not_taken_extract taken name items f (unique.1) new (rw same found) in
          rw (not_taken_other taken name item items other, not_taken_cons taken item items)
            (keep_or_skip (contains taken item.name) item rest)
    ]

pub not_taken_all : (items : List Flow) → not_taken [] items ≡ items
unfolding not_taken contains
not_taken_all [] = refl
not_taken_all (item ∷ items) = ap (λ l. item ∷ l) (not_taken_all items)

-- The loop moves flows to the sequence and loses none.
pub sequence_loop-perm :
    (selected : List Flow) (names taken : List String) (sequence : List Flow)
    (r : List Flow × List String)
    → UniqueNames selected
    → sequence_loop selected names taken sequence ≡ ok r
    → Perm (r.0 ++ not_taken (r.1) selected) (sequence ++ not_taken taken selected)
sequence_loop-perm selected [] taken sequence r unique e =
    let same : ok (sequence, taken) ≡ ok r = unfold sequence_loop in e in
    rw⁻¹ (pair_eq sequence taken r same, taken_eq sequence taken r same) (Perm.refl _)
sequence_loop-perm selected (name ∷ names) taken sequence r unique e =
    let (item, found, new, more) = sequence_loop_step selected name names taken sequence r e in
    Perm.trans
      (sequence_loop-perm selected names (name ∷ taken) (sequence ++ (item ∷ [])) r unique more)
      (rw (append_assoc sequence (item ∷ []) (not_taken (name ∷ taken) selected)) (
        Perm.append_left sequence
          (Perm.symm (not_taken_extract taken name selected item unique new found))))
