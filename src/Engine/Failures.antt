-- ===== src/Engine/Failures.antt =====
-- internal/engine/failure_policy.go, and the steps of executeFlowLifecycle in
-- internal/engine/flow_executor.go that a selected root goes through between BeginFlow and Finish.
-- The execution of one command, the resolver and the opening and closing of scopes and sessions
-- are operations of the core on a state of its own.
pub mod Sequence
pub mod Worst
pub mod Root
mod Examples
use flowbaton.Prelude.{ℕ, List, [], ◌∷◌, Bool, true, false, Option, none, some, ltb, if◌then◌else◌}
use flowbaton.Engine.Errors.{
  precedence, classify_terminal_error, Normalized, sanitize_malformed_error,
}
use flowbaton.Engine.Errors.Direct.{
  Graph, TerminalClass, cancelled, device_connection, configuration,
}

-- `executeCompiled` and the ledger's answer on its result: not authenticated, with the error that
-- came with it, or authenticated, with an error or none.
pub data Execution (R S : Type 0) : Type 0 where
  unauthenticated : Option ℕ → S → Execution R S
  passed : R → S → Execution R S
  failed : R → ℕ → S → Execution R S

-- What `ResolveFailure` answers, or that it panics.
pub data Decision : Type 0 where
  stop go_on resolver_panics : Decision

-- A scope, or the error that enterFlow returns in its place.
pub data Entry (S : Type 0) : Type 0 where
  refused : ℕ → S → Entry S
  entered : S → Entry S

pub record Core (S Item R : Type 0) : Type 0 where
  pub graph : Graph
  -- Is the error a sessionIntegrityError? A type assertion, with no unwrapping.
  pub integrity_lost : ℕ → Bool
  pub execute : Item → S → Execution R S
  -- The ConfigurationError for a result that is not authenticated.
  pub rejection : ℕ
  -- `none` for a nil resolver.
  pub resolve : Option (R → S → Decision × S)
  pub context_error : S → Option ℕ
  pub enter : S → Entry S
  pub close_scope : S → Option ℕ × S
  pub close_session : S → Option ℕ × S

pub record PolicyResult : Type 0 where
  pub failure : Option ℕ
  pub halted : Bool

pub record RootFlow (Item : Type 0) : Type 0 where
  pub on_start : List Item
  pub body : List Item
  pub on_complete : List Item

abbrev pub or_rejection : ℕ → Option ℕ → ℕ
or_rejection rejection none = rejection
or_rejection rejection (some e) = e

module _ {S Item R : Type 0} (core : Core S Item R) where
  unfoldable pub root_precedence : ℕ → ℕ
  root_precedence e =
      let others : ℕ = elim (classify_terminal_error core.graph (some e)) [
        | cancelled ↦ precedence cancelled
        | device_connection ↦ precedence device_connection
        | _ ↦ 0
      ] in
      if core.integrity_lost e then precedence configuration else others

  -- `rootFailureAccumulator.add`
  unfoldable pub add : Option ℕ → Option ℕ → Option ℕ
  add failure none = failure
  add none (some e) = some e
  add (some f) (some e) = if ltb (root_precedence f) (root_precedence e) then some e else some f

  unfoldable pub resolver_bypassed : ℕ → Bool
  resolver_bypassed e =
      let others : Bool = elim (classify_terminal_error core.graph (some e)) [
        | cancelled ↦ true
        | device_connection ↦ true
        | _ ↦ false
      ] in
      if core.integrity_lost e then true else others

  abbrev pub is_go_on : Decision → Bool
  is_go_on go_on = true
  is_go_on _ = false

  unfoldable pub resolver_continues : R → S → Bool × S
  resolver_continues result s = elim core.resolve [
    | none ↦ (false, s)
    | some resolve ↦ let (decision, s') = resolve result s in (is_go_on decision, s')
  ]

  abbrev pub result_of : Option ℕ → Bool → S → PolicyResult × S
  result_of failure halted s = (record { failure = failure; halted = halted }, s)

  -- The loop over the compiled commands, with the failure so far.
  unfoldable pub sequence_from : List Item → Option ℕ → S → PolicyResult × S
  sequence_from [] failure s = result_of failure false s
  sequence_from (item ∷ items) failure s = elim (core.execute item s) [
    | unauthenticated e s' ↦ result_of (add failure (some (or_rejection core.rejection e))) true s'
    | passed result s' ↦ sequence_from items failure s'
    | failed result e s' ↦
        let failure' = add failure (some e) in
        let (continues, s'') = resolver_continues result s' in
        let more = sequence_from items failure' s'' in
        let asked = if continues then more else result_of failure' true s'' in
        if resolver_bypassed e then result_of failure' true s' else asked
  ]

  -- `executeRootSequenceWithPolicy` behind the checks of its context and depth.
  unfoldable pub execute_root_sequence : List Item → S → PolicyResult × S
  execute_root_sequence items s = sequence_from items none s

  -- The body runs unless the start hook halted.
  unfoldable pub run_body : RootFlow Item → PolicyResult → S → Option ℕ × S
  run_body flow start s =
      let failure = add none start.failure in
      let (body, s') = execute_root_sequence flow.body s in
      if start.halted then (failure, s) else (add failure body.failure, s')

  abbrev pub is_integrity_lost : Option ℕ → Bool
  is_integrity_lost none = false
  is_integrity_lost (some e) = core.integrity_lost e

  -- The completion hook runs unless the session lost its integrity.
  unfoldable pub run_completion : RootFlow Item → Option ℕ → S → Option ℕ × S
  run_completion flow failure s =
      let (completion, s') = execute_root_sequence flow.on_complete s in
      if is_integrity_lost failure then (failure, s) else (add failure completion.failure, s')

  unfoldable pub run_in_scope : RootFlow Item → S → Option ℕ × S
  run_in_scope flow s =
      let (start, s₁) = execute_root_sequence flow.on_start s in
      let (failure, s₂) = run_body flow start s₁ in
      let (failure', s₃) = run_completion flow failure s₂ in
      let (closed, s₄) = core.close_scope s₃ in (add failure' closed, s₄)

  unfoldable pub enter_and_run : RootFlow Item → S → Option ℕ × S
  enter_and_run flow s = elim (core.context_error s) [
    | some e ↦ (some e, s)
    | none ↦ elim (core.enter s) [ refused e s' ↦ (some e, s') | entered s' ↦ run_in_scope flow s' ]
  ]

  unfoldable pub run_root : RootFlow Item → S → Normalized × S
  run_root flow s =
      let (failure, s') = enter_and_run flow s in
      let (closed, s'') = core.close_session s' in
      ((sanitize_malformed_error core.graph (add failure closed)).0, s'')
