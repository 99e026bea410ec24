-- ===== src/Engine/Settle.antt =====
-- WaitForHierarchySettle of internal/engine/settle.go. Hierarchies are values of a type of their own,
-- with the root's attributes and `reflect.DeepEqual` as operations of the driver; the copies that
-- the code makes of them are left out, since nothing is written to a hierarchy.
mod Confirmed
mod Endings
mod Examples
use flowbaton.Prelude.{
  ℕ, zero, suc, ◌+◌, ◌*◌, ◌/◌, List, [], ◌∷◌, Bool, true, false, not, ◌&&◌, Option, none, some, leb,
  ltb, if◌then◌else◌, ◌==◌,
}
use flowbaton.Prelude.Int.{ℤ, pos, negsuc}
use flowbaton.Engine.Polling.{
  millisecond, hierarchy_settle_poll_interval, maximum_settle_timeout, hierarchy_settle_attempts,
  Clock, Verdict, again, finish, Polled, finished, interrupted, timed_out, poll_attempts,
  poll_until,
}

pub record SettleRequest (Hierarchy : Type 0) : Type 0 where
  -- An int64; `none` where it is omitted.
  pub timeout_millis : Option ℤ
  pub initial_hierarchy : Option Hierarchy
  pub app_id : List ℕ

pub record SettleDriver (World Hierarchy : Type 0) : Type 0 where
  pub wait_for_app_to_settle :
      SettleRequest Hierarchy → World → (Option Hierarchy × Option ℕ) × World
  -- An attribute of the root by its key; empty where it is missing.
  pub root_attribute : Hierarchy → List ℕ → List ℕ
  pub deep_equal : Hierarchy → Hierarchy → Bool

-- `hierarchySettleState`
pub record SettleState (Hierarchy : Type 0) : Type 0 where
  pub previous : Option Hierarchy
  pub latest : Option Hierarchy

pub data SettleFailure : Type 0 where
  raised : ℕ → SettleFailure
  not_settled_after_attempts not_settled_before_timeout : SettleFailure

-- A hierarchy, which may be nil, with no error or an error.
pub data Settling (Hierarchy : Type 0) : Type 0 where
  settled : Option Hierarchy → Settling Hierarchy
  unsettled : Option Hierarchy → SettleFailure → Settling Hierarchy

-- `explicitSettleTimeout`
unfoldable pub explicit_settle_timeout : ℤ → ℕ
explicit_settle_timeout (negsuc n) = 0
explicit_settle_timeout (pos n) =
    if n == 0
    then 0
    else if leb (maximum_settle_timeout / millisecond) n
    then maximum_settle_timeout
    else n * millisecond

abbrev is_loading_key : List ℕ
is_loading_key = b'i' ∷ b's' ∷ b'-' ∷ b'l' ∷ b'o' ∷ b'a' ∷ b'd' ∷ b'i' ∷ b'n' ∷ b'g' ∷ []

abbrev true_text : List ℕ
true_text = b't' ∷ b'r' ∷ b'u' ∷ b'e' ∷ []

abbrev same_text : List ℕ → List ℕ → Bool
same_text [] [] = true
same_text (x ∷ xs) (y ∷ ys) = x == y && same_text xs ys
same_text _ _ = false

abbrev pub later : {A : Type 0} → Option A → Option A → Option A
later none old = old
later (some new) old = some new

-- Fuel for the longest timeout at the interval of the polls, and for two rounds more.
abbrev pub settle_fuel : ℕ
settle_fuel = 152

module _ {World Hierarchy : Type 0} (clock : Clock World)
    (driver : SettleDriver World Hierarchy) where
  unfoldable pub is_loading : Hierarchy → Bool
  is_loading hierarchy = same_text (driver.root_attribute hierarchy is_loading_key) true_text

  -- `hierarchySamplesSettled`
  unfoldable pub samples_settled : Option Hierarchy → Option Hierarchy → Bool
  unfolding is_loading
  samples_settled none current = false
  samples_settled (some previous) none = false
  samples_settled (some previous) (some current) =
      not (is_loading current) && driver.deep_equal previous current

  -- `observe`: the state behind a sample.
  unfoldable pub observed : SettleState Hierarchy → Option Hierarchy → SettleState Hierarchy
  observed state current = record { previous = current; latest = later current state.latest }

  abbrev pub sample_verdict :
      SettleState Hierarchy
      → Option Hierarchy
      → Verdict (SettleState Hierarchy) (Settling Hierarchy)
  sample_verdict state current =
      if samples_settled state.previous current
      then finish (settled (observed state current).latest)
      else again (observed state current)

  -- A sample of the driver; a cancellation goes before an error of the driver.
  unfoldable pub sample :
      SettleRequest Hierarchy
      → SettleState Hierarchy
      → World
      → Verdict (SettleState Hierarchy) (Settling Hierarchy) × World
  unfolding samples_settled observed
  sample request state w =
      let ((current, failed), w₁) = driver.wait_for_app_to_settle request w in
      let (cancelled, w₂) = clock.context_error w₁ in
      elim cancelled [
        | some c ↦ (finish (unsettled state.latest (raised c)), w₂)
        | none ↦ elim failed [
          | some e ↦ (finish (unsettled state.latest (raised e)), w₂)
          | none ↦ (sample_verdict state current, w₂)
        ]
      ]

  -- What is returned for the end of a loop.
  abbrev pub settling :
      SettleFailure → Polled (SettleState Hierarchy) (Settling Hierarchy) → Settling Hierarchy
  settling failure (finished r) = r
  settling failure (interrupted state e) = unsettled state.latest (raised e)
  settling failure (timed_out state) = unsettled state.latest failure

  abbrev pub looked_once : Verdict (SettleState Hierarchy) (Settling Hierarchy) → Settling Hierarchy
  looked_once (finish r) = r
  looked_once (again state) = unsettled state.latest not_settled_before_timeout

  abbrev pub initial_state : SettleRequest Hierarchy → SettleState Hierarchy
  initial_state request = record {
    previous = request.initial_hierarchy;
    latest = request.initial_hierarchy;
  }

  abbrev pub settle_option :
      Option (Polled (SettleState Hierarchy) (Settling Hierarchy) × World)
      → Option (Settling Hierarchy × World)
  settle_option none = none
  settle_option (some (p, w)) = some (settling not_settled_before_timeout p, w)

  -- With a timeout: one look for none, else a loop up to the deadline.
  unfoldable pub settle_within :
      SettleRequest Hierarchy → ℕ → World → Option (Settling Hierarchy × World)
  unfolding sample poll_until
  settle_within request timeout w =
      let (verdict, w₁) = sample request (initial_state request) w in
      let (now, w₂) = clock.now w in
      let polled =
        poll_until clock (sample request) settle_fuel hierarchy_settle_poll_interval (now + timeout)
          (initial_state request) w₂ in
      if timeout == 0 then some (looked_once verdict, w₁) else settle_option polled

  -- `WaitForHierarchySettle`; `none` would be the end of the fuel.
  unfoldable pub wait_for_hierarchy_settle :
      SettleRequest Hierarchy → World → Option (Settling Hierarchy × World)
  unfolding settle_within poll_attempts explicit_settle_timeout sample
  wait_for_hierarchy_settle request w =
      let (cancelled, w₁) = clock.context_error w in
      let (polled, w₂) =
        poll_attempts clock (sample request) hierarchy_settle_attempts
          (pos hierarchy_settle_poll_interval) (initial_state request) w₁ in
      elim cancelled [
        | some c ↦ some (unsettled none (raised c), w₁)
        | none ↦ elim request.timeout_millis [
          | none ↦ some (settling not_settled_after_attempts polled, w₂)
          | some millis ↦ settle_within request (explicit_settle_timeout millis) w₁
        ]
      ]
