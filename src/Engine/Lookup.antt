-- ===== src/Engine/Lookup.antt =====
-- The looks for an element: internal/engine/lookup.go and internal/engine/wait.go. What one look at
-- the visible hierarchy gives, `findOnce`, is an operation of its own. Instants count nanoseconds
-- from some beginning.
pub mod Timeouts
mod Deadlines
mod Looks
mod Found
mod Examples
use flowbaton.Prelude.{
  ℕ, zero, suc, ◌+◌, ◌-◌, ◌*◌, ◌/◌, Bool, true, false, Option, none, some, leb, ltb, if◌then◌else◌,
}
use flowbaton.Prelude.Int.{ℤ, pos, negsuc, sub_ℕ, pos_part}
use flowbaton.Engine.Polling.{
  millisecond, not_visible_poll_interval, wait_until_visible_poll_interval,
  wait_until_visible_attempts, Clock, min_duration, non_negative_duration, pause,
}
use flowbaton.Engine.Lookup.Timeouts.{
  lookup_timeout, optional_lookup_timeout, lookup_poll_interval, LookupOptions, Watermark,
  record_interaction, base_timeout, adjusted_timeout, adjusted_deadline,
}

-- An element, or nil, with no error.
pub data Look (Element : Type 0) : Type 0 where
  seen : Element → Look Element
  absent : Look Element
  look_failed : ℕ → Look Element

-- How a wait ends: with a value and no error, with an error that a call returned, or with an
-- OperationError of its own.
pub data Waited (A : Type 0) : Type 0 where
  returns : A → Waited A
  raises : ℕ → Waited A
  element_not_found remained_visible not_visible_in_time : Waited A

module _ {World Element : Type 0} (clock : Clock World)
    (find_once : World → Look Element × World) where
  -- `findOnce`, and the check for a cancellation behind an answer with no error.
  unfoldable pub look : World → Look Element × World
  look w =
      let (found, w₁) = find_once w in
      let (cancelled, w₂) = clock.context_error w₁ in
      let checked : Look Element = elim cancelled [ some c ↦ look_failed c | none ↦ found ] in
      elim found [ look_failed e ↦ (look_failed e, w₁) | _ ↦ (checked, w₂) ]

  -- What a loop does with a look: end, or go on to wait.
  abbrev Ends : Type 0 → Type 0
  Ends A = Look Element → Option (Waited A)

  -- The loops of `findUntil` and `conditionNotVisibleUntil`: a look, and while the deadline is ahead,
  -- a rest and another look, on fuel.
  unfoldable pub look_until :
      {A : Type 0}
      → Ends A
      → Waited A
      → (ℤ → World → Option ℕ × World)
      → ℕ
      → ℕ
      → ℕ
      → World
      → Option (Waited A × World)
  unfolding look min_duration
  look_until ends late rest zero interval deadline w = none
  look_until ends late rest (suc fuel) interval deadline w =
      let (found, w₁) = look w in
      let (now, w₂) = clock.now w₁ in
      let (failed, w₃) = rest (min_duration interval (sub_ℕ deadline now)) w₂ in
      elim (ends found) [
        | some r ↦ some (r, w₁)
        | none ↦ elim (ltb now deadline) [
          | false ↦ some (late, w₂)
          | true ↦ elim failed [
            | some e ↦ some (raises e, w₃)
            | none ↦ look_until ends late rest fuel interval deadline w₃
          ]
        ]
      ]

  -- Rounds for every interval up to the deadline, from the beginning of time.
  abbrev pub look_fuel : ℕ → ℕ → ℕ
  look_fuel interval deadline = deadline / interval + 2

  abbrev pub found_ends : Ends (Option Element)
  found_ends (seen element) = some (returns (some element))
  found_ends absent = none
  found_ends (look_failed e) = some (raises e)

  abbrev pub gone_ends : Ends Bool
  gone_ends (seen element) = none
  gone_ends absent = some (returns true)
  gone_ends (look_failed e) = some (raises e)

  abbrev pub not_found : LookupOptions → Waited (Option Element)
  not_found options = if options.is_optional then returns none else element_not_found

  abbrev pub unless_cancelled :
      {A : Type 0} → Option ℕ × World → Option (Waited A × World) → Option (Waited A × World)
  unless_cancelled (some c, w) r = some (raises c, w)
  unless_cancelled (none, w) r = r

  -- `findUntil`
  unfoldable pub find_until : LookupOptions → ℕ → World → Option (Waited (Option Element) × World)
  unfolding look_until pause
  find_until options deadline w =
      let checked = clock.context_error w in
      unless_cancelled checked (
        look_until found_ends (not_found options) (pause clock)
          (look_fuel lookup_poll_interval deadline) lookup_poll_interval deadline (checked.1))

  -- `Find`
  unfoldable pub find : Watermark → LookupOptions → World → Option (Waited (Option Element) × World)
  unfolding find_until adjusted_deadline
  find mark options w =
      let checked = clock.context_error w in
      let (now, w₁) = clock.now (checked.1) in
      unless_cancelled checked (find_until options (adjusted_deadline mark options now) w₁)

  -- `conditionNotVisibleUntil`: the rest is a bare wait.
  unfoldable pub condition_not_visible_until : ℕ → World → Option (Waited Bool × World)
  unfolding look_until
  condition_not_visible_until deadline w =
      let checked = clock.context_error w in
      unless_cancelled checked (
        look_until gone_ends (returns false) clock.wait
          (look_fuel not_visible_poll_interval deadline) not_visible_poll_interval deadline
          (checked.1))

  -- `conditionNotVisible`
  unfoldable pub condition_not_visible : ℤ → World → Option (Waited Bool × World)
  unfolding condition_not_visible_until non_negative_duration
  condition_not_visible timeout w =
      let checked = clock.context_error w in
      let (now, w₁) = clock.now (checked.1) in
      unless_cancelled checked
        (condition_not_visible_until (now + non_negative_duration timeout) w₁)

  abbrev must_be_gone : Option (Waited Bool × World) → Option (Waited Bool × World)
  must_be_gone (some (returns false, w)) = some (remained_visible, w)
  must_be_gone r = r

  -- `WaitUntilNotVisible`, where `returns true` is a nil error.
  unfoldable pub wait_until_not_visible : ℤ → World → Option (Waited Bool × World)
  unfolding condition_not_visible
  wait_until_not_visible timeout w = must_be_gone (condition_not_visible timeout w)

  -- The attempts of `WaitUntilVisible`: a bare wait, then a look.
  unfoldable pub visible_attempts : ℕ → World → Option (Waited (Option Element)) × World
  unfolding look
  visible_attempts zero w = (none, w)
  visible_attempts (suc attempts) w =
      let (failed, w₁) = clock.wait (pos wait_until_visible_poll_interval) w in
      let (found, w₂) = look w₁ in
      elim failed [
        | some e ↦ (some (raises e), w₁)
        | none ↦ elim (found_ends found) [
          | some r ↦ (some r, w₂)
          | none ↦ visible_attempts attempts w₂
        ]
      ]

  -- `WaitUntilVisible`
  unfoldable pub wait_until_visible : Bool → World → Waited (Option Element) × World
  unfolding visible_attempts
  wait_until_visible is_optional w =
      let (cancelled, w₁) = clock.context_error w in
      let (waited, w₂) = visible_attempts wait_until_visible_attempts w₁ in
      let (cancelled_late, w₃) = clock.context_error w₂ in
      let exhausted : Waited (Option Element) =
        if is_optional then returns none else not_visible_in_time in
      elim cancelled [
        | some c ↦ (raises c, w₁)
        | none ↦ elim waited [
          | some r ↦ (r, w₂)
          | none ↦ elim cancelled_late [ some c ↦ (raises c, w₃) | none ↦ (exhausted, w₃) ]
        ]
      ]
