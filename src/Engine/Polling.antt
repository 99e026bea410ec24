-- ===== src/Engine/Polling.antt =====
-- The polling loops of internal/engine: wait.go, settle.go and stability.go, on the clock of
-- internal/engine/clock.go. Instants and durations are numbers of nanoseconds.
pub mod Deadline
pub mod Steps
use flowbaton.Prelude.{
  ℕ, zero, suc, ◌+◌, ◌-◌, ◌*◌, ◌⊎◌, inl, inr, Bool, true, false, Option, none, some, leb, ltb,
  if◌then◌else◌,
}
use flowbaton.Prelude.Int.{ℤ, pos, negsuc, sub_ℕ}

abbrev pub millisecond : ℕ
millisecond = 1_000_000

-- The constants of clock.go that the loops use.
abbrev pub hierarchy_settle_poll_interval : ℕ
hierarchy_settle_poll_interval = 200 * millisecond

abbrev pub element_stability_poll_interval : ℕ
element_stability_poll_interval = 100 * millisecond

abbrev pub element_stability_timeout : ℕ
element_stability_timeout = 3_000 * millisecond

abbrev pub not_visible_poll_interval : ℕ
not_visible_poll_interval = 500 * millisecond

abbrev pub wait_until_visible_poll_interval : ℕ
wait_until_visible_poll_interval = 1_000 * millisecond

abbrev pub maximum_settle_timeout : ℕ
maximum_settle_timeout = 30_000 * millisecond

abbrev pub hierarchy_settle_attempts : ℕ
hierarchy_settle_attempts = 10

abbrev pub wait_until_visible_attempts : ℕ
wait_until_visible_attempts = 10

-- `Clock`, and `ctx.Err()`: each call of them may answer differently.
pub record Clock (World : Type 0) : Type 0 where
  pub now : World → ℕ × World
  pub wait : ℤ → World → Option ℕ × World
  pub context_error : World → Option ℕ × World

-- `minDuration`, whose left argument is a constant in every call.
unfoldable pub min_duration : ℕ → ℤ → ℤ
min_duration left (pos right) = if ltb left right then pos left else pos right
min_duration left (negsuc right) = negsuc right

-- `nonNegativeDuration`
unfoldable pub non_negative_duration : ℤ → ℕ
non_negative_duration (pos n) = n
non_negative_duration (negsuc n) = 0

-- What the loop body comes to.
pub data Verdict (S R : Type 0) : Type 0 where
  again : S → Verdict S R
  finish : R → Verdict S R

-- How a loop ends: by its body, by an error of the wait or the context, or at its deadline.
pub data Polled (S R : Type 0) : Type 0 where
  finished : R → Polled S R
  interrupted : S → ℕ → Polled S R
  timed_out : S → Polled S R

abbrev pub first_error : Option ℕ → Option ℕ → Option ℕ
first_error none b = b
first_error (some a) b = some a

-- A wait, and the check for a cancellation that follows in either case.
unfoldable pub pause : {World : Type 0} → Clock World → ℤ → World → Option ℕ × World
pause clock delay w =
    let (failed, w₁) = clock.wait delay w in
    let (cancelled, w₂) = clock.context_error w₁ in (first_error cancelled failed, w₂)

module _ {World S R : Type 0} (clock : Clock World) (body : S → World → Verdict S R × World) where
  -- A pause and the body behind it.
  unfoldable pub poll : ℤ → S → World → Verdict S (Polled S R) × World
  unfolding pause
  poll delay s w =
      let (failed, w₁) = pause clock delay w in
      let (verdict, w₂) = body s w₁ in
      elim failed [
        | some e ↦ (finish (interrupted s e), w₁)
        | none ↦ elim verdict [ again s' ↦ (again s', w₂) | finish r ↦ (finish (finished r), w₂) ]
      ]

  -- `for range attempts`
  unfoldable pub poll_attempts : ℕ → ℤ → S → World → Polled S R × World
  unfolding poll
  poll_attempts zero delay s w = (timed_out s, w)
  poll_attempts (suc attempts) delay s w =
      let (verdict, w') = poll delay s w in
      elim verdict [ again s' ↦ poll_attempts attempts delay s' w' | finish r ↦ (r, w') ]

  -- A round that begins in front of the deadline: the clock is read again for the length of the wait.
  unfoldable pub poll_round : ℕ → ℕ → S → World → Verdict S (Polled S R) × World
  unfolding poll min_duration
  poll_round interval deadline s w =
      let (now, w₁) = clock.now w in poll (min_duration interval (sub_ℕ deadline now)) s w₁

  -- `for clock.Now().Before(deadline)`, on fuel: `none` when it is used up.
  unfoldable pub poll_until : ℕ → ℕ → ℕ → S → World → Option (Polled S R × World)
  unfolding poll_round
  poll_until zero interval deadline s w = none
  poll_until (suc fuel) interval deadline s w =
      let (now, w₁) = clock.now w in
      let (verdict, w₂) = poll_round interval deadline s w₁ in
      elim (ltb now deadline) [
        | false ↦ some (timed_out s, w₁)
        | true ↦ elim verdict [
          | again s' ↦ poll_until fuel interval deadline s' w₂
          | finish r ↦ some (r, w₂)
        ]
      ]
