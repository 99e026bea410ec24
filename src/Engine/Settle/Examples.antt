-- ===== src/Engine/Settle/Examples.antt =====
-- A wait of internal/engine/settle.go for a screen that changes once.
use flowbaton.Prelude.{ℕ, ◌+◌, ◌≤◌, ◌≡◌, refl, [], none, some, ◌==◌, ltb, if◌then◌else◌, arith}
use flowbaton.Prelude.Int.{ℤ, pos, negsuc}
use flowbaton.Engine.Polling.{Clock, min_duration, pause, poll, poll_round, poll_until}
use flowbaton.Engine.Polling.Deadline.{Advances}
use flowbaton.Engine.Settle.{
  SettleRequest, SettleDriver, settled, explicit_settle_timeout, is_loading, samples_settled,
  observed, sample, settle_within, wait_for_hierarchy_settle,
}
use flowbaton.Engine.Settle.Confirmed.{Confirmed, settled-Confirmed}
use flowbaton.Engine.Settle.Endings.{Ends, wait_for_hierarchy_settle-Ends}

abbrev passed : ℤ → ℕ → ℕ
passed (pos d) w = w + d
passed (negsuc d) w = w

-- The world is the instant.
abbrev wall_clock : Clock ℕ
wall_clock = record {
  now = λ w. (w, w);
  wait = λ d w. (none, passed d w);
  context_error = λ w. (none, w);
}

-- The screen changes at 300 ms.
abbrev screen : SettleDriver ℕ ℕ
screen = record {
  wait_for_app_to_settle = λ request w. ((some (if ltb w 300_000_000 then 1 else 2), none), w);
  root_attribute = λ hierarchy key. [];
  deep_equal = λ a b. a == b;
}

abbrev one_second : SettleRequest ℕ
one_second = record { timeout_millis = some (pos 1_000); initial_hierarchy = none; app_id = [] }

-- The samples at 200, 400 and 600 ms are the old screen, the new one and the new one again.
settles :
    wait_for_hierarchy_settle wall_clock screen one_second 0 ≡ some (settled (some 2), 600_000_000)
unfolding wait_for_hierarchy_settle explicit_settle_timeout settle_within poll_until poll_round poll
    pause min_duration sample samples_settled is_loading observed
settles = refl

passes : (d : ℤ) (w : ℕ) → w ≤ passed d w
passes (pos d) w = omega arith
passes (negsuc d) w = omega arith

wall_clock-Advances : Advances wall_clock (λ w. w)
wall_clock-Advances = record {
  reads = λ w. (omega arith, omega arith);
  waits = λ d w e. omega arith;
  waits_forwards = passes;
  checks_forwards = λ w. omega arith;
}

settled-Confirmed_example : Confirmed wall_clock screen one_second 0 (some 2)
settled-Confirmed_example =
    settled-Confirmed wall_clock screen one_second 0 600_000_000 (some 2) settles

wait_for_hierarchy_settle-Ends_example :
    Ends wall_clock screen
      (λ w. w)
      one_second
      (wait_for_hierarchy_settle wall_clock screen one_second 0)
wait_for_hierarchy_settle-Ends_example =
    wait_for_hierarchy_settle-Ends wall_clock screen (λ w. w) one_second wall_clock-Advances
      (λ w. omega arith) 0
