-- ===== src/Engine/Lookup/Examples.antt =====
-- Looks of internal/engine/lookup.go and internal/engine/wait.go for an element that comes and goes.
use flowbaton.Prelude.{
  ℕ, ◌+◌, ◌≤◌, ◌≡◌, refl, false, Bool, Option, none, some, ltb, if◌then◌else◌, arith,
}
use flowbaton.Prelude.Int.{ℤ, pos, negsuc}
use flowbaton.Engine.Polling.{Clock, min_duration, pause, non_negative_duration}
use flowbaton.Engine.Polling.Deadline.{Advances}
use flowbaton.Engine.Lookup.{
  Look, seen, absent, Waited, returns, element_not_found, remained_visible, look, look_until,
  find_until, find, condition_not_visible_until, condition_not_visible, wait_until_not_visible,
  visible_attempts, wait_until_visible,
}
use flowbaton.Engine.Lookup.Timeouts.{LookupOptions, adjusted_deadline}
use flowbaton.Engine.Lookup.Found.{Found, Gone, looks_return}

abbrev passed : ℤ → ℕ → ℕ
passed (pos d) w = w + d
passed (negsuc d) w = w

-- The world is the instant.
abbrev wall_clock : Clock ℕ
wall_clock = record {
  now = λ w. (w, w);
  wait = λ d w. (none, passed d w);
  context_error = λ w. (none, w);
}

-- The element 7 is there from 250 ms on.
abbrev coming : ℕ → Look ℕ × ℕ
coming w = (if ltb w 250_000_000 then absent else seen 7, w)

abbrev needed : LookupOptions
needed = record { is_optional = false; timeout = some (pos 1_000_000_000) }

abbrev hurried : LookupOptions
hurried = record { is_optional = false; timeout = some (pos 150_000_000) }

comes :
    find wall_clock coming (record { latest_interaction = none }) needed 0
    ≡ some (returns (some 7), 300_000_000)
unfolding find find_until adjusted_deadline non_negative_duration look_until look pause min_duration
comes = refl

-- The last wait is cut to what is left.
too_late :
    find wall_clock coming (record { latest_interaction = none }) hurried 0
    ≡ some (element_not_found, 150_000_000)
unfolding find find_until adjusted_deadline non_negative_duration look_until look pause min_duration
too_late = refl

stays :
    wait_until_not_visible wall_clock coming (pos 600_000_000) 300_000_000
    ≡ some (remained_visible, 900_000_000)
unfolding wait_until_not_visible condition_not_visible condition_not_visible_until
    non_negative_duration look_until look min_duration
stays = refl

-- The first look is behind a second.
appears : wait_until_visible wall_clock coming false 0 ≡ (returns (some 7), 1_000_000_000)
unfolding wait_until_visible visible_attempts look
appears = refl

passes : (d : ℤ) (w : ℕ) → w ≤ passed d w
passes (pos d) w = omega arith
passes (negsuc d) w = omega arith

wall_clock-Advances : Advances wall_clock (λ w. w)
wall_clock-Advances = record {
  reads = λ w. (omega arith, omega arith);
  waits = λ d w e. omega arith;
  waits_forwards = passes;
  checks_forwards = λ w. omega arith;
}

looks_return_example :
    ((r : Waited (Option ℕ)) × (w' : ℕ) × (find_until wall_clock coming needed 1_000_000_000 0
        ≡ some (r, w'))
      × Found wall_clock coming (λ w. w) 1_000_000_000 needed (r, w'))
    × ((r : Waited Bool) × (w' : ℕ) × (condition_not_visible_until wall_clock coming 1_000_000_000 0
          ≡ some (r, w'))
        × Gone wall_clock coming (λ w. w) 1_000_000_000 (r, w'))
looks_return_example =
    looks_return wall_clock coming (λ w. w) 1_000_000_000 wall_clock-Advances (λ w. omega arith)
      needed 0
