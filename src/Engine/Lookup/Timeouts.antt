-- ===== src/Engine/Lookup/Timeouts.antt =====
-- The timeouts of a lookup in internal/engine/lookup.go: AdjustedTimeout, adjustedDeadline and the
-- latest interaction. Instants count nanoseconds from some beginning.
use flowbaton.Prelude.{ℕ, ◌+◌, ◌-◌, ◌*◌, Bool, Option, none, some, leb, ltb, if◌then◌else◌}
use flowbaton.Prelude.Int.{ℤ, sub_ℕ, pos_part}
use flowbaton.Engine.Polling.{millisecond, non_negative_duration}

abbrev pub lookup_timeout : ℕ
lookup_timeout = 17_000 * millisecond

abbrev pub optional_lookup_timeout : ℕ
optional_lookup_timeout = 7_000 * millisecond

abbrev pub lookup_poll_interval : ℕ
lookup_poll_interval = 100 * millisecond

pub record LookupOptions : Type 0 where
  pub is_optional : Bool
  -- A duration, which may be negative.
  pub timeout : Option ℤ

-- `latestInteraction`, where there is one.
pub record Watermark : Type 0 where
  pub latest_interaction : Option ℕ

-- `RecordInteraction`
unfoldable pub record_interaction : Watermark → ℕ → Watermark
record_interaction mark now = elim mark.latest_interaction [
  | none ↦ record { latest_interaction = some now }
  | some latest ↦ if ltb latest now then record { latest_interaction = some now } else mark
]

abbrev pub base_timeout : LookupOptions → ℕ
base_timeout options = if options.is_optional then optional_lookup_timeout else lookup_timeout

-- `AdjustedTimeout` at a reading of the clock.
unfoldable pub adjusted_timeout : Watermark → LookupOptions → ℕ → ℕ
unfolding non_negative_duration
adjusted_timeout mark options now = elim options.timeout [
  | some timeout ↦ non_negative_duration timeout
  | none ↦ elim mark.latest_interaction [
    | none ↦ base_timeout options
    | some latest ↦
        if leb (pos_part (sub_ℕ now latest)) 0
        then base_timeout options
        else non_negative_duration (sub_ℕ (base_timeout options) (now - latest))
  ]
]

-- `adjustedDeadline` at a reading of the clock.
unfoldable pub adjusted_deadline : Watermark → LookupOptions → ℕ → ℕ
unfolding non_negative_duration
adjusted_deadline mark options now = elim options.timeout [
  | some timeout ↦ now + non_negative_duration timeout
  | none ↦ elim mark.latest_interaction [
    | none ↦ now + base_timeout options
    | some latest ↦
        if ltb latest now
        then (if ltb (latest + base_timeout options) now
            then now
            else latest + base_timeout options)
        else now + base_timeout options
  ]
]
