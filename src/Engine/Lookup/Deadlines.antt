-- ===== src/Engine/Lookup/Deadlines.antt =====
-- The two forms of a lookup's budget, AdjustedTimeout and adjustedDeadline of
-- internal/engine/lookup.go.
use flowbaton.Prelude.{
  ℕ, ◌+◌, ◌-◌, ◌≤◌, ◌≡◌, Option, none, some, ltb, leb, inl, inr, refl, Option-cases, if◌then◌else◌,
  arith, inl, inr,
}
use flowbaton.Prelude.Int.{sub_ℕ, pos_part}
use flowbaton.Engine.Polling.{non_negative_duration}
use flowbaton.Engine.Lookup.Timeouts.{
  LookupOptions, Watermark, base_timeout, adjusted_timeout, adjusted_deadline,
}

deadline-at :
    (base latest now : ℕ)
    → (if ltb latest now
        then (if ltb (latest + base) now then now else latest + base)
        else now + base)
      ≡ now
        + (if leb (pos_part (sub_ℕ now latest)) 0
            then base
            else non_negative_duration (sub_ℕ base (now - latest)))
unfolding non_negative_duration
deadline-at base latest now = ground arith

-- At one reading of the clock, the deadline of a lookup is the reading and the adjusted timeout:
-- with an explicit timeout, with none and no interaction, and with an interaction before, at and
-- behind the reading. A lookup with no explicit timeout gets no more than its default.
pub adjusted_deadline-adjusted_timeout :
    (mark : Watermark) (options : LookupOptions) (now : ℕ)
    → (adjusted_deadline mark options now ≡ now + adjusted_timeout mark options now)
      × (adjusted_timeout mark (record options { timeout = none }) now ≤ base_timeout options)
unfolding adjusted_deadline adjusted_timeout non_negative_duration
adjusted_deadline-adjusted_timeout mark options now = elim (Option-cases options.timeout) [
  | inr (t, e) ↦ (rw e refl, bounded (mark.latest_interaction))
  | inl e ↦ elim (Option-cases mark.latest_interaction) [
    | inl never ↦ (rw (e, never) refl, bounded (mark.latest_interaction))
    | inr (latest, known) ↦ (
      rw (e, known) (deadline-at (base_timeout options) latest now),
      bounded (mark.latest_interaction),
    )
  ]
]
  where
    bounded :
        (latest : Option ℕ)
        → adjusted_timeout
            (record { latest_interaction = latest })
            (record options { timeout = none })
            now
          ≤ base_timeout options
    bounded none = omega arith
    bounded (some latest) = ground arith
