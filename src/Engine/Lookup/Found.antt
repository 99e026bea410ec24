-- ===== src/Engine/Lookup/Found.antt =====
-- What `findUntil` of internal/engine/lookup.go and `conditionNotVisibleUntil` of
-- internal/engine/wait.go return.
use mathlib.Core.Option.{some-injective}
use flowbaton.Prelude.{
  ℕ, ◌≤◌, ◌≡◌, inl, inr, refl, subst, Bool, true, false, Bool-cases, Option, none, some,
  Option-cases, arith,
}
use flowbaton.Engine.Polling.{Clock, pause, not_visible_poll_interval}
use flowbaton.Engine.Polling.Deadline.{Advances, pause-Rests, wait-Rests}
use flowbaton.Engine.Lookup.{
  Look, seen, absent, look_failed, Waited, returns, raises, element_not_found, remained_visible,
  not_visible_in_time, look, look_fuel, found_ends, gone_ends, not_found, find_until,
  condition_not_visible_until,
}
use flowbaton.Engine.Lookup.Timeouts.{lookup_poll_interval, LookupOptions}
use flowbaton.Engine.Lookup.Looks.{LookEnd, look_until-Concludes}

module _ {World Element : Type 0} (clock : Clock World) (find_once : World → Look Element × World)
    (time : World → ℕ) (deadline : ℕ) where
  -- A look at the element or its absence, behind which the clock reads the deadline or later.
  abbrev pub Missed : Look Element → World → Type 0
  Missed found w' =
      (w : World) × (w₁ : World) × (look clock find_once w ≡ (found, w₁))
      × (w' ≡ (clock.now w₁).1)
      × (deadline ≤ (clock.now w₁).0)

  -- What a lookup's return says.
  abbrev pub Found : LookupOptions → Waited (Option Element) × World → Type 0
  Found options (returns (some element), w') =
      (w : World) × (look clock find_once w ≡ (seen element, w'))
  Found options (returns none, w') = (options.is_optional ≡ true) × Missed absent w'
  Found options (element_not_found, w') = (options.is_optional ≡ false) × Missed absent w'
  Found options (raises e, w') = Unit {0}
  Found options (remained_visible, w') = false ≡ true
  Found options (not_visible_in_time, w') = false ≡ true

  -- What the return of the wait for absence says.
  abbrev pub Gone : Waited Bool × World → Type 0
  Gone (returns true, w') = (w : World) × (look clock find_once w ≡ (absent, w'))
  Gone (returns false, w') = (element : Element) × Missed (seen element) w'
  Gone (raises e, w') = Unit {0}
  Gone (element_not_found, w') = false ≡ true
  Gone (remained_visible, w') = false ≡ true
  Gone (not_visible_in_time, w') = false ≡ true

  -- No look takes the clock back.
  abbrev pub LooksForwards : Type 0
  LooksForwards = (w : World) → time w ≤ time ((find_once w).1)

  look-forwards :
      Advances clock time → LooksForwards → (w : World) → time w ≤ time ((look clock find_once w).1)
  unfolding look
  look-forwards advances forwards w =
      let on = forwards w in
      let checked = advances.checks_forwards ((find_once w).1) in ground arith

  late-Found :
      (options : LookupOptions) (w' : World)
      → Missed absent w'
      → Found options (not_found clock find_once options, w')
  late-Found options w' missed = elim (Bool-cases options.is_optional) [
    | inl e ↦ rw e (refl, missed)
    | inr e ↦ rw e (refl, missed)
  ]

  LookEnd-Found :
      (options : LookupOptions) (r : Waited (Option Element)) (w' : World)
      → LookEnd clock find_once
          (found_ends clock find_once)
          (not_found clock find_once options)
          (pause clock)
          lookup_poll_interval
          deadline
          (r, w')
      → Found options (r, w')
  LookEnd-Found options r w' (inl (w, seen element, looked, e)) =
      subst (λ r'. Found options (r', w')) (some-injective _ r e) (w, looked)
  LookEnd-Found options r w' (inl (w, absent, looked, e)) = cc
  LookEnd-Found options r w' (inl (w, look_failed x, looked, e)) =
      subst (λ r'. Found options (r', w')) (some-injective _ r e) tt
  LookEnd-Found options r w' (inr (inl (w, w₁, seen element, looked, e, same, over, late))) = cc
  LookEnd-Found options r w' (inr (inl (w, w₁, absent, looked, e, same, over, late))) =
      rw late (late-Found options w' (w, w₁, looked, same, over))
  LookEnd-Found options r w' (inr (inl (w, w₁, look_failed x, looked, e, same, over, late))) = cc
  LookEnd-Found options r w' (inr (inr (x, w, d, failed, e))) = rw e tt

  LookEnd-Gone :
      (r : Waited Bool) (w' : World)
      → LookEnd clock find_once
          (gone_ends clock find_once)
          (returns false)
          clock.wait
          not_visible_poll_interval
          deadline
          (r, w')
      → Gone (r, w')
  LookEnd-Gone r w' (inl (w, seen element, looked, e)) = cc
  LookEnd-Gone r w' (inl (w, absent, looked, e)) =
      subst (λ r'. Gone (r', w')) (some-injective _ r e) (w, looked)
  LookEnd-Gone r w' (inl (w, look_failed x, looked, e)) =
      subst (λ r'. Gone (r', w')) (some-injective _ r e) tt
  LookEnd-Gone r w' (inr (inl (w, w₁, seen element, looked, e, same, over, late))) =
      rw late (element, (w, w₁, looked, same, over))
  LookEnd-Gone r w' (inr (inl (w, w₁, absent, looked, e, same, over, late))) = cc
  LookEnd-Gone r w' (inr (inl (w, w₁, look_failed x, looked, e, same, over, late))) = cc
  LookEnd-Gone r w' (inr (inr (x, w, d, failed, e))) = rw e tt

  find_until-Found :
      Advances clock time
      → LooksForwards
      → (options : LookupOptions) (w : World)
      → (r : Waited (Option Element)) × (w' : World) × (find_until clock find_once options deadline
            w
          ≡ some (r, w'))
        × Found options (r, w')
  unfolding find_until
  find_until-Found advances forwards options w = elim (Option-cases (clock.context_error w).0) [
    | inr (c, cancelled) ↦
        (raises c, (clock.context_error w).1, rw (cancelled, find_until) refl, tt)
    | inl running ↦
        let ((r, w'), same, ended) =
          look_until-Concludes clock find_once (found_ends clock find_once)
            (not_found clock find_once options) (pause clock) lookup_poll_interval deadline time
            advances (pause-Rests clock time advances) (look-forwards advances forwards)
            (omega arith) (look_fuel clock find_once lookup_poll_interval deadline)
            ((clock.context_error w).1) (omega arith) in
        (r, w', rw (running, find_until) same, LookEnd-Found options r w' ended)
  ]

  condition_not_visible_until-Gone :
      Advances clock time
      → LooksForwards
      → (w : World)
      → (r : Waited Bool) × (w' : World) × (condition_not_visible_until clock find_once deadline w
          ≡ some (r, w'))
        × Gone (r, w')
  unfolding condition_not_visible_until
  condition_not_visible_until-Gone advances forwards w =
      elim (Option-cases (clock.context_error w).0) [
        | inr (c, cancelled) ↦ (
          raises c,
          (clock.context_error w).1,
          rw (cancelled, condition_not_visible_until) refl,
          tt,
        )
        | inl running ↦
            let ((r, w'), same, ended) =
              look_until-Concludes clock find_once (gone_ends clock find_once) (returns false)
                clock.wait not_visible_poll_interval deadline time advances
                (wait-Rests clock time advances) (look-forwards advances forwards) (omega arith)
                (look_fuel clock find_once not_visible_poll_interval deadline)
                ((clock.context_error w).1) (omega arith) in
            (r, w', rw (running, condition_not_visible_until) same, LookEnd-Gone r w' ended)
      ]

  -- Under a clock that advances and looks that do not turn it back, the lookup and the wait for
  -- absence return, on fuel for every interval up to the deadline. The lookup returns an element
  -- only from a look with no error and no cancellation behind it; and it gives up, with no element
  -- where it is optional and with an error otherwise, only behind a look that saw none, with the
  -- clock at the deadline or past it. The wait says that the element is gone only behind a look that
  -- saw none, and that it is not gone only behind a look that still saw one, with the clock at the
  -- deadline or past it.
  pub looks_return :
      Advances clock time
      → LooksForwards
      → (options : LookupOptions) (w : World)
      → ((r : Waited (Option Element)) × (w' : World) × (find_until clock find_once options deadline
              w
            ≡ some (r, w'))
          × Found options (r, w'))
        × ((r : Waited Bool) × (w' : World) × (condition_not_visible_until clock find_once deadline
                w
              ≡ some (r, w'))
            × Gone (r, w'))
  looks_return advances forwards options w = (
    find_until-Found advances forwards options w,
    condition_not_visible_until-Gone advances forwards w,
  )
