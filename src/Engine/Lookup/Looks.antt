-- ===== src/Engine/Lookup/Looks.antt =====
-- The loops of internal/engine/lookup.go and internal/engine/wait.go end, and with what.
use flowbaton.Prelude.{
  ℕ, zero, suc, ◌+◌, ◌≤◌, ◌<◌, ◌≡◌, ◌∙◌, ◌⊎◌, inl, inr, refl, true, false, Bool-cases, Option, none,
  some, Option-cases, ltb, ltb→lt, arith,
}
use flowbaton.Prelude.Int.{ℤ, sub_ℕ}
use flowbaton.Engine.Polling.{Clock, min_duration}
use flowbaton.Engine.Polling.Deadline.{Advances, Rests, rest-reaches, Enough, Enough-again}
use flowbaton.Engine.Lookup.{Look, Waited, raises, look, look_until}

module _ {World Element A : Type 0} (clock : Clock World) (find_once : World → Look Element × World)
    (ends : Look Element → Option (Waited A)) (late : Waited A)
    (rest : ℤ → World → Option ℕ × World) (interval deadline : ℕ) where
  -- The loop ended on a look that ends it, at the deadline behind a look that does not, or on an
  -- error of a rest.
  abbrev pub LookEnd : Waited A × World → Type 0
  LookEnd (r, w') =
      ((w : World) × (found : Look Element) × (look clock find_once w ≡ (found, w'))
        × (ends found ≡ some r))
      ⊎ (((w : World) × (w₁ : World) × (found : Look Element) × (look clock find_once w
              ≡ (found, w₁))
            × (ends found ≡ none)
            × (w' ≡ (clock.now w₁).1)
            × (deadline ≤ (clock.now w₁).0)
            × (r ≡ late))
          ⊎ ((e : ℕ) × (w : World) × (d : ℤ) × (rest d w ≡ (some e, w')) × (r ≡ raises e)))

  abbrev run : ℕ → World → Option (Waited A × World)
  run fuel w = look_until clock find_once ends late rest fuel interval deadline w

  -- The world behind a look, the wait that is due there, and the rest.
  abbrev seen_from : World → World
  seen_from w = (look clock find_once w).1

  abbrev delay_from : World → ℤ
  delay_from w = min_duration interval (sub_ℕ deadline (clock.now (seen_from w)).0)

  abbrev rested_from : World → Option ℕ × World
  rested_from w = rest (delay_from w) ((clock.now (seen_from w)).1)

  run-ended :
      (fuel : ℕ) (w : World) (r : Waited A)
      → ends (look clock find_once w).0 ≡ some r
      → run (suc fuel) w ≡ some (r, seen_from w)
  unfolding look_until
  run-ended fuel w r e = ground arith

  run-late :
      (fuel : ℕ) (w : World)
      → ends (look clock find_once w).0 ≡ none
      → ltb (clock.now (seen_from w)).0 deadline ≡ false
      → run (suc fuel) w ≡ some (late, (clock.now (seen_from w)).1)
  unfolding look_until
  run-late fuel w e over = ground arith

  run-broken :
      (fuel : ℕ) (w : World) (x : ℕ)
      → ends (look clock find_once w).0 ≡ none
      → ltb (clock.now (seen_from w)).0 deadline ≡ true
      → (rested_from w).0 ≡ some x
      → run (suc fuel) w ≡ some (raises x, (rested_from w).1)
  unfolding look_until
  run-broken fuel w x e early failed = ground arith

  run-again :
      (fuel : ℕ) (w : World)
      → ends (look clock find_once w).0 ≡ none
      → ltb (clock.now (seen_from w)).0 deadline ≡ true
      → (rested_from w).0 ≡ none
      → run (suc fuel) w ≡ run fuel ((rested_from w).1)
  unfolding look_until
  run-again fuel w e early quiet = ground arith

  -- The loop ends so, on fuel.
  abbrev pub Concludes : Option (Waited A × World) → Type 0
  Concludes x = (r : Waited A × World) × (x ≡ some r) × LookEnd r

  concludes :
      (x : Option (Waited A × World)) (r : Waited A × World) → x ≡ some r → LookEnd r → Concludes x
  concludes x r e h = (r, e, h)

  early_time :
      (time : World → ℕ)
      → Advances clock time
      → ((w : World) → time w ≤ time (seen_from w))
      → (w : World) → ltb (clock.now (seen_from w)).0 deadline ≡ true
      → time w < deadline
  early_time time advances forwards w early =
      let before = ltb→lt (clock.now (seen_from w)).0 deadline early in
      let read = advances.reads (seen_from w) in omega (arith, before, read.0, forwards w)

  rested_time :
      (time : World → ℕ)
      → Advances clock time
      → Rests time rest
      → ((w : World) → time w ≤ time (seen_from w))
      → (w : World) → (rested_from w).0 ≡ none
      → (deadline ≤ time ((rested_from w).1)) ⊎ (time w + interval ≤ time ((rested_from w).1))
  rested_time time advances rests forwards w quiet =
      let read = advances.reads (seen_from w) in
      elim (rest-reaches time rest rests interval deadline (clock.now (seen_from w)).0
        ((clock.now (seen_from w)).1) (read.1) quiet) [
          | inl end ↦ inl end
          | inr far ↦ inr (omega (arith, far, read.0, forwards w))
        ]

  late_enough : (now : ℕ) → ltb now deadline ≡ false → deadline ≤ now
  late_enough now e = ground arith

  pub look_until-Concludes :
      (time : World → ℕ)
      → Advances clock time
      → Rests time rest
      → ((w : World) → time w ≤ time (seen_from w))
      → 0 < interval
      → (fuel : ℕ) (w : World) → Enough time interval deadline fuel w
      → Concludes (run fuel w)
  look_until-Concludes time advances rests forwards some_interval zero w enough =
      absurd (omega arith)
  look_until-Concludes time advances rests forwards some_interval (suc fuel) w enough =
      elim (Option-cases (ends (look clock find_once w).0)) [
        | inr (r, e) ↦ concludes _ _ (run-ended fuel w r e) (inl (w, _, refl, e))
        | inl e ↦ elim (Bool-cases (ltb (clock.now (seen_from w)).0 deadline)) [
          | inr over ↦
              concludes _ _ (run-late fuel w e over)
                (inr (inl (w, _, _, refl, e, refl, late_enough _ over, refl)))
          | inl early ↦ elim (Option-cases (rested_from w).0) [
            | inr (x, failed) ↦
                concludes _ _ (run-broken fuel w x e early failed)
                  (inr (inr (x, _, delay_from w, (λ i. (failed i, (rested_from w).1)), refl)))
            | inl quiet ↦
                let more =
                  look_until-Concludes time advances rests forwards some_interval fuel
                    ((rested_from w).1)
                    (Enough-again time interval deadline fuel w w ((rested_from w).1) some_interval
                      (early_time time advances forwards w early) (omega arith)
                      (rested_time time advances rests forwards w quiet) enough) in
                concludes _ _ (run-again fuel w e early quiet ∙ more.1) (more.2)
          ]
        ]
      ]
