-- ===== src/Engine/Ledger/Examples.antt =====
-- Tests of internal/engine/result_ledger.go, and its theorems at concrete results.
use flowbaton.Prelude.{
  ℕ, ◌≡◌, ◌↔◌, refl, [], ◌∷◌, Bool, true, none, some, ◌==◌, not, ◌&&◌, if◌then◌else◌,
}
use flowbaton.Prelude.Int.{pos}
use flowbaton.Matching.Kept.{Occurs}
use flowbaton.Matching.Rank.{slice_stable}
use flowbaton.Engine.Results.{
  completed, failed, raw, sealed, CommandMetadata, CommandResult, same_stored_error,
  same_sealed_error, same_command_result,
}
use flowbaton.Engine.Results.Same.{IsComparable}
use flowbaton.Engine.Ledger.{
  CommandResultLedger, new_ledger, record_result, result_of, authenticate, redeem_exact_error,
  snapshot_after,
}
use flowbaton.Engine.Ledger.Recorded.{
  IsConsistent, new_ledger-IsConsistent, refuses, accepts, result_of-record_result,
}
use flowbaton.Engine.Ledger.Authentic.{Stays, authenticate-record_result}
use flowbaton.Engine.Ledger.Genuine.{Genuine, authenticate-Genuine}
use flowbaton.Engine.Ledger.Orders.{IsRising, slice_stable-Sorts}
use flowbaton.Engine.Ledger.Collected.{IsAnswer}
use flowbaton.Engine.Ledger.Snapshot.{snapshot_after-IsAnswer}

abbrev equal : ℕ → ℕ → Bool
equal a b = a == b

abbrev no_metadata : CommandMetadata ℕ
no_metadata = record {
  number_of_runs = pos 1;
  number_of_runs_set = true;
  evaluated_command = some 5;
  log_messages = some ("ready" ∷ []);
  insight = "";
  ai_reasoning = "";
}

-- The failure of a pressed key, sealed by the executor, with the exact error that it publishes.
abbrev pressed : CommandResult ℕ
pressed = record {
  identity = some 70;
  root_run_id = "run";
  sequence = 2;
  depth = pos 0;
  command = 5;
  outcome = failed;
  product_error = some (sealed 1 40);
  retry_classification = some (record {
    classification = some (sealed 2 41);
    publication =
        some (record { published = some (sealed 3 40); classification = some (sealed 4 41) });
  });
  started_at = 100;
  finished_at = 130;
  duration = pos 30;
  metadata = no_metadata;
  artifacts =
      some (record { kind = "shot"; path = "a.png"; metadata = some (("depth", "0") ∷ []) } ∷ []);
}

-- A child that went well, with a lower sequence.
abbrev child : CommandResult ℕ
child = record pressed {
  identity = some 60;
  sequence = 1;
  depth = pos 1;
  outcome = completed;
  product_error = none;
  retry_classification = none;
}

-- A result whose error was never sealed.
abbrev foreign : CommandResult ℕ
foreign = record child { identity = some 80; sequence = 3; product_error = some (raw 9) }

abbrev one_row : CommandResultLedger ℕ
one_row = (record_result pressed new_ledger).1

abbrev two_rows : CommandResultLedger ℕ
two_rows = (record_result child one_row).1

abbrev three_rows : CommandResultLedger ℕ
three_rows = (record_result foreign two_rows).1

foreign_is_read : result_of equal three_rows 3 ≡ some foreign
unfolding result_of record_result same_command_result same_stored_error same_sealed_error
foreign_is_read = refl

foreign_is_not_authentic : authenticate equal three_rows foreign ≡ none
unfolding authenticate record_result same_command_result same_stored_error same_sealed_error
foreign_is_not_authentic = refl

known_sequence : refuses (record_result child three_rows).0 ≡ true
unfolding record_result
known_sequence = refl

redeemed :
    redeem_exact_error equal three_rows (some pressed)
    ≡ some (record { published = some (raw 40); classification = some (raw 41) })
unfolding redeem_exact_error record_result same_command_result same_stored_error same_sealed_error
redeemed = refl

pressed-IsComparable : IsComparable equal pressed
pressed-IsComparable = record { command = refl; evaluated = refl; keyed = ((refl, tt), tt) }

child-IsComparable : IsComparable equal child
child-IsComparable = record { command = refl; evaluated = refl; keyed = ((refl, tt), tt) }

foreign-IsComparable : IsComparable equal foreign
foreign-IsComparable = record { command = refl; evaluated = refl; keyed = ((refl, tt), tt) }

one_row-IsConsistent : IsConsistent one_row
one_row-IsConsistent =
    (result_of-record_result equal pressed new_ledger 2 new_ledger-IsConsistent pressed-IsComparable
      (tt, (tt, (tt, tt)))).2

two_rows-IsConsistent : IsConsistent two_rows
two_rows-IsConsistent =
    (result_of-record_result equal child one_row 1 one_row-IsConsistent child-IsComparable
      (tt, tt)).2

three_rows-IsConsistent : IsConsistent three_rows
three_rows-IsConsistent =
    (result_of-record_result equal foreign two_rows 3 two_rows-IsConsistent foreign-IsComparable
      (tt, tt)).2

result_of-record_result_example :
    (result_of equal three_rows 3 ≡ (
      if accepts two_rows foreign && foreign.sequence == 3
      then some foreign
      else result_of equal two_rows 3))
    × (refuses (record_result foreign two_rows).0 ≡ not (accepts two_rows foreign))
    × IsConsistent three_rows
result_of-record_result_example =
    result_of-record_result equal foreign two_rows 3 two_rows-IsConsistent foreign-IsComparable
      (tt, tt)

accepts-child : accepts one_row child ≡ true
unfolding record_result
accepts-child = refl

pressed_in_one : authenticate equal one_row pressed ≡ some pressed
unfolding authenticate record_result same_command_result same_stored_error same_sealed_error
pressed_in_one = refl

pressed_in_three : authenticate equal three_rows pressed ≡ some pressed
unfolding authenticate record_result same_command_result same_stored_error same_sealed_error
pressed_in_three = refl

authenticate-record_result_example :
    (authenticate equal two_rows child
      ≡ (if accepts one_row child then some child else authenticate equal one_row child))
    × Stays equal (authenticate equal one_row pressed) (authenticate equal two_rows pressed)
authenticate-record_result_example =
    authenticate-record_result equal child pressed 60 one_row refl child-IsComparable (tt, tt)

-- The row in the other map is that of another result.
tampered_is_not_authentic :
    authenticate equal (record three_rows { by_sequence = (2, child) ∷ [] }) pressed ≡ none
unfolding authenticate record_result same_command_result same_stored_error same_sealed_error
tampered_is_not_authentic = refl

authenticate-Genuine_example : Genuine equal three_rows pressed pressed
authenticate-Genuine_example =
    authenticate-Genuine equal three_rows pressed pressed pressed_in_three

snapshot_after_example :
    IsRising (snapshot_after equal slice_stable three_rows 1)
    × (Occurs pressed (snapshot_after equal slice_stable three_rows 1)
        ↔ IsAnswer equal three_rows 1 pressed)
snapshot_after_example =
    snapshot_after-IsAnswer equal three_rows 1 slice_stable pressed slice_stable-Sorts
      three_rows-IsConsistent
