-- ===== src/History/Tests.antt =====
-- Runs of the history, and its theorems at concrete inputs.
use blackbox_exporter_with_g.Common.{ℕ, String, ◌≡◌, refl, Bool, true, false, List, [], ◌∷◌, arith}
use blackbox_exporter_with_g.History.{
  Result, ResultHistory, new_history, preserve, evict, add, list,
}
use blackbox_exporter_with_g.History.Refinement.{
  Probed, results_from, add_all, window, failures, add_all-windows,
}
use blackbox_exporter_with_g.History.Ids.{IsValid, add-IsValid}

abbrev probed : String → Bool → Probed
probed target success = record {
  module_name = "m";
  target = target;
  debug_output = "";
  success = success;
}

abbrev five : List Probed
five =
    probed "a" false ∷ probed "b" true ∷ probed "c" false ∷ probed "d" true ∷ probed "e" true ∷ []

abbrev kept : String → ℕ → Bool → Result
kept target id success = record {
  id = id;
  module_name = "m";
  target = target;
  debug_output = "";
  success = success;
}

-- With room for two results, two failures are kept beside the last two results.
five_shown :
    list (add_all (new_history 2) five)
    ≡ kept "a" 0 false ∷ kept "c" 2 false ∷ kept "d" 3 true ∷ kept "e" 4 true ∷ []
unfolding list add_all add evict preserve
five_shown = refl

add_all-windows_example :
    ((add_all (new_history 2) five).results ≡ window 2 (results_from 0 five))
    × ((add_all (new_history 2) five).preserved_failed_results ≡ failures 2 (results_from 0 five))
add_all-windows_example = add_all-windows 2 five

abbrev sample : ResultHistory
sample = record {
  next_id = 5;
  results = kept "d" 3 true ∷ kept "e" 4 false ∷ [];
  preserved_failed_results = kept "a" 0 false ∷ kept "c" 2 false ∷ [];
  max_results = 2;
}

sample-IsValid : IsValid sample
unfolding list
sample-IsValid = record {
  rising = omega arith;
  below = omega arith;
  failed = (refl, (refl, tt));
  results_fit = omega arith;
  preserved_fit = omega arith;
}

add-IsValid_example : IsValid (add sample "m" "f" "" true)
add-IsValid_example = add-IsValid sample "m" "f" "" true (omega arith) sample-IsValid
