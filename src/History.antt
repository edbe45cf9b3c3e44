-- ===== src/History.antt =====
-- prober/history.go: the bounded history of probe results. A `*Result` is not changed after it is
-- made, so a pointer is modelled by the value. An `int64` id is its bit pattern, a number below
-- 2 ^ 64, and `nextId++` wraps there; a pattern below 2 ^ 63 is the id itself, and one from there on
-- is a negative id. The mutex is held over the whole of each method, so a method
-- is one step.
pub mod Refinement
pub mod Ids
pub mod Lookup
mod Window
mod Tests
use mathlib.Core.List.{tail}
use blackbox_exporter_with_g.Common.{
  ℕ, ◌+◌, ◌%◌, ◌^◌, String, Bool, not, ◌&&◌, ◌||◌, Option, List, [], ◌∷◌, ◌++◌, length, find, ltb,
  if◌then◌else◌, ◌==◌, ℕ_eq, string_eq, none, some,
}

pub record Result : Type 0 where
  pub id : ℕ
  pub module_name : String
  pub target : String
  pub debug_output : String
  pub success : Bool

pub record ResultHistory : Type 0 where
  pub next_id : ℕ
  pub results : List Result
  pub preserved_failed_results : List Result
  pub max_results : ℕ

-- `&ResultHistory{MaxResults: max}`
abbrev pub new_history : ℕ → ResultHistory
new_history max = record {
  next_id = 0;
  results = [];
  preserved_failed_results = [];
  max_results = max;
}

-- `xs[1:]` is `tail xs`. The failure is kept, and the oldest kept failure goes if there are too many.
pub preserve : ℕ → List Result → Result → List Result
preserve max preserved oldest =
    let kept = preserved ++ oldest ∷ [] in if ltb max (length kept) then tail kept else kept

-- The results and the preserved failures after the append, by the length of the results.
pub evict : ℕ → List Result → List Result → List Result × List Result
unfolding preserve
evict max [] preserved = ([], preserved)
evict max (oldest ∷ rest) preserved =
    if ltb max (length (oldest ∷ rest))
    then (rest, if not oldest.success then preserve max preserved oldest else preserved)
    else (oldest ∷ rest, preserved)

pub add : ResultHistory → String → String → String → Bool → ResultHistory
add rh module_name target debug_output success =
    let r : Result = record {
      id = rh.next_id;
      module_name = module_name;
      target = target;
      debug_output = debug_output;
      success = success;
    } in
    let evicted = evict rh.max_results (rh.results ++ r ∷ []) rh.preserved_failed_results in
    record {
      next_id = (rh.next_id + 1) % 2 ^ 64;
      results = evicted.0;
      preserved_failed_results = evicted.1;
      max_results = rh.max_results;
    }

-- `List`, the results to show, oldest first.
unfoldable pub list : ResultHistory → List Result
list rh = rh.preserved_failed_results ++ rh.results

abbrev or_else {ℓ} : {A : Type ℓ} → Option A → Option A → Option A
or_else none second = second
or_else (some a) second = some a

pub get_by_id : ResultHistory → ℕ → Option Result
get_by_id rh id =
    or_else (find (λ r. r.id == id) rh.preserved_failed_results) (find (λ r. r.id == id) rh.results)

abbrev pub is_asked : String → String → Result → Bool
is_asked target module_name r =
    r.target == target && (module_name == "" || module_name == r.module_name)

pub get_by_target_and_module : ResultHistory → String → String → Option Result
get_by_target_and_module rh target module_name =
    or_else (find (is_asked target module_name) rh.preserved_failed_results)
      (find (is_asked target module_name) rh.results)
