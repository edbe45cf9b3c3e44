-- ===== src/History/Refinement.antt =====
-- The history refines the list of all results ever added: it keeps the last `max_results` of them
-- and the last `max_results` failures among the older ones.
use mathlib.Core.List.{append_assoc, append-nil, tail}
use blackbox_exporter_with_g.Common.{
  ℕ, ◌+◌, ◌-◌, ◌%◌, ◌^◌, String, ◌≡◌, refl, ap, ◌∙◌, Bool, not, true, false, List, [], ◌∷◌, ◌++◌,
  arith, inl, inr, length, last_n, but_last_n, select, select-append, length-append, Bool-cases,
  ltb, if◌then◌else◌,
}
use blackbox_exporter_with_g.History.{Result, ResultHistory, new_history, preserve, evict, add}
use blackbox_exporter_with_g.History.Window.{
  last_n-push, last_n-push_full, but_last_n-push_full, last_n-push_room, but_last_n-push_room,
}

abbrev pub is_failed : Result → Bool
is_failed r = not r.success

-- What a caller of `Add` gives.
pub record Probed : Type 0 where
  pub module_name : String
  pub target : String
  pub debug_output : String
  pub success : Bool

abbrev pub result_of : ℕ → Probed → Result
result_of id p = record {
  id = id;
  module_name = p.module_name;
  target = p.target;
  debug_output = p.debug_output;
  success = p.success;
}

-- The results of the probes, in order, the first with the id `n`.
abbrev pub results_from : ℕ → List Probed → List Result
results_from n [] = []
results_from n (p ∷ ps) = result_of n p ∷ results_from ((n + 1) % 2 ^ 64) ps

abbrev pub add_probed : ResultHistory → Probed → ResultHistory
add_probed rh p = add rh p.module_name p.target p.debug_output p.success

unfoldable pub add_all : ResultHistory → List Probed → ResultHistory
add_all rh [] = rh
add_all rh (p ∷ ps) = add_all (add_probed rh p) ps

-- The two lists of a history that keeps `max` of `everything`.
abbrev pub window : ℕ → List Result → List Result
window max everything = last_n max everything

abbrev pub failures : ℕ → List Result → List Result
failures max everything = last_n max (select is_failed (but_last_n max everything))

-- One more dropped result, failed or not.
failures-push :
    (max : ℕ) (dropped : List Result) (r : Result)
    → last_n max (select is_failed (dropped ++ r ∷ [])) ≡ (
        if not r.success
        then preserve max (last_n max (select is_failed dropped)) r
        else last_n max (select is_failed dropped))
unfolding preserve
failures-push max dropped r = elim (Bool-cases r.success) [
  | inl good ↦ simp (good, select-append) (ap (last_n max) (append-nil (select is_failed dropped)))
  | inr failed ↦ simp (failed, select-append) (last_n-push max (select is_failed dropped) r)
]

module _ (max : ℕ) (everything : List Result) (r oldest : Result) (rest : List Result) where
  module _ (e : window max everything ++ r ∷ [] ≡ oldest ∷ rest) where
    evict-full :
        ltb max (length (oldest ∷ rest)) ≡ true
        → evict max (oldest ∷ rest) (failures max everything)
          ≡ (window max (everything ++ r ∷ []), failures max (everything ++ r ∷ []))
    unfolding evict
    evict-full full =
        let full' : ltb max (length (window max everything ++ r ∷ [])) ≡ true = rw e full in
        let kept : window max (everything ++ r ∷ []) ≡ rest =
          last_n-push_full max everything r full' ∙ ap tail e in
        let preserved =
          ap (λ b. last_n max (select is_failed b)) (but_last_n-push_full max everything r full' e)
          ∙ failures-push max (but_last_n max everything) oldest in
        rw full (cc (kept, preserved))

    evict-room :
        ltb max (length (oldest ∷ rest)) ≡ false
        → evict max (oldest ∷ rest) (failures max everything)
          ≡ (window max (everything ++ r ∷ []), failures max (everything ++ r ∷ []))
    unfolding evict
    evict-room room =
        let room' : ltb max (length (window max everything ++ r ∷ [])) ≡ false = rw e room in
        let kept : window max (everything ++ r ∷ []) ≡ oldest ∷ rest =
          last_n-push_room max everything r room' ∙ e in
        let preserved =
          ap (λ b. last_n max (select is_failed b)) (but_last_n-push_room max everything r room') in
        rw room (cc (kept, preserved))

evict-windows :
    (max : ℕ) (everything : List Result) (r : Result) (k : List Result)
    → window max everything ++ r ∷ [] ≡ k
    → evict max k (failures max everything)
      ≡ (window max (everything ++ r ∷ []), failures max (everything ++ r ∷ []))
evict-windows max everything r [] e =
    absurd (omega (arith, ap length e, length-append (window max everything) (r ∷ [])))
evict-windows max everything r (oldest ∷ rest) e =
    elim (Bool-cases (ltb max (length (oldest ∷ rest)))) [
      | inl full ↦ evict-full max everything r oldest rest e full
      | inr room ↦ evict-room max everything r oldest rest e room
    ]

-- The history holds the two windows over `everything`.
pub record Shows (everything : List Result) (rh : ResultHistory) : Type 0 where
  pub kept : rh.results ≡ window rh.max_results everything
  pub preserved : rh.preserved_failed_results ≡ failures rh.max_results everything

add-Shows :
    (everything : List Result) (rh : ResultHistory) (p : Probed)
    → Shows everything rh
    → Shows (everything ++ result_of rh.next_id p ∷ []) (add_probed rh p)
unfolding add
add-Shows everything rh p s =
    let r = result_of rh.next_id p in
    let step =
      ap (λ k. evict rh.max_results (k ++ r ∷ []) rh.preserved_failed_results) s.kept
      ∙ ap (λ f. evict rh.max_results (window rh.max_results everything ++ r ∷ []) f) s.preserved
      ∙ evict-windows rh.max_results everything r _ refl in
    record { kept = ap (λ t. t.0) step; preserved = ap (λ t. t.1) step }

add_all-Shows :
    (everything : List Result) (rh : ResultHistory) (ps : List Probed)
    → Shows everything rh
    → Shows (everything ++ results_from rh.next_id ps) (add_all rh ps)
unfolding add_all add
add_all-Shows everything rh [] s = rw append-nil s
add_all-Shows everything rh (p ∷ ps) s =
    rw (← append_assoc everything (result_of rh.next_id p ∷ []) _) (
      add_all-Shows (everything ++ result_of rh.next_id p ∷ []) (add_probed rh p) ps
        (add-Shows everything rh p s))

new_history-Shows : (max : ℕ) → Shows [] (new_history max)
new_history-Shows max =
    let nothing : 0 - max ≡ 0 = omega arith in
    record { kept = rw nothing; preserved = rw (nothing, nothing) }

max_results-add_all :
    (rh : ResultHistory) (ps : List Probed) → (add_all rh ps).max_results ≡ rh.max_results
unfolding add_all add
max_results-add_all rh [] = refl
max_results-add_all rh (p ∷ ps) = max_results-add_all (add_probed rh p) ps

-- After any calls of `Add` on a new history, `results` holds the last `max` results added, and
-- `preservedFailedResults` the last `max` failures among the results that are older than those,
-- each in the order in which they were added.
pub add_all-windows :
    (max : ℕ) (ps : List Probed)
    → ((add_all (new_history max) ps).results ≡ window max (results_from 0 ps))
      × ((add_all (new_history max) ps).preserved_failed_results ≡ failures max (results_from 0 ps))
add_all-windows max ps =
    let s = add_all-Shows [] (new_history max) ps (new_history-Shows max) in
    let same = max_results-add_all (new_history max) ps in
    (
      s.kept ∙ ap (λ m. window m (results_from 0 ps)) same,
      s.preserved ∙ ap (λ m. failures m (results_from 0 ps)) same,
    )
