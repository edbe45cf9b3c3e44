-- ===== src/History/Ids.antt =====
-- The ids of a history: they rise in the order in which results are listed, so no two are the same.
use blackbox_exporter_with_g.Common.{
  length-append, String, In, here, later, Bool, ℕ, ◌+◌, ◌%◌, ◌^◌, ◌≤◌, ◌<◌, ◌≡◌, false, List, [],
  ◌∷◌, ◌++◌, arith, inl, inr, length, All, All-append, ltb, Bool-cases, ℕ_eq,
}
use mathlib.Core.List.{append_assoc}
use blackbox_exporter_with_g.History.{Result, ResultHistory, preserve, evict, add, list}

-- From `lo`, each id is larger than the one before.
abbrev pub Rising : ℕ → List Result → Type 0
Rising lo [] = Unit
Rising lo (r ∷ rs) = (lo ≤ r.id) × Rising (r.id + 1) rs

-- What holds of a history between two calls of its methods.
pub record IsValid (rh : ResultHistory) : Type 0 where
  pub rising : Rising 0 (list rh)
  pub below : All (λ r. r.id < rh.next_id) (list rh)
  pub failed : All (λ r. r.success ≡ false) rh.preserved_failed_results
  pub results_fit : length rh.results ≤ rh.max_results
  pub preserved_fit : length rh.preserved_failed_results ≤ rh.max_results

Rising-weaken : (lo lo' : ℕ) (rs : List Result) → lo' ≤ lo → Rising lo rs → Rising lo' rs
Rising-weaken lo lo' [] h p = tt
Rising-weaken lo lo' (r ∷ rs) h p = (omega arith, p.1)

Rising-drop_middle :
    (lo : ℕ) (xs : List Result) (r : Result) (ys : List Result)
    → Rising lo (xs ++ r ∷ ys)
    → Rising lo (xs ++ ys)
Rising-drop_middle lo [] r ys p = Rising-weaken (r.id + 1) lo ys (omega arith) p.1
Rising-drop_middle lo (x ∷ xs) r ys p = (p.0, Rising-drop_middle (x.id + 1) xs r ys p.1)

Rising-snoc :
    (lo : ℕ) (xs : List Result) (r : Result)
    → Rising lo xs
    → lo ≤ r.id
    → All (λ x. x.id < r.id) xs
    → Rising lo (xs ++ r ∷ [])
Rising-snoc lo [] r p h q = (h, tt)
Rising-snoc lo (x ∷ xs) r p h q = (p.0, Rising-snoc (x.id + 1) xs r p.1 (omega arith) q.1)

-- What survives the loss of a member survives an eviction.
module _ (Q : List Result → Type 0)
    (drop_middle : (xs : List Result) (r : Result) (ys : List Result)
      → Q (xs ++ r ∷ ys)
      → Q (xs ++ ys)) where
  preserve-keeps :
      (max : ℕ) (preserved : List Result) (oldest : Result) (rest : List Result)
      → Q (preserved ++ oldest ∷ rest)
      → Q (preserve max preserved oldest ++ rest)
  unfolding preserve
  preserve-keeps max [] oldest rest q = elim (Bool-cases (ltb max 1)) [
    | inl full ↦ rw full (drop_middle [] oldest rest q)
    | inr room ↦ rw room q
  ]
  preserve-keeps max (p ∷ ps) oldest rest q =
      elim (Bool-cases (ltb max (length (p ∷ ps ++ oldest ∷ [])))) [
        | inl full ↦ rw (full, append_assoc) (drop_middle [] p (ps ++ oldest ∷ rest) q)
        | inr room ↦ rw (room, append_assoc) q
      ]

  evict-keeps :
      (max : ℕ) (k preserved : List Result)
      → Q (preserved ++ k)
      → Q ((evict max k preserved).1 ++ (evict max k preserved).0)
  unfolding evict
  evict-keeps max [] preserved q = q
  evict-keeps max (oldest ∷ rest) preserved q =
      elim (Bool-cases (ltb max (length (oldest ∷ rest)))) [
        | inl full ↦ elim (Bool-cases oldest.success) [
          | inl good ↦ simp (full, good) (drop_middle preserved oldest rest q)
          | inr bad ↦ simp (full, bad) (preserve-keeps max preserved oldest rest q)
        ]
        | inr room ↦ rw room q
      ]

All-drop_middle :
    (P : Result → Type 0) (xs : List Result) (r : Result) (ys : List Result)
    → All P (xs ++ r ∷ ys)
    → All P (xs ++ ys)
All-drop_middle P [] r ys h = h.1
All-drop_middle P (x ∷ xs) r ys h = (h.0, All-drop_middle P xs r ys h.1)

All-below_weaken :
    (n m : ℕ) (rs : List Result) → n ≤ m → All (λ r. r.id < n) rs → All (λ r. r.id < m) rs
All-below_weaken n m [] le h = tt
All-below_weaken n m (r ∷ rs) le h = (omega arith, All-below_weaken n m rs le h.1)

preserve-failed :
    (max : ℕ) (preserved : List Result) (oldest : Result)
    → oldest.success ≡ false
    → All (λ r. r.success ≡ false) preserved
    → All (λ r. r.success ≡ false) (preserve max preserved oldest)
unfolding preserve
preserve-failed max [] oldest bad h = ground arith
preserve-failed max (p ∷ ps) oldest bad h =
    let kept = All-append (λ r. r.success ≡ false) ps (oldest ∷ []) h.1 (bad, tt) in ground arith

evict-failed :
    (max : ℕ) (k preserved : List Result)
    → All (λ r. r.success ≡ false) preserved
    → All (λ r. r.success ≡ false) (evict max k preserved).1
unfolding evict
evict-failed max [] preserved h = h
evict-failed max (oldest ∷ rest) preserved h = ground (arith, preserve-failed max preserved oldest)

length-preserve :
    (max : ℕ) (preserved : List Result) (oldest : Result)
    → length preserved ≤ max
    → length (preserve max preserved oldest) ≤ max
unfolding preserve
length-preserve max [] oldest h = ground arith
length-preserve max (p ∷ ps) oldest h = ground (arith, length-append ps (oldest ∷ []))

length-evict :
    (max : ℕ) (k preserved : List Result)
    → length k ≤ max + 1
    → length preserved ≤ max
    → (length (evict max k preserved).0 ≤ max) × (length (evict max k preserved).1 ≤ max)
unfolding evict
length-evict max [] preserved h j = (omega arith, j)
length-evict max (oldest ∷ rest) preserved h j =
    ground (arith, length-preserve max preserved oldest)

-- As long as the next id is below the largest `int64`, so that no id is negative, the ids of a
-- history rise, its preserved results are failures, and both lists fit: `Add` keeps all of this.
pub add-IsValid :
    (rh : ResultHistory) (module_name target debug_output : String) (success : Bool)
    → rh.next_id + 1 < 2 ^ 63
    → IsValid rh
    → IsValid (add rh module_name target debug_output success)
unfolding add list
add-IsValid rh module_name target debug_output success room v =
    let r : Result = record {
      id = rh.next_id;
      module_name = module_name;
      target = target;
      debug_output = debug_output;
      success = success;
    } in
    let k = rh.results ++ r ∷ [] in
    let P = rh.preserved_failed_results in
    let next : (rh.next_id + 1) % 2 ^ 64 ≡ rh.next_id + 1 = omega arith in
    let lengths =
      length-evict rh.max_results k P
        (omega (arith, length-append rh.results (r ∷ []), v.results_fit)) v.preserved_fit in
    let older = All-below_weaken rh.next_id (rh.next_id + 1) (list rh) (omega arith) v.below in
    record {
      rising = evict-keeps (Rising 0) (Rising-drop_middle 0) rh.max_results k P (
          rw (← append_assoc P rh.results (r ∷ []))
            (Rising-snoc 0 (P ++ rh.results) r v.rising (omega arith) v.below));
      below = rw next (
          evict-keeps (All (λ x. x.id < rh.next_id + 1))
            (All-drop_middle (λ x. x.id < rh.next_id + 1)) rh.max_results k P
            (rw (← append_assoc P rh.results (r ∷ [])) (
              All-append (λ x. x.id < rh.next_id + 1) (P ++ rh.results) (r ∷ []) older
                (omega arith, tt))));
      failed = evict-failed rh.max_results k P v.failed;
      results_fit = lengths.0;
      preserved_fit = lengths.1;
    }

pub Rising-In : {r : Result} (lo : ℕ) (rs : List Result) → Rising lo rs → In r rs → lo ≤ r.id
Rising-In lo [] p m = elim m [ ]
Rising-In {r} lo (x ∷ rs) p (here e) = rw (← e) p.0
Rising-In {r} lo (x ∷ rs) p (later m) = omega (arith, Rising-In (x.id + 1) rs p.1 m)
