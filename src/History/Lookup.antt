-- ===== src/History/Lookup.antt =====
-- The two searches of a history, against the list that `List` shows.
use blackbox_exporter_with_g.Common.{
  ℕ, ◌+◌, String, ◌≡◌, refl, sym, ap, ◌∙◌, ◌↔◌, Bool, true, false, some, List, [], ◌∷◌, ◌++◌, arith,
  inl, inr, All, In, here, later, find, Bool-cases, if◌then◌else◌, ◌==◌, ℕ_eq, nat_eq_iff,
}
use blackbox_exporter_with_g.History.{
  Result, ResultHistory, list, or_else, get_by_id, is_asked, get_by_target_and_module,
}
use blackbox_exporter_with_g.History.Ids.{IsValid, Rising, Rising-In}

-- A search of both lists, one after the other, is a search of what `List` shows.
or_else-find :
    (test : Result → Bool) (xs ys : List Result)
    → or_else (find test xs) (find test ys) ≡ find test (xs ++ ys)
or_else-find test [] ys = refl
or_else-find test (x ∷ xs) ys = ground (arith, or_else-find test xs ys)

find-In :
    (test : Result → Bool) (rs : List Result) {r : Result}
    → find test rs ≡ some r
    → In r rs × (test r ≡ true)
find-In test [] e = cc
find-In test (x ∷ rs) {r} e = elim (Bool-cases (test x)) [
  | inl hit ↦
      let same : x ≡ r = cc (e, ap (λ b. if b then some x else find test rs) hit) in
      (here same, ap test (sym same) ∙ hit)
  | inr miss ↦ let found = find-In test rs (rw miss at e) in (later found.0, found.1)
]

In-find :
    (id lo : ℕ) (rs : List Result) {r : Result}
    → Rising lo rs
    → In r rs
    → r.id ≡ id
    → find (λ x. x.id == id) rs ≡ some r
In-find id lo [] p m e = elim m [ ]
In-find id lo (x ∷ rs) {r} p (here same) e =
    rw ((nat_eq_iff x.id id).1 (ap (λ (y : Result). y.id) same ∙ e)) (ap some same)
In-find id lo (x ∷ rs) {r} p (later m) e =
    ground (arith, Rising-In (x.id + 1) rs p.1 m, In-find id (x.id + 1) rs p.1 m e)

-- In a valid history `GetById` finds a result exactly if `List` shows it and it has the id.
pub get_by_id_iff :
    (rh : ResultHistory) (id : ℕ) (r : Result)
    → IsValid rh
    → (get_by_id rh id ≡ some r) ↔ (In r (list rh) × (r.id ≡ id))
unfolding get_by_id list
get_by_id_iff rh id r v =
    let P = rh.preserved_failed_results in
    let same = or_else-find (λ r. r.id == id) P rh.results in
    (
      λ e.
          let found = find-In (λ r. r.id == id) (P ++ rh.results) (sym same ∙ e) in
          (found.0, (nat_eq_iff r.id id).0 found.1),
      λ h. same ∙ In-find id 0 (P ++ rh.results) v.rising h.0 h.1,
    )

-- `r` is the first of `rs` that passes the test.
pub record IsFirst (test : Result → Bool) (r : Result) (rs : List Result) : Type 0 where
  pub before : List Result
  pub after : List Result
  pub split : rs ≡ before ++ r ∷ after
  pub passes : test r ≡ true
  pub none_before : All (λ x. test x ≡ false) before

find-IsFirst :
    (test : Result → Bool) (rs : List Result) {r : Result}
    → find test rs ≡ some r
    → IsFirst test r rs
find-IsFirst test [] e = cc
find-IsFirst test (x ∷ rs) {r} e = elim (Bool-cases (test x)) [
  | inl hit ↦
      let same : x ≡ r = cc (e, ap (λ b. if b then some x else find test rs) hit) in
      record {
        before = [];
        after = rs;
        split = ap (λ y. y ∷ rs) same;
        passes = ap test (sym same) ∙ hit;
        none_before = tt;
      }
  | inr miss ↦
      let first = find-IsFirst test rs (rw miss at e) in
      record {
        before = x ∷ first.before;
        after = first.after;
        split = ap (λ l. x ∷ l) first.split;
        passes = first.passes;
        none_before = (miss, first.none_before);
      }
]

IsFirst-find :
    (test : Result → Bool) (before after : List Result) (r : Result)
    → All (λ x. test x ≡ false) before
    → test r ≡ true
    → find test (before ++ r ∷ after) ≡ some r
IsFirst-find test [] after r h e = rw e
IsFirst-find test (x ∷ before) after r h e = rw h.0 (IsFirst-find test before after r h.1 e)

-- `GetByTargetAndModule` finds a result exactly if it is the first shown by `List` that has the
-- target, and the module too unless the module is left empty.
pub get_by_target_and_module_iff :
    (rh : ResultHistory) (target module_name : String) (r : Result)
    → (get_by_target_and_module rh target module_name ≡ some r)
      ↔ IsFirst (is_asked target module_name) r (list rh)
unfolding get_by_target_and_module list
get_by_target_and_module_iff rh target module_name r =
    let test = is_asked target module_name in
    let same = or_else-find test rh.preserved_failed_results rh.results in
    (
      λ e. find-IsFirst test _ (sym same ∙ e),
      λ first.
          same
          ∙ ap (find test) first.split
          ∙ IsFirst-find test first.before first.after r first.none_before first.passes,
    )
