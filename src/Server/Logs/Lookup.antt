-- ===== src/Server/Logs/Lookup.antt =====
-- What `/logs` shows.
use blackbox_exporter_with_g.Common.{
  ℕ, String, ◌≡◌, ◌≢◌, ◌↔◌, refl, sym, ap, ◌∙◌, inl, inr, true, false, Option, none, some, arith,
  In, Bool-cases, Option-cases, ◌==◌, ℕ_eq, string_eq, eq_iff, nat_eq_iff,
}
use blackbox_exporter_with_g.History.{
  Result, ResultHistory, list, get_by_id, is_asked, get_by_target_and_module,
}
use blackbox_exporter_with_g.History.Ids.{IsValid}
use blackbox_exporter_with_g.History.Lookup.{get_by_id_iff, IsFirst, get_by_target_and_module_iff}
use blackbox_exporter_with_g.Server.Logs.{Query, refused, output, minus_one, found_or, logs}

-- Of a number alone, the result with this id; of a target, with or without a module, the first result
-- of them that is shown.
pub data Shows (parse_int : String → Option ℕ) (rh : ResultHistory) (q : Query) (text : String)
    : Type 0 where
  by_id :
      (r : Result) (n : ℕ)
      → q.target ≡ ""
      → q.module_name ≡ ""
      → parse_int q.id ≡ some n
      → n ≢ minus_one
      → In r (list rh)
      → r.id ≡ n
      → r.debug_output ≡ text
      → Shows parse_int rh q text
  by_target :
      (r : Result)
      → q.target ≢ ""
      → parse_int q.id ≡ none
      → IsFirst (is_asked q.target q.module_name) r (list rh)
      → r.debug_output ≡ text
      → Shows parse_int rh q text

found_or-output :
    (o : Option Result) (text : String)
    → found_or o ≡ output text
    → (r : Result) × (o ≡ some r) × (r.debug_output ≡ text)
found_or-output none text e = cc
found_or-output (some r) text e = (r, refl, cc)

-- The branches of the handler, by what the query has.
logs-target :
    (parse_int : String → Option ℕ) (rh : ResultHistory) (q : Query)
    → q.target ≢ ""
    → parse_int q.id ≡ none
    → logs parse_int rh q ≡ found_or (get_by_target_and_module rh q.target q.module_name)
unfolding logs
logs-target parse_int rh q named no_id =
    let test : (q.target == "") ≡ false = ground (arith, eq_iff q.target "") in
    rw (no_id, test) refl

logs-id :
    (parse_int : String → Option ℕ) (rh : ResultHistory) (q : Query) (n : ℕ)
    → q.target ≡ ""
    → q.module_name ≡ ""
    → parse_int q.id ≡ some n
    → n ≢ minus_one
    → logs parse_int rh q ≡ found_or (get_by_id rh n)
unfolding logs
logs-id parse_int rh q n bare whole known other =
    let t : (q.target == "") ≡ true = (eq_iff q.target "").1 bare in
    let m : (q.module_name == "") ≡ true = (eq_iff q.module_name "").1 whole in
    let k : (n == minus_one) ≡ false = ground arith in rw (known, t, m, k) refl

Shows-logs :
    (parse_int : String → Option ℕ) (rh : ResultHistory) (q : Query) (text : String)
    → IsValid rh
    → Shows parse_int rh q text
    → logs parse_int rh q ≡ output text
Shows-logs parse_int rh q text v (by_id r n bare whole known other m e shown) =
    let found = (get_by_id_iff rh n r v).1 (m, e) in
    logs-id parse_int rh q n bare whole known other ∙ ap found_or found ∙ ap output shown
Shows-logs parse_int rh q text v (by_target r named no_id first shown) =
    let found = (get_by_target_and_module_iff rh q.target q.module_name r).1 first in
    logs-target parse_int rh q named no_id ∙ ap found_or found ∙ ap output shown

-- A query that is not refused is a number alone, or a target.
data IsAsked (parse_int : String → Option ℕ) (q : Query) : Type 0 where
  number :
      (n : ℕ)
      → q.target ≡ ""
      → q.module_name ≡ ""
      → parse_int q.id ≡ some n
      → n ≢ minus_one
      → IsAsked parse_int q
  named : q.target ≢ "" → parse_int q.id ≡ none → IsAsked parse_int q

logs-IsAsked :
    (parse_int : String → Option ℕ) (rh : ResultHistory) (q : Query)
    → logs parse_int rh q ≢ refused 400
    → IsAsked parse_int q
unfolding logs
logs-IsAsked parse_int rh q h =
    let (blank, _) = eq_iff q.target "" in
    let (whole, _) = eq_iff q.module_name "" in
    elim (Option-cases (parse_int q.id)) [
      | inl none_given ↦ elim (Bool-cases (q.target == "")) [
        | inl t ↦ absurd (h (rw (none_given, t) refl))
        | inr t ↦ named (λ e. (let k = (eq_iff q.target "").1 e in cc)) none_given
      ]
      | inr (n, known) ↦ elim (Bool-cases (q.target == "")) [
        | inr t ↦ absurd (h (rw (known, t) refl))
        | inl t ↦ elim (Bool-cases (n == minus_one)) [
          | inl k ↦ absurd (h (rw (known, t, k) refl))
          | inr k ↦ elim (Bool-cases (q.module_name == "")) [
            | inr m ↦ absurd (h (rw (known, t, k, m) refl))
            | inl m ↦
                number n (blank t) (whole m) known
                  (λ e. (let j = (nat_eq_iff n minus_one).1 e in cc))
          ]
        ]
      ]
    ]

-- In a valid history `/logs` shows a text exactly if the query has an id alone, and a result that is
-- shown has the id and this output, or if it has a target and no id, and this is the output of the
-- first of the results that are shown with the target, and with the module if one is given.
pub logs_iff :
    (parse_int : String → Option ℕ) (rh : ResultHistory) (q : Query) (text : String)
    → IsValid rh
    → (logs parse_int rh q ≡ output text) ↔ Shows parse_int rh q text
logs_iff parse_int rh q text v = (
  λ e. (elim (logs-IsAsked parse_int rh q (λ f. cc)) [
    | number n bare whole known other ↦
        (let (r, found, shown) =
            found_or-output _ text (sym (logs-id parse_int rh q n bare whole known other) ∙ e) in
          let (m, same) = (get_by_id_iff rh n r v).0 found in
          by_id r n bare whole known other m same shown)
    | named given no_id ↦
        (let (r, found, shown) =
            found_or-output _ text (sym (logs-target parse_int rh q given no_id) ∙ e) in
          by_target r given no_id
            ((get_by_target_and_module_iff rh q.target q.module_name r).0 found) shown)
  ]),
  λ s. Shows-logs parse_int rh q text v s,
)
