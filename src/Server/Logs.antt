-- ===== src/Server/Logs.antt =====
-- The handlers of main.go that show the history: `/logs`, and the table of the index page. Numbers in
-- the query are parsed by a parameter, which yields the bit pattern of an `int64`.
pub mod Lookup
use blackbox_exporter_with_g.Common.{
  ℕ, ◌-◌, ◌^◌, String, Bool, true, false, not, ◌&&◌, Option, none, some, List, [], ◌∷◌, map,
  if◌then◌else◌, ◌==◌, ℕ_eq, string_eq,
}
use blackbox_exporter_with_g.History.{
  Result, ResultHistory, list, get_by_id, get_by_target_and_module,
}
use mathlib.Core.List.{reverse}

-- The parameters of the query that are read.
pub record Query : Type 0 where
  pub id : String
  pub target : String
  pub module_name : String

-- A refusal with its status, or the output of a probe.
pub data Reply : Type 0 where
  refused : ℕ → Reply
  output : String → Reply

-- The pattern of -1
abbrev pub minus_one : ℕ
minus_one = 2 ^ 64 - 1

abbrev pub id_of : Option ℕ → ℕ
id_of none = minus_one
id_of (some n) = n

abbrev pub is_number : Option ℕ → Bool
is_number none = false
is_number (some n) = true

abbrev pub found_or : Option Result → Reply
found_or none = refused 404
found_or (some r) = output r.debug_output

unfoldable pub logs : (String → Option ℕ) → ResultHistory → Query → Reply
logs parse_int rh q =
    let parsed = parse_int q.id in
    if is_number parsed && not (q.target == "")
    then refused 400
    else if id_of parsed == minus_one && q.target == ""
    then refused 400
    else if q.target == "" && not (q.module_name == "")
    then refused 400
    else if not (q.target == "")
    then found_or (get_by_target_and_module rh q.target q.module_name)
    else found_or (get_by_id rh (id_of parsed))

-- A row of the table: the module, the target, whether the probe succeeded, and the id of the link.
pub record Row : Type 0 where
  pub module_name : String
  pub target : String
  pub success : Bool
  pub id : ℕ

-- The rows of the index page, from the last result to the first.
unfoldable pub rows : (String → String) → ResultHistory → List Row
rows escape rh =
    map
      (λ (r : Result). record {
        module_name = escape r.module_name;
        target = escape r.target;
        success = r.success;
        id = r.id;
      })
      (reverse (list rh))
