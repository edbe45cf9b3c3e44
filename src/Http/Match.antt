-- ===== src/Http/Match.antt =====
-- The matchers of bodies and headers. `matches` is the matching of a regular expression, `eval` the
-- evaluation of a CEL program: an error is `none`, and a value that is not a Boolean is `some none`.
pub mod Accepts
pub mod Cel
mod Tests
use blackbox_exporter_with_g.Common.{
  ℕ, ◌+◌, ltb, String, Bool, true, false, not, ◌&&◌, ◌||◌, Option, none, some, List, [], ◌∷◌,
  length, take, any, if◌then◌else◌,
}
use blackbox_exporter_with_g.Common.Int.{ℤ, pos, negsuc}
use blackbox_exporter_with_g.Common.Mime.{canonical_key}
use blackbox_exporter_with_g.Common.Text.{Bytes, codes}
use blackbox_exporter_with_g.Config.Types.{Regexp, HeaderMatch, CelProgram, HttpProbe}

-- A reader with its byte counter: what is still to be read, whether that ends in an error, which
-- then stays, and the number of bytes read so far.
pub record Reader : Type 0 where
  pub rest : Bytes
  pub broken : Bool
  pub n : ℕ

-- `io.ReadAll` on a `byteCounter`: the bytes, none if it fails, and the reader afterwards
unfoldable pub read_all : Reader → Option Bytes × Reader
read_all r =
    (if r.broken then none else some r.rest, record r { rest = []; n = r.n + length r.rest })

module _ (matches : Regexp → Bytes → Bool) where
  pub none_matches : List Regexp → Bytes → Bool
  none_matches [] body = true
  none_matches (e ∷ es) body =
      let rest = none_matches es body in if matches e body then false else rest

  pub all_match : List Regexp → Bytes → Bool
  all_match [] body = true
  all_match (e ∷ es) body =
      let rest = all_match es body in if not (matches e body) then false else rest

  unfoldable pub match_regular_expressions : Option Bytes → HttpProbe → Bool
  unfolding none_matches all_match
  match_regular_expressions none c = false
  match_regular_expressions (some body) c =
      if none_matches c.fail_if_body_matches_regexp body
      then all_match c.fail_if_body_not_matches_regexp body
      else false

  -- The loops of `matchRegularExpressionsOnHeaders`; `header` gives the values under a key.
  module _ (header : Bytes → List Bytes) where
    pub values_of : HeaderMatch → List Bytes
    values_of m = header (canonical_key (codes m.header))

    pub rejected_values : HeaderMatch → List Bytes → Bool
    rejected_values m [] = not m.allow_missing
    rejected_values m (v ∷ vs) = any (matches m.regexp) (v ∷ vs)

    pub missed_values : HeaderMatch → List Bytes → Bool
    missed_values m [] = not m.allow_missing
    missed_values m (v ∷ vs) = not (any (matches m.regexp) (v ∷ vs))

    pub none_rejected : List HeaderMatch → Bool
    unfolding rejected_values values_of
    none_rejected [] = true
    none_rejected (m ∷ ms) =
        let rest = none_rejected ms in if rejected_values m (values_of m) then false else rest

    pub none_missed : List HeaderMatch → Bool
    unfolding missed_values values_of
    none_missed [] = true
    none_missed (m ∷ ms) =
        let rest = none_missed ms in if missed_values m (values_of m) then false else rest

    unfoldable pub match_regular_expressions_on_headers : HttpProbe → Bool
    unfolding none_rejected none_missed
    match_regular_expressions_on_headers c =
        if none_rejected c.fail_if_header_matches_regexp
        then none_missed c.fail_if_header_not_matches_regexp
        else false

module _ {Json : Type 0} (unmarshal : Bytes → Option Json)
    (eval : CelProgram → Json → Option (Option Bool)) where
  -- One of the two blocks of `matchCELExpressions`, which fails on this value.
  pub cel_ok : Bool → Option CelProgram → Json → Bool
  cel_ok failing none json = true
  cel_ok failing (some program) json = elim (eval program json) [
    | none ↦ false
    | some none ↦ false
    | some (some b) ↦ if failing then not b else b
  ]

  pub cel_body : Option Bytes → Option Json
  cel_body none = none
  cel_body (some body) = unmarshal body

  pub cel_json : HttpProbe → Option Json → Bool
  unfolding cel_ok
  cel_json c none = false
  cel_json c (some json) =
      if cel_ok true c.fail_if_body_json_matches_cel json
      then cel_ok false c.fail_if_body_json_not_matches_cel json
      else false

  unfoldable pub match_cel_expressions : Option Bytes → HttpProbe → Bool
  unfolding cel_body cel_json
  match_cel_expressions body c = cel_json c (cel_body body)
