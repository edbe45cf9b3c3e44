-- ===== src/Http/Match/Cel.antt =====
-- What the CEL programs accept.
use blackbox_exporter_with_g.Common.{
  ◌≡◌, ◌↔◌, refl, Bool, true, false, not, Option, none, some, [], arith,
}
use blackbox_exporter_with_g.Common.Text.{Bytes}
use blackbox_exporter_with_g.Config.Types.{CelProgram, HttpProbe}
use blackbox_exporter_with_g.Http.Match.{
  Reader, read_all, cel_ok, cel_body, cel_json, match_cel_expressions,
}

module _ {Json : Type 0} (unmarshal : Bytes → Option Json)
    (eval : CelProgram → Json → Option (Option Bool)) where
  -- The program, if there is one, yields this Boolean.
  abbrev pub Yields : Bool → Option CelProgram → Json → Type 0
  Yields b none json = Unit {0}
  Yields b (some program) json = eval program json ≡ some (some b)

  cel_ok-Yields :
      (failing : Bool) (p : Option CelProgram) (json : Json)
      → (cel_ok unmarshal eval failing p json ≡ true) ↔ Yields (not failing) p json
  unfolding cel_ok
  cel_ok-Yields failing none json = (λ _. tt, λ _. refl)
  cel_ok-Yields true (some p) json = (λ h. ground arith, λ y. ground arith)
  cel_ok-Yields false (some p) json = (λ h. ground arith, λ y. ground arith)

  -- A body passes the CEL programs exactly if it can be read, decodes to JSON, the program that must
  -- not hold yields false, and the one that must hold yields true; an error of the evaluation, and a
  -- value that is no Boolean, are failures.
  pub match_cel_expressions_iff :
      (body : Bytes) (c : HttpProbe) (json : Json)
      → unmarshal body ≡ some json
      → (match_cel_expressions unmarshal eval (some body) c ≡ true) ↔ (
          Yields false c.fail_if_body_json_matches_cel json
          × Yields true c.fail_if_body_json_not_matches_cel json)
  unfolding match_cel_expressions cel_body cel_json
  match_cel_expressions_iff body c json decoded = rw decoded (
    λ h. (
      (cel_ok-Yields true c.fail_if_body_json_matches_cel json).0 ground arith,
      (cel_ok-Yields false c.fail_if_body_json_not_matches_cel json).0 ground arith,
    ),
    λ y.
        (let fine = (cel_ok-Yields true c.fail_if_body_json_matches_cel json).1 y.0 in
          rw fine ((cel_ok-Yields false c.fail_if_body_json_not_matches_cel json).1 y.1)),
  )

  -- Nothing is left of the body.
  pub match_cel_expressions_empty :
      (r : Reader) (c : HttpProbe)
      → unmarshal [] ≡ none
      → r.rest ≡ []
      → match_cel_expressions unmarshal eval (read_all r).0 c ≡ false
  unfolding match_cel_expressions cel_body cel_json read_all
  match_cel_expressions_empty r c u e = ground arith
