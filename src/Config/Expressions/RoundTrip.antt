-- ===== src/Config/Expressions/RoundTrip.antt =====
-- Expressions that are read and written back.
use blackbox_exporter_with_g.Common.{
  String, ◌≡◌, ◌≢◌, refl, sym, ap, inl, inr, Bool, false, some, ◌==◌, string_eq, eq_iff, Bool-cases,
  arith,
}
use blackbox_exporter_with_g.Common.Results.{ok}
use blackbox_exporter_with_g.Config.Types.{Regexp, CelProgram}
use blackbox_exporter_with_g.Config.Expressions.{
  unmarshal_regexp, unmarshal_cel_program, marshal_regexp, marshal_cel_program,
}

filled : (s : String) → s ≢ "" → (s == "") ≡ false
filled s h = ground (arith, eq_iff s "")

module _ (compiles : String → Bool) where
  -- What is written of a regular expression that has been read from the text, and what is read again.
  regexp-read :
      (s : String) (re : Regexp)
      → unmarshal_regexp compiles (some s) ≡ ok re
      → record { compiled = compiles s; original = s } ≡ re
  unfolding unmarshal_regexp
  regexp-read s re e = elim (Bool-cases (compiles s)) [
    | inr bad ↦ (let f = rw (bad, unmarshal_regexp) at e in cc)
    | inl good ↦ (let f = rw (good, unmarshal_regexp) at e in rw good cc)
  ]

  cel-read :
      (s : String) (c : CelProgram)
      → unmarshal_cel_program compiles (some s) ≡ ok c
      → record { expression = s } ≡ c
  unfolding unmarshal_cel_program
  cel-read s c e = elim (Bool-cases (compiles s)) [
    | inr bad ↦ (let f = rw (bad, unmarshal_cel_program) at e in cc)
    | inl good ↦ (let f = rw (good, unmarshal_cel_program) at e in cc)
  ]

  marshal_regexp-text :
      (s : String) (re : Regexp) → s ≢ "" → re.original ≡ s → marshal_regexp re ≡ some s
  unfolding marshal_regexp
  marshal_regexp-text s re h e = rw (e, filled s h) refl

  marshal_cel_program-text :
      (s : String) (c : CelProgram) → s ≢ "" → c.expression ≡ s → marshal_cel_program c ≡ some s
  unfolding marshal_cel_program
  marshal_cel_program-text s c h e = rw (e, filled s h) refl

-- A regular expression, or a CEL program, that is read from a text that is not empty is written as
-- this text, and read from that again it is the same.
pub unmarshal-marshal :
    (regexp_compiles cel_compiles : String → Bool) (s t : String) (re : Regexp) (c : CelProgram)
    → s ≢ ""
    → t ≢ ""
    → unmarshal_regexp regexp_compiles (some s) ≡ ok re
    → unmarshal_cel_program cel_compiles (some t) ≡ ok c
    → ((marshal_regexp re ≡ some s)
        × (unmarshal_regexp regexp_compiles (marshal_regexp re) ≡ ok re))
      × ((marshal_cel_program c ≡ some t)
          × (unmarshal_cel_program cel_compiles (marshal_cel_program c) ≡ ok c))
unmarshal-marshal regexp_compiles cel_compiles s t re c h k e f =
    let a =
      marshal_regexp-text regexp_compiles s re h
        (ap (λ (r : Regexp). r.original) (sym (regexp-read regexp_compiles s re e))) in
    let b =
      marshal_cel_program-text cel_compiles t c k
        (ap (λ (r : CelProgram). r.expression) (sym (cel-read cel_compiles t c f))) in
    ((a, rw a e), (b, rw b f))
