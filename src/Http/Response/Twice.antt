-- ===== src/Http/Response/Twice.antt =====
-- The body is read once: by the time of the CEL expressions there is nothing left of it.
use blackbox_exporter_with_g.Common.{
  ◌≡◌, ◌⊎◌, refl, inl, inr, Bool, true, false, Option, none, [], Bool-cases,
}
use blackbox_exporter_with_g.Common.Text.{Bytes}
use blackbox_exporter_with_g.Config.Types.{Regexp, CelProgram, HttpProbe}
use blackbox_exporter_with_g.Http.Match.{Reader, read_all}
use blackbox_exporter_with_g.Http.Match.Cel.{match_cel_expressions_empty}
use blackbox_exporter_with_g.Http.Response.{
  Decompressor, Response, State, judge_status, judge_headers, judge_compression, limit_body,
  judge_body, judge_cel, drain, judge_version, judge_response, body_matters, cel_matters,
}

module _ {Json : Type 0} (matches : Regexp → Bytes → Bool) (unmarshal : Bytes → Option Json)
    (eval : CelProgram → Json → Option (Option Bool))
    (decompress : Decompressor → Reader → Option Reader) (c : HttpProbe) where
  -- After the body has been matched, if it has been and still counts, nothing of it is left.
  judge_body-rest :
      (s : State)
      → body_matters matches unmarshal eval decompress c ≡ true
      → ((judge_body matches unmarshal eval decompress c s).success ≡ false)
        ⊎ ((judge_body matches unmarshal eval decompress c s).body.rest ≡ [])
  unfolding judge_body read_all
  judge_body-rest s b = elim (Bool-cases s.success) [
    | inl e ↦ inr (simp (e, b) refl)
    | inr e ↦ inl (simp e refl)
  ]

  judge_cel-fails :
      (s : State)
      → unmarshal [] ≡ none
      → cel_matters matches unmarshal eval decompress c ≡ true
      → (s.success ≡ false) ⊎ (s.body.rest ≡ [])
      → (judge_cel matches unmarshal eval decompress c s).success ≡ false
  unfolding judge_cel
  judge_cel-fails s u m (inl failed) = simp failed refl
  judge_cel-fails s u m (inr empty) =
      let nothing = match_cel_expressions_empty unmarshal eval s.body c u empty in
      elim (Bool-cases s.success) [ inl e ↦ simp (e, m, nothing) refl | inr e ↦ simp e refl ]

  drain-fails :
      (errored : Bool) (s : State)
      → s.success ≡ false
      → (drain matches unmarshal eval decompress c errored s).success ≡ false
  unfolding drain
  drain-fails true s h = h
  drain-fails false s h = simp h refl

  -- A module that has both expressions for the body and CEL programs accepts no response, whatever
  -- the response is, where the decoder of JSON fails on an empty text.
  pub judge_response-both :
      (errored : Bool) (resp : Response)
      → unmarshal [] ≡ none
      → body_matters matches unmarshal eval decompress c ≡ true
      → cel_matters matches unmarshal eval decompress c ≡ true
      → (judge_response matches unmarshal eval decompress c errored resp).success ≡ false
  unfolding judge_response judge_version
  judge_response-both errored resp u b m =
      let limited = limit_body matches unmarshal eval decompress c (
        judge_compression matches unmarshal eval decompress c (
          judge_headers matches unmarshal eval decompress c resp
            (judge_status matches unmarshal eval decompress c resp))) in
      let matched = judge_body matches unmarshal eval decompress c limited in
      let failed =
        drain-fails errored (judge_cel matches unmarshal eval decompress c matched)
          (judge_cel-fails matched u m (judge_body-rest limited b)) in
      rw failed refl
