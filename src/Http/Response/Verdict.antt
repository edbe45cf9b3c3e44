-- ===== src/Http/Response/Verdict.antt =====
-- When a response is accepted.
use mathlib.Core.Path.{subst}
use blackbox_exporter_with_g.Common.{
  sym, ◌≡◌, ◌↔◌, refl, Bool, true, false, not, ◌&&◌, ◌||◌, Option, none, some, arith, if◌then◌else◌,
}
use blackbox_exporter_with_g.Common.Text.{Bytes}
use blackbox_exporter_with_g.Config.Types.{Regexp, CelProgram, HttpProbe}
use blackbox_exporter_with_g.Http.Match.{
  Reader, read_all, match_regular_expressions, match_regular_expressions_on_headers,
  match_cel_expressions,
}
use blackbox_exporter_with_g.Http.Response.Accepts.{
  HasStatus, HasVersion, status_ok_iff, version_ok_iff, IsCut, limited-IsCut, IsCut-same,
  IsDecompressed, chosen_iff,
}
use blackbox_exporter_with_g.Http.Response.{
  Decompressor, Response, State, status_ok, judge_status, judge_headers, replaced, chosen, limited,
  judge_compression, limit_body, judge_body, judge_cel, drain, judge_version, judge_response,
  headers_matter, body_matters, cel_matters,
}

both : (a b : Bool) → ((a && b) ≡ true) ↔ ((a ≡ true) × (b ≡ true))
both true b = (λ h. (refl, h), λ h. h.1)
both false b = (λ h. cc, λ h. h.0)

module _ {Json : Type 0} (matches : Regexp → Bytes → Bool) (unmarshal : Bytes → Option Json)
    (eval : CelProgram → Json → Option (Option Bool))
    (decompress : Decompressor → Reader → Option Reader) (c : HttpProbe) where
  -- What is left of the body for the CEL programs.
  pub after_body : Reader → Reader
  unfolding read_all
  after_body r = if body_matters matches unmarshal eval decompress c then (read_all r).1 else r

  judge_headers-success :
      (resp : Response) (s : State)
      → (judge_headers matches unmarshal eval decompress c resp s).success ≡ (
          s.success
          && (not (headers_matter matches unmarshal eval decompress c)
              || match_regular_expressions_on_headers matches resp.header c))
  unfolding judge_headers
  judge_headers-success resp s = ground arith

  judge_headers-body :
      (resp : Response) (s : State)
      → (judge_headers matches unmarshal eval decompress c resp s).body ≡ s.body
  unfolding judge_headers
  judge_headers-body resp s = ground arith

  judge_body-success :
      (s : State)
      → (judge_body matches unmarshal eval decompress c s).success ≡ (
          s.success
          && (not (body_matters matches unmarshal eval decompress c)
              || match_regular_expressions matches (read_all s.body).0 c))
  unfolding judge_body
  judge_body-success s = ground arith

  judge_body-body :
      (s : State)
      → s.success ≡ true
      → (judge_body matches unmarshal eval decompress c s).body ≡ after_body s.body
  unfolding judge_body after_body read_all
  judge_body-body s h = ground arith

  judge_body-broken :
      (s : State) → (judge_body matches unmarshal eval decompress c s).body.broken ≡ s.body.broken
  unfolding judge_body read_all
  judge_body-broken s = ground arith

  judge_cel-success :
      (s : State)
      → (judge_cel matches unmarshal eval decompress c s).success ≡ (
          s.success
          && (not (cel_matters matches unmarshal eval decompress c)
              || match_cel_expressions unmarshal eval (read_all s.body).0 c))
  unfolding judge_cel
  judge_cel-success s = ground arith

  judge_cel-broken :
      (s : State) → (judge_cel matches unmarshal eval decompress c s).body.broken ≡ s.body.broken
  unfolding judge_cel read_all
  judge_cel-broken s = ground arith

  drain-success :
      (errored : Bool) (s : State)
      → (drain matches unmarshal eval decompress c errored s).success
        ≡ (s.success && (errored || not s.body.broken))
  unfolding drain
  drain-success true s = ground arith
  drain-success false s = refl

  -- Of a reader, after the status and the headers.
  pub record IsRead (errored : Bool) (r : Reader) : Type 0 where
    pub body :
        body_matters matches unmarshal eval decompress c ≡ true
        → match_regular_expressions matches (read_all r).0 c ≡ true
    pub cel :
        cel_matters matches unmarshal eval decompress c ≡ true
        → match_cel_expressions unmarshal eval (read_all (after_body r)).0 c ≡ true
    pub whole : errored ≡ false → r.broken ≡ false

  drain_iff :
      (errored : Bool) (s : State)
      → ((drain matches unmarshal eval decompress c errored (
            judge_cel matches unmarshal eval decompress c
              (judge_body matches unmarshal eval decompress c s))).success
          ≡ true)
        ↔ ((s.success ≡ true) × IsRead errored s.body)
  drain_iff errored s =
      let a = drain-success errored (
        judge_cel matches unmarshal eval decompress c
          (judge_body matches unmarshal eval decompress c s)) in
      let b = judge_cel-success (judge_body matches unmarshal eval decompress c s) in
      let d = judge_cel-broken (judge_body matches unmarshal eval decompress c s) in
      let e = judge_body-success s in
      let f = judge_body-broken s in
      let left = judge_body-body s in
      (
        λ h.
            let ok : s.success ≡ true = ground arith in
            let rest = left ok in
            (
              ok,
              record {
                body = λ m. ground arith;
                cel = λ m.
                    (let fine : match_cel_expressions unmarshal eval
                            (read_all (judge_body matches unmarshal eval decompress c s).body).0 c
                          ≡ true =
                        ground arith in
                      subst (λ r. match_cel_expressions unmarshal eval (read_all r).0 c ≡ true) rest
                        fine);
                whole = λ m. ground arith;
              },
            ),
        λ (ok, r).
            let rest = left ok in
            let body = r.body in
            let whole = r.whole in
            let cel : cel_matters matches unmarshal eval decompress c ≡ true
                → match_cel_expressions unmarshal eval
                    (read_all (judge_body matches unmarshal eval decompress c s).body).0 c
                  ≡ true =
              λ m.
                subst (λ r. match_cel_expressions unmarshal eval (read_all r).0 c ≡ true) (sym rest)
                  (r.cel m) in
            ground arith,
      )

  -- A response that the module accepts: its status, its headers, its body as it is decompressed and
  -- limited, and its version of HTTP.
  pub record IsAccepted (errored : Bool) (resp : Response) : Type 0 where
    pub status : HasStatus c.valid_status_codes resp.status_code
    pub headers :
        headers_matter matches unmarshal eval decompress c ≡ true
        → match_regular_expressions_on_headers matches resp.header c ≡ true
    pub plain : Reader
    pub decompressed : IsDecompressed matches unmarshal eval decompress c resp.body plain
    pub reader : Reader
    pub cut : IsCut matches unmarshal eval decompress c plain reader
    pub read : IsRead errored reader
    pub version : HasVersion c.valid_http_versions resp.proto

  start_iff :
      (resp : Response)
      → ((judge_headers matches unmarshal eval decompress c resp
            (judge_status matches unmarshal eval decompress c resp)).success
          ≡ true)
        ↔ ((status_ok c.valid_status_codes resp.status_code ≡ true)
            × (headers_matter matches unmarshal eval decompress c ≡ true
                → match_regular_expressions_on_headers matches resp.header c ≡ true))
  unfolding judge_status
  start_iff resp =
      let a = judge_headers-success resp (judge_status matches unmarshal eval decompress c resp) in
      (λ h. (ground arith, λ m. ground arith), λ (p, q). ground arith)

  start-body :
      (resp : Response)
      → (judge_headers matches unmarshal eval decompress c resp
          (judge_status matches unmarshal eval decompress c resp)).body
        ≡ resp.body
  unfolding judge_status
  start-body resp = judge_headers-body resp (judge_status matches unmarshal eval decompress c resp)

  -- Of the rest of the judgement, from the state after the headers, by the reader that is chosen.
  rest_iff :
      (errored : Bool) (s : State) (o : Option Reader)
      → ((drain matches unmarshal eval decompress c errored (
            judge_cel matches unmarshal eval decompress c (
              judge_body matches unmarshal eval decompress c (
                limit_body matches unmarshal eval decompress c
                  (replaced matches unmarshal eval decompress c o s))))).success
          ≡ true)
        ↔ ((r : Reader) × (o ≡ some r)
            × (s.success ≡ true)
            × IsRead errored (limited matches unmarshal eval decompress c r))
  unfolding limit_body replaced
  rest_iff errored s none =
      let a = drain_iff errored (
        limit_body matches unmarshal eval decompress c
          (replaced matches unmarshal eval decompress c none s)) in
      (λ h. (let failed = (a.0 h).0 in cc), λ (r, e, _, _). cc)
  rest_iff errored s (some r) =
      let a = drain_iff errored (
        limit_body matches unmarshal eval decompress c
          (replaced matches unmarshal eval decompress c (some r) s)) in
      (
        λ h. (let (ok, read) = a.0 h in (r, refl, ok, read)),
        λ (q, e, ok, read).
            (let same : q ≡ r = cc in
              a.1 (
                ok,
                subst (λ x. IsRead errored (limited matches unmarshal eval decompress c x)) same
                    read,
              )),
      )

  -- The probe accepts a response exactly if its status is one of the module's, or from 200 to 299 if
  -- the module has none; its headers pass the expressions on them; its version of HTTP is one of the
  -- module's, if it has any; the body is decompressed as the module's compression says; and what can
  -- be read of it under the module's limit passes the expressions, what they leave of it passes the
  -- CEL programs, and it is read without an error, if the request has not failed. A body that is
  -- longer than the limit ends in an error.
  pub judge_response_iff :
      (errored : Bool) (resp : Response)
      → ((judge_response matches unmarshal eval decompress c errored resp).success ≡ true)
        ↔ IsAccepted errored resp
  unfolding judge_response judge_version judge_compression
  judge_response_iff errored resp =
      let s =
        judge_headers matches unmarshal eval decompress c resp
          (judge_status matches unmarshal eval decompress c resp) in
      let same = start-body resp in
      let a = rest_iff errored s (chosen matches unmarshal eval decompress c s.body) in
      let b = start_iff resp in
      (
        λ h.
            let (judged, version) = (both _ _).0 h in
            let (r, e, ok, read) = a.0 judged in
            let (status, headers) = b.0 ok in
            record {
              status = (status_ok_iff _ _).0 status;
              headers = headers;
              plain = r;
              decompressed =
                  (chosen_iff matches unmarshal eval decompress c resp.body r).0
                    (subst (λ x. chosen matches unmarshal eval decompress c x ≡ some r) same e);
              reader = limited matches unmarshal eval decompress c r;
              cut = limited-IsCut matches unmarshal eval decompress c r;
              read = read;
              version = (version_ok_iff _ _).0 version;
            },
        λ r.
            let judged = a.1 (
              r.plain,
              subst (λ x. chosen matches unmarshal eval decompress c x ≡ some r.plain) (sym same)
                  ((chosen_iff matches unmarshal eval decompress c resp.body r.plain).1
                    r.decompressed),
              b.1 ((status_ok_iff _ _).1 r.status, r.headers),
              subst (IsRead errored)
                  (sym (IsCut-same matches unmarshal eval decompress c r.plain r.reader r.cut))
                  r.read,
            ) in
            (both _ _).1 (judged, (version_ok_iff _ _).1 r.version),
      )
