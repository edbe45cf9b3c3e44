-- ===== src/Http/Response.antt =====
-- The judgement of a response: status, headers, decompression, body, HTTP version and TLS.
pub mod Verdict
pub mod Twice
pub mod Accepts
mod Tests
use blackbox_exporter_with_g.Common.{
  ℕ, ◌+◌, ltb, leb, String, Bool, true, false, not, ◌&&◌, ◌||◌, Option, none, some, List, [], ◌∷◌,
  ◌++◌, length, take, any, if◌then◌else◌, ◌==◌, string_eq,
}
use blackbox_exporter_with_g.Common.Int.{ℤ, pos, negsuc, ltb_ℤ, eqb_ℤ, pos_part}
use blackbox_exporter_with_g.Common.Text.{Bytes, bytes_eq, codes, to_lower}
use blackbox_exporter_with_g.Config.Types.{Regexp, CelProgram, HttpProbe}
use blackbox_exporter_with_g.Metrics.{
  Event, register, set, ssl_earliest_cert_expiry, ssl_chain_expiry_in_time_stamp, probe_tls_info,
  probe_tls_cipher, ssl_last_chain_info,
}
use blackbox_exporter_with_g.Http.Match.{
  Reader, read_all, match_regular_expressions, match_regular_expressions_on_headers,
  match_cel_expressions,
}

-- The status check: the list of the module, or 2xx if it is empty.
unfoldable pub status_ok : List ℤ → ℤ → Bool
status_ok [] code = not (ltb_ℤ code (pos 200)) && ltb_ℤ code (pos 300)
status_ok (c ∷ cs) code = any (λ v. eqb_ℤ code v) (c ∷ cs)

unfoldable pub version_ok : List String → String → Bool
version_ok [] proto = true
version_ok (v ∷ vs) proto = any (λ w. w == proto) (v ∷ vs)

-- `getDecompressionReader`: the decompressor that reads the body, none for the body itself, and no
-- reader for another algorithm.
pub data Decompressor : Type 0 where
  brotli deflate gzip : Decompressor

unfoldable pub get_decompression_reader : String → Option (Option Decompressor)
get_decompression_reader algorithm =
    let a = to_lower (codes algorithm) in
    if a == codes "br"
    then some (some brotli)
    else if a == codes "deflate"
    then some (some deflate)
    else if a == codes "gzip"
    then some (some gzip)
    else if a == codes "identity" || a == []
    then some none
    else none

-- What a response has: the body as it is sent, and whether its reading ends in an error.
pub record Response : Type 0 where
  pub status_code : ℤ
  pub proto : String
  pub header : Bytes → List Bytes
  pub body : Reader

-- What the loop of the probe carries: the verdict, the reader of the body, and the events.
pub record State : Type 0 where
  pub success : Bool
  pub body : Reader
  pub events : List Event

-- `http.MaxBytesReader`: an error after `limit` bytes, if there are more.
unfoldable pub max_bytes_reader : ℕ → Reader → Reader
max_bytes_reader limit r =
    if ltb limit (length r.rest) then record r { rest = take limit r.rest; broken = true } else r

module _ {Json : Type 0} (matches : Regexp → Bytes → Bool) (unmarshal : Bytes → Option Json)
    (eval : CelProgram → Json → Option (Option Bool))
    (decompress : Decompressor → Reader → Option Reader) (c : HttpProbe) where
  pub judge_status : Response → State
  unfolding status_ok
  judge_status resp = record {
    success = status_ok c.valid_status_codes resp.status_code;
    body = resp.body;
    events = [];
  }

  abbrev is_set {ℓ} : {A : Type ℓ} → List A → Bool
  is_set [] = false
  is_set (x ∷ xs) = true

  abbrev is_some {ℓ} : {A : Type ℓ} → Option A → Bool
  is_some none = false
  is_some (some a) = true

  abbrev pub headers_matter : Bool
  headers_matter =
      is_set c.fail_if_header_matches_regexp || is_set c.fail_if_header_not_matches_regexp

  abbrev pub body_matters : Bool
  body_matters = is_set c.fail_if_body_matches_regexp || is_set c.fail_if_body_not_matches_regexp

  abbrev pub cel_matters : Bool
  cel_matters =
      is_some c.fail_if_body_json_matches_cel || is_some c.fail_if_body_json_not_matches_cel

  -- A gauge that tells a failure.
  abbrev told : String → Bool → Event
  told gauge verdict = set gauge [] (if verdict then pos 0 else pos 1)

  pub judge_headers : Response → State → State
  judge_headers resp s =
      let verdict = match_regular_expressions_on_headers matches resp.header c in
      if s.success && headers_matter
      then record s {
        success = verdict;
        events = s.events ++ told "probe_failed_due_to_regex" verdict ∷ [];
      }
      else s

  -- The body as it is read: `none` is a decompressor that cannot be made, and leaves the body as it is.
  pub opened : Option (Option Decompressor) → Reader → Option Reader
  opened none r = none
  opened (some none) r = some r
  opened (some (some d)) r = decompress d r

  pub replaced : Option Reader → State → State
  replaced none s = record s { success = false }
  replaced (some r) s = record s { body = r }

  -- The reader of the body with the compression of the module.
  pub chosen : Reader → Option Reader
  unfolding opened get_decompression_reader
  chosen r =
      if c.compression == "" then some r else opened (get_decompression_reader c.compression) r

  pub judge_compression : State → State
  unfolding replaced chosen
  judge_compression s = replaced (chosen s.body) s

  pub limited : Reader → Reader
  unfolding max_bytes_reader
  limited r =
      if ltb_ℤ (pos 0) c.body_size_limit then max_bytes_reader (pos_part c.body_size_limit) r else r

  pub limit_body : State → State
  unfolding limited
  limit_body s = record s { body = limited s.body }

  pub judge_body : State → State
  unfolding read_all
  judge_body s =
      let (read, r) = read_all s.body in
      let verdict = match_regular_expressions matches read c in
      if s.success && body_matters
      then record {
        success = verdict;
        body = r;
        events = s.events ++ told "probe_failed_due_to_regex" verdict ∷ [];
      }
      else s

  pub judge_cel : State → State
  unfolding read_all
  judge_cel s =
      let (read, r) = read_all s.body in
      let verdict = match_cel_expressions unmarshal eval read c in
      if s.success && cel_matters
      then record {
        success = verdict;
        body = r;
        events = s.events ++ told "probe_failed_due_to_cel" verdict ∷ [];
      }
      else s

  -- The rest of the body is read, if the request has not failed.
  pub drain : Bool → State → State
  unfolding read_all
  drain true s = s
  drain false s =
      let (read, r) = read_all s.body in
      record s { success = s.success && not s.body.broken; body = r }

  pub judge_version : Response → State → State
  unfolding version_ok
  judge_version resp s = record s {
    success = s.success && version_ok c.valid_http_versions resp.proto;
  }

  -- All that is done with a response, in order.
  unfoldable pub judge_response : Bool → Response → State
  unfolding judge_status judge_headers judge_compression limit_body judge_body judge_cel drain
      judge_version
  judge_response errored resp = judge_version resp (
      drain errored (
        judge_cel
          (judge_body (limit_body (judge_compression (judge_headers resp (judge_status resp)))))))

  -- The check of TLS at the end.
  unfoldable pub judge_tls : Bool → Bool → Bool
  judge_tls over_tls success =
      if over_tls
      then if c.fail_if_ssl then false else success
      else if c.fail_if_not_ssl && success
      then false
      else success
