-- ===== src/Config/Unmarshal.antt =====
-- The `UnmarshalYAML` methods of config/config.go. Each sets the defaults, lets the decoder fill
-- them in, and validates. The decoder is a parameter, a function of the value it fills in.
pub mod Http
pub mod Limits
mod Tests
use blackbox_exporter_with_g.Common.{
  ℕ, ◌-◌, ◌^◌, String, Bool, true, false, not, ◌&&◌, ◌||◌, Option, none, some, List, [], ◌∷◌, any,
  all, if◌then◌else◌, ◌==◌, string_eq,
}
use blackbox_exporter_with_g.Common.Int.{ℤ, pos, negsuc, ltb_ℤ, eqb_ℤ}
use blackbox_exporter_with_g.Common.Mime.{canonical_key}
use blackbox_exporter_with_g.Common.Results.{Result, ok, err, ◌>>=◌, ◌>>◌, check, or_err}
use blackbox_exporter_with_g.Common.Text.{Bytes, codes, bytes_eq}
use blackbox_exporter_with_g.Config.Types.{
  HttpClientConfig, HttpProbe, QueryResponse, HeaderMatch, IcmpProbe, DnsProbe, Regexp,
}
use blackbox_exporter_with_g.Config.Defaults.{
  default_http_probe, default_icmp_probe, default_dns_probe, zero_query_response, zero_header_match,
}

pub data Problem : Type 0 where
  yaml : Problem
  client_config : Problem
  body_and_body_file : Problem
  compression_not_accepted : Problem
  http3_not_enabled : Problem
  older_than_http3 : Problem
  http2_enabled : Problem
  no_query_name : Problem
  bad_query_class : Problem
  bad_query_type : Problem
  dont_fragment_on_windows : Problem
  ttl_negative : Problem
  ttl_above_255 : Problem
  expect_and_expect_bytes : Problem
  no_header_name : Problem
  no_header_regexp : Problem

abbrev pub max_int64 : ℤ
max_int64 = pos (2 ^ 63 - 1)

-- `BodySizeLimit` after the adjustment
abbrev pub limited : ℤ → ℤ
limited limit = if ltb_ℤ limit (pos 0) || eqb_ℤ limit max_int64 then pos (2 ^ 63 - 2) else limit

-- `no_follow_redirects` overrides `follow_redirects`.
abbrev pub with_redirects : HttpProbe → HttpProbe
with_redirects s = elim s.no_follow_redirects [
  | none ↦ s
  | some no_follow ↦ record s {
    http_client_config = record s.http_client_config { follow_redirects = not no_follow };
  }
]

-- The validation of a pair of compression and `Accept-Encoding` is the module `Encoding`.
module _ (validate_client : HttpClientConfig → Option HttpClientConfig)
    (encoding_ok : Bytes → Bytes → Bool) where
  -- The loop over the headers, in whatever order the map gives them.
  headers_ok : String → List (String × Bytes) → Bool
  headers_ok compression [] = true
  headers_ok compression ((key, value) ∷ headers) =
      if canonical_key (codes key) == codes "Accept-Encoding"
        && not (encoding_ok (codes compression) value)
      then false
      else headers_ok compression headers

  -- The checks, once the limit, the client's configuration and the redirects are set.
  checks : HttpProbe → Result Problem HttpProbe
  unfolding headers_ok
  checks s = do
    check (s.body == "" || s.body_file == "") body_and_body_file
    check (headers_ok s.compression s.headers) compression_not_accepted
    check (s.use_http3 || not (any (λ v. v == "HTTP/3.0") s.valid_http_versions)) http3_not_enabled
    check
        (not s.use_http3
          || not (any (λ v. v == "HTTP/2.0" || v == "HTTP/1.1") s.valid_http_versions))
        older_than_http3
    check (not s.use_http3 || not s.http_client_config.enable_http2) http2_enabled
    ok s

  abbrev configured : HttpProbe → HttpClientConfig → HttpProbe
  configured decoded client = with_redirects (record decoded {
    body_size_limit = limited decoded.body_size_limit;
    http_client_config = client;
  })

  -- All after the decoder.
  validate_http : HttpProbe → Result Problem HttpProbe
  unfolding checks
  validate_http decoded = do
    client ← or_err (validate_client decoded.http_client_config) client_config
    checks (configured decoded client)

  unfoldable pub unmarshal_http :
      HttpClientConfig → (HttpProbe → Option HttpProbe) → Result Problem HttpProbe
  unfolding validate_http
  unmarshal_http client decode = do
    s ← or_err (decode (default_http_probe client)) yaml
    validate_http s

abbrev is_some {ℓ} : {A : Type ℓ} → Option A → Bool
is_some none = false
is_some (some _) = true

-- `dns.StringToClass` and `dns.StringToType` are parameters.
module _ (string_to_class string_to_type : String → Option ℕ) where
  unfoldable pub unmarshal_dns : (DnsProbe → Option DnsProbe) → Result Problem DnsProbe
  unmarshal_dns decode = do
    s ← or_err (decode default_dns_probe) yaml
    check (not (s.query_name == "")) no_query_name
    check (s.query_class == "" || is_some (string_to_class s.query_class)) bad_query_class
    check (s.query_type == "" || is_some (string_to_type s.query_type)) bad_query_type
    ok s

-- `runtime.GOOS == "windows"` is a parameter.
unfoldable pub unmarshal_icmp : Bool → (IcmpProbe → Option IcmpProbe) → Result Problem IcmpProbe
unmarshal_icmp on_windows decode = do
  s ← or_err (decode default_icmp_probe) yaml
  check (not (on_windows && s.dont_fragment)) dont_fragment_on_windows
  check (not (ltb_ℤ s.ttl (pos 0))) ttl_negative
  check (not (ltb_ℤ (pos 255) s.ttl)) ttl_above_255
  ok s

unfoldable pub unmarshal_query_response :
    (QueryResponse → Option QueryResponse) → Result Problem QueryResponse
unmarshal_query_response decode = do
  s ← or_err (decode zero_query_response) yaml
  check (not (s.expect.compiled && not (s.expect_bytes == []))) expect_and_expect_bytes
  ok s

unfoldable pub unmarshal_header_match :
    (HeaderMatch → Option HeaderMatch) → Result Problem HeaderMatch
unmarshal_header_match decode = do
  s ← or_err (decode zero_header_match) yaml
  check (not (s.header == "")) no_header_name
  check (s.regexp.compiled && not (s.regexp.original == "")) no_header_regexp
  ok s
