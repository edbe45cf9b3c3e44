-- ===== src/Http/Match/Tests.antt =====
-- Runs of the matchers: an expression matches a text that contains its source.
use blackbox_exporter_with_g.Common.{
  ℕ, String, ◌≡◌, ◌↔◌, Bool, true, false, Option, none, some, List, [], ◌∷◌, All,
}
use blackbox_exporter_with_g.Common.Text.{Bytes, codes, contains}
use blackbox_exporter_with_g.Config.Types.{
  Regexp, CelProgram, HttpProbe, HttpClientConfig, no_tls_config,
}
use blackbox_exporter_with_g.Config.Defaults.{default_http_probe}
use blackbox_exporter_with_g.Http.Match.{match_regular_expressions_on_headers}
use blackbox_exporter_with_g.Http.Match.Accepts.{
  IsClear, IsMet, match_regular_expressions_on_headers_iff,
}

abbrev matches : Regexp → Bytes → Bool
matches e text = contains text (codes e.original)

abbrev client : HttpClientConfig
client = record {
  tls_config = no_tls_config;
  follow_redirects = true;
  enable_http2 = true;
  proxy_url = none;
  proxy_from_environment = false;
}

abbrev regexp : String → Regexp
regexp source = record { compiled = true; original = source }

abbrev no_error : HttpProbe
no_error = record (default_http_probe client) {
  fail_if_body_matches_regexp = regexp "error" ∷ [];
  fail_if_body_not_matches_regexp = regexp "ok" ∷ [];
  fail_if_header_matches_regexp =
      record { header = "server"; regexp = regexp "old"; allow_missing = true } ∷ [];
  fail_if_body_json_matches_cel = some (record { expression = "body == 0" });
}

abbrev no_header : Bytes → List Bytes
no_header key = []

abbrev number : Bytes → Option ℕ
number [] = none
number (c ∷ s) = some c

abbrev is_zero : CelProgram → ℕ → Option (Option Bool)
is_zero program n = some (some false)

match_regular_expressions_on_headers_iff_example :
    (match_regular_expressions_on_headers matches no_header no_error ≡ true) ↔ (
      All (IsClear matches no_header) no_error.fail_if_header_matches_regexp
      × All (IsMet matches no_header) no_error.fail_if_header_not_matches_regexp)
match_regular_expressions_on_headers_iff_example =
    match_regular_expressions_on_headers_iff matches no_header no_error
