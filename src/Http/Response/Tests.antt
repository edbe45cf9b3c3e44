-- ===== src/Http/Response/Tests.antt =====
-- Runs of the judgement of a response.
use blackbox_exporter_with_g.Common.{
  ℕ, ◌≡◌, ◌↔◌, refl, Bool, true, false, Option, none, some, [], ◌∷◌,
}
use blackbox_exporter_with_g.Common.Int.{pos}
use blackbox_exporter_with_g.Common.Text.{Bytes, codes, contains}
use blackbox_exporter_with_g.Config.Types.{
  Regexp, CelProgram, HttpProbe, HttpClientConfig, no_tls_config,
}
use blackbox_exporter_with_g.Config.Defaults.{default_http_probe}
use blackbox_exporter_with_g.Http.Match.{Reader}
use blackbox_exporter_with_g.Http.Response.{Decompressor, Response, judge_response}
use blackbox_exporter_with_g.Http.Response.Verdict.{IsAccepted, judge_response_iff}
use blackbox_exporter_with_g.Http.Response.Twice.{judge_response-both}

abbrev matches : Regexp → Bytes → Bool
matches e text = contains text (codes e.original)

abbrev client : HttpClientConfig
client = record {
  tls_config = no_tls_config;
  follow_redirects = true;
  enable_http2 = true;
  proxy_url = none;
  proxy_from_environment = false;
}

abbrev with_both : HttpProbe
with_both = record (default_http_probe client) {
  fail_if_body_matches_regexp = record { compiled = true; original = "error" } ∷ [];
  fail_if_body_json_matches_cel = some (record { expression = "body == 0" });
}

abbrev number : Bytes → Option ℕ
number [] = none
number (c ∷ s) = some c

abbrev is_zero : CelProgram → ℕ → Option (Option Bool)
is_zero program n = some (some false)

abbrev as_is : Decompressor → Reader → Option Reader
as_is d r = some r

abbrev response : Response
response = record {
  status_code = pos 200;
  proto = "HTTP/1.1";
  header = λ key. [];
  body = record { rest = codes "1"; broken = false; n = 0 };
}

judge_response_iff_example :
    ((judge_response matches number is_zero as_is
        (default_http_probe client)
        false
        response).success
      ≡ true)
    ↔ IsAccepted matches number is_zero as_is (default_http_probe client) false response
judge_response_iff_example =
    judge_response_iff matches number is_zero as_is (default_http_probe client) false response

judge_response-both_example :
    (judge_response matches number is_zero as_is with_both false response).success ≡ false
judge_response-both_example =
    judge_response-both matches number is_zero as_is with_both false response refl refl refl
