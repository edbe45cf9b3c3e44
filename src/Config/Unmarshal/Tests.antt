-- ===== src/Config/Unmarshal/Tests.antt =====
-- Sections of a configuration that are accepted.
use blackbox_exporter_with_g.Common.{
  ℕ, String, ◌≡◌, ◌≢◌, refl, Bool, true, false, Option, none, some, arith, if◌then◌else◌, ◌==◌,
  string_eq,
}
use blackbox_exporter_with_g.Common.Int.{pos}
use blackbox_exporter_with_g.Common.Results.{ok}
use blackbox_exporter_with_g.Common.Text.{Bytes}
use blackbox_exporter_with_g.Config.Expressions.{
  unmarshal_regexp, unmarshal_cel_program, marshal_regexp, marshal_cel_program,
}
use blackbox_exporter_with_g.Config.Expressions.RoundTrip.{unmarshal-marshal}
use blackbox_exporter_with_g.Config.Types.{
  QueryResponse, HeaderMatch, HttpClientConfig, HttpProbe, DnsProbe, no_tls_config,
}
use blackbox_exporter_with_g.Config.Defaults.{
  default_http_probe, default_dns_probe, zero_query_response,
}
use blackbox_exporter_with_g.Config.Unmarshal.{unmarshal_http, validate_http, checks, headers_ok}
use blackbox_exporter_with_g.Config.Unmarshal.Http.{IsUsable, unmarshal_http-IsUsable}

abbrev client : HttpClientConfig
client = record {
  tls_config = no_tls_config;
  follow_redirects = true;
  enable_http2 = true;
  proxy_url = none;
  proxy_from_environment = false;
}

abbrev any_encoding : Bytes → Bytes → Bool
any_encoding compression encoding = true

abbrev limited_probe : HttpProbe
limited_probe = record (default_http_probe client) { body_size_limit = pos 1024 }

http_accepted :
    unmarshal_http some any_encoding client (λ s. some (record s { body_size_limit = pos 1024 }))
    ≡ ok limited_probe
unfolding unmarshal_http validate_http checks headers_ok
http_accepted = refl

unmarshal_http-IsUsable_example : IsUsable any_encoding limited_probe
unmarshal_http-IsUsable_example =
    unmarshal_http-IsUsable some any_encoding client
      (λ s. some (record s { body_size_limit = pos 1024 })) limited_probe
      (λ d e. (let same : d.body_size_limit ≡ pos 1024 = ground arith in rw same (omega arith)))
      http_accepted

abbrev some_class : String → Option ℕ
some_class s = if s == "IN" then some 1 else none

abbrev named : DnsProbe
named = record default_dns_probe { query_name = "a.example" }

abbrev greeting : QueryResponse
greeting = record zero_query_response { expect = record { compiled = true; original = "^220" } }

abbrev server_match : HeaderMatch
server_match = record {
  header = "Server";
  regexp = record { compiled = true; original = "nginx" };
  allow_missing = false;
}

abbrev re_text : String
re_text = "^OK"

abbrev always : String → Bool
always text = true

re_read :
    unmarshal_regexp always (some re_text) ≡ ok (record { compiled = true; original = re_text })
unfolding unmarshal_regexp
re_read = refl

abbrev cel_text : String
cel_text = "body.ok"

cel_read : unmarshal_cel_program always (some cel_text) ≡ ok (record { expression = cel_text })
unfolding unmarshal_cel_program
cel_read = refl

re_text-ne : re_text ≢ ""
re_text-ne e = cc

cel_text-ne : cel_text ≢ ""
cel_text-ne e = cc

unmarshal-marshal_example :
    ((marshal_regexp (record { compiled = true; original = re_text }) ≡ some re_text)
      × (unmarshal_regexp always (marshal_regexp (record { compiled = true; original = re_text }))
          ≡ ok (record { compiled = true; original = re_text })))
    × ((marshal_cel_program (record { expression = cel_text }) ≡ some cel_text)
        × (unmarshal_cel_program always (marshal_cel_program (record { expression = cel_text }))
            ≡ ok (record { expression = cel_text })))
unmarshal-marshal_example =
    unmarshal-marshal always always re_text cel_text
      (record { compiled = true; original = re_text }) (record { expression = cel_text }) re_text-ne
      cel_text-ne re_read cel_read
