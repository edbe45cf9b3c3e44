-- ===== src/Http/Probe/Tests.antt =====
-- A run of the HTTP probe, and its theorem at a concrete input.
use blackbox_exporter_with_g.Common.{
  ℕ, ◌≡◌, ◌↔◌, refl, true, false, Option, none, some, [], ◌∷◌, drop,
}
use blackbox_exporter_with_g.Common.Int.{pos}
use blackbox_exporter_with_g.Common.Results.{err}
use blackbox_exporter_with_g.Common.Text.{Bytes, codes}
use blackbox_exporter_with_g.Common.Trace.{result}
use blackbox_exporter_with_g.Config.Types.{HttpProbe, HttpClientConfig, no_tls_config}
use blackbox_exporter_with_g.Config.Defaults.{default_http_probe}
use blackbox_exporter_with_g.Metrics.{returned}
use blackbox_exporter_with_g.Http.Response.{Response, judge_response, judge_tls}
use blackbox_exporter_with_g.Utils.{choose_protocol}
use blackbox_exporter_with_g.Gost.{wrap_gost_fallback}
use blackbox_exporter_with_g.Http.Request.{should_resolve_dns_with_proxy}
use blackbox_exporter_with_g.Http.Transport.{new_transport}
use blackbox_exporter_with_g.Http.Probe.{Url, Request, Clients, Answer, Library, probe_http}
use blackbox_exporter_with_g.Http.Probe.Verdict.{IsPrepared, Accepted, probe_http_iff}

abbrev client : HttpClientConfig
client = record {
  tls_config = no_tls_config;
  follow_redirects = true;
  enable_http2 = true;
  proxy_url = none;
  proxy_from_environment = false;
}

abbrev host_url : Bytes → Option Url
host_url text = some (record { hostname = drop 7 text; port = []; host = drop 7 text; rest = [] })

abbrev response : Response
response = record {
  status_code = pos 200;
  proto = "HTTP/1.1";
  header = λ key. [];
  body = record { rest = codes "1"; broken = false; n = 0 };
}

abbrev answer : Answer
answer = record {
  final =
      some
        (record { response = response; tls = none; content_length = pos 1; last_modified = none });
  errored = false;
  traces = new_transport true;
  redirects = 0;
}

abbrev library : Library ℕ ℕ
library = record {
  parse = host_url;
  resolver = record {
    lookup_ip = λ f name. some ((10 ∷ 0 ∷ 0 ∷ 1 ∷ []) ∷ []);
    lookup_ip_addr = λ name. some ((10 ∷ 0 ∷ 0 ∷ 1 ∷ []) ∷ []);
  };
  ip_text = λ ip. codes "10.0.0.1";
  new_tls_config = λ c. some c;
  http3_transport = λ c. 3;
  new_client = λ c. some 1;
  new_round_tripper = λ c. some 2;
  gost_enabled = false;
  gost = λ c. err tt;
  auto = λ a b. a;
  cookie_jar = true;
  open_file = λ path. false;
  new_request = λ r. true;
  user_agent = codes "probe";
  do_request = λ clients r. answer;
  matches = λ re text. false;
  unmarshal = λ text. none;
  eval = λ program json. none;
  decompress = λ d r. none;
  sha256 = λ bs. bs;
  unix = λ t. pos t;
  cipher_suite_name = λ n. "";
}

abbrev plain : HttpProbe
plain = default_http_probe client

abbrev only_tls : HttpProbe
only_tls = record plain { fail_if_not_ssl = true }

-- Without TLS the response is accepted, unless the module asks for TLS.
plain_succeeds : result (probe_http library plain (codes "host")) ≡ returned true
unfolding probe_http should_resolve_dns_with_proxy choose_protocol wrap_gost_fallback judge_tls
    judge_response
plain_succeeds = refl

only_tls_fails : result (probe_http library only_tls (codes "host")) ≡ returned false
unfolding probe_http should_resolve_dns_with_proxy choose_protocol wrap_gost_fallback judge_tls
    judge_response
only_tls_fails = refl

probe_http_iff_example : (result (probe_http library plain (codes "host")) ≡ returned true) ↔ (
    (ready : Clients ℕ × Request) × IsPrepared library plain (codes "host") ready
    × Accepted library plain (library.do_request ready.0 ready.1))
probe_http_iff_example = probe_http_iff library plain (codes "host")
