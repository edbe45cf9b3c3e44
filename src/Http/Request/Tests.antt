-- ===== src/Http/Request/Tests.antt =====
-- Runs of the request.
use blackbox_exporter_with_g.Common.Mime.{canonical_key}
use blackbox_exporter_with_g.Common.{
  String, ◌≡◌, refl, true, false, none, List, here, later, [], ◌∷◌,
}
use blackbox_exporter_with_g.Common.Int.{pos}
use blackbox_exporter_with_g.Common.Results.{ok}
use blackbox_exporter_with_g.Common.Text.{Bytes, codes}
use blackbox_exporter_with_g.Config.Types.{Module, HttpClientConfig, no_tls_config}
use blackbox_exporter_with_g.Config.Defaults.{default_module}
use blackbox_exporter_with_g.Handler.{set_http_host, copy, with_host, put}
use blackbox_exporter_with_g.Http.Request.{request_host, server_name}
use blackbox_exporter_with_g.Http.Request.Hosts.{IsWalkOf, set_http_host-request_host}

abbrev client : HttpClientConfig
client = record {
  tls_config = no_tls_config;
  follow_redirects = true;
  enable_http2 = true;
  proxy_url = none;
  proxy_from_environment = false;
}

abbrev http_2xx : Module
http_2xx = record (default_module client) { prober = "http"; timeout = pos 5 }

abbrev with_agent : Module
with_agent = record http_2xx {
  http = record http_2xx.http { headers = ("User-Agent", codes "probe") ∷ [] };
}

abbrev hosted : Module
hosted = record http_2xx {
  http = record http_2xx.http {
    headers = ("User-Agent", codes "probe") ∷ ("Host", codes "a.example") ∷ [];
  };
}

accepted : set_http_host (codes "a.example") with_agent ≡ ok hosted
unfolding set_http_host canonical_key copy with_host put
accepted = refl

abbrev walked : List (String × Bytes)
walked = ("Host", codes "a.example") ∷ ("User-Agent", codes "probe") ∷ []

walked-IsWalkOf : IsWalkOf hosted.http.headers walked
walked-IsWalkOf h = (
  λ i. (elim i [
    | here e ↦ later (here e)
    | later j ↦ elim j [ here e ↦ here e | later k ↦ elim k [ ] ]
  ]),
  λ i. (elim i [
    | here e ↦ later (here e)
    | later j ↦ elim j [ here e ↦ here e | later k ↦ elim k [ ] ]
  ]),
)

set_http_host-request_host_example :
    (request_host (codes "10.0.0.1") walked ≡ codes "a.example")
    × (server_name [] walked (codes "10.0.0.1") ≡ codes "a.example")
set_http_host-request_host_example =
    set_http_host-request_host (codes "a.example") (codes "10.0.0.1") with_agent hosted walked
      accepted walked-IsWalkOf
