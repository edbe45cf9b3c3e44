-- ===== src/Handler/Tests.antt =====
-- Runs of the handler.
use blackbox_exporter_with_g.Common.{
  ℕ, String, ◌≡◌, ◌⊎◌, refl, true, false, Option, none, some, [], ◌∷◌, if◌then◌else◌, ◌==◌,
  string_eq,
}
use blackbox_exporter_with_g.Common.Float.{whole_numbers}
use blackbox_exporter_with_g.Common.Int.{ℤ, pos, pos_part}
use blackbox_exporter_with_g.Common.Mime.{canonical_key}
use blackbox_exporter_with_g.Common.Results.{ok}
use blackbox_exporter_with_g.Common.Text.{codes}
use blackbox_exporter_with_g.Common.Trace.{result}
use blackbox_exporter_with_g.Config.Types.{Module, HttpClientConfig, no_tls_config}
use blackbox_exporter_with_g.Config.Defaults.{default_module}
use blackbox_exporter_with_g.Handler.{
  metrics, unknown_module, Request, Probing, finished, handler, job_of, finish, settled,
  get_timeout, asked, budgeted, capped, set_http_host, with_host, copy, put, get, params_of,
  name_of, module_named, lift, found, refuse_if, hosted, with_server_name, debug_output,
}
use blackbox_exporter_with_g.Handler.Timeout.{IsAsked, IsTimeout, get_timeout-IsTimeout}
use blackbox_exporter_with_g.Handler.Exits.{IsRefused, IsProbed, IsPanicked, handler-Ends}

abbrev seconds : ℤ → ℕ
seconds t = pos_part t

abbrev client : HttpClientConfig
client = record {
  tls_config = no_tls_config;
  follow_redirects = true;
  enable_http2 = true;
  proxy_url = none;
  proxy_from_environment = false;
}

abbrev http_2xx : Module
http_2xx = record (default_module client) { prober = "http"; timeout = pos 5 }

abbrev hosted_2xx : Module
hosted_2xx = record http_2xx {
  http = record http_2xx.http { headers = ("host", codes "a.example") ∷ [] };
}

capped_timeout : get_timeout whole_numbers seconds (codes "10") (pos 20) 1 ≡ ok 9
unfolding get_timeout asked budgeted capped
capped_timeout = refl

get_timeout-IsTimeout_example :
    (a : ℕ) × IsAsked whole_numbers seconds (codes "10") a
    × IsTimeout whole_numbers 20 (whole_numbers.sub a 1) 9
get_timeout-IsTimeout_example =
    get_timeout-IsTimeout whole_numbers seconds (codes "10") (pos 20) 1 9 capped_timeout

abbrev accepted : Module
accepted = record hosted_2xx {
  http = record hosted_2xx.http {
    headers = ("host", codes "a.example") ∷ ("Host", codes "a.example") ∷ [];
  };
}

hosted_again : set_http_host (codes "a.example") hosted_2xx ≡ ok accepted
unfolding set_http_host with_host copy put canonical_key
hosted_again = refl

abbrev run : ℕ → String → Module → Probing
run timeout target m =
    finished (record { success = true; logs = ""; families = "up 1"; gather_error = none })

abbrev probers : String → Option (ℕ → String → Module → Probing)
probers name = if name == "http" then some run else none

abbrev request : Request
request = record {
  query = ("target", "a.example") ∷ [];
  params = none;
  scrape_timeout = codes "10";
}

served :
    result (
      handler whole_numbers seconds
        (("http_2xx", http_2xx) ∷ [])
        1
        true
        probers
        (λ m. ok "")
        request)
    ≡ metrics "up 1"
unfolding handler job_of finish settled get params_of name_of module_named lift found refuse_if
    hosted with_server_name get_timeout asked budgeted capped debug_output
served = refl

unknown :
    result (handler whole_numbers seconds [] 1 true probers (λ m. ok "") request)
    ≡ unknown_module "http_2xx"
unfolding handler job_of finish get params_of name_of module_named lift found
unknown = refl

handler-Ends_example :
    IsRefused whole_numbers seconds
      (("http_2xx", http_2xx) ∷ [])
      1
      true
      probers
      (λ m. ok "")
      (handler whole_numbers seconds
        (("http_2xx", http_2xx) ∷ [])
        1
        true
        probers
        (λ m. ok "")
        request)
    ⊎ (IsProbed whole_numbers seconds
          (("http_2xx", http_2xx) ∷ [])
          1
          true
          probers
          (λ m. ok "")
          request
          (handler whole_numbers seconds
            (("http_2xx", http_2xx) ∷ [])
            1
            true
            probers
            (λ m. ok "")
            request)
        ⊎ IsPanicked whole_numbers seconds
            (("http_2xx", http_2xx) ∷ [])
            1
            true
            probers
            (λ m. ok "")
            request
            (handler whole_numbers seconds
              (("http_2xx", http_2xx) ∷ [])
              1
              true
              probers
              (λ m. ok "")
              request))
handler-Ends_example =
    handler-Ends whole_numbers seconds (("http_2xx", http_2xx) ∷ []) 1 true probers (λ m. ok "")
      request
