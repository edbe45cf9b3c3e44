-- ===== src/Dns/Tests.antt =====
-- Runs of the DNS probe, and its theorems at concrete inputs.
use blackbox_exporter_with_g.Common.{
  ℕ, String, ◌≡◌, ◌↔◌, refl, Bool, true, false, Option, none, some, [], ◌∷◌, if◌then◌else◌, ◌==◌,
  string_eq,
}
use blackbox_exporter_with_g.Common.Net.{Ip, split_host_port, join_host_port}
use blackbox_exporter_with_g.Common.Text.{codes}
use blackbox_exporter_with_g.Common.Trace.{result}
use blackbox_exporter_with_g.Config.Types.{DnsRrValidator, DnsProbe, no_tls_config}
use blackbox_exporter_with_g.Metrics.{returned}
use blackbox_exporter_with_g.Utils.{choose_protocol}
use blackbox_exporter_with_g.Dns.{Rr, valid_rrs, valid_rcode}
use blackbox_exporter_with_g.Dns.Validate.{accepts, valid_rrs-accepts}
use blackbox_exporter_with_g.Common.Results.{ok}
use blackbox_exporter_with_g.Config.Unmarshal.{unmarshal_dns}
use blackbox_exporter_with_g.Dns.Probe.{Library, probe_dns}
use blackbox_exporter_with_g.Dns.Probe.Verdict.{Answered, probe_dns_iff}

-- Expressions that match only their own text; the empty one does not compile.
abbrev exact : String → String → Option Bool
exact re rr = if re == "" then none else some (re == rr)

abbrev no_checks : DnsRrValidator
no_checks = record {
  fail_if_matches_regexp = [];
  fail_if_all_match_regexp = [];
  fail_if_not_matches_regexp = [];
  fail_if_none_matches_regexp = [];
}

abbrev rr : String → Rr
rr text = record { text = text; soa_serial = none }

abbrev only_all : DnsRrValidator
only_all = record no_checks { fail_if_all_match_regexp = "a" ∷ [] }

-- Although its name says the opposite, `fail_if_all_match_regexp` accepts records that all match.
all_match_accepted : valid_rrs exact (rr "a" ∷ rr "a" ∷ []) only_all ≡ true
unfolding valid_rrs
all_match_accepted = refl

not_all_match_rejected : valid_rrs exact (rr "a" ∷ rr "b" ∷ []) only_all ≡ false
unfolding valid_rrs
not_all_match_rejected = refl

valid_rrs-accepts_example :
    valid_rrs exact (rr "a" ∷ rr "b" ∷ []) only_all ≡ accepts exact only_all (rr "a" ∷ rr "b" ∷ [])
valid_rrs-accepts_example = valid_rrs-accepts exact (rr "a" ∷ rr "b" ∷ []) only_all

abbrev known_codes : String → Option ℕ
known_codes name = if name == "NOERROR" then some 0 else if name == "NXDOMAIN" then some 3 else none

abbrev server : Ip
server = 8 ∷ 8 ∷ 8 ∷ 8 ∷ []

abbrev library : Library
library = record {
  string_to_class = λ name. if name == "IN" then some 1 else none;
  string_to_type = λ name. if name == "A" then some 1 else none;
  string_to_rcode = known_codes;
  class_inet = 1;
  type_any = 255;
  type_soa = 6;
  fqdn = λ name. name;
  match_string = exact;
  new_tls_config = λ c. some c;
  parse_ip = λ text. none;
  ip_text = λ ip. codes "8.8.8.8";
  resolver = record {
    lookup_ip = λ f name. some (server ∷ []);
    lookup_ip_addr = λ name. some (server ∷ []);
  };
  exchange = λ q. some (record { rcode = 0; answer = rr "a" ∷ []; ns = []; extra = [] });
}

abbrev dns_module : DnsProbe
dns_module = record {
  ip_protocol = "ip4";
  ip_protocol_fallback = true;
  dns_over_tls = true;
  tls_config = no_tls_config;
  source_ip_address = "";
  transport_protocol = "tcp";
  query_class = "";
  query_name = "example.com.";
  query_type = "A";
  recursion = true;
  valid_rcodes = none;
  validate_answer = only_all;
  validate_authority = no_checks;
  validate_additional = no_checks;
}

probe_dns_run : result (probe_dns library (codes "dns.google") dns_module) ≡ returned true
unfolding probe_dns valid_rrs valid_rcode choose_protocol split_host_port join_host_port
probe_dns_run = refl

probe_dns_iff_example :
    (result (probe_dns library (codes "dns.google") dns_module) ≡ returned true)
    ↔ Answered library (codes "dns.google") dns_module
probe_dns_iff_example = probe_dns_iff library (codes "dns.google") dns_module

dns_module_accepted :
    unmarshal_dns library.string_to_class library.string_to_type (λ s. some dns_module)
    ≡ ok dns_module
unfolding unmarshal_dns
dns_module_accepted = refl
