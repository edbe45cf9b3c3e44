-- ===== src/Config/Defaults.antt =====
-- The defaults of config/config.go.
use blackbox_exporter_with_g.Common.{true, false, none, []}
use blackbox_exporter_with_g.Common.Int.{ℤ, pos}
use blackbox_exporter_with_g.Config.Types.{
  no_tls_config, HttpClientConfig, Regexp, HttpProbe, GrpcProbe, TcpProbe, UnixProbe, IcmpProbe,
  DnsRrValidator, DnsProbe, Module, QueryResponse, HeaderMatch,
}

abbrev pub default_icmp_ttl : ℤ
default_icmp_ttl = pos 64

-- `config.DefaultHTTPClientConfig`, of another library, is a parameter.
abbrev pub default_http_probe : HttpClientConfig → HttpProbe
default_http_probe client = record {
  valid_status_codes = [];
  valid_http_versions = [];
  ip_protocol = "";
  ip_protocol_fallback = true;
  skip_resolve_phase_with_proxy = false;
  no_follow_redirects = none;
  fail_if_ssl = false;
  fail_if_not_ssl = false;
  method = "";
  headers = [];
  fail_if_body_matches_regexp = [];
  fail_if_body_not_matches_regexp = [];
  fail_if_body_json_matches_cel = none;
  fail_if_body_json_not_matches_cel = none;
  fail_if_header_matches_regexp = [];
  fail_if_header_not_matches_regexp = [];
  body = "";
  body_file = "";
  http_client_config = client;
  compression = "";
  body_size_limit = pos 0;
  use_http3 = false;
}

abbrev pub default_grpc_probe : GrpcProbe
default_grpc_probe = record {
  service = "";
  tls = false;
  tls_config = no_tls_config;
  ip_protocol_fallback = true;
  preferred_ip_protocol = "";
  metadata = [];
}

abbrev pub default_tcp_probe : TcpProbe
default_tcp_probe = record {
  ip_protocol = "";
  ip_protocol_fallback = true;
  source_ip_address = "";
  query_response = [];
  tls = false;
  tls_config = no_tls_config;
}

abbrev pub default_icmp_probe : IcmpProbe
default_icmp_probe = record {
  ip_protocol = "";
  ip_protocol_fallback = true;
  source_ip_address = "";
  payload_size = pos 0;
  dont_fragment = false;
  ttl = default_icmp_ttl;
}

abbrev pub no_validator : DnsRrValidator
no_validator = record {
  fail_if_matches_regexp = [];
  fail_if_all_match_regexp = [];
  fail_if_not_matches_regexp = [];
  fail_if_none_matches_regexp = [];
}

abbrev pub default_dns_probe : DnsProbe
default_dns_probe = record {
  ip_protocol = "";
  ip_protocol_fallback = true;
  dns_over_tls = false;
  tls_config = no_tls_config;
  source_ip_address = "";
  transport_protocol = "";
  query_class = "";
  query_name = "";
  query_type = "";
  recursion = true;
  valid_rcodes = none;
  validate_answer = no_validator;
  validate_authority = no_validator;
  validate_additional = no_validator;
}

abbrev pub default_unix_probe : UnixProbe
default_unix_probe = record { query_response = []; tls = false; tls_config = no_tls_config }

-- The zero value, which no default replaces: `GRPC` is missing from `DefaultModule`.
abbrev pub zero_grpc_probe : GrpcProbe
zero_grpc_probe = record default_grpc_probe { ip_protocol_fallback = false }

abbrev pub default_module : HttpClientConfig → Module
default_module client = record {
  prober = "";
  timeout = pos 0;
  http = default_http_probe client;
  tcp = default_tcp_probe;
  icmp = default_icmp_probe;
  dns = default_dns_probe;
  grpc = zero_grpc_probe;
  unix = default_unix_probe;
}

abbrev pub zero_regexp : Regexp
zero_regexp = record { compiled = false; original = "" }

abbrev pub zero_query_response : QueryResponse
zero_query_response = record {
  expect = zero_regexp;
  expect_bytes = [];
  labels = none;
  send = [];
  start_tls = false;
}

abbrev pub zero_header_match : HeaderMatch
zero_header_match = record { header = ""; regexp = zero_regexp; allow_missing = false }
