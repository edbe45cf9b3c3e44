-- ===== src/Config/Types.antt =====
-- The structs of config/config.go and their defaults. Of `config.HTTPClientConfig` and
-- `config.TLSConfig`, which another library declares, the records have the fields that this program
-- reads or sets. Numbers of type `int` and `int64` are integers; a
-- text that the program walks or sends is its bytes.
use blackbox_exporter_with_g.Common.{ℕ, String, Bool, false, Option, List, []}
use blackbox_exporter_with_g.Common.Text.{Bytes}
use blackbox_exporter_with_g.Common.Int.{ℤ}

-- `config.TLSConfig`
pub record TlsConfig : Type 0 where
  pub ca : String
  pub cert : String
  pub key : String
  pub ca_file : String
  pub cert_file : String
  pub key_file : String
  pub ca_ref : String
  pub cert_ref : String
  pub key_ref : String
  pub server_name : Bytes
  pub insecure_skip_verify : Bool
  pub min_version : ℕ
  pub max_version : ℕ

abbrev pub no_tls_config : TlsConfig
no_tls_config = record {
  ca = "";
  cert = "";
  key = "";
  ca_file = "";
  cert_file = "";
  key_file = "";
  ca_ref = "";
  cert_ref = "";
  key_ref = "";
  server_name = [];
  insecure_skip_verify = false;
  min_version = 0;
  max_version = 0;
}

-- `config.HTTPClientConfig`
pub record HttpClientConfig : Type 0 where
  pub tls_config : TlsConfig
  pub follow_redirects : Bool
  pub enable_http2 : Bool
  pub proxy_url : Option String
  pub proxy_from_environment : Bool

-- A regular expression with its source; `compiled` is whether the pointer is not nil.
pub record Regexp : Type 0 where
  pub compiled : Bool
  pub original : String

pub record CelProgram : Type 0 where
  pub expression : String

pub record HeaderMatch : Type 0 where
  pub header : String
  pub regexp : Regexp
  pub allow_missing : Bool

pub record HttpProbe : Type 0 where
  pub valid_status_codes : List ℤ
  pub valid_http_versions : List String
  pub ip_protocol : String
  pub ip_protocol_fallback : Bool
  pub skip_resolve_phase_with_proxy : Bool
  pub no_follow_redirects : Option Bool
  pub fail_if_ssl : Bool
  pub fail_if_not_ssl : Bool
  pub method : String
  pub headers : List (String × Bytes)
  pub fail_if_body_matches_regexp : List Regexp
  pub fail_if_body_not_matches_regexp : List Regexp
  pub fail_if_body_json_matches_cel : Option CelProgram
  pub fail_if_body_json_not_matches_cel : Option CelProgram
  pub fail_if_header_matches_regexp : List HeaderMatch
  pub fail_if_header_not_matches_regexp : List HeaderMatch
  pub body : String
  pub body_file : String
  pub http_client_config : HttpClientConfig
  pub compression : String
  pub body_size_limit : ℤ
  pub use_http3 : Bool

pub record GrpcProbe : Type 0 where
  pub service : String
  pub tls : Bool
  pub tls_config : TlsConfig
  pub ip_protocol_fallback : Bool
  pub preferred_ip_protocol : String
  pub metadata : List (String × List String)

pub record Label : Type 0 where
  pub name : String
  pub value : Bytes

pub record QueryResponse : Type 0 where
  pub expect : Regexp
  pub expect_bytes : Bytes
  pub labels : Option (List Label)
  pub send : Bytes
  pub start_tls : Bool

pub record TcpProbe : Type 0 where
  pub ip_protocol : String
  pub ip_protocol_fallback : Bool
  pub source_ip_address : String
  pub query_response : List QueryResponse
  pub tls : Bool
  pub tls_config : TlsConfig

pub record UnixProbe : Type 0 where
  pub query_response : List QueryResponse
  pub tls : Bool
  pub tls_config : TlsConfig

pub record IcmpProbe : Type 0 where
  pub ip_protocol : String
  pub ip_protocol_fallback : Bool
  pub source_ip_address : String
  pub payload_size : ℤ
  pub dont_fragment : Bool
  pub ttl : ℤ

pub record DnsRrValidator : Type 0 where
  pub fail_if_matches_regexp : List String
  pub fail_if_all_match_regexp : List String
  pub fail_if_not_matches_regexp : List String
  pub fail_if_none_matches_regexp : List String

-- `valid_rcodes` is `none` where the source has a nil slice.
pub record DnsProbe : Type 0 where
  pub ip_protocol : String
  pub ip_protocol_fallback : Bool
  pub dns_over_tls : Bool
  pub tls_config : TlsConfig
  pub source_ip_address : String
  pub transport_protocol : String
  pub query_class : String
  pub query_name : String
  pub query_type : String
  pub recursion : Bool
  pub valid_rcodes : Option (List String)
  pub validate_answer : DnsRrValidator
  pub validate_authority : DnsRrValidator
  pub validate_additional : DnsRrValidator

-- `timeout` is a `time.Duration`, in nanoseconds.
pub record Module : Type 0 where
  pub prober : String
  pub timeout : ℤ
  pub http : HttpProbe
  pub tcp : TcpProbe
  pub icmp : IcmpProbe
  pub dns : DnsProbe
  pub grpc : GrpcProbe
  pub unix : UnixProbe
