-- ===== src/Dns/Probe.antt =====
-- `ProbeDNS` of prober/dns.go. The query that it sends is a value, and the exchange with the server
-- is a parameter, as is all that it takes from other libraries.

pub mod Verdict
pub mod Configured
pub mod Asked
pub mod Settings
pub mod Prepared
use Prim.Native.String
use blackbox_exporter_with_g.Common.{
  ℕ, String, Bool, true, false, not, ◌&&◌, ◌||◌, Option, none, some, List, [], ◌∷◌, ◌++◌, map,
  length, if◌then◌else◌, ◌==◌, ℕ_eq, string_eq,
}
use blackbox_exporter_with_g.Common.Int.{pos}
use blackbox_exporter_with_g.Common.Net.{Ip, to4, split_host_port, join_host_port}
use blackbox_exporter_with_g.Common.Text.{Bytes, codes, bytes_eq}
use blackbox_exporter_with_g.Common.Trace.{Run, pure, leave, emit, ◌>>=◌, ◌>>◌}
use blackbox_exporter_with_g.Config.Types.{TlsConfig, DnsProbe}
use blackbox_exporter_with_g.Metrics.{
  Event, register, set, timed, Outcome, returned, panicked, fail, require, expect, log,
}
use blackbox_exporter_with_g.Utils.{Resolver, is_v4, choose_protocol, resolved}
use blackbox_exporter_with_g.Dns.{Rr, valid_rrs, valid_rcode}

pub data LocalAddr : Type 0 where
  tcp_addr udp_addr : Ip → LocalAddr

-- The client and the message that `client.Exchange` gets.
pub record Query : Type 0 where
  pub net : String
  pub tls_config : Option TlsConfig
  pub local_addr : Option LocalAddr
  pub address : Bytes
  pub recursion_desired : Bool
  pub name : String
  pub qtype : ℕ
  pub qclass : ℕ

pub record Response : Type 0 where
  pub rcode : ℕ
  pub answer : List Rr
  pub ns : List Rr
  pub extra : List Rr

-- What the probe takes from miekg/dns, the regular expressions, the TLS configuration and the net.
pub record Library : Type 0 where
  pub string_to_class : String → Option ℕ
  pub string_to_type : String → Option ℕ
  pub string_to_rcode : String → Option ℕ
  pub class_inet : ℕ
  pub type_any : ℕ
  pub type_soa : ℕ
  pub fqdn : String → String
  pub match_string : String → String → Option Bool
  pub new_tls_config : TlsConfig → Option TlsConfig
  pub parse_ip : String → Option Ip
  pub ip_text : Ip → Bytes
  pub resolver : Resolver
  pub exchange : Query → Option Response

module _ (lib : Library) (target : Bytes) (dns : DnsProbe) where
  abbrev pub query_class : Option ℕ
  query_class =
      if dns.query_class == "" then some lib.class_inet else lib.string_to_class dns.query_class

  abbrev pub query_type : Option ℕ
  query_type = if dns.query_type == "" then some lib.type_any else lib.string_to_type dns.query_type

  abbrev pub transport : String
  transport = if dns.transport_protocol == "" then "udp" else dns.transport_protocol

  -- The host and port of the target, with the default port if it names none.
  abbrev pub host_port : Bytes × Bytes
  host_port = elim (split_host_port target) [
    | some (host, port) ↦ (host, port)
    | none ↦ (target, if dns.dns_over_tls then codes "853" else codes "53")
  ]

  abbrev pub dial_protocol : Ip → String
  dial_protocol ip = String.◌++◌ transport (if is_v4 ip then "4" else "6")

  abbrev pub net_of : Ip → String
  net_of ip = if dns.dns_over_tls then String.◌++◌ (dial_protocol ip) "-tls" else dial_protocol ip

  abbrev pub with_server_name : TlsConfig → TlsConfig
  with_server_name c = if c.server_name == [] then record c { server_name = host_port.0 } else c

  pub tls_of : Run Event Outcome (Option TlsConfig)
  tls_of =
      if dns.dns_over_tls
      then (do c ← expect (lib.new_tls_config dns.tls_config); pure (some (with_server_name c)))
      else pure none

  pub local_of : Run Event Outcome (Option LocalAddr)
  local_of = if dns.source_ip_address == "" then pure none else (do
    ip ← expect (lib.parse_ip dns.source_ip_address)
    pure (some (if transport == "tcp" then tcp_addr ip else udp_addr ip)))

  -- All until the query is sent.
  pub prepare : Run Event Outcome Query
  unfolding resolved tls_of local_of
  prepare = do
    log (
        register "probe_dns_duration_seconds"
        ∷ register "probe_dns_answer_rrs"
        ∷ register "probe_dns_authority_rrs"
        ∷ register "probe_dns_additional_rrs"
        ∷ register "probe_dns_query_succeeded"
        ∷ [])
    qc ← expect query_class
    qt ← expect query_type
    require (transport == "udp" || transport == "tcp")
    let choice = choose_protocol lib.resolver dns.ip_protocol dns.ip_protocol_fallback host_port.0
    log choice.1
    ip ← resolved choice.0
    log (timed "probe_dns_duration_seconds" ("resolve" ∷ []) ∷ [])
    require (not dns.dns_over_tls || transport == "tcp")
    tls ← tls_of
    source ← local_of
    pure (record {
      net = net_of ip;
      tls_config = tls;
      local_addr = source;
      address = join_host_port (lib.ip_text ip) host_port.1;
      recursion_desired = dns.recursion;
      name = lib.fqdn dns.query_name;
      qtype = qt;
      qclass = qc;
    })

  serials : List Rr → List Event
  serials [] = []
  serials (rr ∷ rrs) = elim rr.soa_serial [
    | none ↦ serials rrs
    | some serial ↦ set "probe_dns_serial" [] (pos serial) ∷ serials rrs
  ]

  -- The gauges of a response.
  counts : Query → Response → List Event
  unfolding serials
  counts q response =
      set "probe_dns_answer_rrs" [] (pos (length response.answer))
      ∷ set "probe_dns_authority_rrs" [] (pos (length response.ns))
      ∷ set "probe_dns_additional_rrs" [] (pos (length response.extra))
      ∷ set "probe_dns_query_succeeded" [] (pos 1)
      ∷ (if q.qtype == lib.type_soa
          then register "probe_dns_serial" ∷ serials response.answer
          else [])

  -- All after the exchange.
  judge : Query → Option Response → Run Event Outcome Outcome
  unfolding counts
  judge q answered = do
    log (
        timed "probe_dns_duration_seconds" ("connect" ∷ [])
        ∷ timed "probe_dns_duration_seconds" ("request" ∷ [])
        ∷ [])
    response ← expect answered
    log (counts q response)
    require (valid_rcode lib.string_to_rcode response.rcode dns.valid_rcodes)
    require (valid_rrs lib.match_string response.answer dns.validate_answer)
    require (valid_rrs lib.match_string response.ns dns.validate_authority)
    require (valid_rrs lib.match_string response.extra dns.validate_additional)
    pure (returned true)

  unfoldable pub probe_dns : Run Event Outcome Outcome
  unfolding prepare judge
  probe_dns = do q ← prepare; judge q (lib.exchange q)
