-- ===== src/Tcp.antt =====
-- prober/tcp.go: `dialTCP` and `ProbeTCP`, with the dialogue of prober/query_response.go. The dialers
-- are parameters. The deferred closing of the connection is left out.
pub mod Verdict
mod Tests
use blackbox_exporter_with_g.Common.{
  ℕ, String, Bool, true, false, Option, none, some, List, [], ◌∷◌, ◌++◌, if◌then◌else◌, ◌==◌,
  string_eq,
}
use blackbox_exporter_with_g.Common.Net.{Ip, split_host_port, join_host_port}
use blackbox_exporter_with_g.Common.Text.{Bytes, bytes_eq}
use blackbox_exporter_with_g.Common.Trace.{Run, pure, ◌>>=◌, ◌>>◌}
use blackbox_exporter_with_g.Config.Types.{TlsConfig, TcpProbe}
use blackbox_exporter_with_g.Metrics.{Event, Outcome, expect, log}
use blackbox_exporter_with_g.Utils.{Resolver, is_v4, choose_protocol, resolved}
use blackbox_exporter_with_g.Dialogue.{Library, Session, tcp, probe_query_responses}

-- What is dialled: by `dialer.DialContext`, or by `tls.DialWithDialer` with a configuration.
pub record Dial : Type 0 where
  pub protocol : String
  pub address : Bytes
  pub local_addr : Option Ip
  pub tls : Option TlsConfig

-- What the probe takes from the net, and from the dialogue's libraries.
pub record Net (S Match : Type 0) : Type 0 where
  pub resolver : Resolver
  pub parse_ip : String → Option Ip
  pub ip_text : Ip → Bytes
  pub dial : Dial → Option S
  pub dialogue : Library S Match

-- The gauges of `chooseProtocol`.
abbrev pub address_gauges : List String
address_gauges = "probe_ip_addr_hash" ∷ "probe_dns_lookup_time_seconds" ∷ "probe_ip_protocol" ∷ []

abbrev pub dial_protocol : Ip → String
dial_protocol ip = if is_v4 ip then "tcp4" else "tcp6"

module _ {S Match : Type 0} (net : Net S Match) (c : TcpProbe) where
  pub local_addr : Run Event Outcome (Option Ip)
  local_addr =
      if c.source_ip_address == ""
      then pure none
      else (do ip ← expect (net.parse_ip c.source_ip_address); pure (some ip))

  -- The name to verify is the host of the target, if the configuration has none.
  abbrev pub with_server_name : Bytes → TlsConfig → TlsConfig
  with_server_name host tls =
      if tls.server_name == [] then record tls { server_name = host } else tls

  pub tls_of : Bytes → Run Event Outcome (Option TlsConfig)
  tls_of host =
      if c.tls
      then (do
        tls ← expect (net.dialogue.new_tls_config c.tls_config)
        pure (some (with_server_name host tls)))
      else pure none

  pub dial_tcp : Bytes → Run Event Outcome S
  unfolding resolved local_addr tls_of
  dial_tcp target = do
    (host, port) ← expect (split_host_port target)
    let choice = choose_protocol net.resolver c.ip_protocol c.ip_protocol_fallback host
    log choice.1
    ip ← resolved choice.0
    source ← local_addr
    tls ← tls_of host
    expect (
        net.dial (record {
          protocol = dial_protocol ip;
          address = join_host_port (net.ip_text ip) port;
          local_addr = source;
          tls = tls;
        }))

  -- The names are those that the registry has before.
  unfoldable pub probe_tcp : Bytes → List String → Run Event Outcome Outcome
  unfolding dial_tcp
  probe_tcp target registered = do
    s ← dial_tcp target
    probe_query_responses net.dialogue target (tcp c)
        (record { state = s; registered = address_gauges ++ registered })
