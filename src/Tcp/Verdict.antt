-- ===== src/Tcp/Verdict.antt =====
-- When the TCP probe succeeds.
use blackbox_exporter_with_g.Common.{
  String, ◌≡◌, ◌≢◌, ◌↔◌, ◌⊎◌, refl, true, false, Option, none, some, List, ◌++◌, string_eq,
}
use blackbox_exporter_with_g.Common.Net.{Ip, split_host_port, join_host_port}
use blackbox_exporter_with_g.Common.Text.{Bytes, bytes_eq}
use blackbox_exporter_with_g.Common.Trace.{result}
use blackbox_exporter_with_g.Config.Types.{TlsConfig, TcpProbe}
use blackbox_exporter_with_g.Metrics.{returned}
use blackbox_exporter_with_g.Metrics.Exactly.{
  Exactly, next-Exactly, expect-Exactly, if-Exactly, same-Exactly, same_or-Exactly,
  and_then-Exactly, succeeded_iff,
}
use blackbox_exporter_with_g.Utils.{chosen, choose_protocol}
use blackbox_exporter_with_g.Utils.Rules.{resolved-Exactly}
use blackbox_exporter_with_g.Dialogue.{tcp}
use blackbox_exporter_with_g.Dialogue.Verdict.{Completed, probe_query_responses-Exactly}
use blackbox_exporter_with_g.Tcp.{
  Net, address_gauges, dial_protocol, local_addr, with_server_name, tls_of, dial_tcp, probe_tcp,
}

module _ {S Match : Type 0} (net : Net S Match) (c : TcpProbe) where
  -- The source address, if the module has one, is an address.
  pub record IsDialled (target : Bytes) (s : S) : Type 0 where
    pub host : Bytes
    pub port : Bytes
    pub ip : Ip
    pub source : Option Ip
    pub tls : Option TlsConfig
    pub split : split_host_port target ≡ some (host, port)
    pub found :
        (choose_protocol net.resolver c.ip_protocol c.ip_protocol_fallback host).0 ≡ chosen ip
    pub local_addr :
        ((c.source_ip_address ≡ "") × (none ≡ source))
        ⊎ ((c.source_ip_address ≢ "")
            × ((a : Ip) × (net.parse_ip c.source_ip_address ≡ some a) × (some a ≡ source)))
    pub over :
        ((c.tls ≡ true)
          × ((t : TlsConfig) × (net.dialogue.new_tls_config c.tls_config ≡ some t)
              × (some (with_server_name net c host t) ≡ tls)))
        ⊎ ((c.tls ≡ false) × (none ≡ tls))
    pub connected :
        net.dial (record {
          protocol = dial_protocol ip;
          address = join_host_port (net.ip_text ip) port;
          local_addr = source;
          tls = tls;
        })
        ≡ some s

  dial_tcp-Exactly : (target : Bytes) → Exactly (IsDialled target) (dial_tcp net c target).exit
  unfolding dial_tcp local_addr tls_of
  dial_tcp-Exactly target =
      same-Exactly _ _ _
        (and_then-Exactly _ _ _ _ _ (expect-Exactly (split_host_port target)) λ hp.
          and_then-Exactly _ _ _ _ _
            (resolved-Exactly
              (choose_protocol net.resolver c.ip_protocol c.ip_protocol_fallback hp.0).0)
            λ ip.
              and_then-Exactly _ _ _ _ _
                (same_or-Exactly c.source_ip_address "" _ _ _ _ (next-Exactly none) (
                  and_then-Exactly _ _ _ _ _ (expect-Exactly (net.parse_ip c.source_ip_address))
                    λ a. next-Exactly (some a)))
                λ source.
                  and_then-Exactly _ _ _ _ _
                    (if-Exactly _ _ c.tls _ _
                      (and_then-Exactly _ _ _ _ _
                        (expect-Exactly (net.dialogue.new_tls_config c.tls_config))
                        λ t. next-Exactly (some (with_server_name net c hp.0 t)))
                      (next-Exactly none))
                    λ tls. expect-Exactly (
                      net.dial (record {
                        protocol = dial_protocol ip;
                        address = join_host_port (net.ip_text ip) hp.1;
                        local_addr = source;
                        tls = tls;
                      })))
        λ s. (
          λ ((host, port), split, (ip, found, (source, from_, (tls, over, connected)))). record {
            host = host;
            port = port;
            ip = ip;
            source = source;
            tls = tls;
            split = split;
            found = found;
            local_addr = from_;
            over = over;
            connected = connected;
          },
          λ d. (
            (d.host, d.port),
            d.split,
            (d.ip, d.found, (d.source, d.local_addr, (d.tls, d.over, d.connected))),
          ),
        )

  -- The TCP probe succeeds exactly if the target has a host and a port, an address of the host is
  -- dialled at that port, from the source address of the module if it has one and over TLS if it
  -- says so, and the dialogue on the connection is completed.
  pub probe_tcp_iff :
      (target : Bytes) (registered : List String)
      → (result (probe_tcp net c target registered) ≡ returned true) ↔ (
          (s : S) × IsDialled target s
          × Completed net.dialogue target
              (tcp c)
              (record { state = s; registered = address_gauges ++ registered }))
  unfolding probe_tcp
  probe_tcp_iff target registered =
      let (a, b) = succeeded_iff _ (probe_tcp net c target registered) (
        and_then-Exactly _ _ _ _ _ (dial_tcp-Exactly target) λ s.
          probe_query_responses-Exactly net.dialogue target (tcp c)
            (record { state = s; registered = address_gauges ++ registered })) in
      (
        λ e. (let (s, dialled, (done, f)) = a e in (s, dialled, done)),
        λ (s, dialled, done). b (s, dialled, (done, refl)),
      )
