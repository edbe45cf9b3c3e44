-- ===== src/Dns/Probe/Prepared.antt =====
-- That the preparation of the DNS probe yields the query that is asked for.
use mathlib.Core.Path.{subst}
use blackbox_exporter_with_g.Common.{
  ℕ, String, ◌≡◌, refl, sym, ap, ◌∙◌, true, not, ◌||◌, Option, none, some, if◌then◌else◌, ◌==◌,
  string_eq,
}
use blackbox_exporter_with_g.Common.Net.{Ip, join_host_port}
use blackbox_exporter_with_g.Common.Text.{Bytes, bytes_eq}
use blackbox_exporter_with_g.Config.Types.{TlsConfig, DnsProbe}
use blackbox_exporter_with_g.Metrics.Exactly.{
  Exactly, next-Exactly, expect-Exactly, require-Exactly, if-Exactly, same-Exactly, same_or-Exactly,
  and_then-Exactly,
}
use blackbox_exporter_with_g.Utils.{is_v4, chosen, choose_protocol}
use blackbox_exporter_with_g.Utils.Rules.{resolved-Exactly}
use blackbox_exporter_with_g.Dns.Probe.{
  Library, Query, LocalAddr, tcp_addr, udp_addr, prepare, tls_of, local_of, query_type, query_class,
  transport, host_port, net_of, with_server_name,
}
use blackbox_exporter_with_g.Dns.Probe.Asked.{
  network, HasClass, HasType, HasTransport, HasTls, HasSource, IsAsked, class_iff, type_iff, guard,
  guard-HasTransport, HasTransport-guard, at-IsAt, IsAt-at,
}
use blackbox_exporter_with_g.Dns.Probe.Settings.{
  SetTls, SetSource, network-net_of, SetTls-HasTls, HasTls-SetTls, source_iff,
}

module _ (lib : Library) (target : Bytes) (dns : DnsProbe) where
  abbrev query_of : ℕ → ℕ → Ip → Option TlsConfig → Option LocalAddr → Query
  query_of qc qt ip tls source = record {
    net = net_of lib target dns ip;
    tls_config = tls;
    local_addr = source;
    address = join_host_port (lib.ip_text ip) (host_port lib target dns).1;
    recursion_desired = dns.recursion;
    name = lib.fqdn dns.query_name;
    qtype = qt;
    qclass = qc;
  }

  -- What is set before the query is made.
  abbrev Found : Query → Type 0
  Found q =
      (qc : ℕ) × (query_class lib target dns ≡ some qc)
      × ((qt : ℕ) × (query_type lib target dns ≡ some qt)
          × ((u : Unit {0}) × (guard lib target dns ≡ true)
              × ((ip : Ip) × ((choose_protocol lib.resolver dns.ip_protocol dns.ip_protocol_fallback
                      (host_port lib target dns).0).0
                    ≡ chosen ip)
                  × ((v : Unit {0}) × ((not dns.dns_over_tls || transport lib target dns == "tcp")
                        ≡ true)
                      × ((tls : Option TlsConfig) × SetTls lib target dns tls
                          × ((source : Option LocalAddr) × SetSource lib target dns source
                              × (query_of qc qt ip tls source ≡ q)))))))

  prepare-Found : Exactly Found (prepare lib target dns).exit
  unfolding prepare tls_of local_of
  prepare-Found = and_then-Exactly _ _ _ _ _ (expect-Exactly (query_class lib target dns)) λ qc.
      and_then-Exactly _ _ _ _ _ (expect-Exactly (query_type lib target dns)) λ qt.
        and_then-Exactly _ _ _ _ _ (require-Exactly (guard lib target dns)) λ u.
          and_then-Exactly _ _ _ _ _
            (resolved-Exactly
              (choose_protocol lib.resolver dns.ip_protocol dns.ip_protocol_fallback
                (host_port lib target dns).0).0)
            λ ip.
              and_then-Exactly _ _ _ _ _
                (require-Exactly (not dns.dns_over_tls || transport lib target dns == "tcp"))
                λ v.
                  and_then-Exactly _ _ _ _ _
                    (if-Exactly _ _ dns.dns_over_tls _ _
                      (and_then-Exactly _ _ _ _ _
                        (expect-Exactly (lib.new_tls_config dns.tls_config))
                        λ c. next-Exactly (some (with_server_name lib target dns c)))
                      (next-Exactly none))
                    λ tls.
                      and_then-Exactly _ _ _ _ _
                        (same_or-Exactly dns.source_ip_address "" _ _ _ _ (next-Exactly none) (
                          and_then-Exactly _ _ _ _ _
                            (expect-Exactly (lib.parse_ip dns.source_ip_address))
                            λ ip. next-Exactly (
                              some (
                                if transport lib target dns == "tcp"
                                then tcp_addr ip
                                else udp_addr ip))))
                        λ source. next-Exactly (query_of qc qt ip tls source)

  abbrev t : String
  t = transport lib target dns

  abbrev hp : Bytes × Bytes
  hp = host_port lib target dns

  Found-IsAsked : (q : Query) → Found q → IsAsked lib target dns q
  Found-IsAsked q (qc, cq, (qt, tq, (u, g, (ip, found, (v, dot, (tls, st, (src, ss, e))))))) =
      record {
        host = hp.0;
        port = hp.1;
        ip = ip;
        over = t;
        class =
            subst (HasClass lib target dns) (ap (λ r. r.qclass) e)
              ((class_iff lib target dns qc).0 cq);
        type =
            subst (HasType lib target dns) (ap (λ r. r.qtype) e)
              ((type_iff lib target dns qt).0 tq);
        has_transport = guard-HasTransport lib target dns g;
        at = at-IsAt lib target dns;
        found = found;
        tls =
            subst (HasTls lib target dns hp.0 t) (ap (λ r. r.tls_config) e)
              (SetTls-HasTls lib target dns tls dot st);
        source =
            subst (HasSource lib target dns t) (ap (λ r. r.local_addr) e)
              ((source_iff lib target dns src).0 ss);
        net =
            network-net_of lib target dns ip (guard-HasTransport lib target dns g) dot
            ∙ ap (λ r. r.net) e;
        address = ap (λ r. r.address) e;
        name = ap (λ r. r.name) e;
        recursion = ap (λ r. r.recursion_desired) e;
      }

  IsAsked-Found : (q : Query) → IsAsked lib target dns q → Found q
  IsAsked-Found q a =
      let (g, over) = HasTransport-guard lib target dns a.over a.has_transport in
      let at = IsAt-at lib target dns a.host a.port a.at in
      let host : a.host ≡ hp.0 = sym (ap (λ p. p.0) at) in
      let port : a.port ≡ hp.1 = sym (ap (λ p. p.1) at) in
      let transport_ : HasTransport lib target dns t =
        subst (HasTransport lib target dns) (sym over) a.has_transport in
      let (dot, st) = HasTls-SetTls lib target dns q.tls_config (
        subst (λ o. HasTls lib target dns hp.0 o q.tls_config) (sym over)
          (subst (λ h. HasTls lib target dns h a.over q.tls_config) host a.tls)) in
      let ss =
        (source_iff lib target dns q.local_addr).1
          (subst (λ o. HasSource lib target dns o q.local_addr) (sym over) a.source) in
      let net : net_of lib target dns a.ip ≡ q.net =
        sym (network-net_of lib target dns a.ip transport_ dot)
        ∙ subst (λ o. network dns.dns_over_tls o (is_v4 a.ip) ≡ q.net) (sym over) a.net in
      let address : join_host_port (lib.ip_text a.ip) hp.1 ≡ q.address =
        subst (λ p. join_host_port (lib.ip_text a.ip) p ≡ q.address) port a.address in
      let name = a.name in
      let recursion = a.recursion in
      (
        q.qclass,
        (class_iff lib target dns q.qclass).1 a.class,
        (
          q.qtype,
          (type_iff lib target dns q.qtype).1 a.type,
          (
            tt,
            g,
            (
              a.ip,
              subst
                  (λ h.
                    (choose_protocol lib.resolver dns.ip_protocol dns.ip_protocol_fallback h).0
                    ≡ chosen a.ip)
                  host a.found,
              (
                tt,
                dot,
                (q.tls_config, st, (q.local_addr, ss, rw (net, address, name, recursion) refl)),
              ),
            ),
          ),
        ),
      )

  -- The preparation yields just the query that is asked for.
  pub prepare-Exactly : Exactly (IsAsked lib target dns) (prepare lib target dns).exit
  prepare-Exactly = same-Exactly _ _ _ prepare-Found λ q. (Found-IsAsked q, IsAsked-Found q)
