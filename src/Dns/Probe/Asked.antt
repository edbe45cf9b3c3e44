-- ===== src/Dns/Probe/Asked.antt =====
-- The query that a module asks for, apart from the code that prepares it.
use blackbox_exporter_with_g.Common.{
  ℕ, String, ◌≡◌, ◌≢◌, ◌↔◌, ◌⊎◌, refl, Bool, true, false, ◌||◌, Option, none, some, [], arith, inl,
  inr, Bool-cases, Option-cases, if◌then◌else◌, ◌==◌, string_eq, eq_iff,
}
use blackbox_exporter_with_g.Common.Net.{Ip, split_host_port, join_host_port}
use blackbox_exporter_with_g.Common.Text.{Bytes, codes, bytes_eq}
use blackbox_exporter_with_g.Config.Types.{TlsConfig, DnsProbe}
use blackbox_exporter_with_g.Utils.{is_v4, chosen, choose_protocol}
use blackbox_exporter_with_g.Dns.Probe.{
  Library, Query, LocalAddr, tcp_addr, udp_addr, query_type, query_class, transport, host_port,
}

-- The network that the client names: over TLS or not, over TCP or UDP, of IPv4 or IPv6.
abbrev pub network : Bool → String → Bool → String
network true t v4 = if v4 then "tcp4-tls" else "tcp6-tls"
network false t v4 =
    if t == "tcp" then if v4 then "tcp4" else "tcp6" else if v4 then "udp4" else "udp6"

module _ (lib : Library) (target : Bytes) (dns : DnsProbe) where
  abbrev pub HasClass : ℕ → Type 0
  HasClass k =
      ((dns.query_class ≡ "") × (lib.class_inet ≡ k))
      ⊎ ((dns.query_class ≢ "") × (lib.string_to_class dns.query_class ≡ some k))

  abbrev pub HasType : ℕ → Type 0
  HasType k =
      ((dns.query_type ≡ "") × (lib.type_any ≡ k))
      ⊎ ((dns.query_type ≢ "") × (lib.string_to_type dns.query_type ≡ some k))

  abbrev pub HasTransport : String → Type 0
  HasTransport t =
      (((dns.transport_protocol ≡ "") ⊎ (dns.transport_protocol ≡ "udp")) × (t ≡ "udp"))
      ⊎ ((dns.transport_protocol ≡ "tcp") × (t ≡ "tcp"))

  -- The target is a host with a port, or a host, with the default port.
  abbrev pub IsAt : Bytes → Bytes → Type 0
  IsAt host port =
      (split_host_port target ≡ some (host, port))
      ⊎ ((split_host_port target ≡ none)
          × (target ≡ host)
          × (((dns.dns_over_tls ≡ true) × (port ≡ codes "853"))
              ⊎ ((dns.dns_over_tls ≡ false) × (port ≡ codes "53"))))

  -- TLS with the module's configuration, and the host as the name of the server if it has none.
  abbrev pub HasTls : Bytes → String → Option TlsConfig → Type 0
  HasTls host t tls =
      ((dns.dns_over_tls ≡ true)
        × (t ≡ "tcp")
        × ((c : TlsConfig) × (lib.new_tls_config dns.tls_config ≡ some c)
            × (((c.server_name ≡ []) × (some (record c { server_name = host }) ≡ tls))
                ⊎ ((c.server_name ≢ []) × (some c ≡ tls)))))
      ⊎ ((dns.dns_over_tls ≡ false) × (none ≡ tls))

  abbrev pub HasSource : String → Option LocalAddr → Type 0
  HasSource t source =
      ((dns.source_ip_address ≡ "") × (none ≡ source))
      ⊎ ((dns.source_ip_address ≢ "")
          × ((ip : Ip) × (lib.parse_ip dns.source_ip_address ≡ some ip)
              × (((t ≡ "tcp") × (some (tcp_addr ip) ≡ source))
                  ⊎ ((t ≢ "tcp") × (some (udp_addr ip) ≡ source)))))

  -- The query: to the chosen address of the target's host, over the transport of the module.
  pub record IsAsked (q : Query) : Type 0 where
    pub host : Bytes
    pub port : Bytes
    pub ip : Ip
    pub over : String
    pub class : HasClass q.qclass
    pub type : HasType q.qtype
    pub has_transport : HasTransport over
    pub at : IsAt host port
    pub found :
        (choose_protocol lib.resolver dns.ip_protocol dns.ip_protocol_fallback host).0 ≡ chosen ip
    pub tls : HasTls host over q.tls_config
    pub source : HasSource over q.local_addr
    pub net : network dns.dns_over_tls over (is_v4 ip) ≡ q.net
    pub address : join_host_port (lib.ip_text ip) port ≡ q.address
    pub name : lib.fqdn dns.query_name ≡ q.name
    pub recursion : dns.recursion ≡ q.recursion_desired

  pub class_iff : (k : ℕ) → (query_class lib target dns ≡ some k) ↔ HasClass k
  class_iff k = ground (arith, eq_iff dns.query_class "")

  pub type_iff : (k : ℕ) → (query_type lib target dns ≡ some k) ↔ HasType k
  type_iff k = ground (arith, eq_iff dns.query_type "")

  abbrev pub guard : Bool
  guard = transport lib target dns == "udp" || transport lib target dns == "tcp"

  pub guard-HasTransport : guard ≡ true → HasTransport (transport lib target dns)
  guard-HasTransport e = elim (Bool-cases (dns.transport_protocol == "")) [
    | inl b ↦ inl (inl ((eq_iff dns.transport_protocol "").0 b), rw b refl)
    | inr b ↦ elim (Bool-cases (dns.transport_protocol == "udp")) [
      | inl u ↦
          (let same : dns.transport_protocol ≡ "udp" = (eq_iff dns.transport_protocol "udp").0 u in
            inl (inr same, rw b same))
      | inr u ↦
          (let same : dns.transport_protocol ≡ "tcp" =
              (eq_iff dns.transport_protocol "tcp").0 (rw (b, u) at e) in
            inr (same, rw b same))
    ]
  ]

  pub HasTransport-guard :
      (t : String) → HasTransport t → (guard ≡ true) × (transport lib target dns ≡ t)
  HasTransport-guard t h = elim h [
    | inl (inl e, f) ↦ rw (e, f) (refl, refl)
    | inl (inr e, f) ↦ rw (e, f) (refl, refl)
    | inr (e, f) ↦ rw (e, f) (refl, refl)
  ]

  pub at-IsAt : IsAt (host_port lib target dns).0 (host_port lib target dns).1
  at-IsAt = elim (Option-cases (split_host_port target)) [
    | inl e ↦ inr (
      e,
      rw (host_port, e) refl,
      (elim (Bool-cases dns.dns_over_tls) [
        | inl on ↦ inl (on, rw (host_port, e, on) refl)
        | inr off ↦ inr (off, rw (host_port, e, off) refl)
      ]),
    )
    | inr ((host, port), e) ↦ inl (rw (host_port, e) refl)
  ]

  pub IsAt-at : (host port : Bytes) → IsAt host port → host_port lib target dns ≡ (host, port)
  IsAt-at host port h = elim h [
    | inl e ↦ rw (host_port, e) refl
    | inr (e, f, (inl (on, g))) ↦ rw (host_port, e, on, ← f, g) refl
    | inr (e, f, (inr (off, g))) ↦ rw (host_port, e, off, ← f, g) refl
  ]
