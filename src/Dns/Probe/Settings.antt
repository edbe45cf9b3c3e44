-- ===== src/Dns/Probe/Settings.antt =====
-- TLS, the source address and the network of a query: as the probe sets them, and as they are asked
-- for.
use Prim.Native.String
use blackbox_exporter_with_g.Common.{
  String, ◌≡◌, ◌≢◌, ◌↔◌, ◌⊎◌, refl, Bool, true, false, not, ◌||◌, Option, none, some, [], inl, inr,
  Bool-cases, if◌then◌else◌, ◌==◌, string_eq, eq_iff,
}
use blackbox_exporter_with_g.Common.Net.{Ip}
use blackbox_exporter_with_g.Common.Text.{Bytes, bytes_eq, bytes_beq_iff}
use blackbox_exporter_with_g.Config.Types.{TlsConfig, DnsProbe}
use blackbox_exporter_with_g.Utils.{is_v4}
use blackbox_exporter_with_g.Dns.Probe.{
  Library, LocalAddr, tcp_addr, udp_addr, transport, host_port, net_of, with_server_name,
}
use blackbox_exporter_with_g.Dns.Probe.Asked.{network, HasTransport, HasTls, HasSource}

name-network :
    (dot : Bool) (t : String) (v4 : Bool)
    → (t ≡ "udp") ⊎ (t ≡ "tcp")
    → (not dot || t == "tcp") ≡ true
    → network dot t v4 ≡ (
        if dot
        then String.◌++◌ (String.◌++◌ t (if v4 then "4" else "6")) "-tls"
        else String.◌++◌ t (if v4 then "4" else "6"))
name-network true t true h g = rw ((eq_iff t "tcp").0 g) refl
name-network true t false h g = rw ((eq_iff t "tcp").0 g) refl
name-network false t true (inl e) g = rw e refl
name-network false t true (inr e) g = rw e refl
name-network false t false (inl e) g = rw e refl
name-network false t false (inr e) g = rw e refl

module _ (lib : Library) (target : Bytes) (dns : DnsProbe) where
  abbrev pub SetTls : Option TlsConfig → Type 0
  SetTls tls =
      ((dns.dns_over_tls ≡ true)
        × ((c : TlsConfig) × (lib.new_tls_config dns.tls_config ≡ some c)
            × (some (with_server_name lib target dns c) ≡ tls)))
      ⊎ ((dns.dns_over_tls ≡ false) × (none ≡ tls))

  abbrev pub SetSource : Option LocalAddr → Type 0
  SetSource source =
      ((dns.source_ip_address ≡ "") × (none ≡ source))
      ⊎ ((dns.source_ip_address ≢ "")
          × ((ip : Ip) × (lib.parse_ip dns.source_ip_address ≡ some ip)
              × (some (if transport lib target dns == "tcp" then tcp_addr ip else udp_addr ip)
                  ≡ source)))

  abbrev t : String
  t = transport lib target dns

  abbrev hp : Bytes × Bytes
  hp = host_port lib target dns

  pub network-net_of :
      (ip : Ip)
      → HasTransport lib target dns t
      → (not dns.dns_over_tls || t == "tcp") ≡ true
      → network dns.dns_over_tls t (is_v4 ip) ≡ net_of lib target dns ip
  network-net_of ip h g =
      name-network dns.dns_over_tls t (is_v4 ip)
        (elim h [ inl (_, e) ↦ inl e | inr (_, e) ↦ inr e ]) g

  pub SetTls-HasTls :
      (tls : Option TlsConfig)
      → (not dns.dns_over_tls || t == "tcp") ≡ true
      → SetTls tls
      → HasTls lib target dns hp.0 t tls
  SetTls-HasTls tls g h = elim h [
    | inl (on, (c, made, e)) ↦ inl (
      on,
      (eq_iff t "tcp").0 (rw on at g),
      (
        c,
        made,
        (elim (Bool-cases (c.server_name == [])) [
          | inl b ↦ inl ((bytes_beq_iff c.server_name []).0 b, rw b at e)
          | inr b ↦ inr ((λ n. (let m = (bytes_beq_iff c.server_name []).1 n in cc)), rw b at e)
        ]),
      ),
    )
    | inr off ↦ inr off
  ]

  pub HasTls-SetTls :
      (tls : Option TlsConfig)
      → HasTls lib target dns hp.0 t tls
      → ((not dns.dns_over_tls || t == "tcp") ≡ true) × SetTls tls
  HasTls-SetTls tls h = elim h [
    | inl (on, over, (c, made, e)) ↦ (
      rw on ((eq_iff t "tcp").1 over),
      inl (
        on,
        (
          c,
          made,
          (elim e [
            | inl (n, f) ↦ (let b = (bytes_beq_iff c.server_name []).1 n in rw b f)
            | inr (n, f) ↦ elim (Bool-cases (c.server_name == [])) [
              | inl b ↦ absurd (n ((bytes_beq_iff c.server_name []).0 b))
              | inr b ↦ rw b f
            ]
          ]),
        ),
      ),
    )
    | inr (off, e) ↦ (rw off refl, inr (off, e))
  ]

  pub source_iff :
      (source : Option LocalAddr) → SetSource source ↔ HasSource lib target dns t source
  source_iff source = (
    λ h. (elim h [
      | inl unset ↦ inl unset
      | inr (set, (ip, parsed, e)) ↦ inr (
        set,
        (
          ip,
          parsed,
          (elim (Bool-cases (t == "tcp")) [
            | inl b ↦ inl ((eq_iff t "tcp").0 b, rw b at e)
            | inr b ↦ inr ((λ n. (let m = (eq_iff t "tcp").1 n in cc)), rw b at e)
          ]),
        ),
      )
    ]),
    λ h. (elim h [
      | inl unset ↦ inl unset
      | inr (set, (ip, parsed, e)) ↦ inr (
        set,
        (
          ip,
          parsed,
          (elim e [
            | inl (n, f) ↦ (let b = (eq_iff t "tcp").1 n in rw b f)
            | inr (n, f) ↦ elim (Bool-cases (t == "tcp")) [
              | inl b ↦ absurd (n ((eq_iff t "tcp").0 b))
              | inr b ↦ rw b f
            ]
          ]),
        ),
      )
    ]),
  )
