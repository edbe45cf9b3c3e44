-- ===== src/Dns/Probe/Configured.antt =====
-- The probe of a module that the configuration accepts.
use blackbox_exporter_with_g.Common.{
  ◌≡◌, ◌≢◌, inl, inr, Option, none, arith, ◌==◌, string_eq, eq_iff, Bool-cases,
}
use blackbox_exporter_with_g.Common.Results.{ok}
use blackbox_exporter_with_g.Common.Text.{Bytes}
use blackbox_exporter_with_g.Config.Types.{DnsProbe}
use blackbox_exporter_with_g.Config.Unmarshal.{unmarshal_dns}
use blackbox_exporter_with_g.Config.Unmarshal.Limits.{unmarshal_dns_iff}
use blackbox_exporter_with_g.Dns.Probe.{Library, query_class, query_type}

-- A DNS module that the configuration accepts has a class and a type that the probe knows, whatever
-- it is asked for, and a name to ask about.
pub unmarshal_dns-query_class :
    (lib : Library) (target : Bytes) (decode : DnsProbe → Option DnsProbe) (s : DnsProbe)
    → unmarshal_dns lib.string_to_class lib.string_to_type decode ≡ ok s
    → (query_class lib target s ≢ none) × (query_type lib target s ≢ none) × (s.query_name ≢ "")
unmarshal_dns-query_class lib target decode s h =
    let (_, named, class, type) =
      (unmarshal_dns_iff lib.string_to_class lib.string_to_type decode s).0 h in
    (
      elim class [
        | inl e ↦ (λ n. (let hit = (eq_iff s.query_class "").1 e in ground arith))
        | inr e ↦ elim (Bool-cases (s.query_class == "")) [
          | inl b ↦ (λ n. ground arith)
          | inr b ↦ simp b e
        ]
      ],
      elim type [
        | inl e ↦ (λ n. (let hit = (eq_iff s.query_type "").1 e in ground arith))
        | inr e ↦ elim (Bool-cases (s.query_type == "")) [
          | inl b ↦ (λ n. ground arith)
          | inr b ↦ simp b e
        ]
      ],
      named,
    )
