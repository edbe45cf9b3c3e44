-- ===== src/Config/Unmarshal/Limits.antt =====
-- What the other validations of the configuration accept, exactly.
use blackbox_exporter_with_g.Common.{
  ℕ, ◌≤◌, String, ◌≡◌, ◌≢◌, ◌↔◌, ◌⊎◌, Bool, true, false, ◌&&◌, Option, none, some, arith, string_eq,
  eq_iff, [],
}
use blackbox_exporter_with_g.Common.Int.{ℤ, pos, negsuc, ltb_ℤ}
use blackbox_exporter_with_g.Common.Results.{ok}
use blackbox_exporter_with_g.Common.Text.{bytes_eq, bytes_beq_iff}
use blackbox_exporter_with_g.Config.Types.{IcmpProbe, DnsProbe, QueryResponse, HeaderMatch}
use blackbox_exporter_with_g.Config.Defaults.{
  default_icmp_probe, default_dns_probe, zero_query_response, zero_header_match,
}
use blackbox_exporter_with_g.Config.Unmarshal.{
  unmarshal_dns, unmarshal_icmp, unmarshal_query_response, unmarshal_header_match,
}

-- A time to live that fits a byte.
abbrev pub IsByte : ℤ → Type 0
IsByte (pos n) = n ≤ 255
IsByte (negsuc n) = ⊥

ttl-IsByte : (ttl : ℤ) → ltb_ℤ ttl (pos 0) ≡ false → ltb_ℤ (pos 255) ttl ≡ false → IsByte ttl
ttl-IsByte (pos n) a b = ground arith
ttl-IsByte (negsuc n) a b = ground arith

IsByte-ttl : (ttl : ℤ) → IsByte ttl → (ltb_ℤ ttl (pos 0) ≡ false) × (ltb_ℤ (pos 255) ttl ≡ false)
IsByte-ttl (pos n) h = ground arith
IsByte-ttl (negsuc n) h = absurd h

-- An ICMP module is accepted exactly if the decoder yields it, its time to live fits a byte, and it
-- does not ask for the don't-fragment flag on windows.
pub unmarshal_icmp_iff :
    (on_windows : Bool) (decode : IcmpProbe → Option IcmpProbe) (s : IcmpProbe)
    → (unmarshal_icmp on_windows decode ≡ ok s) ↔ (
        (decode default_icmp_probe ≡ some s)
        × IsByte s.ttl
        × ((on_windows && s.dont_fragment) ≡ false))
unfolding unmarshal_icmp
unmarshal_icmp_iff on_windows decode s = (
  λ e.
      let same : decode default_icmp_probe ≡ some s = ground arith in
      let checked = rw same at e in
      (
        same,
        ttl-IsByte s.ttl (ground (arith, checked)) (ground (arith, checked)),
        ground (arith, checked),
      ),
  λ h. let (low, high) = IsByte-ttl s.ttl h.1 in let flag = h.2 in rw (h.0, flag, low, high),
)

-- A DNS module is accepted exactly if the decoder yields it, it has a name to ask for, and its
-- class and its type are known or left empty.
pub unmarshal_dns_iff :
    (string_to_class string_to_type : String → Option ℕ) (decode : DnsProbe → Option DnsProbe)
    (s : DnsProbe)
    → (unmarshal_dns string_to_class string_to_type decode ≡ ok s) ↔ (
        (decode default_dns_probe ≡ some s)
        × (s.query_name ≢ "")
        × ((s.query_class ≡ "") ⊎ (string_to_class s.query_class ≢ none))
        × ((s.query_type ≡ "") ⊎ (string_to_type s.query_type ≢ none)))
unfolding unmarshal_dns
unmarshal_dns_iff string_to_class string_to_type decode s = (
  λ e.
      let same : decode default_dns_probe ≡ some s = ground arith in
      let checked = rw same at e in
      (
        same,
        ground (arith, checked, eq_iff s.query_name ""),
        ground (arith, checked, eq_iff s.query_class ""),
        ground (arith, checked, eq_iff s.query_type ""),
      ),
  λ h. rw h.0 (
      ground (
        arith,
        h.1,
        h.2,
        h.3,
        eq_iff s.query_name "",
        eq_iff s.query_class "",
        eq_iff s.query_type "",
      )),
)

-- An entry of a query and response list is accepted exactly if the decoder yields it and it does
-- not both expect a regular expression and bytes.
pub unmarshal_query_response_iff :
    (decode : QueryResponse → Option QueryResponse) (s : QueryResponse)
    → (unmarshal_query_response decode ≡ ok s) ↔ (
        (decode zero_query_response ≡ some s)
        × ((s.expect.compiled ≡ false) ⊎ (s.expect_bytes ≡ [])))
unfolding unmarshal_query_response
unmarshal_query_response_iff decode s = (
  λ e.
      let same : decode zero_query_response ≡ some s = ground arith in
      let checked = rw same at e in
      (same, ground (arith, checked, bytes_beq_iff s.expect_bytes [])),
  λ h. rw h.0 (ground (arith, h.1, bytes_beq_iff s.expect_bytes [])),
)

-- A header match is accepted exactly if the decoder yields it, it names a header, and it has a
-- regular expression that is not empty.
pub unmarshal_header_match_iff :
    (decode : HeaderMatch → Option HeaderMatch) (s : HeaderMatch)
    → (unmarshal_header_match decode ≡ ok s) ↔ (
        (decode zero_header_match ≡ some s)
        × (s.header ≢ "")
        × (s.regexp.compiled ≡ true)
        × (s.regexp.original ≢ ""))
unfolding unmarshal_header_match
unmarshal_header_match_iff decode s = (
  λ e.
      let same : decode zero_header_match ≡ some s = ground arith in
      let checked = rw same at e in
      (
        same,
        ground (arith, checked, eq_iff s.header ""),
        ground (arith, checked),
        ground (arith, checked, eq_iff s.regexp.original ""),
      ),
  λ h. rw h.0 (ground (arith, h.1, h.2, h.3, eq_iff s.header "", eq_iff s.regexp.original "")),
)
