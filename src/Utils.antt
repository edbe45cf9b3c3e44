-- ===== src/Utils.antt =====
-- prober/utils.go: the choice of an address for a target, and the hash of an address. The resolver
-- is a parameter; what is done to the gauges is the trace of events. The time of a lookup is not
-- modelled: the trace says where it is recorded.
pub mod Choose
pub mod Hash
pub mod Rules
mod Tests
use blackbox_exporter_with_g.Common.{
  ℕ, ◌*◌, ◌%◌, ◌^◌, String, Bool, true, false, ◌||◌, Option, none, some, List, [], ◌∷◌, ◌++◌,
  if◌then◌else◌, ◌==◌, string_eq,
}
use blackbox_exporter_with_g.Common.Net.{Ip, to4, to16}
use blackbox_exporter_with_g.Common.Text.{Bytes}
use blackbox_exporter_with_g.Common.Int.{pos}
use blackbox_exporter_with_g.Common.Trace.{Run, pure, leave}
use blackbox_exporter_with_g.Metrics.{Event, register, set, timed, Outcome, panicked, fail}
use Prim.Native.Nat.{bit_xor}

-- hash/fnv: FNV-1a with 32 bits
abbrev fnv_offset : ℕ
fnv_offset = 2166136261

abbrev fnv_prime : ℕ
fnv_prime = 16777619

unfoldable pub fnv_step : ℕ → ℕ → ℕ
fnv_step h byte = (bit_xor h byte * fnv_prime) % 2 ^ 32

unfoldable pub fnv_from : ℕ → Bytes → ℕ
fnv_from h [] = h
fnv_from h (b ∷ bs) = fnv_from (fnv_step h b) bs

unfoldable pub ip_hash : Ip → ℕ
ip_hash ip = elim (to4 ip) [
  | some v4 ↦ fnv_from fnv_offset v4
  | none ↦ fnv_from fnv_offset (to16 ip)
]

-- The three gauges of `chooseProtocol`.
abbrev pub registered : List Event
registered =
    register "probe_ip_protocol"
    ∷ register "probe_dns_lookup_time_seconds"
    ∷ register "probe_ip_addr_hash"
    ∷ []

abbrev pub ip_protocol : ℕ → Event
ip_protocol n = set "probe_ip_protocol" [] (pos n)

abbrev pub ip_addr_hash : ℕ → Event
ip_addr_hash n = set "probe_ip_addr_hash" [] (pos n)

-- The deferred function records the time of the lookup on every path.
abbrev pub lookup_time : Event
lookup_time = timed "probe_dns_lookup_time_seconds" []

-- An address, or an error; `unset` is a nil address with a nil error.
pub data Choice : Type 0 where
  chosen : Ip → Choice
  failed : Choice
  unset : Choice

pub data Family : Type 0 where
  ip4 ip6 : Family

-- The two lookups of a `net.Resolver`, `none` for an error.
pub record Resolver : Type 0 where
  pub lookup_ip : Family → Bytes → Option (List Ip)
  pub lookup_ip_addr : Bytes → Option (List Ip)

abbrev pub protocol_to_gauge : Family → ℕ
protocol_to_gauge ip4 = 4
protocol_to_gauge ip6 = 6

-- The protocol asked for, and the one to fall back on.
abbrev pub wanted : String → Family
wanted protocol = if protocol == "ip6" || protocol == "" then ip6 else ip4

abbrev pub fallback_protocol : Family → Family
fallback_protocol ip6 = ip4
fallback_protocol ip4 = ip6

-- `ip.To4() != nil`
abbrev pub is_v4 : Ip → Bool
is_v4 ip = elim (to4 ip) [ none ↦ false | some _ ↦ true ]

abbrev pub is_family : Family → Ip → Bool
is_family ip4 ip = is_v4 ip
is_family ip6 ip = if is_v4 ip then false else true

abbrev report : Family → Ip → List Event
report f ip = ip_protocol (protocol_to_gauge f) ∷ ip_addr_hash (ip_hash ip) ∷ lookup_time ∷ []

-- The loop over the addresses: the first of the protocol, or the last one seen of the other.
pub data Scan : Type 0 where
  hit : Ip → Scan
  ended : Option Ip → Scan

pub scan : Family → Option Ip → List Ip → Scan
scan f fallback [] = ended fallback
scan f fallback (ip ∷ ips) =
    let rest = scan f (some ip) ips in if is_family f ip then hit ip else rest

-- `if !fallbackIPProtocol`: only the protocol asked for, and its first address.
only : Family → Option (List Ip) → Choice × List Event
only f (some (ip ∷ ips)) = (chosen ip, report f ip)
only f (some []) = (unset, lookup_time ∷ [])
only f none = (failed, lookup_time ∷ [])

-- After the loop.
settle : Family → Scan → Choice × List Event
settle f (hit ip) = (chosen ip, report f ip)
settle f (ended none) = (failed, lookup_time ∷ [])
settle f (ended (some ip)) = (chosen ip, report (fallback_protocol f) ip)

either : Family → Option (List Ip) → Choice × List Event
unfolding scan settle
either f none = (failed, lookup_time ∷ [])
either f (some ips) = settle f (scan f none ips)

unfoldable pub choose_protocol : Resolver → String → Bool → Bytes → Choice × List Event
unfolding only either
choose_protocol r protocol fallback target =
    let f = wanted protocol in
    let (choice, events) =
      if fallback then either f (r.lookup_ip_addr target) else only f (r.lookup_ip f target) in
    (choice, registered ++ events)

-- What a probe does with the choice: it returns false on an error, and `ip.IP` of a nil address panics.
unfoldable pub resolved : Choice → Run Event Outcome Ip
resolved (chosen ip) = pure ip
resolved failed = fail
resolved unset = leave panicked
