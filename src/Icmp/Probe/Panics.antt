-- ===== src/Icmp/Probe/Panics.antt =====
-- A negative payload size, in the configuration and in the probe.
use blackbox_exporter_with_g.Common.{ℕ, String, ◌≡◌, refl, Bool, false, ◌&&◌, Option, some}
use blackbox_exporter_with_g.Common.Int.{negsuc}
use blackbox_exporter_with_g.Common.Net.{Ip}
use blackbox_exporter_with_g.Common.Results.{ok}
use blackbox_exporter_with_g.Common.Text.{Bytes}
use blackbox_exporter_with_g.Common.Trace.{next, result}
use blackbox_exporter_with_g.Config.Types.{IcmpProbe}
use blackbox_exporter_with_g.Config.Defaults.{default_icmp_probe}
use blackbox_exporter_with_g.Config.Unmarshal.{unmarshal_icmp}
use blackbox_exporter_with_g.Config.Unmarshal.Limits.{IsByte, unmarshal_icmp_iff}
use blackbox_exporter_with_g.Metrics.{panicked}
use blackbox_exporter_with_g.Utils.{chosen, choose_protocol, resolved}
use blackbox_exporter_with_g.Icmp.{payload}
use blackbox_exporter_with_g.Icmp.Probe.{Library, Setup, setup, data_of, prepare, probe_icmp}

-- A module with a negative payload size is accepted, whatever the size, if its TTL is a byte and it
-- does not ask for what Windows cannot do; and its probe panics, once the address is found and the
-- socket is set up.
pub unmarshal_icmp-probe_icmp_panics :
    (lib : Library) (os : String) (icmp_id sequence n : ℕ) (target : Bytes) (on_windows : Bool)
    (decode : IcmpProbe → Option IcmpProbe) (c : IcmpProbe) (ip : Ip) (s : Setup)
    → decode default_icmp_probe ≡ some c
    → c.payload_size ≡ negsuc n
    → IsByte c.ttl
    → (on_windows && c.dont_fragment) ≡ false
    → (choose_protocol lib.resolver c.ip_protocol c.ip_protocol_fallback target).0 ≡ chosen ip
    → (setup lib os icmp_id target c ip).exit ≡ next s
    → (unmarshal_icmp on_windows decode ≡ ok c)
      × (result (probe_icmp lib os icmp_id target c sequence) ≡ panicked)
unfolding probe_icmp prepare resolved payload data_of
unmarshal_icmp-probe_icmp_panics lib os icmp_id sequence n target on_windows decode c ip s decoded
      size ttl dont found ready =
    (
      (unmarshal_icmp_iff on_windows decode c).1 (decoded, ttl, dont),
      simp (found, ready, size) refl,
    )
