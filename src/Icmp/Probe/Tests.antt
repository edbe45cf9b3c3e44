-- ===== src/Icmp/Probe/Tests.antt =====
-- An exchange over an unprivileged socket on Linux, and the theorems at concrete inputs.
use blackbox_exporter_with_g.Common.{
  ◌^◌, ◌<◌, ◌≡◌, ◌≢◌, ◌↔◌, String, refl, true, false, none, some, List, [], ◌∷◌, arith,
}
use blackbox_exporter_with_g.Common.Int.{negsuc}
use blackbox_exporter_with_g.Common.Net.{Ip}
use blackbox_exporter_with_g.Common.Results.{ok}
use blackbox_exporter_with_g.Common.Text.{Bytes, codes}
use blackbox_exporter_with_g.Common.Trace.{result, next}
use blackbox_exporter_with_g.Config.Types.{IcmpProbe}
use blackbox_exporter_with_g.Config.Defaults.{default_icmp_probe}
use blackbox_exporter_with_g.Config.Unmarshal.{unmarshal_icmp}
use blackbox_exporter_with_g.Metrics.{returned, panicked}
use blackbox_exporter_with_g.Utils.{ip4, choose_protocol, chosen}
use blackbox_exporter_with_g.Icmp.{Message, Received, packet, failure, is_reply, receive}
use blackbox_exporter_with_g.Icmp.Sequence.{after, after-ne}
use blackbox_exporter_with_g.Icmp.Receive.{Echo, bytes_of, Agrees, is_reply_iff}
use blackbox_exporter_with_g.Icmp.Probe.{Library, Setup, setup, probe_icmp, udp4}
use blackbox_exporter_with_g.Icmp.Probe.Panics.{unmarshal_icmp-probe_icmp_panics}

abbrev host : Ip
host = 10 ∷ 0 ∷ 0 ∷ 1 ∷ []

abbrev echo : Message → Echo
echo m = record {
  type = m.type;
  code = 0;
  checksum = (7, 9);
  id = (0, m.id);
  rest = 0 ∷ m.seq ∷ m.data_;
}

-- The reply to the request 5, with an id of the kernel's.
abbrev answer : Bytes
answer = 0 ∷ 0 ∷ 1 ∷ 2 ∷ 3 ∷ 4 ∷ 0 ∷ 5 ∷ codes "Prometheus Blackbox Exporter"

abbrev other : Bytes
other = 0 ∷ 0 ∷ 1 ∷ 2 ∷ 3 ∷ 4 ∷ 0 ∷ 6 ∷ codes "Prometheus Blackbox Exporter"

abbrev arriving : List Received
arriving =
    packet answer "10.0.0.2" none
    ∷ failure
    ∷ packet other "10.0.0.1" none
    ∷ packet answer "10.0.0.1" (some 63)
    ∷ []

abbrev library : Library
library = record {
  resolver = record {
    lookup_ip = λ f name. some (host ∷ []);
    lookup_ip_addr = λ name. some (host ∷ []);
  };
  parse_ip = λ text. none;
  ip_text = λ ip. codes "10.0.0.1";
  dst_text = λ privileged ip. "10.0.0.1";
  listen = λ socket src. true;
  control = λ socket. true;
  marshal = λ m. some (bytes_of (echo m));
  write = λ sent. true;
  set_read_deadline = true;
  received = λ sent. arriving;
}

-- The second packet with the data of the reply is the one from the target.
probe_answered :
    result (probe_icmp library "linux" 77 (codes "h") default_icmp_probe 4) ≡ returned true
unfolding probe_icmp choose_protocol receive
probe_answered = refl

probe_unanswered :
    result (probe_icmp library "linux" 77 (codes "h") default_icmp_probe 9) ≡ returned false
unfolding probe_icmp choose_protocol receive
probe_unanswered = refl

after-ne_example : (after 3 65535 ≢ after 9 65535) × (after 9 65535 < 2 ^ 16)
after-ne_example = after-ne 65535 3 9 (omega arith) (omega arith) (omega arith)

abbrev peer_text : String
peer_text = "10.0.0.1"

abbrev wanted : Echo
wanted = record {
  type = 0;
  code = 0;
  checksum = (0, 0);
  id = (0, 0);
  rest = 0 ∷ 5 ∷ codes "Prometheus Blackbox Exporter";
}

abbrev got : Echo
got = record wanted { checksum = (1, 2); id = (3, 4) }

is_reply_iff_example :
    (is_reply true ip4 peer_text (bytes_of wanted) (bytes_of got) peer_text ≡ true)
    ↔ ((peer_text ≡ peer_text) × Agrees true ip4 wanted got)
is_reply_iff_example =
    is_reply_iff true ip4 peer_text peer_text wanted got
      (record { id = λ e. (refl, refl); checksum = λ e. (refl, refl) })

abbrev negative : IcmpProbe
negative = record default_icmp_probe { payload_size = negsuc 0 }

abbrev ready : Setup
ready = record {
  family = ip4;
  socket = udp4;
  src = 0 ∷ 0 ∷ 0 ∷ 0 ∷ 0 ∷ 0 ∷ 0 ∷ 0 ∷ 0 ∷ 0 ∷ 255 ∷ 255 ∷ 0 ∷ 0 ∷ 0 ∷ 0 ∷ [];
  privileged = false;
  hop_limit_flag_set = true;
}

is_chosen : (choose_protocol library.resolver "" true (codes "h")).0 ≡ chosen host
unfolding choose_protocol
is_chosen = refl

is_ready : (setup library "linux" 77 (codes "h") negative host).exit ≡ next ready
unfolding setup
is_ready = refl

unmarshal_icmp-probe_icmp_panics_example :
    (unmarshal_icmp false (λ s. some negative) ≡ ok negative)
    × (result (probe_icmp library "linux" 77 (codes "h") negative 4) ≡ panicked)
unmarshal_icmp-probe_icmp_panics_example =
    unmarshal_icmp-probe_icmp_panics library "linux" 77 4 0 (codes "h") false (λ s. some negative)
      negative host ready refl refl (omega arith) refl is_chosen is_ready
