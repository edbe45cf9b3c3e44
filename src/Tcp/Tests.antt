-- ===== src/Tcp/Tests.antt =====
-- The TCP probe at concrete inputs.
use blackbox_exporter_with_g.Common.{
  ℕ, ◌≡◌, ◌↔◌, refl, true, false, none, some, List, [], ◌∷◌, ◌++◌,
}
use blackbox_exporter_with_g.Common.Net.{Ip, split_host_port, join_host_port}
use blackbox_exporter_with_g.Common.Text.{Bytes, codes}
use blackbox_exporter_with_g.Common.Trace.{result}
use blackbox_exporter_with_g.Config.Types.{TcpProbe}
use blackbox_exporter_with_g.Config.Defaults.{zero_query_response, default_tcp_probe}
use blackbox_exporter_with_g.Metrics.{returned}
use blackbox_exporter_with_g.Utils.{choose_protocol}
use blackbox_exporter_with_g.Dialogue.{tcp, probe_query_responses}
use blackbox_exporter_with_g.Dialogue.Verdict.{Completed}
use blackbox_exporter_with_g.Tcp.{Net, address_gauges, probe_tcp}
use blackbox_exporter_with_g.Tcp.Verdict.{IsDialled, probe_tcp_iff}
use blackbox_exporter_with_g.Dialogue.Tests.{library}

abbrev host : Ip
host = 10 ∷ 0 ∷ 0 ∷ 1 ∷ []

abbrev net : Net (List Bytes) ℕ
net = record {
  resolver = record {
    lookup_ip = λ f name. some (host ∷ []);
    lookup_ip_addr = λ name. some (host ∷ []);
  };
  parse_ip = λ text. none;
  ip_text = λ ip. codes "10.0.0.1";
  dial = λ d. some (codes "ready" ∷ []);
  dialogue = library;
}

abbrev greeted : TcpProbe
greeted = record default_tcp_probe {
  query_response =
      record zero_query_response { expect_bytes = codes "ready"; send = codes "QUIT" } ∷ [];
}

greeted_succeeds : result (probe_tcp net greeted (codes "host:99") []) ≡ returned true
unfolding probe_tcp choose_protocol split_host_port join_host_port probe_query_responses
greeted_succeeds = refl

no_port_fails : result (probe_tcp net greeted (codes "host") []) ≡ returned false
unfolding probe_tcp split_host_port
no_port_fails = refl

probe_tcp_iff_example : (result (probe_tcp net greeted (codes "host:99") []) ≡ returned true) ↔ (
    (s : List Bytes) × IsDialled net greeted (codes "host:99") s
    × Completed library
        (codes "host:99")
        (tcp greeted)
        (record { state = s; registered = address_gauges ++ [] }))
probe_tcp_iff_example = probe_tcp_iff net greeted (codes "host:99") []
