-- ===== src/Dialogue/Tests.antt =====
-- A dialogue like that of a mail server, and the theorems at concrete inputs.
use blackbox_exporter_with_g.Common.{
  ℕ, ◌+◌, ◌<◌, ◌≤◌, String, ◌≡◌, ◌↔◌, refl, Bool, true, false, not, ltb, Option, none, some, List,
  [], ◌∷◌, arith, if◌then◌else◌, ◌==◌,
}
use blackbox_exporter_with_g.Common.Int.{pos}
use blackbox_exporter_with_g.Common.Text.{Bytes, codes, bytes_eq}
use blackbox_exporter_with_g.Common.Trace.{result}
use blackbox_exporter_with_g.Config.Types.{QueryResponse, TcpProbe}
use blackbox_exporter_with_g.Config.Defaults.{zero_query_response, default_tcp_probe}
use blackbox_exporter_with_g.Metrics.{returned, panicked}
use blackbox_exporter_with_g.Tls.{Certificate}
use blackbox_exporter_with_g.Dialogue.{
  Library, Party, tcp, use_tls, query_responses, Session, probe_query_responses,
}
use blackbox_exporter_with_g.Dialogue.Registry.{count}
use blackbox_exporter_with_g.Dialogue.Once.{upgrades, infos, probe_query_responses-once}
use blackbox_exporter_with_g.Dialogue.Verdict.{Completed, probe_query_responses_iff}

abbrev certificate : Certificate
certificate = record {
  not_after = 9;
  raw = [];
  subject = "CN=mail";
  issuer = "CN=ca";
  dns_names = [];
  serial_number = 1 ∷ [];
}

-- The state is the lines that are still to come.
abbrev remaining : List Bytes → List (Bytes × List Bytes)
remaining [] = []
remaining (line ∷ rest) = (line, rest) ∷ remaining rest

abbrev taken : List Bytes → Option (Bytes × List Bytes)
taken [] = none
taken (line ∷ rest) = some (line, rest)

abbrev pub library : Library (List Bytes) ℕ
library = record {
  accepts = λ before name labels. not (ltb 0 (count name before));
  takes_values = λ values. true;
  set_deadline = λ s. true;
  connection_state = λ s. record {
    version = 0x0304;
    cipher_suite = 0;
    negotiated_protocol = "";
    peer_certificates = certificate ∷ [];
    verified_chains = [];
  };
  lines = remaining;
  ended = λ s. [];
  scan_error = λ s. false;
  read = λ n s. taken s;
  write = λ line s. some s;
  find_submatch_index = λ re line. if codes re.original == line then some 0 else none;
  expand = λ re template line m. template;
  new_tls_config = λ c. some c;
  handshake = λ c s. some s;
  sha256 = λ bs. bs;
  unix = λ t. pos t;
}

library-refuses :
    (before : List String) (name : String) (labels : List String)
    → 0 < count name before
    → library.accepts before name labels ≡ false
library-refuses before name labels h = ground arith

abbrev await : String → String → Bool → QueryResponse
await line send start_tls = record zero_query_response {
  expect = record { compiled = true; original = line };
  send = codes send;
  start_tls = start_tls;
}

abbrev mail : QueryResponse → TcpProbe
mail last = record default_tcp_probe {
  query_response =
      await "220 mail" "EHLO probe" false ∷ await "250 STARTTLS" "STARTTLS" true ∷ last ∷ [];
}

abbrev start : Session (List Bytes)
start = record {
  state =
      codes "220 mail"
      ∷ codes "250 SIZE"
      ∷ codes "250 STARTTLS"
      ∷ codes "220 go"
      ∷ codes "250 STARTTLS"
      ∷ [];
  registered = "probe_success" ∷ [];
}

abbrev once : Party
once = tcp (mail (await "220 go" "" false))

-- TLS is started for a second time.
abbrev twice : Party
twice = tcp (mail (await "250 STARTTLS" "" true))

once_succeeds : result (probe_query_responses library (codes "mail:25") once start) ≡ returned true
unfolding probe_query_responses
once_succeeds = refl

twice_panics : result (probe_query_responses library (codes "mail:25") twice start) ≡ panicked
unfolding probe_query_responses
twice_panics = refl

start-Single : (name : String) → count name start.registered ≤ 1
start-Single name = ground arith

probe_query_responses-once_example :
    ((if use_tls once then 1 else 0) + upgrades (query_responses once) ≤ 1)
    × (infos (query_responses once) ≤ 1)
probe_query_responses-once_example =
    probe_query_responses-once library library-refuses (codes "mail:25") once start start-Single
      once_succeeds

probe_query_responses_iff_example :
    (result (probe_query_responses library (codes "mail:25") once start) ≡ returned true)
    ↔ Completed library (codes "mail:25") once start
probe_query_responses_iff_example = probe_query_responses_iff library (codes "mail:25") once start
