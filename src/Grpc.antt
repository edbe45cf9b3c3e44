-- ===== src/Grpc.antt =====
-- prober/grpc.go: the health check and its probe. The client of google.golang.org/grpc and what the
-- server answers are parameters; the names of the serving statuses are those of its protocol. The
-- address that `targetURL.Host` gets is never read, and is left out.
pub mod Verdict
pub mod Target
pub mod Serving
mod Tests
use blackbox_exporter_with_g.Common.{
  ℕ, String, Bool, true, false, not, ◌&&◌, ◌||◌, Option, none, some, List, [], ◌∷◌, ◌++◌, map,
  if◌then◌else◌, ◌==◌, ℕ_eq, string_eq,
}
use blackbox_exporter_with_g.Common.Int.{ℤ, pos}
use blackbox_exporter_with_g.Common.Net.{Ip, split_host_port}
use blackbox_exporter_with_g.Common.Text.{Bytes, codes, bytes_eq, has_prefix}
use blackbox_exporter_with_g.Common.Trace.{Run, pure, leave, emit, ◌>>=◌, ◌>>◌}
use blackbox_exporter_with_g.Config.Types.{TlsConfig, GrpcProbe}
use blackbox_exporter_with_g.Metrics.{
  Event, register, set, info, timed, Outcome, returned, panicked, expect, present, log,
  ssl_earliest_cert_expiry, probe_tls_info, ssl_last_chain_info,
}
use blackbox_exporter_with_g.Tls.{
  ConnectionState, get_earliest_cert_expiry, leaf, get_fingerprint, get_subject, get_issuer,
  get_dns_names, get_serial_number, get_tls_version,
}
use blackbox_exporter_with_g.Utils.{Resolver, choose_protocol, resolved}

abbrev pub Metadata : Type 0
Metadata = List (String × List String)

-- `peer.Peer`: the state of its connection, if that is one over TLS.
pub record Peer : Type 0 where
  pub tls : Option ConnectionState

-- What the call of the health service yields: a response with its status, an error with its code, or
-- a panic, as with a nil connection.
pub data Answer : Type 0 where
  response : ℕ → Peer → Answer
  refused : ℕ → Answer
  broken : Answer

-- What `Check` returns, `error` for an error that is not nil.
pub record Checked : Type 0 where
  pub ok : Bool
  pub code : ℕ
  pub peer : Option Peer
  pub serving_status : String
  pub error : Bool

-- `HealthCheckResponse_SERVING` and `codes.OK`
abbrev pub serving : ℕ
serving = 1

abbrev pub code_ok : ℕ
code_ok = 0

-- What `grpc.NewClient` gets; no configuration stands for the insecure credentials.
pub record Dial : Type 0 where
  pub target : Bytes
  pub tls : Option TlsConfig

pub record Library (Conn : Type 0) : Type 0 where
  pub resolver : Resolver
  -- the host of a URL, `none` where it does not parse
  pub url_host : Bytes → Option Bytes
  pub new_tls_config : TlsConfig → Option TlsConfig
  -- `none` for an error, whose connection is nil
  pub new_client : Dial → Option Conn
  pub call : Option Conn → String → Metadata → Answer
  -- `String` of a serving status, and the names of them all
  pub status_name : ℕ → String
  pub status_names : List String
  pub sha256 : Bytes → Bytes
  pub unix : ℕ → ℤ

abbrev pub healthcheck_response : String
healthcheck_response = "probe_grpc_healthcheck_response"

abbrev pub with_scheme : Bytes → Bytes
with_scheme target =
    if not (has_prefix target (codes "http://")) && not (has_prefix target (codes "https://"))
    then codes "http://" ++ target
    else target

-- The host and the port of the URL's host, without a port if that cannot be split.
abbrev pub host_port : Bytes → Bytes × Bytes
host_port host = elim (split_host_port host) [
  | some (target_host, target_port) ↦ (target_host, target_port)
  | none ↦ (host, [])
]

-- What is dialled, of the host and the port.
abbrev pub dial_target : Bool → Bytes × Bytes → Bytes
dial_target tls (host, port) =
    if port == [] then host ++ (if tls then codes ":443" else codes ":80") else host ++ b':' ∷ port

module _ {Conn : Type 0} (lib : Library Conn) (c : GrpcProbe) where
  -- `gRPCHealthCheckClient.Check`
  pub check : Answer → Option Checked
  check broken = none
  check (refused code) =
      some (record { ok = false; code = code; peer = none; serving_status = ""; error = true })
  check (response status peer) = some (record {
    ok = status == serving;
    code = code_ok;
    peer = some peer;
    serving_status = lib.status_name status;
    error = false;
  })

  abbrev pub with_server_name : Bytes → TlsConfig → TlsConfig
  with_server_name host tls =
      if tls.server_name == [] then record tls { server_name = host } else tls

  -- All until the client is made.
  pub prepare : Bytes → Run Event Outcome Dial
  unfolding resolved
  prepare target = do
    log (
        register "probe_grpc_duration_seconds"
        ∷ register "probe_grpc_ssl"
        ∷ register "probe_grpc_status_code"
        ∷ register healthcheck_response
        ∷ [])
    host ← expect (lib.url_host (with_scheme target))
    let hp = host_port host
    tls ← expect (lib.new_tls_config c.tls_config)
    let choice = choose_protocol lib.resolver c.preferred_ip_protocol c.ip_protocol_fallback hp.0
    log choice.1
    ip ← resolved choice.0
    log (timed "probe_grpc_duration_seconds" ("resolve" ∷ []) ∷ [])
    pure (record {
      target = dial_target c.tls hp;
      tls = if c.tls then some (with_server_name hp.0 tls) else none;
    })

  -- The gauge of the serving statuses: all are set to 0, and that of the answer to 1.
  abbrev pub statuses : String → List Event
  statuses status =
      map (λ name. set healthcheck_response (name ∷ []) (pos 0)) lib.status_names
      ++ (if status == "" then [] else set healthcheck_response (status ∷ []) (pos 1) ∷ [])

  pub report_peer : Option Peer → Run Event Outcome (Unit {0})
  report_peer none = pure tt
  report_peer (some peer) = elim peer.tls [
    | none ↦ log (set "probe_grpc_ssl" [] (pos 0) ∷ [])
    | some state ↦ do
      log (
          register ssl_earliest_cert_expiry
          ∷ register probe_tls_info
          ∷ register ssl_last_chain_info
          ∷ set "probe_grpc_ssl" [] (pos 1)
          ∷ set ssl_earliest_cert_expiry [] (lib.unix (get_earliest_cert_expiry state))
          ∷ set probe_tls_info (get_tls_version state.version ∷ []) (pos 1)
          ∷ [])
      cert ← present (leaf state)
      log (
          info ssl_last_chain_info (
            get_fingerprint lib.sha256 cert
            ∷ codes (get_subject cert)
            ∷ codes (get_issuer cert)
            ∷ get_dns_names cert
            ∷ get_serial_number cert
            ∷ [])
          ∷ [])
  ]

  -- All after the call.
  pub judge : Checked → Run Event Outcome Outcome
  unfolding report_peer
  judge r = do
    log (timed "probe_grpc_duration_seconds" ("check" ∷ []) ∷ [])
    log (statuses r.serving_status)
    report_peer r.peer
    log (set "probe_grpc_status_code" [] (pos r.code) ∷ [])
    pure (returned (not (not r.ok || r.error)))

  -- An error of `grpc.NewClient` is only logged. The call has no deadline.
  unfoldable pub probe_grpc : Bytes → Run Event Outcome Outcome
  unfolding prepare check judge
  probe_grpc target = do
    d ← prepare target
    r ← present (check (lib.call (lib.new_client d) c.service c.metadata))
    judge r
