-- ===== src/Grpc/Verdict.antt =====
-- When the gRPC probe succeeds, and what it dials.
use blackbox_exporter_with_g.Common.{
  ℕ, ◌≡◌, true, false, not, ◌||◌, Option, none, some, if◌then◌else◌, ◌==◌, ℕ_eq,
}
use blackbox_exporter_with_g.Common.Net.{Ip}
use blackbox_exporter_with_g.Common.Text.{Bytes}
use blackbox_exporter_with_g.Config.Types.{TlsConfig, GrpcProbe}
use blackbox_exporter_with_g.Metrics.{returned}
use blackbox_exporter_with_g.Metrics.Exactly.{
  Exactly, next-Exactly, expect-Exactly, same-Exactly, and_then-Exactly,
}
use blackbox_exporter_with_g.Tls.{ConnectionState, Certificate, leaf}
use blackbox_exporter_with_g.Utils.{chosen, choose_protocol}
use blackbox_exporter_with_g.Utils.Rules.{resolved-Exactly}
use blackbox_exporter_with_g.Grpc.{
  Peer, Answer, response, Checked, serving, code_ok, Dial, Library, with_scheme, host_port,
  dial_target, with_server_name, prepare,
}

module _ {Conn : Type 0} (lib : Library Conn) (c : GrpcProbe) where
  -- What is dialled, for a target with a host that has an address.
  pub record IsDialled (target : Bytes) (d : Dial) : Type 0 where
    pub host : Bytes
    pub tls : TlsConfig
    pub ip : Ip
    pub parsed : lib.url_host (with_scheme target) ≡ some host
    pub configured : lib.new_tls_config c.tls_config ≡ some tls
    pub found :
        (choose_protocol lib.resolver c.preferred_ip_protocol c.ip_protocol_fallback
          (host_port host).0).0
        ≡ chosen ip
    pub dialled :
        record {
          target = dial_target c.tls (host_port host);
          tls = if c.tls then some (with_server_name lib c (host_port host).0 tls) else none;
        }
        ≡ d

  pub prepare-Exactly : (target : Bytes) → Exactly (IsDialled target) (prepare lib c target).exit
  unfolding prepare
  prepare-Exactly target =
      same-Exactly _ _ _
        (and_then-Exactly _ _ _ _ _ (expect-Exactly (lib.url_host (with_scheme target))) λ host.
          and_then-Exactly _ _ _ _ _ (expect-Exactly (lib.new_tls_config c.tls_config)) λ tls.
            and_then-Exactly _ _ _ _ _
              (resolved-Exactly
                (choose_protocol lib.resolver c.preferred_ip_protocol c.ip_protocol_fallback
                  (host_port host).0).0)
              λ ip. next-Exactly (record {
                target = dial_target c.tls (host_port host);
                tls = if c.tls then some (with_server_name lib c (host_port host).0 tls) else none;
              }))
        λ d. (
          λ (host, parsed, (tls, configured, (ip, found, dialled))). record {
            host = host;
            tls = tls;
            ip = ip;
            parsed = parsed;
            configured = configured;
            found = found;
            dialled = dialled;
          },
          λ x. (x.host, x.parsed, (x.tls, x.configured, (x.ip, x.found, x.dialled))),
        )

  -- A connection over TLS has a certificate of the other side, and another need not.
  abbrev pub Shown : Option ConnectionState → Type 0
  Shown none = Unit {0}
  Shown (some state) = (cert : Certificate) × (leaf state ≡ some cert)

  abbrev pub PeerShown : Option Peer → Type 0
  PeerShown none = Unit {0}
  PeerShown (some peer) = Shown peer.tls

  -- The server has answered that it serves, over a connection that is reported.
  pub record Serves (answer : Answer) : Type 0 where
    pub peer : Peer
    pub answered : answer ≡ response serving peer
    pub shown : Shown peer.tls

  -- What is left of the verdict where the call has been checked.
  abbrev Passed : Checked → Type 0
  Passed r = PeerShown r.peer × (returned (not (not r.ok || r.error)) ≡ returned true)

  abbrev refusal : ℕ → Checked
  refusal code = record { ok = false; code = code; peer = none; serving_status = ""; error = true }

  abbrev reply : ℕ → Peer → Checked
  reply status peer = record {
    ok = status == serving;
    code = code_ok;
    peer = some peer;
    serving_status = lib.status_name status;
    error = false;
  }
