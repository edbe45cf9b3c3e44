-- ===== src/Gost/Dialer.antt =====
-- `newGOSTContext` and `newGOSTTLSDialer` of prober/gost_tls.go, as runs that leave a trace of what is
-- made and closed. The network and the OpenSSL binding are parameters.
pub mod Released
pub mod Verified
mod Tests
use blackbox_exporter_with_g.Common.{
  ℕ, String, Bool, true, false, not, ◌&&◌, ◌||◌, Option, none, some, List, [], ◌∷◌, ◌++◌,
  if◌then◌else◌, ◌==◌,
}
use blackbox_exporter_with_g.Common.Net.{split_host_port}
use blackbox_exporter_with_g.Common.Results.{Result, ok, err}
use blackbox_exporter_with_g.Common.Text.{Bytes, bytes_eq}
use blackbox_exporter_with_g.Common.Trace.{Run, Exit, next, stop, pure, leave, emit, ◌>>=◌, ◌>>◌}
use blackbox_exporter_with_g.Config.Types.{TlsConfig}
use blackbox_exporter_with_g.Gost.Context.{Binding, Context, configured}

-- The socket, the OpenSSL context, and the connection of both, whose closing closes the socket.
pub data Handle : Type 0 where
  raw ssl_ctx ssl_conn : Handle

pub data Act : Type 0 where
  made closed : Handle → Act
  -- `conn.Handshake` and `conn.VerifyHostname`
  handshake : Act
  verify_hostname : Bytes → Act

pub record Library (Certificate Key : Type 0) : Type 0 where
  pub binding : Binding Certificate Key
  pub dial : Bytes → Bool
  -- `goopenssl.Client`
  pub client : Context → Bool
  pub parses_as_ip : Bytes → Bool
  pub set_tls_ext_host_name : Bytes → Bool
  pub shake : Context → Bool
  pub verify : Bytes → Bool

-- An error, after what is still open has been closed.
abbrev pub failing : {A : Type 0} → List Act → Run Act (Unit {0}) A
failing acts = record { exit = stop tt; events = acts }

module _ {Certificate Key : Type 0} (lib : Library Certificate Key) (c : TlsConfig) where
  pub settled : Result (Unit {0}) Context → Run Act (Unit {0}) Context
  settled (ok ctx) = emit (made ssl_ctx ∷ []) ctx
  settled (err e) = failing (made ssl_ctx ∷ closed ssl_ctx ∷ [])

  pub new_gost_context : Run Act (Unit {0}) Context
  unfolding settled
  new_gost_context = if lib.binding.new_ctx then settled (configured lib.binding c) else failing []

  -- A step of the dialer: its acts if it succeeds, and those of its error.
  abbrev pub step : Bool → List Act → List Act → Run Act (Unit {0}) (Unit {0})
  step true acts fails = emit acts tt
  step false acts fails = failing fails

  -- With the socket open.
  pub contexted : Exit (Unit {0}) Context → List Act → Run Act (Unit {0}) Context
  contexted (next ctx) acts = emit acts ctx
  contexted (stop e) acts = failing (acts ++ closed raw ∷ [])

  -- The name to verify: that of the configuration, or the host of the address.
  abbrev pub server_name : Bytes → Bytes
  server_name address =
      if c.server_name == []
      then elim (split_host_port address) [ none ↦ [] | some (host, port) ↦ host ]
      else c.server_name

  -- No name is to be sent, or it has been set.
  abbrev pub name_sent : Bytes → Bool
  name_sent address =
      server_name address == []
      || lib.parses_as_ip (server_name address)
      || lib.set_tls_ext_host_name (server_name address)

  -- Whether the name is asked of the peer.
  abbrev pub verifies : Bytes → Bool
  verifies address = not c.insecure_skip_verify && not (server_name address == [])

  pub shaken : Bytes → Context → Run Act (Unit {0}) (Unit {0})
  shaken address ctx =
      if lib.shake ctx
      then if verifies address
        then step (lib.verify (server_name address))
            (handshake ∷ verify_hostname (server_name address) ∷ [])
            (handshake
              ∷ verify_hostname (server_name address)
              ∷ closed ssl_conn
              ∷ closed ssl_ctx
              ∷ [])
        else emit (handshake ∷ []) tt
      else failing (handshake ∷ closed ssl_conn ∷ closed ssl_ctx ∷ [])

  pub gost_dial : Bytes → Run Act (Unit {0}) Context
  unfolding contexted new_gost_context shaken
  gost_dial address = do
    step (lib.dial address) (made raw ∷ []) []
    ctx ← contexted new_gost_context.exit new_gost_context.events
    step (lib.client ctx) (made ssl_conn ∷ []) (closed ssl_ctx ∷ closed raw ∷ [])
    step (name_sent address) [] (closed ssl_conn ∷ closed ssl_ctx ∷ [])
    shaken address ctx
    pure ctx
