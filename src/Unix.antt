-- ===== src/Unix.antt =====
-- prober/unix.go: the probe of a Unix socket. The dialer, the making of TLS configurations, and what
-- is done with a connection are parameters.
pub mod Panics
mod Tests
use blackbox_exporter_with_g.Common.{String, Bool, true, false, Option, none, some, if◌then◌else◌}
use blackbox_exporter_with_g.Common.Results.{Result, ok, err}
use blackbox_exporter_with_g.Config.Types.{UnixProbe, TlsConfig}
use blackbox_exporter_with_g.Metrics.{Outcome, returned, panicked}

-- An error of the dialer; `permission` is whether it is one of `EACCES` and `EPERM`.
pub record DialError : Type 0 where
  pub text : String
  pub permission : Bool

-- What `dialUnix` returns: a connection, which may be nil, and an error, which may be nil.
pub record Dialed (Conn : Type 0) : Type 0 where
  pub conn : Option Conn
  pub error : Option DialError

module _ {Conn Tls : Type 0} (new_tls_config : TlsConfig → Option Tls)
    (dial : Option Tls → String → Result DialError Conn)
    (permission_denied : String → String → String) where
  -- The end of `dialUnix`, with a text of its own if the permission is denied.
  pub explained : String → Result DialError Conn → Dialed Conn
  explained target (ok conn) = record { conn = some conn; error = none }
  explained target (err e) = record {
    conn = none;
    error = some (if e.permission then record e { text = permission_denied target e.text } else e);
  }

  -- With TLS; the configuration's error is `tlsErr`, and what is returned is the `err` of before.
  pub dialed_tls : String → Option Tls → Dialed Conn
  unfolding explained
  dialed_tls target none = record { conn = none; error = none }
  dialed_tls target (some tls) = explained target (dial (some tls) target)

  unfoldable pub dial_unix : UnixProbe → String → Dialed Conn
  unfolding explained dialed_tls
  dial_unix c target =
      if c.tls
      then dialed_tls target (new_tls_config c.tls_config)
      else explained target (dial none target)

  -- `ProbeUnix`: `conn.Close()` is deferred, and panics on a nil connection.
  module _ (probe_query_responses : Conn → Outcome) where
    pub probed : Dialed Conn → Outcome
    probed d = elim d.error [
      | some e ↦ returned false
      | none ↦ elim d.conn [ none ↦ panicked | some conn ↦ probe_query_responses conn ]
    ]

    unfoldable pub probe_unix : UnixProbe → String → Outcome
    unfolding probed
    probe_unix c target = probed (dial_unix c target)
