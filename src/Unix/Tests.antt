-- ===== src/Unix/Tests.antt =====
-- A configuration of TLS that cannot be used.
use blackbox_exporter_with_g.Common.{String, ◌≡◌, ◌↔◌, ◌⊎◌, true, false, Option, none, some, ℕ}
use blackbox_exporter_with_g.Common.Results.{Result, ok}
use blackbox_exporter_with_g.Config.Types.{UnixProbe, TlsConfig}
use blackbox_exporter_with_g.Config.Defaults.{default_unix_probe}
use blackbox_exporter_with_g.Metrics.{Outcome, returned, panicked}
use blackbox_exporter_with_g.Unix.{DialError, probe_unix}
use blackbox_exporter_with_g.Unix.Panics.{Breaks, probe_unix-panicked_iff}

abbrev no_config : TlsConfig → Option ℕ
no_config c = none

abbrev dial : Option ℕ → String → Result DialError ℕ
dial tls target = ok 0

abbrev over_tls : UnixProbe
over_tls = record default_unix_probe { tls = true }

-- A dialogue that ends well with any connection.
abbrev dialogue : ℕ → Outcome
dialogue conn = returned true

probe_unix-panicked_iff_example :
    (probe_unix no_config dial (λ target text. text) dialogue over_tls "/run/a.sock" ≡ panicked) ↔ (
      ((over_tls.tls ≡ true)
        × ((no_config over_tls.tls_config ≡ none)
            ⊎ ((tls : ℕ) × (no_config over_tls.tls_config ≡ some tls)
                × Breaks no_config dial (λ target text. text) dialogue (some tls) "/run/a.sock")))
      ⊎ ((over_tls.tls ≡ false)
          × Breaks no_config dial (λ target text. text) dialogue none "/run/a.sock"))
probe_unix-panicked_iff_example =
    probe_unix-panicked_iff no_config dial (λ target text. text) dialogue over_tls "/run/a.sock"
