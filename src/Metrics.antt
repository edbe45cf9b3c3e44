-- ===== src/Metrics.antt =====
-- prober/prober.go and the probes' use of their registry. The registry and the gauges belong to
-- another library: what a probe does to them is its trace of events, in order.
pub mod Rules
pub mod Exactly
use blackbox_exporter_with_g.Common.{String, Bool, true, false, Option, none, some, List}
use blackbox_exporter_with_g.Common.Trace.{Run, pure, leave, emit}
use blackbox_exporter_with_g.Common.Int.{ℤ}
use blackbox_exporter_with_g.Common.Text.{Bytes}

pub data Event : Type 0 where
  -- `registry.MustRegister` of the collector with this name
  register : String → Event
  -- a gauge, with the values of its labels, is set
  set : String → List String → ℤ → Event
  -- a gauge, with the values of its labels, is set to 1, where these are texts of the target's
  info : String → List Bytes → Event
  -- a measured duration is set or added under a label, or under none
  timed : String → List String → Event

-- The gauges whose options prober/prober.go declares.
abbrev pub ssl_earliest_cert_expiry : String
ssl_earliest_cert_expiry = "probe_ssl_earliest_cert_expiry"

abbrev pub ssl_chain_expiry_in_time_stamp : String
ssl_chain_expiry_in_time_stamp = "probe_ssl_last_chain_expiry_timestamp_seconds"

abbrev pub probe_tls_info : String
probe_tls_info = "probe_tls_version_info"

abbrev pub probe_tls_cipher : String
probe_tls_cipher = "probe_tls_cipher_info"

-- Declared with the same options by each of the probes that reports a certificate.
abbrev pub ssl_last_chain_info : String
ssl_last_chain_info = "probe_ssl_last_chain_info"

-- How a probe ends: with its verdict, or by a nil pointer that is followed.
pub data Outcome : Type 0 where
  returned : Bool → Outcome
  panicked : Outcome

-- `return false`
abbrev pub fail : {A : Type 0} → Run Event Outcome A
fail = leave (returned false)

-- `if !b { return false }`
abbrev pub require : Bool → Run Event Outcome (Unit {0})
require true = pure tt
require false = fail

-- `v, ok := …; if !ok { return false }`
abbrev pub expect : {A : Type 0} → Option A → Run Event Outcome A
expect none = fail
expect (some a) = pure a

-- What panics where there is none: a first element, a pointer.
abbrev pub present : {A : Type 0} → Option A → Run Event Outcome A
present none = leave panicked
present (some a) = pure a

abbrev pub log : List Event → Run Event Outcome (Unit {0})
log events = emit events tt
