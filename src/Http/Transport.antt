-- ===== src/Http/Transport.antt =====
-- `transport`: the traces of the round trips, and which transport each of them takes. The callbacks
-- of a trace change the current one, the last of the list. A time is `none` where it is zero.
pub mod Names
mod Tests
use blackbox_exporter_with_g.Common.{
  ℕ, suc, String, Bool, true, false, not, ◌&&◌, Option, none, some, List, [], ◌∷◌, ◌++◌,
  if◌then◌else◌, ◌==◌, string_eq,
}
use blackbox_exporter_with_g.Common.Text.{Bytes, bytes_eq}
use blackbox_exporter_with_g.Metrics.{Event, timed}

pub record RoundTripTrace : Type 0 where
  pub tls : Bool
  pub start : Option ℕ
  pub dns_done : Option ℕ
  pub connect_done : Option ℕ
  pub got_conn : Option ℕ
  pub response_start : Option ℕ
  pub end : Option ℕ
  pub tls_start : Option ℕ
  pub tls_done : Option ℕ

abbrev pub new_trace : Bool → RoundTripTrace
new_trace tls = record {
  tls = tls;
  start = none;
  dns_done = none;
  connect_done = none;
  got_conn = none;
  response_start = none;
  end = none;
  tls_start = none;
  tls_done = none;
}

-- The traces before the current one, and the current one.
pub record Transport : Type 0 where
  pub has_no_server_name : Bool
  pub first_host : Bytes
  pub past : List RoundTripTrace
  pub current : Option RoundTripTrace

abbrev pub new_transport : Bool → Transport
new_transport has_no_server_name = record {
  has_no_server_name = has_no_server_name;
  first_host = [];
  past = [];
  current = none;
}

-- The transport that `RoundTrip` hands the request to.
pub data Via : Type 0 where
  with_name without_name : Via

pub traces : Transport → List RoundTripTrace
traces t = elim t.current [ none ↦ t.past | some trace ↦ t.past ++ trace ∷ [] ]

-- `RoundTrip`, for a request to a URL with this scheme and host
unfoldable pub round_trip : String → Bytes → Transport → Transport × Via
unfolding traces
round_trip scheme host t =
    let first = if t.first_host == [] then host else t.first_host in
    (
      record t {
        first_host = first;
        past = traces t;
        current = some (new_trace (scheme == "https"));
      },
      if not (first == host) && t.has_no_server_name then without_name else with_name,
    )

-- The callbacks, at a time.
pub data Callback : Type 0 where
  dns_start dns_done connect_start connect_done got_conn got_first_response_byte tls_handshake_start
        tls_handshake_done :
      Callback

pub called : Callback → ℕ → RoundTripTrace → RoundTripTrace
called dns_start now t = record t { start = some now }
called dns_done now t = record t { dns_done = some now }
called connect_start now t = elim t.dns_done [
  | none ↦ record t { start = some now; dns_done = some now }
  | some d ↦ t
]
called connect_done now t = record t { connect_done = some now }
called got_conn now t = record t { got_conn = some now }
called got_first_response_byte now t = record t { response_start = some now }
called tls_handshake_start now t = record t { tls_start = some now }
called tls_handshake_done now t = record t { tls_done = some now }

unfoldable pub call : Callback → ℕ → Transport → Transport
unfolding called
call c now t = record t {
  current = elim t.current [ none ↦ none | some trace ↦ some (called c now trace) ];
}

-- The loop over the traces at the end of the probe: the phases that are added to, of a trace.
abbrev phase : String → Event
phase p = timed "probe_http_duration_seconds" (p ∷ [])

pub after_end : Option ℕ → List Event
after_end none = []
after_end (some t) = phase "transfer" ∷ []

pub after_response : RoundTripTrace → Option ℕ → List Event
unfolding after_end
after_response t none = []
after_response t (some r) = phase "processing" ∷ after_end t.end

pub after_connection : RoundTripTrace → Option ℕ → List Event
unfolding after_response
after_connection t none = []
after_connection t (some g) =
    (if t.tls then phase "connect" ∷ phase "tls" ∷ [] else phase "connect" ∷ [])
    ++ after_response t t.response_start

pub durations_of : Bool → List RoundTripTrace → List Event
unfolding after_connection
durations_of first [] = []
durations_of first (t ∷ ts) =
    (if first then [] else phase "resolve" ∷ [])
    ++ after_connection t t.got_conn
    ++ durations_of false ts

unfoldable pub durations : Transport → List Event
unfolding durations_of traces
durations t = durations_of true (traces t)
