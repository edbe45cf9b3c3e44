-- ===== src/Dialogue.antt =====
-- prober/query_response.go: the dialogue with the other side of a connection, of the TCP and of the
-- Unix probe. The connection with its scanner is a state; what is read from it, written to it and
-- made of it is a parameter, as is the registry's answer to a collector. The deferred closing of the
-- upgraded connections is left out.
pub mod Registry
pub mod Once
pub mod Lines
pub mod Steps
pub mod Verdict
pub mod Tests
use blackbox_exporter_with_g.Common.{
  ℕ, ltb, String, Bool, true, false, not, ◌&&◌, Option, none, some, List, [], ◌∷◌, ◌++◌, map,
  length, if◌then◌else◌, ◌==◌, string_eq,
}
use blackbox_exporter_with_g.Common.Int.{ℤ, pos}
use blackbox_exporter_with_g.Common.Net.{split_host_port}
use blackbox_exporter_with_g.Common.Text.{Bytes, codes, bytes_eq}
use blackbox_exporter_with_g.Common.Trace.{Run, pure, leave, emit, ◌>>=◌, ◌>>◌}
use blackbox_exporter_with_g.Config.Types.{
  TlsConfig, Regexp, Label, QueryResponse, TcpProbe, UnixProbe,
}
use blackbox_exporter_with_g.Metrics.{
  Event, register, set, info, Outcome, returned, panicked, fail, require, expect, present, log,
  ssl_earliest_cert_expiry, ssl_chain_expiry_in_time_stamp, probe_tls_info, ssl_last_chain_info,
}
use blackbox_exporter_with_g.Tls.{
  Certificate, ConnectionState, get_earliest_cert_expiry, get_last_chain_expiry, leaf,
  get_fingerprint, get_subject, get_issuer, get_dns_names, get_serial_number, get_tls_version,
}

-- What the dialogue takes from the connection, which is a state of type `S`, and from other libraries.
pub record Library (S Match : Type 0) : Type 0 where
  -- whether `MustRegister` takes a collector with these labels, after those with these names
  pub accepts : List String → String → List String → Bool
  -- whether `WithLabelValues` takes these values: all are UTF-8
  pub takes_values : List Bytes → Bool
  pub set_deadline : S → Bool
  pub connection_state : S → ConnectionState
  -- the lines that the scanner has still to come, with the state after each, and that after them all
  pub lines : S → List (Bytes × S)
  pub ended : S → S
  pub scan_error : S → Bool
  -- a read into so many bytes
  pub read : ℕ → S → Option (Bytes × S)
  pub write : Bytes → S → Option S
  pub find_submatch_index : Regexp → Bytes → Option Match
  pub expand : Regexp → Bytes → Bytes → Match → Bytes
  pub new_tls_config : TlsConfig → Option TlsConfig
  -- `tls.Client` with its handshake, and a new scanner
  pub handshake : TlsConfig → S → Option S
  pub sha256 : Bytes → Bytes
  -- `Unix()` of a time
  pub unix : ℕ → ℤ

-- The module of the prober that holds the dialogue.
pub data Party : Type 0 where
  tcp : TcpProbe → Party
  unix : UnixProbe → Party

abbrev pub query_responses : Party → List QueryResponse
query_responses (tcp c) = c.query_response
query_responses (unix c) = c.query_response

abbrev pub tls_config : Party → TlsConfig
tls_config (tcp c) = c.tls_config
tls_config (unix c) = c.tls_config

abbrev pub use_tls : Party → Bool
use_tls (tcp c) = c.tls
use_tls (unix c) = c.tls

-- The connection, and the names in the registry.
pub record Session (S : Type 0) : Type 0 where
  pub state : S
  pub registered : List String

-- What the loop over the lines ends with.
pub data Search (S Match : Type 0) : Type 0 where
  found : Bytes → Match → S → Search S Match
  exhausted : S → Search S Match

abbrev pub probe_expect_info : String
probe_expect_info = "probe_expect_info"

abbrev pub failed_due_to_regex : String
failed_due_to_regex = "probe_failed_due_to_regex"

abbrev pub failed_due_to_bytes : String
failed_due_to_bytes = "probe_failed_due_to_bytes"

abbrev pub tls_collectors : List (String × List String)
tls_collectors =
    (ssl_earliest_cert_expiry, [])
    ∷ (probe_tls_info, "version" ∷ [])
    ∷ (ssl_chain_expiry_in_time_stamp, [])
    ∷ (
      ssl_last_chain_info,
      "fingerprint_sha256" ∷ "subject" ∷ "issuer" ∷ "subjectalternative" ∷ "serialnumber" ∷ [],
    )
    ∷ []

module _ {S Match : Type 0} (lib : Library S Match) where
  -- `MustRegister` panics on what the registry does not take.
  pub register_one : String × List String → Session S → Run Event Outcome (Session S)
  register_one c x =
      if lib.accepts x.registered c.0 c.1
      then emit (register c.0 ∷ []) (record x { registered = c.0 ∷ x.registered })
      else leave panicked

  pub must_register : List (String × List String) → Session S → Run Event Outcome (Session S)
  unfolding register_one
  must_register [] x = pure x
  must_register (c ∷ cs) x = register_one c x >>= must_register cs

  -- `WithLabelValues(…).Set(1)` panics on a value that is not UTF-8.
  pub with_label_values : String → List Bytes → Session S → Run Event Outcome (Session S)
  with_label_values name values x =
      if lib.takes_values values then emit (info name values ∷ []) x else leave panicked

  -- The labels of the gauge of a certificate.
  abbrev pub chain_labels : Certificate → List Bytes
  chain_labels cert =
      get_fingerprint lib.sha256 cert
      ∷ codes (get_subject cert)
      ∷ codes (get_issuer cert)
      ∷ get_dns_names cert
      ∷ get_serial_number cert
      ∷ []

  -- The four gauges of a connection over TLS; without a certificate of the other side it panics.
  pub report_tls : Session S → Run Event Outcome (Session S)
  unfolding must_register with_label_values
  report_tls x = do
    y ← must_register tls_collectors x
    let state = lib.connection_state x.state
    log (
        set ssl_earliest_cert_expiry [] (lib.unix (get_earliest_cert_expiry state))
        ∷ set probe_tls_info (get_tls_version state.version ∷ []) (pos 1)
        ∷ set ssl_chain_expiry_in_time_stamp [] (lib.unix (get_last_chain_expiry state))
        ∷ [])
    cert ← present (leaf state)
    with_label_values ssl_last_chain_info (chain_labels cert) y

  -- `for scanner.Scan()`, until a line matches.
  pub search : Regexp → List (Bytes × S) → S → Search S Match
  search re [] last = exhausted last
  search re ((line, s) ∷ rest) last =
      let later = search re rest last in
      elim (lib.find_submatch_index re line) [ none ↦ later | some m ↦ found line m s ]

  -- The values of the labels, expanded from the line that has matched.
  abbrev pub expanded : QueryResponse → Bytes → Match → List Label → List Bytes
  expanded qr line match labels = map (λ l. lib.expand qr.expect l.value line match) labels

  -- `probeExpectInfo`, where there are labels.
  pub expect_info : QueryResponse → Bytes → Match → Session S → Run Event Outcome (Session S)
  unfolding register_one with_label_values
  expect_info qr line match x = elim qr.labels [
    | none ↦ pure x
    | some labels ↦ do
      y ← register_one (probe_expect_info, map (λ l. l.name) labels) x
      with_label_values probe_expect_info (expanded qr line match labels) y
  ]

  -- What is to be sent, after the line that is waited for.
  pub heard : QueryResponse → Session S → Search S Match → Run Event Outcome (Bytes × Session S)
  unfolding expect_info
  heard qr x (exhausted s) = do
    require (not (lib.scan_error s))
    log (set failed_due_to_regex [] (pos 1) ∷ [])
    fail
  heard qr x (found line match s) = do
    require (not (lib.scan_error s))
    log (set failed_due_to_regex [] (pos 0) ∷ [])
    y ← expect_info qr line match (record x { state = s })
    pure (lib.expand qr.expect qr.send line match, y)

  pub expect_line : QueryResponse → Session S → Run Event Outcome (Bytes × Session S)
  unfolding heard search
  expect_line qr x =
      if qr.expect.compiled
      then heard qr x (search qr.expect (lib.lines x.state) (lib.ended x.state))
      else pure (qr.send, x)

  -- `bytes.Equal` of what has been read and what is expected.
  pub compared : QueryResponse → Bytes → Session S → Run Event Outcome (Session S)
  compared qr data_ x =
      if qr.expect_bytes == data_
      then emit (set failed_due_to_bytes [] (pos 0) ∷ []) x
      else (do log (set failed_due_to_bytes [] (pos 1) ∷ []); fail)

  pub expect_bytes : QueryResponse → Session S → Run Event Outcome (Session S)
  unfolding compared
  expect_bytes qr x = if qr.expect_bytes == [] then pure x else (do
    got ← expect (lib.read (length qr.expect_bytes) x.state)
    require (not (ltb (length got.0) (length qr.expect_bytes)))
    compared qr got.0 (record x { state = got.1 }))

  -- A line, with its end.
  pub send_line : Bytes → Session S → Run Event Outcome (Session S)
  send_line send x =
      if send == []
      then pure x
      else (do s ← expect (lib.write (send ++ 10 ∷ []) x.state); pure (record x { state = s }))

  module _ (target : Bytes) (p : Party) where
    -- The host of the target, for a TCP connection without a name of its own.
    abbrev pub named : TlsConfig → TlsConfig
    named c = elim p [
      | unix _ ↦ c
      | tcp _ ↦
          if c.server_name == []
          then record c {
            server_name = elim (split_host_port target) [ none ↦ [] | some (host, port) ↦ host ];
          }
          else c
    ]

    pub start_tls : QueryResponse → Session S → Run Event Outcome (Session S)
    unfolding report_tls
    start_tls qr x =
        if qr.start_tls
        then (do
          c ← expect (lib.new_tls_config (tls_config p))
          s ← expect (lib.handshake (named c) x.state)
          report_tls (record x { state = s }))
        else pure x

    -- One entry of the list, and all of them in order.
    pub entry : QueryResponse → Session S → Run Event Outcome (Session S)
    unfolding expect_line expect_bytes send_line start_tls
    entry qr x = do
      (send, y) ← expect_line qr x
      z ← expect_bytes qr y
      w ← send_line send z
      start_tls qr w

    pub entries : List QueryResponse → Session S → Run Event Outcome (Session S)
    unfolding entry
    entries [] x = pure x
    entries (qr ∷ qrs) x = entry qr x >>= entries qrs

    -- All until the loop.
    pub opening : Session S → Run Event Outcome (Session S)
    unfolding must_register report_tls
    opening x = do
      y ← must_register ((failed_due_to_regex, []) ∷ (failed_due_to_bytes, []) ∷ []) x
      require (lib.set_deadline y.state)
      if use_tls p then report_tls y else pure y

    unfoldable pub probe_query_responses : Session S → Run Event Outcome Outcome
    unfolding opening entries
    probe_query_responses x = do y ← opening x; entries (query_responses p) y; pure (returned true)
