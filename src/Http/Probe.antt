-- ===== src/Http/Probe.antt =====
-- `ProbeHTTP` of prober/http.go as a whole: the request that is made of the stages before it, the
-- clients, and what is reported after the response. The clients' making and the round trips are
-- parameters. The gauge of the HTTP version, a floating-point number, and that of the length that has
-- been read are left out.
pub mod Verdict
mod Tests
use blackbox_exporter_with_g.Common.{
  ℕ, String, Bool, true, false, not, ltb, Option, none, some, List, [], ◌∷◌, ◌++◌, if◌then◌else◌,
  ◌==◌, string_eq,
}
use blackbox_exporter_with_g.Common.Int.{ℤ, pos}
use blackbox_exporter_with_g.Common.Results.{Result, ok, err}
use blackbox_exporter_with_g.Common.Text.{Bytes, codes}
use blackbox_exporter_with_g.Common.Net.{Ip}
use blackbox_exporter_with_g.Common.Trace.{Run, pure, leave, emit, ◌>>=◌, ◌>>◌}
use blackbox_exporter_with_g.Config.Types.{
  Regexp, CelProgram, TlsConfig, HttpClientConfig, HttpProbe,
}
use blackbox_exporter_with_g.Metrics.{
  Event, register, set, info, timed, Outcome, returned, fail, require, expect, log,
  ssl_earliest_cert_expiry, ssl_chain_expiry_in_time_stamp, probe_tls_info, probe_tls_cipher,
  ssl_last_chain_info,
}
use blackbox_exporter_with_g.Tls.{
  ConnectionState, get_earliest_cert_expiry, get_last_chain_expiry, leaf, get_fingerprint,
  get_subject, get_issuer, get_dns_names, get_serial_number, get_tls_version, get_tls_cipher,
  version_tls13,
}
use blackbox_exporter_with_g.Utils.{Choice, chosen, failed, unset, Resolver, choose_protocol}
use blackbox_exporter_with_g.Gost.{wrap_gost_fallback}
use blackbox_exporter_with_g.Http.Match.{Reader}
use blackbox_exporter_with_g.Http.Request.{
  target_of, should_resolve_dns_with_proxy, server_name, url_host, request_headers, request_host,
}
use blackbox_exporter_with_g.Http.Response.{Decompressor, Response, judge_response, judge_tls}
use blackbox_exporter_with_g.Http.Transport.{Transport, durations}

pub record Url : Type 0 where
  pub hostname : Bytes
  pub port : Bytes
  pub host : Bytes
  pub rest : Bytes

pub data Body : Type 0 where
  no_body : Body
  text file : String → Body

pub record Request : Type 0 where
  pub method : String
  pub url : Url
  pub host : Bytes
  pub headers : List (Bytes × Bytes)
  pub body : Body

-- The transport, and the one without a server name, which HTTP/3 does not have.
pub record Clients (Rt : Type 0) : Type 0 where
  pub transport : Rt
  pub no_server_name : Option Rt

pub record Final : Type 0 where
  pub response : Response
  pub tls : Option ConnectionState
  pub content_length : ℤ
  -- the time of a Last-Modified header that parses
  pub last_modified : Option ℤ

-- What `client.Do` ends with, with the traces of its round trips and the count of its redirects.
pub record Answer : Type 0 where
  pub final : Option Final
  pub errored : Bool
  pub traces : Transport
  pub redirects : ℕ

pub record Library (Rt Json : Type 0) : Type 0 where
  pub parse : Bytes → Option Url
  pub resolver : Resolver
  pub ip_text : Ip → Bytes
  pub new_tls_config : TlsConfig → Option TlsConfig
  pub http3_transport : TlsConfig → Rt
  pub new_client : HttpClientConfig → Option Rt
  pub new_round_tripper : HttpClientConfig → Option Rt
  -- whether there is a fallback, its transport, and the one that tries both
  pub gost_enabled : Bool
  pub gost : HttpClientConfig → Result (Unit {0}) Rt
  pub auto : Rt → Rt → Rt
  pub cookie_jar : Bool
  pub open_file : String → Bool
  pub new_request : Request → Bool
  pub user_agent : Bytes
  pub do_request : Clients Rt → Request → Answer
  pub matches : Regexp → Bytes → Bool
  pub unmarshal : Bytes → Option Json
  pub eval : CelProgram → Json → Option (Option Bool)
  pub decompress : Decompressor → Reader → Option Reader
  pub sha256 : Bytes → Bytes
  pub unix : ℕ → ℤ
  pub cipher_suite_name : ℕ → String

module _ {Rt Json : Type 0} (lib : Library Rt Json) (c : HttpProbe) where
  abbrev pub cel_set : Bool
  cel_set = elim c.fail_if_body_json_matches_cel [
    | some _ ↦ true
    | none ↦ elim c.fail_if_body_json_not_matches_cel [ some _ ↦ true | none ↦ false ]
  ]

  -- An address, where the target is resolved here; a nil address is not used.
  pub taken : Choice → Run Event Outcome (Option Ip)
  taken (chosen ip) = pure (some ip)
  taken failed = fail
  taken unset = pure none

  pub address_of : Bytes → Run Event Outcome (Option Ip)
  unfolding taken
  address_of host =
      if should_resolve_dns_with_proxy c
      then (do
        let choice = choose_protocol lib.resolver c.ip_protocol c.ip_protocol_fallback host
        log choice.1
        log (timed "probe_http_duration_seconds" ("resolve" ∷ []) ∷ [])
        taken choice.0)
      else pure none

  -- The configuration of the client, with the name of the target, or with none.
  abbrev pub client_config : Bytes → HttpClientConfig
  client_config host = record c.http_client_config {
    tls_config = record c.http_client_config.tls_config {
      server_name = server_name c.http_client_config.tls_config.server_name c.headers host;
    };
  }

  abbrev pub nameless_config : HttpClientConfig
  nameless_config = record c.http_client_config {
    tls_config = record c.http_client_config.tls_config { server_name = [] };
  }

  -- HTTP/3 needs TLS 1.3.
  abbrev pub at_least_tls13 : TlsConfig → TlsConfig
  at_least_tls13 tls =
      if ltb tls.min_version version_tls13 then record tls { min_version = version_tls13 } else tls

  pub wrapped : HttpClientConfig → Rt → Option Rt
  wrapped config rt = elim (wrap_gost_fallback lib.gost_enabled lib.auto (lib.gost config) rt) [
    | ok both ↦ some both
    | err _ ↦ none
  ]

  pub clients_of : Bytes → Run Event Outcome (Clients Rt)
  unfolding wrapped
  clients_of host =
      if c.use_http3
      then (do
        tls ← expect (lib.new_tls_config (client_config host).tls_config)
        pure (record {
          transport = lib.http3_transport (at_least_tls13 tls);
          no_server_name = none;
        }))
      else (do
        client ← expect (lib.new_client (client_config host))
        nameless ← expect (lib.new_round_tripper nameless_config)
        both ← expect (wrapped (client_config host) client)
        other ← expect (wrapped nameless_config nameless)
        pure (record { transport = both; no_server_name = some other }))

  abbrev pub body : Body
  body =
      if not (c.body_file == "")
      then file c.body_file
      else if not (c.body == "")
      then text c.body
      else no_body

  abbrev pub request : Url → Option Ip → Request
  request url ip = record {
    method = if c.method == "" then "GET" else c.method;
    url = record url {
      host =
          url_host c.use_http3 (elim ip [ none ↦ none | some a ↦ some (lib.ip_text a) ]) url.host
            url.port;
    };
    host = request_host url.host c.headers;
    headers = request_headers lib.user_agent c.headers;
    body = body;
  }

  -- All until the request is sent.
  pub prepare : Bytes → Run Event Outcome (Clients Rt × Request)
  unfolding address_of clients_of
  prepare target = do
    log (
        register "probe_http_duration_seconds"
        ∷ register "probe_http_content_length"
        ∷ register "probe_http_uncompressed_body_length"
        ∷ register "probe_http_redirects"
        ∷ register "probe_http_ssl"
        ∷ register "probe_http_status_code"
        ∷ register "probe_http_version"
        ∷ register "probe_failed_due_to_regex"
        ∷ (if cel_set then register "probe_failed_due_to_cel" ∷ [] else []))
    url ← expect (lib.parse (target_of c.use_http3 target))
    ip ← address_of url.hostname
    clients ← clients_of url.hostname
    require lib.cookie_jar
    require (if c.body_file == "" then true else lib.open_file c.body_file)
    require (lib.new_request (request url ip))
    pure (clients, request url ip)

  -- The gauges of the certificates, where one has been parsed.
  pub certificates : ConnectionState → List Event
  certificates state = elim (leaf state) [
    | none ↦ []
    | some cert ↦
        register ssl_earliest_cert_expiry
        ∷ register ssl_chain_expiry_in_time_stamp
        ∷ register ssl_last_chain_info
        ∷ set ssl_earliest_cert_expiry [] (lib.unix (get_earliest_cert_expiry state))
        ∷ set ssl_chain_expiry_in_time_stamp [] (lib.unix (get_last_chain_expiry state))
        ∷ info ssl_last_chain_info (
            get_fingerprint lib.sha256 cert
            ∷ codes (get_subject cert)
            ∷ codes (get_issuer cert)
            ∷ get_dns_names cert
            ∷ get_serial_number cert
            ∷ [])
        ∷ []
  ]

  pub tls_gauges : Option ConnectionState → List Event
  unfolding certificates
  tls_gauges none = []
  tls_gauges (some state) =
      set "probe_http_ssl" [] (pos 1)
      ∷ register probe_tls_info
      ∷ register probe_tls_cipher
      ∷ set probe_tls_info (get_tls_version state.version ∷ []) (pos 1)
      ∷ set probe_tls_cipher (get_tls_cipher lib.cipher_suite_name state.cipher_suite ∷ []) (pos 1)
      ∷ certificates state

  abbrev pub over_tls : Option ConnectionState → Bool
  over_tls none = false
  over_tls (some state) = true

  -- The verdict and the events of a response, or of none, which is an empty response.
  pub judged : Answer → Option Final → Bool × List Event
  unfolding tls_gauges
  judged a none = (
    judge_tls lib.matches lib.unmarshal lib.eval lib.decompress c false false,
    durations a.traces
        ++ set "probe_http_status_code" [] (pos 0)
          ∷ set "probe_http_content_length" [] (pos 0)
          ∷ set "probe_http_redirects" [] (pos a.redirects)
          ∷ [],
  )
  judged a (some f) =
      let s =
        judge_response lib.matches lib.unmarshal lib.eval lib.decompress c a.errored f.response in
      (
        judge_tls lib.matches lib.unmarshal lib.eval lib.decompress c (over_tls f.tls) s.success,
        s.events
            ++ elim f.last_modified [
              | none ↦ []
              | some t ↦
                  register "probe_http_last_modified_timestamp_seconds"
                  ∷ set "probe_http_last_modified_timestamp_seconds" [] t
                  ∷ []
            ]
            ++ durations a.traces
            ++ tls_gauges f.tls
            ++ set "probe_http_status_code" [] f.response.status_code
              ∷ set "probe_http_content_length" [] f.content_length
              ∷ set "probe_http_redirects" [] (pos a.redirects)
              ∷ [],
      )

  unfoldable pub probe_http : Bytes → Run Event Outcome Outcome
  unfolding prepare judged
  probe_http target = do
    (clients, r) ← prepare target
    let a = lib.do_request clients r
    let (success, events) = judged a a.final
    emit events (returned success)
