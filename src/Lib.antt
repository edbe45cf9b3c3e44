-- ===== src/Lib.antt =====
-- A model of the blackbox exporter with GOST: a server that probes a target on request and returns
-- what it found as metrics.
--
-- The parts, by files of the repository:
--   Handler (prober/handler.go): a request to /probe, as a run that may be refused early. It picks the
--     module, the timeout and the host, calls a prober, which returns or panics, and records the result
--     in the history.
--   History (prober/history.go): `ResultHistory`; each method holds the mutex, so it is one step on
--     the record. Ids wrap at 2 ^ 64, the width of the counter, and are negative from 2 ^ 63 on.
--   Config.Types, Config.Defaults, Config.Unmarshal, Config.Encoding, Config.Expressions, Config.Reload
--     (config/config.go, config/reload.go): the structs, their defaults, the checks of the
--     `UnmarshalYAML` methods, the regular expressions and CEL programs as read and written,
--     the fit of a compression and an `Accept-Encoding` header, and the reload of the file.
--   Utils (prober/utils.go): `chooseProtocol` and `ipHash`, with the arithmetic of 32 bits written out.
--   Dns, Dns.Probe (prober/dns.go): the validators and the whole probe as a run with events.
--   Http.Request, Http.Transport, Http.Match, Http.Response (prober/http.go): the stages of `ProbeHTTP`:
--     what is requested, the transport with its traces, the matchers, and the judgement of a response
--     with its reader as state; Http.Probe: `ProbeHTTP` as a whole.
--   Dialogue (prober/query_response.go): the loop of queries and responses, on the state of a connection
--     and the names in the registry; Tcp (prober/tcp.go): `dialTCP` and `ProbeTCP` with the dialogue;
--     Unix (prober/unix.go): `dialUnix` and `ProbeUnix`.
--   Icmp, Icmp.Probe (prober/icmp.go): the sequence number, the loop over the packets that arrive, and
--     the whole probe.
--   Grpc (prober/grpc.go): the health check and the whole probe.
--   Server (main.go): the external URL and the prefix of the routes; Server.Startup: the start with its
--     exit codes; Server.Logs: the pages on the history; Server.Reloader: the goroutine of the reloads
--     and the handlers that wait for it, as a step relation in which a request is taken, loaded and
--     answered in three steps.
--   Tls (prober/tls.go): what is reported of a connection; Gost, Gost.State (prober/gost_tls.go,
--     prober/gost_tls_disabled.go): the fallback to the GOST backend and the state of its connections;
--     Gost.Context, Gost.Dialer: its OpenSSL context, and its dialer with what that makes and closes.
--   Metrics (prober/prober.go): the names of the gauges, and the events by which a probe uses its
--     registry. Metrics.Rules and Metrics.Exactly say what a step of a probe goes on with, and put the
--     relation of a whole probe together.
--   Common: lists measured by native numbers, texts as lists of code points, network addresses, signed
--     integers, results, and `Trace`, the computations that leave events and may return early.
--
-- The handler sets the `Host` header that Http.Request reads, takes its timeout from the module that
-- Config.Unmarshal accepts, and calls the probers; each prober asks Utils for an address and Tls for
-- the certificates. Server.Startup and Server.Reloader reload the configuration by Config.Reload, and
-- Server.Logs looks results up in History.
--
-- Parameters stand for what other libraries and the operating system do: the YAML decoder, regular
-- expressions, CEL, JSON, decompressors, the resolver, sockets and what arrives on them, the client of
-- gRPC, TLS configurations and handshakes, the registry's answer to a collector, the URL parser,
-- SHA-256, and floating-point numbers (`Common.Float`, with what IEEE 754 says of `<`). Texts of the
-- log are left out, and so is the deferred closing of connections. Every loop is structural
-- recursion, over the lines, packets or records that are still to come, so there is no fuel.
--
-- Not modelled: the parsing of the command line, the fixed texts of the pages and the listening of
-- main.go, the logger of a probe in prober/handler.go, the gauges of the HTTP version and of the length
-- that has been read in prober/http.go, the tracing callbacks and deadlines of the dialer of
-- prober/gost_tls.go, and the copies of other projects under third_party/. The client that follows
-- redirects is one parameter of Http.Probe, so `CheckRedirect` and Http.Transport stand beside it.
-- That `WithLabelValues` panics on a label that is not UTF-8 is modelled in the dialogue, where the
-- other side chooses the labels; elsewhere the labels of a certificate are taken to be UTF-8.
pub mod Config
pub mod History
pub mod Metrics
pub mod Utils
pub mod Tls
pub mod Gost
pub mod Dns
pub mod Common
pub mod Handler
pub mod Http
pub mod Unix
pub mod Icmp
pub mod Dialogue
pub mod Tcp
pub mod Grpc
pub mod Server
