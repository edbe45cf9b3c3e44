-- ===== src/Handler.antt =====
-- prober/handler.go: a request to /probe, from its parameters to its reply. The probers' runs, the
-- gathering and printing of the metrics and the encoding of the module are parameters.
pub mod Timeout
pub mod Hostname
pub mod Exits
mod Tests
use Prim.Native.String
use blackbox_exporter_with_g.Common.{
  ℕ, String, Bool, true, false, not, ◌&&◌, ◌||◌, Option, none, some, List, [], ◌∷◌, if◌then◌else◌,
  ◌==◌, string_eq,
}
use blackbox_exporter_with_g.Common.Float.{Floats}
use blackbox_exporter_with_g.Common.Int.{ℤ}
use blackbox_exporter_with_g.Common.Mime.{canonical_key}
use blackbox_exporter_with_g.Common.Results.{Result, ok, err}
use blackbox_exporter_with_g.Common.Text.{Bytes, bytes_eq, codes}
use blackbox_exporter_with_g.Common.Trace.{Run, next, stop, pure, leave, emit, ◌>>=◌, ◌>>◌}
use blackbox_exporter_with_g.Config.Types.{Module, HttpProbe, TcpProbe, TlsConfig}

-- What the reply says. `metrics` is what promhttp writes, where the gathering has not failed.
-- `aborted` is no reply: net/http recovers a panic of the handler and closes the connection, and no
-- status is sent, which is written as 0.
pub data Reply : Type 0 where
  unknown_module : String → Reply
  bad_timeout : Reply
  missing_target : Reply
  unknown_prober : String → Reply
  host_conflict : Bytes → Bytes → Reply
  debug metrics : String → Reply
  aborted : Reply

unfoldable pub status_code : Reply → ℕ
status_code (unknown_module name) = 400
status_code bad_timeout = 500
status_code missing_target = 400
status_code (unknown_prober name) = 400
status_code (host_conflict defined hostname) = 400
status_code (debug s) = 200
status_code (metrics s) = 200
status_code aborted = 0

-- `url.Values.Get`: the first value under a key, empty if there is none.
pub get : List (String × String) → String → String
get [] key = ""
get ((k, v) ∷ params) key = let rest = get params key in if k == key then v else rest

-- The module of that name in the map of the configuration.
pub module_named : List (String × Module) → String → Option Module
module_named [] name = none
module_named ((k, m) ∷ modules) name =
    let rest = module_named modules name in if k == name then some m else rest

-- `headers[name] = value`
unfoldable pub put : List (String × Bytes) → String → Bytes → List (String × Bytes)
put [] name value = (name, value) ∷ []
put ((k, v) ∷ headers) name value =
    let rest = put headers name value in
    if k == name then (name, value) ∷ headers else (k, v) ∷ rest

-- The loop of `setHTTPHost`, on the headers so far.
unfoldable pub copy :
    Bytes → List (String × Bytes) → List (String × Bytes) → Result Reply (List (String × Bytes))
unfolding put
copy hostname [] headers = ok headers
copy hostname ((name, value) ∷ defined) headers =
    let rest = copy hostname defined (put headers name value) in
    if canonical_key (codes name) == codes "Host" && not (value == hostname)
    then err (host_conflict value hostname)
    else rest

unfoldable pub with_host :
    Bytes → Module → Result Reply (List (String × Bytes)) → Result Reply Module
unfolding put
with_host hostname m (err e) = err e
with_host hostname m (ok headers) =
    ok (record m { http = record m.http { headers = put headers "Host" hostname } })

unfoldable pub set_http_host : Bytes → Module → Result Reply Module
unfolding copy with_host
set_http_host hostname m = with_host hostname m (copy hostname m.http.headers [])

-- A request: its own query, the `params` that the caller gives or not, and the header with the
-- timeout of the scrape.
pub record Request : Type 0 where
  pub query : List (String × String)
  pub params : Option (List (String × String))
  pub scrape_timeout : Bytes

-- `params`, and the name of the module that they ask for
pub params_of : Request → List (String × String)
params_of r = elim r.params [ none ↦ r.query | some p ↦ p ]

pub name_of : Request → String
unfolding get params_of
name_of r = if get (params_of r) "module" == "" then "http_2xx" else get (params_of r) "module"

-- What a prober leaves: its verdict, the log, the metrics of the registry, printed, and the error of
-- gathering them.
pub record Probed : Type 0 where
  pub success : Bool
  pub logs : String
  pub families : String
  pub gather_error : Option String

-- A prober returns or panics.
pub data Probing : Type 0 where
  finished : Probed → Probing
  panicked : Probing

-- `DebugOutput`; the encoder leaves an error or a text.
unfoldable pub debug_output : (Module → Result String String) → Module → Probed → String
debug_output marshal m p =
    let gathering : String = elim p.gather_error [
      | none ↦ ""
      | some e ↦ String.◌++◌ "Error gathering metrics: " (String.◌++◌ e "\n")
    ] in
    let encoded : String = elim (marshal m) [
      | err e ↦ String.◌++◌ "Error marshalling config: " (String.◌++◌ e "\n")
      | ok s ↦ s
    ] in
    String.◌++◌ "Logs for the probe:\n" (
      String.◌++◌ p.logs (
        String.◌++◌ "\n\n\nMetrics that would have been returned:\n" (
          String.◌++◌ gathering
            (String.◌++◌ p.families (String.◌++◌ "\n\n\nModule configuration:\n" encoded)))))

-- What the handler does besides replying: the counter of unknown modules, the run of a prober, the
-- gauge `probe_success` after it, and the entry of the history.
pub data Event (F : Type 0) : Type 0 where
  count_unknown : Event F
  probed : String → F → String → Module → Event F
  set_success : ℕ → Event F
  recorded : String → String → String → Bool → Event F

pub lift : {F A : Type 0} → Result Reply A → Run (Event F) Reply A
lift (ok a) = pure a
lift (err e) = leave e

-- `v, ok := …; if !ok { …; return }`
pub found : {F A : Type 0} → List (Event F) → Reply → Option A → Run (Event F) Reply A
found before reply none = record { exit = stop reply; events = before }
found before reply (some a) = pure a

-- `if b { …; return }`
pub refuse_if : {F : Type 0} → Bool → Reply → Run (Event F) Reply (Unit {0})
refuse_if true reply = leave reply
refuse_if false reply = pure tt

-- `module.TCP.TLSConfig.ServerName`, from the `hostname` of a request to a TCP module
pub with_server_name : String → Module → Module
with_server_name hostname m =
    if m.prober == "tcp" && not (hostname == "") && m.tcp.tls_config.server_name == []
    then record m {
      tcp = record m.tcp { tls_config = record m.tcp.tls_config { server_name = codes hostname } };
    }
    else m

module _ (fl : Floats) (seconds : ℤ → fl.F) where
  -- The timeout that the scrape asks for, or the default.
  pub asked : Bytes → Result Reply fl.F
  asked [] = ok fl.default_timeout
  asked (c ∷ header) = elim (fl.parse64 (c ∷ header)) [
    | none ↦ err bad_timeout
    | some t ↦ ok (if fl.eq t fl.zero then fl.default_timeout else t)
  ]

  -- The timeout of the module if it is less than what the scrape leaves, or if that is negative.
  pub capped : fl.F → fl.F → fl.F
  capped limit max =
      if (fl.lt limit max && fl.lt fl.zero limit) || fl.lt max fl.zero then limit else max

  pub budgeted : fl.F → fl.F → Result Reply fl.F → Result Reply fl.F
  unfolding capped
  budgeted limit offset (err e) = err e
  budgeted limit offset (ok t) = ok (capped limit (fl.sub t offset))

  unfoldable pub get_timeout : Bytes → ℤ → fl.F → Result Reply fl.F
  unfolding asked budgeted
  get_timeout header timeout offset = budgeted (seconds timeout) offset (asked header)

  -- `probers` is the map of the probers' functions; `counted` is whether there is a counter.
  module _ (modules : List (String × Module)) (offset : fl.F) (counted : Bool)
      (probers : String → Option (fl.F → String → Module → Probing))
      (marshal : Module → Result String String) where
    pub hosted : String → Module → Run (Event fl.F) Reply Module
    unfolding lift set_http_host
    hosted hostname m =
        if m.prober == "http" && not (hostname == "")
        then lift (set_http_host (codes hostname) m)
        else pure m

    -- The map's function for the module, and the module and the timeout that it is called with.
    pub record Job : Type 0 where
      pub name : String
      pub target : String
      pub timeout : fl.F
      pub prober : fl.F → String → Module → Probing
      pub module_ : Module

    -- All before the probe.
    pub job_of : Request → Run (Event fl.F) Reply Job
    unfolding get params_of name_of module_named lift found refuse_if get_timeout hosted
        with_server_name
    job_of r = do
      m ←
          found (if counted then count_unknown ∷ [] else []) (unknown_module (name_of r))
            (module_named modules (name_of r))
      timeout ← lift (get_timeout r.scrape_timeout m.timeout offset)
      refuse_if (get (params_of r) "target" == "") missing_target
      prober ← found [] (unknown_prober m.prober) (probers m.prober)
      m ← hosted (get (params_of r) "hostname") m
      pure (record {
        name = name_of r;
        target = get (params_of r) "target";
        timeout = timeout;
        prober = prober;
        module_ = with_server_name (get (params_of r) "hostname") m;
      })

    -- All after the probe; a panic of the prober leaves the handler.
    pub settled : Request → Job → Probing → Run (Event fl.F) Reply Reply
    unfolding get debug_output
    settled r job panicked = leave aborted
    settled r job (finished p) =
        let output = debug_output marshal job.module_ p in
        emit
          (set_success (if p.success then 1 else 0)
            ∷ recorded job.name job.target output p.success
            ∷ [])
          (if get r.query "debug" == "true" then debug output else metrics p.families)

    -- The probe, and all after it.
    pub finish : Request → Job → Run (Event fl.F) Reply Reply
    unfolding settled
    finish r job =
        emit (probed job.module_.prober job.timeout job.target job.module_ ∷ []) (tt {0})
        >> settled r job (job.prober job.timeout job.target job.module_)

    unfoldable pub handler : Request → Run (Event fl.F) Reply Reply
    unfolding job_of finish
    handler r = job_of r >>= finish r
