-- ===== src/Handler/Exits.antt =====
-- The ways in which a request ends, and what it has caused by then.
use blackbox_exporter_with_g.Common.{
  String, ◌≡◌, ◌≢◌, ◌⊎◌, refl, ap, Bool, true, false, not, ◌&&◌, Option, none, some, List, [], ◌∷◌,
  arith, Bool-cases, inl, inr, if◌then◌else◌, ◌==◌, string_eq,
}
use blackbox_exporter_with_g.Common.Float.{Floats}
use blackbox_exporter_with_g.Common.Int.{ℤ}
use blackbox_exporter_with_g.Common.Results.{Result, ok, err}
use blackbox_exporter_with_g.Common.Text.{Bytes, codes}
use blackbox_exporter_with_g.Common.Trace.{Run, next, stop, pure, ◌>>=◌}
use blackbox_exporter_with_g.Config.Types.{Module}
use blackbox_exporter_with_g.Handler.{
  Reply, debug, metrics, missing_target, unknown_prober, status_code, Event, probed, set_success,
  recorded, count_unknown, Request, Probed, Probing, finished, panicked, aborted, settled, Job,
  params_of, name_of, get, module_named, put, lift, found, refuse_if, asked, budgeted, copy,
  with_host, hosted, get_timeout, set_http_host, job_of, finish, handler, debug_output,
}

module _ (fl : Floats) (seconds : ℤ → fl.F) (modules : List (String × Module)) (offset : fl.F)
    (counted : Bool) (probers : String → Option (fl.F → String → Module → Probing))
    (marshal : Module → Result String String) where
  -- What is refused, with no probe and nothing recorded.
  pub record IsRefused {A : Type 0} (m : Run (Event fl.F) Reply A) : Type 0 where
    pub reply : Reply
    pub ended : m.exit ≡ stop reply
    pub failed : status_code reply ≢ 200
    pub quiet : (m.events ≡ []) ⊎ (m.events ≡ count_unknown ∷ [])

  -- A request whose probe runs once, tells its success in the gauge, and is recorded once, with the prober's verdict and the debug
  -- output; the reply is the debug output if the request says so, and the metrics otherwise.
  pub record IsProbed (r : Request) (m : Run (Event fl.F) Reply Reply) : Type 0 where
    pub job : Job fl seconds modules offset counted probers marshal
    pub prepared : (job_of fl seconds modules offset counted probers marshal r).exit ≡ next job
    pub outcome : Probed
    pub ran : job.prober job.timeout job.target job.module_ ≡ finished outcome
    pub ended :
        m.exit
        ≡ next (
            if get r.query "debug" == "true"
            then debug (debug_output marshal job.module_ outcome)
            else metrics outcome.families)
    pub events :
        m.events
        ≡ probed job.module_.prober job.timeout job.target job.module_
          ∷ set_success (if outcome.success then 1 else 0)
          ∷ recorded job.name job.target (debug_output marshal job.module_ outcome) outcome.success
          ∷ []

  -- A request whose prober panics: nothing follows the probe.
  pub record IsPanicked (r : Request) (m : Run (Event fl.F) Reply Reply) : Type 0 where
    pub job : Job fl seconds modules offset counted probers marshal
    pub prepared : (job_of fl seconds modules offset counted probers marshal r).exit ≡ next job
    pub ran : job.prober job.timeout job.target job.module_ ≡ panicked
    pub ended : m.exit ≡ stop aborted
    pub events : m.events ≡ probed job.module_.prober job.timeout job.target job.module_ ∷ []

  Probing-cases : (p : Probing) → ((outcome : Probed) × (p ≡ finished outcome)) ⊎ (p ≡ panicked)
  Probing-cases (finished outcome) = inl (outcome, refl)
  Probing-cases panicked = inr refl

  Start : {A : Type 0} → Run (Event fl.F) Reply A → Type 0
  Start {A} m = ((a : A) × (m ≡ pure a)) ⊎ IsRefused m

  pure-Start : {A : Type 0} (a : A) → Start (pure a)
  unfolding Start
  pure-Start a = inl (a, refl)

  then-Start :
      {A B : Type 0} (m : Run (Event fl.F) Reply A) (f : A → Run (Event fl.F) Reply B)
      → Start m
      → ((a : A) → Start (f a))
      → Start (m >>= f)
  unfolding Start
  then-Start m f (inl (a, e)) g = rw e (g a)
  then-Start m f (inr h) g =
      let stopped : m.exit ≡ stop h.reply = h.ended in
      inr (record {
        reply = h.reply;
        ended = rw stopped refl;
        failed = h.failed;
        quiet = rw stopped h.quiet;
      })

  found-Start :
      {A : Type 0} (before : List (Event fl.F)) (reply : Reply) (o : Option A)
      → (before ≡ []) ⊎ (before ≡ count_unknown ∷ [])
      → status_code reply ≢ 200
      → Start (found before reply o)
  unfolding Start found
  found-Start before reply none q f =
      inr (record { reply = reply; ended = refl; failed = f; quiet = q })
  found-Start before reply (some a) q f = inl (a, refl)

  refuse_if-Start : (b : Bool) (reply : Reply) → status_code reply ≢ 200 → Start (refuse_if b reply)
  unfolding Start refuse_if
  refuse_if-Start true reply f =
      inr (record { reply = reply; ended = refl; failed = f; quiet = inl refl })
  refuse_if-Start false reply f = inl (tt, refl)

  lift-Start :
      {A : Type 0} (r : Result Reply A)
      → ((e : Reply) → r ≡ err e → status_code e ≢ 200)
      → Start (lift r)
  unfolding Start lift
  lift-Start (ok a) f = inl (a, refl)
  lift-Start (err e) f =
      inr (record { reply = e; ended = refl; failed = f e refl; quiet = inl refl })

  asked-fails : (header : Bytes) (e : Reply) → asked fl seconds header ≡ err e → status_code e ≢ 200
  unfolding asked status_code
  asked-fails [] e h = cc
  asked-fails (c ∷ header) e h = ground arith

  budgeted-fails :
      (limit : fl.F) (e : Reply) (r : Result Reply fl.F)
      → ((e : Reply) → r ≡ err e → status_code e ≢ 200)
      → budgeted fl seconds limit offset r ≡ err e
      → status_code e ≢ 200
  unfolding budgeted
  budgeted-fails limit e (ok t) f h = cc
  budgeted-fails limit e (err e') f h = f e cc

  copy-fails :
      (hostname : Bytes) (defined headers : List (String × Bytes)) (e : Reply)
      → copy hostname defined headers ≡ err e
      → status_code e ≢ 200
  unfolding copy status_code
  copy-fails hostname [] headers e h = cc
  copy-fails hostname ((name, value) ∷ defined) headers e h =
      ground (arith, copy-fails hostname defined (put headers name value) e)

  with_host-fails :
      (hostname : Bytes) (m : Module) (e : Reply) (r : Result Reply (List (String × Bytes)))
      → ((e : Reply) → r ≡ err e → status_code e ≢ 200)
      → with_host hostname m r ≡ err e
      → status_code e ≢ 200
  unfolding with_host
  with_host-fails hostname m e (ok headers) f h = cc
  with_host-fails hostname m e (err e') f h = f e cc

  hosted-Start :
      (hostname : String) (m : Module)
      → Start (hosted fl seconds modules offset counted probers marshal hostname m)
  unfolding hosted set_http_host
  hosted-Start hostname m = elim (Bool-cases (m.prober == "http" && not (hostname == ""))) [
    | inl b ↦ simp b (
        lift-Start (set_http_host (codes hostname) m) (λ e.
          with_host-fails (codes hostname) m e _ (copy-fails (codes hostname) m.http.headers [])))
    | inr b ↦ simp b (pure-Start m)
  ]

  unknown-quiet :
      (if◌then◌else◌ {A = List (Event fl.F)} counted (count_unknown ∷ []) [] ≡ [])
      ⊎ (if◌then◌else◌ {A = List (Event fl.F)} counted (count_unknown ∷ []) [] ≡ count_unknown ∷ [])
  unknown-quiet = elim (Bool-cases counted) [ inl b ↦ inr (rw b refl) | inr b ↦ inl (rw b refl) ]

  job_of-Start : (r : Request) → Start (job_of fl seconds modules offset counted probers marshal r)
  unfolding job_of get_timeout status_code
  job_of-Start r =
      then-Start _ _
        (found-Start _ _ (module_named modules (name_of r)) unknown-quiet (omega arith))
        λ m.
          then-Start _ _
            (lift-Start _
              λ e. budgeted-fails (seconds m.timeout) e _ (asked-fails r.scrape_timeout))
            λ timeout.
              then-Start _ _
                (refuse_if-Start (get (params_of r) "target" == "") missing_target (omega arith))
                λ _.
                  then-Start _ _
                    (found-Start [] (unknown_prober m.prober) (probers m.prober) (inl refl)
                      (omega arith))
                    λ prober.
                      then-Start _ _ (hosted-Start (get (params_of r) "hostname") m)
                        λ m. pure-Start _

  -- A request is refused, with a status that is not 200, no probe and nothing recorded, but perhaps
  -- with an unknown module counted; or a prober runs exactly once. If it returns, then the gauge of
  -- its success is set by its verdict, and exactly one result is recorded, with the same verdict and
  -- the debug output that is also replied on request. If it panics, nothing more happens: the
  -- gauge of its success is not set, no result is recorded, and no reply is sent.
  pub handler-Ends :
      (r : Request)
      → IsRefused (handler fl seconds modules offset counted probers marshal r)
        ⊎ (IsProbed r (handler fl seconds modules offset counted probers marshal r)
            ⊎ IsPanicked r (handler fl seconds modules offset counted probers marshal r))
  unfolding handler finish settled Start
  handler-Ends r = elim (job_of-Start r) [
    | inl (job, e) ↦ inr (elim (Probing-cases (job.prober job.timeout job.target job.module_)) [
      | inl (outcome, ran) ↦ inl (record {
        job = job;
        prepared = ap (λ m. m.exit) e;
        outcome = outcome;
        ran = ran;
        ended = rw (e, ran) refl;
        events = rw (e, ran) refl;
      })
      | inr ran ↦ inr (record {
        job = job;
        prepared = ap (λ m. m.exit) e;
        ran = ran;
        ended = rw (e, ran) refl;
        events = rw (e, ran) refl;
      })
    ])
    | inr h ↦ inl (record {
      reply = h.reply;
      ended = let stopped : _ ≡ stop h.reply = h.ended in rw stopped refl;
      failed = h.failed;
      quiet = let stopped : _ ≡ stop h.reply = h.ended in rw stopped h.quiet;
    })
  ]
