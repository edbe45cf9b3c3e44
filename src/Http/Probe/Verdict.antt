-- ===== src/Http/Probe/Verdict.antt =====
-- When the HTTP probe succeeds.
use mathlib.Core.Path.{subst}
use blackbox_exporter_with_g.Common.{
  ◌≡◌, ◌↔◌, ◌⊎◌, refl, ap, Bool, true, false, Option, none, some, if◌then◌else◌, ◌==◌, string_eq,
  arith,
}
use blackbox_exporter_with_g.Common.Net.{Ip}
use blackbox_exporter_with_g.Common.Text.{Bytes}
use blackbox_exporter_with_g.Common.Trace.{result}
use blackbox_exporter_with_g.Config.Types.{TlsConfig, HttpProbe}
use blackbox_exporter_with_g.Metrics.{returned}
use blackbox_exporter_with_g.Metrics.Exactly.{
  Exactly, next-Exactly, fail-Exactly, expect-Exactly, require-Exactly, if-Exactly, same-Exactly,
  and_then-Exactly, succeeded_iff,
}
use blackbox_exporter_with_g.Utils.{Choice, chosen, failed, unset, choose_protocol}
use blackbox_exporter_with_g.Http.Request.{target_of, should_resolve_dns_with_proxy}
use blackbox_exporter_with_g.Http.Response.{judge_response, judge_tls}
use blackbox_exporter_with_g.Http.Probe.{
  Url, Request, Clients, Final, Answer, Library, taken, address_of, client_config, nameless_config,
  at_least_tls13, wrapped, clients_of, request, prepare, over_tls, judged, probe_http,
}

module _ {Rt Json : Type 0} (lib : Library Rt Json) (c : HttpProbe) where
  abbrev pub Taken : Choice → Option Ip → Type 0
  Taken (chosen a) ip = some a ≡ ip
  Taken failed ip = ⊥
  Taken unset ip = none ≡ ip

  -- The address of the host, or none where a proxy resolves it.
  abbrev pub Located : Bytes → Option Ip → Type 0
  Located host ip =
      ((should_resolve_dns_with_proxy c ≡ true)
        × Taken (choose_protocol lib.resolver c.ip_protocol c.ip_protocol_fallback host).0 ip)
      ⊎ ((should_resolve_dns_with_proxy c ≡ false) × (none ≡ ip))

  taken-Exactly : (choice : Choice) → Exactly (Taken choice) (taken lib c choice).exit
  unfolding taken
  taken-Exactly (chosen a) = next-Exactly (some a)
  taken-Exactly failed = fail-Exactly
  taken-Exactly unset = next-Exactly none

  address_of-Exactly : (host : Bytes) → Exactly (Located host) (address_of lib c host).exit
  unfolding address_of
  address_of-Exactly host =
      if-Exactly _ _ (should_resolve_dns_with_proxy c) _ _
        (taken-Exactly (choose_protocol lib.resolver c.ip_protocol c.ip_protocol_fallback host).0)
        (next-Exactly none)

  -- The clients: of HTTP/3 with at least TLS 1.3, or two with the fallback, of which the second has
  -- no server name.
  abbrev pub Made : Bytes → Clients Rt → Type 0
  Made host clients =
      ((c.use_http3 ≡ true)
        × ((tls : TlsConfig) × (lib.new_tls_config (client_config lib c host).tls_config ≡ some tls)
            × (record {
              transport = lib.http3_transport (at_least_tls13 lib c tls);
              no_server_name = none;
            }
                ≡ clients)))
      ⊎ ((c.use_http3 ≡ false)
          × ((client : Rt) × (lib.new_client (client_config lib c host) ≡ some client)
              × ((nameless : Rt) × (lib.new_round_tripper (nameless_config lib c) ≡ some nameless)
                  × ((both : Rt) × (wrapped lib c (client_config lib c host) client ≡ some both)
                      × ((other : Rt) × (wrapped lib c (nameless_config lib c) nameless
                            ≡ some other)
                          × (record { transport = both; no_server_name = some other }
                              ≡ clients))))))

  clients_of-Exactly : (host : Bytes) → Exactly (Made host) (clients_of lib c host).exit
  unfolding clients_of
  clients_of-Exactly host =
      if-Exactly _ _ c.use_http3 _ _
        (and_then-Exactly _ _ _ _ _
          (expect-Exactly (lib.new_tls_config (client_config lib c host).tls_config))
          λ tls. next-Exactly (record {
            transport = lib.http3_transport (at_least_tls13 lib c tls);
            no_server_name = none;
          }))
        (and_then-Exactly _ _ _ _ _ (expect-Exactly (lib.new_client (client_config lib c host)))
          λ client.
            and_then-Exactly _ _ _ _ _
              (expect-Exactly (lib.new_round_tripper (nameless_config lib c)))
              λ nameless.
                and_then-Exactly _ _ _ _ _
                  (expect-Exactly (wrapped lib c (client_config lib c host) client))
                  λ both.
                    and_then-Exactly _ _ _ _ _
                      (expect-Exactly (wrapped lib c (nameless_config lib c) nameless))
                      λ other.
                        next-Exactly (record { transport = both; no_server_name = some other }))

  -- The clients and the request of a target.
  pub record IsPrepared (target : Bytes) (ready : Clients Rt × Request) : Type 0 where
    pub url : Url
    pub ip : Option Ip
    pub parsed : lib.parse (target_of c.use_http3 target) ≡ some url
    pub located : Located url.hostname ip
    pub made : Made url.hostname ready.0
    pub jar : lib.cookie_jar ≡ true
    pub opened : (if c.body_file == "" then true else lib.open_file c.body_file) ≡ true
    pub valid : lib.new_request (request lib c url ip) ≡ true
    pub same : request lib c url ip ≡ ready.1

  prepare-Exactly : (target : Bytes) → Exactly (IsPrepared target) (prepare lib c target).exit
  unfolding prepare
  prepare-Exactly target =
      same-Exactly _ _ _
        (and_then-Exactly _ _ _ _ _ (expect-Exactly (lib.parse (target_of c.use_http3 target)))
          λ url. and_then-Exactly _ _ _ _ _ (address_of-Exactly url.hostname) λ ip.
            and_then-Exactly _ _ _ _ _ (clients_of-Exactly url.hostname) λ clients.
              and_then-Exactly _ _ _ _ _ (require-Exactly lib.cookie_jar) λ _.
                and_then-Exactly _ _ _ _ _
                  (require-Exactly (if c.body_file == "" then true else lib.open_file c.body_file))
                  λ _.
                    and_then-Exactly _ _ _ _ _
                      (require-Exactly (lib.new_request (request lib c url ip)))
                      λ _. next-Exactly (clients, request lib c url ip))
        λ ready. (
          λ (url, parsed, (ip, located, (clients, made, (u, jar, (v, opened, (w, valid, e)))))).
              record {
                url = url;
                ip = ip;
                parsed = parsed;
                located = located;
                made = subst (Made url.hostname) (ap (λ (w : Clients Rt × Request). w.0) e) made;
                jar = jar;
                opened = opened;
                valid = valid;
                same = ap (λ (w : Clients Rt × Request). w.1) e;
              },
          λ p. (
            p.url,
            p.parsed,
            (
              p.ip,
              p.located,
              (
                ready.0,
                p.made,
                (tt, p.jar, (tt, p.opened, (tt, p.valid, ap (λ r. (ready.0, r)) p.same))),
              ),
            ),
          ),
        )

  -- There is a response that is accepted, over TLS or not as the module wants it.
  pub record Accepted (a : Answer) : Type 0 where
    pub final : Final
    pub arrived : a.final ≡ some final
    pub accepted :
        (judge_response lib.matches lib.unmarshal lib.eval lib.decompress c a.errored
          final.response).success
        ≡ true
    pub wanted :
        ((over_tls lib c final.tls ≡ true) × (c.fail_if_ssl ≡ false))
        ⊎ ((over_tls lib c final.tls ≡ false) × (c.fail_if_not_ssl ≡ false))

  judge_tls_lem :
      (over success : Bool)
      → (judge_tls lib.matches lib.unmarshal lib.eval lib.decompress c over success ≡ true) ↔ (
          (success ≡ true)
          × (((over ≡ true) × (c.fail_if_ssl ≡ false))
              ⊎ ((over ≡ false) × (c.fail_if_not_ssl ≡ false))))
  unfolding judge_tls
  judge_tls_lem over success = ground arith

  judged-Accepted :
      (a : Answer) (o : Option Final) → a.final ≡ o → ((judged lib c a o).0 ≡ true) ↔ Accepted a
  unfolding judged
  judged-Accepted a none none_left =
      let (p, q) = judge_tls_lem false false in
      (λ e. (let f = (p e).0 in cc), λ s. (let t = s.arrived in cc))
  judged-Accepted a (some f) known =
      let s =
        judge_response lib.matches lib.unmarshal lib.eval lib.decompress c a.errored f.response in
      let (p, q) = judge_tls_lem (over_tls lib c f.tls) s.success in
      (
        λ e.
            (let (good, fit) = p e in
              record { final = f; arrived = known; accepted = good; wanted = fit }),
        λ r.
            (let same : r.final ≡ f = (let t = r.arrived in cc) in
              q (
                subst
                  (λ (g : Final).
                    ((judge_response lib.matches lib.unmarshal lib.eval lib.decompress c a.errored
                        g.response).success
                      ≡ true)
                    × (((over_tls lib c g.tls ≡ true) × (c.fail_if_ssl ≡ false))
                        ⊎ ((over_tls lib c g.tls ≡ false) × (c.fail_if_not_ssl ≡ false))))
                  same (r.accepted, r.wanted))),
      )

  -- The HTTP probe succeeds exactly if the target is a URL whose host has an address, unless a proxy
  -- resolves it, the clients and the request can be made, and the request gets a response that is
  -- accepted, over TLS only if the module allows that, and without only if it allows that.
  pub probe_http_iff :
      (target : Bytes)
      → (result (probe_http lib c target) ≡ returned true) ↔ (
          (ready : Clients Rt × Request) × IsPrepared target ready
          × Accepted (lib.do_request ready.0 ready.1))
  unfolding probe_http
  probe_http_iff target =
      let (a, b) = succeeded_iff _ (probe_http lib c target) (
        and_then-Exactly _ _ _ _ _ (prepare-Exactly target) λ ready. next-Exactly (
          returned
            (judged lib c (lib.do_request ready.0 ready.1)
              (lib.do_request ready.0 ready.1).final).0)) in
      (
        λ e.
            (let (ready, prepared, f) = a e in
              let g : (judged lib c (lib.do_request ready.0 ready.1)
                    (lib.do_request ready.0 ready.1).final).0
                  ≡ true =
                cc in
              (ready, prepared, (judged-Accepted _ _ refl).0 g)),
        λ (ready, prepared, accepted).
            b (ready, prepared, ap returned ((judged-Accepted _ _ refl).1 accepted)),
      )
