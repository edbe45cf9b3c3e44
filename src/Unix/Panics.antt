-- ===== src/Unix/Panics.antt =====
-- When the probe of a Unix socket panics.
use mathlib.Core.Path.{subst}
use blackbox_exporter_with_g.Common.{
  String, ◌≡◌, ◌↔◌, ◌⊎◌, refl, true, false, Option, none, some, Bool-cases, inl, inr,
}
use blackbox_exporter_with_g.Common.Results.{Result, ok, err}
use blackbox_exporter_with_g.Config.Types.{UnixProbe, TlsConfig}
use blackbox_exporter_with_g.Metrics.{Outcome, panicked}
use blackbox_exporter_with_g.Unix.{DialError, explained, dialed_tls, dial_unix, probed, probe_unix}

module _ {Conn Tls : Type 0} (new_tls_config : TlsConfig → Option Tls)
    (dial : Option Tls → String → Result DialError Conn)
    (permission_denied : String → String → String) (probe_query_responses : Conn → Outcome) where
  -- A connection with which the dialogue panics.
  abbrev pub Breaks : Option Tls → String → Type 0
  Breaks tls target =
      (conn : Conn) × (dial tls target ≡ ok conn) × (probe_query_responses conn ≡ panicked)

  explained_iff :
      (target : String) (r : Result DialError Conn)
      → (probed new_tls_config dial permission_denied probe_query_responses
            (explained new_tls_config dial permission_denied target r)
          ≡ panicked)
        ↔ ((conn : Conn) × (r ≡ ok conn) × (probe_query_responses conn ≡ panicked))
  unfolding explained probed
  explained_iff target (ok conn) =
      (λ h. (conn, refl, h), λ (k, e, h). (let same : conn ≡ k = cc in rw same h))
  explained_iff target (err e) = (λ h. cc, λ (k, f, h). cc)

  dialed_tls_iff :
      (target : String) (o : Option Tls)
      → (probed new_tls_config dial permission_denied probe_query_responses
            (dialed_tls new_tls_config dial permission_denied target o)
          ≡ panicked)
        ↔ ((o ≡ none) ⊎ ((tls : Tls) × (o ≡ some tls) × Breaks (some tls) target))
  unfolding dialed_tls probed
  dialed_tls_iff target none = (λ _. inl refl, λ _. refl)
  dialed_tls_iff target (some tls) =
      let (a, b) = explained_iff target (dial (some tls) target) in
      (
        λ h. inr (tls, refl, a h),
        λ h. (elim h [
          | inl e ↦ cc
          | inr (t, e, breaks) ↦
              (let same : t ≡ tls = cc in b (subst (λ w. Breaks (some w) target) same breaks))
        ]),
      )

  -- The probe panics exactly if the module asks for TLS with a configuration from which none can be
  -- made, since then the error is lost and the nil connection is used; or if the dialogue panics
  -- with the connection, which is one over TLS with the configuration exactly if the module asks
  -- for it.
  pub probe_unix-panicked_iff :
      (c : UnixProbe) (target : String)
      → (probe_unix new_tls_config dial permission_denied probe_query_responses c target ≡ panicked)
        ↔ (((c.tls ≡ true)
              × ((new_tls_config c.tls_config ≡ none)
                  ⊎ ((tls : Tls) × (new_tls_config c.tls_config ≡ some tls)
                      × Breaks (some tls) target)))
            ⊎ ((c.tls ≡ false) × Breaks none target))
  unfolding probe_unix dial_unix
  probe_unix-panicked_iff c target = elim (Bool-cases c.tls) [
    | inl tls ↦
        (let (a, b) = dialed_tls_iff target (new_tls_config c.tls_config) in
          simp tls (λ h. inl (refl, a h), λ h. (elim h [ inl k ↦ b k.1 | inr k ↦ cc ])))
    | inr plain ↦
        (let (a, b) = explained_iff target (dial none target) in
          simp plain (λ h. inr (refl, a h), λ h. (elim h [ inl k ↦ cc | inr k ↦ b k.1 ])))
  ]
