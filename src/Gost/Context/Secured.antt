-- ===== src/Gost/Context/Secured.antt =====
-- What a context that is handed out has.
use mathlib.Core.Path.{subst}
use blackbox_exporter_with_g.Common.{
  ◌≤◌, ◌≡◌, ◌⊎◌, refl, sym, ap, ◌∙◌, inl, inr, true, not, ◌&&◌, Option, some, ℕ_eq, Bool-cases,
  Option-cases, arith,
}
use blackbox_exporter_with_g.Common.Results.{Result, ok, err}
use blackbox_exporter_with_g.Config.Types.{TlsConfig}
use blackbox_exporter_with_g.Tls.{version_tls12}
use blackbox_exporter_with_g.Gost.Context.{
  Roots, Binding, Context, gost_roots, load_gost_roots, verified, configured,
  load_gost_client_certificate, min_version_of, max_version_of,
}

Result-cases : {A : Type 0} (r : Result (Unit {0}) A) → (r ≡ err tt) ⊎ ((a : A) × (r ≡ ok a))
Result-cases (ok a) = inr (a, refl)
Result-cases (err tt) = inl refl

module _ {Certificate Key : Type 0} (lib : Binding Certificate Key) (c : TlsConfig) where
  -- The peer is verified against roots that have been loaded, those that the configuration names if it
  -- names any; or verification has been turned off.
  pub data Secured (ctx : Context) : Type 0 where
    peer :
        (roots : Roots)
        → ctx.verify_peer ≡ true
        → ctx.roots ≡ some roots
        → gost_roots lib c ≡ some roots
        → lib.load_roots roots ≡ true
        → Secured ctx
    off : c.insecure_skip_verify ≡ true → Secured ctx

  load-roots :
      (roots : Roots)
      → load_gost_roots lib c ≡ ok roots
      → (gost_roots lib c ≡ some roots) × (lib.load_roots roots ≡ true)
  unfolding load_gost_roots
  load-roots roots e = elim (Option-cases (gost_roots lib c)) [
    | inl missing ↦ (let f = rw (missing, load_gost_roots) at e in cc)
    | inr (r, known) ↦
        (let f = rw (known, load_gost_roots) at e in
          elim (Bool-cases (lib.load_roots r)) [
            | inr failed ↦ (let g = rw failed at f in cc)
            | inl loaded ↦ (let g = rw loaded at f in let same : r ≡ roots = cc in (cc, cc))
          ])
  ]

  verified-Secured :
      (ctx : Context) (found : Option Roots)
      → verified lib c ≡ ok found
      → ctx.verify_peer ≡ not c.insecure_skip_verify
      → ctx.roots ≡ found
      → Secured ctx
  unfolding verified gost_roots
  verified-Secured ctx found e peer_verified kept = elim (Bool-cases c.insecure_skip_verify) [
    | inl skipped ↦ off skipped
    | inr asked ↦
        (let f = rw (asked, verified) at e in
          elim (Result-cases (load_gost_roots lib c)) [
            | inl failed ↦ (let g = rw failed at f in cc)
            | inr (roots, loaded) ↦
                (let g : ok (some roots) ≡ ok found = rw loaded at f in
                  let (known, taken) = load-roots roots loaded in
                  let same : some roots ≡ found = cc in
                  peer roots (peer_verified ∙ ap not asked) (kept ∙ sym same) known taken)
          ])
  ]

  max_version-bound : max_version_of lib c ≤ version_tls12
  max_version-bound = ground arith

  abbrev made : Option Roots → Context
  made found = record {
    min_version = min_version_of lib c;
    max_version = max_version_of lib c;
    verify_peer = not c.insecure_skip_verify;
    roots = found;
  }

  -- A context that is handed out is secured, by the loaded roots unless verification is turned off,
  -- and its highest version is at most TLS 1.2, for which alone the cipher suites of GOST are known.
  pub configured-Secured :
      (ctx : Context) → configured lib c ≡ ok ctx → Secured ctx × (ctx.max_version ≤ version_tls12)
  unfolding configured gost_roots
  configured-Secured ctx e =
      elim (Bool-cases (
        lib.set_min_proto_version (min_version_of lib c)
        && lib.set_max_proto_version (max_version_of lib c))) [
          | inr n ↦ (let f = rw (n, configured) at e in cc)
          | inl y ↦
              (let f = rw (y, configured) at e in
                elim (Bool-cases lib.set_cipher_list) [
                  | inr n ↦ (let g = rw n at f in cc)
                  | inl z ↦
                      (let g = rw z at f in
                        elim (Result-cases (verified lib c)) [
                          | inl failed ↦ (let h = rw failed at g in cc)
                          | inr (found, known) ↦
                              (let h = rw known at g in
                                elim (Result-cases (load_gost_client_certificate lib c)) [
                                  | inl failed ↦ (let k = rw failed at h in cc)
                                  | inr (u, done) ↦
                                      (let k = rw done at h in
                                        let same : made found ≡ ctx = cc in
                                        subst (λ x. Secured x × (x.max_version ≤ version_tls12))
                                          same
                                          (
                                            verified-Secured (made found) found known refl refl,
                                            max_version-bound,
                                          ))
                                ])
                        ])
                ])
        ]
