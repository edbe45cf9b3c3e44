-- ===== src/Gost/Fallback.antt =====
-- When the GOST backend is asked.
use blackbox_exporter_with_g.Common.{
  String, ◌≡◌, ◌≢◌, ◌↔◌, ◌⊎◌, refl, inl, inr, true, false, [], ◌∷◌, any, arith, Bool-cases,
  string_eq, eq_iff,
}
use blackbox_exporter_with_g.Common.Results.{Result, ok, err}
use blackbox_exporter_with_g.Common.Text.{contains, to_lower}
use blackbox_exporter_with_g.Gost.{
  HandshakeError, markers, should_try_gost, Backend, standard, gost, Trip, after_standard,
  round_trip,
}

-- The error is no verdict on the certificate, and its text has one of the markers in any case.
pub record IsIncompatible (e : HandshakeError) : Type 0 where
  pub known_authority : e.unknown_authority ≡ false
  pub right_host : e.hostname ≡ false
  pub valid : e.certificate_invalid ≡ false
  pub marked : any (λ marker. contains (to_lower e.message) marker) markers ≡ true

should_try_gost_iff : (e : HandshakeError) → (should_try_gost e ≡ true) ↔ IsIncompatible e
unfolding should_try_gost
should_try_gost_iff e = (
  λ h. record {
    known_authority = ground arith;
    right_host = ground arith;
    valid = ground arith;
    marked = ground arith;
  },
  λ i. ground (arith, i.known_authority, i.right_host, i.valid, i.marked),
)

module _ {Response : Type 0} (ask : Backend → String → Result HandshakeError Response) where
  -- The trip after this answer of the standard backend.
  abbrev pub Expected : String → Result HandshakeError Response → Trip Response → Type 0
  Expected scheme (ok response) trip =
      trip ≡ record { outcome = ok response; tried = standard ∷ [] }
  Expected scheme (err e) trip =
      ((scheme ≡ "https")
        → IsIncompatible e
        → trip ≡ record { outcome = ask gost scheme; tried = standard ∷ gost ∷ [] })
      × (((scheme ≢ "https") ⊎ ¬ IsIncompatible e)
          → trip ≡ record { outcome = err e; tried = standard ∷ [] })

  after_standard-Expected :
      (scheme : String) (r : Result HandshakeError Response)
      → Expected scheme r (after_standard ask scheme r)
  unfolding after_standard
  after_standard-Expected scheme (ok response) = refl
  after_standard-Expected scheme (err e) = (
    λ https i. ground (arith, eq_iff scheme "https", (should_try_gost_iff e).1 i),
    λ other. elim (Bool-cases (should_try_gost e)) [
      | inr compatible ↦ ground arith
      | inl incompatible ↦ elim other [
        | inl scheme_differs ↦ ground (arith, eq_iff scheme "https")
        | inr not_i ↦ absurd (not_i ((should_try_gost_iff e).0 incompatible))
      ]
    ],
  )

  -- The GOST backend is asked exactly if the standard one fails, the scheme is https, and the error
  -- is one of incompatibility: no verdict on the certificate, and a text with one of the markers.
  -- The outcome is then that of the GOST backend, and otherwise that of the standard one.
  pub round_trip-Expected :
      (scheme : String) → Expected scheme (ask standard scheme) (round_trip ask scheme)
  unfolding round_trip
  round_trip-Expected scheme = after_standard-Expected scheme (ask standard scheme)
