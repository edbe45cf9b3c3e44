-- ===== src/Gost/State/Names.antt =====
-- What is reported of a connection of the GOST backend.
use blackbox_exporter_with_g.Common.{
  ℕ, String, ◌≡◌, sym, inl, inr, List, [], ◌∷◌, any, Bool-cases, if◌then◌else◌, ◌==◌, string_eq,
}
use blackbox_exporter_with_g.Common.Text.{Bytes, bytes_eq, bytes_beq_iff, codes, to_upper}
use blackbox_exporter_with_g.Tls.{get_tls_cipher}
use blackbox_exporter_with_g.Gost.State.{gost_cipher_id}

abbrev pub gost_suites : List Bytes
gost_suites =
    codes "GOST2001-GOST89-GOST89"
    ∷ codes "GOST2012-GOST8912-GOST8912"
    ∷ codes "GOST2012-KUZNYECHIK-KUZNYECHIK"
    ∷ codes "GOST2012-MAGMA-MAGMA"
    ∷ []

-- A cipher of the GOST backend is reported under its name, in capitals, if it is one of the four
-- suites, and as that of an engine if it is not; never under the name of a standard suite.
pub get_tls_cipher-gost_cipher_id :
    (cipher_suite_name : ℕ → String) (name : Bytes)
    → codes (get_tls_cipher cipher_suite_name (gost_cipher_id name)) ≡ (
        if any (λ suite. to_upper name == suite) gost_suites
        then to_upper name
        else codes "GOST (OpenSSL engine)")
unfolding get_tls_cipher gost_cipher_id
get_tls_cipher-gost_cipher_id cipher_suite_name name =
    elim (Bool-cases (to_upper name == codes "GOST2001-GOST89-GOST89")) [
      | inl a ↦ rw a (sym ((bytes_beq_iff _ _).0 a))
      | inr not_a ↦ elim (Bool-cases (to_upper name == codes "GOST2012-GOST8912-GOST8912")) [
        | inl b ↦ rw (not_a, b) (sym ((bytes_beq_iff _ _).0 b))
        | inr not_b ↦ elim (Bool-cases (to_upper name == codes "GOST2012-KUZNYECHIK-KUZNYECHIK")) [
          | inl c ↦ rw (not_a, not_b, c) (sym ((bytes_beq_iff _ _).0 c))
          | inr not_c ↦ elim (Bool-cases (to_upper name == codes "GOST2012-MAGMA-MAGMA")) [
            | inl d ↦ rw (not_a, not_b, not_c, d) (sym ((bytes_beq_iff _ _).0 d))
            | inr not_d ↦ rw (not_a, not_b, not_c, not_d)
          ]
        ]
      ]
    ]
