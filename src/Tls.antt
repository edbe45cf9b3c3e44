-- ===== src/Tls.antt =====
-- prober/tls.go: what is reported of a TLS connection. A `time.Time` is the time since the zero
-- time, so that `IsZero` is a comparison with 0. Of an x509 certificate the record has what the
-- program reads; SHA-256 and the names of the standard cipher suites are parameters.
pub mod Expiry
mod Tests
use blackbox_exporter_with_g.Common.{
  ℕ, ◌+◌, ◌/◌, ◌%◌, String, Bool, true, false, not, ◌&&◌, ◌||◌, Option, none, some, List, [], ◌∷◌,
  ◌++◌, ltb, if◌then◌else◌, ◌==◌, ℕ_eq,
}
use blackbox_exporter_with_g.Common.Text.{Bytes}

pub record Certificate : Type 0 where
  pub not_after : ℕ
  pub raw : Bytes
  pub subject : String
  pub issuer : String
  pub dns_names : List Bytes
  pub serial_number : Bytes

-- `tls.ConnectionState`
pub record ConnectionState : Type 0 where
  pub version : ℕ
  pub cipher_suite : ℕ
  pub negotiated_protocol : String
  pub peer_certificates : List Certificate
  pub verified_chains : List (List Certificate)

-- One round of the loop over certificates.
unfoldable pub earlier : ℕ → ℕ → ℕ
earlier earliest not_after =
    if (earliest == 0 || ltb not_after earliest) && not (not_after == 0)
    then not_after
    else earliest

unfoldable pub earliest_from : ℕ → List Certificate → ℕ
unfolding earlier
earliest_from earliest [] = earliest
earliest_from earliest (cert ∷ certs) = earliest_from (earlier earliest cert.not_after) certs

unfoldable pub get_earliest_cert_expiry : ConnectionState → ℕ
unfolding earliest_from
get_earliest_cert_expiry state = earliest_from 0 state.peer_certificates

-- The loop over chains.
unfoldable pub last_from : ℕ → List (List Certificate) → ℕ
last_from last [] = last
last_from last (chain ∷ chains) =
    let earliest = earliest_from 0 chain in
    last_from (if last == 0 || ltb last earliest then earliest else last) chains

unfoldable pub get_last_chain_expiry : ConnectionState → ℕ
unfolding last_from earliest_from
get_last_chain_expiry state = last_from 0 state.verified_chains

-- `state.PeerCertificates[0]`, `none` where the source panics
abbrev pub leaf : ConnectionState → Option Certificate
leaf state = elim state.peer_certificates [ [] ↦ none | cert ∷ _ ↦ some cert ]

abbrev hex_digit : ℕ → ℕ
hex_digit n = if ltb n 10 then n + b'0' else n + 87

-- `%x` of bytes, and `hex.EncodeToString`
unfoldable pub hex : Bytes → Bytes
hex [] = []
hex (b ∷ bs) = hex_digit (b / 16) ∷ hex_digit (b % 16) ∷ hex bs

-- `strings.Join`
unfoldable pub join : Bytes → List Bytes → Bytes
join sep [] = []
join sep (part ∷ []) = part
join sep (part ∷ parts) = part ++ sep ++ join sep parts

unfoldable pub get_fingerprint : (Bytes → Bytes) → Certificate → Bytes
unfolding hex
get_fingerprint sha256 cert = hex (sha256 cert.raw)

abbrev pub get_subject : Certificate → String
get_subject cert = cert.subject

abbrev pub get_issuer : Certificate → String
get_issuer cert = cert.issuer

unfoldable pub get_dns_names : Certificate → Bytes
unfolding join
get_dns_names cert = join (b',' ∷ []) cert.dns_names

unfoldable pub get_serial_number : Certificate → Bytes
unfolding hex
get_serial_number cert = hex cert.serial_number

abbrev pub version_tls10 : ℕ
version_tls10 = 0x0301

abbrev pub version_tls11 : ℕ
version_tls11 = 0x0302

abbrev pub version_tls12 : ℕ
version_tls12 = 0x0303

abbrev pub version_tls13 : ℕ
version_tls13 = 0x0304

unfoldable pub get_tls_version : ℕ → String
get_tls_version version =
    if version == version_tls10
    then "TLS 1.0"
    else if version == version_tls11
    then "TLS 1.1"
    else if version == version_tls12
    then "TLS 1.2"
    else if version == version_tls13
    then "TLS 1.3"
    else "unknown"

-- `tls.CipherSuiteName` is a parameter.
unfoldable pub get_tls_cipher : (ℕ → String) → ℕ → String
get_tls_cipher cipher_suite_name suite =
    if suite == 0x0081
    then "GOST2001-GOST89-GOST89"
    else if suite == 0xff85
    then "GOST2012-GOST8912-GOST8912"
    else if suite == 0xc100
    then "GOST2012-KUZNYECHIK-KUZNYECHIK"
    else if suite == 0xc101
    then "GOST2012-MAGMA-MAGMA"
    else if suite == 0xfffe
    then "GOST (OpenSSL engine)"
    else cipher_suite_name suite
