-- ===== src/Gost/State.antt =====
-- The connection state of the GOST backend, and its tables of versions and cipher suites.
pub mod Names
use Prim.Native.Nat.{ℕ}
use blackbox_exporter_with_g.Common.{
  String, Bool, true, false, ◌||◌, Option, none, some, List, [], ◌∷◌, ◌++◌, if◌then◌else◌, ◌==◌,
  string_eq,
}
use blackbox_exporter_with_g.Common.Text.{Bytes, bytes_eq, codes, to_upper}
use blackbox_exporter_with_g.Tls.{
  Certificate, ConnectionState, version_tls10, version_tls11, version_tls12, version_tls13,
}

unfoldable pub openssl_tls_version : String → ℕ
openssl_tls_version v =
    if v == "TLSv1" || v == "TLSv1.0"
    then version_tls10
    else if v == "TLSv1.1"
    then version_tls11
    else if v == "TLSv1.2"
    then version_tls12
    else if v == "TLSv1.3"
    then version_tls13
    else 0

unfoldable pub gost_cipher_id : Bytes → ℕ
gost_cipher_id name =
    if to_upper name == codes "GOST2001-GOST89-GOST89"
    then 0x0081
    else if to_upper name == codes "GOST2012-GOST8912-GOST8912"
    then 0xff85
    else if to_upper name == codes "GOST2012-KUZNYECHIK-KUZNYECHIK"
    then 0xc100
    else if to_upper name == codes "GOST2012-MAGMA-MAGMA"
    then 0xc101
    else 0xfffe

-- What `opensslConnectionState` asks of a connection; `none` is an error. A certificate is what its
-- PEM form parses to, `none` where it does not.
pub record Connection : Type 0 where
  pub get_version : String
  pub alpn_negotiated : String
  pub current_cipher : Option Bytes
  pub peer_certificate_chain : List (Option Certificate)
  pub peer_certificate : Option (Option Certificate)

-- The loop over the certificates: those that do not parse are left out.
parsed : List (Option Certificate) → List Certificate
parsed [] = []
parsed (none ∷ certs) = parsed certs
parsed (some cert ∷ certs) = cert ∷ parsed certs

unfoldable pub openssl_connection_state : Connection → ConnectionState
unfolding parsed openssl_tls_version gost_cipher_id
openssl_connection_state conn =
    let certs : List (Option Certificate) = elim conn.peer_certificate [
      | none ↦ conn.peer_certificate_chain
      | some peer ↦ peer ∷ conn.peer_certificate_chain
    ] in
    let peers = parsed certs in
    record {
      version = openssl_tls_version conn.get_version;
      cipher_suite = elim conn.current_cipher [ none ↦ 0xfffe | some name ↦ gost_cipher_id name ];
      negotiated_protocol = conn.alpn_negotiated;
      peer_certificates = peers;
      verified_chains = elim peers [ [] ↦ [] | cert ∷ certs ↦ (cert ∷ certs) ∷ [] ];
    }
