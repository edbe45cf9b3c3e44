-- ===== src/Gost/Context.antt =====
-- `newGOSTContext` of prober/gost_tls.go, with the roots and the client's certificate. What the calls
-- of the OpenSSL binding and of the file system answer is a parameter; a context that is made is the
-- list of what has been configured.
pub mod Secured
use blackbox_exporter_with_g.Common.{
  ℕ, ◌++◌, ltb, String, Bool, true, false, not, ◌&&◌, ◌||◌, Option, none, some, List, [], ◌∷◌, find,
  if◌then◌else◌, ◌==◌, ℕ_eq, string_eq,
}
use blackbox_exporter_with_g.Common.Results.{Result, ok, err, ◌>>=◌, ◌>>◌, check, or_err}
use blackbox_exporter_with_g.Common.Text.{Bytes, codes, bytes_eq}
use blackbox_exporter_with_g.Config.Types.{TlsConfig}
use blackbox_exporter_with_g.Tls.{version_tls10, version_tls12}

pub data Roots : Type 0 where
  pem : String → Roots
  locations : String → Roots

pub record Binding (Certificate Key : Type 0) : Type 0 where
  pub new_ctx : Bool
  pub set_min_proto_version : ℕ → Bool
  pub set_max_proto_version : ℕ → Bool
  pub set_cipher_list : Bool
  pub load_roots : Roots → Bool
  -- the environment's `SSL_CERT_FILE`, and whether a file can be seen
  pub ssl_cert_file : String
  pub stat : String → Bool
  pub read_file : String → Option Bytes
  pub split_pem : Bytes → List Bytes
  pub load_certificate : Bytes → Option Certificate
  pub use_certificate : Certificate → Bool
  pub add_chain_certificate : Certificate → Bool
  pub load_private_key : Bytes → Option Key
  pub use_private_key : Key → Bool

abbrev pub bundles : List String
bundles = "/etc/pki/tls/certs/ca-bundle.crt" ∷ "/etc/ssl/certs/ca-certificates.crt" ∷ []

-- Whether the peer is verified, and against which roots.
pub record Context : Type 0 where
  pub min_version : ℕ
  pub max_version : ℕ
  pub verify_peer : Bool
  pub roots : Option Roots

abbrev Try : Type 0 → Type 0
Try A = Result (Unit {0}) A

module _ {Certificate Key : Type 0} (lib : Binding Certificate Key) where
  -- Which roots are loaded, `none` for an error.
  unfoldable pub gost_roots : TlsConfig → Option Roots
  gost_roots c =
      if not (c.ca_ref == "")
      then none
      else if not (c.ca == "")
      then some (pem c.ca)
      else if not (c.ca_file == "")
      then some (locations c.ca_file)
      else if not (lib.ssl_cert_file == "")
      then some (locations lib.ssl_cert_file)
      else elim (find lib.stat bundles) [ none ↦ none | some path ↦ some (locations path) ]

  pub load_gost_roots : TlsConfig → Try Roots
  load_gost_roots c = do roots ← or_err (gost_roots c) tt; check (lib.load_roots roots) tt; ok roots

  -- The text itself, or that of the file; neither is no text.
  pub config_bytes : Bytes → String → Try Bytes
  config_bytes inline file =
      if not (inline == [])
      then ok inline
      else if not (file == "")
      then or_err (lib.read_file file) tt
      else ok []

  pub add_chain : List Bytes → Try (Unit {0})
  add_chain [] = ok tt
  add_chain (block ∷ blocks) = do
    cert ← or_err (lib.load_certificate block) tt
    check (lib.add_chain_certificate cert) tt
    add_chain blocks

  pub use_pair : Bytes → List Bytes → Try (Unit {0})
  unfolding add_chain
  use_pair key_pem [] = err tt
  use_pair key_pem (block ∷ blocks) = do
    leaf ← or_err (lib.load_certificate block) tt
    check (lib.use_certificate leaf) tt
    add_chain blocks
    key ← or_err (lib.load_private_key key_pem) tt
    check (lib.use_private_key key) tt

  pub load_gost_client_certificate : TlsConfig → Try (Unit {0})
  unfolding config_bytes use_pair
  load_gost_client_certificate c = do
    check (c.cert_ref == "" && c.key_ref == "") tt
    cert_pem ← config_bytes (codes c.cert) c.cert_file
    if cert_pem == [] then ok tt else do
      key_pem ← config_bytes (codes c.key) c.key_file
      use_pair key_pem (lib.split_pem cert_pem)

  abbrev pub min_version_of : TlsConfig → ℕ
  min_version_of c = if c.min_version == 0 then version_tls10 else c.min_version

  abbrev pub max_version_of : TlsConfig → ℕ
  max_version_of c =
      if not (c.max_version == 0) && ltb c.max_version version_tls12
      then c.max_version
      else version_tls12

  pub verified : TlsConfig → Try (Option Roots)
  unfolding load_gost_roots
  verified c =
      if c.insecure_skip_verify then ok none else (do roots ← load_gost_roots c; ok (some roots))

  -- After the context has been made.
  unfoldable pub configured : TlsConfig → Try Context
  unfolding verified load_gost_client_certificate
  configured c = do
    check
        (lib.set_min_proto_version (min_version_of c)
          && lib.set_max_proto_version (max_version_of c))
        tt
    check lib.set_cipher_list tt
    roots ← verified c
    load_gost_client_certificate c
    ok (record {
      min_version = min_version_of c;
      max_version = max_version_of c;
      verify_peer = not c.insecure_skip_verify;
      roots = roots;
    })
