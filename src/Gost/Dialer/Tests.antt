-- ===== src/Gost/Dialer/Tests.antt =====
-- A dial of the GOST backend, and the theorems at concrete inputs.
use blackbox_exporter_with_g.Common.{ℕ, ◌≡◌, refl, true, false, none, some, [], ◌==◌, string_eq}
use blackbox_exporter_with_g.Common.Net.{split_host_port}
use blackbox_exporter_with_g.Common.Text.{codes}
use blackbox_exporter_with_g.Common.Trace.{next, stop}
use blackbox_exporter_with_g.Config.Types.{TlsConfig, no_tls_config}
use blackbox_exporter_with_g.Gost.Context.{Binding, Context, locations, configured, gost_roots}
use blackbox_exporter_with_g.Gost.Dialer.{Library, gost_dial}
use blackbox_exporter_with_g.Gost.Dialer.Released.{nothing, everything, after, gost_dial-released}
use blackbox_exporter_with_g.Gost.Dialer.Verified.{Trusted, gost_dial-Trusted}

abbrev binding : Binding ℕ ℕ
binding = record {
  new_ctx = true;
  set_min_proto_version = λ v. true;
  set_max_proto_version = λ v. true;
  set_cipher_list = true;
  load_roots = λ roots. true;
  ssl_cert_file = "";
  stat = λ path. path == "/etc/ssl/certs/ca-certificates.crt";
  read_file = λ path. none;
  split_pem = λ pem. [];
  load_certificate = λ block. none;
  use_certificate = λ cert. true;
  add_chain_certificate = λ cert. true;
  load_private_key = λ pem. none;
  use_private_key = λ key. true;
}

abbrev library : Library ℕ ℕ
library = record {
  binding = binding;
  dial = λ address. true;
  client = λ ctx. true;
  parses_as_ip = λ name. false;
  set_tls_ext_host_name = λ name. true;
  shake = λ ctx. true;
  verify = λ name. true;
}

abbrev context : Context
context = record {
  min_version = 0x0301;
  max_version = 0x0303;
  verify_peer = true;
  roots = some (locations "/etc/ssl/certs/ca-certificates.crt");
}

dial_succeeds : (gost_dial library no_tls_config (codes "host:443")).exit ≡ next context
unfolding gost_dial configured gost_roots split_host_port
dial_succeeds = refl

-- The key is missing, so the context and the socket are closed again.
abbrev without_key : TlsConfig
without_key = record no_tls_config { cert = "pem" }

no_key_fails : (gost_dial library without_key (codes "host:443")).exit ≡ stop tt
unfolding gost_dial configured gost_roots
no_key_fails = refl

gost_dial-released_example :
    ((gost_dial library without_key (codes "host:443")).exit ≡ stop tt
      → after (gost_dial library without_key (codes "host:443")).events nothing ≡ nothing)
    × ((ctx : Context)
        → (gost_dial library without_key (codes "host:443")).exit ≡ next ctx
        → after (gost_dial library without_key (codes "host:443")).events nothing ≡ everything)
gost_dial-released_example = gost_dial-released library without_key (codes "host:443")

gost_dial-Trusted_example : Trusted library no_tls_config (codes "host:443") context
gost_dial-Trusted_example =
    gost_dial-Trusted library no_tls_config (codes "host:443") context dial_succeeds
