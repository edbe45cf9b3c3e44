-- ===== src/Config/Reload/Tests.antt =====
-- Runs of reloads, and their theorems at concrete inputs.
use blackbox_exporter_with_g.Common.{
  ℕ, String, ◌≡◌, ◌≢◌, refl, true, false, Option, none, some, [], ◌∷◌, arith, eq_iff, if◌then◌else◌,
  ◌==◌,
}
use blackbox_exporter_with_g.Common.Results.{ok}
use blackbox_exporter_with_g.Common.Text.{Bytes, codes, bytes_eq}
use blackbox_exporter_with_g.Config.Types.{HttpClientConfig, no_tls_config}
use blackbox_exporter_with_g.Config.Defaults.{default_module}
use blackbox_exporter_with_g.Config.Reload.{
  Modules, SafeConfig, new_safe_config, Disk, hide_old_flags, reload_config, reload_all,
}
use blackbox_exporter_with_g.Config.Reload.Served.{
  Serves, IsSettled, reload_config-IsSettled, reload_config-Serves, reload_config_race,
}

-- A hash of two contents, and a decoder of them.
abbrev sample_hash : Bytes → String
sample_hash content = if content == codes "a" then "hash of a" else "hash of b"

abbrev client : HttpClientConfig
client = record {
  tls_config = no_tls_config;
  follow_redirects = true;
  enable_http2 = true;
  proxy_url = none;
  proxy_from_environment = false;
}

abbrev sample_decode : Bytes → Option Modules
sample_decode content =
    if content == codes "a" then some (("http_2xx", default_module client) ∷ []) else some []

abbrev stable : Bytes → ℕ → Disk
stable content now = record { read_file = some content; opened = some content; now = now }

abbrev served_a : SafeConfig
served_a = record {
  c = ("http_2xx", default_module client) ∷ [];
  config_checksum = "hash of a";
  config_reload_success = 1;
  config_reload_seconds = 7;
}

first_load :
    reload_config sample_hash sample_decode new_safe_config (stable (codes "a") 7)
    ≡ (ok tt, served_a)
unfolding reload_config hide_old_flags
first_load = refl

served_a-Serves : Serves sample_hash sample_decode (codes "a") served_a
unfolding hide_old_flags
served_a-Serves = record {
  modules = ("http_2xx", default_module client) ∷ [];
  decoded = refl;
  shown = refl;
  checksum = refl;
}

reload_config-IsSettled_example :
    IsSettled sample_hash sample_decode served_a
      (stable (codes "b") 9)
      (reload_config sample_hash sample_decode served_a (stable (codes "b") 9))
reload_config-IsSettled_example =
    reload_config-IsSettled sample_hash sample_decode served_a (stable (codes "b") 9)

different : ◌≡◌ {A = String} "hash of b" "hash of a" → codes "b" ≡ codes "a"
different e = absurd (ground (arith, e, eq_iff "hash of b" "hash of a"))

reload_b : (reload_config sample_hash sample_decode served_a (stable (codes "b") 9)).0 ≡ ok tt
unfolding reload_config
reload_b = refl

reload_config-Serves_example :
    Serves sample_hash sample_decode
      (codes "b")
      (reload_config sample_hash sample_decode served_a (stable (codes "b") 9)).1
reload_config-Serves_example =
    reload_config-Serves sample_hash sample_decode served_a (stable (codes "b") 9) (codes "a")
      (codes "b") served_a-Serves refl refl different reload_b

abbrev changing : Disk
changing = record { read_file = some (codes "b"); opened = some (codes "a"); now = 9 }

changed : ◌≢◌ {A = String} "hash of b" "hash of a"
changed e = ground (arith, e, eq_iff "hash of b" "hash of a")

-- What is served after the race, and two reloads more.
abbrev raced : SafeConfig
raced =
    reload_all sample_hash sample_decode
      (reload_config sample_hash sample_decode served_a changing).1
      (stable (codes "b") 10 ∷ stable (codes "b") 11 ∷ [])

reload_config_race_example :
    ((reload_config sample_hash sample_decode raced (stable (codes "b") 12)).0 ≡ ok tt)
    × ((reload_config sample_hash sample_decode raced (stable (codes "b") 12)).1.c
        ≡ hide_old_flags (("http_2xx", default_module client) ∷ []))
reload_config_race_example =
    reload_config_race sample_hash sample_decode served_a changing
      (stable (codes "b") 10 ∷ stable (codes "b") 11 ∷ []) (stable (codes "b") 12) (codes "b")
      (codes "a") (("http_2xx", default_module client) ∷ []) refl refl refl changed
      (refl, (refl, tt)) refl
