-- ===== src/Config/Reload.antt =====
-- `SafeConfig` and `ReloadConfig` of config/config.go, with `GenerateChecksum` of config/reload.go.
-- The file is read twice, so its two contents are separate arguments; the decoder and SHA-256 are
-- parameters. The lock is held while the configuration is replaced, so a reload is one step. The
-- warnings that it logs are left out.
pub mod Served
mod Tests
use blackbox_exporter_with_g.Common.{
  ℕ, String, Bool, true, false, Option, none, some, List, [], ◌∷◌, if◌then◌else◌, ◌==◌, string_eq,
}
use blackbox_exporter_with_g.Common.Results.{Result, ok, err, ◌>>=◌, ◌>>◌, or_err}
use blackbox_exporter_with_g.Common.Text.{Bytes}
use blackbox_exporter_with_g.Config.Types.{Module}

-- `Config`, by its map of modules
abbrev pub Modules : Type 0
Modules = List (String × Module)

-- The two gauges are the last two fields.
pub record SafeConfig : Type 0 where
  pub c : Modules
  pub config_checksum : String
  pub config_reload_success : ℕ
  pub config_reload_seconds : ℕ

abbrev pub new_safe_config : SafeConfig
new_safe_config = record {
  c = [];
  config_checksum = "";
  config_reload_success = 0;
  config_reload_seconds = 0;
}

-- What a reload meets: the file as `os.ReadFile` and as `os.Open` find it, and the time.
pub record Disk : Type 0 where
  pub read_file : Option Bytes
  pub opened : Option Bytes
  pub now : ℕ

pub data Failure : Type 0 where
  no_checksum not_opened not_parsed : Failure

-- The loop over the modules: the old flag is hidden.
unfoldable pub hide_old_flags : Modules → Modules
hide_old_flags [] = []
hide_old_flags ((name, m) ∷ modules) =
    (name, record m { http = record m.http { no_follow_redirects = none } })
    ∷ hide_old_flags modules

module _ (sha256_hex : Bytes → String) (decode : Bytes → Option Modules) where
  -- `GenerateChecksum`
  pub generate_checksum : Disk → Result Failure String
  generate_checksum disk = do content ← or_err disk.read_file no_checksum; ok (sha256_hex content)

  -- The body of `ReloadConfig`, with the state that each of its returns leaves.
  attempt : SafeConfig → Disk → Result Failure (Unit {0}) × SafeConfig
  unfolding generate_checksum
  attempt sc disk = elim (generate_checksum disk) [
    | err e ↦ (err e, sc)
    | ok checksum ↦ if checksum == sc.config_checksum then (ok tt, sc) else elim disk.opened [
      | none ↦ (err not_opened, sc)
      | some content ↦ elim (decode content) [
        | none ↦ (err not_parsed, sc)
        | some c ↦ (ok tt, record sc { c = hide_old_flags c; config_checksum = checksum })
      ]
    ]
  ]

  -- The deferred function, which sets the gauges.
  settle : Disk → Result Failure (Unit {0}) × SafeConfig → Result Failure (Unit {0}) × SafeConfig
  settle disk (ok _, sc) =
      (ok tt, record sc { config_reload_success = 1; config_reload_seconds = disk.now })
  settle disk (err e, sc) = (err e, record sc { config_reload_success = 0 })

  unfoldable pub reload_config : SafeConfig → Disk → Result Failure (Unit {0}) × SafeConfig
  unfolding attempt settle
  reload_config sc disk = settle disk (attempt sc disk)

  -- One reload after another, whatever each of them returns.
  unfoldable pub reload_all : SafeConfig → List Disk → SafeConfig
  unfolding reload_config
  reload_all sc [] = sc
  reload_all sc (disk ∷ disks) = reload_all (reload_config sc disk).1 disks
