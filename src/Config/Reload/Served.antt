-- ===== src/Config/Reload/Served.antt =====
-- Which configuration is served after reloads.
use text.Mathlib.TextPositions.{eq_refl}
use blackbox_exporter_with_g.Common.{
  String, ◌≡◌, ◌≢◌, refl, sym, ap, ◌∙◌, true, false, Option, some, List, [], ◌∷◌, All, arith, inl,
  inr, Bool-cases, Option-cases, ◌==◌, string_eq, eq_iff,
}
use blackbox_exporter_with_g.Common.Results.{Result, ok, err}
use blackbox_exporter_with_g.Common.Text.{Bytes}
use blackbox_exporter_with_g.Config.Reload.{
  Modules, SafeConfig, Disk, Failure, hide_old_flags, generate_checksum, attempt, settle,
  reload_config, reload_all,
}

module _ (sha256_hex : Bytes → String) (decode : Bytes → Option Modules) where
  -- The served configuration is that of a file with this content.
  pub record Serves (content : Bytes) (sc : SafeConfig) : Type 0 where
    pub modules : Modules
    pub decoded : decode content ≡ some modules
    pub shown : sc.c ≡ hide_old_flags modules
    pub checksum : sc.config_checksum ≡ sha256_hex content

  -- The gauges and the configuration after a reload with this outcome.
  abbrev pub IsSettled : SafeConfig → Disk → Result Failure (Unit {0}) × SafeConfig → Type 0
  IsSettled sc disk (ok _, after) =
      (after.config_reload_success ≡ 1) × (after.config_reload_seconds ≡ disk.now)
  IsSettled sc disk (err _, after) = after ≡ record sc { config_reload_success = 0 }

  attempt-keeps :
      (sc : SafeConfig) (disk : Disk) (e : Failure)
      → (attempt sha256_hex decode sc disk).0 ≡ err e
      → (attempt sha256_hex decode sc disk).1 ≡ sc
  unfolding attempt generate_checksum
  attempt-keeps sc disk e h = ground arith

  settle-IsSettled :
      (sc : SafeConfig) (disk : Disk) (r : Result Failure (Unit {0}) × SafeConfig)
      → ((e : Failure) → r.0 ≡ err e → r.1 ≡ sc)
      → IsSettled sc disk (settle sha256_hex decode disk r)
  unfolding settle
  settle-IsSettled sc disk (ok _, after) h = (refl, refl)
  settle-IsSettled sc disk (err e, after) h = rw (h e refl) refl

  -- A reload that fails, at whichever of its returns, leaves the configuration, its checksum and the
  -- time of the last success, and sets the success gauge to 0; one that succeeds sets that gauge to 1
  -- and the time to now.
  pub reload_config-IsSettled :
      (sc : SafeConfig) (disk : Disk) → IsSettled sc disk (reload_config sha256_hex decode sc disk)
  unfolding reload_config
  reload_config-IsSettled sc disk =
      settle-IsSettled sc disk (attempt sha256_hex decode sc disk) (attempt-keeps sc disk)

  -- A reload of a file that is not changed meanwhile, and that is not taken for the old one by a
  -- collision of checksums, serves the content of the file if it succeeds.
  pub reload_config-Serves :
      (sc : SafeConfig) (disk : Disk) (old content : Bytes)
      → Serves old sc
      → disk.read_file ≡ some content
      → disk.opened ≡ some content
      → (sha256_hex content ≡ sha256_hex old → content ≡ old)
      → (reload_config sha256_hex decode sc disk).0 ≡ ok tt
      → Serves content (reload_config sha256_hex decode sc disk).1
  unfolding reload_config
  reload_config-Serves sc disk old content s r o collision e =
      elim (Bool-cases (sha256_hex content == sc.config_checksum)) [
        | inl same ↦
            let hashes = (eq_iff (sha256_hex content) sc.config_checksum).0 same in
            let known = collision (hashes ∙ s.checksum) in
            rw (r, same)
              (record {
                modules = s.modules;
                decoded = ap decode known ∙ s.decoded;
                shown = s.shown;
                checksum = sym hashes;
              })
        | inr changed ↦ elim (Option-cases (decode content)) [
          | inl broken ↦ cc (rw (r, changed, o, broken) at e)
          | inr (modules, decoded) ↦
              rw (r, changed, o, decoded)
                (record { modules = modules; decoded = decoded; shown = refl; checksum = refl })
        ]
      ]

  -- What is shown is of one content, under the checksum of another.
  abbrev IsMixed : Bytes → Modules → SafeConfig → Type 0
  IsMixed first modules sc =
      (sc.config_checksum ≡ sha256_hex first) × (sc.c ≡ hide_old_flags modules)

  reload_config-IsMixed :
      (first : Bytes) (modules : Modules) (sc : SafeConfig) (later : Disk)
      → IsMixed first modules sc
      → later.read_file ≡ some first
      → ((reload_config sha256_hex decode sc later).0 ≡ ok tt)
        × IsMixed first modules (reload_config sha256_hex decode sc later).1
  unfolding reload_config
  reload_config-IsMixed first modules sc later (sum, shown) again =
      let same : (sha256_hex first == sc.config_checksum) ≡ true =
        rw sum (eq_refl (sha256_hex first)) in
      rw (again, same) (refl, (sum, shown))

  reload_all-IsMixed :
      (first : Bytes) (modules : Modules) (sc : SafeConfig) (laters : List Disk)
      → IsMixed first modules sc
      → All (λ later. later.read_file ≡ some first) laters
      → IsMixed first modules (reload_all sha256_hex decode sc laters)
  unfolding reload_all
  reload_all-IsMixed first modules sc [] h a = h
  reload_all-IsMixed first modules sc (later ∷ laters) h a =
      reload_all-IsMixed first modules (reload_config sha256_hex decode sc later).1 laters
        (reload_config-IsMixed first modules sc later h a.0).1 a.1

  raced-IsMixed :
      (sc : SafeConfig) (disk : Disk) (first second : Bytes) (modules : Modules)
      → disk.read_file ≡ some first
      → disk.opened ≡ some second
      → decode second ≡ some modules
      → sha256_hex first ≢ sc.config_checksum
      → IsMixed first modules (reload_config sha256_hex decode sc disk).1
  unfolding reload_config
  raced-IsMixed sc disk first second modules r o d changed =
      let fresh : (sha256_hex first == sc.config_checksum) ≡ false =
        ground (arith, eq_iff (sha256_hex first) sc.config_checksum) in
      rw (r, fresh, o, d) (refl, refl)

  -- The file is read twice. If it changes from `first` to `second` between the two reads of a reload,
  -- and every later reload finds `first` again, then after any number of them the next one succeeds,
  -- and the configuration that is served is still that of `second`.
  pub reload_config_race :
      (sc : SafeConfig) (disk : Disk) (laters : List Disk) (next : Disk) (first second : Bytes)
      (modules : Modules)
      → disk.read_file ≡ some first
      → disk.opened ≡ some second
      → decode second ≡ some modules
      → sha256_hex first ≢ sc.config_checksum
      → All (λ later. later.read_file ≡ some first) laters
      → next.read_file ≡ some first
      → let after =
          reload_all sha256_hex decode (reload_config sha256_hex decode sc disk).1 laters in
        ((reload_config sha256_hex decode after next).0 ≡ ok tt)
        × ((reload_config sha256_hex decode after next).1.c ≡ hide_old_flags modules)
  reload_config_race sc disk laters next first second modules r o d changed again n =
      let mixed = raced-IsMixed sc disk first second modules r o d changed in
      let kept = reload_all-IsMixed first modules _ laters mixed again in
      let (answered, still) = reload_config-IsMixed first modules _ next kept n in
      (answered, still.1)
