-- ===== src/Server/Startup.antt =====
-- The part of `run` before the server listens: it exits, or serves the configuration under a prefix.
use mathlib.Core.Path.{subst}
use blackbox_exporter_with_g.Common.{
  ℕ, String, ◌≡◌, ap, inl, inr, Bool, false, ◌&&◌, Option, none, some, List, [], ◌∷◌, if◌then◌else◌,
  ◌==◌, Bool-cases,
}
use blackbox_exporter_with_g.Common.Results.{Result, ok, err}
use blackbox_exporter_with_g.Common.Text.{Bytes, bytes_eq}
use blackbox_exporter_with_g.Config.Reload.{
  Modules, SafeConfig, Disk, Failure, new_safe_config, reload_config,
}
use blackbox_exporter_with_g.Server.{Url, compute_external_url, route_prefix}
use blackbox_exporter_with_g.Server.Prefix.{
  IsPath, compute_external_url-IsPath, IsPrefix, route_prefix-IsPrefix,
}

pub record Flags : Type 0 where
  pub config_check : Bool
  pub external_url : Bytes
  pub web_systemd_socket : Bool
  pub web_listen_addresses : List Bytes
  pub route_prefix : Bytes

-- An exit with a code, an index out of range, or what is served.
pub data Start (R : Type 0) : Type 0 where
  exited : ℕ → Start R
  crashed : Start R
  serving : SafeConfig → Url R → Bytes → Start R

module _ {R : Type 0} (hostname : Option Bytes) (parse : Bytes → Option (Url R)) where
  pub routed : Flags → SafeConfig → Option (Url R) → Start R
  routed flags sc none = exited 1
  routed flags sc (some eu) = serving sc eu (route_prefix flags.route_prefix eu.path)

  pub located : Flags → SafeConfig → List Bytes → Start R
  unfolding routed
  located flags sc [] = crashed
  located flags sc (addr ∷ addrs) =
      routed flags sc (compute_external_url hostname parse flags.external_url addr)

  pub loaded : Flags → Result Failure (Unit {0}) × SafeConfig → Start R
  unfolding located
  loaded flags (err e, sc) = exited 1
  loaded flags (ok u, sc) =
      if flags.config_check
      then exited 0
      else if flags.external_url == [] && flags.web_systemd_socket
      then exited 1
      else located flags sc flags.web_listen_addresses

  module _ (sha256_hex : Bytes → String) (decode : Bytes → Option Modules) where
    unfoldable pub startup : Flags → Disk → Start R
    unfolding loaded
    startup flags disk = loaded flags (reload_config sha256_hex decode new_safe_config disk)

  -- What is served, after a reload.
  pub record IsServed (flags : Flags) (r : Result Failure (Unit {0}) × SafeConfig) (sc : SafeConfig)
      (eu : Url R) (prefix : Bytes) : Type 0 where
    pub loads : r ≡ (ok tt, sc)
    pub unchecked : flags.config_check ≡ false
    pub path : IsPath eu.path
    pub bounded : IsPrefix prefix

  routed-serving :
      (flags : Flags) (s sc : SafeConfig) (found : Option (Url R)) (eu : Url R) (prefix : Bytes)
      → ((url : Url R) → found ≡ some url → IsPath url.path)
      → routed flags s found ≡ serving sc eu prefix
      → (s ≡ sc) × IsPath eu.path × IsPrefix prefix
  unfolding routed
  routed-serving flags s sc none eu prefix h e = cc
  routed-serving flags s sc (some url) eu prefix h e =
      let same : url ≡ eu = cc in
      let p : route_prefix flags.route_prefix url.path ≡ prefix = cc in
      (
        cc,
        h eu (ap some same),
        subst IsPrefix p (route_prefix-IsPrefix flags.route_prefix url.path),
      )

  located-serving :
      (flags : Flags) (s sc : SafeConfig) (addrs : List Bytes) (eu : Url R) (prefix : Bytes)
      → located flags s addrs ≡ serving sc eu prefix
      → (s ≡ sc) × IsPath eu.path × IsPrefix prefix
  unfolding located
  located-serving flags s sc [] eu prefix e = cc
  located-serving flags s sc (addr ∷ addrs) eu prefix e =
      routed-serving flags s sc (compute_external_url hostname parse flags.external_url addr) eu
        prefix
        (λ url known. compute_external_url-IsPath hostname parse flags.external_url addr url known)
        e

  loaded-IsServed :
      (flags : Flags) (r : Result Failure (Unit {0}) × SafeConfig) (sc : SafeConfig) (eu : Url R)
      (prefix : Bytes)
      → loaded flags r ≡ serving sc eu prefix
      → IsServed flags r sc eu prefix
  unfolding loaded
  loaded-IsServed flags (err x, s) sc eu prefix e = cc
  loaded-IsServed flags (ok u, s) sc eu prefix e = elim (Bool-cases flags.config_check) [
    | inl check ↦ (let f = rw (check, loaded) at e in cc)
    | inr no_check ↦
        (let f = rw (no_check, loaded) at e in
          elim (Bool-cases (flags.external_url == [] && flags.web_systemd_socket)) [
            | inl unknown ↦ (let g = rw unknown at f in cc)
            | inr known ↦
                (let (same, path, bounded) =
                    located-serving flags s sc flags.web_listen_addresses eu prefix
                      (rw known at f) in
                  record {
                    loads = ap (λ (w : SafeConfig). (ok tt, w)) same;
                    unchecked = no_check;
                    path = path;
                    bounded = bounded;
                  })
          ])
  ]

  module _ (sha256_hex : Bytes → String) (decode : Bytes → Option Modules) where
    -- The server only serves a configuration that has been loaded without an error, not when it is
    -- asked to check it, under an external URL whose path is empty or starts with a slash, and ends
    -- with none, and a prefix that is one slash or a text between two slashes.
    pub startup-IsServed :
        (flags : Flags) (disk : Disk) (sc : SafeConfig) (eu : Url R) (prefix : Bytes)
        → startup sha256_hex decode flags disk ≡ serving sc eu prefix
        → IsServed flags (reload_config sha256_hex decode new_safe_config disk) sc eu prefix
    unfolding startup
    startup-IsServed flags disk sc eu prefix e =
        loaded-IsServed flags (reload_config sha256_hex decode new_safe_config disk) sc eu prefix e
