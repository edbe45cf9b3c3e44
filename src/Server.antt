-- ===== src/Server.antt =====
-- main.go: the external URL and the prefix of the routes, the pages on the history, and the goroutine
-- that reloads the configuration. The flags are arguments; the URL parser and the host's name are
-- parameters.
pub mod Prefix
pub mod Logs
pub mod Reloader
pub mod Startup
mod Tests
use blackbox_exporter_with_g.Common.{
  ℕ, String, Bool, true, false, not, ◌&&◌, ◌||◌, Option, none, some, List, [], ◌∷◌, ◌++◌,
  if◌then◌else◌, ◌==◌,
}
use blackbox_exporter_with_g.Common.Net.{split_host_port}
use blackbox_exporter_with_g.Common.Text.{
  Bytes, codes, bytes_eq, has_prefix, has_suffix, is_slash, trim, trim_right,
}

-- A `url.URL`: its path, and the rest.
pub record Url (R : Type 0) : Type 0 where
  pub path : Bytes
  pub rest : R

unfoldable pub starts_or_ends_with_quote : Bytes → Bool
starts_or_ends_with_quote s =
    has_prefix s (codes "\"")
    || has_prefix s (codes "'")
    || has_suffix s (codes "\"")
    || has_suffix s (codes "'")

-- No slash at the end, and one at the beginning unless it is empty.
pub sanitized : Bytes → Bytes
sanitized path =
    let ppref = trim_right is_slash path in
    if not (ppref == []) && not (has_prefix ppref (codes "/")) then codes "/" ++ ppref else ppref

module _ {R : Type 0} (hostname : Option Bytes) (parse : Bytes → Option (Url R)) where
  -- The URL of the host and of the port that is listened on, if no other is given.
  pub inferred : Bytes → Bytes → Option Bytes
  inferred u listen_addr =
      if u == []
      then elim hostname [
        | none ↦ none
        | some name ↦ elim (split_host_port listen_addr) [
          | none ↦ none
          | some (host, port) ↦ some (codes "http://" ++ name ++ b':' ∷ (port ++ codes "/"))
        ]
      ]
      else some u

  pub parsed : Bytes → Option (Url R)
  unfolding sanitized
  parsed u =
      if starts_or_ends_with_quote u
      then none
      else elim (parse u) [ none ↦ none | some eu ↦ some (record eu { path = sanitized eu.path }) ]

  unfoldable pub compute_external_url : Bytes → Bytes → Option (Url R)
  unfolding inferred parsed
  compute_external_url u listen_addr = elim (inferred u listen_addr) [
    | none ↦ none
    | some v ↦ parsed v
  ]

-- The prefix of the routes: by its flag, or else by the path of the external URL.
unfoldable pub route_prefix : Bytes → Bytes → Bytes
route_prefix flag path =
    let p = codes "/" ++ trim is_slash (if flag == [] then path else flag) in
    if p == codes "/" then p else p ++ codes "/"
