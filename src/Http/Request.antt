-- ===== src/Http/Request.antt =====
-- What is requested: the target, the server name, the address, the host and the headers.
pub mod Hosts
mod Tests
use blackbox_exporter_with_g.Common.{
  ℕ, ltb, String, Bool, true, false, not, ◌&&◌, ◌||◌, Option, none, some, List, [], ◌∷◌, ◌++◌, drop,
  if◌then◌else◌, ◌==◌,
}
use blackbox_exporter_with_g.Common.Mime.{canonical_key}
use blackbox_exporter_with_g.Common.Net.{has_byte, join_host_port}
use blackbox_exporter_with_g.Common.Text.{Bytes, bytes_eq, codes, has_prefix}
use blackbox_exporter_with_g.Config.Types.{HttpProbe, HttpClientConfig, TlsConfig}

pub with_scheme : Bytes → Bytes
with_scheme target =
    if not (has_prefix target (codes "http://")) && not (has_prefix target (codes "https://"))
    then codes "http://" ++ target
    else target

-- `strings.Replace(target, "http://", "https://", 1)`, of a target that starts with the former
pub to_https : Bytes → Bytes
to_https target = codes "https://" ++ drop 7 target

-- The target that is parsed.
unfoldable pub target_of : Bool → Bytes → Bytes
unfolding with_scheme to_https
target_of use_http3 target =
    let t = with_scheme target in
    if use_http3 && has_prefix t (codes "http://") then to_https t else t

unfoldable pub should_resolve_dns_with_proxy : HttpProbe → Bool
should_resolve_dns_with_proxy c =
    let proxy_set =
      elim c.http_client_config.proxy_url [ none ↦ false | some url ↦ true ]
      || c.http_client_config.proxy_from_environment in
    not c.skip_resolve_phase_with_proxy || not proxy_set

-- The loop over the headers that looks for the host: the last one in the order of the map counts.
pub host_of : Bytes → List (String × Bytes) → Bytes
host_of host [] = host
host_of host ((key, value) ∷ headers) =
    host_of (if canonical_key (codes key) == codes "Host" then value else host) headers

-- `httpClientConfig.TLSConfig.ServerName`, of the configuration and of the target's host
unfoldable pub server_name : Bytes → List (String × Bytes) → Bytes → Bytes
unfolding host_of
server_name [] headers target_host = host_of target_host headers
server_name (c ∷ name) headers target_host = c ∷ name

-- The host of the URL that is dialled, from the text of the resolved address, if there is one.
unfoldable pub url_host : Bool → Option Bytes → Bytes → Bytes → Bytes
url_host use_http3 none orig_host port = orig_host
url_host true (some ip) orig_host port = orig_host
url_host false (some ip) orig_host [] =
    if has_byte b':' ip then codes "[" ++ ip ++ codes "]" else ip
url_host false (some ip) orig_host (c ∷ port) = join_host_port ip (c ∷ port)

-- `http.Header.Set`
pub put : List (Bytes × Bytes) → Bytes → Bytes → List (Bytes × Bytes)
put [] key value = (key, value) ∷ []
put ((k, v) ∷ headers) key value =
    let rest = put headers key value in if k == key then (key, value) ∷ headers else (k, v) ∷ rest

-- The other headers of the request.
pub sent : List (Bytes × Bytes) → List (String × Bytes) → List (Bytes × Bytes)
unfolding put
sent headers [] = headers
sent headers ((key, value) ∷ rest) =
    if canonical_key (codes key) == codes "Host"
    then sent headers rest
    else sent (put headers (canonical_key (codes key)) value) rest

pub has_key : Bytes → List (Bytes × Bytes) → Bool
has_key key [] = false
has_key key ((k, v) ∷ headers) = k == key || has_key key headers

unfoldable pub request_headers : Bytes → List (String × Bytes) → List (Bytes × Bytes)
unfolding sent has_key put
request_headers user_agent headers =
    let h = sent [] headers in
    if not (has_key (codes "User-Agent") h) then put h (codes "User-Agent") user_agent else h

-- `request.Host`
unfoldable pub request_host : Bytes → List (String × Bytes) → Bytes
unfolding host_of
request_host orig_host headers = host_of orig_host headers

-- `client.CheckRedirect`: the number of redirects so far, and whether to follow this one.
unfoldable pub check_redirect : Bool → ℕ → ℕ × Bool
check_redirect follow_redirects via = (via, not (ltb 10 via || not follow_redirects))
