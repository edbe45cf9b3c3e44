-- ===== src/Http/Request/Hosts.antt =====
-- The scheme, the host and the headers that are sent.
use blackbox_exporter_with_g.Common.{
  String, ◌≡◌, ap, refl, inl, inr, Bool, true, ◌&&◌, ◌||◌, List, [], ◌∷◌, arith, All, All-In, In,
  here, later, if◌then◌else◌, ◌==◌, Bool-cases,
}
use blackbox_exporter_with_g.Common.Mime.{canonical_key}
use blackbox_exporter_with_g.Common.Results.{ok}
use blackbox_exporter_with_g.Common.Text.{Bytes, bytes_eq, bytes_beq_iff, codes, has_prefix}
use blackbox_exporter_with_g.Config.Types.{Module}
use blackbox_exporter_with_g.Handler.{set_http_host}
use blackbox_exporter_with_g.Handler.Hostname.{HostIs, set_http_host-IsHosted}
use blackbox_exporter_with_g.Http.Request.{
  with_scheme, to_https, target_of, host_of, server_name, request_host,
}

host_of-kept :
    (hostname : Bytes) (headers : List (String × Bytes))
    → All (HostIs hostname) headers
    → host_of hostname headers ≡ hostname
unfolding host_of
host_of-kept hostname [] a = refl
host_of-kept hostname ((key, value) ∷ headers) a =
    elim (Bool-cases (canonical_key (codes key) == codes "Host")) [
      | inl e ↦
          (let same : value ≡ hostname = a.0 ((bytes_beq_iff _ _).0 e) in
            rw (e, same) (host_of-kept hostname headers a.1))
      | inr e ↦ rw e (host_of-kept hostname headers a.1)
    ]

host_of-present :
    (hostname host : Bytes) (headers : List (String × Bytes))
    → All (HostIs hostname) headers
    → In ("Host", hostname) headers
    → host_of host headers ≡ hostname
unfolding host_of canonical_key
host_of-present hostname host [] a i = elim i [ ]
host_of-present hostname host ((key, value) ∷ headers) a (here e) =
    let name : key ≡ "Host" = ap (λ p. p.0) e in
    let same : value ≡ hostname = ap (λ p. p.1) e in
    rw (name, same) (host_of-kept hostname headers a.1)
host_of-present hostname host ((key, value) ∷ headers) a (later i) =
    host_of-present hostname (if canonical_key (codes key) == codes "Host" then value else host)
      headers a.1 i

-- What one walk over a map yields: its entries, in any order.
abbrev pub IsWalkOf : List (String × Bytes) → List (String × Bytes) → Type 0
IsWalkOf headers walked =
    (h : String × Bytes) → (In h headers → In h walked) × (In h walked → In h headers)

In-All : {A : Type 0} (P : A → Type 0) (xs : List A) → ((x : A) → In x xs → P x) → All P xs
In-All P [] f = tt
In-All P (x ∷ xs) f = (f x (here refl), In-All P xs (λ y i. f y (later i)))

-- The parameter `hostname` of a request, once it is accepted, is the host of the request that the
-- HTTP probe sends, in whatever order its map of headers is walked; and it is the
-- server name of its TLS handshake, if the module has none of its own.
pub set_http_host-request_host :
    (hostname orig_host : Bytes) (m after : Module) (walked : List (String × Bytes))
    → set_http_host hostname m ≡ ok after
    → IsWalkOf after.http.headers walked
    → (request_host orig_host walked ≡ hostname) × (server_name [] walked orig_host ≡ hostname)
unfolding request_host server_name
set_http_host-request_host hostname orig_host m after walked h p =
    let i = set_http_host-IsHosted hostname m after h in
    let same =
      host_of-present hostname orig_host walked
        (In-All (HostIs hostname) walked λ x m. All-In (HostIs hostname) i.agrees ((p x).1 m))
        ((p _).0 i.present) in
    (same, same)

with_scheme-prefix :
    (target : Bytes)
    → (has_prefix (with_scheme target) (codes "http://")
        || has_prefix (with_scheme target) (codes "https://"))
      ≡ true
unfolding with_scheme
with_scheme-prefix target = ground arith

-- The URL that is parsed has one of the two schemes, and with HTTP/3 it has the secure one.
pub target_of-scheme :
    (use_http3 : Bool) (target : Bytes)
    → ((has_prefix (target_of use_http3 target) (codes "http://")
          || has_prefix (target_of use_http3 target) (codes "https://"))
        ≡ true)
      × (use_http3 ≡ true → has_prefix (target_of use_http3 target) (codes "https://") ≡ true)
unfolding target_of to_https
target_of-scheme use_http3 target =
    let a = with_scheme-prefix target in
    elim (Bool-cases (use_http3 && has_prefix (with_scheme target) (codes "http://"))) [
      | inl e ↦ rw e (refl, λ _. refl)
      | inr e ↦ rw e (a, λ h. ground arith)
    ]
