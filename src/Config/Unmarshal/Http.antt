-- ===== src/Config/Unmarshal/Http.antt =====
-- What an accepted HTTP module is.
use mathlib.Core.Path.{subst}
use blackbox_exporter_with_g.Common.{
  suc, ◌+◌, ltb, nat_eq, ◌≤◌, ◌-◌, ◌^◌, String, ◌≡◌, ◌⊎◌, Bool, true, false, not, ◌||◌, Option,
  some, List, [], ◌∷◌, arith, any, All, ◌==◌, string_eq, eq_iff, inl, inr, Option-cases, Bool-cases,
}
use blackbox_exporter_with_g.Common.Int.{ℤ, pos, negsuc}
use blackbox_exporter_with_g.Common.Mime.{canonical_key}
use blackbox_exporter_with_g.Common.Results.{ok}
use blackbox_exporter_with_g.Common.Text.{Bytes, codes, bytes_eq, bytes_beq_iff}
use blackbox_exporter_with_g.Config.Types.{HttpClientConfig, HttpProbe}
use blackbox_exporter_with_g.Config.Defaults.{default_http_probe}
use blackbox_exporter_with_g.Config.Unmarshal.{
  limited, with_redirects, headers_ok, configured, checks, validate_http, unmarshal_http,
}

-- A limit that an `int64` can hold.
abbrev pub IsInt64 : ℤ → Type 0
IsInt64 (pos n) = n ≤ 2 ^ 63 - 1
IsInt64 (negsuc n) = n ≤ 2 ^ 63 - 1

-- A limit to which one can be added: not negative and less than the largest `int64`.
abbrev pub HasRoom : ℤ → Type 0
HasRoom (pos n) = n ≤ 2 ^ 63 - 2
HasRoom (negsuc n) = ⊥

limited-HasRoom : (limit : ℤ) → IsInt64 limit → HasRoom (limited limit)
limited-HasRoom (pos n) h =
    let nonneg : ltb (n + 0) 0 ≡ false = ground arith in
    elim (Bool-cases (nat_eq n (2 ^ 63 - 1))) [
      | inl largest ↦ rw (nonneg, largest) (omega arith)
      | inr smaller ↦ rw (nonneg, smaller) (ground arith)
    ]
limited-HasRoom (negsuc n) h =
    let negative : ltb 0 (0 + suc n) ≡ true = ground arith in rw negative (omega arith)

module _ (encoding_ok : Bytes → Bytes → Bool) where
  -- Each `Accept-Encoding` header fits the compression.
  abbrev pub EncodingsFit : String → List (String × Bytes) → Type 0
  EncodingsFit compression headers =
      All
        (λ h.
          canonical_key (codes h.0) ≡ codes "Accept-Encoding"
          → encoding_ok (codes compression) h.1 ≡ true)
        headers

  -- What the later stages rely on.
  pub record IsUsable (s : HttpProbe) : Type 0 where
    pub limit : HasRoom s.body_size_limit
    pub redirects :
        (no_follow : Bool)
        → s.no_follow_redirects ≡ some no_follow
        → s.http_client_config.follow_redirects ≡ not no_follow
    pub one_body : (s.body ≡ "") ⊎ (s.body_file ≡ "")
    pub encodings : EncodingsFit s.compression s.headers
    pub without_http3 :
        s.use_http3 ≡ false → any (λ v. v == "HTTP/3.0") s.valid_http_versions ≡ false
    pub with_http3 :
        s.use_http3 ≡ true
        → (any (λ v. v == "HTTP/2.0" || v == "HTTP/1.1") s.valid_http_versions ≡ false)
          × (s.http_client_config.enable_http2 ≡ false)

module _ (validate_client : HttpClientConfig → Option HttpClientConfig)
    (encoding_ok : Bytes → Bytes → Bool) where
  headers_ok-EncodingsFit :
      (compression : String) (headers : List (String × Bytes))
      → headers_ok validate_client encoding_ok compression headers ≡ true
      → EncodingsFit encoding_ok compression headers
  unfolding headers_ok
  headers_ok-EncodingsFit compression [] e = tt
  headers_ok-EncodingsFit compression ((key, value) ∷ headers) e = (
    λ same.
        ground
          (arith, (bytes_beq_iff (canonical_key (codes key)) (codes "Accept-Encoding")).1 same),
    headers_ok-EncodingsFit compression headers (ground arith),
  )

  checks-same : (s s' : HttpProbe) → checks validate_client encoding_ok s ≡ ok s' → s ≡ s'
  unfolding checks
  checks-same s s' e = ground arith

  checks-IsUsable :
      (s s' : HttpProbe)
      → HasRoom s.body_size_limit
      → ((no_follow : Bool)
          → s.no_follow_redirects ≡ some no_follow
          → s.http_client_config.follow_redirects ≡ not no_follow)
      → checks validate_client encoding_ok s ≡ ok s'
      → IsUsable encoding_ok s
  unfolding checks
  checks-IsUsable s s' room redirects e = record {
    limit = room;
    redirects = redirects;
    one_body = ground (arith, eq_iff s.body "", eq_iff s.body_file "");
    encodings = headers_ok-EncodingsFit s.compression s.headers (ground arith);
    without_http3 = λ off. ground arith;
    with_http3 = λ on. (ground arith, ground arith);
  }

  with_redirects-limit : (s : HttpProbe) → (with_redirects s).body_size_limit ≡ s.body_size_limit
  with_redirects-limit s = ground arith

  with_redirects-follow :
      (s : HttpProbe) (no_follow : Bool)
      → (with_redirects s).no_follow_redirects ≡ some no_follow
      → (with_redirects s).http_client_config.follow_redirects ≡ not no_follow
  with_redirects-follow s no_follow e = ground arith

  validate_http-IsUsable :
      (decoded s : HttpProbe)
      → IsInt64 decoded.body_size_limit
      → validate_http validate_client encoding_ok decoded ≡ ok s
      → IsUsable encoding_ok s
  unfolding validate_http
  validate_http-IsUsable decoded s h e =
      elim (Option-cases (validate_client decoded.http_client_config)) [
        | inl invalid ↦ cc (rw invalid at e)
        | inr (client, valid) ↦
            let e' = rw valid at e in
            let before = record decoded {
              body_size_limit = limited decoded.body_size_limit;
              http_client_config = client;
            } in
            subst (IsUsable encoding_ok)
              (checks-same (configured validate_client encoding_ok decoded client) s e')
              (checks-IsUsable (configured validate_client encoding_ok decoded client) s
                (rw with_redirects-limit (limited-HasRoom decoded.body_size_limit h))
                (with_redirects-follow before) e')
      ]

  -- An HTTP module that is accepted has a body limit that leaves room for one more byte,
  -- `no_follow_redirects` has its effect, it has at most one body, and each `Accept-Encoding` header
  -- covers the compression. With HTTP/3 enabled its valid versions name neither HTTP/2.0 nor HTTP/1.1
  -- and HTTP/2 is not enabled; otherwise they do not name HTTP/3.0. The decoder is assumed to yield a
  -- limit that an `int64` can hold.
  pub unmarshal_http-IsUsable :
      (client : HttpClientConfig) (decode : HttpProbe → Option HttpProbe) (s : HttpProbe)
      → ((d : HttpProbe) → decode (default_http_probe client) ≡ some d → IsInt64 d.body_size_limit)
      → unmarshal_http validate_client encoding_ok client decode ≡ ok s
      → IsUsable encoding_ok s
  unfolding unmarshal_http
  unmarshal_http-IsUsable client decode s h e =
      elim (Option-cases (decode (default_http_probe client))) [
        | inl broken ↦ cc (rw broken at e)
        | inr (d, decoded) ↦ validate_http-IsUsable d s (h d decoded) (rw decoded at e)
      ]
