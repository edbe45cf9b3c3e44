-- ===== src/Handler/Hostname.antt =====
-- The parameter `hostname` and the headers of an HTTP module.
use mathlib.Core.Path.{subst}
use blackbox_exporter_with_g.Common.{
  String, ◌≡◌, refl, not, ◌&&◌, List, [], ◌∷◌, arith, Bool-cases, inl, inr, All, In, here, later,
  ◌==◌, string_eq,
}
use blackbox_exporter_with_g.Common.Mime.{canonical_key}
use blackbox_exporter_with_g.Common.Results.{Result, ok, err}
use blackbox_exporter_with_g.Common.Text.{Bytes, bytes_eq, bytes_beq_iff, codes}
use blackbox_exporter_with_g.Config.Types.{Module}
use blackbox_exporter_with_g.Handler.{Reply, put, copy, with_host, set_http_host}

-- A header that, if it is the host's in any case of letters, has this value.
abbrev pub HostIs : Bytes → String × Bytes → Type 0
HostIs hostname h = canonical_key (codes h.0) ≡ codes "Host" → h.1 ≡ hostname

module _ (hostname : Bytes) where
  put-All :
      (headers : List (String × Bytes)) (name : String) (value : Bytes)
      → All (HostIs hostname) headers
      → HostIs hostname (name, value)
      → All (HostIs hostname) (put headers name value)
  unfolding put
  put-All [] name value a h = (h, tt)
  put-All ((k, v) ∷ headers) name value a h = elim (Bool-cases (k == name)) [
    | inl e ↦ rw e (h, a.1)
    | inr e ↦ rw e (a.0, put-All headers name value a.1 h)
  ]

  put-In :
      (headers : List (String × Bytes)) (name : String) (value : Bytes)
      → In (name, value) (put headers name value)
  unfolding put
  put-In [] name value = here refl
  put-In ((k, v) ∷ headers) name value = elim (Bool-cases (k == name)) [
    | inl e ↦ rw e (here refl)
    | inr e ↦ rw e (later (put-In headers name value))
  ]

  copy-All :
      (defined headers out : List (String × Bytes))
      → All (HostIs hostname) headers
      → copy hostname defined headers ≡ ok out
      → All (HostIs hostname) out × All (HostIs hostname) defined
  unfolding copy
  copy-All [] headers out a e =
      let same : headers ≡ out = cc in (subst (All (HostIs hostname)) same a, tt)
  copy-All ((name, value) ∷ defined) headers out a e =
      elim (Bool-cases (canonical_key (codes name) == codes "Host" && not (value == hostname))) [
        | inl conflict ↦ ground (arith)
        | inr fine ↦
            (let h : HostIs hostname (name, value) = λ is_host. ground (
              arith,
              bytes_beq_iff (canonical_key (codes name)) (codes "Host"),
              bytes_beq_iff value hostname,
            ) in
              let (after, before) =
                copy-All defined (put headers name value) out (put-All headers name value a h)
                  ground (arith) in
              (after, (h, before)))
      ]

  -- What a module is whose host has been set.
  pub record IsHosted (before after : List (String × Bytes)) : Type 0 where
    pub agreed : All (HostIs hostname) before
    pub agrees : All (HostIs hostname) after
    pub present : In ("Host", hostname) after

  with_host-IsHosted :
      (m after : Module) (copied : Result Reply (List (String × Bytes)))
      → copied ≡ copy hostname m.http.headers []
      → with_host hostname m copied ≡ ok after
      → IsHosted m.http.headers after.http.headers
  unfolding with_host
  with_host-IsHosted m after (err e) c h = cc
  with_host-IsHosted m after (ok headers) c h =
      let (a, b) = copy-All m.http.headers [] headers tt cc in
      let same : after.http.headers ≡ put headers "Host" hostname = cc in
      record {
        agreed = b;
        agrees = rw same (put-All headers "Host" hostname a (λ _. refl));
        present = rw same (put-In headers "Host" hostname);
      }

  -- If the parameter `hostname` is accepted, then every header of the module that is the host's, in
  -- any spelling, already had this value; and afterwards there is a `Host` header, and every header
  -- that is the host's has this value.
  pub set_http_host-IsHosted :
      (m after : Module)
      → set_http_host hostname m ≡ ok after
      → IsHosted m.http.headers after.http.headers
  unfolding set_http_host
  set_http_host-IsHosted m after h =
      with_host-IsHosted m after (copy hostname m.http.headers []) refl h
