-- ===== src/Server/Prefix.antt =====
-- The shape of the external URL's path and of the prefix of the routes.
use mathlib.Core.Path.{subst}
use blackbox_exporter_with_g.Common.{
  ℕ, ◌≡◌, ◌≢◌, ◌⊎◌, refl, inl, inr, Bool, true, false, Option, some, [], ◌∷◌, ◌++◌, Bool-cases,
  Option-cases, if◌then◌else◌, ◌==◌, ℕ_eq,
}
use blackbox_exporter_with_g.Common.Text.{
  Bytes, codes, bytes_eq, bytes_beq_iff, is_slash, trim, trim_left, trim_right, has_prefix,
}
use blackbox_exporter_with_g.Server.{
  Url, sanitized, starts_or_ends_with_quote, inferred, parsed, compute_external_url, route_prefix,
}

-- The first and the last byte, if there are any, are not cut.
abbrev pub StartsOutside : (ℕ → Bool) → Bytes → Type 0
StartsOutside cut [] = Unit {0}
StartsOutside cut (c ∷ s) = cut c ≡ false

abbrev pub EndsOutside : (ℕ → Bool) → Bytes → Type 0
EndsOutside cut [] = Unit {0}
EndsOutside cut (c ∷ []) = cut c ≡ false
EndsOutside cut (c ∷ d ∷ s) = EndsOutside cut (d ∷ s)

trim_left-StartsOutside : (cut : ℕ → Bool) (s : Bytes) → StartsOutside cut (trim_left cut s)
trim_left-StartsOutside cut [] = tt
trim_left-StartsOutside cut (c ∷ s) = elim (Bool-cases (cut c)) [
  | inl gone ↦ rw gone (trim_left-StartsOutside cut s)
  | inr kept ↦ rw kept kept
]

cons-EndsOutside :
    (cut : ℕ → Bool) (c : ℕ) (r : Bytes)
    → EndsOutside cut r
    → EndsOutside cut (elim r [ [] ↦ if cut c then [] else c ∷ [] | d ∷ t ↦ c ∷ d ∷ t ])
cons-EndsOutside cut c [] h = elim (Bool-cases (cut c)) [
  | inl gone ↦ rw gone tt
  | inr kept ↦ rw kept kept
]
cons-EndsOutside cut c (d ∷ t) h = h

trim_right-EndsOutside : (cut : ℕ → Bool) (s : Bytes) → EndsOutside cut (trim_right cut s)
trim_right-EndsOutside cut [] = tt
trim_right-EndsOutside cut (c ∷ s) =
    cons-EndsOutside cut c (trim_right cut s) (trim_right-EndsOutside cut s)

cons-StartsOutside :
    (cut : ℕ → Bool) (c : ℕ) (r : Bytes)
    → cut c ≡ false
    → StartsOutside cut (elim r [ [] ↦ if cut c then [] else c ∷ [] | d ∷ t ↦ c ∷ d ∷ t ])
cons-StartsOutside cut c [] h = rw h h
cons-StartsOutside cut c (d ∷ t) h = h

trim_right-StartsOutside :
    (cut : ℕ → Bool) (s : Bytes) → StartsOutside cut s → StartsOutside cut (trim_right cut s)
trim_right-StartsOutside cut [] h = tt
trim_right-StartsOutside cut (c ∷ s) h = cons-StartsOutside cut c (trim_right cut s) h

-- Empty, or a slash and a text that ends with none.
pub record IsPath (path : Bytes) : Type 0 where
  pub start : (path ≡ []) ⊎ (has_prefix path (codes "/") ≡ true)
  pub end : EndsOutside is_slash path

-- Only the slash, or a text between slashes that has none at its ends.
pub record IsPrefix (prefix : Bytes) : Type 0 where
  pub inner : Bytes
  pub between : (prefix ≡ codes "/") ⊎ ((inner ≢ []) × (prefix ≡ codes "/" ++ inner ++ codes "/"))
  pub start : StartsOutside is_slash inner
  pub end : EndsOutside is_slash inner

slash-EndsOutside : (s : Bytes) → s ≢ [] → EndsOutside is_slash s → EndsOutside is_slash (b'/' ∷ s)
slash-EndsOutside [] filled h = absurd (filled refl)
slash-EndsOutside (c ∷ s) filled h = h

sanitized-IsPath : (path : Bytes) → IsPath (sanitized path)
unfolding sanitized
sanitized-IsPath path =
    let s = trim_right is_slash path in
    let ends = trim_right-EndsOutside is_slash path in
    let (empty, _) = bytes_beq_iff s [] in
    elim (Bool-cases (s == [])) [
      | inl none_left ↦ rw none_left (record { start = inl (empty none_left); end = ends })
      | inr filled ↦
          (let more : s ≢ [] = (λ e. (let t = (bytes_beq_iff s []).1 e in cc)) in
            elim (Bool-cases (has_prefix s (codes "/"))) [
              | inl slash ↦ rw (filled, slash) (record { start = inr slash; end = ends })
              | inr bare ↦
                  rw (filled, bare)
                    (record { start = inr refl; end = slash-EndsOutside s more ends })
            ])
    ]

module _ {R : Type 0} (hostname : Option Bytes) (parse : Bytes → Option (Url R)) where
  parsed-IsPath : (u : Bytes) (eu : Url R) → parsed hostname parse u ≡ some eu → IsPath eu.path
  unfolding parsed
  parsed-IsPath u eu e = elim (Bool-cases (starts_or_ends_with_quote u)) [
    | inl quoted ↦ (let f = rw (quoted, parsed) at e in cc)
    | inr plain ↦
        (let f = rw (plain, parsed) at e in
          elim (Option-cases (parse u)) [
            | inl failed ↦ (let g = rw failed at f in cc)
            | inr (url, known) ↦
                (let g : some (record url { path = sanitized url.path }) ≡ some eu =
                    rw known at f in
                  let same : sanitized url.path ≡ eu.path = cc in
                  subst IsPath same (sanitized-IsPath url.path))
          ])
  ]

  -- An external URL has a path that is empty, or starts with a slash, and that ends with none.
  pub compute_external_url-IsPath :
      (u listen_addr : Bytes) (eu : Url R)
      → compute_external_url hostname parse u listen_addr ≡ some eu
      → IsPath eu.path
  unfolding compute_external_url
  compute_external_url-IsPath u listen_addr eu e =
      elim (Option-cases (inferred hostname parse u listen_addr)) [
        | inl failed ↦ (let f = rw (failed, compute_external_url) at e in cc)
        | inr (v, known) ↦ parsed-IsPath v eu (rw (known, compute_external_url) at e)
      ]

trim_right-slash : (s : Bytes) → EndsOutside is_slash s → trim_right is_slash (s ++ b'/' ∷ []) ≡ s
trim_right-slash [] h = refl
trim_right-slash (c ∷ []) h = rw h refl
trim_right-slash (c ∷ d ∷ s) h = (let k = trim_right-slash (d ∷ s) h in rw (k, trim_right) refl)

trim-slashes :
    (s : Bytes)
    → s ≢ []
    → StartsOutside is_slash s
    → EndsOutside is_slash s
    → trim is_slash (b'/' ∷ s ++ b'/' ∷ []) ≡ s
trim-slashes [] filled h k = absurd (filled refl)
trim-slashes (c ∷ s) filled h k = (let t = trim_right-slash (c ∷ s) k in rw h t)

bounded :
    (s : Bytes)
    → ((if (codes "/" ++ s) == codes "/" then codes "/" ++ s else codes "/" ++ s ++ codes "/")
        ≡ codes "/")
      ⊎ ((s ≢ [])
          × ((if (codes "/" ++ s) == codes "/" then codes "/" ++ s else codes "/" ++ s ++ codes "/")
              ≡ codes "/" ++ s ++ codes "/"))
bounded [] = inl refl
bounded (c ∷ s) = inr (λ e. cc, refl)

-- The prefix is one slash, or a text between two slashes that has none at its ends.
pub route_prefix-IsPrefix : (flag path : Bytes) → IsPrefix (route_prefix flag path)
unfolding route_prefix
route_prefix-IsPrefix flag path =
    let given = if flag == [] then path else flag in
    let s = trim is_slash given in
    let left = trim_left-StartsOutside is_slash given in
    record {
      inner = s;
      between = bounded s;
      start = trim_right-StartsOutside is_slash (trim_left is_slash given) left;
      end = trim_right-EndsOutside is_slash (trim_left is_slash given);
    }

slash_stays : (other : Bytes) → route_prefix (codes "/") other ≡ codes "/"
unfolding route_prefix
slash_stays other = refl

text_stays :
    (s other : Bytes)
    → s ≢ []
    → StartsOutside is_slash s
    → EndsOutside is_slash s
    → route_prefix (codes "/" ++ s ++ codes "/") other ≡ codes "/" ++ s ++ codes "/"
unfolding route_prefix
text_stays [] other filled h k = absurd (filled refl)
text_stays (c ∷ s) other filled h k = (let t = trim-slashes (c ∷ s) filled h k in rw t refl)

-- Given to a further instance as its prefix, the prefix stays what it is.
pub route_prefix-route_prefix :
    (flag path other : Bytes) → route_prefix (route_prefix flag path) other ≡ route_prefix flag path
route_prefix-route_prefix flag path other =
    let p = route_prefix-IsPrefix flag path in
    elim p.between [
      | inl e ↦ rw e (slash_stays other)
      | inr (filled, e) ↦ rw e (text_stays p.inner other filled p.start p.end)
    ]
