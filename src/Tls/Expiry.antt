-- ===== src/Tls/Expiry.antt =====
-- The two expiry times that the probes report.
use Prim.Native.Nat.{max}
use blackbox_exporter_with_g.Common.{
  ℕ, ◌≤◌, ◌<◌, ◌≡◌, ◌⊎◌, refl, sym, ◌∙◌, inl, inr, List, [], ◌∷◌, arith, All, In, here, later, ◌||◌,
  if◌then◌else◌, ltb, ◌==◌, ℕ_eq,
}
use blackbox_exporter_with_g.Tls.{
  Certificate, ConnectionState, earlier, earliest_from, get_earliest_cert_expiry, last_from,
  get_last_chain_expiry,
}

-- `t` is the earliest of the times that are set, or 0 if none is.
pub record IsEarliest (t : ℕ) (certs : List Certificate) : Type 0 where
  pub bound : All (λ c. 0 < c.not_after → (t ≤ c.not_after) × (0 < t)) certs
  pub attained : (t ≡ 0) ⊎ ((c : Certificate) × In c certs × (c.not_after ≡ t))

earlier-bound :
    (t n : ℕ)
    → (0 < t → (earlier t n ≤ t) × (0 < earlier t n))
      × (0 < n → (earlier t n ≤ n) × (0 < earlier t n))
unfolding earlier
earlier-bound t n = (λ h. (ground arith, ground arith), λ h. (ground arith, ground arith))

earlier-cases : (t n : ℕ) → (earlier t n ≡ t) ⊎ (earlier t n ≡ n)
unfolding earlier
earlier-cases t n = ground arith

-- The loop from a time: once set, it only falls.
abbrev Below : ℕ → Certificate → Type 0
Below t c = 0 < c.not_after → (t ≤ c.not_after) × (0 < t)

Below-weaken : (t u : ℕ) (c : Certificate) → u ≤ t → 0 < u → Below t c → Below u c
Below-weaken t u c le pos h set = (omega (arith, (h set).0), pos)

earliest_from-falls :
    (t : ℕ) (certs : List Certificate)
    → 0 < t
    → (earliest_from t certs ≤ t) × (0 < earliest_from t certs)
unfolding earliest_from
earliest_from-falls t [] h = (omega arith, h)
earliest_from-falls t (c ∷ certs) h =
    let (le, set) = (earlier-bound t c.not_after).0 h in
    let (le', set') = earliest_from-falls (earlier t c.not_after) certs set in (omega arith, set')

earliest_from-bound : (t : ℕ) (certs : List Certificate) → All (Below (earliest_from t certs)) certs
unfolding earliest_from
earliest_from-bound t [] = tt
earliest_from-bound t (c ∷ certs) = (
  λ set.
      let (le, now) = (earlier-bound t c.not_after).1 set in
      let (le', now') = earliest_from-falls (earlier t c.not_after) certs now in
      (omega arith, now'),
  earliest_from-bound (earlier t c.not_after) certs,
)

earliest_from-attained :
    (t : ℕ) (certs : List Certificate)
    → (earliest_from t certs ≡ t)
      ⊎ ((c : Certificate) × In c certs × (c.not_after ≡ earliest_from t certs))
unfolding earliest_from
earliest_from-attained t [] = inl refl
earliest_from-attained t (c ∷ certs) = elim (earliest_from-attained (earlier t c.not_after) certs) [
  | inr (d, m, e) ↦ inr (d, later m, e)
  | inl kept ↦ elim (earlier-cases t c.not_after) [
    | inl old ↦ inl (kept ∙ old)
    | inr new ↦ inr (c, here refl, sym (kept ∙ new))
  ]
]

-- The earliest certificate expiry is at most every expiry of the peer's certificates that is set, is
-- then set itself, and is one of them, or else the zero time.
pub get_earliest_cert_expiry-IsEarliest :
    (state : ConnectionState) → IsEarliest (get_earliest_cert_expiry state) state.peer_certificates
unfolding get_earliest_cert_expiry
get_earliest_cert_expiry-IsEarliest state = record {
  bound = earliest_from-bound 0 state.peer_certificates;
  attained = earliest_from-attained 0 state.peer_certificates;
}

-- `last` is the latest of the earliest expiries of the chains, or 0 if there is no chain.
abbrev pub latest : ℕ → List (List Certificate) → ℕ
latest last [] = last
latest last (chain ∷ chains) = latest (max last (earliest_from 0 chain)) chains

max_cases : (a b : ℕ) → (max a b ≡ a) ⊎ (max a b ≡ b)
max_cases a b = omega arith

later_of-max : (a b : ℕ) → (if a == 0 || ltb a b then b else a) ≡ max a b
later_of-max a b = ground arith

last_from-latest :
    (last : ℕ) (chains : List (List Certificate)) → last_from last chains ≡ latest last chains
unfolding last_from
last_from-latest last [] = refl
last_from-latest last (chain ∷ chains) =
    let e = earliest_from 0 chain in rw (later_of-max last e) (last_from-latest (max last e) chains)

latest-bound :
    (last : ℕ) (chains : List (List Certificate))
    → (last ≤ latest last chains) × All (λ chain. earliest_from 0 chain ≤ latest last chains) chains
latest-bound last [] = (omega arith, tt)
latest-bound last (chain ∷ chains) =
    let (le, bounds) = latest-bound (max last (earliest_from 0 chain)) chains in
    (omega arith, (omega arith, bounds))

latest-attained :
    (last : ℕ) (chains : List (List Certificate))
    → (latest last chains ≡ last)
      ⊎ ((chain : List Certificate) × In chain chains
          × (earliest_from 0 chain ≡ latest last chains))
latest-attained last [] = inl refl
latest-attained last (chain ∷ chains) =
    let e = earliest_from 0 chain in
    elim (latest-attained (max last e) chains) [
      | inr (d, m, same) ↦ inr (d, later m, same)
      | inl kept ↦ elim (max_cases last e) [
        | inl old ↦ inl (kept ∙ old)
        | inr new ↦ inr (chain, here refl, sym (kept ∙ new))
      ]
    ]

-- The last chain expiry is at least the earliest expiry of every verified chain, and is that of one
-- of them, or else the zero time.
pub get_last_chain_expiry-latest :
    (state : ConnectionState)
    → All (λ chain. earliest_from 0 chain ≤ get_last_chain_expiry state) state.verified_chains
      × ((get_last_chain_expiry state ≡ 0)
          ⊎ ((chain : List Certificate) × In chain state.verified_chains
              × (earliest_from 0 chain ≡ get_last_chain_expiry state)))
unfolding get_last_chain_expiry
get_last_chain_expiry-latest state =
    rw (last_from-latest 0 state.verified_chains)
      ((latest-bound 0 state.verified_chains).1, latest-attained 0 state.verified_chains)
