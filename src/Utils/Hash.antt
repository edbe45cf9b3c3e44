-- ===== src/Utils/Hash.antt =====
-- The hash of an address.
use blackbox_exporter_with_g.Common.{ℕ, ◌<◌, ◌^◌, ◌≡◌, refl, [], ◌∷◌, ◌++◌, arith}
use blackbox_exporter_with_g.Common.Net.{v4_in_v6_prefix}
use blackbox_exporter_with_g.Common.Text.{Bytes}
use blackbox_exporter_with_g.Utils.{fnv_step, fnv_from, ip_hash}

fnv_from-lt : (h : ℕ) (bs : Bytes) → h < 2 ^ 32 → fnv_from h bs < 2 ^ 32
unfolding fnv_from fnv_step
fnv_from-lt h [] lt = lt
fnv_from-lt h (b ∷ bs) lt = fnv_from-lt (fnv_step h b) bs (omega arith)

-- The hash fits 32 bits, and an IPv4 address has the hash of its form inside IPv6.
pub ip_hash_mapped :
    (a b c d : ℕ)
    → (ip_hash (a ∷ b ∷ c ∷ d ∷ []) < 2 ^ 32)
      × (ip_hash (v4_in_v6_prefix ++ a ∷ b ∷ c ∷ d ∷ []) ≡ ip_hash (a ∷ b ∷ c ∷ d ∷ []))
unfolding ip_hash
ip_hash_mapped a b c d = (fnv_from-lt _ (a ∷ b ∷ c ∷ d ∷ []) (omega arith), refl)
