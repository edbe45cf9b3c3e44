-- ===== src/Icmp/Sequence.antt =====
-- The sequence numbers of the probes of one process.
use blackbox_exporter_with_g.Common.{ℕ, zero, suc, ◌+◌, ◌%◌, ◌^◌, ◌<◌, ◌≡◌, ◌≢◌, arith}
use blackbox_exporter_with_g.Icmp.{get_icmp_sequence}

-- The state after so many calls.
abbrev pub after : ℕ → ℕ → ℕ
after zero sequence = sequence
after (suc n) sequence = get_icmp_sequence (after n sequence)

after_lem : (n sequence : ℕ) → sequence < 2 ^ 16 → after n sequence ≡ (sequence + n) % 2 ^ 16
unfolding get_icmp_sequence
after_lem zero sequence h = omega arith
after_lem (suc n) sequence h = omega (arith, after_lem n sequence h)

-- Two requests that are fewer than 2 ^ 16 apart, one after the other, have different sequence numbers,
-- whatever the random start, and each of them is a number of 16 bits.
pub after-ne :
    (sequence m n : ℕ)
    → sequence < 2 ^ 16
    → m < n
    → n < m + 2 ^ 16
    → (after m sequence ≢ after n sequence) × (after n sequence < 2 ^ 16)
after-ne sequence m n h p q =
    let a = after_lem m sequence h in
    let b = after_lem n sequence h in (λ e. omega arith, omega arith)
