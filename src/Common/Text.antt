-- ===== src/Common/Text.antt =====
-- Go strings as lists of bytes, where the program walks them, with what it uses of the package
-- `strings`. Letters outside ASCII are left alone by `to_lower` and `to_upper`.
use Prim.Native.Nat.{ℕ, zero, suc, ◌+◌, ◌-◌}
use Prim.Native.Char.{code}
use Prim.Native.String.{String}
use mathlib.Core.Path.{◌≡◌, refl}
use mathlib.Core.Logic.{◌↔◌}
use mathlib.Core.Bool.{Bool, true, false, ◌&&◌, ◌||◌}
use mathlib.Core.List.{List, [], ◌∷◌, map, reverse}
use native.Mathlib.Omega.{arith}
use mathlib.Core.Option.{Option, none, some}
use blackbox_exporter_with_g.Common.Lists.{length}
use blackbox_exporter_with_g.Common.Tests.{
  Eq, ◌==◌, ℕ_eq, nat_eq, nat_eq_iff, leb, if◌then◌else◌, string_eq,
}

abbrev pub Bytes : Type 0
Bytes = List ℕ

-- The bytes of an ASCII text.
abbrev pub codes : String → Bytes
codes String.[] = []
codes (String.◌∷◌ c s) = code c ∷ codes s

abbrev pub bytes_beq : Bytes → Bytes → Bool
bytes_beq [] [] = true
bytes_beq (a ∷ r) (b ∷ s) = nat_eq a b && bytes_beq r s
bytes_beq _ _ = false

pub bytes_beq_iff : (a b : Bytes) → (bytes_beq a b ≡ true) ↔ (a ≡ b)
bytes_beq_iff [] [] = (λ _. refl, λ _. refl)
bytes_beq_iff [] (b ∷ s) = (λ e. cc, λ e. cc)
bytes_beq_iff (a ∷ r) [] = (λ e. cc, λ e. cc)
bytes_beq_iff (a ∷ r) (b ∷ s) = ground (arith, bytes_beq_iff r s, nat_eq_iff a b)

instance abbrev pub bytes_eq : Eq Bytes
bytes_eq = record { same = bytes_beq; same_iff = bytes_beq_iff }

-- strings.HasPrefix, strings.HasSuffix
abbrev pub has_prefix : Bytes → Bytes → Bool
has_prefix s [] = true
has_prefix [] (p ∷ ps) = false
has_prefix (c ∷ s) (p ∷ ps) = c == p && has_prefix s ps

abbrev pub has_suffix : Bytes → Bytes → Bool
has_suffix s p = has_prefix (reverse s) (reverse p)

-- strings.Contains
abbrev pub contains : Bytes → Bytes → Bool
contains [] p = has_prefix [] p
contains (c ∷ s) p = has_prefix (c ∷ s) p || contains s p

-- strings.TrimLeft, strings.TrimRight and strings.Trim, by a test on bytes
abbrev pub trim_left : (ℕ → Bool) → Bytes → Bytes
trim_left cut [] = []
trim_left cut (c ∷ s) = let rest = trim_left cut s in if cut c then rest else c ∷ s

abbrev pub trim_right : (ℕ → Bool) → Bytes → Bytes
trim_right cut [] = []
trim_right cut (c ∷ s) =
    let rest = trim_right cut s in
    elim rest [ [] ↦ if cut c then [] else c ∷ [] | d ∷ r ↦ c ∷ d ∷ r ]

abbrev pub trim : (ℕ → Bool) → Bytes → Bytes
trim cut s = trim_right cut (trim_left cut s)

abbrev pub is_slash : ℕ → Bool
is_slash c = c == b'/'

abbrev lower : ℕ → ℕ
lower c = if leb b'A' c && leb c b'Z' then c + 32 else c

abbrev upper : ℕ → ℕ
upper c = if leb b'a' c && leb c b'z' then c - 32 else c

-- strings.ToLower, strings.ToUpper
abbrev pub to_lower : Bytes → Bytes
to_lower s = map lower s

abbrev pub to_upper : Bytes → Bytes
to_upper s = map upper s

-- The white space of Unicode, in UTF-8.
abbrev spaces : List Bytes
spaces =
    (9 ∷ [])
    ∷ (10 ∷ [])
    ∷ (11 ∷ [])
    ∷ (12 ∷ [])
    ∷ (13 ∷ [])
    ∷ (32 ∷ [])
    ∷ (0xC2 ∷ 0x85 ∷ [])
    ∷ (0xC2 ∷ 0xA0 ∷ [])
    ∷ (0xE1 ∷ 0x9A ∷ 0x80 ∷ [])
    ∷ (0xE2 ∷ 0x80 ∷ 0x80 ∷ [])
    ∷ (0xE2 ∷ 0x80 ∷ 0x81 ∷ [])
    ∷ (0xE2 ∷ 0x80 ∷ 0x82 ∷ [])
    ∷ (0xE2 ∷ 0x80 ∷ 0x83 ∷ [])
    ∷ (0xE2 ∷ 0x80 ∷ 0x84 ∷ [])
    ∷ (0xE2 ∷ 0x80 ∷ 0x85 ∷ [])
    ∷ (0xE2 ∷ 0x80 ∷ 0x86 ∷ [])
    ∷ (0xE2 ∷ 0x80 ∷ 0x87 ∷ [])
    ∷ (0xE2 ∷ 0x80 ∷ 0x88 ∷ [])
    ∷ (0xE2 ∷ 0x80 ∷ 0x89 ∷ [])
    ∷ (0xE2 ∷ 0x80 ∷ 0x8A ∷ [])
    ∷ (0xE2 ∷ 0x80 ∷ 0xA8 ∷ [])
    ∷ (0xE2 ∷ 0x80 ∷ 0xA9 ∷ [])
    ∷ (0xE2 ∷ 0x80 ∷ 0xAF ∷ [])
    ∷ (0xE2 ∷ 0x81 ∷ 0x9F ∷ [])
    ∷ (0xE3 ∷ 0x80 ∷ 0x80 ∷ [])
    ∷ []

-- How many of the bytes after the first belong to the first of these that the text begins with.
abbrev begins : List Bytes → Bytes → Option ℕ
begins [] s = none
begins ([] ∷ ps) s = begins ps s
begins ((b ∷ p) ∷ ps) s =
    let other = begins ps s in if has_prefix s (b ∷ p) then some (length p) else other

-- Without what it begins with, after so many bytes more.
abbrev strip : List Bytes → ℕ → Bytes → Bytes
strip ps skipped [] = []
strip ps (suc k) (c ∷ s) = strip ps k s
strip ps zero (c ∷ s) = elim (begins ps (c ∷ s)) [ none ↦ c ∷ s | some k ↦ strip ps k s ]

-- strings.TrimSpace
abbrev pub trim_space : Bytes → Bytes
trim_space s = reverse (strip (map reverse spaces) 0 (reverse (strip spaces 0 s)))
