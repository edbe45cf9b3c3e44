-- ===== src/Common/Net.antt =====
-- What the program uses of the package `net`: addresses as byte slices, and `host:port` texts.
pub mod Split
use blackbox_exporter_with_g.Common.Tests.{◌==◌, ℕ_eq, if◌then◌else◌}
use blackbox_exporter_with_g.Common.Lists.{length, drop, take, any}
use blackbox_exporter_with_g.Common.Text.{Bytes, bytes_eq}
use Prim.Native.Nat.{ℕ}
use mathlib.Core.Bool.{Bool, ◌&&◌, ◌||◌}
use mathlib.Core.Option.{Option, none, some}
use mathlib.Core.List.{[], ◌∷◌, ◌++◌}

-- A `net.IP`, of 4 or of 16 bytes.
abbrev pub Ip : Type 0
Ip = Bytes

-- ::ffff:0:0/96
abbrev pub v4_in_v6_prefix : Bytes
v4_in_v6_prefix = 0 ∷ 0 ∷ 0 ∷ 0 ∷ 0 ∷ 0 ∷ 0 ∷ 0 ∷ 0 ∷ 0 ∷ 255 ∷ 255 ∷ []

-- `ip.To4()`
abbrev pub to4 : Ip → Option Ip
to4 ip =
    if length ip == 4
    then some ip
    else if length ip == 16 && take 12 ip == v4_in_v6_prefix
    then some (drop 12 ip)
    else none

-- `ip.To16()`, empty for nil
abbrev pub to16 : Ip → Ip
to16 ip = if length ip == 4 then v4_in_v6_prefix ++ ip else if length ip == 16 then ip else []

abbrev pub has_byte : ℕ → Bytes → Bool
has_byte c s = any (λ b. b == c) s

-- The text before and after the first and the last `c`.
abbrev pub split_first : ℕ → Bytes → Option (Bytes × Bytes)
split_first c [] = none
split_first c (b ∷ s) =
    let rest = split_first c s in
    if b == c then some ([], s) else elim rest [ none ↦ none | some (x, y) ↦ some (b ∷ x, y) ]

abbrev pub split_last : ℕ → Bytes → Option (Bytes × Bytes)
split_last c [] = none
split_last c (b ∷ s) = elim (split_last c s) [
  | some (x, y) ↦ some (b ∷ x, y)
  | none ↦ if b == c then some ([], s) else none
]

-- `[host]:port`, where `inner` is all between the first bracket and the last colon.
pub bracketed : Bytes → Bytes → Option (Bytes × Bytes)
bracketed inner port = elim (split_first b']' inner) [
  | none ↦ none
  | some (host, []) ↦
      if has_byte b'[' host || has_byte b'[' port || has_byte b']' port
      then none
      else some (host, port)
  | some (host, _ ∷ _) ↦ none
]

pub plain : Bytes → Bytes → Option (Bytes × Bytes)
plain host port =
    if has_byte b':' host
      || has_byte b'[' host
      || has_byte b'[' port
      || has_byte b']' host
      || has_byte b']' port
    then none
    else some (host, port)

pub by_head : Bytes → Bytes → Option (Bytes × Bytes)
by_head [] port = plain [] port
by_head (c ∷ inner) port =
    let r = bracketed inner port in if c == b'[' then r else plain (c ∷ inner) port

-- `net.SplitHostPort`, `none` for an error
unfoldable pub split_host_port : Bytes → Option (Bytes × Bytes)
unfolding by_head bracketed plain
split_host_port s = elim (split_last b':' s) [ none ↦ none | some (host, port) ↦ by_head host port ]

-- `net.JoinHostPort`
unfoldable pub join_host_port : Bytes → Bytes → Bytes
join_host_port host port =
    if has_byte b':' host then (b'[' ∷ host) ++ (b']' ∷ b':' ∷ port) else host ++ b':' ∷ port
