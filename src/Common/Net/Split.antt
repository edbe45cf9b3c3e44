-- ===== src/Common/Net/Split.antt =====
-- What a host and a port have that have been split.
use mathlib.Core.Path.{◌≡◌, refl, subst}
use mathlib.Core.Logic.{inl, inr}
use mathlib.Core.Bool.{true, false}
use mathlib.Core.Option.{none, some}
use mathlib.Core.List.{[], ◌∷◌, ◌++◌}
use native.Mathlib.Omega.{arith}
use Prim.Native.Nat.{ℕ}
use blackbox_exporter_with_g.Common.Tests.{◌==◌, ℕ_eq, Bool-cases, Option-cases}
use blackbox_exporter_with_g.Common.Text.{Bytes}
use blackbox_exporter_with_g.Common.Net.{
  has_byte, split_first, split_last, bracketed, plain, by_head, split_host_port,
}

split_last-none : (c : ℕ) (s : Bytes) → has_byte c s ≡ false → split_last c s ≡ none
split_last-none c [] h = refl
split_last-none c (b ∷ s) h =
    let rest : has_byte c s ≡ false = ground arith in
    let ended = split_last-none c s rest in
    let differs : (b == c) ≡ false = ground arith in rw (ended, differs) refl

-- The last `c` is the one before a text without it.
pub split_last-append :
    (c : ℕ) (s t : Bytes) → has_byte c t ≡ false → split_last c (s ++ c ∷ t) ≡ some (s, t)
split_last-append c [] t h =
    let ended = split_last-none c t h in
    let same : (c == c) ≡ true = ground arith in rw (ended, same) refl
split_last-append c (b ∷ s) t h = (let rest = split_last-append c s t h in rw rest refl)

has_byte-none : (c : ℕ) (s : Bytes) → split_last c s ≡ none → has_byte c s ≡ false
has_byte-none c [] e = refl
has_byte-none c (b ∷ s) e = elim (Option-cases (split_last c s)) [
  | inl none_left ↦
      (let rest = has_byte-none c s none_left in let e' = rw none_left at e in ground arith)
  | inr ((x, y), found) ↦ (let e' = rw found at e in cc)
]

pub split_last-rest : (c : ℕ) (s x y : Bytes) → split_last c s ≡ some (x, y) → has_byte c y ≡ false
split_last-rest c [] x y e = cc
split_last-rest c (b ∷ s) x y e = elim (Option-cases (split_last c s)) [
  | inl none_left ↦
      (let rest = has_byte-none c s none_left in
        let e' = rw none_left at e in
        elim (Bool-cases (b == c)) [
          | inl same ↦
              (let e'' = rw same at e' in
                let known : s ≡ y = cc in subst (λ t. has_byte c t ≡ false) known rest)
          | inr other ↦ (let e'' = rw other at e' in cc)
        ])
  | inr ((x', y'), found) ↦
      (let e' = rw found at e in
        let r = split_last-rest c s x' y' found in
        let known : y' ≡ y = cc in subst (λ t. has_byte c t ≡ false) known r)
]

plain-colon : (u v host port : Bytes) → plain u v ≡ some (host, port) → has_byte b':' host ≡ false
unfolding plain
plain-colon u v host port e = elim (Bool-cases (has_byte b':' u)) [
  | inl colon ↦ (let e' = rw colon at e in cc)
  | inr clear ↦
      (let known : u ≡ host = ground arith in subst (λ t. has_byte b':' t ≡ false) known clear)
]

bracketed-parts :
    (inner v host port : Bytes)
    → bracketed inner v ≡ some (host, port)
    → (has_byte b'[' host ≡ false) × (v ≡ port)
unfolding bracketed
bracketed-parts inner v host port e = elim (Option-cases (split_first b']' inner)) [
  | inl unclosed ↦ (let e' = rw (unclosed, bracketed) at e in cc)
  | inr ((u, []), closed) ↦
      (let e' = rw (closed, bracketed) at e in
        elim (Bool-cases (has_byte b'[' u)) [
          | inl opened ↦ (let f = rw opened at e' in cc)
          | inr clear ↦
              (let known : u ≡ host = ground arith in
                (subst (λ t. has_byte b'[' t ≡ false) known clear, ground arith))
        ])
  | inr ((u, x ∷ y), closed) ↦ (let e' = rw (closed, bracketed) at e in cc)
]

by_head-colon :
    (u v host port : Bytes)
    → by_head u v ≡ some (host, port)
    → has_byte b':' host ≡ true
    → (has_byte b'[' host ≡ false) × (v ≡ port)
unfolding by_head
by_head-colon [] v host port e h = (let clear = plain-colon [] v host port e in cc)
by_head-colon (c ∷ inner) v host port e h = elim (Bool-cases (c == b'[')) [
  | inl opening ↦ bracketed-parts inner v host port (rw opening at e)
  | inr other ↦ (let clear = plain-colon (c ∷ inner) v host port (rw other at e) in cc)
]

-- A host with a colon has been between brackets, and the port has none.
pub split_host_port-colon :
    (s host port : Bytes)
    → split_host_port s ≡ some (host, port)
    → has_byte b':' host ≡ true
    → (has_byte b'[' host ≡ false) × (has_byte b':' port ≡ false)
unfolding split_host_port
split_host_port-colon s host port e h = elim (Option-cases (split_last b':' s)) [
  | inl no_colon ↦ (let e' = rw (no_colon, split_host_port) at e in cc)
  | inr ((u, v), found) ↦
      (let (clear, same) = by_head-colon u v host port (rw (found, split_host_port) at e) h in
        let last = split_last-rest b':' s u v found in
        (clear, subst (λ t. has_byte b':' t ≡ false) same last))
]

-- Joined by a colon alone, such a host and port cannot be split again.
pub split_host_port-unsplittable :
    (host port : Bytes)
    → has_byte b':' host ≡ true
    → has_byte b'[' host ≡ false
    → has_byte b':' port ≡ false
    → split_host_port (host ++ b':' ∷ port) ≡ none
unfolding split_host_port by_head plain
split_host_port-unsplittable [] port h k l = cc
split_host_port-unsplittable (c ∷ host) port h k l =
    let found = split_last-append b':' (c ∷ host) port l in
    let first : (c == b'[') ≡ false = ground arith in rw (found, first, h) refl
