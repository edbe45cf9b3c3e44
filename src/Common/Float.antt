-- ===== src/Common/Float.antt =====
-- Floating-point numbers, which the checker has not: a parameter with the operations that the
-- program uses and what IEEE 754 says of `<`.
use Prim.Native.Nat.{ℕ, ◌+◌, ◌-◌, ◌*◌}
use mathlib.Core.Path.{◌≡◌}
use mathlib.Core.Bool.{Bool, true, false, ◌||◌, ◌&&◌}
use mathlib.Core.Option.{Option, none, some}
use mathlib.Core.List.{[], ◌∷◌}
use native.Mathlib.Omega.{arith}
use blackbox_exporter_with_g.Common.Tests.{ltb, leb, nat_eq, if◌then◌else◌}
use blackbox_exporter_with_g.Common.Text.{Bytes}

pub record Floats : Type 1 where
  pub F : Type 0
  pub zero : F
  pub one : F
  -- The default timeout in seconds.
  pub default_timeout : F
  pub lt : F → F → Bool
  pub eq : F → F → Bool
  pub is_nan : F → Bool
  pub sub : F → F → F
  -- `strconv.ParseFloat`, to 32 and to 64 bits
  pub parse32 : Bytes → Option F
  pub parse64 : Bytes → Option F
  -- `float32(math.Round(q*1000) / 1000)`
  pub to_thousandths : F → F
  pub lt_asymm : (a b : F) → lt a b ≡ true → lt b a ≡ false
  -- What is not NaN lies on one side or the other.
  pub lt_cotrans : (a b c : F) → is_nan c ≡ false → lt a b ≡ true → (lt a c || lt c b) ≡ true

-- Naturals as floats, with decimal digits read by their value; no value is NaN.
abbrev digits_from : ℕ → Bytes → Option ℕ
digits_from acc [] = some acc
digits_from acc (c ∷ s) =
    let rest = digits_from (acc * 10 + (c - b'0')) s in
    if leb b'0' c && leb c b'9' then rest else none

pub nat_asymm : (a b : ℕ) → ltb a b ≡ true → ltb b a ≡ false
nat_asymm a b h = ground arith

pub nat_cotrans :
    (a b c : ℕ) → ◌≡◌ {A = Bool} false false → ltb a b ≡ true → (ltb a c || ltb c b) ≡ true
nat_cotrans a b c n h = ground arith

-- An instance, to run tests with.
abbrev pub whole_numbers : Floats
whole_numbers = record {
  F = ℕ;
  zero = 0;
  one = 1;
  default_timeout = 120;
  lt = ltb;
  eq = nat_eq;
  is_nan = λ a. false;
  sub = ◌-◌;
  parse32 = digits_from 0;
  parse64 = digits_from 0;
  to_thousandths = λ a. a;
  lt_asymm = nat_asymm;
  lt_cotrans = nat_cotrans;
}
