-- ===== src/Metrics/Rules.antt =====
-- What the steps of a probe show when it goes on, and when it does not.
use blackbox_exporter_with_g.Common.{
  ◌≡◌, ◌≢◌, refl, ap, Bool, true, false, Option, none, some, List, if◌then◌else◌,
}
use blackbox_exporter_with_g.Common.Trace.{Exit, next, stop, Run, and_then, result}
use blackbox_exporter_with_g.Common.Trace.Ensures.{
  Ensures, next-Ensures, stop-Ensures, Leaves, next-Leaves, stop-Leaves, and_then-Leaves,
}
use blackbox_exporter_with_g.Metrics.{Event, Outcome, returned, panicked, expect, require, present}

pub expect-Ensures : {A : Type 0} (o : Option A) → Ensures (λ a. o ≡ some a) (expect o).exit
expect-Ensures none = record { holds = λ a e. cc }
expect-Ensures (some a) = record { holds = λ b e. cc }

pub require-Ensures : (b : Bool) → Ensures (λ u. b ≡ true) (require b).exit
require-Ensures true = record { holds = λ u e. refl }
require-Ensures false = record { holds = λ u e. cc }

-- No early return is a success.
abbrev pub Fails : {A : Type 0} → Exit Outcome A → Type 0
Fails x = Leaves (λ r. r ≢ returned true) x

pub fails : {A : Type 0} → Fails {A = A} (stop (returned false))
fails = stop-Leaves _ _ (λ e. cc)

pub panics : {A : Type 0} → Fails {A = A} (stop panicked)
panics = stop-Leaves _ _ (λ e. cc)

pub expect-Fails : {A : Type 0} (o : Option A) → Fails (expect o).exit
expect-Fails none = fails
expect-Fails (some a) = next-Leaves _ a

pub require-Fails : (b : Bool) → Fails (require b).exit
require-Fails true = next-Leaves _ tt
require-Fails false = fails

pub and_then-Fails :
    {A B : Type 0} (x : Exit Outcome A) (es : List Event) (f : A → Run Event Outcome B)
    → Fails x
    → ((a : A) → Fails (f a).exit)
    → Fails (and_then x es f).exit
and_then-Fails x es f q p = and_then-Leaves _ x es f q p

-- Both: what the computation goes on with has the property, and it does not succeed early.
pub record Yields {κ} {A : Type 0} (P : A → Type κ) (x : Exit Outcome A) : Type κ where
  pub ensures : Ensures P x
  pub leaves : Fails x

pub expect-Yields : {A : Type 0} (o : Option A) → Yields (λ a. o ≡ some a) (expect o).exit
expect-Yields o = record { ensures = expect-Ensures o; leaves = expect-Fails o }

pub require-Yields : (b : Bool) → Yields (λ u. b ≡ true) (require b).exit
require-Yields b = record { ensures = require-Ensures b; leaves = require-Fails b }

module _ {κ} {A : Type 0} where
  pub next-Yields : (P : A → Type κ) (a : A) → P a → Yields P (next a)
  next-Yields P a p = record { ensures = next-Ensures P a p; leaves = next-Leaves _ a }

  pub fail-Yields : (P : A → Type κ) → Yields P (stop (returned false))
  fail-Yields P = record { ensures = stop-Ensures P (returned false); leaves = fails }

  pub panic-Yields : (P : A → Type κ) → Yields P (stop panicked)
  panic-Yields P = record { ensures = stop-Ensures P panicked; leaves = panics }

  pub present-Yields :
      (P : A → Type κ) (o : Option A) → ((a : A) → o ≡ some a → P a) → Yields P (present o).exit
  present-Yields P none f = panic-Yields P
  present-Yields P (some a) f = next-Yields P a (f a refl)

  pub if-Yields :
      (P : A → Type κ) (b : Bool) (m k : Run Event Outcome A)
      → Yields P m.exit
      → Yields P k.exit
      → Yields P (if b then m else k).exit
  if-Yields P true m k p q = p
  if-Yields P false m k p q = q

  -- Of a property with an index that is chosen by the same test.
  pub if-Yields-if {ν} :
      {I : Type ν} (P : I → A → Type κ) (b : Bool) (m k : Run Event Outcome A) (i j : I)
      → Yields (P i) m.exit
      → Yields (P j) k.exit
      → Yields (P (if b then i else j)) (if b then m else k).exit
  if-Yields-if P true m k i j p q = p
  if-Yields-if P false m k i j p q = q

module _ {κ ν} {A B : Type 0} (Q : A → Type κ) (P : B → Type ν) where
  pub and_then-Yields :
      (x : Exit Outcome A) (es : List Event) (f : A → Run Event Outcome B)
      → Yields Q x
      → ((a : A) → Q a → Yields P (f a).exit)
      → Yields P (and_then x es f).exit
  and_then-Yields (next a) es f q p =
      let r = p a (q.ensures.holds a refl) in record { ensures = r.ensures; leaves = r.leaves }
  and_then-Yields (stop r) es f q p = record {
    ensures = stop-Ensures P r;
    leaves = stop-Leaves _ r (q.leaves.holds r refl);
  }

-- What a probe that succeeds has shown of its verdict.
module _ {κ} (P : Outcome → Type κ) where
  exit-succeeded :
      (x : Exit Outcome Outcome)
      → Yields P x
      → elim x [ next r ↦ r | stop r ↦ r ] ≡ returned true
      → P (returned true)
  exit-succeeded (next r) y e = y.ensures.holds (returned true) (ap next e)
  exit-succeeded (stop r) y e = absurd (y.leaves.holds r refl e)

  pub succeeded :
      (m : Run Event Outcome Outcome)
      → Yields P m.exit
      → result m ≡ returned true
      → P (returned true)
  succeeded m = exit-succeeded m.exit
