-- ===== src/Metrics/Exactly.antt =====
-- What a step of a probe goes on with, exactly: rules that put together the relation of a run.
use blackbox_exporter_with_g.Common.{
  ◌≡◌, ◌≢◌, ◌↔◌, ◌⊎◌, refl, ap, inl, inr, Bool, true, false, Option, none, some, List,
  if◌then◌else◌, Eq, ◌==◌,
}
use blackbox_exporter_with_g.Common.Trace.{Exit, next, stop, Run, and_then, result}
use blackbox_exporter_with_g.Metrics.{Event, Outcome, returned, panicked, expect, require, present}

-- The computation goes on with the values that have the property, and does not succeed early.
pub record Exactly {κ} {A : Type 0} (P : A → Type κ) (x : Exit Outcome A) : Type κ where
  pub goes_on : (a : A) → (x ≡ next a) ↔ P a
  pub fails : x ≢ stop (returned true)

module _ {A : Type 0} where
  pub next-Exactly : (a : A) → Exactly (λ b. a ≡ b) (next a)
  next-Exactly a = record { goes_on = λ b. (λ e. cc, λ e. cc); fails = λ e. cc }

  pub fail-Exactly : Exactly {A = A} (λ b. ⊥) (stop (returned false))
  fail-Exactly = record { goes_on = λ b. (λ e. cc, λ e. absurd e); fails = λ e. cc }

  pub panic-Exactly : Exactly {A = A} (λ b. ⊥) (stop panicked)
  panic-Exactly = record { goes_on = λ b. (λ e. cc, λ e. absurd e); fails = λ e. cc }

  pub expect-Exactly : (o : Option A) → Exactly (λ a. o ≡ some a) (expect o).exit
  expect-Exactly none = record { goes_on = λ b. (λ e. cc, λ e. cc); fails = λ e. cc }
  expect-Exactly (some a) = record { goes_on = λ b. (λ e. cc, λ e. cc); fails = λ e. cc }

  pub present-Exactly : (o : Option A) → Exactly (λ a. o ≡ some a) (present o).exit
  present-Exactly none = record { goes_on = λ b. (λ e. cc, λ e. cc); fails = λ e. cc }
  present-Exactly (some a) = record { goes_on = λ b. (λ e. cc, λ e. cc); fails = λ e. cc }

  pub if-Exactly {κ ν} :
      (P : A → Type κ) (Q : A → Type ν) (b : Bool) (m k : Run Event Outcome A)
      → Exactly P m.exit
      → Exactly Q k.exit
      → Exactly (λ a. ((b ≡ true) × P a) ⊎ ((b ≡ false) × Q a)) (if b then m else k).exit
  if-Exactly P Q true m k p q = record {
    goes_on = λ a. (
      λ e. inl (refl, (p.goes_on a).0 e),
      λ h. (elim h [ inl t ↦ (p.goes_on a).1 t.1 | inr t ↦ cc ]),
    );
    fails = p.fails;
  }
  if-Exactly P Q false m k p q = record {
    goes_on = λ a. (
      λ e. inr (refl, (q.goes_on a).0 e),
      λ h. (elim h [ inl t ↦ cc | inr t ↦ (q.goes_on a).1 t.1 ]),
    );
    fails = q.fails;
  }

  pub same-Exactly {κ ν} :
      (P : A → Type κ) (Q : A → Type ν) (x : Exit Outcome A)
      → Exactly P x
      → ((a : A) → P a ↔ Q a)
      → Exactly Q x
  same-Exactly P Q x p s = record {
    goes_on = λ a. (λ e. (s a).0 ((p.goes_on a).0 e), λ q. (p.goes_on a).1 ((s a).1 q));
    fails = p.fails;
  }

unequal : (b : Bool) → (b ≢ true) → b ≡ false
unequal true n = absurd (n refl)
unequal false n = refl

-- A branch on whether two values are the same.
pub same_or-Exactly {κ ν} :
    {T A : Type 0} ⦃tests : Eq T⦄ (x y : T) (P : A → Type κ) (Q : A → Type ν)
    (m k : Run Event Outcome A)
    → Exactly P m.exit
    → Exactly Q k.exit
    → Exactly (λ a. ((x ≡ y) × P a) ⊎ ((x ≢ y) × Q a)) (if x == y then m else k).exit
same_or-Exactly ⦃tests⦄ x y P Q m k p q =
    let r = tests.same_iff x y in
    same-Exactly _ _ _ (if-Exactly P Q (x == y) m k p q) λ a. (
      λ h. (elim h [
        | inl (e, b) ↦ inl (r.0 e, b)
        | inr (n, b) ↦ inr (λ e. (let t = r.1 e in cc), b)
      ]),
      λ h. (elim h [
        | inl (e, b) ↦ inl (r.1 e, b)
        | inr (n, b) ↦ inr (unequal (x == y) (λ t. n (r.0 t)), b)
      ]),
    )

pub require-Exactly : (b : Bool) → Exactly (λ u. b ≡ true) (require b).exit
require-Exactly true = record { goes_on = λ u. (λ e. refl, λ e. refl); fails = λ e. cc }
require-Exactly false = record { goes_on = λ u. (λ e. cc, λ e. cc); fails = λ e. cc }

module _ {κ ν} {A B : Type 0} (Q : A → Type κ) (P : A → B → Type ν) where
  pub and_then-Exactly :
      (x : Exit Outcome A) (es : List Event) (f : A → Run Event Outcome B)
      → Exactly Q x
      → ((a : A) → Exactly (P a) (f a).exit)
      → Exactly (λ b. (a : A) × Q a × P a b) (and_then x es f).exit
  and_then-Exactly (next a) es f q p = record {
    goes_on = λ b. (
      λ e. (a, (q.goes_on a).0 refl, ((p a).goes_on b).0 e),
      λ (c, h, k).
          (let same : a ≡ c = (let s = (q.goes_on c).1 h in cc) in rw same (((p c).goes_on b).1 k)),
    );
    fails = (p a).fails;
  }
  and_then-Exactly (stop r) es f q p = record {
    goes_on = λ b. (λ e. cc, λ (c, h, k). (let s = (q.goes_on c).1 h in cc));
    fails = λ e. q.fails cc;
  }

module _ {κ} (P : Outcome → Type κ) where
  exit_succeeded :
      (x : Exit Outcome Outcome)
      → Exactly P x
      → elim x [ next r ↦ r | stop r ↦ r ] ≡ returned true
      → P (returned true)
  exit_succeeded (next r) p e = (p.goes_on (returned true)).0 (ap next e)
  exit_succeeded (stop r) p e = absurd (p.fails (ap stop e))

  -- A probe that returns true only at its end succeeds exactly if it goes on to that.
  pub succeeded_iff :
      (m : Run Event Outcome Outcome)
      → Exactly P m.exit
      → (result m ≡ returned true) ↔ P (returned true)
  succeeded_iff m p =
      (exit_succeeded m.exit p, λ h. (let e = (p.goes_on (returned true)).1 h in rw e refl))
