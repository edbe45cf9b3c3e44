-- ===== src/Common/Trace/Ensures.antt =====
-- What is known where a computation has gone on: each step adds what its value shows of it.
use mathlib.Core.Path.{◌≡◌, refl, subst}
use mathlib.Core.List.{List}
use blackbox_exporter_with_g.Common.Trace.{Exit, next, stop, Run, and_then}

-- Whatever value the computation goes on with has the property. Its events are left out, so steps
-- that only leave events have no rule.
pub record Ensures {ℓ κ} {R A : Type ℓ} (P : A → Type κ) (x : Exit R A) : Type (ℓ ⊔ κ) where
  pub holds : (a : A) → x ≡ next a → P a

module _ {ℓ κ} {R A : Type ℓ} where
  pub next-Ensures : (P : A → Type κ) (a : A) → P a → Ensures {R = R} P (next a)
  next-Ensures P a p = record { holds = λ b e. (let same : a ≡ b = cc in subst P same p) }

  pub stop-Ensures : (P : A → Type κ) (r : R) → Ensures P (stop r)
  stop-Ensures P r = record { holds = λ b e. cc }

-- Of any computation, that it has gone on.
pub self-Ensures {ℓ} : {R A : Type ℓ} (x : Exit R A) → Ensures (λ a. x ≡ next a) x
self-Ensures x = record { holds = λ a e. e }

module _ {ℓ κ ν} {E R A B : Type ℓ} (Q : A → Type κ) (P : B → Type ν) where
  pub and_then-Ensures :
      (x : Exit R A) (es : List E) (f : A → Run E R B)
      → Ensures Q x
      → ((a : A) → Q a → Ensures P (f a).exit)
      → Ensures P (and_then x es f).exit
  and_then-Ensures (next a) es f q p = p a (q.holds a refl)
  and_then-Ensures (stop r) es f q p = stop-Ensures P r

-- Whatever the computation returns early has the property.
pub record Leaves {ℓ κ} {R A : Type ℓ} (P : R → Type κ) (x : Exit R A) : Type (ℓ ⊔ κ) where
  pub holds : (r : R) → x ≡ stop r → P r

module _ {ℓ κ} {R A : Type ℓ} where
  pub next-Leaves : (P : R → Type κ) (a : A) → Leaves P (next a)
  next-Leaves P a = record { holds = λ r e. cc }

  pub stop-Leaves : (P : R → Type κ) (r : R) → P r → Leaves {A = A} P (stop r)
  stop-Leaves P r p = record { holds = λ q e. (let same : r ≡ q = cc in subst P same p) }

module _ {ℓ κ} {E R A B : Type ℓ} (P : R → Type κ) where
  pub and_then-Leaves :
      (x : Exit R A) (es : List E) (f : A → Run E R B)
      → Leaves P x
      → ((a : A) → Leaves P (f a).exit)
      → Leaves P (and_then x es f).exit
  and_then-Leaves (next a) es f q p = p a
  and_then-Leaves (stop r) es f q p = stop-Leaves P r (q.holds r refl)
