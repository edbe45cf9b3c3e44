-- ===== src/Common/Trace.antt =====
-- Probes as computations that leave a trace of events, in order, and may return early: `stop r` is a
-- `return r` in the middle of the function.
pub mod Ensures
use mathlib.Core.List.{List, [], ◌++◌}

pub data Exit {ℓ} (R A : Type ℓ) : Type ℓ where
  next : A → Exit R A
  stop : R → Exit R A

pub record Run {ℓ} (E R A : Type ℓ) : Type ℓ where
  pub exit : Exit R A
  pub events : List E

module _ {ℓ} {E R A : Type ℓ} where
  abbrev pub pure : A → Run E R A
  pure a = record { exit = next a; events = [] }

  abbrev pub leave : R → Run E R A
  leave r = record { exit = stop r; events = [] }

  -- Only the events.
  abbrev pub emit : List E → A → Run E R A
  emit es a = record { exit = next a; events = es }

module _ {ℓ} {E R A B : Type ℓ} where
  abbrev pub and_then : Exit R A → List E → (A → Run E R B) → Run E R B
  and_then (next a) es f = record { exit = (f a).exit; events = es ++ (f a).events }
  and_then (stop r) es f = record { exit = stop r; events = es }

  infixl 5 ◌>>=◌ ◌>>◌
  abbrev pub ◌>>=◌ : Run E R A → (A → Run E R B) → Run E R B
  m >>= f = and_then m.exit m.events f

  abbrev pub ◌>>◌ : Run E R A → Run E R B → Run E R B
  m >> k = m >>= λ _. k

-- What the function returns: an early `return`, or its last value.
abbrev pub result {ℓ} : {E R : Type ℓ} → Run E R R → R
result m = elim m.exit [ next r ↦ r | stop r ↦ r ]
