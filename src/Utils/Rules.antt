-- ===== src/Utils/Rules.antt =====
-- What a probe that goes on has of its choice of an address.
use blackbox_exporter_with_g.Common.{◌≡◌, refl, ap, false}
use blackbox_exporter_with_g.Common.Trace.Ensures.{Ensures, next-Ensures, stop-Ensures, next-Leaves}
use blackbox_exporter_with_g.Metrics.Exactly.{
  Exactly, next-Exactly, fail-Exactly, panic-Exactly, same-Exactly,
}
use blackbox_exporter_with_g.Metrics.{returned, panicked}
use blackbox_exporter_with_g.Metrics.Rules.{Fails, fails, panics}
use blackbox_exporter_with_g.Utils.{Choice, chosen, failed, unset, resolved}

pub resolved-Fails : (choice : Choice) → Fails (resolved choice).exit
unfolding resolved
resolved-Fails (chosen ip) = next-Leaves _ ip
resolved-Fails failed = fails
resolved-Fails unset = panics

pub resolved-Ensures : (choice : Choice) → Ensures (λ ip. choice ≡ chosen ip) (resolved choice).exit
unfolding resolved
resolved-Ensures (chosen ip) = next-Ensures _ ip refl
resolved-Ensures failed = stop-Ensures _ (returned false)
resolved-Ensures unset = stop-Ensures _ panicked

pub resolved-Exactly : (choice : Choice) → Exactly (λ ip. choice ≡ chosen ip) (resolved choice).exit
unfolding resolved
resolved-Exactly (chosen ip) = same-Exactly _ _ _ (next-Exactly ip) λ y. (λ e. ap chosen e, λ e. cc)
resolved-Exactly failed = same-Exactly _ _ _ fail-Exactly λ y. (λ f. absurd f, λ e. cc)
resolved-Exactly unset = same-Exactly _ _ _ panic-Exactly λ y. (λ f. absurd f, λ e. cc)
