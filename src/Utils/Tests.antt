-- ===== src/Utils/Tests.antt =====
-- Runs of the choice of an address, and its theorems at concrete inputs.
use mathlib.Core.Path.{subst}
use blackbox_exporter_with_g.Common.{
  ◌≡◌, refl, Bool, true, false, Option, some, List, [], ◌∷◌, none, All,
}
use blackbox_exporter_with_g.Common.Text.{codes}
use blackbox_exporter_with_g.Common.Net.{Ip}
use blackbox_exporter_with_g.Utils.{
  is_family, chosen, Family, ip4, ip6, Resolver, choose_protocol, wanted,
}
use blackbox_exporter_with_g.Utils.Choose.{
  preferred, choose_protocol-fallback, IsDocumented, IsReported, choose_protocol-IsReported,
}

abbrev home : Ip
home = 127 ∷ 0 ∷ 0 ∷ 1 ∷ []

abbrev near : Ip
near = 10 ∷ 0 ∷ 0 ∷ 1 ∷ []

abbrev v4_only : Family → Option (List Ip)
v4_only ip4 = some (home ∷ [])
v4_only ip6 = none

abbrev hosts : Resolver
hosts = record { lookup_ip = λ f name. v4_only f; lookup_ip_addr = λ name. some (home ∷ near ∷ []) }

-- The fallback is the last address, not the first.
last_fallback : (choose_protocol hosts "ip6" true (codes "localhost")).0 ≡ chosen near
unfolding choose_protocol
last_fallback = refl

choose_protocol-fallback_example :
    (choose_protocol hosts "" true (codes "h")).0 ≡ preferred (wanted "") (some (home ∷ near ∷ []))
choose_protocol-fallback_example = choose_protocol-fallback hosts "" (codes "h")

abbrev AllOf : Family → Option (List Ip) → Type 0
AllOf f none = Unit
AllOf f (some ips) = All (λ ip. is_family f ip ≡ true) ips

v4_only-AllOf : (f : Family) → AllOf f (v4_only f)
v4_only-AllOf ip4 = (refl, tt)
v4_only-AllOf ip6 = tt

hosts-IsDocumented : IsDocumented hosts
hosts-IsDocumented f target ips e = subst (AllOf f) e (v4_only-AllOf f)

choose_protocol-IsReported_example :
    IsReported
      ((◌≡◌ {A = Bool} false false) × (hosts.lookup_ip (wanted "ip4") (codes "h") ≡ some []))
      (choose_protocol hosts "ip4" false (codes "h"))
choose_protocol-IsReported_example =
    choose_protocol-IsReported hosts "ip4" false (codes "h") hosts-IsDocumented
