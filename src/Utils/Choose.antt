-- ===== src/Utils/Choose.antt =====
-- Which address `chooseProtocol` returns, and what its gauges then show.
use blackbox_exporter_with_g.Common.{
  ℕ, String, ◌≡◌, refl, ◌∙◌, Bool, true, false, Option, none, some, List, [], ◌∷◌, ◌++◌, arith, inl,
  inr, find, All, Bool-cases, Option-cases, if◌then◌else◌,
}
use blackbox_exporter_with_g.Common.Net.{Ip}
use blackbox_exporter_with_g.Common.Text.{Bytes}
use blackbox_exporter_with_g.Metrics.{Event}
use blackbox_exporter_with_g.Utils.{
  registered, ip_protocol, ip_addr_hash, lookup_time, Choice, chosen, failed, unset, Family, ip4,
  ip6, Resolver, wanted, is_v4, is_family, ip_hash, Scan, hit, ended, scan, settle, only, either,
  choose_protocol,
}

abbrev pub or_last : Option Ip → List Ip → Option Ip
or_last last [] = last
or_last last (ip ∷ ips) = or_last (some ip) ips

abbrev pub found_or : Option Ip → Option Ip → Choice
found_or (some ip) last = chosen ip
found_or none (some ip) = chosen ip
found_or none none = failed

-- The choice among addresses of both families: the first of the wanted one, else the last of all.
abbrev pub preferred : Family → Option (List Ip) → Choice
preferred f none = failed
preferred f (some ips) = found_or (find (is_family f) ips) (or_last none ips)

choice_of : Scan → Choice
choice_of (hit ip) = chosen ip
choice_of (ended none) = failed
choice_of (ended (some ip)) = chosen ip

scan-choice :
    (f : Family) (last : Option Ip) (ips : List Ip)
    → choice_of (scan f last ips) ≡ found_or (find (is_family f) ips) (or_last last ips)
unfolding choice_of scan
scan-choice f none [] = refl
scan-choice f (some ip) [] = refl
scan-choice f last (ip ∷ ips) = elim (Bool-cases (is_family f ip)) [
  | inl same ↦ rw same
  | inr other ↦ rw other (scan-choice f (some ip) ips)
]

settle-choice : (f : Family) (s : Scan) → (settle f s).0 ≡ choice_of s
unfolding settle choice_of
settle-choice f (hit ip) = refl
settle-choice f (ended none) = refl
settle-choice f (ended (some ip)) = refl

-- With the fallback allowed, the choice is the first address of the wanted family, or the last
-- address of all if there is none; it fails exactly if the lookup fails or finds no address.
pub choose_protocol-fallback :
    (r : Resolver) (protocol : String) (target : Bytes)
    → (choose_protocol r protocol true target).0
      ≡ preferred (wanted protocol) (r.lookup_ip_addr target)
unfolding choose_protocol
choose_protocol-fallback r protocol target = elim (Option-cases (r.lookup_ip_addr target)) [
  | inl lost ↦ rw lost
  | inr (ips, found) ↦
      rw found (settle-choice (wanted protocol) _ ∙ scan-choice (wanted protocol) none ips)
]

-- What the package `net` documents of a lookup for one protocol: its addresses are of that
-- protocol.
abbrev pub IsDocumented : Resolver → Type 0
IsDocumented r =
    (f : Family) (target : Bytes) (ips : List Ip)
    → r.lookup_ip f target ≡ some ips
    → All (λ ip. is_family f ip ≡ true) ips

abbrev pub family_gauge : Ip → ℕ
family_gauge ip = if is_v4 ip then 4 else 6

-- The events of a successful choice of `ip`.
abbrev pub reported : Ip → List Event
reported ip =
    registered ++ ip_protocol (family_gauge ip) ∷ ip_addr_hash (ip_hash ip) ∷ lookup_time ∷ []

-- The events of each choice. `Empty` is when there is neither an address nor an error.
abbrev pub IsReported : Type 0 → Choice × List Event → Type 0
IsReported Empty (chosen ip, events) = events ≡ reported ip
IsReported Empty (failed, events) = events ≡ registered ++ lookup_time ∷ []
IsReported Empty (unset, events) = (events ≡ registered ++ lookup_time ∷ []) × Empty

-- A scan that hits has an address of the family, and its fallback is of the other.
ScanFits : Family → Scan → Type 0
ScanFits f (hit ip) = is_family f ip ≡ true
ScanFits f (ended none) = Unit
ScanFits f (ended (some ip)) = is_family f ip ≡ false

scan-fits :
    (f : Family) (last : Option Ip) (ips : List Ip)
    → ScanFits f (ended last)
    → ScanFits f (scan f last ips)
unfolding scan ScanFits
scan-fits f last [] h = h
scan-fits f last (ip ∷ ips) h = elim (Bool-cases (is_family f ip)) [
  | inl same ↦ rw same same
  | inr other ↦ rw other (scan-fits f (some ip) ips other)
]

abbrev with_registration : Choice × List Event → Choice × List Event
with_registration (choice, events) = (choice, registered ++ events)

settle-IsReported :
    (Empty : Type 0) (f : Family) (s : Scan)
    → ScanFits f s
    → IsReported Empty (with_registration (settle f s))
unfolding settle ScanFits
settle-IsReported Empty ip4 (hit ip) h = rw h
settle-IsReported Empty ip6 (hit ip) h = ground arith
settle-IsReported Empty f (ended none) h = refl
settle-IsReported Empty ip4 (ended (some ip)) h = rw h
settle-IsReported Empty ip6 (ended (some ip)) h = ground arith

only-IsReported :
    (Empty : Type 0) (f : Family) (o : Option (List Ip))
    → (o ≡ some [] → Empty)
    → ((ips : List Ip) → o ≡ some ips → All (λ ip. is_family f ip ≡ true) ips)
    → IsReported Empty (with_registration (only f o))
unfolding only
only-IsReported Empty f none h k = refl
only-IsReported Empty f (some []) h k = (refl, h refl)
only-IsReported Empty ip4 (some (ip ∷ ips)) h k = rw (k (ip ∷ ips) refl).0
only-IsReported Empty ip6 (some (ip ∷ ips)) h k = let fits = (k (ip ∷ ips) refl).0 in ground arith

either-IsReported :
    (Empty : Type 0) (f : Family) (o : Option (List Ip))
    → IsReported Empty (with_registration (either f o))
unfolding either ScanFits
either-IsReported Empty f none = refl
either-IsReported Empty f (some ips) = settle-IsReported Empty f _ (scan-fits f none ips tt)

-- On every path the gauges show the family and the hash of the address that is returned, whether
-- it is of the protocol asked for or of the fallback, and the lookup time is recorded; on an error
-- only the lookup time is. Neither an address nor an error is returned only without the fallback,
-- where the lookup for the one protocol succeeds with no address; then too only the lookup time is
-- set. The addresses of such a lookup are assumed to be of its protocol.
pub choose_protocol-IsReported :
    (r : Resolver) (protocol : String) (fallback : Bool) (target : Bytes)
    → IsDocumented r
    → IsReported
        ((fallback ≡ false) × (r.lookup_ip (wanted protocol) target ≡ some []))
        (choose_protocol r protocol fallback target)
unfolding choose_protocol
choose_protocol-IsReported r protocol true target d = either-IsReported _ (wanted protocol) _
choose_protocol-IsReported r protocol false target d =
    only-IsReported _ (wanted protocol) _ (λ e. (refl, e)) (d _ target)
