-- ===== src/Dns.antt =====
-- prober/dns.go: the DNS probe. The package miekg/dns, the regular expressions, TLS configurations
-- and the exchange over the network are parameters.
pub mod Validate
pub mod Probe
mod Tests
use blackbox_exporter_with_g.Common.{
  ℕ, String, Bool, true, false, not, ◌&&◌, Option, none, some, List, [], ◌∷◌, map, any,
  if◌then◌else◌, ◌==◌, ℕ_eq,
}
use blackbox_exporter_with_g.Config.Types.{DnsRrValidator}

-- A resource record: its text, and its serial number if it is of type SOA.
pub record Rr : Type 0 where
  pub text : String
  pub soa_serial : Option ℕ

-- The flags of the loop of `validRRs`.
pub record Flags : Type 0 where
  pub any_match : Bool
  pub all_match : Bool

infixl 5 ◌>>=◌ ◌>>◌
abbrev ◌>>=◌ : {A B : Type 0} → Option A → (A → Option B) → Option B
none >>= f = none
some a >>= f = f a

abbrev ◌>>◌ : {B : Type 0} → Option (Unit {0}) → Option B → Option B
m >> k = m >>= λ _. k

-- `if !b { return false }`
abbrev guard : Bool → Option (Unit {0})
guard true = some tt
guard false = none

abbrev is_empty {ℓ} : {A : Type ℓ} → List A → Bool
is_empty [] = true
is_empty (x ∷ xs) = false

-- `regexp.MatchString`, `none` where the expression does not compile.
module _ (match_string : String → String → Option Bool) where
  -- FailIfMatchesRegexp: false is a `return false`.
  no_match : List String → String → Bool
  no_match [] rr = true
  no_match (re ∷ res) rr = elim (match_string re rr) [
    | none ↦ false
    | some true ↦ false
    | some false ↦ no_match res rr
  ]

  -- FailIfAllMatchRegexp: the new `allMatch`; `none` is a `return false`.
  track_all : Bool → List String → String → Option Bool
  track_all all_match [] rr = some all_match
  track_all all_match (re ∷ res) rr = elim (match_string re rr) [
    | none ↦ none
    | some true ↦ track_all all_match res rr
    | some false ↦ track_all false res rr
  ]

  -- FailIfNotMatchesRegexp
  every_match : List String → String → Bool
  every_match [] rr = true
  every_match (re ∷ res) rr = elim (match_string re rr) [
    | none ↦ false
    | some true ↦ every_match res rr
    | some false ↦ false
  ]

  -- FailIfNoneMatchesRegexp: the new `anyMatch`
  track_any : Bool → List String → String → Option Bool
  track_any any_match [] rr = some any_match
  track_any any_match (re ∷ res) rr = elim (match_string re rr) [
    | none ↦ none
    | some true ↦ track_any true res rr
    | some false ↦ track_any any_match res rr
  ]

  -- One round of the loop over the records.
  check_rr : DnsRrValidator → Flags → String → Option Flags
  check_rr v flags rr = do
    guard (no_match v.fail_if_matches_regexp rr)
    all_match ← track_all flags.all_match v.fail_if_all_match_regexp rr
    guard (every_match v.fail_if_not_matches_regexp rr)
    any_match ← track_any flags.any_match v.fail_if_none_matches_regexp rr
    some (record { any_match = any_match; all_match = all_match })

  check_rrs : DnsRrValidator → Flags → List Rr → Option Flags
  check_rrs v flags [] = some flags
  check_rrs v flags (rr ∷ rrs) = elim (check_rr v flags rr.text) [
    | none ↦ none
    | some flags' ↦ check_rrs v flags' rrs
  ]

  -- The tests after the loop.
  final : DnsRrValidator → Option Flags → Bool
  final v none = false
  final v (some flags) =
      if not (is_empty v.fail_if_all_match_regexp) && not flags.all_match
      then false
      else if not (is_empty v.fail_if_none_matches_regexp) && not flags.any_match
      then false
      else true

  pub valid_rrs : List Rr → DnsRrValidator → Bool
  unfolding no_match track_all every_match track_any check_rr check_rrs final
  valid_rrs rrs v =
      if is_empty rrs && not (is_empty v.fail_if_not_matches_regexp)
      then false
      else if is_empty rrs && not (is_empty v.fail_if_none_matches_regexp)
      then false
      else final v (check_rrs v (record { any_match = false; all_match = true }) rrs)

-- `dns.StringToRcode`
module _ (string_to_rcode : String → Option ℕ) where
  -- The codes of the names, `none` if one is unknown.
  rcodes : List String → Option (List ℕ)
  rcodes [] = some []
  rcodes (name ∷ names) = do rc ← string_to_rcode name; rest ← rcodes names; some (rc ∷ rest)

  -- A missing key of a map reads as 0.
  abbrev or_zero : Option ℕ → ℕ
  or_zero none = 0
  or_zero (some n) = n

  -- `validRcodes`; `none` is a `return false`.
  valid_codes : Option (List String) → Option (List ℕ)
  valid_codes none = some (or_zero (string_to_rcode "NOERROR") ∷ [])
  valid_codes (some names) = rcodes names

  pub valid_rcode : ℕ → Option (List String) → Bool
  unfolding rcodes valid_codes
  valid_rcode rcode valid = elim (valid_codes valid) [
    | none ↦ false
    | some codes ↦ any (λ rc. rcode == rc) codes
  ]
