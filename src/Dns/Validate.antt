-- ===== src/Dns/Validate.antt =====
-- What the two validations of a DNS answer accept.
use blackbox_exporter_with_g.Common.{
  ℕ, ◌≡◌, refl, String, Bool, true, false, not, ◌&&◌, ◌||◌, Option, none, some, List, [], ◌∷◌,
  arith, inl, inr, any, all, if◌then◌else◌, Option-cases, ◌==◌, ℕ_eq, ◌↔◌,
}
use blackbox_exporter_with_g.Config.Types.{DnsRrValidator}
use blackbox_exporter_with_g.Dns.{
  Rr, Flags, is_empty, no_match, track_all, every_match, track_any, check_rr, check_rrs, valid_rrs,
  rcodes, or_zero, valid_rcode,
}

abbrev pub hits : Option Bool → Bool
hits (some true) = true
hits _ = false

abbrev pub misses : Option Bool → Bool
misses (some false) = true
misses _ = false

abbrev pub compiles : Option Bool → Bool
compiles (some _) = true
compiles none = false

module _ (match_string : String → String → Option Bool) where
  -- Each test of one record as a test on all or some of its expressions.
  abbrev all_res : (Option Bool → Bool) → List String → String → Bool
  all_res p res rr = all (λ re. p (match_string re rr)) res

  abbrev any_res : (Option Bool → Bool) → List String → String → Bool
  any_res p res rr = any (λ re. p (match_string re rr)) res

  no_match-all :
      (res : List String) (rr : String) → no_match match_string res rr ≡ all_res misses res rr
  unfolding no_match
  no_match-all [] rr = refl
  no_match-all (re ∷ res) rr = ground (arith, no_match-all res rr)

  every_match-all :
      (res : List String) (rr : String) → every_match match_string res rr ≡ all_res hits res rr
  unfolding every_match
  every_match-all [] rr = refl
  every_match-all (re ∷ res) rr = ground (arith, every_match-all res rr)

  track_all-all :
      (seen : Bool) (res : List String) (rr : String)
      → track_all match_string seen res rr
        ≡ (if all_res compiles res rr then some (seen && all_res hits res rr) else none)
  unfolding track_all
  track_all-all seen [] rr = ground arith
  track_all-all seen (re ∷ res) rr =
      ground (arith, track_all-all seen res rr, track_all-all false res rr)

  track_any-any :
      (seen : Bool) (res : List String) (rr : String)
      → track_any match_string seen res rr
        ≡ (if all_res compiles res rr then some (seen || any_res hits res rr) else none)
  unfolding track_any
  track_any-any seen [] rr = ground arith
  track_any-any seen (re ∷ res) rr =
      ground (arith, track_any-any seen res rr, track_any-any true res rr)

  -- A record that does not end the probe at once.
  abbrev pub passes : DnsRrValidator → Rr → Bool
  passes v rr =
      all_res misses v.fail_if_matches_regexp rr.text
      && all_res compiles v.fail_if_all_match_regexp rr.text
      && all_res hits v.fail_if_not_matches_regexp rr.text
      && all_res compiles v.fail_if_none_matches_regexp rr.text

  abbrev pub all_hit : DnsRrValidator → List Rr → Bool
  all_hit v rrs = all (λ rr. all_res hits v.fail_if_all_match_regexp rr.text) rrs

  abbrev pub any_hit : DnsRrValidator → List Rr → Bool
  any_hit v rrs = any (λ rr. any_res hits v.fail_if_none_matches_regexp rr.text) rrs

  check_rr-passes :
      (v : DnsRrValidator) (flags : Flags) (rr : Rr)
      → check_rr match_string v flags rr.text ≡ (
          if passes v rr
          then some (record {
            any_match = flags.any_match || any_res hits v.fail_if_none_matches_regexp rr.text;
            all_match = flags.all_match && all_res hits v.fail_if_all_match_regexp rr.text;
          })
          else none)
  unfolding check_rr
  check_rr-passes v flags rr = ground (
    arith,
    no_match-all v.fail_if_matches_regexp rr.text,
    every_match-all v.fail_if_not_matches_regexp rr.text,
    track_all-all flags.all_match v.fail_if_all_match_regexp rr.text,
    track_any-any flags.any_match v.fail_if_none_matches_regexp rr.text,
  )

  check_rrs-passes :
      (v : DnsRrValidator) (flags : Flags) (rrs : List Rr)
      → check_rrs match_string v flags rrs ≡ (
          if all (passes v) rrs
          then some (record {
            any_match = flags.any_match || any_hit v rrs;
            all_match = flags.all_match && all_hit v rrs;
          })
          else none)
  unfolding check_rrs
  check_rrs-passes v flags [] = ground arith
  check_rrs-passes v flags (rr ∷ rrs) =
      let flags' : Flags = record {
        any_match = flags.any_match || any_res hits v.fail_if_none_matches_regexp rr.text;
        all_match = flags.all_match && all_res hits v.fail_if_all_match_regexp rr.text;
      } in
      ground (arith, check_rr-passes v flags rr, check_rrs-passes v flags' rrs)

  -- What a list of records has to be for a validator.
  abbrev pub accepts : DnsRrValidator → List Rr → Bool
  accepts v rrs =
      (not (is_empty rrs)
        || is_empty v.fail_if_not_matches_regexp && is_empty v.fail_if_none_matches_regexp)
      && all (passes v) rrs
      && (is_empty v.fail_if_all_match_regexp || all_hit v rrs)
      && (is_empty v.fail_if_none_matches_regexp || any_hit v rrs)

  -- The validation of a list of records succeeds exactly if: it is not empty where a match is
  -- required (`fail_if_not_matches_regexp` or `fail_if_none_matches_regexp` is set); every
  -- expression that is tried compiles; no record matches an expression of `fail_if_matches_regexp`;
  -- every record matches every one of `fail_if_not_matches_regexp`; some record matches one of
  -- `fail_if_none_matches_regexp`, if set; and every record matches every expression of
  -- `fail_if_all_match_regexp`.
  pub valid_rrs-accepts :
      (rrs : List Rr) (v : DnsRrValidator) → valid_rrs match_string rrs v ≡ accepts v rrs
  unfolding valid_rrs
  valid_rrs-accepts rrs v =
      ground (arith, check_rrs-passes v (record { any_match = false; all_match = true }) rrs)

-- `dns.StringToRcode`
module _ (string_to_rcode : String → Option ℕ) where
  abbrev pub is_code : ℕ → Option ℕ → Bool
  is_code rcode none = false
  is_code rcode (some rc) = rcode == rc

  abbrev is_list : Option (List ℕ) → Bool
  is_list none = false
  is_list (some _) = true

  abbrev pub is_known : Option ℕ → Bool
  is_known none = false
  is_known (some rc) = true

  -- Whether a list of names has codes.
  rcodes-all :
      (names : List String)
      → is_list (rcodes string_to_rcode names) ≡ all (λ name. is_known (string_to_rcode name)) names
  unfolding rcodes
  rcodes-all [] = refl
  rcodes-all (name ∷ names) = elim (Option-cases (string_to_rcode name)) [
    | inl unknown ↦ rw unknown
    | inr (rc, known) ↦
        let ih = rcodes-all names in
        elim (Option-cases (rcodes string_to_rcode names)) [
          | inl lost ↦ rw (known, lost) (rw lost at ih)
          | inr (rest, got) ↦ rw (known, got) (rw got at ih)
        ]
  ]

  rcodes-known :
      (rcode : ℕ) (names : List String)
      → (elim (rcodes string_to_rcode names) as (λ _. Bool) [
        | none ↦ false
        | some codes ↦ any (λ rc. rcode == rc) codes
      ])
        ≡ (all (λ name. is_known (string_to_rcode name)) names
            && any (λ name. is_code rcode (string_to_rcode name)) names)
  unfolding rcodes
  rcodes-known rcode [] = refl
  rcodes-known rcode (name ∷ names) = elim (Option-cases (string_to_rcode name)) [
    | inl unknown ↦ rw unknown
    | inr (rc, known) ↦
        let ih = rcodes-known rcode names in
        elim (Option-cases (rcodes string_to_rcode names)) [
          | inl lost ↦ rw (known, lost) (ground (arith, rw lost at (rcodes-all names)))
          | inr (rest, got) ↦
              rw (known, got) (ground (arith, rw got at ih, rw got at (rcodes-all names)))
        ]
  ]

  -- With a list of valid codes, a response is accepted exactly if all names of the list are known
  -- and the code of one of them is the response's; with no list, exactly if its code is NOERROR's.
  pub valid_rcode-accepts :
      (rcode : ℕ) (names : List String)
      → (valid_rcode string_to_rcode rcode (some names) ≡ (
          all (λ name. is_known (string_to_rcode name)) names
          && any (λ name. is_code rcode (string_to_rcode name)) names))
        × ((valid_rcode string_to_rcode rcode none ≡ true)
            ↔ (rcode ≡ or_zero string_to_rcode (string_to_rcode "NOERROR")))
  unfolding valid_rcode
  valid_rcode-accepts rcode names = (rcodes-known rcode names, ground arith)
