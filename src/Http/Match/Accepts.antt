-- ===== src/Http/Match/Accepts.antt =====
-- What the matchers accept.
use blackbox_exporter_with_g.Common.{
  ◌≡◌, ◌≢◌, ◌↔◌, refl, Bool, true, false, some, List, [], ◌∷◌, any, All, arith,
}
use blackbox_exporter_with_g.Common.Text.{Bytes}
use blackbox_exporter_with_g.Config.Types.{Regexp, HeaderMatch, HttpProbe}
use blackbox_exporter_with_g.Http.Match.{
  none_matches, all_match, match_regular_expressions, values_of, rejected_values, missed_values,
  none_rejected, none_missed, match_regular_expressions_on_headers,
}

module _ (matches : Regexp → Bytes → Bool) where
  none_matches_iff :
      (es : List Regexp) (body : Bytes)
      → (none_matches matches es body ≡ true) ↔ All (λ e. matches e body ≡ false) es
  unfolding none_matches
  none_matches_iff [] body = (λ _. tt, λ _. refl)
  none_matches_iff (e ∷ es) body = (
    λ h. (ground arith, (none_matches_iff es body).0 ground arith),
    λ a. rw (a.0) ((none_matches_iff es body).1 a.1),
  )

  all_match_iff :
      (es : List Regexp) (body : Bytes)
      → (all_match matches es body ≡ true) ↔ All (λ e. matches e body ≡ true) es
  unfolding all_match
  all_match_iff [] body = (λ _. tt, λ _. refl)
  all_match_iff (e ∷ es) body = (
    λ h. (ground arith, (all_match_iff es body).0 ground arith),
    λ a. rw (a.0) ((all_match_iff es body).1 a.1),
  )

  -- A body that the module accepts.
  pub record IsMatched (c : HttpProbe) (body : Bytes) : Type 0 where
    pub no_match : All (λ e. matches e body ≡ false) c.fail_if_body_matches_regexp
    pub all_match : All (λ e. matches e body ≡ true) c.fail_if_body_not_matches_regexp

  -- A body that can be read passes exactly if it matches none of the expressions that it must not
  -- match, and all of those that it must match.
  pub match_regular_expressions_iff :
      (body : Bytes) (c : HttpProbe)
      → (match_regular_expressions matches (some body) c ≡ true) ↔ IsMatched c body
  unfolding match_regular_expressions
  match_regular_expressions_iff body c = (
    λ h. record {
      no_match = (none_matches_iff _ body).0 ground arith;
      all_match = (all_match_iff _ body).0 ground arith;
    },
    λ m.
        (let a = (none_matches_iff c.fail_if_body_matches_regexp body).1 m.no_match in
          rw a ((all_match_iff c.fail_if_body_not_matches_regexp body).1 m.all_match)),
  )

  module _ (header : Bytes → List Bytes) where
    -- What `fail_if_header_matches` asks of the values of its header.
    pub record IsClear (m : HeaderMatch) : Type 0 where
      pub present : values_of matches header m ≡ [] → m.allow_missing ≡ true
      pub no_match : any (matches m.regexp) (values_of matches header m) ≡ false

    -- What `fail_if_header_not_matches` asks of the values of its header.
    pub record IsMet (m : HeaderMatch) : Type 0 where
      pub present : values_of matches header m ≡ [] → m.allow_missing ≡ true
      pub some_match :
          values_of matches header m ≢ []
          → any (matches m.regexp) (values_of matches header m) ≡ true

    rejected_values_iff :
        (m : HeaderMatch) (vs : List Bytes)
        → (rejected_values matches header m vs ≡ false)
          ↔ ((vs ≡ [] → m.allow_missing ≡ true) × (any (matches m.regexp) vs ≡ false))
    unfolding rejected_values
    rejected_values_iff m [] = (λ h. (λ _. ground arith, refl), λ a. ground (arith, a.0 refl))
    rejected_values_iff m (v ∷ vs) = (λ h. (λ e. cc, h), λ a. a.1)

    missed_values_iff :
        (m : HeaderMatch) (vs : List Bytes)
        → (missed_values matches header m vs ≡ false)
          ↔ ((vs ≡ [] → m.allow_missing ≡ true) × (vs ≢ [] → any (matches m.regexp) vs ≡ true))
    unfolding missed_values
    missed_values_iff m [] =
        (λ h. (λ _. ground arith, λ n. absurd (n refl)), λ a. ground (arith, a.0 refl))
    missed_values_iff m (v ∷ vs) =
        (λ h. (λ e. cc, λ n. ground arith), λ a. (let hit = a.1 (λ e. cc) in ground arith))

    none_rejected_iff :
        (ms : List HeaderMatch) → (none_rejected matches header ms ≡ true) ↔ All IsClear ms
    unfolding none_rejected
    none_rejected_iff [] = (λ _. tt, λ _. refl)
    none_rejected_iff (m ∷ ms) = (
      λ h.
          let (p, q) = (rejected_values_iff m (values_of matches header m)).0 ground arith in
          (record { present = p; no_match = q }, (none_rejected_iff ms).0 ground arith),
      λ a.
          let fine =
            (rejected_values_iff m (values_of matches header m)).1 (a.0.present, a.0.no_match) in
          rw fine ((none_rejected_iff ms).1 a.1),
    )

    none_missed_iff :
        (ms : List HeaderMatch) → (none_missed matches header ms ≡ true) ↔ All IsMet ms
    unfolding none_missed
    none_missed_iff [] = (λ _. tt, λ _. refl)
    none_missed_iff (m ∷ ms) = (
      λ h.
          let (p, q) = (missed_values_iff m (values_of matches header m)).0 ground arith in
          (record { present = p; some_match = q }, (none_missed_iff ms).0 ground arith),
      λ a.
          let fine =
            (missed_values_iff m (values_of matches header m)).1 (a.0.present, a.0.some_match) in
          rw fine ((none_missed_iff ms).1 a.1),
    )

    -- The headers pass exactly if, for each header that must not match, no value matches, and for
    -- each that must match, some value does; and none of them is missing unless it may be.
    pub match_regular_expressions_on_headers_iff :
        (c : HttpProbe)
        → (match_regular_expressions_on_headers matches header c ≡ true) ↔ (
            All IsClear c.fail_if_header_matches_regexp
            × All IsMet c.fail_if_header_not_matches_regexp)
    unfolding match_regular_expressions_on_headers
    match_regular_expressions_on_headers_iff c = (
      λ h. ((none_rejected_iff _).0 ground arith, (none_missed_iff _).0 ground arith),
      λ a.
          let fine = (none_rejected_iff c.fail_if_header_matches_regexp).1 a.0 in
          rw fine ((none_missed_iff c.fail_if_header_not_matches_regexp).1 a.1),
    )
