-- ===== src/Dialogue/Lines.antt =====
-- The lines that the dialogue waits for, and what it registers.
use mathlib.Core.Path.{subst}
use blackbox_exporter_with_g.Common.{
  String, ◌≡◌, ◌⊎◌, refl, ap, ◌∙◌, true, none, some, List, [], ◌∷◌, ◌++◌, map, All, Option-cases,
  inl, inr, string_eq,
}
use blackbox_exporter_with_g.Common.Text.{Bytes, bytes_eq}
use blackbox_exporter_with_g.Config.Types.{Regexp, Label, QueryResponse}
use blackbox_exporter_with_g.Metrics.Exactly.{
  Exactly, next-Exactly, panic-Exactly, present-Exactly, if-Exactly, same-Exactly, and_then-Exactly,
}
use blackbox_exporter_with_g.Tls.{Certificate, leaf}
use blackbox_exporter_with_g.Dialogue.{
  Library, Session, found, probe_expect_info, tls_collectors, register_one, must_register,
  with_label_values, chain_labels, expanded, report_tls, search, expect_info,
}

module _ {S Match : Type 0} (lib : Library S Match) where
  -- The registry takes the collectors, one after the other.
  abbrev pub Takes : List (String × List String) → Session S → Session S → Type 0
  Takes [] x y = x ≡ y
  Takes (c ∷ cs) x y =
      (lib.accepts x.registered c.0 c.1 ≡ true)
      × Takes cs (record x { registered = c.0 ∷ x.registered }) y

  pub register_one-Exactly :
      (c : String × List String) (x : Session S)
      → Exactly (Takes (c ∷ []) x) (register_one lib c x).exit
  unfolding register_one
  register_one-Exactly c x =
      same-Exactly _ _ _
        (if-Exactly _ _ (lib.accepts x.registered c.0 c.1) _ _ (next-Exactly _) panic-Exactly)
        λ y. (λ h. (elim h [ inl t ↦ t | inr t ↦ absurd t.1 ]), λ t. inl t)

  pub must_register-Exactly :
      (cs : List (String × List String)) (x : Session S)
      → Exactly (Takes cs x) (must_register lib cs x).exit
  unfolding must_register
  must_register-Exactly [] x = next-Exactly x
  must_register-Exactly (c ∷ cs) x =
      same-Exactly _ _ _
        (and_then-Exactly _ _ _ _ _ (register_one-Exactly c x) (must_register-Exactly cs))
        λ y. (λ (z, (taken, e), h). (taken, rw e h), λ (taken, h). (_, (taken, refl), h))

  with_label_values-Exactly :
      (name : String) (values : List Bytes) (x : Session S)
      → Exactly
          (λ y. (lib.takes_values values ≡ true) × (x ≡ y))
          (with_label_values lib name values x).exit
  unfolding with_label_values
  with_label_values-Exactly name values x =
      same-Exactly _ _ _
        (if-Exactly _ _ (lib.takes_values values) _ _ (next-Exactly x) panic-Exactly)
        λ y. (λ h. (elim h [ inl t ↦ t | inr t ↦ absurd t.1 ]), λ t. inl t)

  -- The other side has shown a certificate whose labels are UTF-8, and the registry has taken the
  -- gauges.
  abbrev pub Reported : Session S → Session S → Type 0
  Reported x y =
      Takes tls_collectors x y
      × ((cert : Certificate) × (leaf (lib.connection_state x.state) ≡ some cert)
          × (lib.takes_values (chain_labels lib cert) ≡ true))

  pub report_tls-Exactly : (x : Session S) → Exactly (Reported x) (report_tls lib x).exit
  unfolding report_tls
  report_tls-Exactly x =
      same-Exactly _ _ _
        (and_then-Exactly _ _ _ _ _ (must_register-Exactly tls_collectors x) λ y.
          and_then-Exactly _ _ _ _ _ (present-Exactly (leaf (lib.connection_state x.state)))
            λ cert. with_label_values-Exactly _ _ y)
        λ y. (
          λ (z, taken, (cert, shown, (valid, e))).
              (subst (λ w. Takes tls_collectors x w) e taken, (cert, shown, valid)),
          λ (taken, (cert, shown, valid)). (y, taken, (cert, shown, (valid, refl))),
        )

  -- The first line that matches, and the state after it.
  pub record FirstMatch (re : Regexp) (lines : List (Bytes × S)) (line : Bytes) (m : Match) (s : S)
      : Type 0 where
    pub before : List (Bytes × S)
    pub later : List (Bytes × S)
    pub split : lines ≡ before ++ (line, s) ∷ later
    pub passed : All (λ l. lib.find_submatch_index re l.0 ≡ none) before
    pub hit : lib.find_submatch_index re line ≡ some m

  pub search-FirstMatch :
      (re : Regexp) (lines : List (Bytes × S)) (last : S) (line : Bytes) (m : Match) (s : S)
      → search lib re lines last ≡ found line m s
      → FirstMatch re lines line m s
  unfolding search
  search-FirstMatch re [] last line m s e = cc
  search-FirstMatch re ((l, t) ∷ rest) last line m s e =
      elim (Option-cases (lib.find_submatch_index re l)) [
        | inl miss ↦
            (let f = search-FirstMatch re rest last line m s (rw (miss, search) at e) in
              record {
                before = (l, t) ∷ f.before;
                later = f.later;
                split = ap (λ k. (l, t) ∷ k) f.split;
                passed = (miss, f.passed);
                hit = f.hit;
              })
        | inr (n, hit) ↦
            (let r : found l n t ≡ found line m s = rw (hit, search) at e in
              record { before = []; later = rest; split = cc; passed = tt; hit = cc })
      ]

  pub search-hit :
      (re : Regexp) (before later : List (Bytes × S)) (last : S) (line : Bytes) (m : Match) (s : S)
      → All (λ l. lib.find_submatch_index re l.0 ≡ none) before
      → lib.find_submatch_index re line ≡ some m
      → search lib re (before ++ (line, s) ∷ later) last ≡ found line m s
  unfolding search
  search-hit re [] later last line m s p hit = rw hit refl
  search-hit re ((l, t) ∷ before) later last line m s p hit =
      rw (p.0) (search-hit re before later last line m s p.1 hit)

  -- The labels, if there are any, have been reported, and are UTF-8 as they are expanded.
  abbrev pub Informed : QueryResponse → Bytes → Match → Session S → Session S → Type 0
  Informed qr line m x y =
      ((qr.labels ≡ none) × (x ≡ y))
      ⊎ ((labels : List Label) × (qr.labels ≡ some labels)
          × Takes ((probe_expect_info, map (λ l. l.name) labels) ∷ []) x y
          × (lib.takes_values (expanded lib qr line m labels) ≡ true))

  pub expect_info-Exactly :
      (qr : QueryResponse) (line : Bytes) (m : Match) (x : Session S)
      → Exactly (Informed qr line m x) (expect_info lib qr line m x).exit
  unfolding expect_info
  expect_info-Exactly qr line m x = elim (Option-cases qr.labels) [
    | inl e ↦ rw e (
        same-Exactly _ _ _ (next-Exactly x)
          λ y. (λ h. inl (refl, h), λ h. (elim h [ inl t ↦ t.1 | inr t ↦ cc ])))
    | inr (labels, e) ↦ rw e (
        same-Exactly _ _ _
          (and_then-Exactly _ _ _ _ _ (register_one-Exactly _ x)
            λ y. with_label_values-Exactly _ _ y)
          λ y. (
            λ (z, taken, (valid, same)). inr (labels, refl, (taken.0, taken.1 ∙ same), valid),
            λ h. (elim h [
              | inl t ↦ cc
              | inr (k, same, taken, valid) ↦
                  (let q : k ≡ labels = cc in
                    (
                      y,
                      subst (λ ls. Takes ((probe_expect_info, map (λ l. l.name) ls) ∷ []) x y) q
                          taken,
                      (
                        subst (λ ls. lib.takes_values (expanded lib qr line m ls) ≡ true) q valid,
                        refl,
                      ),
                    ))
            ]),
          ))
  ]
