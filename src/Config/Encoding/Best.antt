-- ===== src/Config/Encoding/Best.antt =====
-- The verdict on an `Accept-Encoding` header does not depend on the sorting: it asks for some entry
-- that covers the compression with a quality above zero.
use blackbox_exporter_with_g.Common.{
  ◌≡◌, refl, ap, ◌∙◌, Bool, false, ◌&&◌, ◌||◌, List, [], ◌∷◌, map, arith, any, All, inl, inr,
  Bool-cases, ◌==◌,
}
use blackbox_exporter_with_g.Common.Text.{Bytes, bytes_eq}
use blackbox_exporter_with_g.Common.Float.{Floats}
use blackbox_exporter_with_g.Config.Encoding.{
  EncodingQuality, parse_part, split, insert, sort, covers, first_covering,
  is_compression_accept_encoding_valid,
}

module _ (floats : Floats) where
  open floats use {F, zero, lt, is_nan, lt_asymm, lt_cotrans}

  abbrev Entry : Type 0
  Entry = EncodingQuality floats

  -- No entry of the list has a higher quality.
  abbrev AtLeast : Entry → List Entry → Type 0
  AtLeast e es = All (λ x. lt e.quality x.quality ≡ false) es

  abbrev Falling : List Entry → Type 0
  Falling [] = Unit
  Falling (e ∷ es) = AtLeast e es × Falling es

  abbrev pub Comparable : List Entry → Type 0
  Comparable es = All (λ (e : Entry). is_nan e.quality ≡ false) es

  -- `lt` is transitive upwards where the middle is not above.
  AtLeast-weaken :
      (e x : Entry) (es : List Entry)
      → lt e.quality x.quality ≡ false
      → AtLeast x es
      → Comparable (x ∷ es)
      → AtLeast e es
  AtLeast-weaken e x [] h a c = tt
  AtLeast-weaken e x (y ∷ ys) h a c = (
    elim (Bool-cases (lt e.quality y.quality)) [
      | inl above ↦ ground (arith, lt_cotrans e.quality y.quality x.quality c.0 above)
      | inr not_above ↦ not_above
    ],
    AtLeast-weaken e x ys h a.1 (c.0, c.1.1),
  )

  AtLeast-insert :
      (e x : Entry) (es : List Entry)
      → lt x.quality e.quality ≡ false
      → AtLeast x es
      → AtLeast x (insert floats e es)
  unfolding insert
  AtLeast-insert e x [] h a = (h, tt)
  AtLeast-insert e x (y ∷ ys) h a = elim (Bool-cases (lt e.quality y.quality)) [
    | inl below ↦ rw below (a.0, AtLeast-insert e x ys h a.1)
    | inr above ↦ rw above (h, a)
  ]

  Falling-insert :
      (e : Entry) (es : List Entry) → Comparable es → Falling es → Falling (insert floats e es)
  unfolding insert
  Falling-insert e [] c f = (tt, tt)
  Falling-insert e (x ∷ xs) c f = elim (Bool-cases (lt e.quality x.quality)) [
    | inl below ↦ rw below (
      AtLeast-insert e x xs (lt_asymm e.quality x.quality below) f.0,
      Falling-insert e xs c.1 f.1,
    )
    | inr above ↦ rw above ((above, AtLeast-weaken e x xs above f.0 c), f)
  ]

  Comparable-insert :
      (e : Entry) (es : List Entry)
      → is_nan e.quality ≡ false
      → Comparable es
      → Comparable (insert floats e es)
  unfolding insert
  Comparable-insert e [] n c = (n, tt)
  Comparable-insert e (x ∷ xs) n c = elim (Bool-cases (lt e.quality x.quality)) [
    | inl below ↦ rw below (c.0, Comparable-insert e xs n c.1)
    | inr above ↦ rw above (n, c)
  ]

  sort-Comparable : (es : List Entry) → Comparable es → Comparable (sort floats es)
  unfolding sort
  sort-Comparable [] c = tt
  sort-Comparable (e ∷ es) c = Comparable-insert e (sort floats es) c.0 (sort-Comparable es c.1)

  sort-Falling : (es : List Entry) → Comparable es → Falling (sort floats es)
  unfolding sort
  sort-Falling [] c = tt
  sort-Falling (e ∷ es) c =
      Falling-insert e (sort floats es) (sort-Comparable es c.1) (sort-Falling es c.1)

  -- An entry with a quality above zero that covers the compression.
  abbrev pub offers : Bytes → Entry → Bool
  offers compression e = covers floats compression e && lt zero e.quality

  any-insert :
      (p : Entry → Bool) (e : Entry) (es : List Entry)
      → any p (insert floats e es) ≡ (p e || any p es)
  unfolding insert
  any-insert p e [] = refl
  any-insert p e (x ∷ xs) = ground (arith, any-insert p e xs)

  any-sort : (p : Entry → Bool) (es : List Entry) → any p (sort floats es) ≡ any p es
  unfolding sort
  any-sort p [] = refl
  any-sort p (e ∷ es) = any-insert p e (sort floats es) ∙ ap (λ b. p e || b) (any-sort p es)

  -- Nothing after an entry that is not above zero is above zero.
  none_above :
      (compression : Bytes) (e : Entry) (es : List Entry)
      → lt zero e.quality ≡ false
      → is_nan e.quality ≡ false
      → AtLeast e es
      → any (offers compression) es ≡ false
  none_above compression e [] z n a = refl
  none_above compression e (x ∷ xs) z n a = elim (Bool-cases (lt zero x.quality)) [
    | inl above ↦ ground (arith, a.0, lt_cotrans zero x.quality e.quality n above)
    | inr not_above ↦ ground (arith, none_above compression e xs z n a.1)
  ]

  first_covering-any :
      (compression : Bytes) (es : List Entry)
      → Comparable es
      → Falling es
      → first_covering floats compression es ≡ any (offers compression) es
  unfolding first_covering
  first_covering-any compression [] c f = refl
  first_covering-any compression (e ∷ es) c f = elim (Bool-cases (lt zero e.quality)) [
    | inl above ↦ ground (arith, first_covering-any compression es c.1 f.1)
    | inr zero_or_less ↦ ground (
      arith,
      first_covering-any compression es c.1 f.1,
      none_above compression e es zero_or_less c.0 f.0,
    )
  ]

  abbrev pub entries : Bytes → List Entry
  entries accept_encoding = map (parse_part floats) (split b',' accept_encoding)

  -- Where no quality is NaN, a compression and an `Accept-Encoding` header are valid together
  -- exactly if one of them is empty or some entry of the header names the compression, or all by
  -- `*`, with a quality above zero. So the order of the entries does not matter.
  pub is_compression_accept_encoding_valid-any :
      (compression accept_encoding : Bytes)
      → Comparable (entries accept_encoding)
      → is_compression_accept_encoding_valid floats compression accept_encoding ≡ (
          compression == []
          || accept_encoding == []
          || any (offers compression) (entries accept_encoding))
  unfolding is_compression_accept_encoding_valid
  is_compression_accept_encoding_valid-any compression accept_encoding c =
      let es = entries accept_encoding in
      let sorted =
        first_covering-any compression (sort floats es) (sort-Comparable es c) (sort-Falling es c)
        ∙ any-sort (offers compression) es in
      ground (arith, sorted)
