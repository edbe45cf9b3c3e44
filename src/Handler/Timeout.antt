-- ===== src/Handler/Timeout.antt =====
-- The timeout that a probe is given.
use mathlib.Core.Path.{subst}
use blackbox_exporter_with_g.Common.{
  ◌≡◌, ◌≢◌, ◌⊎◌, refl, inl, inr, true, false, some, [], ◌∷◌, arith, Bool-cases, ◌&&◌, ◌||◌,
}
use blackbox_exporter_with_g.Common.Float.{Floats}
use blackbox_exporter_with_g.Common.Int.{ℤ}
use blackbox_exporter_with_g.Common.Results.{Result, ok, err}
use blackbox_exporter_with_g.Common.Text.{Bytes}
use blackbox_exporter_with_g.Handler.{Reply, asked, capped, budgeted, get_timeout}

module _ (fl : Floats) where
  irrefl : (a : fl.F) → fl.lt a a ≡ false
  irrefl a = elim (Bool-cases (fl.lt a a)) [ inl h ↦ fl.lt_asymm a a h | inr h ↦ h ]

  -- A timeout for a module with this limit, when the scrape leaves `max`: it is one of the two. If
  -- the scrape leaves anything, it is not more than that, and not more than a positive limit; and if
  -- the scrape leaves less than nothing, it is the limit.
  pub record IsTimeout (limit max t : fl.F) : Type 0 where
    pub chosen : (t ≡ limit) ⊎ (t ≡ max)
    pub within_scrape : fl.lt max fl.zero ≡ false → fl.lt max t ≡ false
    pub within_module :
        fl.lt max fl.zero ≡ false → fl.lt fl.zero limit ≡ true → fl.lt limit t ≡ false
    pub late : fl.lt max fl.zero ≡ true → t ≡ limit

  capped-IsTimeout :
      (seconds : ℤ → fl.F) (limit max : fl.F) → IsTimeout limit max (capped fl seconds limit max)
  unfolding capped
  capped-IsTimeout seconds limit max =
      let at_limit = irrefl limit in
      let at_max = irrefl max in
      let apart = fl.lt_asymm limit max in
      record {
        chosen = elim (Bool-cases ((fl.lt limit max && fl.lt fl.zero limit) || fl.lt max fl.zero)) [
          | inl h ↦ inl (rw h)
          | inr h ↦ inr (rw h)
        ];
        within_scrape = λ h. ground (arith, at_limit, at_max, apart);
        within_module = λ h p. ground (arith, at_limit, at_max, apart);
        late = λ h. ground arith;
      }

  module _ (seconds : ℤ → fl.F) where
    -- What the scrape asks for: the default of two minutes if it has no header or a zero in it.
    pub record IsAsked (header : Bytes) (t : fl.F) : Type 0 where
      pub unset : header ≡ [] → t ≡ fl.default_timeout
      pub zero :
          (z : fl.F)
          → header ≢ []
          → fl.parse64 header ≡ some z
          → fl.eq z fl.zero ≡ true
          → t ≡ fl.default_timeout
      pub given :
          (z : fl.F) → header ≢ [] → fl.parse64 header ≡ some z → fl.eq z fl.zero ≡ false → t ≡ z

    asked-IsAsked : (header : Bytes) (t : fl.F) → asked fl seconds header ≡ ok t → IsAsked header t
    unfolding asked
    asked-IsAsked [] t e = record {
      unset = λ _. ground arith;
      zero = λ z n. absurd (n refl);
      given = λ z n. absurd (n refl);
    }
    asked-IsAsked (c ∷ header) t e = record {
      unset = λ n. ground arith;
      zero = λ z n p h. ground arith;
      given = λ z n p h. ground arith;
    }

    budgeted-IsTimeout :
        (limit offset t : fl.F) (r : Result Reply fl.F)
        → budgeted fl seconds limit offset r ≡ ok t
        → (a : fl.F) × (r ≡ ok a) × IsTimeout limit (fl.sub a offset) t
    unfolding budgeted
    budgeted-IsTimeout limit offset t (err e) h = cc
    budgeted-IsTimeout limit offset t (ok a) h =
        let same : capped fl seconds limit (fl.sub a offset) ≡ t = cc in
        (
          a,
          refl,
          subst (IsTimeout limit (fl.sub a offset)) same
              (capped-IsTimeout seconds limit (fl.sub a offset)),
        )

    -- The timeout of a probe, if the header can be read: one of the limit of the module and of what
    -- the scrape leaves after the offset. It is never more than what the scrape leaves, unless that
    -- is negative: then it is the limit of the module. It is never more than a limit that is
    -- positive, unless what the scrape leaves is negative.
    pub get_timeout-IsTimeout :
        (header : Bytes) (timeout : ℤ) (offset t : fl.F)
        → get_timeout fl seconds header timeout offset ≡ ok t
        → (a : fl.F) × IsAsked header a × IsTimeout (seconds timeout) (fl.sub a offset) t
    unfolding get_timeout
    get_timeout-IsTimeout header timeout offset t e =
        let (a, known, timely) =
          budgeted-IsTimeout (seconds timeout) offset t (asked fl seconds header) e in
        (a, asked-IsAsked header a known, timely)
