-- ===== src/Dialogue/Steps.antt =====
-- The parts of an entry: what is waited for, and what is sent.
use mathlib.Core.Path.{subst}
use blackbox_exporter_with_g.Common.{
  ℕ, ◌≡◌, ◌≢◌, ◌↔◌, ◌⊎◌, refl, sym, ap, ◌∙◌, Bool, true, false, not, some, [], ◌∷◌, ◌++◌, length,
  ltb, arith, inl, inr, string_eq,
}
use blackbox_exporter_with_g.Common.Text.{Bytes, bytes_eq}
use blackbox_exporter_with_g.Config.Types.{QueryResponse}
use blackbox_exporter_with_g.Metrics.Exactly.{
  Exactly, next-Exactly, fail-Exactly, expect-Exactly, require-Exactly, if-Exactly, same-Exactly,
  same_or-Exactly, and_then-Exactly,
}
use blackbox_exporter_with_g.Dialogue.{
  Library, Session, Search, found, exhausted, search, heard, expect_line, compared, expect_bytes,
  send_line,
}
use blackbox_exporter_with_g.Dialogue.Lines.{
  FirstMatch, search-FirstMatch, search-hit, Informed, expect_info-Exactly,
}

not_less : (n : ℕ) → not (ltb n n) ≡ true
not_less n = ground arith

module _ {S Match : Type 0} (lib : Library S Match) where
  -- The line that is waited for has come, or none is; what is to be sent.
  abbrev pub Heard : QueryResponse → Session S → Bytes × Session S → Type 0
  Heard qr x (send, y) =
      ((qr.expect.compiled ≡ true)
        × ((line : Bytes) × (m : Match) × (s : S) × FirstMatch lib qr.expect (lib.lines x.state)
              line m s
            × (lib.scan_error s ≡ false)
            × Informed lib qr line m (record x { state = s }) y
            × (lib.expand qr.expect qr.send line m ≡ send)))
      ⊎ ((qr.expect.compiled ≡ false) × (qr.send ≡ send) × (x ≡ y))

  -- The bytes that are waited for have come, or none are.
  abbrev pub Read : QueryResponse → Session S → Session S → Type 0
  Read qr x y =
      ((qr.expect_bytes ≡ []) × (x ≡ y))
      ⊎ ((qr.expect_bytes ≢ [])
          × ((s : S) × (lib.read (length qr.expect_bytes) x.state ≡ some (qr.expect_bytes, s))
              × (record x { state = s } ≡ y)))

  -- The line has been written, or there is none.
  abbrev pub Written : Bytes → Session S → Session S → Type 0
  Written send x y =
      ((send ≡ []) × (x ≡ y))
      ⊎ ((send ≢ [])
          × ((s : S) × (lib.write (send ++ 10 ∷ []) x.state ≡ some s)
              × (record x { state = s } ≡ y)))

  pub send_line-Exactly :
      (send : Bytes) (x : Session S) → Exactly (Written send x) (send_line lib send x).exit
  unfolding send_line
  send_line-Exactly send x = same_or-Exactly send [] _ _ _ _ (next-Exactly x) (
      and_then-Exactly _ _ _ _ _ (expect-Exactly (lib.write (send ++ 10 ∷ []) x.state))
        λ s. next-Exactly (record x { state = s }))

  pub expect_bytes-Exactly :
      (qr : QueryResponse) (x : Session S) → Exactly (Read qr x) (expect_bytes lib qr x).exit
  unfolding expect_bytes compared
  expect_bytes-Exactly qr x = same_or-Exactly qr.expect_bytes [] _ _ _ _ (next-Exactly x) (
      same-Exactly _ _ _
        (and_then-Exactly _ _ _ _ _ (expect-Exactly (lib.read (length qr.expect_bytes) x.state))
          λ got.
            and_then-Exactly _ _ _ _ _
              (require-Exactly (not (ltb (length got.0) (length qr.expect_bytes))))
              λ _.
                same_or-Exactly qr.expect_bytes got.0 _ _ _ _
                  (next-Exactly (record x { state = got.1 })) fail-Exactly)
        λ y. (
          λ (got, e, (u, long, h)). (elim h [
            | inl (same, f) ↦ (
              got.1,
              subst (λ d. lib.read (length qr.expect_bytes) x.state ≡ some (d, got.1)) (sym same) e,
              f,
            )
            | inr (other, f) ↦ absurd f
          ]),
          λ (s, e, f).
              ((qr.expect_bytes, s), e, (tt, not_less (length qr.expect_bytes), inl (refl, f))),
        ))

  -- What is known after the loop over the lines.
  abbrev Settled : QueryResponse → Session S → Search S Match → Bytes × Session S → Type 0
  Settled qr x (exhausted s) sent = ⊥
  Settled qr x (found line m s) sent =
      (lib.scan_error s ≡ false)
      × Informed lib qr line m (record x { state = s }) sent.1
      × (lib.expand qr.expect qr.send line m ≡ sent.0)

  no_error : (b : Bool) → (not b ≡ true) ↔ (b ≡ false)
  no_error b = ground arith

  heard-Exactly :
      (qr : QueryResponse) (x : Session S) (r : Search S Match)
      → Exactly (Settled qr x r) (heard lib qr x r).exit
  unfolding heard
  heard-Exactly qr x (exhausted s) =
      same-Exactly _ _ _
        (and_then-Exactly _ _ _ _ _ (require-Exactly (not (lib.scan_error s))) λ _. fail-Exactly)
        λ sent. (λ (u, v, f). absurd f, λ f. absurd f)
  heard-Exactly qr x (found line m s) =
      let (p, q) = no_error (lib.scan_error s) in
      let expanded = lib.expand qr.expect qr.send line m in
      same-Exactly _ _ _
        (and_then-Exactly _ _ _ _ _ (require-Exactly (not (lib.scan_error s))) λ _.
          and_then-Exactly _ _ _ _ _ (expect_info-Exactly lib qr line m (record x { state = s }))
            λ y. next-Exactly (expanded, y))
        λ sent. (
          λ (u, e, (y, informed, f)). (
            p e,
            subst (Informed lib qr line m (record x { state = s })) (ap (λ w. w.1) f) informed,
            ap (λ w. w.0) f,
          ),
          λ (e, informed, f). (tt, q e, (sent.1, informed, ap (λ b. (b, sent.1)) f)),
        )

  Settled-found :
      (qr : QueryResponse) (x : Session S) (sent : Bytes × Session S) (r : Search S Match)
      → Settled qr x r sent
      → (line : Bytes) × (m : Match) × (s : S) × (r ≡ found line m s)
        × Settled qr x (found line m s) sent
  Settled-found qr x sent (exhausted s) h = absurd h
  Settled-found qr x sent (found line m s) h = (line, m, s, refl, h)

  pub expect_line-Exactly :
      (qr : QueryResponse) (x : Session S) → Exactly (Heard qr x) (expect_line lib qr x).exit
  unfolding expect_line
  expect_line-Exactly qr x =
      let r = search lib qr.expect (lib.lines x.state) (lib.ended x.state) in
      same-Exactly _ _ _
        (if-Exactly _ _ qr.expect.compiled _ _ (heard-Exactly qr x r) (next-Exactly (qr.send, x)))
        λ sent. (
          λ h. (elim h [
            | inl (c, settled) ↦
                (let (line, m, s, e, (ok, informed, f)) = Settled-found qr x sent r settled in
                  inl (c, (line, m, s, search-FirstMatch lib _ _ _ line m s e, ok, informed, f)))
            | inr (c, e) ↦ inr (c, ap (λ w. w.0) e, ap (λ w. w.1) e)
          ]),
          λ h. (elim h [
            | inl (c, (line, m, s, first, ok, informed, f)) ↦
                (let hit =
                    search-hit lib qr.expect first.before first.later (lib.ended x.state) line m s
                      first.passed first.hit in
                  let e : r ≡ found line m s = rw (first.split) hit in
                  inl (c, subst (λ w. Settled qr x w sent) (sym e) (ok, informed, f)))
            | inr (c, e, f) ↦ inr (c, ap (λ b. (b, x)) e ∙ ap (λ y. (sent.0, y)) f)
          ]),
        )
