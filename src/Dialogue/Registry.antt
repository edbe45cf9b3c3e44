-- ===== src/Dialogue/Registry.antt =====
-- The names that a dialogue registers, and what follows from a registry that takes no name twice.
use blackbox_exporter_with_g.Common.{
  ℕ, ◌+◌, ◌≤◌, ◌<◌, String, ◌≡◌, refl, sym, ap, ◌∙◌, true, false, none, some, List, [], ◌∷◌, ◌++◌,
  length, arith, Bool-cases, Option-cases, inl, inr, if◌then◌else◌, ◌==◌, string_eq, eq_iff, not,
  ltb,
}
use blackbox_exporter_with_g.Common.Text.{Bytes, bytes_eq}
use blackbox_exporter_with_g.Common.Trace.{Exit, next, result}
use blackbox_exporter_with_g.Config.Types.{QueryResponse}
use blackbox_exporter_with_g.Metrics.{Outcome, returned}
use blackbox_exporter_with_g.Metrics.Rules.{
  Yields, next-Yields, fail-Yields, panic-Yields, present-Yields, expect-Yields, require-Yields,
  if-Yields, if-Yields-if, and_then-Yields, succeeded,
}
use blackbox_exporter_with_g.Tls.{leaf}
use blackbox_exporter_with_g.Dialogue.{
  Library, Party, query_responses, use_tls, Session, Search, found, exhausted, probe_expect_info,
  failed_due_to_regex, failed_due_to_bytes, tls_collectors, register_one, must_register,
  with_label_values, report_tls, search, expect_info, heard, expect_line, compared, expect_bytes,
  send_line, start_tls, entry, entries, opening, probe_query_responses,
}

abbrev pub count : String → List String → ℕ
count name [] = 0
count name (n ∷ ns) = (if n == name then 1 else 0) + count name ns

-- The names after collectors, after an entry, and after them all.
abbrev pub added : List (String × List String) → List String → List String
added [] names = names
added (c ∷ cs) names = added cs (c.0 ∷ names)

abbrev pub with_labels : QueryResponse → List String → List String
with_labels qr names =
    if qr.expect.compiled
    then elim qr.labels [ none ↦ names | some _ ↦ probe_expect_info ∷ names ]
    else names

abbrev pub with_entry : QueryResponse → List String → List String
with_entry qr names =
    if qr.start_tls then added tls_collectors (with_labels qr names) else with_labels qr names

abbrev pub with_entries : List QueryResponse → List String → List String
with_entries [] names = names
with_entries (qr ∷ qrs) names = with_entries qrs (with_entry qr names)

abbrev pub with_opening : Party → List String → List String
with_opening p names =
    let named = failed_due_to_bytes ∷ failed_due_to_regex ∷ names in
    if use_tls p then added tls_collectors named else named

-- No name stands twice.
abbrev pub Single : List String → Type 0
Single names = (name : String) → count name names ≤ 1

cons-Single :
    (c : String) (names : List String) → count c names ≡ 0 → Single names → Single (c ∷ names)
cons-Single c names fresh h name = elim (Bool-cases (c == name)) [
  | inl same ↦
      (let e : c ≡ name = (eq_iff c name).0 same in
        let f : count name names ≡ 0 = rw e at fresh in rw same (ground (arith, f)))
  | inr other ↦ (let k = h name in rw other (omega arith))
]

module _ {S Match : Type 0} (lib : Library S Match)
    (refuses : (before : List String) (name : String) (labels : List String)
      → 0 < count name before
      → lib.accepts before name labels ≡ false) where
  record Adds (names : List String) (x y : Session S) : Type 0 where
    grown : y.registered ≡ names
    single : Single x.registered → Single y.registered

  unchanged : (x y : Session S) → y.registered ≡ x.registered → Adds x.registered x y
  unchanged x y e = record { grown = e; single = λ h name. rw e (h name) }

  register_one-Adds :
      (c : String × List String) (x : Session S)
      → Yields (Adds (c.0 ∷ x.registered) x) (register_one lib c x).exit
  unfolding register_one
  register_one-Adds c x = elim (Bool-cases (lib.accepts x.registered c.0 c.1)) [
    | inl taken ↦
        (let r = refuses x.registered c.0 c.1 in
          let fresh : count c.0 x.registered ≡ 0 = ground arith in
          rw taken (
            next-Yields _ _ (record { grown = refl; single = cons-Single c.0 x.registered fresh })))
    | inr refused ↦ rw refused (panic-Yields _)
  ]

  Adds-then :
      (f : List String → List String) {names : List String} {x y : Session S}
      (e : Exit Outcome (Session S))
      → Adds names x y
      → Yields (Adds (f y.registered) y) e
      → Yields (Adds (f names) x) e
  Adds-then f e a r = record {
    ensures = record {
      holds = λ z same.
          let b = r.ensures.holds z same in
          record { grown = b.grown ∙ ap f a.grown; single = λ h. b.single (a.single h) };
    };
    leaves = r.leaves;
  }

  -- A step after which only the state is another.
  abbrev kept : List String → List String
  kept names = names

  next-kept : (x : Session S) (s : S) → Yields (Adds x.registered x) (next (record x { state = s }))
  next-kept x s = next-Yields _ _ (record { grown = refl; single = λ h. h })

  self-kept : (x : Session S) → Yields (Adds x.registered x) (next x)
  self-kept x = next-Yields _ _ (record { grown = refl; single = λ h. h })

  must_register-Adds :
      (cs : List (String × List String)) (x : Session S)
      → Yields (Adds (added cs x.registered) x) (must_register lib cs x).exit
  unfolding must_register
  must_register-Adds [] x = self-kept x
  must_register-Adds (c ∷ cs) x =
      and_then-Yields _ _ _ _ _ (register_one-Adds c x)
        λ y a. Adds-then (added cs) _ a (must_register-Adds cs y)

  with_label_values-Adds :
      (names : List String) (name : String) (values : List Bytes) (x y : Session S)
      → Adds names x y
      → Yields (Adds names x) (with_label_values lib name values y).exit
  unfolding with_label_values
  with_label_values-Adds names name values x y a =
      if-Yields _ (lib.takes_values values) _ _ (next-Yields _ y a) (panic-Yields _)

  report_tls-Adds :
      (x : Session S) → Yields (Adds (added tls_collectors x.registered) x) (report_tls lib x).exit
  unfolding report_tls
  report_tls-Adds x = and_then-Yields _ _ _ _ _ (must_register-Adds tls_collectors x) λ y a.
      and_then-Yields _ _ _ _ _ (present-Yields _ (leaf (lib.connection_state x.state)) λ c e. e)
        λ cert _. with_label_values-Adds _ _ _ x y a

  abbrev labelled : QueryResponse → List String → List String
  labelled qr names = elim qr.labels [ none ↦ names | some _ ↦ probe_expect_info ∷ names ]

  expect_info-Adds :
      (qr : QueryResponse) (line : Bytes) (m : Match) (x : Session S)
      → Yields (Adds (labelled qr x.registered) x) (expect_info lib qr line m x).exit
  unfolding expect_info
  expect_info-Adds qr line m x = elim (Option-cases qr.labels) [
    | inl e ↦ rw e (self-kept x)
    | inr (labels, e) ↦ rw e (
        and_then-Yields _ _ _ _ _ (register_one-Adds _ x) λ y a. with_label_values-Adds _ _ _ x y a)
  ]

  heard-Adds :
      (qr : QueryResponse) (x : Session S) (r : Search S Match)
      → Yields (λ sent. Adds (labelled qr x.registered) x sent.1) (heard lib qr x r).exit
  unfolding heard
  heard-Adds qr x (exhausted s) =
      and_then-Yields _ _ _ _ _ (require-Yields (not (lib.scan_error s))) λ _ _. fail-Yields _
  heard-Adds qr x (found line m s) =
      and_then-Yields _ _ _ _ _ (require-Yields (not (lib.scan_error s))) λ _ _.
        and_then-Yields _ _ _ _ _ (expect_info-Adds qr line m (record x { state = s }))
          λ y a. next-Yields _ _ (record { grown = a.grown; single = a.single })

  expect_line-Adds :
      (qr : QueryResponse) (x : Session S)
      → Yields (λ sent. Adds (with_labels qr x.registered) x sent.1) (expect_line lib qr x).exit
  unfolding expect_line
  expect_line-Adds qr x =
      if-Yields-if (λ names sent. Adds names x sent.1) qr.expect.compiled _ _ _ _
        (heard-Adds qr x (search lib qr.expect (lib.lines x.state) (lib.ended x.state)))
        (next-Yields _ _ (unchanged x x refl))

  expect_bytes-Adds :
      (qr : QueryResponse) (x : Session S)
      → Yields (Adds x.registered x) (expect_bytes lib qr x).exit
  unfolding expect_bytes compared
  expect_bytes-Adds qr x = if-Yields _ (qr.expect_bytes == []) _ _ (self-kept x) (
      and_then-Yields _ _ _ _ _ (expect-Yields (lib.read (length qr.expect_bytes) x.state)) λ got _.
        and_then-Yields _ _ _ _ _
          (require-Yields (not (ltb (length got.0) (length qr.expect_bytes))))
          λ _ _. if-Yields _ (qr.expect_bytes == got.0) _ _ (next-kept x got.1) (fail-Yields _))

  send_line-Adds :
      (send : Bytes) (x : Session S) → Yields (Adds x.registered x) (send_line lib send x).exit
  unfolding send_line
  send_line-Adds send x = if-Yields _ (send == []) _ _ (self-kept x) (
      and_then-Yields _ _ _ _ _ (expect-Yields (lib.write (send ++ 10 ∷ []) x.state))
        λ s _. next-kept x s)

  module _ (target : Bytes) (p : Party) where
    abbrev upgraded : QueryResponse → List String → List String
    upgraded qr names = if qr.start_tls then added tls_collectors names else names

    start_tls-Adds :
        (qr : QueryResponse) (x : Session S)
        → Yields (Adds (upgraded qr x.registered) x) (start_tls lib target p qr x).exit
    unfolding start_tls
    start_tls-Adds qr x =
        if-Yields-if (λ names y. Adds names x y) qr.start_tls _ _ _ _
          (and_then-Yields _ _ _ _ _ (expect-Yields (lib.new_tls_config _)) λ c _.
            and_then-Yields _ _ _ _ _ (expect-Yields (lib.handshake _ x.state)) λ s _.
              Adds-then (added tls_collectors) _ (unchanged x (record x { state = s }) refl)
                (report_tls-Adds (record x { state = s })))
          (self-kept x)

    entry-Adds :
        (qr : QueryResponse) (x : Session S)
        → Yields (Adds (with_entry qr x.registered) x) (entry lib target p qr x).exit
    unfolding entry
    entry-Adds qr x = and_then-Yields _ _ _ _ _ (expect_line-Adds qr x) λ sent a.
        and_then-Yields _ _ _ _ _ (Adds-then kept _ a (expect_bytes-Adds qr sent.1)) λ z b.
          and_then-Yields _ _ _ _ _ (Adds-then kept _ b (send_line-Adds sent.0 z))
            λ w d. Adds-then (upgraded qr) _ d (start_tls-Adds qr w)

    entries-Adds :
        (qrs : List QueryResponse) (x : Session S)
        → Yields (Adds (with_entries qrs x.registered) x) (entries lib target p qrs x).exit
    unfolding entries
    entries-Adds [] x = self-kept x
    entries-Adds (qr ∷ qrs) x =
        and_then-Yields _ _ _ _ _ (entry-Adds qr x)
          λ y a. Adds-then (with_entries qrs) _ a (entries-Adds qrs y)

    opening-Adds :
        (x : Session S)
        → Yields (Adds (with_opening p x.registered) x) (opening lib target p x).exit
    unfolding opening
    opening-Adds x =
        and_then-Yields _ _ _ _ _
          (must_register-Adds ((failed_due_to_regex, []) ∷ (failed_due_to_bytes, []) ∷ []) x)
          λ y a. and_then-Yields _ _ _ _ _ (require-Yields (lib.set_deadline y.state)) λ _ _.
            if-Yields-if (λ names z. Adds names x z) (use_tls p) _ _ _ _
              (Adds-then (added tls_collectors) _ a (report_tls-Adds y))
              (Adds-then kept _ a (self-kept y))

    -- The names in the registry where the dialogue succeeds, each of them once.
    pub probe_query_responses-registered :
        (x : Session S)
        → Single x.registered
        → result (probe_query_responses lib target p x) ≡ returned true
        → Single (with_entries (query_responses p) (with_opening p x.registered))
    unfolding probe_query_responses
    probe_query_responses-registered x h =
        succeeded (λ _. Single (with_entries (query_responses p) (with_opening p x.registered)))
          (probe_query_responses lib target p x)
          (and_then-Yields _ _ _ _ _ (opening-Adds x) λ y a.
            and_then-Yields _ _ _ _ _
              (Adds-then (with_entries (query_responses p)) _ a
                (entries-Adds (query_responses p) y))
              λ z b. next-Yields _ _ λ name. (let k = b.single h name in rw (sym b.grown) k))
