-- ===== src/Dialogue/Once.antt =====
-- How often a dialogue that succeeds can have registered the gauges of TLS and of the labels.
use blackbox_exporter_with_g.Common.{
  ℕ, ◌+◌, ◌≤◌, ◌<◌, String, ◌≡◌, Bool, true, false, ◌&&◌, Option, none, some, List, [], ◌∷◌, arith,
  if◌then◌else◌,
}
use blackbox_exporter_with_g.Common.Text.{Bytes}
use blackbox_exporter_with_g.Common.Trace.{result}
use blackbox_exporter_with_g.Config.Types.{QueryResponse, Label}
use blackbox_exporter_with_g.Metrics.{returned, ssl_earliest_cert_expiry}
use blackbox_exporter_with_g.Dialogue.{
  Library, Party, query_responses, use_tls, Session, probe_expect_info, probe_query_responses,
}
use blackbox_exporter_with_g.Dialogue.Registry.{
  count, Single, with_entry, with_entries, with_opening, probe_query_responses-registered,
}

abbrev has_labels : Option (List Label) → Bool
has_labels none = false
has_labels (some labels) = true

-- The entries that change to TLS, and those that report what they have matched.
abbrev pub upgrades : List QueryResponse → ℕ
upgrades [] = 0
upgrades (qr ∷ qrs) = (if qr.start_tls then 1 else 0) + upgrades qrs

abbrev pub infos : List QueryResponse → ℕ
infos [] = 0
infos (qr ∷ qrs) = (if qr.expect.compiled && has_labels qr.labels then 1 else 0) + infos qrs

entry_count :
    (qr : QueryResponse) (names : List String)
    → (count ssl_earliest_cert_expiry (with_entry qr names)
        ≡ (if qr.start_tls then 1 else 0) + count ssl_earliest_cert_expiry names)
      × (count probe_expect_info (with_entry qr names)
          ≡ (if qr.expect.compiled && has_labels qr.labels then 1 else 0)
            + count probe_expect_info names)
entry_count qr names = ground arith

entries_count :
    (qrs : List QueryResponse) (names : List String)
    → (upgrades qrs + count ssl_earliest_cert_expiry names
        ≤ count ssl_earliest_cert_expiry (with_entries qrs names))
      × (infos qrs + count probe_expect_info names
          ≤ count probe_expect_info (with_entries qrs names))
entries_count [] names = (omega arith, omega arith)
entries_count (qr ∷ qrs) names =
    let (a, b) = entry_count qr names in
    let (c, d) = entries_count qrs (with_entry qr names) in (omega arith, omega arith)

opening_count :
    (p : Party) (names : List String)
    → (if use_tls p then 1 else 0) ≤ count ssl_earliest_cert_expiry (with_opening p names)
opening_count p names = ground arith

module _ {S Match : Type 0} (lib : Library S Match)
    (refuses : (before : List String) (name : String) (labels : List String)
      → 0 < count name before
      → lib.accepts before name labels ≡ false) where
  -- Where the registry takes no name twice, a dialogue that succeeds has at most one report of a TLS
  -- connection, that of a connection over TLS or of an upgrade, and at most one entry with labels:
  -- with two of them it panics or has failed before.
  pub probe_query_responses-once :
      (target : Bytes) (p : Party) (x : Session S)
      → Single x.registered
      → result (probe_query_responses lib target p x) ≡ returned true
      → ((if use_tls p then 1 else 0) + upgrades (query_responses p) ≤ 1)
        × (infos (query_responses p) ≤ 1)
  probe_query_responses-once target p x h e =
      let single = probe_query_responses-registered lib refuses target p x h e in
      let a = single ssl_earliest_cert_expiry in
      let b = single probe_expect_info in
      let (c, d) = entries_count (query_responses p) (with_opening p x.registered) in
      let f = opening_count p x.registered in (omega arith, omega arith)
