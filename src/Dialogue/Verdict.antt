-- ===== src/Dialogue/Verdict.antt =====
-- When a dialogue succeeds: as a relation between the connection before and after each entry.
use blackbox_exporter_with_g.Common.{
  ◌≡◌, ◌↔◌, ◌⊎◌, refl, true, false, some, List, [], ◌∷◌, string_eq,
}
use blackbox_exporter_with_g.Common.Text.{Bytes, bytes_eq}
use blackbox_exporter_with_g.Common.Trace.{result}
use blackbox_exporter_with_g.Config.Types.{TlsConfig, QueryResponse}
use blackbox_exporter_with_g.Metrics.{returned}
use blackbox_exporter_with_g.Metrics.Exactly.{
  Exactly, next-Exactly, expect-Exactly, require-Exactly, if-Exactly, same-Exactly,
  and_then-Exactly, succeeded_iff,
}
use blackbox_exporter_with_g.Dialogue.{
  Library, Party, query_responses, tls_config, use_tls, Session, failed_due_to_regex,
  failed_due_to_bytes, named, start_tls, entry, entries, opening, probe_query_responses,
}
use blackbox_exporter_with_g.Dialogue.Lines.{
  Takes, must_register-Exactly, Reported, report_tls-Exactly,
}
use blackbox_exporter_with_g.Dialogue.Steps.{
  Heard, Read, Written, expect_line-Exactly, expect_bytes-Exactly, send_line-Exactly,
}

module _ {S Match : Type 0} (lib : Library S Match) where
  module _ (target : Bytes) (p : Party) where
    -- The connection has become one over TLS, and is reported, if it has to be.
    abbrev pub Upgraded : QueryResponse → Session S → Session S → Type 0
    Upgraded qr x y =
        ((qr.start_tls ≡ true)
          × ((c : TlsConfig) × (lib.new_tls_config (tls_config p) ≡ some c)
              × ((s : S) × (lib.handshake (named lib target p c) x.state ≡ some s)
                  × Reported lib (record x { state = s }) y)))
        ⊎ ((qr.start_tls ≡ false) × (x ≡ y))

    start_tls-Exactly :
        (qr : QueryResponse) (x : Session S)
        → Exactly (Upgraded qr x) (start_tls lib target p qr x).exit
    unfolding start_tls
    start_tls-Exactly qr x =
        if-Exactly _ _ qr.start_tls _ _
          (and_then-Exactly _ _ _ _ _ (expect-Exactly (lib.new_tls_config (tls_config p))) λ c.
            and_then-Exactly _ _ _ _ _
              (expect-Exactly (lib.handshake (named lib target p c) x.state))
              λ s. report_tls-Exactly lib (record x { state = s }))
          (next-Exactly x)

    -- One entry: what is waited for has come, the line has been sent, and TLS has been started.
    abbrev pub Exchanged : QueryResponse → Session S → Session S → Type 0
    Exchanged qr x y =
        (sent : Bytes × Session S) × Heard lib qr x sent
        × ((read : Session S) × Read lib qr sent.1 read
            × ((written : Session S) × Written lib sent.0 read written × Upgraded qr written y))

    entry-Exactly :
        (qr : QueryResponse) (x : Session S)
        → Exactly (Exchanged qr x) (entry lib target p qr x).exit
    unfolding entry
    entry-Exactly qr x = and_then-Exactly _ _ _ _ _ (expect_line-Exactly lib qr x) λ sent.
        and_then-Exactly _ _ _ _ _ (expect_bytes-Exactly lib qr sent.1) λ read.
          and_then-Exactly _ _ _ _ _ (send_line-Exactly lib sent.0 read)
            λ written. start_tls-Exactly qr written

    abbrev pub Held : List QueryResponse → Session S → Session S → Type 0
    Held [] x y = x ≡ y
    Held (qr ∷ qrs) x y = (z : Session S) × Exchanged qr x z × Held qrs z y

    entries-Exactly :
        (qrs : List QueryResponse) (x : Session S)
        → Exactly (Held qrs x) (entries lib target p qrs x).exit
    unfolding entries
    entries-Exactly [] x = next-Exactly x
    entries-Exactly (qr ∷ qrs) x =
        and_then-Exactly _ _ _ _ _ (entry-Exactly qr x) (entries-Exactly qrs)

    -- The gauges are registered, the deadline is set, and a connection over TLS is reported.
    abbrev pub Opened : Session S → Session S → Type 0
    Opened x y =
        (z : Session S) × Takes lib ((failed_due_to_regex, []) ∷ (failed_due_to_bytes, []) ∷ []) x z
        × ((u : Unit {0}) × (lib.set_deadline z.state ≡ true)
            × (((use_tls p ≡ true) × Reported lib z y) ⊎ ((use_tls p ≡ false) × (z ≡ y))))

    opening-Exactly : (x : Session S) → Exactly (Opened x) (opening lib target p x).exit
    unfolding opening
    opening-Exactly x =
        and_then-Exactly _ _ _ _ _
          (must_register-Exactly lib ((failed_due_to_regex, []) ∷ (failed_due_to_bytes, []) ∷ []) x)
          λ y.
            and_then-Exactly _ _ _ _ _ (require-Exactly (lib.set_deadline y.state))
              λ _. if-Exactly _ _ (use_tls p) _ _ (report_tls-Exactly lib y) (next-Exactly y)

    -- It has been opened, and every entry has been exchanged, in order.
    abbrev pub Completed : Session S → Type 0
    Completed x = (y : Session S) × Opened x y × ((z : Session S) × Held (query_responses p) y z)

    pub probe_query_responses-Exactly :
        (x : Session S)
        → Exactly
            (λ r. Completed x × (returned true ≡ r))
            (probe_query_responses lib target p x).exit
    unfolding probe_query_responses
    probe_query_responses-Exactly x =
        same-Exactly _ _ _
          (and_then-Exactly _ _ _ _ _ (opening-Exactly x) λ y.
            and_then-Exactly _ _ _ _ _ (entries-Exactly (query_responses p) y)
              λ z. next-Exactly (returned true))
          λ r. (
            λ (y, opened, (z, held, e)). ((y, opened, (z, held)), e),
            λ ((y, opened, (z, held)), e). (y, opened, (z, held, e)),
          )

    -- A dialogue succeeds exactly if it can be opened and every entry is exchanged in order: the
    -- first line that matches its expression has come, if it has one, then the bytes that it names,
    -- if any, its line has been written, expanded by the match, if it is not empty, and the
    -- connection has been changed to TLS and reported, if the entry says so. The registry takes every
    -- collector, and the labels that are reported are UTF-8, as otherwise it panics.
    pub probe_query_responses_iff :
        (x : Session S)
        → (result (probe_query_responses lib target p x) ≡ returned true) ↔ Completed x
    probe_query_responses_iff x =
        let (a, b) =
          succeeded_iff _ (probe_query_responses lib target p x)
            (probe_query_responses-Exactly x) in
        (λ e. (a e).0, λ h. b (h, refl))
