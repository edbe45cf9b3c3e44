-- ===== src/Http/Transport/Tests.antt =====
-- A redirect to another host.
use blackbox_exporter_with_g.Common.{◌≡◌, ◌≢◌, ◌↔◌, true}
use blackbox_exporter_with_g.Common.Text.{codes}
use blackbox_exporter_with_g.Http.Transport.{
  without_name, got_conn, round_trip, call, new_transport,
}
use blackbox_exporter_with_g.Http.Transport.Names.{none_yet, after, callback, round_trip-via}

round_trip-via_example :
    ((round_trip "https"
        (codes "b")
        (call got_conn 7 (round_trip "http" (codes "a") (new_transport true)).0)).1
      ≡ without_name)
    ↔ ((codes "b" ≢ codes "a") × (true ≡ true))
round_trip-via_example =
    round_trip-via true "http" "https" (codes "a") (codes "b")
      (call got_conn 7 (round_trip "http" (codes "a") (new_transport true)).0) (λ e. cc)
      (after none_yet (callback got_conn 7))
