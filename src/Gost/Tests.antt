-- ===== src/Gost/Tests.antt =====
-- Runs of the fallback and of the tables.
use blackbox_exporter_with_g.Common.{ℕ, String, ◌≡◌, refl, false, [], ◌∷◌}
use blackbox_exporter_with_g.Common.Results.{Result, ok, err}
use blackbox_exporter_with_g.Common.Text.{bytes_eq, codes}
use blackbox_exporter_with_g.Gost.{
  HandshakeError, should_try_gost, Backend, standard, gost, after_standard, round_trip,
}
use blackbox_exporter_with_g.Gost.Fallback.{Expected, round_trip-Expected}

abbrev refused : HandshakeError
refused = record {
  unknown_authority = false;
  hostname = false;
  certificate_invalid = false;
  message = codes "remote error: tls: Handshake failure";
}

abbrev gost_server : Backend → String → Result HandshakeError ℕ
gost_server standard scheme = err refused
gost_server gost scheme = ok 200

gost_server_trip :
    round_trip gost_server "https" ≡ record { outcome = ok 200; tried = standard ∷ gost ∷ [] }
unfolding round_trip after_standard should_try_gost
gost_server_trip = refl

round_trip-Expected_example :
    Expected gost_server "https" (err refused) (round_trip gost_server "https")
round_trip-Expected_example = round_trip-Expected gost_server "https"
