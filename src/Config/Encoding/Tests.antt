-- ===== src/Config/Encoding/Tests.antt =====
-- Runs of the check of `Accept-Encoding`, with whole numbers for qualities.
use blackbox_exporter_with_g.Common.{◌≡◌, refl, true, false, ◌||◌, [], any, ◌==◌}
use blackbox_exporter_with_g.Common.Text.{codes, bytes_eq}
use blackbox_exporter_with_g.Common.Float.{whole_numbers}
use blackbox_exporter_with_g.Config.Encoding.{is_compression_accept_encoding_valid}
use blackbox_exporter_with_g.Config.Encoding.Best.{
  offers, entries, is_compression_accept_encoding_valid-any,
}

covered :
    is_compression_accept_encoding_valid whole_numbers (codes "gzip") (codes "br;q=1, gzip ;q=2")
    ≡ true
unfolding is_compression_accept_encoding_valid
covered = refl

refused :
    is_compression_accept_encoding_valid whole_numbers (codes "gzip") (codes "br, *;q=0") ≡ false
unfolding is_compression_accept_encoding_valid
refused = refl

is_compression_accept_encoding_valid-any_example :
    is_compression_accept_encoding_valid whole_numbers (codes "gzip") (codes "br;q=1, gzip ;q=2")
    ≡ (codes "gzip" == []
        || codes "br;q=1, gzip ;q=2" == []
        || any
            (offers whole_numbers (codes "gzip"))
            (entries whole_numbers (codes "br;q=1, gzip ;q=2")))
is_compression_accept_encoding_valid-any_example =
    is_compression_accept_encoding_valid-any whole_numbers (codes "gzip")
      (codes "br;q=1, gzip ;q=2") (refl, (refl, tt))
