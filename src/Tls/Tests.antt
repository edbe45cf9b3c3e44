-- ===== src/Tls/Tests.antt =====
-- Runs of the reports on a connection, and the theorems at concrete inputs.
use blackbox_exporter_with_g.Common.{ℕ, ◌≡◌, refl, [], ◌∷◌}
use blackbox_exporter_with_g.Common.Text.{codes}
use blackbox_exporter_with_g.Tls.{
  Certificate, ConnectionState, get_earliest_cert_expiry, get_last_chain_expiry, hex, get_dns_names,
}
use blackbox_exporter_with_g.Tls.Expiry.{IsEarliest, get_earliest_cert_expiry-IsEarliest}

abbrev expiring : ℕ → Certificate
expiring t = record {
  not_after = t;
  raw = [];
  subject = "s";
  issuer = "i";
  dns_names = codes "a.org" ∷ codes "b.org" ∷ [];
  serial_number = [];
}

abbrev state : ConnectionState
state = record {
  version = 0x0303;
  cipher_suite = 0xff85;
  negotiated_protocol = "";
  peer_certificates = expiring 9 ∷ expiring 0 ∷ expiring 7 ∷ expiring 8 ∷ [];
  verified_chains = (expiring 9 ∷ expiring 7 ∷ []) ∷ (expiring 8 ∷ []) ∷ [];
}

earliest_run : get_earliest_cert_expiry state ≡ 7
unfolding get_earliest_cert_expiry
earliest_run = refl

last_run : get_last_chain_expiry state ≡ 8
unfolding get_last_chain_expiry
last_run = refl

hex_run : hex (0 ∷ 171 ∷ []) ≡ codes "00ab"
unfolding hex
hex_run = refl

dns_names_run : get_dns_names (expiring 1) ≡ codes "a.org,b.org"
unfolding get_dns_names
dns_names_run = refl

get_earliest_cert_expiry-IsEarliest_example :
    IsEarliest (get_earliest_cert_expiry state) (state.peer_certificates)
get_earliest_cert_expiry-IsEarliest_example = get_earliest_cert_expiry-IsEarliest state
