-- ===== src/Gost.antt =====
-- prober/gost_tls.go: the fallback to the GOST backend, when the standard TLS cannot be negotiated.
-- prober/gost_tls_disabled.go: without the build tag there is no fallback.
pub mod Fallback
pub mod State
pub mod Context
pub mod Dialer
mod Tests
use blackbox_exporter_with_g.Common.{
  String, Bool, true, false, not, ◌&&◌, ◌||◌, List, [], ◌∷◌, any, if◌then◌else◌, ◌==◌, string_eq,
}
use blackbox_exporter_with_g.Common.Results.{Result, ok, err}
use blackbox_exporter_with_g.Common.Text.{Bytes, codes, contains, to_lower}

-- An error, by what `errors.As` finds in it, and its text.
pub record HandshakeError : Type 0 where
  pub unknown_authority : Bool
  pub hostname : Bool
  pub certificate_invalid : Bool
  pub message : Bytes

abbrev pub markers : List Bytes
markers =
    codes "unsupported protocol"
    ∷ codes "protocol version not supported"
    ∷ codes "unsupported versions"
    ∷ codes "unconfigured cipher suite"
    ∷ codes "no cipher suite supported"
    ∷ codes "handshake failure"
    ∷ codes "illegal parameter"
    ∷ []

unfoldable pub should_try_gost : HandshakeError → Bool
should_try_gost e =
    if e.unknown_authority || e.hostname || e.certificate_invalid
    then false
    else any (λ marker. contains (to_lower e.message) marker) markers

pub data Backend : Type 0 where
  standard gost : Backend

-- What a request ends with, and which backends were asked.
pub record Trip (Response : Type 0) : Type 0 where
  pub outcome : Result HandshakeError Response
  pub tried : List Backend

module _ {Response : Type 0} (ask : Backend → String → Result HandshakeError Response) where
  after_standard : String → Result HandshakeError Response → Trip Response
  after_standard scheme (ok response) = record { outcome = ok response; tried = standard ∷ [] }
  after_standard scheme (err e) =
      if not (scheme == "https") || not (should_try_gost e)
      then record { outcome = err e; tried = standard ∷ [] }
      else record { outcome = ask gost scheme; tried = standard ∷ gost ∷ [] }

  -- `autoTLSRoundTripper.RoundTrip`, for a request of a scheme
  unfoldable pub round_trip : String → Trip Response
  unfolding after_standard should_try_gost
  round_trip scheme = after_standard scheme (ask standard scheme)

-- `wrapGOSTFallback`: the transport with the fallback, an error if the GOST transport cannot be
-- made; with no build tag, the transport as it is.
unfoldable pub wrap_gost_fallback :
    {T E : Type 0} → Bool → (T → T → T) → Result E T → T → Result E T
wrap_gost_fallback false auto made transport = ok transport
wrap_gost_fallback true auto (err e) transport = err e
wrap_gost_fallback true auto (ok other) transport = ok (auto transport other)
