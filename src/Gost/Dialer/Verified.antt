-- ===== src/Gost/Dialer/Verified.antt =====
-- Whom a connection of the dialer is with.
use blackbox_exporter_with_g.Common.{
  ◌≤◌, ◌≡◌, ◌⊎◌, refl, inl, inr, Bool, true, false, List, [], Bool-cases, arith,
}
use blackbox_exporter_with_g.Common.Results.{Result, ok, err}
use blackbox_exporter_with_g.Common.Text.{Bytes, bytes_eq, bytes_beq_iff}
use blackbox_exporter_with_g.Common.Trace.{next}
use blackbox_exporter_with_g.Common.Trace.Ensures.{
  Ensures, next-Ensures, stop-Ensures, and_then-Ensures,
}
use blackbox_exporter_with_g.Config.Types.{TlsConfig}
use blackbox_exporter_with_g.Tls.{version_tls12}
use blackbox_exporter_with_g.Gost.Context.{Context, configured}
use blackbox_exporter_with_g.Gost.Context.Secured.{Secured, configured-Secured}
use blackbox_exporter_with_g.Gost.Dialer.{
  Act, Library, settled, new_gost_context, contexted, step, server_name, name_sent, verifies,
  shaken, gost_dial,
}

module _ {Certificate Key : Type 0} (lib : Library Certificate Key) (c : TlsConfig) where
  -- Verification is off, there is no name to verify, or the name has been verified.
  abbrev pub Named : Bytes → Type 0
  Named address =
      (c.insecure_skip_verify ≡ true)
      ⊎ ((server_name lib c address ≡ []) ⊎ (lib.verify (server_name lib c address) ≡ true))

  -- The context of the connection, and what has been asked of the peer.
  pub record Trusted (address : Bytes) (ctx : Context) : Type 0 where
    pub secured : Secured lib.binding c ctx
    pub bound : ctx.max_version ≤ version_tls12
    pub shaken : lib.shake ctx ≡ true
    pub named : Named address

  settled-configured :
      (r : Result (Unit {0}) Context)
      → Ensures
          (λ ctx. r ≡ ok ctx)
          (contexted lib c (settled lib c r).exit (settled lib c r).events).exit
  unfolding contexted settled
  settled-configured (ok ctx) = next-Ensures _ ctx refl
  settled-configured (err e) = stop-Ensures _ tt

  contexted-configured :
      Ensures
        (λ ctx. configured lib.binding c ≡ ok ctx)
        (contexted lib c (new_gost_context lib c).exit (new_gost_context lib c).events).exit
  unfolding new_gost_context contexted
  contexted-configured = elim (Bool-cases lib.binding.new_ctx) [
    | inl n ↦ simp n (settled-configured (configured lib.binding c))
    | inr n ↦ simp n (stop-Ensures _ tt)
  ]

  step-Ensures :
      (b : Bool) (acts fails : List Act) → Ensures (λ u. b ≡ true) (step lib c b acts fails).exit
  step-Ensures true acts fails = next-Ensures _ tt refl
  step-Ensures false acts fails = stop-Ensures _ tt

  unverified : (address : Bytes) → verifies lib c address ≡ false → Named address
  unverified address v =
      let r = bytes_beq_iff (server_name lib c address) [] in
      elim (Bool-cases c.insecure_skip_verify) [
        | inl skipped ↦ inl skipped
        | inr asked ↦ inr (inl (r.0 ground (arith, v, asked)))
      ]

  shaken-Named :
      (address : Bytes) (ctx : Context)
      → Ensures (λ u. (lib.shake ctx ≡ true) × Named address) (shaken lib c address ctx).exit
  unfolding shaken
  shaken-Named address ctx = elim (Bool-cases (lib.shake ctx)) [
    | inr h ↦ simp h (stop-Ensures _ tt)
    | inl h ↦ elim (Bool-cases (verifies lib c address)) [
      | inr v ↦ simp (h, v) (next-Ensures _ tt (refl, unverified address v))
      | inl v ↦
          simp (h, v)
            record {
              holds = λ u e. (
                refl,
                inr (inr ((step-Ensures (lib.verify (server_name lib c address)) _ _).holds u e)),
              );
            }
    ]
  ]

  -- A dial succeeds only with a peer that is verified, against the roots of the configuration or of
  -- the system and by the name of the configuration or of the address if there is any, unless
  -- verification is turned off; and at most with TLS 1.2.
  pub gost_dial-Trusted :
      (address : Bytes) (ctx : Context)
      → (gost_dial lib c address).exit ≡ next ctx
      → Trusted address ctx
  unfolding gost_dial
  gost_dial-Trusted address ctx e =
      (and_then-Ensures _ (Trusted address) _ _ _ (step-Ensures (lib.dial address) _ _) λ u _.
          and_then-Ensures _ (Trusted address) _ _ _ contexted-configured λ made known.
            and_then-Ensures _ (Trusted address) _ _ _ (step-Ensures (lib.client made) _ _) λ u _.
              and_then-Ensures _ (Trusted address) _ _ _
                (step-Ensures (name_sent lib c address) _ _)
                λ u _.
                  and_then-Ensures _ (Trusted address) _ _ _ (shaken-Named address made) λ u held.
                    next-Ensures (Trusted address) made (
                      let (secured, bound) = configured-Secured lib.binding c made known in
                      record {
                        secured = secured;
                        bound = bound;
                        shaken = held.0;
                        named = held.1;
                      })).holds
        ctx e
