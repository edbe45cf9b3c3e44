-- ===== src/Http/Transport/Names.antt =====
-- Which requests of a probe are sent with the server name.
use blackbox_exporter_with_g.Common.{
  ℕ, String, ◌≡◌, ◌≢◌, refl, sym, ◌∙◌, ◌↔◌, inl, inr, Bool, true, false, [], arith, ◌==◌,
  Bool-cases,
}
use blackbox_exporter_with_g.Common.Text.{Bytes, bytes_eq, bytes_beq_iff}
use blackbox_exporter_with_g.Http.Transport.{
  Transport, without_name, Callback, round_trip, call, new_transport,
}

-- What happens to a transport: a round trip, or a callback.
pub data Step : Transport → Transport → Type 0 where
  trip :
      {t : Transport} (scheme : String) (host : Bytes)
      → host ≢ []
      → Step t (round_trip scheme host t).0
  callback : {t : Transport} (c : Callback) (now : ℕ) → Step t (call c now t)

pub data Steps : Transport → Transport → Type 0 where
  none_yet : {t : Transport} → Steps t t
  after : {t u v : Transport} → Steps t u → Step u v → Steps t v

-- The first host and the transports stay.
Fixed : Bytes → Bool → Transport → Type 0
Fixed first has_no_server_name t =
    (t.first_host ≡ first) × (t.has_no_server_name ≡ has_no_server_name)

Step-Fixed :
    (first : Bytes) (b : Bool) {t u : Transport}
    → first ≢ []
    → Fixed first b t
    → Step t u
    → Fixed first b u
unfolding round_trip call Fixed
Step-Fixed first b {t = t} n (e, f) (trip scheme host h) = (
  elim (Bool-cases (t.first_host == [])) [
    | inl empty ↦ absurd (n (sym e ∙ (bytes_beq_iff t.first_host []).0 empty))
    | inr known ↦ simp known e
  ],
  f,
)
Step-Fixed first b n (e, f) (callback c now) = (e, f)

Steps-Fixed :
    (first : Bytes) (b : Bool) {t u : Transport}
    → first ≢ []
    → Fixed first b t
    → Steps t u
    → Fixed first b u
Steps-Fixed first b n f none_yet = f
Steps-Fixed first b n f (after steps step) =
    Step-Fixed first b n (Steps-Fixed first b n f steps) step

-- After a first request, and any number of redirects and callbacks in any order, a request goes
-- without the server name exactly if it is to another host than the first, and there is a transport
-- without the name.
pub round_trip-via :
    (b : Bool) (scheme scheme' : String) (first host : Bytes) (t : Transport)
    → first ≢ []
    → Steps (round_trip scheme first (new_transport b)).0 t
    → ((round_trip scheme' host t).1 ≡ without_name) ↔ ((host ≢ first) × (b ≡ true))
unfolding round_trip Fixed
round_trip-via b scheme scheme' first host t n steps =
    let (e, f) = Steps-Fixed first b n (refl, refl) steps in
    let known : (t.first_host == []) ≡ false = elim (Bool-cases (t.first_host == [])) [
      | inl empty ↦ absurd (n (sym e ∙ (bytes_beq_iff t.first_host []).0 empty))
      | inr known ↦ known
    ] in
    let same = bytes_beq_iff t.first_host host in
    (
      λ h. (
        λ hit. (let eq : (t.first_host == host) ≡ true = same.1 (e ∙ sym hit) in ground arith),
        ground arith,
      ),
      λ (apart, given).
          let differ : (t.first_host == host) ≡ false = elim (Bool-cases (t.first_host == host)) [
            | inl eq ↦ absurd (apart (sym (same.0 eq) ∙ e))
            | inr ne ↦ ne
          ] in
          ground arith,
    )
