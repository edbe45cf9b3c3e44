-- ===== src/Grpc/Serving.antt =====
-- What the gauge of the serving statuses holds at the end.
use blackbox_exporter_with_g.Common.{
  String, ◌≡◌, ◌≢◌, ◌⊎◌, refl, inl, inr, false, ◌&&◌, Option, some, List, [], ◌∷◌, ◌++◌, map,
  if◌then◌else◌, ◌==◌, string_eq, eq_iff, arith, In, here, later, Bool-cases,
}
use blackbox_exporter_with_g.Common.Int.{ℤ, pos}
use blackbox_exporter_with_g.Config.Types.{GrpcProbe}
use blackbox_exporter_with_g.Metrics.{Event, set}
use blackbox_exporter_with_g.Grpc.{Library, healthcheck_response, statuses}

-- The value of the gauge under a serving status after the events, from a value before them.
abbrev pub value : String → Option ℤ → List Event → Option ℤ
value status before [] = before
value status before (set name (label ∷ []) n ∷ es) =
    value status (if name == healthcheck_response && label == status then some n else before) es
value status before (e ∷ es) = value status before es

abbrev zeros : List String → List Event
zeros names = map (λ name. set healthcheck_response (name ∷ []) (pos 0)) names

zeros-value :
    (names : List String) (status : String) (before : Option ℤ) (es : List Event)
    → In status names ⊎ (before ≡ some (pos 0))
    → value status before (zeros names ++ es) ≡ value status (some (pos 0)) es
zeros-value [] status before es (inl m) = elim m [ ]
zeros-value [] status before es (inr e) = rw e refl
zeros-value (n ∷ names) status before es m = elim (Bool-cases (n == status)) [
  | inl same ↦ rw (same, value) (zeros-value names status (some (pos 0)) es (inr refl))
  | inr other ↦
      rw (other, value)
        (zeros-value names status before es (elim m [
          | inr e ↦ inr e
          | inl (here e) ↦ (let k = (eq_iff n status).1 e in cc)
          | inl (later k) ↦ inl k
        ]))
]

-- After the gauge is set, every serving status of the protocol has the value 0, but for that of the
-- answer, which has 1; without an answer they all have 0.
pub statuses-value :
    {Conn : Type 0} (lib : Library Conn) (c : GrpcProbe) (answered status : String)
    (before : Option ℤ)
    → In status lib.status_names
    → status ≢ ""
    → value status before (statuses lib c answered)
      ≡ some (pos (if answered == status then 1 else 0))
statuses-value lib c answered status before m named = elim (Bool-cases (answered == "")) [
  | inl empty ↦
      (let other : (answered == status) ≡ false =
          ground (arith, eq_iff answered "", eq_iff answered status) in
        rw (empty, other) (zeros-value lib.status_names status before [] (inl m)))
  | inr filled ↦
      (let z =
          zeros-value lib.status_names status before
            (set healthcheck_response (answered ∷ []) (pos 1) ∷ []) (inl m) in
        elim (Bool-cases (answered == status)) [
          | inl same ↦ rw (filled, same) (rw same at z)
          | inr other ↦ rw (filled, other) (rw other at z)
        ])
]
