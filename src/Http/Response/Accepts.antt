-- ===== src/Http/Response/Accepts.antt =====
-- What status, version of HTTP, compression and limit of the body mean, apart from the code.
use blackbox_exporter_with_g.Common.{
  ℕ, ◌≤◌, ◌<◌, String, ◌≡◌, ◌↔◌, ◌⊎◌, refl, sym, ap, Bool, true, false, Option, some, List, [], ◌∷◌,
  length, take, any, ltb, arith, inl, inr, In, here, later, Bool-cases, nat_eq_iff, ◌==◌, string_eq,
  eq_iff,
}
use blackbox_exporter_with_g.Common.Int.{ℤ, pos, negsuc, eqb_ℤ, pos_part, ltb_ℤ}
use blackbox_exporter_with_g.Common.Text.{Bytes, bytes_eq, bytes_beq_iff, codes, to_lower}
use blackbox_exporter_with_g.Config.Types.{Regexp, CelProgram, HttpProbe}
use blackbox_exporter_with_g.Http.Match.{Reader}
use blackbox_exporter_with_g.Http.Response.{
  Decompressor, brotli, deflate, gzip, status_ok, version_ok, max_bytes_reader, limited, opened,
  chosen, get_decompression_reader,
}

-- One of the list, or from 200 to 299 if it is empty.
abbrev pub HasStatus : List ℤ → ℤ → Type 0
HasStatus [] code = (n : ℕ) × (code ≡ pos n) × (200 ≤ n) × (n < 300)
HasStatus (c ∷ cs) code = In code (c ∷ cs)

-- One of the list, or any if it is empty.
abbrev pub HasVersion : List String → String → Type 0
HasVersion [] proto = Unit
HasVersion (v ∷ vs) proto = In proto (v ∷ vs)

any_iff :
    {A : Type 0} (test : A → Bool) (a : A) (xs : List A)
    → ((x : A) → (test x ≡ true) ↔ (x ≡ a))
    → (any test xs ≡ true) ↔ In a xs
any_iff test a [] t = (λ e. cc, λ i. elim i [ ])
any_iff test a (x ∷ xs) t = elim (Bool-cases (test x)) [
  | inl hit ↦ (λ e. here ((t x).0 hit), λ i. rw hit refl)
  | inr miss ↦ (
    λ e. later ((any_iff test a xs t).0 (rw miss at e)),
    λ i. (elim i [
      | here e ↦ (let hit = (t x).1 e in cc)
      | later j ↦ rw miss ((any_iff test a xs t).1 j)
    ]),
  )
]

eqb_ℤ_iff : (a b : ℤ) → (eqb_ℤ a b ≡ true) ↔ (b ≡ a)
eqb_ℤ_iff (pos a) (pos b) =
    (λ e. ap pos (sym ((nat_eq_iff a b).0 e)), λ e. (nat_eq_iff a b).1 (sym (ap pos_part e)))
eqb_ℤ_iff (negsuc a) (negsuc b) =
    (λ e. ap negsuc (sym ((nat_eq_iff a b).0 e)), λ e. (nat_eq_iff a b).1 cc)
eqb_ℤ_iff (pos a) (negsuc b) = (λ e. cc, λ e. cc)
eqb_ℤ_iff (negsuc a) (pos b) = (λ e. cc, λ e. cc)

pub status_ok_iff : (cs : List ℤ) (code : ℤ) → (status_ok cs code ≡ true) ↔ HasStatus cs code
unfolding status_ok
status_ok_iff [] (pos n) = (
  λ e. (n, refl, ground arith, ground arith),
  λ (m, e, low, high). (let same : n ≡ m = ap pos_part e in ground arith),
)
status_ok_iff [] (negsuc n) = (λ e. ground arith, λ (m, e, low, high). cc)
status_ok_iff (c ∷ cs) code = any_iff (λ v. eqb_ℤ code v) code (c ∷ cs) (eqb_ℤ_iff code)

pub version_ok_iff :
    (vs : List String) (proto : String) → (version_ok vs proto ≡ true) ↔ HasVersion vs proto
unfolding version_ok
version_ok_iff [] proto = (λ e. tt, λ u. refl)
version_ok_iff (v ∷ vs) proto = any_iff (λ w. w == proto) proto (v ∷ vs) (λ w. eq_iff w proto)

module _ {Json : Type 0} (matches : Regexp → Bytes → Bool) (unmarshal : Bytes → Option Json)
    (eval : CelProgram → Json → Option (Option Bool))
    (decompress : Decompressor → Reader → Option Reader) (c : HttpProbe) where
  -- What can be read under the limit: all, if there is no limit or no more than it; otherwise the
  -- first bytes, and then an error.
  pub record IsCut (r cut : Reader) : Type 0 where
    pub unlimited : ltb_ℤ (pos 0) c.body_size_limit ≡ false → cut ≡ r
    pub fits : (n : ℕ) → c.body_size_limit ≡ pos n → length r.rest ≤ n → cut ≡ r
    pub cuts :
        (n : ℕ)
        → c.body_size_limit ≡ pos n
        → 0 < n
        → n < length r.rest
        → cut ≡ record r { rest = take n r.rest; broken = true }

  pub limited-IsCut : (r : Reader) → IsCut r (limited matches unmarshal eval decompress c r)
  unfolding limited max_bytes_reader
  limited-IsCut r = record {
    unlimited = λ off. rw off refl;
    fits = λ n e room. rw e (ground arith);
    cuts = λ n e on over. rw e (ground arith);
  }

  cut_by :
      (r cut : Reader) (n : ℕ)
      → c.body_size_limit ≡ pos n
      → 0 < n
      → IsCut r cut
      → limited matches unmarshal eval decompress c r ≡ cut
  unfolding limited max_bytes_reader
  cut_by r cut n e on h = elim (Bool-cases (ltb n (length r.rest))) [
    | inl over ↦ (let same = h.cuts n e on (ground arith) in rw same (rw e (ground arith)))
    | inr room ↦ (let same = h.fits n e (ground arith) in rw same (rw e (ground arith)))
  ]

  signs : (n : ℤ) → (ltb_ℤ (pos 0) n ≡ false) ⊎ ((k : ℕ) × (n ≡ pos k) × (0 < k))
  signs (pos n) = elim (Bool-cases (ltb 0 n)) [
    | inl on ↦ inr (n, refl, ground arith)
    | inr off ↦ inl (ground arith)
  ]
  signs (negsuc k) = inl (ground arith)

  pub IsCut-same :
      (r cut : Reader) → IsCut r cut → limited matches unmarshal eval decompress c r ≡ cut
  unfolding limited
  IsCut-same r cut h = elim (signs c.body_size_limit) [
    | inl off ↦ (let same = h.unlimited off in rw (off, same) refl)
    | inr (n, e, on) ↦ cut_by r cut n e on h
  ]

  -- The body through the decompressor of an algorithm in small letters, or as it is for none and for
  -- `identity`.
  abbrev pub Through : Bytes → Reader → Reader → Type 0
  Through a r plain =
      ((a ≡ codes "br") × (decompress brotli r ≡ some plain))
      ⊎ (((a ≡ codes "deflate") × (decompress deflate r ≡ some plain))
          ⊎ (((a ≡ codes "gzip") × (decompress gzip r ≡ some plain))
              ⊎ (((a ≡ codes "identity") ⊎ (a ≡ [])) × (r ≡ plain))))

  opened_iff :
      (algorithm : String) (r plain : Reader)
      → (opened matches unmarshal eval decompress c (get_decompression_reader algorithm) r
          ≡ some plain)
        ↔ Through (to_lower (codes algorithm)) r plain
  unfolding opened get_decompression_reader
  opened_iff algorithm r plain =
      let a = to_lower (codes algorithm) in
      (
        λ e. (elim (Bool-cases (a == codes "br")) [
          | inl t ↦ inl ((bytes_beq_iff _ _).0 t, rw t at e)
          | inr f ↦ elim (Bool-cases (a == codes "deflate")) [
            | inl t ↦ inr (inl ((bytes_beq_iff _ _).0 t, rw (f, t) at e))
            | inr g ↦ elim (Bool-cases (a == codes "gzip")) [
              | inl t ↦ inr (inr (inl ((bytes_beq_iff _ _).0 t, rw (f, g, t) at e)))
              | inr h ↦ elim (Bool-cases (a == codes "identity")) [
                | inl t ↦
                    (let same = rw (f, g, h, t) at e in
                      inr (inr (inr (inl ((bytes_beq_iff _ _).0 t), cc))))
                | inr i ↦ elim (Bool-cases (a == [])) [
                  | inl t ↦
                      (let same = rw (f, g, h, i, t) at e in
                        inr (inr (inr (inr ((bytes_beq_iff _ _).0 t), cc))))
                  | inr j ↦ cc (rw (f, g, h, i, j) at e)
                ]
              ]
            ]
          ]
        ]),
        λ h. (elim h [
          | inl (q, d) ↦ rw q d
          | inr (inl (q, d)) ↦ rw q d
          | inr (inr (inl (q, d))) ↦ rw q d
          | inr (inr (inr (inl q, d))) ↦ rw q (ap some d)
          | inr (inr (inr (inr q, d))) ↦ rw q (ap some d)
        ]),
      )

  -- By the compression of the module, whatever its case of letters.
  abbrev pub IsDecompressed : Reader → Reader → Type 0
  IsDecompressed r plain = Through (to_lower (codes c.compression)) r plain

  pub chosen_iff :
      (r plain : Reader)
      → (chosen matches unmarshal eval decompress c r ≡ some plain) ↔ IsDecompressed r plain
  unfolding chosen opened get_decompression_reader
  chosen_iff r plain = elim (Bool-cases (c.compression == "")) [
    | inl none_set ↦
        (let empty : c.compression ≡ "" = (eq_iff c.compression "").0 none_set in
          rw empty (opened_iff "" r plain))
    | inr set ↦ rw set (opened_iff c.compression r plain)
  ]
