-- ===== src/History/Window.antt =====
-- Sliding windows: appending to the last `n` members of a list, and dropping the first if there are
-- too many, gives the last `n` members of the longer list.
use mathlib.Core.List.{tail}
use blackbox_exporter_with_g.Common.{
  ℕ, zero, suc, ◌+◌, ◌-◌, ◌≤◌, ◌≡◌, refl, sym, ap, ◌∙◌, true, false, List, [], ◌∷◌, ◌++◌, arith,
  inl, inr, length, drop, take, last_n, but_last_n, length-append, length-drop, drop-append,
  take-append, Bool-cases, ltb, if◌then◌else◌,
}

module _ {ℓ} {A : Type ℓ} where
  drop-suc : (n : ℕ) (xs : List A) → drop (suc n) xs ≡ tail (drop n xs)
  drop-suc zero [] = refl
  drop-suc zero (x ∷ xs) = refl
  drop-suc (suc n) [] = refl
  drop-suc (suc n) (x ∷ xs) = drop-suc n xs

  take-suc :
      (n : ℕ) (xs : List A) {y : A} {ys : List A}
      → drop n xs ≡ y ∷ ys
      → take (suc n) xs ≡ take n xs ++ y ∷ []
  take-suc zero [] e = cc
  take-suc zero (x ∷ xs) e = cc
  take-suc (suc n) [] e = cc
  take-suc (suc n) (x ∷ xs) e = ap (λ l. x ∷ l) (take-suc n xs e)

  pub length-last_n : (n : ℕ) (xs : List A) → length (last_n n xs) ≤ n
  length-last_n n xs = omega (arith, length-drop (length xs - n) xs)

  length-last_n_push :
      (n : ℕ) (xs : List A) (x : A)
      → length (last_n n xs ++ x ∷ []) ≡ length xs - (length xs - n) + 1
  length-last_n_push n xs x =
      omega (arith, length-append (last_n n xs) (x ∷ []), length-drop (length xs - n) xs)

  module _ (n : ℕ) (xs : List A) (x : A) where
    abbrev longer : List A
    longer = xs ++ x ∷ []

    drop-push : drop (length xs - n) longer ≡ last_n n xs ++ x ∷ []
    drop-push = drop-append (length xs - n) xs (x ∷ []) (omega arith)

    -- A full window slides by one.
    module _ (full : ltb n (length (last_n n xs ++ x ∷ [])) ≡ true) where
      length-push_full : length longer - n ≡ suc (length xs - n)
      length-push_full = ground (arith, length-last_n_push n xs x, length-append xs (x ∷ []))

      pub last_n-push_full : last_n n longer ≡ tail (last_n n xs ++ x ∷ [])
      last_n-push_full = rw length-push_full (drop-suc (length xs - n) longer ∙ ap tail drop-push)

      pub but_last_n-push_full :
          {oldest : A} {rest : List A}
          → last_n n xs ++ x ∷ [] ≡ oldest ∷ rest
          → but_last_n n longer ≡ but_last_n n xs ++ oldest ∷ []
      but_last_n-push_full {oldest} {rest} e = rw length-push_full (
          take-suc (length xs - n) longer (drop-push ∙ e)
          ∙ ap (λ l. l ++ oldest ∷ []) (take-append (length xs - n) xs (x ∷ []) (omega arith)))

    -- A window with room keeps all.
    module _ (room : ltb n (length (last_n n xs ++ x ∷ [])) ≡ false) where
      length-push_room : length longer - n ≡ length xs - n
      length-push_room = ground (arith, length-last_n_push n xs x, length-append xs (x ∷ []))

      pub last_n-push_room : last_n n longer ≡ last_n n xs ++ x ∷ []
      last_n-push_room = rw length-push_room drop-push

      pub but_last_n-push_room : but_last_n n longer ≡ but_last_n n xs
      but_last_n-push_room =
          rw length-push_room (take-append (length xs - n) xs (x ∷ []) (omega arith))

    -- Both cases in one: the code's test, its `append` and its `[1:]`.
    pub last_n-push : last_n n longer ≡ (
        if ltb n (length (last_n n xs ++ x ∷ []))
        then tail (last_n n xs ++ x ∷ [])
        else last_n n xs ++ x ∷ [])
    last_n-push = elim (Bool-cases (ltb n (length (last_n n xs ++ x ∷ [])))) [
      | inl full ↦ last_n-push_full full ∙ sym (rw full)
      | inr room ↦ last_n-push_room room ∙ sym (rw room)
    ]
