-- ===== src/Storage/Records/Order.antt =====
-- What sorting and cutting a list of rows keeps.
use blink_battery_benchmark.Common.{
  ℕ, zero, suc, ◌≡◌, refl, Bool, true, false, ◌&&◌, List, [], ◌∷◌, take, every, keep, length, arith,
  Bool-cases, inl, inr,
}
use mathlib.Core.List.{Perm}
use mathlib.Core.List.Perm
use blink_battery_benchmark.Storage.Records.{insert_by, sort_by}

module _ {ℓ} {A : Type ℓ} where
  pub every-take :
      (p : A → Bool) (n : ℕ) (xs : List A) → every p xs ≡ true → every p (take n xs) ≡ true
  every-take p zero xs h = refl
  every-take p (suc n) [] h = refl
  every-take p (suc n) (x ∷ xs) h = ground (arith, every-take p n xs)

  -- What each kept element passes, if the test implies it.
  pub every-keep :
      (p q : A → Bool) (xs : List A)
      → ((x : A) → q x ≡ true → p x ≡ true)
      → every p (keep q xs) ≡ true
  every-keep p q [] h = refl
  every-keep p q (x ∷ xs) h = ground (arith, h x, every-keep p q xs h)

  module _ (before : A → A → Bool) where
    pub insert_by-Perm : (x : A) (ys : List A) → Perm (insert_by before x ys) (x ∷ ys)
    unfolding insert_by
    insert_by-Perm x [] = Perm.refl (x ∷ [])
    insert_by-Perm x (y ∷ ys) = elim (Bool-cases (before x y)) [
      | inl on ↦ rw on (Perm.refl (x ∷ y ∷ ys))
      | inr off ↦ rw off (Perm.trans (Perm.cons y (insert_by-Perm x ys)) (Perm.swap x y ys))
    ]

    pub sort_by-Perm : (xs : List A) → Perm (sort_by before xs) xs
    unfolding sort_by
    sort_by-Perm [] = Perm.refl []
    sort_by-Perm (x ∷ xs) =
        Perm.trans (insert_by-Perm x (sort_by before xs)) (Perm.cons x (sort_by-Perm xs))

    every-insert_by :
        (p : A → Bool) (x : A) (ys : List A)
        → p x ≡ true
        → every p ys ≡ true
        → every p (insert_by before x ys) ≡ true
    unfolding insert_by
    every-insert_by p x [] h k = ground arith
    every-insert_by p x (y ∷ ys) h k = ground (arith, every-insert_by p x ys)

    pub every-sort_by :
        (p : A → Bool) (xs : List A) → every p xs ≡ true → every p (sort_by before xs) ≡ true
    unfolding sort_by
    every-sort_by p [] h = refl
    every-sort_by p (x ∷ xs) h =
        every-insert_by p x (sort_by before xs) (ground arith) (every-sort_by p xs (ground arith))

    length-insert_by : (x : A) (ys : List A) → length (insert_by before x ys) ≡ suc (length ys)
    unfolding insert_by
    length-insert_by x [] = refl
    length-insert_by x (y ∷ ys) = ground (arith, length-insert_by x ys)

    pub length-sort_by : (xs : List A) → length (sort_by before xs) ≡ length xs
    unfolding sort_by
    length-sort_by [] = refl
    length-sort_by (x ∷ xs) =
        ground (arith, length-insert_by x (sort_by before xs), length-sort_by xs)

  -- each element and the next are in a given order
  abbrev pub is_chain : (A → A → Bool) → List A → Bool
  is_chain before [] = true
  is_chain before (x ∷ []) = true
  is_chain before (x ∷ y ∷ ys) = before x y && is_chain before (y ∷ ys)

  module _ (before order : A → A → Bool) (sorts : (x y : A) → before x y ≡ true → order x y ≡ true)
      (turns : (x y : A) → before x y ≡ false → order y x ≡ true) where
    insert_by-is_chain :
        (x : A) (ys : List A)
        → is_chain order ys ≡ true
        → is_chain order (insert_by before x ys) ≡ true
    unfolding insert_by
    insert_by-is_chain x [] h = refl
    insert_by-is_chain x (y ∷ []) h = elim (Bool-cases (before x y)) [
      | inl on ↦ let e = sorts x y on in rw (on, e) refl
      | inr off ↦ let e = turns x y off in rw (off, e) refl
    ]
    insert_by-is_chain x (y ∷ z ∷ ys) h =
        let ih = insert_by-is_chain x (z ∷ ys) (ground arith) in
        elim (Bool-cases (before x y)) [
          | inl on ↦ let e = sorts x y on in rw (on, e) h
          | inr off ↦
              let e = turns x y off in
              elim (Bool-cases (before x z)) [ inl first ↦ ground arith | inr later ↦ ground arith ]
        ]

    pub sort_by-is_chain : (xs : List A) → is_chain order (sort_by before xs) ≡ true
    unfolding sort_by
    sort_by-is_chain [] = refl
    sort_by-is_chain (x ∷ xs) = insert_by-is_chain x (sort_by before xs) (sort_by-is_chain xs)
