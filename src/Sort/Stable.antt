-- ===== src/Sort/Stable.antt =====
-- The result of `std::stable_sort` is sorted, and equal elements keep their order.
use matching_engine_benchmar.Common.{
  ◌≡◌, refl, ap, ◌∙◌, inl, inr, Bool, true, false, List, [], ◌∷◌, arith, Bool-cases, keep, All,
}
use matching_engine_benchmar.Sort.{StrictWeak, insert, stable_sort, IsSorted, same, insert-All}

module _ {ℓ} {A : Type ℓ} {lt : A → A → Bool} (order : StrictWeak lt) where
  pub All-not-lt :
      (x y : A) (ys : List A)
      → lt y x ≡ false
      → All (λ z. lt z y ≡ false) ys
      → All (λ z. lt z x ≡ false) ys
  All-not-lt x y [] e h = tt
  All-not-lt x y (z ∷ ys) e h = (order.neg_trans z y x h.0 e, All-not-lt x y ys e h.1)

  insert-IsSorted : (x : A) (ys : List A) → IsSorted lt ys → IsSorted lt (insert lt x ys)
  unfolding insert
  insert-IsSorted x [] h = (tt, tt)
  insert-IsSorted x (y ∷ ys) h = elim (Bool-cases (lt y x)) [
    | inl e ↦
        rw e (
          insert-All lt (λ z. lt z y ≡ false) x ys (order.asymm y x e) h.0,
          insert-IsSorted x ys h.1,
        )
    | inr e ↦ rw e ((e, All-not-lt x y ys e h.0), h)
  ]

  pub stable_sort-IsSorted : (xs : List A) → IsSorted lt (stable_sort lt xs)
  unfolding stable_sort
  stable_sort-IsSorted [] = tt
  stable_sort-IsSorted (x ∷ xs) = insert-IsSorted x (stable_sort lt xs) (stable_sort-IsSorted xs)

  swap-same :
      (a x y : A) (ys : List A)
      → lt y x ≡ true
      → keep (same lt a) (y ∷ x ∷ ys) ≡ keep (same lt a) (x ∷ y ∷ ys)
  swap-same a x y ys e = ground (arith, order.neg_trans y a x)

  -- A new element never passes one that the order cannot tell from it.
  keep-insert :
      (a x : A) (ys : List A) → keep (same lt a) (insert lt x ys) ≡ keep (same lt a) (x ∷ ys)
  unfolding insert
  keep-insert a x [] = refl
  keep-insert a x (y ∷ ys) = elim (Bool-cases (lt y x)) [
    | inl e ↦ rw (e, keep-insert a x ys) (swap-same a x y ys e)
    | inr e ↦ rw e
  ]

  pub keep-stable_sort :
      (a : A) (xs : List A) → keep (same lt a) (stable_sort lt xs) ≡ keep (same lt a) xs
  unfolding stable_sort
  keep-stable_sort a [] = refl
  keep-stable_sort a (x ∷ xs) = rw (keep-insert a x (stable_sort lt xs), keep-stable_sort a xs)

module _ {ℓ} {A : Type ℓ} (lt : A → A → Bool) where
  insert-first : (x : A) (xs : List A) → All (λ y. lt y x ≡ false) xs → insert lt x xs ≡ x ∷ xs
  unfolding insert
  insert-first x [] h = refl
  insert-first x (y ∷ ys) h = let e = h.0 in rw e refl

  -- A sorted list stays as it is.
  pub stable_sort-sorted : (xs : List A) → IsSorted lt xs → stable_sort lt xs ≡ xs
  unfolding stable_sort
  stable_sort-sorted [] h = refl
  stable_sort-sorted (x ∷ xs) h =
      ap (insert lt x) (stable_sort-sorted xs h.1) ∙ insert-first x xs h.0
