-- ===== src/Sort/Unique.antt =====
-- Sortedness and the order among equal elements determine the result of a stable sort.
use matching_engine_benchmar.Common.{
  ◌≡◌, refl, sym, ◌∙◌, Bool, true, false, List, [], ◌∷◌, arith, keep, All,
}
use mathlib.Core.Path.{ap₂}
use matching_engine_benchmar.Sort.{StrictWeak, stable_sort, IsSorted, same}
use matching_engine_benchmar.Sort.Stable.{stable_sort-IsSorted, keep-stable_sort}

module _ {ℓ} {A : Type ℓ} {lt : A → A → Bool} (order : StrictWeak lt) where
  not-lt_self : (a : A) → lt a a ≡ false
  not-lt_self a = ground (arith, order.asymm a a)

  -- Nothing that is not smaller than `y` is the same as `x`, if `x` is smaller than `y`.
  keep-above :
      (x y : A) (ys : List A)
      → lt x y ≡ true
      → All (λ z. lt z y ≡ false) ys
      → keep (same lt x) ys ≡ []
  keep-above x y [] e h = refl
  keep-above x y (z ∷ ys) e h = ground (arith, keep-above x y ys e h.1, order.neg_trans x z y)

  same_heads :
      (x y : A) (xs ys : List A)
      → IsSorted lt (x ∷ xs)
      → IsSorted lt (y ∷ ys)
      → keep (same lt x) (x ∷ xs) ≡ keep (same lt x) (y ∷ ys)
      → keep (same lt y) (x ∷ xs) ≡ keep (same lt y) (y ∷ ys)
      → x ≡ y
  same_heads x y xs ys hx hy ex ey =
      ground (arith, keep-above x y ys, keep-above y x xs, not-lt_self x, not-lt_self y)

  keep-tail :
      (p : A → Bool) (x : A) (xs ys : List A)
      → keep p (x ∷ xs) ≡ keep p (x ∷ ys)
      → keep p xs ≡ keep p ys
  keep-tail p x xs ys e = ground arith

  -- Two sorted lists agree if they agree on each class of equal elements.
  pub sorted_unique :
      (xs ys : List A)
      → IsSorted lt xs
      → IsSorted lt ys
      → ((a : A) → keep (same lt a) xs ≡ keep (same lt a) ys)
      → xs ≡ ys
  sorted_unique [] [] hx hy h = refl
  sorted_unique [] (y ∷ ys) hx hy h = ground (arith, h y, not-lt_self y)
  sorted_unique (x ∷ xs) [] hx hy h = ground (arith, h x, not-lt_self x)
  sorted_unique (x ∷ xs) (y ∷ ys) hx hy h =
      let e = same_heads x y xs ys hx hy (h x) (h y) in
      let h' : (a : A) → keep (same lt a) (x ∷ xs) ≡ keep (same lt a) (x ∷ ys) =
        λ a. rw e (rw e at (h a)) in
      ap₂ ◌∷◌ e (sorted_unique xs ys hx.1 hy.1 λ a. keep-tail (same lt a) x xs ys (h' a))

  -- Hence two vectors are sorted alike if they agree on each class of equal elements.
  pub stable_sort_unique :
      (xs ys : List A)
      → ((a : A) → keep (same lt a) xs ≡ keep (same lt a) ys)
      → stable_sort lt xs ≡ stable_sort lt ys
  stable_sort_unique xs ys h =
      sorted_unique (stable_sort lt xs) (stable_sort lt ys) (stable_sort-IsSorted order xs)
        (stable_sort-IsSorted order ys)
        λ a. keep-stable_sort order a xs ∙ h a ∙ sym (keep-stable_sort order a ys)
