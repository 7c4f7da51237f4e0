-- ===== src/Common/Vectors.antt =====
-- Vectors that grow by a default value where an index is out of range.
use Prim.Native.Nat.{ℕ, ◌+◌, ◌-◌, ◌%◌, ◌^◌, ◌<◌}
use mathlib.Core.Path.{◌≡◌, refl, ap, ◌∙◌}
use mathlib.Core.Logic.{◌≢◌, inl, inr}
use mathlib.Core.List.{List}
use native.Mathlib.Omega.{arith}
use matching_engine_benchmar.Common.Bools.{leb, leb→le, ◌==◌, if◌then◌else◌, Bool-cases}
use matching_engine_benchmar.Common.Lists.{
  length, set, get_or, resize, length-resize, get_or-set_self, get_or-set_ne, get_or-resize,
}

module _ {ℓ} {A : Type ℓ} where
  -- Room for an index, in 64 bits: the largest one wraps to no room at all.
  abbrev pub grow : ℕ → A → List A → List A
  grow i d xs = if leb (length xs) i then resize ((i + 1) % 2 ^ 64) d xs else xs

  -- A read and a write in place, after the growth.
  abbrev pub update_at : ℕ → A → (A → A) → List A → List A
  update_at i d f xs = set (grow i d xs) i (f (get_or (grow i d xs) i d))

  pub get_or-grow :
      (i j : ℕ) (d : A) (xs : List A) → i < 2 ^ 64 - 1 → get_or (grow i d xs) j d ≡ get_or xs j d
  get_or-grow i j d xs h = elim (Bool-cases (leb (length xs) i)) [
    | inl e ↦
        rw e (get_or-resize ((i + 1) % 2 ^ 64) j d xs (omega (arith, leb→le (length xs) i e, h)))
    | inr e ↦ rw e refl
  ]

  pub length-grow : (i : ℕ) (d : A) (xs : List A) → i < 2 ^ 64 - 1 → i < length (grow i d xs)
  length-grow i d xs h = elim (Bool-cases (leb (length xs) i)) [
    | inl e ↦ rw e (omega (arith, length-resize ((i + 1) % 2 ^ 64) d xs, h))
    | inr e ↦ rw e (ground arith)
  ]

  -- A write changes its slot and no other.
  pub get_or-update_at :
      (i j : ℕ) (d : A) (f : A → A) (xs : List A)
      → i < 2 ^ 64 - 1
      → get_or (update_at i d f xs) j d ≡ (if i == j then f (get_or xs j d) else get_or xs j d)
  get_or-update_at i j d f xs h = elim (Bool-cases (i == j)) [
    | inl e ↦
        let same : i ≡ j = ground arith in
        rw e (
          rw (← same) (
            get_or-set_self (grow i d xs) i (f (get_or (grow i d xs) i d)) d (length-grow i d xs h)
            ∙ ap f (get_or-grow i i d xs h)))
    | inr e ↦
        let other : i ≢ j = λ p. ground (arith, p) in
        rw e (
          get_or-set_ne (grow i d xs) i j (f (get_or (grow i d xs) i d)) d other
          ∙ get_or-grow i j d xs h)
  ]
