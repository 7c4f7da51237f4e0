-- ===== src/Audit/Points.antt =====
-- The probe points are distinct, rise, lie in the workload and are as many as asked for.
use matching_engine_benchmar.Common.{
  ℕ, zero, suc, ◌+◌, ◌%◌, ◌≤◌, ◌<◌, min, ◌≡◌, refl, subst, inl, inr, Bool, true, false, not, ◌||◌,
  some, List, [], ◌∷◌, arith, ltb, ◌==◌, tests, Bool-cases, length, pos, ltb_ℤ,
}
use native.Mathlib.Nat.{zero-add}
use native.Mathlib.Decide.{dec_lt}
use native.Mathlib.Nat.{le_refl}
use matching_engine_benchmar.Run.Batch.{Rising}
use matching_engine_benchmar.Audit.{set_insert, pick_loop, audit_pick_indices}

abbrev member : ℕ → List ℕ → Bool
member x [] = false
member x (y ∷ ys) = x == y || member x ys

Rising-mono : (a b n : ℕ) (xs : List ℕ) → a ≤ b → Rising b n xs → Rising a n xs
Rising-mono a b n [] h r = tt
Rising-mono a b n (x ∷ xs) h r = (omega arith, r.1, r.2)

set_insert-Rising :
    (start n x : ℕ) (xs : List ℕ)
    → start ≤ x
    → x < n
    → Rising start n xs
    → Rising start n (set_insert x xs)
unfolding set_insert
set_insert-Rising start n x [] h k r = (h, k, tt)
set_insert-Rising start n x (y ∷ ys) h k r =
    ground (arith, set_insert-Rising (y + 1) n x ys, Rising-mono (x + 1) y n (y ∷ ys))

member-set_insert : (y x : ℕ) (xs : List ℕ) → member y (set_insert x xs) ≡ (y == x || member y xs)
unfolding set_insert
member-set_insert y x [] = refl
member-set_insert y x (z ∷ zs) = ground (arith, member-set_insert y x zs)

length-Rising : (start n : ℕ) (xs : List ℕ) → start ≤ n → Rising start n xs → start + length xs ≤ n
length-Rising start n [] h r = omega arith
length-Rising start n (x ∷ xs) h r = omega (arith, length-Rising (x + 1) n xs (omega arith) r.2)

length-set_insert-le : (x : ℕ) (xs : List ℕ) → length (set_insert x xs) ≤ suc (length xs)
unfolding set_insert
length-set_insert-le x [] = omega arith
length-set_insert-le x (y ∷ ys) = ground (arith, length-set_insert-le x ys)

not-member-Rising :
    (x start n : ℕ) (xs : List ℕ) → x < start → Rising start n xs → member x xs ≡ false
not-member-Rising x start n [] h r = refl
not-member-Rising x start n (y ∷ ys) h r = ground (arith, not-member-Rising x (y + 1) n ys)

-- A rising list that holds every number from `start` below `n` has all of them.
length-full :
    (start n : ℕ) (xs : List ℕ)
    → Rising start n xs
    → ((y : ℕ) → start ≤ y → y < n → member y xs ≡ true)
    → n ≤ start + length xs
length-full start n [] r h = elim (dec_lt start n) [
  | yes p ↦ absurd (ground (arith, h start (le_refl start) p))
  | no p ↦ omega arith
]
length-full start n (x ∷ xs) r h =
    let first : x ≡ start =
      ground (arith, h start (le_refl start), not-member-Rising start (x + 1) n xs) in
    let others : n ≤ x + 1 + length xs =
      length-full (x + 1) n xs r.2 λ y above below. ground (arith, h y (omega arith) below) in
    omega arith

-- What is asked of a choice of `want` points below `count`.
pub record IsChoice (count want : ℕ) (xs : List ℕ) : Type 0 where
  pub rising : Rising 0 count xs
  pub size : length xs ≡ want

module _ (rng : ℕ → ℕ) (count want : ℕ) (small : want ≤ count) (filled : 0 < count) where
  -- The points picked so far: rising, not too many, and with every word used.
  record IsPicked (k : ℕ) (xs : List ℕ) : Type 0 where
    rising : Rising 0 count xs
    few : length xs ≤ want
    used : (j : ℕ) → j < k → member (rng j % count) xs ≡ true

  step-IsPicked :
      (k : ℕ) (xs : List ℕ)
      → IsPicked k xs
      → length xs < want
      → IsPicked (k + 1) (set_insert (rng k % count) xs)
  step-IsPicked k xs p h = record {
    rising = set_insert-Rising 0 count (rng k % count) xs (omega arith) (omega arith) p.rising;
    few = omega (arith, length-set_insert-le (rng k % count) xs);
    used = λ j hj.
        rw member-set_insert
          (elim (Bool-cases (j == k)) [ inl e ↦ ground arith | inr e ↦ ground (arith, p.used j) ]);
  }

  stopped-IsChoice :
      (k : ℕ) (xs ys : List ℕ)
      → IsPicked k xs
      → ltb (length xs) want ≡ false
      → some xs ≡ some ys
      → IsChoice count want ys
  stopped-IsChoice k xs ys p h e =
      let same : xs ≡ ys = cc in
      record {
        rising = subst (Rising 0 count) same p.rising;
        size = rw (← same) (ground (arith, p.few));
      }

  pick_loop-IsChoice :
      (fuel k : ℕ) (xs ys : List ℕ)
      → IsPicked k xs
      → pick_loop fuel rng k count want xs ≡ some ys
      → IsChoice count want ys
  unfolding pick_loop
  pick_loop-IsChoice zero k xs ys p h = elim (Bool-cases (ltb (length xs) want)) [
    | inl e ↦ absurd (ground arith)
    | inr e ↦ stopped-IsChoice k xs ys p e (rw e at h)
  ]
  pick_loop-IsChoice (suc fuel) k xs ys p h = elim (Bool-cases (ltb (length xs) want)) [
    | inl e ↦
        pick_loop-IsChoice fuel (k + 1) (set_insert (rng k % count) xs) ys
          (step-IsPicked k xs p (omega (tests, e))) (rw e at h)
    | inr e ↦ stopped-IsChoice k xs ys p e (rw e at h)
  ]

  -- Every residue occurs among the words below `n`.
  abbrev Covers : ℕ → Type 0
  Covers n = (y : ℕ) → y < count → (j : ℕ) × (j < n) × (rng j % count ≡ y)

  pick_loop-total :
      (fuel k : ℕ) (xs : List ℕ)
      → IsPicked k xs
      → Covers (k + fuel)
      → (ys : List ℕ) × (pick_loop fuel rng k count want xs ≡ some ys)
  unfolding pick_loop
  pick_loop-total zero k xs p c =
      let all_used : count ≤ 0 + length xs =
        length-full 0 count xs p.rising
          λ y _ below. let (j, early, e) = c y below in rw e at (p.used j (omega arith)) in
      (xs, ground arith)
  pick_loop-total (suc fuel) k xs p c = elim (Bool-cases (ltb (length xs) want)) [
    | inl e ↦
        let size : k + suc fuel ≡ k + 1 + fuel = omega arith in
        let (ys, run) =
          pick_loop-total fuel (k + 1) (set_insert (rng k % count) xs)
            (step-IsPicked k xs p (omega (tests, e))) (rw size at c) in
        (ys, rw e run)
    | inr e ↦ (xs, rw e)
  ]

-- Where the words of the generator hit every residue within the fuel, the choice of `n` points below
-- `count` ends, and gives the smaller of `n` and `count` points, rising, so distinct, below `count`.
pub audit_pick_indices-IsChoice :
    (fuel : ℕ) (rng : ℕ → ℕ) (count n : ℕ)
    → ((y : ℕ) → y < count → (j : ℕ) × (j < fuel) × (rng j % count ≡ y))
    → (xs : List ℕ) × (audit_pick_indices fuel rng count (pos n) ≡ some xs)
      × IsChoice count (min n count) xs
unfolding audit_pick_indices
audit_pick_indices-IsChoice fuel rng count n covers =
    elim (Bool-cases (count == 0 || not (ltb_ℤ (pos 0) (pos n)))) [
      | inl e ↦ ([], rw e, record { rising = tt; size = ground arith })
      | inr e ↦
          let filled : 0 < count = ground arith in
          let small : min n count ≤ count = omega arith in
          let none_yet : IsPicked rng count (min n count) small filled 0 [] = record {
            rising = tt;
            few = omega arith;
            used = λ j h. absurd (omega arith);
          } in
          let (ys, run) =
            pick_loop-total rng count (min n count) small filled fuel 0 [] none_yet
              (rw zero-add covers) in
          (
            ys,
            rw e run,
            pick_loop-IsChoice rng count (min n count) small filled fuel 0 [] ys none_yet run,
          )
    ]
