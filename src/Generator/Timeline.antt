-- ===== src/Generator/Timeline.antt =====
-- The messages are made in the order of their times.
use matching_engine_benchmar.Common.{
  ℕ, ◌+◌, ◌-◌, ◌≤◌, ◌≡◌, refl, inl, inr, Bool, true, false, ◌&&◌, List, [], ◌∷◌, ◌++◌, arith,
  Bool-cases, All, ℤ, pos,
}
use matching_engine_benchmar.Workload.{Msg}
use matching_engine_benchmar.Sort.{IsSorted}
use matching_engine_benchmar.Sort.Stable.{stable_sort-sorted}
use matching_engine_benchmar.Generator.{
  Draws, PlacedOrder, Stage, modify_stage, dup_cancel_stage, cancel_stage, stale_modify_stage,
  expand, placed_at, expand_loop, ts_lt, timeline, generate, place_loop, shuffle_loop, iota,
}

-- The times rise from `lo` on, without falling, and end by `hi`.
pub Rises : ℕ → List Msg → ℕ → Type 0
Rises lo [] hi = lo ≤ hi
Rises lo (m ∷ ms) hi = (t : ℕ) × (m.ts ≡ pos t) × (lo ≤ t) × Rises t ms hi

Rises-append :
    (lo mid hi : ℕ) (xs ys : List Msg) → Rises lo xs mid → Rises mid ys hi → Rises lo (xs ++ ys) hi
unfolding Rises
Rises-append lo mid hi [] [] f g = omega arith
Rises-append lo mid hi [] (y ∷ ys) f (t, e, h, g) = (t, e, omega arith, g)
Rises-append lo mid hi (x ∷ xs) ys (t, e, h, f) g = (t, e, h, Rises-append t mid hi xs ys f g)

Rises-later : (lo hi later : ℕ) (ms : List Msg) → hi ≤ later → Rises lo ms hi → Rises lo ms later
unfolding Rises
Rises-later lo hi later [] h f = omega arith
Rises-later lo hi later (m ∷ ms) h (t, e, k, f) = (t, e, k, Rises-later t hi later ms h f)

Rises-All :
    (lo hi : ℕ) (ms : List Msg) (x : Msg)
    → x.ts ≡ pos lo
    → Rises lo ms hi
    → All (λ m. ts_lt m x ≡ false) ms
unfolding Rises
Rises-All lo hi [] x e f = tt
Rises-All lo hi (m ∷ ms) x e (t, k, h, f) =
    (ground (arith, e, k), Rises-All lo hi ms x e (weaken ms lo t h f))
  where
    weaken : (ms : List Msg) (lo t : ℕ) → lo ≤ t → Rises t ms hi → Rises lo ms hi
    weaken [] lo t h f = omega arith
    weaken (m ∷ ms) lo t h (u, e, k, f) = (u, e, omega arith, f)

Rises-IsSorted : (lo hi : ℕ) (ms : List Msg) → Rises lo ms hi → IsSorted ts_lt ms
unfolding Rises
Rises-IsSorted lo hi [] f = tt
Rises-IsSorted lo hi (m ∷ ms) (t, e, h, f) = (Rises-All t hi ms m e f, Rises-IsSorted t hi ms f)

-- A stage that starts at `now`.
abbrev StageRises : {R : Type 0} → ℕ → Stage R → Type 0
StageRises now s = Rises now s.msgs s.now

module _ {R M : Type 0} (d : Draws R M) where
  modify_stage-Rises :
      (n : PlacedOrder) (oid now : ℕ) (r : R) → StageRises now (modify_stage d n oid now r).0
  unfolding modify_stage Rises
  modify_stage-Rises n oid now r = elim (Bool-cases (d.below 20 r).0) [
    | inl e ↦ rw e (_, refl, omega arith, omega arith)
    | inr e ↦ rw e (omega arith)
  ]

  dup_cancel_stage-Rises :
      (n : PlacedOrder) (oid now : ℕ) (r : R) → StageRises now (dup_cancel_stage d n oid now r)
  unfolding dup_cancel_stage Rises
  dup_cancel_stage-Rises n oid now r = elim (Bool-cases (d.below 2 r).0) [
    | inl e ↦ rw e (_, refl, omega arith, omega arith)
    | inr e ↦ rw e (omega arith)
  ]

  cancel_stage-Rises :
      (n : PlacedOrder) (oid now : ℕ) (r : R) → StageRises now (cancel_stage d n oid now r)
  unfolding cancel_stage Rises
  cancel_stage-Rises n oid now r = elim (Bool-cases (d.below 95 r).0) [
    | inl e ↦ rw e (_, refl, omega arith, dup_cancel_stage-Rises n oid _ _)
    | inr e ↦ rw e (omega arith)
  ]

  stale_modify_stage-Rises :
      (n : PlacedOrder) (oid : ℕ) (mprice : ℤ) (eligible : Bool) (now : ℕ) (r : R)
      → StageRises now (stale_modify_stage d n oid mprice eligible now r)
  unfolding stale_modify_stage Rises
  stale_modify_stage-Rises n oid mprice false now r = omega arith
  stale_modify_stage-Rises n oid mprice true now r = elim (Bool-cases (d.below 2 r).0) [
    | inl e ↦ rw e (_, refl, omega arith, omega arith)
    | inr e ↦ rw e (omega arith)
  ]

  expand-Rises : (n : PlacedOrder) (oid now : ℕ) (r : R) → StageRises now (expand d n oid now r)
  unfolding expand Rises
  expand-Rises n oid now r =
      let (is_ioc, r1) = d.below 15 r in
      let (amend, mprice) = modify_stage d n oid now r1 in
      let cancel = cancel_stage d n oid amend.now amend.rng in
      let eligible = amend.happened && cancel.happened in
      let stale = stale_modify_stage d n oid mprice eligible cancel.now cancel.rng in
      let tail =
        Rises-append now amend.now (stale.now + 1) amend.msgs (cancel.msgs ++ stale.msgs)
          (modify_stage-Rises n oid now r1)
          (Rises-append amend.now cancel.now (stale.now + 1) cancel.msgs stale.msgs
            (cancel_stage-Rises n oid amend.now amend.rng)
            (Rises-later cancel.now stale.now (stale.now + 1) stale.msgs (omega arith)
              (stale_modify_stage-Rises n oid mprice eligible cancel.now cancel.rng))) in
      elim (Bool-cases is_ioc) [
        | inl e ↦ rw e (now, refl, omega arith, omega arith)
        | inr e ↦ rw e (now, refl, omega arith, tail)
      ]

  expand_loop-Rises :
      (news : List PlacedOrder) (order : List ℕ) (now : ℕ) (r : R)
      → (hi : ℕ) × Rises now (expand_loop d news order now r) hi
  unfolding expand_loop Rises
  expand_loop-Rises news [] now r = (now, omega arith)
  expand_loop-Rises news (i ∷ order) now r =
      let life = expand d (placed_at d news i) (i + 1) now r in
      let (hi, rest) = expand_loop-Rises news order life.now life.rng in
      (
        hi,
        Rises-append now life.now hi life.msgs _ (expand-Rises (placed_at d news i) (i + 1) now r)
            rest,
      )

-- The messages of a workload are generated in the order of their times, so the stable sort leaves them
-- as they are.
pub generate-in_order :
    {R M : Type 0} (d : Draws R M) (count : ℕ) (r : R)
    → (generate d count r ≡ timeline d count r) × IsSorted ts_lt (timeline d count r)
unfolding generate timeline
generate-in_order d count r =
    let (news, r1) = place_loop d count count 0 d.start_mid r in
    let (order, r2) = shuffle_loop d (count - 1) (iota count 0) r1 in
    let (hi, rises) = expand_loop-Rises d news order 0 r2 in
    let sorted = Rises-IsSorted 0 hi _ rises in (stable_sort-sorted ts_lt _ sorted, sorted)
