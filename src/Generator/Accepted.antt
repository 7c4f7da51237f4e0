-- ===== src/Generator/Accepted.antt =====
-- The generated workload fits the file format, and the harness reads it back.
use matching_engine_benchmar.Common.{
  ℕ, zero, suc, ◌+◌, ◌-◌, ◌*◌, ◌^◌, ◌≤◌, ◌<◌, ◌≡◌, sym, ap, subst, ◌∙◌, inl, inr, Bool, true, false,
  ◌&&◌, some, List, [], ◌∷◌, ◌++◌, arith, ◌==◌, if◌then◌else◌, Bool-cases, length, length-append,
  All, All-append, ℤ, pos_part, neg_part, IsInt64, add_nat, sub_nat, ok,
}
use matching_engine_benchmar.Workload.{Disk, write_binary, load_workload, msg_new}
use matching_engine_benchmar.Workload.RoundTrip.{Fits, all_loaded, load_workload-write_binary}
use matching_engine_benchmar.Generator.{
  Draws, PlacedOrder, sample, place, place_loop, message, modify_stage, dup_cancel_stage,
  cancel_stage, stale_modify_stage, expand, placed_at, expand_loop, timeline, generate,
  shuffle_loop, iota,
}
use matching_engine_benchmar.Generator.Shuffle.{
  IsScaled, uniform_int-within, shuffled-below, length-shuffle_loop, length-iota,
}
use matching_engine_benchmar.Generator.Timeline.{generate-in_order}

-- Mid-prices in ticks of at most 62 bits, far above any price of a share.
abbrev pub IsPriced : {R M : Type 0} → Draws R M → Type 0
IsPriced {M = M} d =
    (m : M) → (pos_part (d.mid_ticks m) < 2 ^ 62) × (neg_part (d.mid_ticks m) < 2 ^ 62)

-- A placed order: a known side, at most 100 shares, and a price of at least zero.
pub record IsPlaced (p : PlacedOrder) : Type 0 where
  pub side : p.side < 2
  pub qty : p.qty ≤ 100
  pub high : pos_part p.price_ticks < 2 ^ 62 + 1000
  pub low : neg_part p.price_ticks ≡ 0

module _ {R M : Type 0} (d : Draws R M) (scaled : IsScaled d) (priced : IsPriced d) where
  place-IsPlaced : (n i : ℕ) (m : M) (r : R) → IsPlaced (place d n i m r).0
  unfolding place sample
  place-IsPlaced n i m r =
      let (k, r1) = d.bucket r in
      let qty = (uniform_int-within d scaled 1 100 r1 (omega arith) (omega arith)).1 in
      let bound = priced m in ground (arith, qty, bound)

  place_loop-IsPlaced : (n cnt i : ℕ) (m : M) (r : R) → All IsPlaced (place_loop d n cnt i m r).0
  unfolding place_loop
  place_loop-IsPlaced zero cnt i m r = tt
  place_loop-IsPlaced (suc n) cnt i m r =
      let (mid', r1) = d.move m r in
      let (p, r2) = place d cnt i mid' r1 in
      (place-IsPlaced cnt i mid' r1, place_loop-IsPlaced n cnt (i + 1) mid' r2)

placed_at-IsPlaced :
    {R M : Type 0} (d : Draws R M) (news : List PlacedOrder) (i : ℕ)
    → All IsPlaced news
    → IsPlaced (placed_at d news i)
placed_at-IsPlaced d [] i h = ground arith
placed_at-IsPlaced d (p ∷ news) zero h = h.0
placed_at-IsPlaced d (p ∷ news) (suc i) h = placed_at-IsPlaced d news i h.1

message-Fits :
    (now type : ℕ) (n : PlacedOrder) (ioc qty oid : ℕ) (price : ℤ)
    → type ≤ 2
    → n.side < 2
    → ioc < 2
    → qty ≤ 101
    → oid < 2 ^ 64
    → IsInt64 price
    → Fits (message now type n ioc qty oid price)
message-Fits now type n ioc qty oid price t s i q o p = ground arith

module _ {R M : Type 0} (d : Draws R M) (n : PlacedOrder) (v : IsPlaced n) (oid : ℕ)
    (h : oid < 2 ^ 64) where
  place_price : IsInt64 n.price_ticks
  place_price = ground (arith, v)

  -- The messages of the modify fit, and so does its price; there is one at most.
  modify_stage-Fits :
      (now : ℕ) (r : R)
      → let (s, mprice) = modify_stage d n oid now r in
        All Fits s.msgs × IsInt64 mprice × (length s.msgs ≤ 1)
  unfolding modify_stage
  modify_stage-Fits now r =
      let up : IsInt64 (add_nat n.price_ticks 1) = ground (arith, v) in
      let down : IsInt64 (sub_nat n.price_ticks 1) = ground (arith, v) in
      let better : IsInt64
          (if n.side == 0 then add_nat n.price_ticks 1 else sub_nat n.price_ticks 1) =
        ground (arith, up, down) in
      let r2 = (d.scaled 70 (d.below 20 r).1).1 in
      let mprice : IsInt64 (
          if (d.below 80 r2).0
          then (if n.side == 0 then add_nat n.price_ticks 1 else sub_nat n.price_ticks 1)
          else n.price_ticks) =
        elim (Bool-cases (d.below 80 r2).0) [ inl e ↦ rw e better | inr e ↦ rw e place_price ] in
      elim (Bool-cases (d.below 20 r).0) [
        | inl e ↦ rw e (
          (
            message-Fits _ _ n 0 (n.qty + 1) oid _ (omega arith) v.side (omega arith)
                (omega (arith, v.qty)) h mprice,
            tt,
          ),
          mprice,
          omega arith,
        )
        | inr e ↦ rw e (tt, place_price, omega arith)
      ]

  dup_cancel_stage-Fits :
      (now : ℕ) (r : R)
      → let s = dup_cancel_stage d n oid now r in All Fits s.msgs × (length s.msgs ≤ 1)
  unfolding dup_cancel_stage
  dup_cancel_stage-Fits now r = elim (Bool-cases (d.below 2 r).0) [
    | inl e ↦ rw e (
      (
        message-Fits _ _ n 0 n.qty oid _ (omega arith) v.side (omega arith) (omega (arith, v.qty)) h
            place_price,
        tt,
      ),
      omega arith,
    )
    | inr e ↦ rw e (tt, omega arith)
  ]

  cancel_stage-Fits :
      (now : ℕ) (r : R)
      → let s = cancel_stage d n oid now r in All Fits s.msgs × (length s.msgs ≤ 2)
  unfolding cancel_stage
  cancel_stage-Fits now r =
      let (ttl, r2) = d.lifetime n.lvl (d.below 95 r).1 in
      let dup = dup_cancel_stage-Fits (now + ttl) r2 in
      elim (Bool-cases (d.below 95 r).0) [
        | inl e ↦ rw e (
          (
            message-Fits _ _ n 0 n.qty oid _ (omega arith) v.side (omega arith)
                (omega (arith, v.qty)) h place_price,
            dup.0,
          ),
          omega (arith, dup.1),
        )
        | inr e ↦ rw e (tt, omega arith)
      ]

  stale_modify_stage-Fits :
      (mprice : ℤ) (eligible : Bool) (now : ℕ) (r : R)
      → IsInt64 mprice
      → let s = stale_modify_stage d n oid mprice eligible now r in
        All Fits s.msgs × (length s.msgs ≤ 1)
  unfolding stale_modify_stage
  stale_modify_stage-Fits mprice false now r p = (tt, omega arith)
  stale_modify_stage-Fits mprice true now r p = elim (Bool-cases (d.below 2 r).0) [
    | inl e ↦ rw e (
      (
        message-Fits _ _ n 0 (n.qty + 1) oid _ (omega arith) v.side (omega arith)
            (omega (arith, v.qty)) h p,
        tt,
      ),
      omega arith,
    )
    | inr e ↦ rw e (tt, omega arith)
  ]

  -- One order has between one and five messages.
  expand-Fits :
      (now : ℕ) (r : R)
      → let s = expand d n oid now r in All Fits s.msgs × (1 ≤ length s.msgs) × (length s.msgs ≤ 5)
  unfolding expand
  expand-Fits now r =
      let (is_ioc, r1) = d.below 15 r in
      let (amend, mprice) = modify_stage d n oid now r1 in
      let cancel = cancel_stage d n oid amend.now amend.rng in
      let eligible = amend.happened && cancel.happened in
      let stale = stale_modify_stage d n oid mprice eligible cancel.now cancel.rng in
      let (amend_fits, price, amends) = modify_stage-Fits now r1 in
      let (cancel_fits, cancels) = cancel_stage-Fits amend.now amend.rng in
      let (stale_fits, stales) =
        stale_modify_stage-Fits mprice eligible cancel.now cancel.rng price in
      let first = λ (ioc : ℕ) (b : ioc < 2).
        message-Fits now msg_new n ioc n.qty oid _ (omega arith) v.side b (omega (arith, v.qty)) h
          place_price in
      let tail =
        All-append _ amend.msgs _ amend_fits (All-append _ cancel.msgs _ cancel_fits stale_fits) in
      let size =
        length-append amend.msgs (cancel.msgs ++ stale.msgs)
        ∙ ap (λ k. length amend.msgs + k) (length-append cancel.msgs stale.msgs) in
      elim (Bool-cases is_ioc) [
        | inl e ↦ rw e ((first 1 (omega arith), tt), omega arith, omega arith)
        | inr e ↦ rw e ((first 0 (omega arith), tail), omega arith, omega (arith, size))
      ]

All-lt : (n m : ℕ) (xs : List ℕ) → n ≤ m → All (λ x. x < n) xs → All (λ x. x < m) xs
All-lt n m [] h v = tt
All-lt n m (x ∷ xs) h v = (omega (arith, v.0), All-lt n m xs h v.1)

expand_loop-Fits :
    {R M : Type 0} (d : Draws R M) (news : List PlacedOrder) (order : List ℕ) (now : ℕ) (r : R)
    → All IsPlaced news
    → All (λ i. i < 2 ^ 32) order
    → let ms = expand_loop d news order now r in
      All Fits ms × (length order ≤ length ms) × (length ms ≤ 5 * length order)
unfolding expand_loop
expand_loop-Fits d news [] now r h k = (tt, omega arith, omega arith)
expand_loop-Fits d news (i ∷ order) now r h k =
    let placed = placed_at-IsPlaced d news i h in
    let life = expand d (placed_at d news i) (i + 1) now r in
    let (fits, some_there, few) =
      expand-Fits d (placed_at d news i) placed (i + 1) (omega (arith, k.0)) now r in
    let (rest, low, high) = expand_loop-Fits d news order life.now life.rng h k.1 in
    let size = length-append life.msgs (expand_loop d news order life.now life.rng) in
    (All-append _ life.msgs _ fits rest, omega (arith, size), omega (arith, size))

-- A workload of at least 1 and at most 20,000,000 new orders, once written without a failure, is
-- accepted by the harness message by message; for a scaled draw below its bound and mid-prices of at
-- most 62 bits.
pub load_workload-generate :
    {R M : Type 0} (d : Draws R M)
    → IsScaled d
    → IsPriced d
    → (count : ℕ) (r : R) (disk : Disk) (bs : List ℕ) → 0 < count
    → count ≤ 20 * 1000 * 1000
    → write_binary disk (generate d count r) ≡ (true, some bs)
    → load_workload (some bs) ≡ ok (all_loaded 0 (generate d count r))
unfolding timeline
load_workload-generate d scaled priced n r disk bs h k e =
    let (news, r1) = place_loop d n n 0 d.start_mid r in
    let (order, r2) = shuffle_loop d (n - 1) (iota n 0) r1 in
    let size : length order ≡ n = length-shuffle_loop d (n - 1) (iota n 0) r1 ∙ length-iota n 0 in
    let below =
      All-lt n (2 ^ 32) order (omega arith) (shuffled-below d scaled n r1 h (omega arith)) in
    let (fits, low, high) =
      expand_loop-Fits d news order 0 r2 (place_loop-IsPlaced d scaled priced n n 0 d.start_mid r)
        below in
    let same : timeline d n r ≡ generate d n r = sym (generate-in_order d n r).0 in
    let all_fit : All Fits (generate d n r) = subst (All Fits) same fits in
    let long : length (generate d n r) ≡ length (timeline d n r) = ap length (sym same) in
    load_workload-write_binary disk (generate d n r) bs (omega (arith, long, low))
      (omega (arith, long, high)) all_fit e
