-- ===== src/Generator.antt =====
-- `generate` of workload/generator.cpp: the placement of the new orders, the shuffle into arrival order
-- and the life of each order. What comes of floating point (the uniform draws, the walk of the mid-price,
-- the depth profile and the lifetimes) is a parameter.
pub mod Shuffle
pub mod Timeline
pub mod Lives
pub mod Accepted
pub mod Main
use matching_engine_benchmar.Common.{
  ℕ, zero, suc, ◌+◌, ◌-◌, ◌/◌, ◌%◌, ◌^◌, Bool, true, false, ◌&&◌, List, [], ◌∷◌, ◌++◌, ltb, ◌==◌,
  if◌then◌else◌, set, get_or, ℤ, pos, ltb_ℤ, add_nat, sub_nat,
}
use matching_engine_benchmar.Workload.{Msg, msg_new, msg_cancel, msg_modify}
use matching_engine_benchmar.Sort.{stable_sort}

-- The draws of `Rng` and of the samplers, over the states `R` of the generator and the mid-prices `M`.
pub record Draws (R M : Type 0) : Type 0 where
  pub below : ℕ → R → Bool × R  -- `uniform() < k / 100`
  pub scaled : ℕ → R → ℕ × R  -- `static_cast<...>(uniform() * n)`
  pub bucket : R → ℕ × R  -- the index that the binary search over the depth profile finds
  pub lifetime : ℕ → R → ℕ × R  -- the exponential lifetime of an order at a level, in microseconds
  pub start_mid : M
  pub move : M → R → M × R  -- one step of the mid-price, which draws a normal
  pub mid_ticks : M → ℤ

-- The `NewOrder` of `generate`.
pub record PlacedOrder : Type 0 where
  pub side : ℕ
  pub price_ticks : ℤ
  pub qty : ℕ
  pub lvl : ℕ

abbrev pub max_level : ℕ
max_level = 799

module _ {R M : Type 0} (d : Draws R M) where
  -- `uniform_int`, in 32 bits.
  unfoldable pub uniform_int : ℕ → ℕ → R → ℕ × R
  uniform_int lo hi r = let (k, r') = d.scaled ((hi + 1 - lo) % 2 ^ 32) r in ((lo + k) % 2 ^ 32, r')

  unfoldable pub sample : R → ℕ × R
  sample r = let (k, r') = d.bucket r in (if ltb max_level k then max_level else k, r')

  -- One order of the first phase: buys come in the first half, sells in the second.
  unfoldable pub place : ℕ → ℕ → M → R → PlacedOrder × R
  place count i mid r =
      let (lvl, r1) = sample r in
      let is_buy = ltb i (count / 2) in
      let px =
        if is_buy
        then sub_nat (d.mid_ticks mid) (lvl + 1)
        else add_nat (d.mid_ticks mid) (lvl + 1) in
      let (qty, r2) = uniform_int 1 100 r1 in
      (
        record {
          side = if is_buy then 0 else 1;
          price_ticks = if ltb_ℤ px (pos 1) then pos 1 else px;
          qty = qty;
          lvl = lvl;
        },
        r2,
      )

  -- The loop of the first phase, with `n` orders to go from the `i`-th on.
  unfoldable pub place_loop : ℕ → ℕ → ℕ → M → R → List PlacedOrder × R
  place_loop zero count i mid r = ([], r)
  place_loop (suc n) count i mid r =
      let (mid', r1) = d.move mid r in
      let (p, r2) = place count i mid' r1 in
      let (ps, r3) = place_loop n count (i + 1) mid' r2 in (p ∷ ps, r3)

-- `std::iota`, from a start.
unfoldable pub iota : ℕ → ℕ → List ℕ
iota zero start = []
iota (suc n) start = start ∷ iota n (start + 1)

-- `std::swap` of two entries.
unfoldable pub swap_at : ℕ → ℕ → List ℕ → List ℕ
swap_at i j xs = set (set xs i (get_or xs j 0)) j (get_or xs i 0)

module _ {R M : Type 0} (d : Draws R M) where
  -- The loop of the Fisher-Yates shuffle, from `i` down to 1.
  unfoldable pub shuffle_loop : ℕ → List ℕ → R → List ℕ × R
  shuffle_loop zero order r = (order, r)
  shuffle_loop (suc i) order r =
      let (j, r') = uniform_int d 0 (suc i) r in shuffle_loop i (swap_at (suc i) j order) r'

-- What a step of an order's life appends, whether it happened, and the time and the draws after it.
pub record Stage (R : Type 0) : Type 0 where
  pub msgs : List Msg
  pub happened : Bool
  pub now : ℕ
  pub rng : R

abbrev pub message : ℕ → ℕ → PlacedOrder → ℕ → ℕ → ℕ → ℤ → Msg
message now type n ioc qty oid price = record {
  ts = pos now;
  type = type;
  side = n.side;
  ioc = ioc;
  qty = qty;
  order_id = oid;
  price_ticks = price;
}

abbrev pub no_stage : {R : Type 0} → ℕ → R → Stage R
no_stage now r = record { msgs = []; happened = false; now = now; rng = r }

module _ {R M : Type 0} (d : Draws R M) where
  -- The modify: a larger quantity, and mostly a price one tick nearer to the other side. The stage comes
  -- with that price.
  unfoldable pub modify_stage : PlacedOrder → ℕ → ℕ → R → Stage R × ℤ
  modify_stage n oid now r =
      let (modifies, r1) = d.below 20 r in
      let (gap, r2) = d.scaled 70 r1 in
      let (reprices, r3) = d.below 80 r2 in
      let better = if n.side == 0 then add_nat n.price_ticks 1 else sub_nat n.price_ticks 1 in
      let mprice = if reprices then better else n.price_ticks in
      let tmod = now + 30 + gap in
      if modifies
      then (
        record {
          msgs = message tmod msg_modify n 0 (n.qty + 1) oid mprice ∷ [];
          happened = true;
          now = tmod;
          rng = r3;
        },
        mprice,
      )
      else (no_stage now r1, n.price_ticks)

  -- The duplicate cancel.
  unfoldable pub dup_cancel_stage : PlacedOrder → ℕ → ℕ → R → Stage R
  dup_cancel_stage n oid now r =
      let (again, r1) = d.below 2 r in
      let (more, r2) = d.scaled 20 r1 in
      let later = now + (1 + more) in
      if again
      then record {
        msgs = message later msg_cancel n 0 n.qty oid n.price_ticks ∷ [];
        happened = true;
        now = later;
        rng = r2;
      }
      else no_stage now r1

  -- The cancel, and its duplicate.
  unfoldable pub cancel_stage : PlacedOrder → ℕ → ℕ → R → Stage R
  cancel_stage n oid now r =
      let (cancels, r1) = d.below 95 r in
      let (ttl, r2) = d.lifetime n.lvl r1 in
      let dup = dup_cancel_stage n oid (now + ttl) r2 in
      if cancels
      then record {
        msgs = message (now + ttl) msg_cancel n 0 n.qty oid n.price_ticks ∷ dup.msgs;
        happened = true;
        now = dup.now;
        rng = dup.rng;
      }
      else no_stage now r1

  -- The stale modify, for an order that was modified and cancelled.
  unfoldable pub stale_modify_stage : PlacedOrder → ℕ → ℤ → Bool → ℕ → R → Stage R
  stale_modify_stage n oid mprice eligible now r =
      let (stale, r1) = d.below 2 r in
      let (more, r2) = d.scaled 20 r1 in
      let later = now + (1 + more) in
      if eligible
      then (if stale
          then record {
            msgs = message later msg_modify n 0 (n.qty + 1) oid mprice ∷ [];
            happened = true;
            now = later;
            rng = r2;
          }
          else no_stage now r1)
      else no_stage now r

  -- The body of the second loop: all messages of one order, and the time at which the next one starts.
  unfoldable pub expand : PlacedOrder → ℕ → ℕ → R → Stage R
  expand n oid now r =
      let (is_ioc, r1) = d.below 15 r in
      let (amend, mprice) = modify_stage n oid now r1 in
      let cancel = cancel_stage n oid amend.now amend.rng in
      let stale =
        stale_modify_stage n oid mprice (amend.happened && cancel.happened) cancel.now cancel.rng in
      let first = message now msg_new n (if is_ioc then 1 else 0) n.qty oid n.price_ticks in
      if is_ioc
      then record { msgs = first ∷ []; happened = true; now = now + 1; rng = r1 }
      else record {
        msgs = first ∷ amend.msgs ++ (cancel.msgs ++ stale.msgs);
        happened = true;
        now = stale.now + 1;
        rng = stale.rng;
      }

  -- The order that the vector holds; every index of the shuffle is in range.
  abbrev pub placed_at : List PlacedOrder → ℕ → PlacedOrder
  placed_at news i = get_or news i (record { side = 0; price_ticks = pos 0; qty = 0; lvl = 0 })

  -- The second loop, over the shuffled indices.
  unfoldable pub expand_loop : List PlacedOrder → List ℕ → ℕ → R → List Msg
  expand_loop news [] now r = []
  expand_loop news (i ∷ order) now r =
      let life = expand (placed_at news i) (i + 1) now r in
      life.msgs ++ expand_loop news order life.now life.rng

abbrev pub ts_lt : Msg → Msg → Bool
ts_lt a b = ltb_ℤ a.ts b.ts

module _ {R M : Type 0} (d : Draws R M) where
  -- The two phases, before the sort.
  unfoldable pub timeline : ℕ → R → List Msg
  timeline count r =
      let (news, r1) = place_loop d count count 0 d.start_mid r in
      let (order, r2) = shuffle_loop d (count - 1) (iota count 0) r1 in
      expand_loop d news order 0 r2

  unfoldable pub generate : ℕ → R → List Msg
  generate count r = stable_sort ts_lt (timeline count r)
