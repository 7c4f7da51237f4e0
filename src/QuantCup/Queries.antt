-- ===== src/QuantCup/Queries.antt =====
-- The three queries of adapters/quantcup_adapter.cpp, loops over the shadow of the orders.
use matching_engine_benchmar.Common.{
  ℕ, suc, ◌+◌, ◌%◌, ◌^◌, ◌<◌, ◌≡◌, refl, sym, ◌∙◌, ◌⊎◌, inl, inr, Bool, true, false, ◌&&◌, some,
  List, [], ◌∷◌, arith, ◌==◌, if◌then◌else◌, Bool-cases, get_elem?, All, ℤ, ltb_ℤ, eqb_ℤ, int64_min,
  int64_max,
}
use matching_engine_benchmar.QuantCup.{OrderState, Adapter}

-- The loop of `engine_query_best_bid`.
unfoldable pub best_bid_from : ℤ → List OrderState → ℤ
best_bid_from best [] = best
best_bid_from best (o ∷ os) =
    best_bid_from (if o.alive && o.side == 0 && ltb_ℤ best o.price then o.price else best) os

-- The loop of `engine_query_best_ask`.
unfoldable pub best_ask_from : ℤ → List OrderState → ℤ
best_ask_from best [] = best
best_ask_from best (o ∷ os) =
    best_ask_from (if o.alive && o.side == 1 && ltb_ℤ o.price best then o.price else best) os

-- The loop of `engine_query_depth_at`, a 64-bit sum.
unfoldable pub depth_from : ℤ → ℕ → ℕ → List OrderState → ℕ
depth_from price side total [] = total
depth_from price side total (o ∷ os) =
    depth_from price side
      (if o.alive && o.side == side && eqb_ℤ o.price price then (total + o.qty) % 2 ^ 64 else total)
      os

module _ {B : Type 0} where
  unfoldable pub engine_query_best_bid : Adapter B → ℤ
  engine_query_best_bid s = best_bid_from int64_min s.orders

  unfoldable pub engine_query_best_ask : Adapter B → ℤ
  engine_query_best_ask s = best_ask_from int64_max s.orders

  unfoldable pub engine_query_depth_at : ℤ → ℕ → Adapter B → ℕ
  engine_query_depth_at price side s = depth_from price side 0 s.orders

-- An order of the side that rests at the price.
abbrev pub Rests : ℕ → ℤ → OrderState → Type 0
Rests side price o = (o.alive ≡ true) × (o.side ≡ side) × (o.price ≡ price)

-- `best` is at least every live price of the side, by the order `before` of prices (the second price
-- is strictly better), and one of them unless it is the start value.
pub record IsBest (better : ℤ → ℤ → Bool) (side : ℕ) (start best : ℤ) (os : List OrderState)
    : Type 0 where
  pub bounds : All (λ o. o.alive ≡ true → o.side ≡ side → better best o.price ≡ false) os
  pub start_bounds : better best start ≡ false
  pub reached :
      (best ≡ start) ⊎ ((i : ℕ) × (o : OrderState) × (get_elem? os i ≡ some o) × Rests side best o)

-- The two laws of a comparison that the loops rely on.
record IsComparison (better : ℤ → ℤ → Bool) : Type 0 where
  irreflexive : (a : ℤ) → better a a ≡ false
  chained : (a c d : ℤ) → better a c ≡ false → better c d ≡ false → better a d ≡ false
  asymmetric : (a c : ℤ) → better a c ≡ true → better c a ≡ false

higher-IsComparison : IsComparison ltb_ℤ
higher-IsComparison = record {
  irreflexive = λ a. ground arith;
  chained = λ a c d e f. ground arith;
  asymmetric = λ a c e. ground arith;
}

lower-IsComparison : IsComparison (λ a c. ltb_ℤ c a)
lower-IsComparison = record {
  irreflexive = λ a. ground arith;
  chained = λ a c d e f. ground arith;
  asymmetric = λ a c e. ground arith;
}

module _ (better : ℤ → ℤ → Bool) (law : IsComparison better) (side : ℕ) where
  IsBest-nil : (start : ℤ) → IsBest better side start start []
  IsBest-nil start = record {
    bounds = tt;
    start_bounds = law.irreflexive start;
    reached = inl refl;
  }

  -- A price that improves on the start.
  IsBest-improved :
      (start best : ℤ) (o : OrderState) (os : List OrderState)
      → o.alive ≡ true
      → o.side ≡ side
      → better start o.price ≡ true
      → IsBest better side o.price best os
      → IsBest better side start best (o ∷ os)
  IsBest-improved start best o os alive is_side e v = record {
    bounds = (λ a h. v.start_bounds, v.bounds);
    start_bounds = law.chained best o.price start v.start_bounds (law.asymmetric start o.price e);
    reached = elim v.reached [
      | inl same ↦ inr (0, o, refl, (alive, is_side, sym same))
      | inr (i, p, at, rests) ↦ inr (suc i, p, at, rests)
    ];
  }

  -- An order that does not count, or a price that does not improve on the start.
  IsBest-kept :
      (start best : ℤ) (o : OrderState) (os : List OrderState)
      → (o.alive ≡ true → o.side ≡ side → better start o.price ≡ false)
      → IsBest better side start best os
      → IsBest better side start best (o ∷ os)
  IsBest-kept start best o os e v = record {
    bounds = (λ a h. law.chained best start o.price v.start_bounds (e a h), v.bounds);
    start_bounds = v.start_bounds;
    reached = elim v.reached [
      | inl same ↦ inl same
      | inr (i, p, at, rests) ↦ inr (suc i, p, at, rests)
    ];
  }

pub best_bid_from-IsBest :
    (start : ℤ) (os : List OrderState) → IsBest ltb_ℤ 0 start (best_bid_from start os) os
unfolding best_bid_from
best_bid_from-IsBest start [] = IsBest-nil ltb_ℤ higher-IsComparison 0 start
best_bid_from-IsBest start (o ∷ os) =
    elim (Bool-cases (o.alive && o.side == 0 && ltb_ℤ start o.price)) [
      | inl e ↦ rw e (
          IsBest-improved ltb_ℤ higher-IsComparison 0 start _ o os (ground arith) (ground arith)
            (ground arith) (best_bid_from-IsBest o.price os))
      | inr e ↦ rw e (
          IsBest-kept ltb_ℤ higher-IsComparison 0 start _ o os (λ a h. ground (arith, e))
            (best_bid_from-IsBest start os))
    ]

pub best_ask_from-IsBest :
    (start : ℤ) (os : List OrderState)
    → IsBest (λ a c. ltb_ℤ c a) 1 start (best_ask_from start os) os
unfolding best_ask_from
best_ask_from-IsBest start [] = IsBest-nil _ lower-IsComparison 1 start
best_ask_from-IsBest start (o ∷ os) =
    elim (Bool-cases (o.alive && o.side == 1 && ltb_ℤ o.price start)) [
      | inl e ↦ rw e (
          IsBest-improved _ lower-IsComparison 1 start _ o os (ground arith) (ground arith)
            (ground arith) (best_ask_from-IsBest o.price os))
      | inr e ↦ rw e (
          IsBest-kept _ lower-IsComparison 1 start _ o os (λ a h. ground (arith, e))
            (best_ask_from-IsBest start os))
    ]

-- The exact sum of the quantities that rest at a price.
unfoldable pub resting_quantity : ℤ → ℕ → List OrderState → ℕ
resting_quantity price side [] = 0
resting_quantity price side (o ∷ os) =
    (if o.alive && o.side == side && eqb_ℤ o.price price then o.qty else 0)
    + resting_quantity price side os

pub depth_from-resting :
    (price : ℤ) (side total : ℕ) (os : List OrderState)
    → total + resting_quantity price side os < 2 ^ 64
    → depth_from price side total os ≡ total + resting_quantity price side os
unfolding depth_from resting_quantity
depth_from-resting price side total [] h = omega arith
depth_from-resting price side total (o ∷ os) h =
    elim (Bool-cases (o.alive && o.side == side && eqb_ℤ o.price price)) [
      | inl e ↦
          let small : total + o.qty + resting_quantity price side os < 2 ^ 64 = ground (arith, e) in
          let sum : (total + o.qty) % 2 ^ 64 ≡ total + o.qty = omega arith in
          rw (e, sum) (depth_from-resting price side (total + o.qty) os small ∙ omega arith)
      | inr e ↦ rw e (depth_from-resting price side total os (ground (arith, e)) ∙ omega arith)
    ]
