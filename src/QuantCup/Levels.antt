-- ===== src/QuantCup/Levels.antt =====
-- The invariant of the shadow over a whole run, and what the queries answer under it.
use matching_engine_benchmar.Common.{
  ℕ, zero, suc, ◌+◌, ◌-◌, ◌*◌, ◌^◌, ◌≤◌, ◌<◌, ◌≡◌, refl, ap, subst, ◌∙◌, ◌⊎◌, inl, inr, Bool, true,
  false, ◌&&◌, some, List, [], ◌∷◌, arith, leb, ◌==◌, Bool-cases, Option-cases, length, get_elem?,
  All, All-append, ℤ, ltb_ℤ, eqb_ℤ, int64_min, int64_max, eqb_ℤ→eq, eqb_ℤ-self, ok, OnOk, OnOk-bind,
}
use matching_engine_benchmar.Abi.{MeMsg, new_msg, cancel_msg, modify_msg}
use matching_engine_benchmar.QuantCup.{
  Book, OrderState, blank_order, Adapter, price_ok, engine_init,
}
use matching_engine_benchmar.QuantCup.Handlers.{
  engine_on_new_order, engine_on_modify, handle, engine_on_batch, check_qc_arena, grow,
  engine_prebuild, prebuild_messages,
}
use matching_engine_benchmar.QuantCup.Shadow.{
  IsSound, IsShadow, HasQuantity, All-replicate, new_order_with-IsShadow, modify_with-IsShadow,
  engine_on_cancel-IsShadow,
}
use matching_engine_benchmar.QuantCup.Queries.{
  engine_query_best_bid, engine_query_best_ask, engine_query_depth_at, IsBest, Rests,
  resting_quantity, best_bid_from-IsBest, best_ask_from-IsBest, depth_from-resting,
}

blank-IsSound : IsSound blank_order
blank-IsSound = ground arith

module _ {B : Type 0} (b : Book B) where
  handle-IsShadow :
      (m : MeMsg) (s : Adapter B) → HasQuantity m → IsShadow s → OnOk IsShadow (handle b m s)
  unfolding handle engine_on_new_order engine_on_modify
  handle-IsShadow (new_msg o) s q v = elim (Option-cases (get_elem? s.pre s.pre_idx)) [
    | inl e ↦ rw e tt
    | inr (qo, e) ↦
        rw e (new_order_with-IsShadow b qo o _ q (record { slots = v.slots; left = v.left }))
  ]
  handle-IsShadow (cancel_msg c) s q v = engine_on_cancel-IsShadow b c s v
  handle-IsShadow (modify_msg m) s q v =
      elim (Option-cases (get_elem? s.pre_modify s.pre_modify_idx)) [
        | inl e ↦ rw e tt
        | inr (qo, e) ↦
            rw e (modify_with-IsShadow b qo m _ q (record { slots = v.slots; left = v.left }))
      ]

  engine_on_batch-OnOk :
      (ms : List MeMsg) (s : Adapter B)
      → All HasQuantity ms
      → IsShadow s
      → OnOk IsShadow (engine_on_batch b ms s)
  unfolding engine_on_batch
  engine_on_batch-OnOk [] s q v = v
  engine_on_batch-OnOk (m ∷ ms) s q v =
      OnOk-bind IsShadow IsShadow (handle b m s) (engine_on_batch b ms)
        (λ s' v'. engine_on_batch-OnOk ms s' q.1 v') (handle-IsShadow m s q.0 v)

  grow-IsSound : (id : ℕ) (os : List OrderState) → All IsSound os → All IsSound (grow b id os)
  unfolding grow
  grow-IsSound id os h = elim (Bool-cases (leb (length os) id)) [
    | inl e ↦ rw e (All-append IsSound os _ h (All-replicate IsSound _ blank_order blank-IsSound))
    | inr e ↦ rw e h
  ]

  engine_prebuild-IsShadow :
      (m : MeMsg) (s : Adapter B) → IsShadow s → OnOk IsShadow (engine_prebuild b m s)
  unfolding engine_prebuild check_qc_arena
  engine_prebuild-IsShadow (new_msg o) s v = elim (Bool-cases (price_ok b o.price_ticks)) [
    | inl p ↦ elim (Bool-cases (leb b.max_num_orders (s.limit_calls + 1))) [
      | inl e ↦ rw (p, e) tt
      | inr e ↦
          rw (p, e) (record { slots = grow-IsSound o.order_id s.orders v.slots; left = v.left })
    ]
    | inr p ↦ rw p tt
  ]
  engine_prebuild-IsShadow (cancel_msg c) s v = v
  engine_prebuild-IsShadow (modify_msg m) s v =
      elim (Bool-cases (leb b.max_num_orders (s.limit_calls + 1))) [
        | inl e ↦ rw e tt
        | inr e ↦ rw e (record { slots = v.slots; left = v.left })
      ]

  prebuild_messages-OnOk :
      (ms : List MeMsg) (s : Adapter B) → IsShadow s → OnOk IsShadow (prebuild_messages b ms s)
  unfolding prebuild_messages
  prebuild_messages-OnOk [] s v = v
  prebuild_messages-OnOk (m ∷ ms) s v =
      OnOk-bind IsShadow IsShadow (engine_prebuild b m s) (prebuild_messages b ms)
        (λ s' v'. prebuild_messages-OnOk ms s' v') (engine_prebuild-IsShadow m s v)

  -- After a pre-build and a run of messages, neither with a fault, every order that the shadow holds
  -- as live has a positive quantity of 32 bits, whatever the order book executes, if the messages'
  -- quantities fit 32 bits.
  pub engine_on_batch-IsShadow :
      (built ms : List MeMsg) (s s' : Adapter B)
      → All HasQuantity ms
      → prebuild_messages b built (engine_init b) ≡ ok s
      → engine_on_batch b ms s ≡ ok s'
      → IsShadow s'
  unfolding engine_init
  engine_on_batch-IsShadow built ms s s' q e e' =
      let start : IsShadow (engine_init b) = record {
        slots = All-replicate IsSound (2 ^ 21) blank_order blank-IsSound;
        left = omega arith;
      } in
      let v : IsShadow s =
        subst (OnOk IsShadow) e (prebuild_messages-OnOk built (engine_init b) start) in
      subst (OnOk IsShadow) e' (engine_on_batch-OnOk ms s q v)

-- The sum over sound slots is positive where an order rests, and fits 64 bits for 2 ^ 32 slots.
resting_quantity-positive :
    (price : ℤ) (side : ℕ) (os : List OrderState) (i : ℕ) (o : OrderState)
    → All IsSound os
    → get_elem? os i ≡ some o
    → Rests side price o
    → 0 < resting_quantity price side os
unfolding resting_quantity
resting_quantity-positive price side [] i o v e r = absurd (ground (arith, e))
resting_quantity-positive price side (x ∷ os) zero o v e r =
    let same : x ≡ o = ground (arith, e) in
    let counted : (x.alive && x.side == side && eqb_ℤ x.price price) ≡ true =
      ground (arith, same, r.0, r.1, r.2, eqb_ℤ-self price) in
    let alive : x.alive ≡ true = ap (λ p. p.alive) same ∙ r.0 in
    let positive = v.0.0 alive in rw counted (omega arith)
resting_quantity-positive price side (x ∷ os) (suc i) o v e r =
    ground (arith, resting_quantity-positive price side os i o v.1 e r)

resting_quantity-bound :
    (price : ℤ) (side : ℕ) (os : List OrderState)
    → All IsSound os
    → resting_quantity price side os ≤ length os * (2 ^ 32 - 1)
unfolding resting_quantity
resting_quantity-bound price side [] v = omega arith
resting_quantity-bound price side (x ∷ os) v =
    ground (arith, resting_quantity-bound price side os v.1, v.0.1)

resting_quantity-better :
    (better : ℤ → ℤ → Bool) (side : ℕ) (best price : ℤ) (os : List OrderState)
    → All (λ o. o.alive ≡ true → o.side ≡ side → better best o.price ≡ false) os
    → better best price ≡ true
    → resting_quantity price side os ≡ 0
unfolding resting_quantity
resting_quantity-better better side best price [] v h = refl
resting_quantity-better better side best price (x ∷ os) v h =
    let rest = resting_quantity-better better side best price os v.1 h in
    elim (Bool-cases (x.alive && x.side == side && eqb_ℤ x.price price)) [
      | inl e ↦
          let worse : better best x.price ≡ false = v.0 (ground arith) (ground arith) in
          let same : x.price ≡ price = eqb_ℤ→eq x.price price (ground arith) in
          absurd (ground (arith, worse, ap (better best) same))
      | inr e ↦ rw e (omega arith)
    ]

module _ {B : Type 0} (s : Adapter B) (v : IsShadow s) (few : length s.orders ≤ 2 ^ 32) where
  depth-resting :
      (price : ℤ) (side : ℕ)
      → engine_query_depth_at price side s ≡ resting_quantity price side s.orders
  unfolding engine_query_depth_at
  depth-resting price side =
      let bound = resting_quantity-bound price side s.orders v.slots in
      depth_from-resting price side 0 s.orders (omega arith) ∙ omega arith

  -- One side: the depth at the best price is positive unless no price was found, and there is none at
  -- a better price.
  depth-levels :
      (better : ℤ → ℤ → Bool) (side : ℕ) (start best : ℤ)
      → IsBest better side start best s.orders
      → (price : ℤ)
      → ((best ≡ start) ⊎ (0 < engine_query_depth_at best side s))
        × ((better best price ≡ false) ⊎ (engine_query_depth_at price side s ≡ 0))
  depth-levels better side start best found price = (
    elim found.reached [
      | inl same ↦ inl same
      | inr (i, o, at, rests) ↦
          let positive = resting_quantity-positive best side s.orders i o v.slots at rests in
          let eq = depth-resting best side in inr (rw eq positive)
    ],
    elim (Bool-cases (better best price)) [
      | inl e ↦ inr (
          depth-resting price side
          ∙ resting_quantity-better better side best price s.orders found.bounds e)
      | inr e ↦ inl e
    ],
  )

  -- The three queries agree with each other in a shadow of at most 2 ^ 32 slots whose live orders have
  -- quantities: the depth is the exact sum of what rests at the price; at the best bid and at the best
  -- ask it is positive, unless the answer is the one of an empty side; and no price above the best bid
  -- has bids, none below the best ask has asks.
  pub queries-levels :
      (price : ℤ) (side : ℕ)
      → (engine_query_depth_at price side s ≡ resting_quantity price side s.orders)
        × ((engine_query_best_bid s ≡ int64_min)
            ⊎ (0 < engine_query_depth_at (engine_query_best_bid s) 0 s))
        × ((ltb_ℤ (engine_query_best_bid s) price ≡ false) ⊎ (engine_query_depth_at price 0 s ≡ 0))
        × ((engine_query_best_ask s ≡ int64_max)
            ⊎ (0 < engine_query_depth_at (engine_query_best_ask s) 1 s))
        × ((ltb_ℤ price (engine_query_best_ask s) ≡ false) ⊎ (engine_query_depth_at price 1 s ≡ 0))
  unfolding engine_query_best_bid engine_query_best_ask
  queries-levels price side =
      let (at_bid, above_bid) =
        depth-levels ltb_ℤ 0 int64_min _ (best_bid_from-IsBest int64_min s.orders) price in
      let (at_ask, below_ask) =
        depth-levels (λ a c. ltb_ℤ c a) 1 int64_max _ (best_ask_from-IsBest int64_max s.orders)
          price in
      (depth-resting price side, at_bid, above_bid, at_ask, below_ask)
