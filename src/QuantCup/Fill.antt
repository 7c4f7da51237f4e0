-- ===== src/QuantCup/Fill.antt =====
-- A fill: the two calls of the execution callback for one match, by the ids that the orders carry.
use matching_engine_benchmar.Common.{
  ℕ, zero, suc, ◌+◌, ◌-◌, ◌%◌, ◌^◌, ◌≤◌, ◌<◌, ◌≡◌, refl, sym, ap, subst, ◌∙◌, ◌⊎◌, inl, inr, true,
  ◌&&◌, some, List, [], ◌∷◌, ◌++◌, arith, ltb, leb, Bool-cases, length, get_elem?, set,
  get_elem?-set_self, pos,
}
use matching_engine_benchmar.Abi.{Report, me_trade}
use matching_engine_benchmar.Bytes.{from_le-le_bytes}
use matching_engine_benchmar.QuantCup.{
  OrderState, Adapter, TExecution, push_report, find_order, report_fill, hit_taker, hit_maker,
  execution, executions, encode_id, decode_id, decrement,
}

pub decode_id-encode_id : (id : ℕ) → id < 2 ^ 32 → decode_id (encode_id id) ≡ id
unfolding decode_id encode_id
decode_id-encode_id id h = from_le-le_bytes 4 id h

-- The callback for one side of a match at the maker's price.
abbrev pub fill_of : ℕ → ℕ → ℕ → ℕ → TExecution
fill_of id side price size = record {
  trader = encode_id id;
  side = side;
  price = price;
  size = size;
}

-- The report of a match.
abbrev pub trade_of : {B : Type 0} → Adapter B → ℕ → ℕ → ℕ → Report
trade_of s maker_id price size = record {
  type = me_trade;
  side = 0;
  sequence_number = s.seq;
  order_id = 0;
  price_ticks = pos price;
  quantity = size;
  maker_order_id = maker_id;
  taker_order_id = s.taker_id;
}

-- Two order sides, of which one is buy and the other sell.
abbrev pub Opposed : ℕ → ℕ → Type 0
Opposed taker maker = ((taker ≡ 0) × (maker ≡ 1)) ⊎ ((taker ≡ 1) × (maker ≡ 0))

get_elem?-some :
    (os : List OrderState) (i : ℕ) (o : OrderState) → get_elem? os i ≡ some o → i < length os
get_elem?-some [] i o e = absurd (ground (arith, e))
get_elem?-some (x ∷ os) zero o e = omega arith
get_elem?-some (x ∷ os) (suc i) o e = ground (arith, get_elem?-some os i o e)

others-set :
    (os : List OrderState) (i j : ℕ) (o : OrderState)
    → (j ≡ i) ⊎ (get_elem? (set os i o) j ≡ get_elem? os j)
others-set [] i j o = inr refl
others-set (x ∷ os) zero zero o = inl refl
others-set (x ∷ os) zero (suc j) o = inr refl
others-set (x ∷ os) (suc i) zero o = inr refl
others-set (x ∷ os) (suc i) (suc j) o = elim (others-set os i j o) [
  | inl e ↦ inl (ap suc e)
  | inr e ↦ inr e
]

-- The slot of the maker after a fill: less by its size, and dead when nothing is left.
pub record IsLowered (o left : OrderState) (size : ℕ) : Type 0 where
  pub qty : left.qty ≡ o.qty - size
  pub alive : left.alive ≡ (ltb size o.qty && o.alive)
  pub price : left.price ≡ o.price
  pub side : left.side ≡ o.side
  pub qcid : left.qcid ≡ o.qcid

decrement-IsLowered : (o : OrderState) (size : ℕ) → IsLowered o (decrement size o) size
unfolding decrement
decrement-IsLowered o size = elim (Bool-cases (ltb size o.qty)) [
  | inl e ↦ record {
    qty = rw e refl;
    alive = rw e refl;
    price = rw e refl;
    side = rw e refl;
    qcid = rw e refl;
  }
  | inr e ↦
      let none_left : 0 ≡ o.qty - size = ground (arith, e) in
      record {
        qty = rw e none_left;
        alive = rw e refl;
        price = rw e refl;
        side = rw e refl;
        qcid = rw e refl;
      }
]

module _ {B : Type 0} where
  taker-execution :
      (s : Adapter B) (side maker_side id price size : ℕ)
      → s.taker_side ≡ side
      → Opposed side maker_side
      → execution (fill_of id side price size) s ≡ s
  unfolding execution
  taker-execution s side maker_side id price size e h = elim h [
    | inl (t, m) ↦ let t' = e ∙ t in rw (t, t') refl
    | inr (t, m) ↦ let t' = e ∙ t in rw (t, t') refl
  ]

  maker-execution :
      (s : Adapter B) (maker_side id price size : ℕ)
      → Opposed s.taker_side maker_side
      → id < 2 ^ 32
      → size < 2 ^ 32
      → execution (fill_of id maker_side price size) s
        ≡ hit_maker id size
            (hit_taker size (record s { reports = s.reports ++ trade_of s id price size ∷ [] }))
  unfolding execution report_fill push_report
  maker-execution s maker_side id price size h i z =
      let same = decode_id-encode_id id i in
      let small : size % 2 ^ 32 ≡ size = omega arith in
      elim h [ inl (t, m) ↦ rw (t, m, same, small) refl | inr (t, m) ↦ rw (t, m, same, small) refl ]

  -- What one match has done: one trade report, the maker's slot lowered by the size, all other slots as
  -- before, and the taker's remainder lowered by the size.
  pub record IsFilled (s s' : Adapter B) (id price size : ℕ) (o : OrderState) : Type 0 where
    pub reported : s'.reports ≡ s.reports ++ trade_of s id price size ∷ []
    pub left : OrderState
    pub maker : get_elem? s'.orders id ≡ some left
    pub lowered : IsLowered o left size
    pub others : (j : ℕ) → (j ≡ id) ⊎ (get_elem? s'.orders j ≡ get_elem? s.orders j)
    pub taker : s'.taker_left + size ≡ s.taker_left

  hit_taker_lem :
      (s : Adapter B) (size : ℕ)
      → size ≤ s.taker_left
      → hit_taker size s ≡ record s { taker_left = s.taker_left - size }
  unfolding hit_taker
  hit_taker_lem s size h =
      let enough : leb size s.taker_left ≡ true = ground arith in rw enough refl

  hit_maker_lem :
      (s : Adapter B) (id size : ℕ) (o : OrderState)
      → get_elem? s.orders id ≡ some o
      → hit_maker id size s ≡ record s { orders = set s.orders id (decrement size o) }
  unfolding hit_maker find_order
  hit_maker_lem s id size o e = rw (e, hit_maker) refl

  hits-IsFilled :
      (s : Adapter B) (id price size : ℕ) (o : OrderState)
      → get_elem? s.orders id ≡ some o
      → size ≤ s.taker_left
      → let s' =
          hit_maker id size
            (hit_taker size (record s { reports = s.reports ++ trade_of s id price size ∷ [] })) in
        IsFilled s s' id price size o × (s'.taker_side ≡ s.taker_side)
  hits-IsFilled s id price size o e h =
      let s1 : Adapter B = record s { reports = s.reports ++ trade_of s id price size ∷ [] } in
      let s2 : Adapter B = record s1 { taker_left = s.taker_left - size } in
      let hit : hit_maker id size (hit_taker size s1)
          ≡ record s2 { orders = set s.orders id (decrement size o) } =
        ap (hit_maker id size) (hit_taker_lem s1 size h) ∙ hit_maker_lem s2 id size o e in
      subst (λ s'. IsFilled s s' id price size o × (s'.taker_side ≡ s.taker_side)) (sym hit)
        (
          record {
            reported = refl;
            left = decrement size o;
            lowered = decrement-IsLowered o size;
            maker =
                get_elem?-set_self s.orders id (decrement size o) (get_elem?-some s.orders id o e);
            others = λ j. others-set s.orders id j (decrement size o);
            taker = omega arith;
          },
          refl,
        )

  -- Both calls of the callback for one match of a taker with an order that rests, in either order, report
  -- one trade at the maker's price with the maker's id, lower the maker's quantity, down to 0, and the
  -- taker's by the size, leave a live maker alive just when something of it is left, and touch no other
  -- order; for ids and sizes of 32 bits, and a size that the taker has left.
  pub executions-IsFilled :
      (s : Adapter B) (maker_side taker_id id price size : ℕ) (o : OrderState)
      → Opposed s.taker_side maker_side
      → id < 2 ^ 32
      → size < 2 ^ 32
      → size ≤ s.taker_left
      → get_elem? s.orders id ≡ some o
      → let maker_call = fill_of id maker_side price size in
        let taker_call = fill_of taker_id s.taker_side price size in
        IsFilled s (executions (maker_call ∷ taker_call ∷ []) s) id price size o
        × IsFilled s (executions (taker_call ∷ maker_call ∷ []) s) id price size o
  unfolding executions
  executions-IsFilled s maker_side taker_id id price size o side i z h e =
      let made = maker-execution s maker_side id price size side i z in
      let (filled, same) = hits-IsFilled s id price size o e h in
      let after = taker-execution _ s.taker_side maker_side taker_id price size same side in
      let before = taker-execution s s.taker_side maker_side taker_id price size refl side in
      (
        subst
            (λ s'.
              IsFilled s (execution (fill_of taker_id s.taker_side price size) s') id price size o)
            (sym made) (subst (λ s'. IsFilled s s' id price size o) (sym after) filled),
        subst (λ s'. IsFilled s (execution (fill_of id maker_side price size) s') id price size o)
            (sym before) (subst (λ s'. IsFilled s s' id price size o) (sym made) filled),
      )
