-- ===== src/QuantCup/Frame.antt =====
-- What the matching of one message leaves alone: the pre-built orders, their indices and the extent of
-- the shadow.
use matching_engine_benchmar.Common.{
  ℕ, ◌%◌, ◌^◌, ◌<◌, ◌≡◌, refl, inl, inr, true, not, List, [], ◌∷◌, arith, ltb, ◌==◌, lt→ltb,
  Bool-cases, Option-cases, length, get_elem?, length-set, ℤ, ok,
}
use matching_engine_benchmar.Abi.{NewOrder, Modify, Cancel, me_order_ack, me_cancel_ack}
use matching_engine_benchmar.QuantCup.{
  Book, OrderState, Adapter, TOrder, TExecution, emit_ack, push_report, find_order, store, price_ok,
  limit, cancel, report_fill, hit_taker, hit_maker, execution, executions, decode_id, decrement,
}
use matching_engine_benchmar.QuantCup.Handlers.{
  settle, open_order, new_order_with, rest_again, reinsert, modify_with, engine_on_cancel,
}

module _ {B : Type 0} where
  pub record Frame (s s' : Adapter B) : Type 0 where
    pub pre : s'.pre ≡ s.pre
    pub pre_idx : s'.pre_idx ≡ s.pre_idx
    pub pre_modify : s'.pre_modify ≡ s.pre_modify
    pub pre_modify_idx : s'.pre_modify_idx ≡ s.pre_modify_idx
    pub slots : length s'.orders ≡ length s.orders

  pub Frame-refl : (s : Adapter B) → Frame s s
  Frame-refl s = ground arith

  pub Frame-trans : (s s' s'' : Adapter B) → Frame s s' → Frame s' s'' → Frame s s''
  Frame-trans s s' s'' f g = ground arith

  pub emit_ack-Frame :
      (type seq order_id side : ℕ) (price : ℤ) (qty : ℕ) (s : Adapter B)
      → Frame s (emit_ack type seq order_id side price qty s)
  unfolding emit_ack push_report
  emit_ack-Frame type seq order_id side price qty s = ground arith

  pub execution-Frame : (x : TExecution) (s : Adapter B) → Frame s (execution x s)
  unfolding execution report_fill hit_taker hit_maker push_report find_order
  execution-Frame x s =
      let maker_id = decode_id x.trader in
      let qty = x.size % 2 ^ 32 in
      elim (Option-cases (get_elem? s.orders maker_id)) [
        | inl e ↦ ground (arith, e)
        | inr (o, e) ↦ ground (arith, e, length-set s.orders maker_id (decrement qty o))
      ]

  pub executions-Frame : (xs : List TExecution) (s : Adapter B) → Frame s (executions xs s)
  unfolding executions
  executions-Frame [] s = Frame-refl s
  executions-Frame (x ∷ xs) s =
      Frame-trans s (execution x s) _ (execution-Frame x s) (executions-Frame xs (execution x s))

module _ {B : Type 0} (b : Book B) where
  pub limit-Frame : (qo : TOrder) (s : Adapter B) → Frame s (limit b qo s).1
  unfolding limit
  limit-Frame qo s =
      let (qcid, xs, book') = b.limit qo s.book in
      let f = executions-Frame xs (record s { book = book' }) in ground arith

  settle-Frame :
      (o : NewOrder) (qcid : ℕ) (s : Adapter B)
      → o.order_id < length s.orders
      → (s' : Adapter B) × (settle b o qcid s ≡ ok s') × Frame s s'
  unfolding settle cancel store
  settle-Frame o qcid s h =
      let slot : OrderState = record {
        price = o.price_ticks;
        qty = s.taker_left;
        side = o.side;
        alive = true;
        qcid = qcid;
      } in
      let kept = length-set s.orders o.order_id slot in
      let inside = lt→ltb o.order_id (length s.orders) h in
      elim (Bool-cases (not (o.ioc == 0))) [
        | inl e ↦ elim (Bool-cases (ltb 0 s.taker_left)) [
          | inl d ↦
              rw (e, d)
                (
                  _,
                  refl,
                  Frame-trans s (cancel b qcid s) _ (ground arith) (emit_ack-Frame _ _ _ _ _ _ _),
                )
          | inr d ↦ rw (e, d) (_, refl, Frame-refl s)
        ]
        | inr e ↦ elim (Bool-cases (ltb 0 s.taker_left)) [
          | inl d ↦ rw (e, d, inside) (_, refl, ground arith)
          | inr d ↦ rw (e, d) (_, refl, Frame-refl s)
        ]
      ]

  open_order-Frame : (o : NewOrder) (s : Adapter B) → Frame s (open_order b o s)
  unfolding open_order
  open_order-Frame o s =
      let f = λ (s' : Adapter B).
        emit_ack-Frame me_order_ack o.sequence_number o.order_id o.side o.price_ticks o.quantity
          s' in
      Frame-trans s _ _ (ground arith) (f _)

  pub new_order_with-Frame :
      (qo : TOrder) (o : NewOrder) (s : Adapter B)
      → o.order_id < length s.orders
      → (s' : Adapter B) × (new_order_with b qo o s ≡ ok s') × Frame s s'
  unfolding new_order_with
  new_order_with-Frame qo o s h =
      let f = Frame-trans s _ _ (open_order-Frame o s) (limit-Frame qo (open_order b o s)) in
      let (s', e, g) = settle-Frame o _ (limit b qo (open_order b o s)).1 (ground arith) in
      (s', e, Frame-trans s _ s' f g)

  rest_again-Frame :
      (m : Modify) (qcid : ℕ) (o : OrderState) (s : Adapter B) → Frame s (rest_again b m qcid o s)
  unfolding rest_again
  rest_again-Frame m qcid o s =
      Frame-trans s _ _
        (record {
          pre = refl;
          pre_idx = refl;
          pre_modify = refl;
          pre_modify_idx = refl;
          slots = length-set s.orders m.order_id _;
        })
        (emit_ack-Frame _ _ _ _ _ _ _)

  pub reinsert-Frame :
      (qo : TOrder) (m : Modify) (o : OrderState) (s : Adapter B) → Frame s (reinsert b qo m o s)
  unfolding reinsert cancel
  reinsert-Frame qo m o s =
      Frame-trans s _ _ (Frame-trans s _ _ (ground arith) (limit-Frame qo _))
        (rest_again-Frame m _ o _)

  pub engine_on_cancel-Frame : (c : Cancel) (s : Adapter B) → Frame s (engine_on_cancel b c s)
  unfolding engine_on_cancel cancel find_order emit_ack push_report
  engine_on_cancel-Frame c s = elim (Option-cases (get_elem? s.orders c.order_id)) [
    | inl e ↦ rw (e, engine_on_cancel) (emit_ack-Frame _ _ _ _ _ _ s)
    | inr (o, e) ↦ elim (Bool-cases o.alive) [
      | inl d ↦
          rw (e, engine_on_cancel, d)
            (Frame-trans s
              (emit_ack me_cancel_ack c.sequence_number c.order_id o.side o.price 0
                (cancel b o.qcid s))
              _ (Frame-trans s (cancel b o.qcid s) _ (ground arith) (emit_ack-Frame _ _ _ _ _ _ _))
              (record {
                pre = refl;
                pre_idx = refl;
                pre_modify = refl;
                pre_modify_idx = refl;
                slots = length-set _ c.order_id _;
              }))
      | inr d ↦ rw (e, engine_on_cancel, d) (emit_ack-Frame _ _ _ _ _ _ s)
    ]
  ]

  pub modify_with-Frame :
      (qo : TOrder) (m : Modify) (s : Adapter B)
      → price_ok b m.new_price_ticks ≡ true
      → (s' : Adapter B) × (modify_with b qo m s ≡ ok s') × Frame s s'
  unfolding modify_with find_order
  modify_with-Frame qo m s h = elim (Option-cases (get_elem? s.orders m.order_id)) [
    | inl e ↦ rw (e, modify_with) (_, refl, emit_ack-Frame _ _ _ _ _ _ s)
    | inr (o, e) ↦ elim (Bool-cases o.alive) [
      | inl d ↦ rw (e, modify_with, d, h) (_, refl, reinsert-Frame qo m _ s)
      | inr d ↦ rw (e, modify_with, d) (_, refl, emit_ack-Frame _ _ _ _ _ _ s)
    ]
  ]
