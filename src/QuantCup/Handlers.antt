-- ===== src/QuantCup/Handlers.antt =====
-- The entry points of adapters/quantcup_adapter.cpp: the pre-build, the three message handlers, the
-- batch delivery and the queries.
use matching_engine_benchmar.Common.{
  ℕ, ◌+◌, ◌-◌, ◌*◌, ◌%◌, ◌^◌, max, true, false, not, none, some, List, [], ◌∷◌, ◌++◌, ltb, leb,
  ◌==◌, if◌then◌else◌, length, get_elem?, set, get_or, replicate, pos, Result, ok, err, or_fail,
  check, ◌>>=◌,
}
use matching_engine_benchmar.Abi.{
  NewOrder, Cancel, Modify, MeMsg, new_msg, cancel_msg, modify_msg, me_order_ack, me_cancel_ack,
  me_modify_ack, me_cancel_reject, me_modify_reject,
}
use matching_engine_benchmar.Answers.{Fault, price_out_of_range, arena_exceeded, out_of_bounds}
use matching_engine_benchmar.QuantCup.{
  Book, OrderState, blank_order, Adapter, build_new, build_modify, TOrder, emit_ack, find_order,
  store, price_ok, limit, cancel,
}

module _ {B : Type 0} (b : Book B) where
  -- `check_qc_arena`, which counts the prospective calls of `limit`.
  unfoldable pub check_qc_arena : Adapter B → Result Fault (Adapter B)
  check_qc_arena s =
      if leb b.max_num_orders (s.limit_calls + 1)
      then err arena_exceeded
      else ok (record s { limit_calls = s.limit_calls + 1 })

  -- The growth of the shadow to hold the id, in 64 bits: the largest id wraps to no growth for it.
  unfoldable pub grow : ℕ → List OrderState → List OrderState
  grow id orders =
      if leb (length orders) id
      then orders
        ++ replicate (max (length orders * 2) ((id + 1) % 2 ^ 64) - length orders) blank_order
      else orders

  unfoldable pub engine_prebuild : MeMsg → Adapter B → Result Fault (Adapter B)
  engine_prebuild (new_msg o) s = check (price_ok b o.price_ticks) price_out_of_range (do
    s1 ← check_qc_arena s
    ok (record s1 { pre = s1.pre ++ build_new o ∷ []; orders = grow o.order_id s1.orders }))
  engine_prebuild (cancel_msg c) s = ok s
  engine_prebuild (modify_msg m) s = do
    s1 ← check_qc_arena s
    ok (record s1 { pre_modify = s1.pre_modify ++ build_modify m ∷ [] })

  -- What is left of a new order after it matched: the residual of an IOC order is dropped and
  -- reported, any other order rests.
  unfoldable pub settle : NewOrder → ℕ → Adapter B → Result Fault (Adapter B)
  settle o qcid s =
      let rests =
        store o.order_id
          (record {
            price = o.price_ticks;
            qty = s.taker_left;
            side = o.side;
            alive = true;
            qcid = qcid;
          })
          s in
      let drops =
        emit_ack me_cancel_ack o.sequence_number o.order_id o.side o.price_ticks s.taker_left
          (cancel b qcid s) in
      if not (o.ioc == 0)
      then ok (if ltb 0 s.taker_left then drops else s)
      else if ltb 0 s.taker_left
      then rests
      else ok s

  -- The globals of the aggressor, and its acknowledgement.
  unfoldable pub open_order : NewOrder → Adapter B → Adapter B
  open_order o s =
      emit_ack me_order_ack o.sequence_number o.order_id o.side o.price_ticks o.quantity (record s {
        seq = o.sequence_number;
        taker_id = o.order_id;
        taker_left = o.quantity;
        taker_side = o.side;
      })

  -- What a new order does once its `t_order` is at hand.
  unfoldable pub new_order_with : TOrder → NewOrder → Adapter B → Result Fault (Adapter B)
  new_order_with qo o s = let (qcid, s1) = limit b qo (open_order o s) in settle o qcid s1

  -- `engine_on_new_order`: the next pre-built order is consumed.
  unfoldable pub engine_on_new_order : NewOrder → Adapter B → Result Fault (Adapter B)
  engine_on_new_order o s = do
    qo ← or_fail (get_elem? s.pre s.pre_idx) out_of_bounds
    new_order_with qo o (record s { pre_idx = s.pre_idx + 1 })

  unfoldable pub engine_on_cancel : Cancel → Adapter B → Adapter B
  engine_on_cancel c s =
      let reject = emit_ack me_cancel_reject c.sequence_number c.order_id 0 (pos 0) 0 s in
      elim (find_order c.order_id s) [
        | none ↦ reject
        | some o ↦
            let s1 =
              emit_ack me_cancel_ack c.sequence_number c.order_id o.side o.price 0
                (cancel b o.qcid s) in
            let s2 = record s1 {
              orders = set s1.orders c.order_id (record o { alive = false; qty = 0 });
            } in
            if o.alive then s2 else reject
      ]

  -- The end of a modify: what is left rests in the order's slot, and the modify is acknowledged.
  unfoldable pub rest_again : Modify → ℕ → OrderState → Adapter B → Adapter B
  rest_again m qcid o s =
      let slot =
        if ltb 0 s.taker_left
        then record {
          price = m.new_price_ticks;
          qty = s.taker_left;
          side = m.side;
          alive = true;
          qcid = qcid;
        }
        else record (get_or s.orders m.order_id o) { alive = false } in
      emit_ack me_modify_ack m.sequence_number m.order_id m.side m.new_price_ticks m.new_quantity
        (record s { orders = set s.orders m.order_id slot })

  -- The apply branch of a modify, at the live order `o`, with its `t_order` at hand: cancel and
  -- reinsert.
  unfoldable pub reinsert : TOrder → Modify → OrderState → Adapter B → Adapter B
  reinsert qo m o s =
      let (qcid, s1) = limit b qo (record (cancel b o.qcid s) {
        taker_id = m.order_id;
        taker_left = m.new_quantity;
        taker_side = m.side;
      }) in
      rest_again m qcid o s1

  -- What a modify does once its `t_order` is at hand.
  unfoldable pub modify_with : TOrder → Modify → Adapter B → Result Fault (Adapter B)
  modify_with qo m s =
      let reject = emit_ack me_modify_reject m.sequence_number m.order_id 0 (pos 0) 0 s in
      elim (find_order m.order_id s) [
        | none ↦ ok reject
        | some o ↦
            if o.alive
            then check (price_ok b m.new_price_ticks) price_out_of_range (ok (reinsert qo m o s))
            else ok reject
      ]

  -- `engine_on_modify`: the index moves on in every case.
  unfoldable pub engine_on_modify : Modify → Adapter B → Result Fault (Adapter B)
  engine_on_modify m s = do
    qo ← or_fail (get_elem? s.pre_modify s.pre_modify_idx) out_of_bounds
    modify_with qo m (record s { seq = m.sequence_number; pre_modify_idx = s.pre_modify_idx + 1 })

  unfoldable pub handle : MeMsg → Adapter B → Result Fault (Adapter B)
  handle (new_msg o) s = engine_on_new_order o s
  handle (cancel_msg c) s = ok (engine_on_cancel c s)
  handle (modify_msg m) s = engine_on_modify m s

  unfoldable pub engine_on_batch : List MeMsg → Adapter B → Result Fault (Adapter B)
  engine_on_batch [] s = ok s
  engine_on_batch (m ∷ ms) s = do s1 ← handle m s; engine_on_batch ms s1

  -- The pre-build pass over a workload.
  unfoldable pub prebuild_messages : List MeMsg → Adapter B → Result Fault (Adapter B)
  prebuild_messages [] s = ok s
  prebuild_messages (m ∷ ms) s = do s1 ← engine_prebuild m s; prebuild_messages ms s1
