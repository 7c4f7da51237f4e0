-- ===== src/Liquibook/Handlers.antt =====
-- The entry points of adapters/liquibook_adapter.cpp: the pre-build, the three handlers, the batch
-- delivery and the queries.
use matching_engine_benchmar.Common.{
  ℕ, ◌+◌, ◌-◌, ◌*◌, ◌%◌, ◌^◌, max, Bool, false, not, ◌&&◌, none, some, List, [], ◌∷◌, ltb, leb,
  ◌==◌, if◌then◌else◌, keep, length, resize, ℤ, pos, int64_min, int64_max, Result, ok, ◌>>=◌,
}
use matching_engine_benchmar.Abi.{
  NewOrder, Cancel, Modify, MeMsg, new_msg, cancel_msg, modify_msg, me_order_ack, me_cancel_ack,
  me_modify_ack, me_cancel_reject, me_modify_reject,
}
use matching_engine_benchmar.Bytes.{of_u64}
use matching_engine_benchmar.Answers.{Fault}
use matching_engine_benchmar.Liquibook.{
  Library, Adapter, emit_ack, find_order, resting, make_order, map_lb_id, map_ext_id, add, to_price,
}

module _ {B : Type 0} where
  -- The capacity for one more order object.
  unfoldable pub grow_labels : Adapter B → Adapter B
  grow_labels s =
      let built = s.lb_built + 1 in
      record s {
        lb_built = built;
        lb2ext =
            if leb (length s.lb2ext) built
            then resize (max (length s.lb2ext * 2) (built + 1)) 0 s.lb2ext
            else s.lb2ext;
      }

  -- The capacity for an order id, in 64 bits: the largest id wraps to no capacity for it.
  unfoldable pub grow_orders : ℕ → Adapter B → Adapter B
  grow_orders id s = record s {
    orders =
        if leb (length s.orders) id
        then resize (max (length s.orders * 2) ((id + 1) % 2 ^ 64)) none s.orders
        else s.orders;
  }

  unfoldable pub engine_prebuild : MeMsg → Adapter B → Adapter B
  engine_prebuild (new_msg o) s = grow_labels (grow_orders o.order_id s)
  engine_prebuild (cancel_msg c) s = s
  engine_prebuild (modify_msg m) s = grow_labels s

  unfoldable pub prebuild_messages : List MeMsg → Adapter B → Adapter B
  prebuild_messages [] s = s
  prebuild_messages (m ∷ ms) s = prebuild_messages ms (engine_prebuild m s)

module _ {B : Type 0} (lib : Library B) where
  -- Both maps, then the book.
  unfoldable pub enter : ℕ → ℕ → Bool → Adapter B → Result Fault (Adapter B)
  enter lo id ioc s = do s1 ← map_lb_id lib lo id s; s2 ← map_ext_id lib id lo s1; add lib lo ioc s2

  -- The residual of an immediate-or-cancel order.
  unfoldable pub residual : NewOrder → Adapter B → Adapter B
  residual o s =
      if not (o.ioc == 0) && ltb s.filled o.quantity
      then emit_ack me_cancel_ack o.sequence_number o.order_id o.side o.price_ticks
          (o.quantity - s.filled) s
      else s

  -- The acknowledgement of a new order.
  unfoldable pub open_order : NewOrder → Adapter B → Adapter B
  open_order o s =
      emit_ack me_order_ack o.sequence_number o.order_id o.side o.price_ticks o.quantity
        (record s { seq = o.sequence_number; filled = 0 })

  unfoldable pub engine_on_new_order : NewOrder → Adapter B → Result Fault (Adapter B)
  engine_on_new_order o s = do
    let ioc = not (o.ioc == 0)
    let (lo, s1) = make_order lib (o.side == 0) o.price_ticks o.quantity ioc (open_order o s)
    s2 ← enter lo o.order_id ioc s1
    ok (residual o s2)

  unfoldable pub cancel_order : ℕ → Adapter B → Adapter B
  cancel_order lo s = record s { book = lib.cancel lo s.book }

  unfoldable pub engine_on_cancel : Cancel → Adapter B → Adapter B
  engine_on_cancel c s =
      let reject = emit_ack me_cancel_reject c.sequence_number c.order_id 0 (pos 0) 0 s in
      elim (find_order c.order_id s) [
        | none ↦ reject
        | some lo ↦
            let s1 = cancel_order lo s in
            let ack =
              emit_ack me_cancel_ack c.sequence_number c.order_id
                (if lib.is_buy s1.book lo then 0 else 1) (of_u64 (lib.price s1.book lo)) 0 s1 in
            if resting lib lo s then ack else reject
      ]

  -- The apply branch of a modify, at the resting order `cur`.
  unfoldable pub reinsert : Modify → ℕ → Adapter B → Result Fault (Adapter B)
  reinsert m cur s = do
    let (lo, s1) =
        make_order lib (m.side == 0) m.new_price_ticks m.new_quantity false (cancel_order cur s)
    s2 ← enter lo m.order_id false s1
    ok (
        emit_ack me_modify_ack m.sequence_number m.order_id m.side m.new_price_ticks m.new_quantity
          s2)

  unfoldable pub engine_on_modify : Modify → Adapter B → Result Fault (Adapter B)
  engine_on_modify m s =
      let s0 = record s { seq = m.sequence_number; filled = 0 } in
      let reject = emit_ack me_modify_reject m.sequence_number m.order_id 0 (pos 0) 0 s0 in
      let apply = λ (cur : ℕ). reinsert m cur s0 in
      elim (find_order m.order_id s0) [
        | none ↦ ok reject
        | some cur ↦ if resting lib cur s0 then apply cur else ok reject
      ]

  unfoldable pub handle : MeMsg → Adapter B → Result Fault (Adapter B)
  handle (new_msg o) s = engine_on_new_order o s
  handle (cancel_msg c) s = ok (engine_on_cancel c s)
  handle (modify_msg m) s = engine_on_modify m s

  unfoldable pub engine_on_batch : List MeMsg → Adapter B → Result Fault (Adapter B)
  engine_on_batch [] s = ok s
  engine_on_batch (m ∷ ms) s = do s1 ← handle m s; engine_on_batch ms s1

  -- The first price of a side, if there is one.
  unfoldable pub engine_query_best_bid : Adapter B → ℤ
  engine_query_best_bid s = elim (lib.bids s.book) [ [] ↦ int64_min | e ∷ es ↦ of_u64 e.0 ]

  unfoldable pub engine_query_best_ask : Adapter B → ℤ
  engine_query_best_ask s = elim (lib.asks s.book) [ [] ↦ int64_max | e ∷ es ↦ of_u64 e.0 ]

  -- The loop over the entries at a price, a 64-bit sum.
  unfoldable pub depth_loop : B → ℕ → List (ℕ × ℕ) → ℕ
  depth_loop book total [] = total
  depth_loop book total (e ∷ es) = depth_loop book ((total + lib.open_qty book e.1) % 2 ^ 64) es

  -- The entries that `equal_range` gives are the ones at the price.
  unfoldable pub engine_query_depth_at : ℤ → ℕ → Adapter B → ℕ
  engine_query_depth_at price side s =
      let p = to_price lib price in
      depth_loop s.book 0
        (keep (λ e. e.0 == p) (if side == 0 then lib.bids s.book else lib.asks s.book))
