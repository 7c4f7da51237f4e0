-- ===== src/CppOrderBook/Handlers.antt =====
-- The entry points of additional_references/cpp_orderbook_adapter/cpp_orderbook_adapter.cpp that take
-- messages. The messages of the ABI have no other types, which the batch delivery would skip.
use matching_engine_benchmar.Common.{
  ℕ, ◌-◌, ◌%◌, ◌^◌, Bool, false, not, List, [], ◌∷◌, ltb, ◌==◌, if◌then◌else◌, ℤ, pos,
}
use matching_engine_benchmar.Abi.{
  NewOrder, Cancel, Modify, MeMsg, new_msg, cancel_msg, modify_msg, me_order_ack, me_cancel_ack,
  me_modify_ack, me_cancel_reject, me_modify_reject,
}
use matching_engine_benchmar.CppOrderBook.{
  Library, Adapter, emit_ack, shadow_slot, shadow_of, update_slot, to_dec_price, to_dec_qty,
  on_execution_reports,
}

module _ {B : Type 0} where
  -- What is left of an order after its fills.
  unfoldable pub residual : ℕ → Adapter B → ℕ
  residual qty s = if ltb s.taker_fill qty then (qty - s.taker_fill) % 2 ^ 32 else 0

  -- The write of a resting order into its slot.
  unfoldable pub store_resting : ℕ → ℤ → ℕ → ℕ → Adapter B → Adapter B
  store_resting oid price side left s =
      update_slot oid
        (λ e. record { price = price; remaining = left; side = side; alive = ltb 0 left }) s

  -- The start of the matching of an order.
  unfoldable pub start : ℕ → Adapter B → Adapter B
  start seq s = record s { cur_seq = seq; taker_fill = 0 }

  -- After the matching of a new order: the residual of an immediate-or-cancel order is cancelled, that of
  -- another rests.
  unfoldable pub settle : NewOrder → Adapter B → Adapter B
  settle o matched =
      let left = residual o.quantity matched in
      if not (o.ioc == 0)
      then (if ltb 0 left
          then emit_ack me_cancel_ack o.sequence_number o.order_id o.side o.price_ticks left matched
          else matched)
      else store_resting o.order_id o.price_ticks o.side left matched

module _ {B D : Type 0} (lib : Library B D) where
  -- The call of `addOrder`, with its notifications; `Side::Sell` is any side but 0.
  unfoldable pub submit_order : ℕ → ℕ → ℕ → ℤ → Bool → Adapter B → Adapter B
  submit_order oid side qty price ioc s =
      let (xs, book') =
        lib.add_order oid (not (side == 0)) (to_dec_qty lib qty) (to_dec_price lib price) ioc
          s.book in
      record (on_execution_reports lib xs s) { book = book' }

  -- The call of `cancelOrder`, whose verdict the notifications record.
  unfoldable pub ask_cancel : ℕ → Adapter B → Adapter B
  ask_cancel oid s =
      let (xs, book') = lib.cancel_order oid s.book in
      record (on_execution_reports lib xs (record s { cancel_ok = false; cancel_qty = 0 })) {
        book = book';
      }

  unfoldable pub on_new_order : NewOrder → Adapter B → Adapter B
  on_new_order o s =
      let seq = o.sequence_number in
      let acked = emit_ack me_order_ack seq o.order_id o.side o.price_ticks o.quantity s in
      let matched =
        submit_order o.order_id o.side o.quantity o.price_ticks (not (o.ioc == 0))
          (start seq acked) in
      settle o matched

  unfoldable pub on_cancel : Cancel → Adapter B → Adapter B
  on_cancel c s =
      let asked = ask_cancel c.order_id s in
      let found = shadow_slot c.order_id asked in
      let e = shadow_of c.order_id found in
      if not asked.cancel_ok
      then emit_ack me_cancel_reject c.sequence_number c.order_id 0 (pos 0) 0 asked
      else update_slot c.order_id (λ e. record e { alive = false })
          (emit_ack me_cancel_ack c.sequence_number c.order_id e.side e.price
            (found.cancel_qty % 2 ^ 32) found)

  -- The branch of a modify that the engine lets through.
  unfoldable pub reinsert : Modify → Adapter B → Adapter B
  reinsert m s =
      let found = shadow_slot m.order_id s in
      let side = (shadow_of m.order_id found).side in
      let acked =
        emit_ack me_modify_ack m.sequence_number m.order_id side m.new_price_ticks m.new_quantity
          found in
      let matched =
        submit_order m.order_id side m.new_quantity m.new_price_ticks false
          (start m.sequence_number acked) in
      store_resting m.order_id m.new_price_ticks side (residual m.new_quantity matched) matched

  unfoldable pub on_modify : Modify → Adapter B → Adapter B
  on_modify m s =
      let asked = ask_cancel m.order_id s in
      if not asked.cancel_ok
      then emit_ack me_modify_reject m.sequence_number m.order_id 0 (pos 0) 0 asked
      else reinsert m asked

  unfoldable pub handle : MeMsg → Adapter B → Adapter B
  handle (new_msg o) s = on_new_order o s
  handle (cancel_msg c) s = on_cancel c s
  handle (modify_msg m) s = on_modify m s

  unfoldable pub engine_on_batch : List MeMsg → Adapter B → Adapter B
  engine_on_batch [] s = s
  engine_on_batch (m ∷ ms) s = engine_on_batch ms (handle m s)
