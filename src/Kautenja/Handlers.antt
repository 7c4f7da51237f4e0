-- ===== src/Kautenja/Handlers.antt =====
-- The entry points of additional_references/kautenja_adapter/kautenja_adapter.cpp. The messages of the ABI
-- have no other types, which the batch delivery would skip.
use matching_engine_benchmar.Common.{
  ℕ, ◌-◌, ◌%◌, ◌^◌, Bool, true, false, not, none, some, List, [], ◌∷◌, ltb, ◌==◌, if◌then◌else◌,
  get_elem?, ℤ, pos, int64_min, int64_max,
}
use matching_engine_benchmar.Abi.{
  NewOrder, Cancel, Modify, MeMsg, new_msg, cancel_msg, modify_msg, me_order_ack, me_cancel_ack,
  me_modify_ack, me_cancel_reject, me_modify_reject,
}
use matching_engine_benchmar.Kautenja.{
  Library, Adapter, Shadow, emit_ack, shadow_of, update_slot, trade_hooks, to_engine_price,
  from_engine_price,
}

-- The slot of an order that no longer rests.
abbrev pub dead : Shadow → Shadow
dead e = record e { alive = false; remaining = 0 }

-- The slot of an order that rests.
abbrev pub rest : ℤ → ℕ → ℕ → Shadow → Shadow
rest price side left e = record { price = price; remaining = left; side = side; alive = true }

module _ {B : Type 0} where
  -- What is left of an order after its fills.
  unfoldable pub residual : ℕ → Adapter B → ℕ
  residual qty s = if ltb s.taker_fill qty then (qty - s.taker_fill) % 2 ^ 32 else 0

  -- The test on the slot of an order, for a cancel and a modify; a slot beyond the store is a null pointer.
  unfoldable pub is_alive : ℕ → Adapter B → Bool
  is_alive oid s = elim (get_elem? s.shadow oid) [ none ↦ false | some e ↦ e.alive ]

module _ {B : Type 0} (lib : Library B) where
  unfoldable pub take_out : ℕ → Adapter B → Adapter B
  take_out oid s = record s { book = lib.remove oid s.book }

  -- The call of `limit`, with its hooks.
  unfoldable pub submit_order : ℕ → ℕ → ℕ → ℤ → ℕ → Adapter B → Adapter B
  submit_order seq oid side price qty s =
      let (xs, book') = lib.limit (not (side == 0)) oid qty (to_engine_price price) s.book in
      record (trade_hooks xs (record s { cur_seq = seq; taker_id = oid; taker_fill = 0 })) {
        book = book';
      }

  -- After the matching of a new order.
  unfoldable pub settle : NewOrder → Adapter B → Adapter B
  settle o s =
      let left = residual o.quantity s in
      if not (o.ioc == 0)
      then (if ltb 0 left
          then emit_ack me_cancel_ack o.sequence_number o.order_id o.side o.price_ticks left
              (if lib.has o.order_id s.book then take_out o.order_id s else s)
          else s)
      else (if ltb 0 left then update_slot o.order_id (rest o.price_ticks o.side left) s else s)

  unfoldable pub on_new_order : NewOrder → Adapter B → Adapter B
  on_new_order o s =
      let seq = o.sequence_number in
      settle o (
        submit_order seq o.order_id o.side o.price_ticks o.quantity
          (emit_ack me_order_ack seq o.order_id o.side o.price_ticks o.quantity s))

  unfoldable pub on_cancel : Cancel → Adapter B → Adapter B
  on_cancel c s =
      let e = shadow_of c.order_id s in
      if is_alive c.order_id s
      then update_slot c.order_id dead (
          emit_ack me_cancel_ack c.sequence_number c.order_id e.side e.price e.remaining
            (take_out c.order_id s))
      else emit_ack me_cancel_reject c.sequence_number c.order_id 0 (pos 0) 0 s

  -- The branch of a modify whose order rests.
  unfoldable pub reinsert : Modify → Adapter B → Adapter B
  reinsert m s =
      let seq = m.sequence_number in
      let side = (shadow_of m.order_id s).side in
      let removed = update_slot m.order_id dead (take_out m.order_id s) in
      let acked =
        emit_ack me_modify_ack seq m.order_id side m.new_price_ticks m.new_quantity removed in
      let matched = submit_order seq m.order_id side m.new_price_ticks m.new_quantity acked in
      let left = residual m.new_quantity matched in
      update_slot m.order_id (if ltb 0 left then rest m.new_price_ticks side left else dead) matched

  unfoldable pub on_modify : Modify → Adapter B → Adapter B
  on_modify m s =
      if not (is_alive m.order_id s)
      then emit_ack me_modify_reject m.sequence_number m.order_id 0 (pos 0) 0 s
      else reinsert m s

  unfoldable pub handle : MeMsg → Adapter B → Adapter B
  handle (new_msg o) s = on_new_order o s
  handle (cancel_msg c) s = on_cancel c s
  handle (modify_msg m) s = on_modify m s

  unfoldable pub engine_on_batch : List MeMsg → Adapter B → Adapter B
  engine_on_batch [] s = s
  engine_on_batch (m ∷ ms) s = engine_on_batch ms (handle m s)

  unfoldable pub engine_query_best_bid : Adapter B → ℤ
  engine_query_best_bid s =
      if lib.count_buy s.book == 0 then int64_min else from_engine_price (lib.best_buy s.book)

  unfoldable pub engine_query_best_ask : Adapter B → ℤ
  engine_query_best_ask s =
      if lib.count_sell s.book == 0 then int64_max else from_engine_price (lib.best_sell s.book)

  unfoldable pub engine_query_depth_at : ℤ → ℕ → Adapter B → ℕ
  engine_query_depth_at price side s =
      let p = to_engine_price price in
      if side == 0 then lib.volume_buy p s.book else lib.volume_sell p s.book
