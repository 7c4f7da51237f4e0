-- ===== src/ExchangeCore/Handlers.antt =====
-- The entry points of adapters/exchange_core_adapter.cpp, and the methods of the helper that they call. The
-- messages of the ABI have no types but the three, so the helper's last branch is the modify.
use matching_engine_benchmar.Common.{
  ℕ, ◌+◌, ◌-◌, ◌%◌, ◌^◌, Bool, not, ◌&&◌, Option, none, some, List, [], ◌∷◌, ◌++◌, ltb, ◌==◌,
  if◌then◌else◌, length, set, get_or, ℤ, pos, eqb_ℤ, int64_min, int64_max, Result, ok, err, ◌>>=◌,
}
use matching_engine_benchmar.Abi.{
  NewOrder, Cancel, Modify, MeMsg, new_msg, cancel_msg, modify_msg, Report, me_order_ack,
  me_cancel_ack, me_modify_ack, me_cancel_reject, me_modify_reject,
}
use matching_engine_benchmar.Answers.{trade_report}
use matching_engine_benchmar.ExchangeCore.{
  MatcherTradeEvent, trade, other_event, IOrderBook, StageTrade, blank_trade, Adapter, Stop,
  java_exception, out_cap, as_jint, write_trades, emit_ack, emit_staged_trades,
}

-- The side of an order as a `uint8_t`.
abbrev pub side_of : Bool → ℕ
side_of ask = if ask then 1 else 0

-- The record 0 of the staging buffer with another price.
abbrev pub stage_price : ℤ → List StageTrade → List StageTrade
stage_price price st = set st 0 (record (get_or st 0 blank_trade) { price = price })

abbrev pub depth_in : ℤ → List (ℤ × ℕ) → ℕ
depth_in price [] = 0
depth_in price (l ∷ ls) = if eqb_ℤ l.0 price then l.1 else depth_in price ls

abbrev pub first_price : ℤ → List (ℤ × ℕ) → ℤ
first_price sentinel [] = sentinel
first_price sentinel (l ∷ ls) = l.0

module _ {B : Type 0} where
  -- `rep`, which throws beyond the end of the buffer.
  unfoldable pub rep : Report → Adapter B → Result Stop (Adapter B)
  rep r s =
      if ltb (length s.out) out_cap
      then ok (record s { out = s.out ++ r ∷ [] })
      else err java_exception

  -- `repTrades`, with the sum of the fills.
  unfoldable pub rep_trades :
      List MatcherTradeEvent → ℕ → ℕ → Adapter B → Result Stop (ℕ × Adapter B)
  rep_trades [] taker seq s = ok (0, s)
  rep_trades (other_event ∷ es) taker seq s = rep_trades es taker seq s
  rep_trades (trade price size maker ∷ es) taker seq s =
      rep (trade_report seq price (size % 2 ^ 32) maker taker) s
      >>= (λ s1. rep_trades es taker seq s1)
      >>= (λ p. ok (p.0 + size, p.1))

  -- After the fills of a new order.
  unfoldable pub cancel_residual : NewOrder → ℕ × Adapter B → Adapter B
  cancel_residual o (filled, s) =
      if not (o.ioc == 0) && ltb filled o.quantity
      then emit_ack me_cancel_ack o.sequence_number o.order_id o.side o.price_ticks
          ((o.quantity - filled) % 2 ^ 32) s
      else s

  -- After the helper's answer to a modify.
  unfoldable pub modified : Modify → Option ℕ × Adapter B → Adapter B
  modified m (none, s) = emit_ack me_modify_reject m.sequence_number m.order_id 0 (pos 0) 0 s
  modified m (some n, s) =
      emit_ack me_modify_ack m.sequence_number m.order_id m.side m.new_price_ticks m.new_quantity
        (emit_staged_trades n s).1

module _ {B : Type 0} (lib : IOrderBook B) where
  unfoldable pub on_new : ℕ → ℕ → ℤ → ℕ → ℕ → ℕ → Adapter B → Result Stop (ℕ × Adapter B)
  on_new oid seq price qty side ioc s =
      let (es, book') = lib.new_order oid price (as_jint qty) (not (side == 0)) (ioc == 1) s.book in
      write_trades es oid seq 0 s.stage >>= (λ p. ok (p.0, record s { book = book'; stage = p.1 }))

  -- 1 for a bid and 2 for an ask, or 0 for an order that does not rest.
  unfoldable pub on_cancel : ℕ → Adapter B → ℕ × Adapter B
  on_cancel oid s =
      let (removed, book') = lib.cancel_order oid s.book in
      elim removed [
        | none ↦ (0, record s { book = book' })
        | some r ↦ (side_of r.0 + 1, record s { book = book'; stage = stage_price r.1 s.stage })
      ]

  -- `none` stands for -1.
  unfoldable pub on_modify : ℕ → ℕ → ℤ → ℕ → ℕ → Adapter B → Result Stop (Option ℕ × Adapter B)
  on_modify oid seq price qty side s =
      let (removed, book') = lib.cancel_order oid s.book in
      elim removed [
        | none ↦ ok (none, record s { book = book' })
        | some r ↦
            on_new oid seq price qty side 0 (record s { book = book' })
            >>= (λ p. ok (some p.0, p.1))
      ]

  unfoldable pub engine_on_new_order : NewOrder → Adapter B → Result Stop (Adapter B)
  engine_on_new_order o s =
      let seq = o.sequence_number in
      on_new o.order_id seq o.price_ticks o.quantity o.side o.ioc
        (emit_ack me_order_ack seq o.order_id o.side o.price_ticks o.quantity s)
      >>= (λ p. ok (cancel_residual o (emit_staged_trades p.0 p.1)))

  unfoldable pub engine_on_cancel : Cancel → Adapter B → Adapter B
  engine_on_cancel c s =
      let (side, s1) = on_cancel c.order_id s in
      if not (side == 0)
      then emit_ack me_cancel_ack c.sequence_number c.order_id (side - 1)
          (get_or s1.stage 0 blank_trade).price 0 s1
      else emit_ack me_cancel_reject c.sequence_number c.order_id 0 (pos 0) 0 s1

  unfoldable pub engine_on_modify : Modify → Adapter B → Result Stop (Adapter B)
  engine_on_modify m s =
      on_modify m.order_id m.sequence_number m.new_price_ticks m.new_quantity m.side s
      >>= (λ p. ok (modified m p))

  unfoldable pub handle : MeMsg → Adapter B → Result Stop (Adapter B)
  handle (new_msg o) s = engine_on_new_order o s
  handle (cancel_msg c) s = ok (engine_on_cancel c s)
  handle (modify_msg m) s = engine_on_modify m s

  -- One message after the other.
  unfoldable pub deliver_each : List MeMsg → Adapter B → Result Stop (Adapter B)
  deliver_each [] s = ok s
  deliver_each (m ∷ ms) s = handle m s >>= (λ s1. deliver_each ms s1)

  unfoldable pub engine_query_best_bid : Adapter B → ℤ
  engine_query_best_bid s = first_price int64_min (lib.bids s.book)

  unfoldable pub engine_query_best_ask : Adapter B → ℤ
  engine_query_best_ask s = first_price int64_max (lib.asks s.book)

  unfoldable pub engine_query_depth_at : ℤ → ℕ → Adapter B → ℕ
  engine_query_depth_at price side s =
      depth_in price (if side == 0 then lib.bids s.book else lib.asks s.book)
