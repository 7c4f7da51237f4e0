-- ===== src/ExchangeCore/Batch.antt =====
-- The batch delivery of the exchange-core adapter: `onBatch` of adapters/HarnessExchangeCore.java, which
-- writes reports to a buffer until it is nearly full, and the loop over its calls in
-- adapters/exchange_core_adapter.cpp.
use matching_engine_benchmar.Common.{
  ℕ, zero, suc, ◌+◌, ◌-◌, ◌*◌, ◌/◌, ◌%◌, ◌^◌, false, not, ◌&&◌, none, some, List, [], ◌∷◌, ◌++◌,
  ltb, leb, ◌==◌, if◌then◌else◌, length, take, drop, pos, ltb_ℤ, sub_nat, Result, ok, err, ◌>>=◌,
}
use matching_engine_benchmar.Abi.{
  NewOrder, Cancel, Modify, MeMsg, new_msg, cancel_msg, modify_msg, me_order_ack, me_cancel_ack,
  me_modify_ack, me_cancel_reject, me_modify_reject,
}
use matching_engine_benchmar.Bytes.{to_u64, of_u64}
use matching_engine_benchmar.Answers.{ack_report}
use matching_engine_benchmar.ExchangeCore.{
  IOrderBook, Adapter, Stop, java_exception, out_of_fuel, out_cap, reserve, as_jint,
}
use matching_engine_benchmar.ExchangeCore.Handlers.{side_of, rep, rep_trades}

-- The call's `long`: the messages consumed and the reports written.
abbrev pub pack : ℕ → ℕ → ℕ
pack i wc = (i * 2 ^ 32 + wc % 2 ^ 32) % 2 ^ 64

abbrev pub consumed_of : ℕ → ℕ
consumed_of packed = packed / 2 ^ 32 % 2 ^ 32

abbrev pub written_of : ℕ → ℕ
written_of packed = packed % 2 ^ 32

module _ {B : Type 0} where
  -- After the fills of a new order, whose sum is a `long`.
  unfoldable pub batch_residual : NewOrder → ℕ × Adapter B → Result Stop (Adapter B)
  batch_residual o (filled, s) =
      let qty = as_jint o.quantity in
      if o.ioc == 1 && ltb_ℤ (of_u64 (filled % 2 ^ 64)) qty
      then rep
          (ack_report me_cancel_ack o.sequence_number o.order_id o.side o.price_ticks
            (to_u64 (sub_nat qty filled) % 2 ^ 32))
          s
      else ok s

module _ {B : Type 0} (lib : IOrderBook B) where
  unfoldable pub batch_new : NewOrder → Adapter B → Result Stop (Adapter B)
  batch_new o s =
      rep (ack_report me_order_ack o.sequence_number o.order_id o.side o.price_ticks o.quantity) s
      >>= (λ s1.
          let (es, book') =
            lib.new_order o.order_id o.price_ticks (as_jint o.quantity) (not (o.side == 0))
              (o.ioc == 1) s1.book in
          rep_trades es o.order_id o.sequence_number (record s1 { book = book' }))
      >>= batch_residual o

  unfoldable pub batch_cancel : Cancel → Adapter B → Result Stop (Adapter B)
  batch_cancel c s =
      let (removed, book') = lib.cancel_order c.order_id s.book in
      elim removed [
        | none ↦
            rep (ack_report me_cancel_reject c.sequence_number c.order_id 0 (pos 0) 0)
              (record s { book = book' })
        | some r ↦
            rep (ack_report me_cancel_ack c.sequence_number c.order_id (side_of r.0) r.1 0)
              (record s { book = book' })
      ]

  unfoldable pub batch_modify : Modify → Adapter B → Result Stop (Adapter B)
  batch_modify m s =
      let (removed, book') = lib.cancel_order m.order_id s.book in
      elim removed [
        | none ↦
            rep (ack_report me_modify_reject m.sequence_number m.order_id 0 (pos 0) 0)
              (record s { book = book' })
        | some r ↦
            let (es, book'') =
              lib.new_order m.order_id m.new_price_ticks (as_jint m.new_quantity)
                (not (m.side == 0)) false book' in
            rep_trades es m.order_id m.sequence_number (record s { book = book'' }) >>= (λ p.
              rep
                (ack_report me_modify_ack m.sequence_number m.order_id m.side m.new_price_ticks
                  m.new_quantity)
                p.1)
      ]

  unfoldable pub batch_handle : MeMsg → Adapter B → Result Stop (Adapter B)
  batch_handle (new_msg o) s = batch_new o s
  batch_handle (cancel_msg c) s = batch_cancel c s
  batch_handle (modify_msg m) s = batch_modify m s

  -- The loop of `onBatch` from the message `i`, the first of the list. Its offset `i * 40` is an int, and a
  -- read at a negative offset throws.
  unfoldable pub batch_loop : List MeMsg → ℕ → Adapter B → Result Stop (ℕ × Adapter B)
  batch_loop [] i s = ok (i, s)
  batch_loop (m ∷ ms) i s =
      if ltb (out_cap - length s.out) reserve
      then ok (i, s)
      else if ltb (i * 40 % 2 ^ 32) (2 ^ 31)
      then elim (batch_handle m s) [ ok s1 ↦ batch_loop ms (i + 1) s1 | err e ↦ err e ]
      else err java_exception

  unfoldable pub on_batch : List MeMsg → ℕ → Adapter B → Result Stop (ℕ × Adapter B)
  on_batch msgs start s =
      batch_loop (drop start msgs) start (record s { out = [] })
      >>= (λ p. ok (pack p.0 (length p.1.out), p.1))

  -- The loop over the calls; one that consumes nothing ends it.
  unfoldable pub chunk_loop : ℕ → List MeMsg → ℕ → Adapter B → Result Stop (Adapter B)
  chunk_loop zero msgs start s = if ltb start (length msgs) then err out_of_fuel else ok s
  chunk_loop (suc fuel) msgs start s =
      if ltb start (length msgs)
      then elim (on_batch msgs start s) [
        | err e ↦ err e
        | ok p ↦
            let (packed, s1) = p in
            let drained = record s1 { reports = s1.reports ++ take (written_of packed) s1.out } in
            let more = chunk_loop fuel msgs (consumed_of packed) drained in
            if leb (consumed_of packed) start then ok drained else more
      ]
      else ok s

  -- One round for each message is enough.
  unfoldable pub engine_on_batch : List MeMsg → Adapter B → Result Stop (Adapter B)
  engine_on_batch msgs s = chunk_loop (length msgs) msgs 0 s
