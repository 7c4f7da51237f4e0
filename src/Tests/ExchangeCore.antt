-- ===== src/Tests/ExchangeCore.antt =====
-- A book for one order, which the next one fills, and the exchange-core adapter over it.
use matching_engine_benchmar.Common.{
  ℕ, ◌≤◌, ◌≡◌, Bool, true, Option, none, some, List, [], ◌∷◌, arith, ◌==◌, if◌then◌else◌, length,
  length-replicate, All, ℤ, pos, negsuc, ok,
}
use matching_engine_benchmar.Abi.{MeMsg, new_msg, cancel_msg, modify_msg}
use matching_engine_benchmar.ExchangeCore.{
  MatcherTradeEvent, trade, other_event, IOrderBook, Adapter, engine_init, stage_cap, blank_trade,
}
use matching_engine_benchmar.ExchangeCore.Handlers.{deliver_each}
use matching_engine_benchmar.ExchangeCore.Batch.{engine_on_batch}
use matching_engine_benchmar.ExchangeCore.Answer.{
  answer, IsFew, FewFills, IsMatched, IsMessage, count_trades, filled,
}
use matching_engine_benchmar.ExchangeCore.Equal.{engine_on_batch-deliver_each}

-- The quantity of an order's size.
abbrev quantity_of : ℤ → ℕ
quantity_of (pos n) = n
quantity_of (negsuc n) = 0

-- The latest order that rests, which the next one fills whole.
abbrev fill_latest : ℕ → ℤ → ℕ → Option ℕ → List MatcherTradeEvent × Option ℕ
fill_latest oid price qty none = ([], some oid)
fill_latest oid price qty (some maker) = (trade price qty maker ∷ other_event ∷ [], none)

abbrev drop_latest : ℕ → Option ℕ → Option (Bool × ℤ) × Option ℕ
drop_latest oid none = (none, none)
drop_latest oid (some maker) =
    if maker == oid then (some (true, pos 100), none) else (none, some maker)

abbrev latest_book : IOrderBook (Option ℕ)
latest_book = record {
  new_book = none;
  new_order = λ oid price size ask ioc b. fill_latest oid price (quantity_of size) b;
  cancel_order = drop_latest;
  bids = λ b. [];
  asks = λ b. [];
}

fill_latest-filled :
    (oid qty : ℕ) (price : ℤ) (b : Option ℕ) → filled (fill_latest oid price qty b).0 ≤ qty
unfolding filled
fill_latest-filled oid qty price none = omega arith
fill_latest-filled oid qty price (some maker) = omega arith

latest_book-IsMatched : IsMatched latest_book
latest_book-IsMatched = record {
  at_most = λ oid qty price ask ioc b. fill_latest-filled oid qty price b;
}

abbrev start : Adapter (Option ℕ)
start = engine_init latest_book

start_room : 1024 ≤ length start.stage
unfolding engine_init stage_cap
start_room = omega (arith, length-replicate 1024 blank_trade)

-- An order rests, is moved, cancelled twice, and another is filled.
abbrev messages : List MeMsg
messages =
    new_msg (record {
      order_id = 4;
      sequence_number = 0;
      price_ticks = pos 100;
      quantity = 7;
      side = 1;
      ioc = 0;
    })
    ∷ modify_msg (record {
      order_id = 4;
      sequence_number = 1;
      new_price_ticks = pos 99;
      new_quantity = 6;
      side = 1;
    })
    ∷ cancel_msg (record { order_id = 4; sequence_number = 2 })
    ∷ cancel_msg (record { order_id = 4; sequence_number = 3 })
    ∷ new_msg (record {
      order_id = 5;
      sequence_number = 4;
      price_ticks = pos 100;
      quantity = 7;
      side = 1;
      ioc = 0;
    })
    ∷ new_msg (record {
      order_id = 6;
      sequence_number = 5;
      price_ticks = pos 101;
      quantity = 3;
      side = 0;
      ioc = 1;
    })
    ∷ []

messages_fit : All IsMessage messages
messages_fit = (
  (omega arith, omega arith),
  (omega arith, (tt, (tt, ((omega arith, omega arith), ((omega arith, omega arith), tt))))),
)

messages_few : FewFills latest_book messages start.book
unfolding FewFills IsFew answer engine_init count_trades
messages_few = (omega arith, (omega arith, (tt, (tt, (omega arith, (omega arith, tt))))))

engine_on_batch-deliver_each_example :
    (single : Adapter (Option ℕ)) × (batch : Adapter (Option ℕ)) × (deliver_each latest_book
        messages start
      ≡ ok single)
    × (engine_on_batch latest_book messages start ≡ ok batch)
    × (single.reports ≡ batch.reports)
    × (single.book ≡ batch.book)
engine_on_batch-deliver_each_example =
    engine_on_batch-deliver_each latest_book latest_book-IsMatched messages start messages_fit
      (omega arith) messages_few start_room
