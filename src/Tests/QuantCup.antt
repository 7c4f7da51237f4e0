-- ===== src/Tests/QuantCup.antt =====
-- A small order book, and the QuantCup adapter over it.
use matching_engine_benchmar.Common.{
  ℕ, ◌+◌, ◌<◌, min, ◌≡◌, refl, ◌⊎◌, inl, true, false, List, [], ◌∷◌, ◌++◌, arith, ◌==◌,
  if◌then◌else◌, pos, ltb_ℤ, int64_min, int64_max, Result, ok, err,
}
use matching_engine_benchmar.Abi.{NewOrder, Modify, MeMsg, new_msg, cancel_msg, modify_msg, Report}
use matching_engine_benchmar.Bytes.{from_le, le_bytes}
use matching_engine_benchmar.QuantCup.{
  Book, OrderState, blank_order, Adapter, TOrder, TExecution, build_new, engine_init, price_ok,
  emit_ack, push_report, limit, execution, executions, report_fill, hit_taker, hit_maker,
  find_order, decrement, cancel, store, encode_id, decode_id,
}
use matching_engine_benchmar.QuantCup.Handlers.{
  handle, engine_on_new_order, new_order_with, open_order, settle, engine_on_batch,
  prebuild_messages,
}
use matching_engine_benchmar.QuantCup.Prebuilt.{
  new_orders, reinserts, all_direct, engine_on_batch-prebuilt,
}
use matching_engine_benchmar.QuantCup.Fill.{fill_of, IsFilled, executions-IsFilled}
use matching_engine_benchmar.QuantCup.Shadow.{IsShadow}
use matching_engine_benchmar.QuantCup.Levels.{engine_on_batch-IsShadow, queries-levels}
use matching_engine_benchmar.QuantCup.Queries.{
  engine_query_best_bid, engine_query_best_ask, engine_query_depth_at, resting_quantity,
}
use matching_engine_benchmar.Answers.{Fault, IsAnswered}
use matching_engine_benchmar.QuantCup.Answers.{handle-IsAnswered}

-- One side of a fill at the maker's price.
abbrev side_of_fill : TOrder → TOrder → TOrder → TExecution
side_of_fill x maker taker = record {
  trader = x.trader;
  side = x.side;
  price = maker.price;
  size = min maker.size taker.size;
}

-- A book that matches an order with the latest resting one of the other side, at any price.
abbrev match_latest : TOrder → ℕ → List TOrder → ℕ × List TExecution × (ℕ × List TOrder)
match_latest qo n [] = (n + 1, [], (n + 1, qo ∷ []))
match_latest qo n (r ∷ rs) =
    if r.side == qo.side
    then (n + 1, [], (n + 1, qo ∷ r ∷ rs))
    else (n + 1, side_of_fill r r qo ∷ side_of_fill qo r qo ∷ [], (n + 1, rs))

abbrev small_book : Book (ℕ × List TOrder)
small_book = record {
  init = (0, []);
  limit = λ qo h. match_latest qo h.0 h.1;
  cancel = λ id h. (h.0, []);
  price_points = 1000;
  max_num_orders = 100;
}

abbrev sell : NewOrder
sell = record {
  order_id = 1;
  sequence_number = 0;
  price_ticks = pos 100;
  quantity = 7;
  side = 1;
  ioc = 0;
}

abbrev buy : NewOrder
buy = record {
  order_id = 2;
  sequence_number = 1;
  price_ticks = pos 101;
  quantity = 5;
  side = 0;
  ioc = 0;
}

abbrev raise : Modify
raise = record {
  order_id = 1;
  sequence_number = 2;
  new_price_ticks = pos 105;
  new_quantity = 9;
  side = 1;
}

abbrev messages : List MeMsg
messages =
    new_msg sell
    ∷ new_msg buy
    ∷ modify_msg raise
    ∷ cancel_msg (record { order_id = 2; sequence_number = 3 })
    ∷ []

engine_on_batch-prebuilt_example :
    (s : Adapter (ℕ × List TOrder)) × (s' : Adapter (ℕ × List TOrder)) × (prebuild_messages
        small_book messages
        (engine_init small_book)
      ≡ ok s)
    × (engine_on_batch small_book messages s ≡ ok s')
    × (all_direct small_book messages s ≡ ok s')
unfolding price_ok new_orders reinserts
engine_on_batch-prebuilt_example =
    engine_on_batch-prebuilt small_book messages (refl, (refl, (tt, (tt, tt))))
      (tt, (tt, (refl, (tt, tt)))) (omega arith, (omega arith, (omega arith, (omega arith, tt))))
      (omega arith)

-- The adapter with the sell order at rest, about to be matched.
abbrev resting : Adapter (ℕ × List TOrder)
resting = record {
  orders =
      blank_order
      ∷ record { price = pos 100; qty = 7; side = 1; alive = true; qcid = 1 }
      ∷ blank_order
      ∷ [];
  pre = build_new sell ∷ build_new buy ∷ [];
  pre_idx = 1;
  pre_modify = [];
  pre_modify_idx = 0;
  limit_calls = 2;
  seq = 0;
  taker_id = 1;
  taker_left = 7;
  taker_side = 1;
  book = (1, build_new sell ∷ []);
  reports = [];
}

-- The state of a run that ended without a fault.
abbrev state_of : Result Fault (Adapter (ℕ × List TOrder)) → Adapter (ℕ × List TOrder)
state_of (ok s) = s
state_of (err f) = resting

abbrev matched : Adapter (ℕ × List TOrder)
matched = state_of (handle small_book (new_msg buy) resting)

handle-IsAnswered_example :
    (rs : List Report) × (matched.reports ≡ resting.reports ++ rs) × IsAnswered (new_msg buy) rs
unfolding handle engine_on_new_order new_order_with open_order settle emit_ack push_report limit
    execution executions report_fill hit_taker hit_maker find_order decrement cancel store build_new
    encode_id decode_id from_le le_bytes
handle-IsAnswered_example = handle-IsAnswered small_book (new_msg buy) resting matched refl

-- The states before and after the timed run of the messages.
abbrev whole_run :
    (s : Adapter (ℕ × List TOrder)) × (s' : Adapter (ℕ × List TOrder)) × (prebuild_messages
        small_book messages
        (engine_init small_book)
      ≡ ok s)
    × (engine_on_batch small_book messages s ≡ ok s')
    × (all_direct small_book messages s ≡ ok s')
unfolding price_ok new_orders reinserts
whole_run =
    engine_on_batch-prebuilt small_book messages (refl, (refl, (tt, (tt, tt))))
      (tt, (tt, (refl, (tt, tt)))) (omega arith, (omega arith, (omega arith, (omega arith, tt))))
      (omega arith)

engine_on_batch-IsShadow_example : IsShadow whole_run.1
engine_on_batch-IsShadow_example =
    engine_on_batch-IsShadow small_book messages messages whole_run.0 whole_run.1
      (omega arith, (omega arith, (omega arith, (tt, tt)))) whole_run.2 whole_run.3

resting-IsShadow : IsShadow resting
resting-IsShadow = record { slots = ground arith; left = omega arith }

queries-levels_example :
    (engine_query_depth_at (pos 100) 1 resting ≡ resting_quantity (pos 100) 1 resting.orders)
    × ((engine_query_best_bid resting ≡ int64_min)
        ⊎ (0 < engine_query_depth_at (engine_query_best_bid resting) 0 resting))
    × ((ltb_ℤ (engine_query_best_bid resting) (pos 100) ≡ false)
        ⊎ (engine_query_depth_at (pos 100) 0 resting ≡ 0))
    × ((engine_query_best_ask resting ≡ int64_max)
        ⊎ (0 < engine_query_depth_at (engine_query_best_ask resting) 1 resting))
    × ((ltb_ℤ (pos 100) (engine_query_best_ask resting) ≡ false)
        ⊎ (engine_query_depth_at (pos 100) 1 resting ≡ 0))
queries-levels_example = queries-levels resting resting-IsShadow (omega arith) (pos 100) 1

-- A buy order of 5 about to match the resting sell order of 7.
abbrev aggressed : Adapter (ℕ × List TOrder)
aggressed = record resting { seq = 1; taker_id = 2; taker_left = 5; taker_side = 0 }

abbrev sell_shadow : OrderState
sell_shadow = record { price = pos 100; qty = 7; side = 1; alive = true; qcid = 1 }

executions-IsFilled_example :
    IsFilled aggressed
      (executions (fill_of 1 1 100 5 ∷ fill_of 2 0 100 5 ∷ []) aggressed)
      1
      100
      5
      sell_shadow
    × IsFilled aggressed
        (executions (fill_of 2 0 100 5 ∷ fill_of 1 1 100 5 ∷ []) aggressed)
        1
        100
        5
        sell_shadow
executions-IsFilled_example =
    executions-IsFilled aggressed 1 2 1 100 5 sell_shadow (inl (refl, refl)) (omega arith)
      (omega arith) (omega arith) refl
