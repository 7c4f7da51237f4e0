-- ===== src/ExchangeCore.antt =====
-- The exchange-core adapter: adapters/exchange_core_adapter.cpp, and the helper that it calls in the Java
-- virtual machine, adapters/HarnessExchangeCore.java, over an order book that is a parameter.
pub mod Handlers
pub mod Batch
pub mod Answer
pub mod Single
pub mod Batched
pub mod Chunks
pub mod Equal
use matching_engine_benchmar.Common.{
  ℕ, ◌+◌, ◌-◌, ◌%◌, ◌^◌, Bool, Option, List, [], ◌∷◌, ◌++◌, map, ltb, if◌then◌else◌, length, set,
  take, replicate, ℤ, pos, negsuc, Result, ok, err,
}
use matching_engine_benchmar.Abi.{Report}
use matching_engine_benchmar.Answers.{ack_report, trade_report}

-- A matcher event: a trade with its price, its size and the maker, or another one.
pub data MatcherTradeEvent : Type 0 where
  trade : ℤ → ℕ → ℕ → MatcherTradeEvent
  other_event : MatcherTradeEvent

-- The library, over the states of its book. A new order has an id, a price, a size, a side (an ask?) and a
-- type (IOC?), and a cancel that succeeds gives the side and the price of the order.
pub record IOrderBook (B : Type 0) : Type 0 where
  pub new_book : B
  pub new_order : ℕ → ℤ → ℤ → Bool → Bool → B → List MatcherTradeEvent × B
  pub cancel_order : ℕ → B → Option (Bool × ℤ) × B
  pub bids : B → List (ℤ × ℕ)
  pub asks : B → List (ℤ × ℕ)

pub record StageTrade : Type 0 where
  pub seq : ℕ
  pub price : ℤ
  pub qty : ℕ
  pub maker : ℕ
  pub taker : ℕ

abbrev pub blank_trade : StageTrade
blank_trade = record { seq = 0; price = pos 0; qty = 0; maker = 0; taker = 0 }

-- The globals of the adapter and the fields of the helper: the book, the staging buffer, the reports that
-- were pushed, and those that the batch wrote since it was called.
pub record Adapter (B : Type 0) : Type 0 where
  pub book : B
  pub stage : List StageTrade
  pub reports : List Report
  pub out : List Report

-- An exception in Java aborts; the loop over the chunks runs on fuel.
pub data Stop : Type 0 where
  java_exception out_of_fuel : Stop

unfoldable pub stage_cap : ℕ
stage_cap = 1024

unfoldable pub out_cap : ℕ
out_cap = 2 ^ 16

-- What the batch keeps free for one message.
abbrev pub reserve : ℕ
reserve = 2048

-- The value of a `uint32_t` as a `jint`.
abbrev pub as_jint : ℕ → ℤ
as_jint q = if ltb q (2 ^ 31) then pos q else negsuc (2 ^ 32 - 1 - q)

-- `engine_init`, whose warm-up discards its book and its trades.
unfoldable pub engine_init : {B : Type 0} → IOrderBook B → Adapter B
engine_init lib = record {
  book = lib.new_book;
  stage = replicate stage_cap blank_trade;
  reports = [];
  out = [];
}

-- `writeTrades`: the number of trades, and the staging buffer, which throws beyond its end.
unfoldable pub write_trades :
    List MatcherTradeEvent → ℕ → ℕ → ℕ → List StageTrade → Result Stop (ℕ × List StageTrade)
write_trades [] taker seq n st = ok (n, st)
write_trades (other_event ∷ es) taker seq n st = write_trades es taker seq n st
write_trades (trade price size maker ∷ es) taker seq n st =
    let staged : StageTrade = record {
      seq = seq;
      price = price;
      qty = size % 2 ^ 32;
      maker = maker;
      taker = taker;
    } in
    let more = write_trades es taker seq (n + 1) (set st n staged) in
    if ltb n (length st) then more else err java_exception

-- The trades among the first `n` staged records.
abbrev pub staged_report : StageTrade → Report
staged_report t = trade_report t.seq t.price t.qty t.maker t.taker

pub total : List StageTrade → ℕ
total [] = 0
total (t ∷ ts) = (t.qty + total ts) % 2 ^ 64

module _ {B : Type 0} where
  unfoldable pub push_report : Report → Adapter B → Adapter B
  push_report r s = record s { reports = s.reports ++ r ∷ [] }

  unfoldable pub emit_ack : ℕ → ℕ → ℕ → ℕ → ℤ → ℕ → Adapter B → Adapter B
  emit_ack type seq oid side price qty = push_report (ack_report type seq oid side price qty)

  unfoldable pub emit_staged_trades : ℕ → Adapter B → ℕ × Adapter B
  emit_staged_trades n s =
      let ts = take n s.stage in
      (total ts, record s { reports = s.reports ++ map staged_report ts })
