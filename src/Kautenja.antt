-- ===== src/Kautenja.antt =====
-- The Kautenja adapter, additional_references/kautenja_adapter/kautenja_adapter.cpp: the engine ABI over a
-- limit order book that is a parameter, with the fills that it tells the trade hook of, in order.
pub mod Handlers
pub mod Shadows
pub mod Mirror
pub mod Handled
pub mod Faithful
use matching_engine_benchmar.Common.{
  ℕ, ◌+◌, ◌-◌, ◌%◌, ◌^◌, Bool, false, List, [], ◌∷◌, ◌++◌, leb, ◌==◌, if◌then◌else◌, get_or,
  replicate, update_at, ℤ, pos, add_nat, sub_nat,
}
use matching_engine_benchmar.Abi.{Report, me_trade}
use matching_engine_benchmar.Bytes.{to_u64, of_u64}
use matching_engine_benchmar.Answers.{ack_report}

-- What the trade hook is given: the maker, its price and the quantity of the fill.
pub record TradeHook : Type 0 where
  pub maker_uid : ℕ
  pub maker_price : ℕ
  pub fill_qty : ℕ

-- The library, over the states of its book; `limit` gets the side (a sell?), the id, the quantity and the
-- price.
pub record Library (B : Type 0) : Type 0 where
  pub empty : B
  pub limit : Bool → ℕ → ℕ → ℕ → B → List TradeHook × B
  pub remove : ℕ → B → B
  pub has : ℕ → B → Bool
  pub count_buy : B → ℕ
  pub count_sell : B → ℕ
  pub best_buy : B → ℕ
  pub best_sell : B → ℕ
  pub volume_buy : ℕ → B → ℕ
  pub volume_sell : ℕ → B → ℕ

pub record Shadow : Type 0 where
  pub price : ℤ
  pub remaining : ℕ
  pub side : ℕ
  pub alive : Bool

abbrev pub blank_shadow : Shadow
blank_shadow = record { price = pos 0; remaining = 0; side = 0; alive = false }

-- The globals, with the library's book, and the reports that were pushed.
pub record Adapter (B : Type 0) : Type 0 where
  pub book : B
  pub shadow : List Shadow
  pub cur_seq : ℕ
  pub taker_id : ℕ
  pub taker_fill : ℕ
  pub reports : List Report

abbrev pub px_off : ℕ
px_off = 2 ^ 30

-- The sum of a price and the offset stays in 64 bits for prices below 2 ^ 63 - 2 ^ 30.
unfoldable pub to_engine_price : ℤ → ℕ
to_engine_price ticks = to_u64 (add_nat ticks px_off)

unfoldable pub from_engine_price : ℕ → ℤ
from_engine_price p = sub_nat (of_u64 p) px_off

unfoldable pub shadow_init : ℕ
shadow_init = 2 ^ 22

-- A fill takes from what is left of the maker.
abbrev pub fill_maker : ℕ → Shadow → Shadow
fill_maker q e =
    let rem = if leb q e.remaining then e.remaining - q else 0 in
    record e { remaining = rem; alive = if rem == 0 then false else e.alive }

module _ {B : Type 0} where
  unfoldable pub emit : Report → Adapter B → Adapter B
  emit r s = record s { reports = s.reports ++ r ∷ [] }

  unfoldable pub emit_ack : ℕ → ℕ → ℕ → ℕ → ℤ → ℕ → Adapter B → Adapter B
  emit_ack type seq oid side price qty = emit (ack_report type seq oid side price qty)

  -- What the slot of an order holds, if the store reaches as far.
  unfoldable pub shadow_of : ℕ → Adapter B → Shadow
  shadow_of oid s = get_or s.shadow oid blank_shadow

  -- A write through the pointer that `shadowSlot` gives.
  unfoldable pub update_slot : ℕ → (Shadow → Shadow) → Adapter B → Adapter B
  update_slot oid f s = record s { shadow = update_at oid blank_shadow f s.shadow }

  -- `__kautenja_trade_hook`.
  unfoldable pub trade_hook : TradeHook → Adapter B → Adapter B
  trade_hook x s =
      let traded =
        emit
          (record {
            type = me_trade;
            side = 0;
            sequence_number = s.cur_seq;
            order_id = x.maker_uid;
            price_ticks = from_engine_price x.maker_price;
            quantity = x.fill_qty;
            maker_order_id = x.maker_uid;
            taker_order_id = s.taker_id;
          })
          s in
      update_slot x.maker_uid (fill_maker x.fill_qty)
        (record traded { taker_fill = (traded.taker_fill + x.fill_qty) % 2 ^ 64 })

  unfoldable pub trade_hooks : List TradeHook → Adapter B → Adapter B
  trade_hooks [] s = s
  trade_hooks (x ∷ xs) s = trade_hooks xs (trade_hook x s)

unfoldable pub engine_init : {B : Type 0} → Library B → Adapter B
engine_init lib = record {
  book = lib.empty;
  shadow = replicate shadow_init blank_shadow;
  cur_seq = 0;
  taker_id = 0;
  taker_fill = 0;
  reports = [];
}
