-- ===== src/CppOrderBook.antt =====
-- The CppOrderBook adapter, additional_references/cpp_orderbook_adapter/cpp_orderbook_adapter.cpp: the
-- engine ABI over the order book of the library cpp-orderbook. The book is a parameter, with its decimals,
-- its notifications in the order in which it gives them, and the text that it prints.
pub mod Printed
pub mod Columns
pub mod Levels
pub mod Handlers
pub mod Store
pub mod Echo
use matching_engine_benchmar.Common.{
  ℕ, zero, suc, ◌+◌, ◌-◌, ◌*◌, ◌/◌, ◌%◌, ◌^◌, ◌≤◌, ◌<◌, min, max, ◌≡◌, refl, sym, ap, subst, ◌∙◌,
  ◌≢◌, ◌↔◌, ◌⊎◌, inl, inr, Bool, true, false, not, ◌&&◌, ◌||◌, Option, none, some, List, [], ◌∷◌,
  ◌++◌, map, arith, ltb, leb, ◌==◌, if◌then◌else◌, ltb→lt, lt→ltb, leb→le, ==_iff, tests,
  Bool-cases, Option-cases, keep, length, get_elem?, set, length-append, length-set,
  get_elem?-set_self, get_elem?-set_ne, get_or, take, drop, replicate, take-append-drop,
  length-take, length-drop, length-replicate, resize, length-resize, get_or-set_self, get_or-set_ne,
  get_or-resize, grow, update_at, get_or-grow, length-grow, get_or-update_at, length-map, All,
  All-append, take-length-append, drop-length-append, drop-drop, get_elem?-lt, take_all, drop_all,
  get_elem?-drop, ℤ, pos, negsuc, pos_part, neg_part, ltb_ℤ, eqb_ℤ, IsInt64, int64_min, int64_max,
  eqb_ℤ→eq, eqb_ℤ-self, add_nat, sub_nat, Result, ok, err, ◌>>=◌, or_fail, check, OnOk, OnOk-map,
  OnOk-bind,
}
use matching_engine_benchmar.Abi.{Report, me_trade}
use matching_engine_benchmar.Bytes.{to_u64, of_u64}
use matching_engine_benchmar.Answers.{ack_report}

-- What the handler reads of an `ExecutionReport`, by its `ExecType`.
pub data ExecutionReport (D : Type 0) : Type 0 where
  created : ExecutionReport D
  trade : ℕ → ℕ → D → D → ExecutionReport D  -- maker, taker, last quantity, last price
  canceled : D → ExecutionReport D
  rejected : ExecutionReport D

-- The library, over the states `B` of its book and its decimals `D`.
pub record Library (B D : Type 0) : Type 0 where
  pub fresh : B
  pub zero_decimal : D
  pub decimal : ℕ → D  -- `Decimal(n, 0)`
  pub to_int : D → ℕ
  pub add_order : ℕ → Bool → D → D → Bool → B → List (ExecutionReport D) × B  -- id, sell, quantity, price, IoC
  pub cancel_order : ℕ → B → List (ExecutionReport D) × B
  pub to_string : B → List ℕ

pub record Shadow : Type 0 where
  pub price : ℤ
  pub remaining : ℕ
  pub side : ℕ
  pub alive : Bool

abbrev pub blank_shadow : Shadow
blank_shadow = record { price = pos 0; remaining = 0; side = 0; alive = false }

-- The globals, with the library's book, and the reports that were pushed.
pub record Adapter (B : Type 0) : Type 0 where
  pub book : B
  pub shadow : List Shadow
  pub cur_seq : ℕ
  pub taker_fill : ℕ
  pub cancel_ok : Bool
  pub cancel_qty : ℕ
  pub reports : List Report

unfoldable pub shadow_init : ℕ
shadow_init = 2 ^ 22

module _ {B : Type 0} where
  unfoldable pub emit : Report → Adapter B → Adapter B
  emit r s = record s { reports = s.reports ++ r ∷ [] }

  unfoldable pub emit_ack : ℕ → ℕ → ℕ → ℕ → ℤ → ℕ → Adapter B → Adapter B
  emit_ack type seq oid side price qty = emit (ack_report type seq oid side price qty)

  -- A trade also carries its maker as the order.
  unfoldable pub emit_trade : ℕ → ℕ → ℕ → ℤ → ℕ → Adapter B → Adapter B
  emit_trade seq maker_id taker_id price qty = emit (record {
    type = me_trade;
    side = 0;
    sequence_number = seq;
    order_id = maker_id;
    price_ticks = price;
    quantity = qty;
    maker_order_id = maker_id;
    taker_order_id = taker_id;
  })

  -- The growth of the store, for an order id below 2 ^ 64 - 1.
  unfoldable pub shadow_slot : ℕ → Adapter B → Adapter B
  shadow_slot oid s = record s { shadow = grow oid blank_shadow s.shadow }

  -- What the slot of an order holds.
  unfoldable pub shadow_of : ℕ → Adapter B → Shadow
  shadow_of oid s = get_or s.shadow oid blank_shadow

  -- A write through the pointer that `shadowSlot` gives.
  unfoldable pub update_slot : ℕ → (Shadow → Shadow) → Adapter B → Adapter B
  update_slot oid f s = record s { shadow = update_at oid blank_shadow f s.shadow }

module _ {B D : Type 0} (lib : Library B D) where
  unfoldable pub to_dec_price : ℤ → D
  to_dec_price ticks = if ltb_ℤ (pos 0) ticks then lib.decimal (to_u64 ticks) else lib.zero_decimal

  unfoldable pub to_dec_qty : ℕ → D
  to_dec_qty q = lib.decimal q

  unfoldable pub from_dec_price : D → ℤ
  from_dec_price d = of_u64 (lib.to_int d)

  unfoldable pub from_dec_qty : D → ℕ
  from_dec_qty d = if ltb (2 ^ 32 - 1) (lib.to_int d) then 2 ^ 32 - 1 else lib.to_int d

  -- A fill takes from what is left of the maker.
  abbrev pub fill_maker : ℕ → Shadow → Shadow
  fill_maker q e =
      let rem = if leb q e.remaining then e.remaining - q else 0 in
      record e { remaining = rem; alive = if rem == 0 then false else e.alive }

  -- `onExecutionReport`.
  unfoldable pub on_execution_report : ExecutionReport D → Adapter B → Adapter B
  on_execution_report created s = s
  on_execution_report (trade maker_id taker_id last_qty last_price) s =
      let q = from_dec_qty last_qty in
      let s1 = emit_trade s.cur_seq maker_id taker_id (from_dec_price last_price) q s in
      update_slot maker_id (fill_maker q) (record s1 { taker_fill = (s1.taker_fill + q) % 2 ^ 64 })
  on_execution_report (canceled qty) s = record s {
    cancel_ok = true;
    cancel_qty = from_dec_qty qty;
  }
  on_execution_report rejected s = s

  unfoldable pub on_execution_reports : List (ExecutionReport D) → Adapter B → Adapter B
  on_execution_reports [] s = s
  on_execution_reports (x ∷ xs) s = on_execution_reports xs (on_execution_report x s)

  unfoldable pub engine_init : Adapter B
  engine_init = record {
    book = lib.fresh;
    shadow = replicate shadow_init blank_shadow;
    cur_seq = 0;
    taker_fill = 0;
    cancel_ok = false;
    cancel_qty = 0;
    reports = [];
  }
