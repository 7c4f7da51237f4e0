-- ===== src/Liquibook.antt =====
-- The Liquibook adapter, adapters/liquibook_adapter.cpp: the engine ABI over the Liquibook order book.
-- The book and its order objects are a library, a parameter, with the pointers to the objects as numbers.
-- `err` is a run that reads or writes outside a vector.
pub mod Handlers
pub mod Safe
pub mod Protocol
pub mod Whole
use matching_engine_benchmar.Common.{
  ℕ, ◌+◌, ◌%◌, ◌^◌, Bool, ◌&&◌, Option, none, some, List, [], ◌∷◌, ◌++◌, ltb, if◌then◌else◌, length,
  get_elem?, set, get_or, replicate, ℤ, Result, ok, err, or_fail, ◌>>=◌,
}
use matching_engine_benchmar.Abi.{Report}
use matching_engine_benchmar.Bytes.{to_u64, of_u64}
use matching_engine_benchmar.Answers.{Fault, out_of_bounds, ack_report, trade_report}

-- What the fill listener is given: the two orders by their pointers.
pub record FillEvent : Type 0 where
  pub taker : ℕ
  pub maker : ℕ
  pub qty : ℕ
  pub price : ℕ

-- The library: its book and its order objects make up a state `B`.
pub record Library (B : Type 0) : Type 0 where
  pub fresh : B
  pub construct : Bool → ℕ → ℕ → Bool → B → ℕ × B  -- side, price, quantity, immediate-or-cancel
  pub order_id_ : B → ℕ → ℕ
  pub accepted : B → ℕ → Bool
  pub open_qty : B → ℕ → ℕ
  pub is_buy : B → ℕ → Bool
  pub price : B → ℕ → ℕ
  pub add : ℕ → Bool → B → List FillEvent × B
  pub cancel : ℕ → B → B
  pub bids : B → List (ℕ × ℕ)  -- prices and pointers, best first
  pub asks : B → List (ℕ × ℕ)
  pub price_bits : ℕ

-- The globals, with the library's state, and the reports that were pushed. `none` is a null pointer.
pub record Adapter (B : Type 0) : Type 0 where
  pub book : B
  pub orders : List (Option ℕ)
  pub lb2ext : List ℕ
  pub all : List ℕ
  pub lb_built : ℕ
  pub seq : ℕ
  pub filled : ℕ
  pub reports : List Report

module _ {B : Type 0} where
  unfoldable pub push_report : Report → Adapter B → Adapter B
  push_report r s = record s { reports = s.reports ++ r ∷ [] }

  unfoldable pub emit_ack : ℕ → ℕ → ℕ → ℕ → ℤ → ℕ → Adapter B → Adapter B
  emit_ack type seq order_id side price qty =
      push_report (ack_report type seq order_id side price qty)

  unfoldable pub find_order : ℕ → Adapter B → Option ℕ
  find_order ext_id s = get_or s.orders ext_id none

unfoldable pub initial_slots : ℕ
initial_slots = 2 ^ 21

module _ {B : Type 0} (lib : Library B) where
  -- `on_fill` of the listener, which labels a fill with the harness's ids.
  unfoldable pub on_fill : FillEvent → Adapter B → Result Fault (Adapter B)
  on_fill x s = do
    maker_id ← or_fail (get_elem? s.lb2ext (lib.order_id_ s.book x.maker)) out_of_bounds
    taker_id ← or_fail (get_elem? s.lb2ext (lib.order_id_ s.book x.taker)) out_of_bounds
    ok
        (record (push_report
          (trade_report s.seq (of_u64 x.price) (x.qty % 2 ^ 32) maker_id taker_id) s) {
            filled = (s.filled + x.qty) % 2 ^ 64;
          })

  unfoldable pub on_fills : List FillEvent → Adapter B → Result Fault (Adapter B)
  on_fills [] s = ok s
  on_fills (x ∷ xs) s = do s1 ← on_fill x s; on_fills xs s1

  -- `resting`, of a pointer that is not null.
  unfoldable pub resting : ℕ → Adapter B → Bool
  resting lo s = lib.accepted s.book lo && ltb 0 (lib.open_qty s.book lo)

  -- A price, cut to the library's type.
  abbrev pub to_price : ℤ → ℕ
  to_price price = to_u64 price % 2 ^ lib.price_bits

  unfoldable pub make_order : Bool → ℤ → ℕ → Bool → Adapter B → ℕ × Adapter B
  make_order is_buy price qty ioc s =
      let (lo, book') = lib.construct is_buy (to_price price) qty ioc s.book in
      (lo, record s { book = book'; all = s.all ++ lo ∷ [] })

  unfoldable pub map_lb_id : ℕ → ℕ → Adapter B → Result Fault (Adapter B)
  map_lb_id lo ext_id s =
      let i = lib.order_id_ s.book lo in
      if ltb i (length s.lb2ext)
      then ok (record s { lb2ext = set s.lb2ext i ext_id })
      else err out_of_bounds

  -- The write of the forward map.
  unfoldable pub map_ext_id : ℕ → ℕ → Adapter B → Result Fault (Adapter B)
  map_ext_id ext_id lo s =
      if ltb ext_id (length s.orders)
      then ok (record s { orders = set s.orders ext_id (some lo) })
      else err out_of_bounds

  -- `add`, with the fills that the listener is told of during it. The listener only reads the ids of the
  -- orders, which a match does not change.
  unfoldable pub add : ℕ → Bool → Adapter B → Result Fault (Adapter B)
  add lo ioc s = do
    let (fills, book') = lib.add lo ioc s.book
    s1 ← on_fills fills s
    ok (record s1 { book = book' })

  unfoldable pub engine_init : Adapter B
  engine_init = record {
    book = lib.fresh;
    orders = replicate initial_slots none;
    lb2ext = replicate initial_slots 0;
    all = [];
    lb_built = 0;
    seq = 0;
    filled = 0;
    reports = [];
  }
