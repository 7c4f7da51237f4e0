-- ===== src/QuantCup.antt =====
-- The QuantCup adapter, adapters/quantcup_adapter.cpp: the engine ABI over the QuantCup order book.
-- The book is a library, a parameter. The adapter's globals are a record; `err` is a run that aborts
-- or that reads or writes outside a vector.
pub mod Handlers
pub mod Frame
pub mod Prebuilt
pub mod Reports
pub mod Answers
pub mod Fill
pub mod Queries
pub mod Shadow
pub mod Levels
use matching_engine_benchmar.Common.{
  ℕ, ◌+◌, ◌-◌, ◌%◌, ◌^◌, Bool, false, not, ◌&&◌, Option, none, some, List, [], ◌∷◌, ◌++◌, ltb, leb,
  ◌==◌, if◌then◌else◌, length, get_elem?, set, replicate, ℤ, pos, ltb_ℤ, Result, ok, err,
}
use matching_engine_benchmar.Abi.{
  NewOrder, Cancel, Modify, MeMsg, new_msg, cancel_msg, modify_msg, Report, me_order_ack, me_trade,
  me_cancel_ack, me_modify_ack, me_cancel_reject, me_modify_reject,
}
use matching_engine_benchmar.Answers.{Fault, out_of_bounds}
use matching_engine_benchmar.Bytes.{le_bytes, from_le, to_u64}

-- `t_order` of the library. `trader` is its Field of four bytes; the adapter leaves `symbol` blank.
pub record TOrder : Type 0 where
  pub trader : List ℕ
  pub side : ℕ
  pub price : ℕ
  pub size : ℕ

-- `t_execution` of the library, what the execution callback is given.
pub record TExecution : Type 0 where
  pub trader : List ℕ
  pub side : ℕ
  pub price : ℕ
  pub size : ℕ

-- The library: a new order gives its id and the executions that are called back, in order.
pub record Book (B : Type 0) : Type 0 where
  pub init : B
  pub limit : TOrder → B → ℕ × List TExecution × B
  pub cancel : ℕ → B → B
  pub price_points : ℕ
  pub max_num_orders : ℕ

pub record OrderState : Type 0 where
  pub price : ℤ
  pub qty : ℕ
  pub side : ℕ
  pub alive : Bool
  pub qcid : ℕ

-- A value-initialised slot of `g_orders`.
abbrev pub blank_order : OrderState
blank_order = record { price = pos 0; qty = 0; side = 0; alive = false; qcid = 0 }

-- The globals, with the book, and the reports that were pushed.
pub record Adapter (B : Type 0) : Type 0 where
  pub orders : List OrderState
  pub pre : List TOrder
  pub pre_idx : ℕ
  pub pre_modify : List TOrder
  pub pre_modify_idx : ℕ
  pub limit_calls : ℕ
  pub seq : ℕ
  pub taker_id : ℕ
  pub taker_left : ℕ
  pub taker_side : ℕ
  pub book : B
  pub reports : List Report

unfoldable pub encode_id : ℕ → List ℕ
encode_id id = le_bytes 4 id

unfoldable pub decode_id : List ℕ → ℕ
decode_id f = from_le f

-- The two `t_order`s that the pre-build makes. The price is cut to 32 bits.
unfoldable pub build_new : NewOrder → TOrder
build_new o = record {
  trader = encode_id o.order_id;
  side = if o.side == 0 then 0 else 1;
  price = to_u64 o.price_ticks % 2 ^ 32;
  size = o.quantity;
}

unfoldable pub build_modify : Modify → TOrder
build_modify m = record {
  trader = encode_id m.order_id;
  side = if m.side == 0 then 0 else 1;
  price = to_u64 m.new_price_ticks % 2 ^ 32;
  size = m.new_quantity;
}

-- The maker's shadow after a fill of `qty`.
unfoldable pub decrement : ℕ → OrderState → OrderState
decrement qty s =
    if ltb qty s.qty then record s { qty = s.qty - qty } else record s { qty = 0; alive = false }

module _ {B : Type 0} where
  unfoldable pub push_report : Report → Adapter B → Adapter B
  push_report r s = record s { reports = s.reports ++ r ∷ [] }

  unfoldable pub emit_ack : ℕ → ℕ → ℕ → ℕ → ℤ → ℕ → Adapter B → Adapter B
  emit_ack type seq order_id side price qty = push_report (record {
    type = type;
    side = side;
    sequence_number = seq;
    order_id = order_id;
    price_ticks = price;
    quantity = qty;
    maker_order_id = 0;
    taker_order_id = 0;
  })

  unfoldable pub find_order : ℕ → Adapter B → Option OrderState
  find_order ext_id s = get_elem? s.orders ext_id

  -- The trade report of a fill, at the maker's price.
  unfoldable pub report_fill : TExecution → Adapter B → Adapter B
  report_fill exec s =
      push_report
        (record {
          type = me_trade;
          side = 0;
          sequence_number = s.seq;
          order_id = 0;
          price_ticks = pos exec.price;
          quantity = exec.size % 2 ^ 32;
          maker_order_id = decode_id exec.trader;
          taker_order_id = s.taker_id;
        })
        s

  unfoldable pub hit_taker : ℕ → Adapter B → Adapter B
  hit_taker qty s = if leb qty s.taker_left then record s { taker_left = s.taker_left - qty } else s

  unfoldable pub hit_maker : ℕ → ℕ → Adapter B → Adapter B
  hit_maker maker_id qty s = elim (find_order maker_id s) [
    | none ↦ s
    | some o ↦ record s { orders = set s.orders maker_id (decrement qty o) }
  ]

  -- `execution`, which is called once for each side of a fill; it counts only the maker's.
  unfoldable pub execution : TExecution → Adapter B → Adapter B
  execution exec s =
      let maker_call = if s.taker_side == 0 then exec.side == 1 else exec.side == 0 in
      let qty = exec.size % 2 ^ 32 in
      if maker_call
      then hit_maker (decode_id exec.trader) qty (hit_taker qty (report_fill exec s))
      else s

  unfoldable pub executions : List TExecution → Adapter B → Adapter B
  executions [] s = s
  executions (x ∷ xs) s = executions xs (execution x s)

  -- A slot is only overwritten where it is there.
  unfoldable pub store : ℕ → OrderState → Adapter B → Result Fault (Adapter B)
  store id o s =
      if ltb id (length s.orders)
      then ok (record s { orders = set s.orders id o })
      else err out_of_bounds

module _ {B : Type 0} (b : Book B) where
  -- `check_qc_price`: the usable slots are 1 to kNumPricePoints - 1.
  unfoldable pub price_ok : ℤ → Bool
  price_ok price = not (ltb_ℤ price (pos 1)) && ltb_ℤ price (pos b.price_points)

  unfoldable pub engine_init : Adapter B
  engine_init = record {
    orders = replicate (2 ^ 21) blank_order;
    pre = [];
    pre_idx = 0;
    pre_modify = [];
    pre_modify_idx = 0;
    limit_calls = 0;
    seq = 0;
    taker_id = 0;
    taker_left = 0;
    taker_side = 0;
    book = b.init;
    reports = [];
  }

  -- `limit`, with the executions that are called back from it.
  unfoldable pub limit : TOrder → Adapter B → ℕ × Adapter B
  limit qo s =
      let (qcid, xs, book') = b.limit qo s.book in (qcid, executions xs (record s { book = book' }))

  unfoldable pub cancel : ℕ → Adapter B → Adapter B
  cancel qcid s = record s { book = b.cancel qcid s.book }
