-- ===== src/Abi.antt =====
-- The C ABI of an engine, api/matching_engine_api.h: its messages and reports. Padding and reserved
-- fields carry nothing and are left out; the tagged unions are data types.
use matching_engine_benchmar.Common.{ℕ, ◌-◌, ◌^◌, ◌<◌, ℤ}

pub record NewOrder : Type 0 where
  pub order_id : ℕ
  pub sequence_number : ℕ
  pub price_ticks : ℤ
  pub quantity : ℕ
  pub side : ℕ
  pub ioc : ℕ

pub record Cancel : Type 0 where
  pub order_id : ℕ
  pub sequence_number : ℕ

pub record Modify : Type 0 where
  pub order_id : ℕ
  pub sequence_number : ℕ
  pub new_price_ticks : ℤ
  pub new_quantity : ℕ
  pub side : ℕ

-- `me_msg_t`, and the harness's `PreparedMsg` of the same layout.
pub data MeMsg : Type 0 where
  new_msg : NewOrder → MeMsg
  cancel_msg : Cancel → MeMsg
  modify_msg : Modify → MeMsg

-- The order id of a message leaves room in 64 bits for a vector that reaches to it.
abbrev pub IsIndexed : MeMsg → Type 0
IsIndexed (new_msg o) = o.order_id < 2 ^ 64 - 1
IsIndexed (cancel_msg c) = c.order_id < 2 ^ 64 - 1
IsIndexed (modify_msg m) = m.order_id < 2 ^ 64 - 1

-- `me_report_type_t`.
abbrev pub me_order_ack : ℕ
me_order_ack = 0

abbrev pub me_trade : ℕ
me_trade = 1

abbrev pub me_cancel_ack : ℕ
me_cancel_ack = 2

abbrev pub me_modify_ack : ℕ
me_modify_ack = 3

abbrev pub me_cancel_reject : ℕ
me_cancel_reject = 4

abbrev pub me_modify_reject : ℕ
me_modify_reject = 5

-- `me_report_t`. The type is a byte that the engine fills in, so any number may stand there.
pub record Report : Type 0 where
  pub type : ℕ
  pub side : ℕ
  pub sequence_number : ℕ
  pub order_id : ℕ
  pub price_ticks : ℤ
  pub quantity : ℕ
  pub maker_order_id : ℕ
  pub taker_order_id : ℕ
