-- ===== src/Tests/Kautenja.antt =====
-- A book for one order, which the next one matches at any price, and the Kautenja adapter over it.
use matching_engine_benchmar.Common.{
  ℕ, zero, suc, ◌+◌, ◌-◌, ◌^◌, ◌≤◌, ◌<◌, All, min, ◌≡◌, List, [], ◌∷◌, arith, ltb, lt→ltb, leb,
  ◌==◌, if◌then◌else◌, pos,
}
use matching_engine_benchmar.Abi.{MeMsg, new_msg, cancel_msg, modify_msg}
use matching_engine_benchmar.Kautenja.{Library, TradeHook, engine_init}
use matching_engine_benchmar.Kautenja.Handlers.{engine_on_batch}
use matching_engine_benchmar.Kautenja.Shadows.{IsBook, taken, total}
use matching_engine_benchmar.Kautenja.Faithful.{Faithful, IsWorkload, engine_on_batch-Faithful}

-- The id and the quantity of the order that rests.
abbrev Slot : Type 0
Slot = ℕ × ℕ

abbrev slot_rests : Slot → ℕ → ℕ
slot_rests (maker, q) v = if maker == v then q else 0

abbrev slot_limit : ℕ → ℕ → Slot → List TradeHook × Slot
slot_limit uid qty (maker, zero) = ([], (uid, qty))
slot_limit uid qty (maker, suc q) = (
  record { maker_uid = maker; maker_price = 2 ^ 30 + 100; fill_qty = min (suc q) qty } ∷ [],
  if leb qty (suc q) then (maker, suc q - qty) else (uid, qty - suc q),
)

abbrev slot_remove : ℕ → Slot → Slot
slot_remove uid (maker, q) = if maker == uid then (0, 0) else (maker, q)

abbrev slot_library : Library Slot
slot_library = record {
  empty = (0, 0);
  limit = λ sell uid qty price b. slot_limit uid qty b;
  remove = slot_remove;
  has = λ v b. ltb 0 (slot_rests b v);
  count_buy = λ b. if b.1 == 0 then 0 else 1;
  count_sell = λ b. 0;
  best_buy = λ b. 2 ^ 30 + 100;
  best_sell = λ b. 0;
  volume_buy = λ p b. b.1;
  volume_sell = λ p b. 0;
}

slot_library-rests :
    (uid qty : ℕ) (b : Slot)
    → slot_rests b uid ≡ 0
    → (v : ℕ)
    → slot_rests (slot_limit uid qty b).1 v ≡ (
        if uid == v
        then qty - total (slot_limit uid qty b).0
        else slot_rests b v - taken (slot_limit uid qty b).0 v)
unfolding taken total
slot_library-rests uid qty (maker, zero) h v = ground (arith, h)
slot_library-rests uid qty (maker, suc q) h v = ground (arith, h)

slot_library-taken :
    (uid qty : ℕ) (b : Slot) (v : ℕ)
    → (total (slot_limit uid qty b).0 ≤ qty) × (taken (slot_limit uid qty b).0 v ≤ slot_rests b v)
unfolding taken total
slot_library-taken uid qty (maker, zero) v = (ground arith, ground arith)
slot_library-taken uid qty (maker, suc q) v = (ground arith, ground arith)

slot_library-makers :
    (uid qty : ℕ) (b : Slot) → All (λ x. 0 < slot_rests b x.maker_uid) (slot_limit uid qty b).0
slot_library-makers uid qty (maker, zero) = tt
slot_library-makers uid qty (maker, suc q) = (ground arith, tt)

slot_library-IsBook : IsBook slot_library slot_rests
slot_library-IsBook = record {
  empty_rests = λ v. ground arith;
  has_rests = λ v b h. lt→ltb 0 (slot_rests b v) h;
  remove_rests = λ uid v b. ground arith;
  limit_makers = λ sell uid qty price b p h. slot_library-makers uid qty b;
  limit_total = λ sell uid qty price b p h. (slot_library-taken uid qty b 0).0;
  limit_taken = λ sell uid qty price b p h v. (slot_library-taken uid qty b v).1;
  limit_rests = λ sell uid qty price b p h v. slot_library-rests uid qty b h v;
}

-- An order rests, is matched in part and modified, and is cancelled twice.
abbrev messages : List MeMsg
messages =
    new_msg (record {
      order_id = 4;
      sequence_number = 0;
      price_ticks = pos 100;
      quantity = 7;
      side = 0;
      ioc = 0;
    })
    ∷ new_msg (record {
      order_id = 5;
      sequence_number = 1;
      price_ticks = pos 100;
      quantity = 3;
      side = 1;
      ioc = 1;
    })
    ∷ modify_msg (record {
      order_id = 4;
      sequence_number = 2;
      new_price_ticks = pos 99;
      new_quantity = 6;
      side = 0;
    })
    ∷ cancel_msg (record { order_id = 4; sequence_number = 3 })
    ∷ cancel_msg (record { order_id = 4; sequence_number = 4 })
    ∷ []

messages-IsWorkload : IsWorkload messages
unfolding IsWorkload
messages-IsWorkload = (
  (omega arith, omega arith, omega arith),
  (λ e. omega arith, (tt, (tt, (tt, tt)))),
  (
    (omega arith, omega arith, omega arith),
    (tt, (tt, (tt, tt))),
    ((omega arith, omega arith, omega arith), tt, (omega arith, tt, (omega arith, tt, tt))),
  ),
)

engine_on_batch-Faithful_example :
    Faithful slot_library slot_rests messages
      (engine_init slot_library)
      (engine_on_batch slot_library messages (engine_init slot_library))
engine_on_batch-Faithful_example =
    engine_on_batch-Faithful slot_library slot_rests slot_library-IsBook messages
      messages-IsWorkload
