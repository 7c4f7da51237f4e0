-- ===== src/Tests/Liquibook.antt =====
-- A small library of orders of five at one price, and the Liquibook adapter over it.
use matching_engine_benchmar.Common.{
  ℕ, ◌+◌, ◌%◌, min, ◌≡◌, refl, Bool, false, not, List, [], ◌∷◌, map, arith, ltb, ◌==◌, keep, length,
  All, pos, ok,
}
use matching_engine_benchmar.Abi.{NewOrder, MeMsg, new_msg, cancel_msg, modify_msg}
use matching_engine_benchmar.Liquibook.{Library, FillEvent, Adapter, engine_init}
use matching_engine_benchmar.Liquibook.Handlers.{prebuild_messages, engine_on_batch}
use matching_engine_benchmar.Liquibook.Safe.{IsCounting}
use matching_engine_benchmar.Liquibook.Whole.{Run, engine_on_batch-Run}

-- An order rests when no other does, and otherwise fills the first one.
abbrev enter_small : ℕ → ℕ × List ℕ → List FillEvent × (ℕ × List ℕ)
enter_small lo (n, []) = ([], (n, lo ∷ []))
enter_small lo (n, p ∷ ps) = (record { taker = lo; maker = p; qty = 5; price = 100 } ∷ [], (n, ps))

-- The number of objects, which are their ids, and the ones that rest.
abbrev small_library : Library (ℕ × List ℕ)
small_library = record {
  fresh = (0, []);
  construct = λ buy price qty ioc b. (b.0 + 1, (b.0 + 1, b.1));
  order_id_ = λ b lo. min lo b.0;
  accepted = λ b lo. ltb 0 (length (keep (λ p. p == lo) b.1));
  open_qty = λ b lo. 5;
  is_buy = λ b lo. false;
  price = λ b lo. 100;
  add = λ lo ioc b. enter_small lo b;
  cancel = λ lo b. (b.0, keep (λ p. not (p == lo)) b.1);
  bids = λ b. [];
  asks = λ b. map (λ p. (100, p)) b.1;
  price_bits = 32;
}

small_library-IsCounting : IsCounting small_library (λ b. b.0)
small_library-IsCounting = record {
  fresh_last = refl;
  construct_id = λ buy price qty ioc b. (omega arith, refl);
  bounded = λ b lo. omega arith;
  add_last = counted;
  add_taker = takers;
  cancel_last = λ lo b. refl;
}
  where
    counted : (lo : ℕ) (ioc : Bool) (b : ℕ × List ℕ) → (enter_small lo b).1.0 ≡ b.0
    counted lo ioc (n, []) = refl
    counted lo ioc (n, p ∷ ps) = refl

    takers : (lo : ℕ) (ioc : Bool) (b : ℕ × List ℕ) → All (λ x. x.taker ≡ lo) (enter_small lo b).0
    takers lo ioc (n, []) = tt
    takers lo ioc (n, p ∷ ps) = (refl, tt)

abbrev order : ℕ → NewOrder
order id = record {
  order_id = id;
  sequence_number = id;
  price_ticks = pos 100;
  quantity = 5;
  side = id % 2;
  ioc = 0;
}

abbrev four_messages : List MeMsg
four_messages =
    new_msg (order 3)
    ∷ modify_msg (record {
      order_id = 3;
      sequence_number = 4;
      new_price_ticks = pos 100;
      new_quantity = 5;
      side = 1;
    })
    ∷ new_msg (order 6)
    ∷ cancel_msg (record { order_id = 3; sequence_number = 7 })
    ∷ []

engine_on_batch-Run_example :
    (s : Adapter (ℕ × List ℕ)) × (engine_on_batch small_library four_messages
        (prebuild_messages four_messages (engine_init small_library))
      ≡ ok s)
    × Run four_messages [] s.reports
engine_on_batch-Run_example =
    engine_on_batch-Run small_library (λ b. b.0) small_library-IsCounting four_messages
      (ground arith)
