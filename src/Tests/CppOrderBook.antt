-- ===== src/Tests/CppOrderBook.antt =====
-- A small library of orders that never match, and the CppOrderBook adapter over it.
use matching_engine_benchmar.Common.{
  ℕ, ◌-◌, ◌*◌, ◌/◌, ◌%◌, ◌^◌, ◌<◌, ◌≡◌, refl, inl, inr, Option, none, some, List, [], ◌∷◌, arith,
  ◌==◌, if◌then◌else◌, Bool-cases, All, pos, int64_min, int64_max,
}
use matching_engine_benchmar.Abi.{MeMsg, new_msg, cancel_msg, modify_msg}
use matching_engine_benchmar.CppOrderBook.{
  Library, ExecutionReport, created, trade, canceled, rejected, Adapter, engine_init,
}
use matching_engine_benchmar.CppOrderBook.Printed.{
  engine_query_best_bid, engine_query_best_ask, engine_query_depth_at,
}
use matching_engine_benchmar.CppOrderBook.Columns.{Level, print_book, quantity_at}
use matching_engine_benchmar.CppOrderBook.Levels.{best, queries-print_book}
use matching_engine_benchmar.CppOrderBook.Handlers.{engine_on_batch}
use matching_engine_benchmar.CppOrderBook.Store.{IsQuiet, IsTold}
use matching_engine_benchmar.CppOrderBook.Echo.{IsKeeper, Echoes, entries, engine_on_batch-Echoes}

-- Two bids against one ask.
abbrev bids : List Level
bids = record { price = 101; qty = 7 } ∷ record { price = 99; qty = 12 } ∷ []

abbrev asks : List Level
asks = record { price = 103; qty = 5 } ∷ []

-- The latest order that rests, which the next one fills.
abbrev fill_latest : ℕ → ℕ → ℕ → Option ℕ → List (ExecutionReport ℕ) × Option ℕ
fill_latest oid qty price none = (created ∷ [], some oid)
fill_latest oid qty price (some maker) = (created ∷ trade maker oid qty price ∷ [], none)

abbrev drop_latest : ℕ → Option ℕ → List (ExecutionReport ℕ) × Option ℕ
drop_latest oid none = (rejected ∷ [], none)
drop_latest oid (some maker) =
    if maker == oid then (canceled 3 ∷ [], none) else (rejected ∷ [], some maker)

abbrev latest_library : Library (Option ℕ) ℕ
latest_library = record {
  fresh = none;
  zero_decimal = 0;
  decimal = λ n. n * 100000000;
  to_int = λ d. d / 100000000;
  add_order = λ oid sell qty price ioc b. fill_latest oid qty price b;
  cancel_order = λ oid b. drop_latest oid b;
  to_string = λ b. print_book bids asks;
}

abbrev IsHeld : Option ℕ → Type 0
IsHeld none = Unit {0}
IsHeld (some maker) = maker < 2 ^ 64 - 1

latest_library-IsQuiet : (oid : ℕ) (b : Option ℕ) → All IsQuiet (drop_latest oid b).0
latest_library-IsQuiet oid none = (tt, tt)
latest_library-IsQuiet oid (some maker) = elim (Bool-cases (maker == oid)) [
  | inl e ↦ rw e (tt, tt)
  | inr e ↦ rw e (tt, tt)
]

latest_library-IsKeeper : IsKeeper latest_library IsHeld
latest_library-IsKeeper = record {
  added = λ oid sell qty price ioc b i h. added oid qty price b i h;
  cancelled = λ oid b i h. (latest_library-IsQuiet oid b, left oid b h);
}
  where
    added :
        (oid qty price : ℕ) (b : Option ℕ)
        → oid < 2 ^ 64 - 1
        → IsHeld b
        → All IsTold (fill_latest oid qty price b).0 × IsHeld (fill_latest oid qty price b).1
    added oid qty price none i h = ((tt, tt), i)
    added oid qty price (some maker) i h = ((tt, (h, tt)), tt)

    left : (oid : ℕ) (b : Option ℕ) → IsHeld b → IsHeld (drop_latest oid b).1
    left oid none h = tt
    left oid (some maker) h = elim (Bool-cases (maker == oid)) [ inl e ↦ rw e tt | inr e ↦ rw e h ]

abbrev start : Adapter (Option ℕ)
start = engine_init latest_library

queries-print_book_example :
    (engine_query_best_bid latest_library start ≡ best int64_min bids)
    × (engine_query_best_ask latest_library start ≡ best int64_max asks)
    × (engine_query_depth_at latest_library (pos 99) 0 start
        ≡ quantity_at (pos 99) (if 0 == 0 then bids else asks) % 2 ^ 64)
queries-print_book_example =
    queries-print_book latest_library start bids asks refl
      ((omega arith, omega arith), ((omega arith, omega arith), tt))
      ((omega arith, omega arith), tt) (pos 99) 0

start-IsHeld : IsHeld start.book
unfolding engine_init
start-IsHeld = tt

abbrev messages : List MeMsg
messages =
    new_msg (record {
      order_id = 4;
      sequence_number = 0;
      price_ticks = pos 103;
      quantity = 3;
      side = 1;
      ioc = 0;
    })
    ∷ modify_msg (record {
      order_id = 4;
      sequence_number = 1;
      new_price_ticks = pos 102;
      new_quantity = 3;
      side = 1;
    })
    ∷ cancel_msg (record { order_id = 4; sequence_number = 2 })
    ∷ cancel_msg (record { order_id = 4; sequence_number = 3 })
    ∷ []

engine_on_batch-Echoes_example :
    Echoes messages
      (entries start)
      start.reports
      (engine_on_batch latest_library messages start).reports
engine_on_batch-Echoes_example =
    engine_on_batch-Echoes latest_library IsHeld latest_library-IsKeeper messages start
      (omega arith, (omega arith, (omega arith, (omega arith, tt)))) start-IsHeld
