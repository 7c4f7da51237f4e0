-- ===== src/CppOrderBook/Levels.antt =====
-- The queries of the CppOrderBook adapter recover the levels of the book from its printed text.
use matching_engine_benchmar.Common.{
  ℕ, zero, suc, ◌+◌, ◌%◌, ◌^◌, ◌≤◌, ◌≡◌, refl, ap, ◌∙◌, inl, inr, false, Option, none, some, List,
  [], ◌∷◌, ◌++◌, arith, ◌==◌, if◌then◌else◌, Bool-cases, length, length-append, All, ℤ, pos, eqb_ℤ,
  int64_min, int64_max,
}
use matching_engine_benchmar.Text.Separated.{Lacks}
use matching_engine_benchmar.Text.Search.{cut, cut-append}
use matching_engine_benchmar.CppOrderBook.{Library, Adapter}
use matching_engine_benchmar.CppOrderBook.Printed.{
  split_bid_ask, parse_column, parse_bid_level, parse_ask_level, first_line, add_line, depth_loop,
  engine_query_best_bid, engine_query_best_ask, engine_query_depth_at,
}
use matching_engine_benchmar.CppOrderBook.Columns.{
  Level, IsPlain, print_line, rows, print_rows, print_book, quantity_at, shown, OnLevel,
  parse_bid_level-bid_column, parse_ask_level-ask_column, split_bid_ask-print_line,
  Lacks-print_line,
}

first_line-print_line :
    (b a : Option Level) (rest : List ℕ)
    → first_line (print_line b a ++ b'\n' ∷ rest) ≡ print_line b a
unfolding first_line
first_line-print_line b a rest =
    rw (first_line, cut-append b'\n' [] (print_line b a) rest (Lacks-print_line b a)) refl

depth_loop-line :
    (fuel : ℕ) (price : ℤ) (side total : ℕ) (line rest : List ℕ)
    → Lacks b'\n' line
    → depth_loop (suc fuel) price side total (line ++ b'\n' ∷ rest)
      ≡ depth_loop fuel price side (add_line price side line total) rest
unfolding depth_loop
depth_loop-line fuel price side total [] rest h =
    rw (depth_loop, cut-append b'\n' [] [] rest h) refl
depth_loop-line fuel price side total (c ∷ cs) rest h =
    rw (depth_loop, cut-append b'\n' [] (c ∷ cs) rest h) refl

-- The column of a side, and what it has at a price.
abbrev column : ℕ → Option Level × Option Level → Option Level
column side r = if side == 0 then r.0 else r.1

abbrev qty_at : ℤ → Option Level → ℕ
qty_at price none = 0
qty_at price (some l) = if eqb_ℤ (pos l.price) price then l.qty else 0

rows_quantity : ℤ → ℕ → List (Option Level × Option Level) → ℕ
rows_quantity price side [] = 0
rows_quantity price side (r ∷ rs) = rows_quantity price side rs + qty_at price (column side r)

abbrev OnRow : Option Level × Option Level → Type 0
OnRow r = OnLevel r.0 × OnLevel r.1

add_line-print_line :
    (price : ℤ) (side t : ℕ) (r : Option Level × Option Level)
    → OnRow r
    → add_line price side (print_line r.0 r.1) (t % 2 ^ 64)
      ≡ (t + qty_at price (column side r)) % 2 ^ 64
unfolding add_line
add_line-print_line price side t (b, a) h =
    rw
      (
        add_line,
        split_bid_ask-print_line b a,
        parse_bid_level-bid_column b h.0,
        parse_ask_level-ask_column a h.1,
      )
      (elim (Bool-cases (side == 0)) [ inl e ↦ rw e (shown-adds b) | inr e ↦ rw e (shown-adds a) ])
  where
    shown-adds :
        (l : Option Level)
        → elim (shown l) [
          | none ↦ t % 2 ^ 64
          | some (p, q) ↦ if eqb_ℤ p price then (t % 2 ^ 64 + q) % 2 ^ 64 else t % 2 ^ 64
        ]
          ≡ (t + qty_at price l) % 2 ^ 64
    shown-adds none = omega arith
    shown-adds (some l) = elim (Bool-cases (eqb_ℤ (pos l.price) price)) [
      | inl e ↦ rw e (omega arith)
      | inr e ↦ rw e (omega arith)
    ]

-- A round for each row is enough.
depth_loop-print_rows :
    (fuel : ℕ) (price : ℤ) (side t : ℕ) (rs : List (Option Level × Option Level))
    → length rs ≤ fuel
    → All OnRow rs
    → depth_loop fuel price side (t % 2 ^ 64) (print_rows rs)
      ≡ (t + rows_quantity price side rs) % 2 ^ 64
unfolding print_rows rows_quantity
depth_loop-print_rows zero price side t [] h k = unfold depth_loop in omega arith
depth_loop-print_rows (suc fuel) price side t [] h k = unfold depth_loop in omega arith
depth_loop-print_rows zero price side t (r ∷ rs) h k = absurd (omega arith)
depth_loop-print_rows (suc fuel) price side t (r ∷ rs) h k =
    let line = print_line r.0 r.1 in
    let step =
      depth_loop-line fuel price side (t % 2 ^ 64) line (print_rows rs)
        (Lacks-print_line r.0 r.1) in
    let rest =
      depth_loop-print_rows fuel price side (t + qty_at price (column side r)) rs (omega arith)
        k.1 in
    step
    ∙ ap (λ total. depth_loop fuel price side total (print_rows rs))
        (add_line-print_line price side t r k.0)
    ∙ rest
    ∙ ap (λ n. n % 2 ^ 64) (omega arith)

rows_quantity-bids :
    (price : ℤ) (bids asks : List Level)
    → rows_quantity price 0 (rows bids asks) ≡ quantity_at price bids
unfolding rows rows_quantity quantity_at
rows_quantity-bids price [] [] = refl
rows_quantity-bids price (b ∷ bids) [] =
    ap (λ n. n + qty_at price (some b)) (rows_quantity-bids price bids [])
rows_quantity-bids price [] (a ∷ asks) = omega (arith, rows_quantity-bids price [] asks)
rows_quantity-bids price (b ∷ bids) (a ∷ asks) =
    ap (λ n. n + qty_at price (some b)) (rows_quantity-bids price bids asks)

rows_quantity-asks :
    (price : ℤ) (side : ℕ) (bids asks : List Level)
    → (side == 0) ≡ false
    → rows_quantity price side (rows bids asks) ≡ quantity_at price asks
unfolding rows rows_quantity quantity_at
rows_quantity-asks price side [] [] h = refl
rows_quantity-asks price side (b ∷ bids) [] h =
    rw h (omega (arith, rows_quantity-asks price side bids [] h))
rows_quantity-asks price side [] (a ∷ asks) h =
    rw h (ap (λ n. n + qty_at price (some a)) (rows_quantity-asks price side [] asks h))
rows_quantity-asks price side (b ∷ bids) (a ∷ asks) h =
    rw h (ap (λ n. n + qty_at price (some a)) (rows_quantity-asks price side bids asks h))

rows-OnRow :
    (bids asks : List Level) → All IsPlain bids → All IsPlain asks → All OnRow (rows bids asks)
unfolding rows
rows-OnRow [] [] h k = tt
rows-OnRow (b ∷ bids) [] h k = ((h.0, tt), rows-OnRow bids [] h.1 k)
rows-OnRow [] (a ∷ asks) h k = ((tt, k.0), rows-OnRow [] asks h k.1)
rows-OnRow (b ∷ bids) (a ∷ asks) h k = ((h.0, k.0), rows-OnRow bids asks h.1 k.1)

length-print_rows : (rs : List (Option Level × Option Level)) → length rs ≤ length (print_rows rs)
unfolding print_rows
length-print_rows [] = omega arith
length-print_rows (r ∷ rs) =
    omega (arith, length-append (print_line r.0 r.1) (b'\n' ∷ print_rows rs), length-print_rows rs)

-- The first row of a book.
abbrev first : List Level → Option Level
first [] = none
first (l ∷ ls) = some l

first_line-empty :
    (parse_bid_level (split_bid_ask (first_line [])).0 ≡ none)
    × (parse_ask_level (split_bid_ask (first_line [])).1 ≡ none)
unfolding first_line split_bid_ask parse_bid_level parse_ask_level parse_column cut
first_line-empty = (refl, refl)

first_line-row :
    (b a : Option Level) (rest : List ℕ)
    → OnRow (b, a)
    → (parse_bid_level (split_bid_ask (first_line (print_line b a ++ b'\n' ∷ rest))).0 ≡ shown b)
      × (parse_ask_level (split_bid_ask (first_line (print_line b a ++ b'\n' ∷ rest))).1 ≡ shown a)
first_line-row b a rest h =
    rw (first_line-print_line b a rest, split_bid_ask-print_line b a)
      (parse_bid_level-bid_column b h.0, parse_ask_level-ask_column a h.1)

-- What the first line of the text gives.
pub first_line-print_book :
    (bids asks : List Level)
    → All IsPlain bids
    → All IsPlain asks
    → (parse_bid_level (split_bid_ask (first_line (print_book bids asks))).0 ≡ shown (first bids))
      × (parse_ask_level (split_bid_ask (first_line (print_book bids asks))).1 ≡ shown (first asks))
unfolding print_book print_rows rows
first_line-print_book [] [] h k = first_line-empty
first_line-print_book (b ∷ bids) [] h k =
    first_line-row (some b) none (print_rows (rows bids [])) (h.0, tt)
first_line-print_book [] (a ∷ asks) h k =
    first_line-row none (some a) (print_rows (rows [] asks)) (tt, k.0)
first_line-print_book (b ∷ bids) (a ∷ asks) h k =
    first_line-row (some b) (some a) (print_rows (rows bids asks)) (h.0, k.0)

-- The best price of a side, and what an empty side answers.
pub best : ℤ → List Level → ℤ
best empty [] = empty
best empty (l ∷ ls) = pos l.price

shown-best :
    (empty : ℤ) (ls : List Level)
    → elim (shown (first ls)) [ none ↦ empty | some (price, qty) ↦ price ] ≡ best empty ls
unfolding best
shown-best empty [] = refl
shown-best empty (l ∷ ls) = refl

depth_loop-print_book :
    (price : ℤ) (side : ℕ) (bids asks : List Level)
    → All IsPlain bids
    → All IsPlain asks
    → depth_loop (length (print_book bids asks)) price side 0 (print_book bids asks)
      ≡ quantity_at price (if side == 0 then bids else asks) % 2 ^ 64
unfolding print_book
depth_loop-print_book price side bids asks h k =
    let rs = rows bids asks in
    let enough = length-print_rows rs in
    let sum =
      depth_loop-print_rows (length (print_rows rs)) price side 0 rs enough
        (rows-OnRow bids asks h k) in
    elim (Bool-cases (side == 0)) [
      | inl e ↦
          let zero_side : side ≡ 0 = ground arith in
          rw (e, zero_side)
            (rw zero_side at sum
              ∙ ap (λ n. n % 2 ^ 64) (omega (arith, rows_quantity-bids price bids asks)))
      | inr e ↦
          rw e
            (sum ∙ ap (λ n. n % 2 ^ 64) (omega (arith, rows_quantity-asks price side bids asks e)))
    ]

-- Where the library prints its book as documented, the queries of the CppOrderBook adapter give its best
-- prices, or the extreme ones where a side is empty, and at a price the whole quantity of a side, as a
-- number of 64 bits; for prices below 2 ^ 63 and quantities below 2 ^ 64.
pub queries-print_book :
    {B D : Type 0} (lib : Library B D) (s : Adapter B) (bids asks : List Level)
    → lib.to_string s.book ≡ print_book bids asks
    → All IsPlain bids
    → All IsPlain asks
    → (price : ℤ) (side : ℕ)
    → (engine_query_best_bid lib s ≡ best int64_min bids)
      × (engine_query_best_ask lib s ≡ best int64_max asks)
      × (engine_query_depth_at lib price side s
          ≡ quantity_at price (if side == 0 then bids else asks) % 2 ^ 64)
unfolding engine_query_best_bid engine_query_best_ask engine_query_depth_at
queries-print_book lib s bids asks e h k price side =
    let (bid, ask) = first_line-print_book bids asks h k in
    let bid_of = λ (t : List ℕ). parse_bid_level (split_bid_ask (first_line t)).0 in
    let ask_of = λ (t : List ℕ). parse_ask_level (split_bid_ask (first_line t)).1 in
    (
      ap (λ l. elim l [ none ↦ int64_min | some (p, q) ↦ p ]) (ap bid_of e ∙ bid)
          ∙ shown-best int64_min bids,
      ap (λ l. elim l [ none ↦ int64_max | some (p, q) ↦ p ]) (ap ask_of e ∙ ask)
          ∙ shown-best int64_max asks,
      ap (λ t. depth_loop (length t) price side 0 t) e
          ∙ depth_loop-print_book price side bids asks h k,
    )
