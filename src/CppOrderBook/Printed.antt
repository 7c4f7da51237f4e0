-- ===== src/CppOrderBook/Printed.antt =====
-- The book queries of additional_references/cpp_orderbook_adapter/cpp_orderbook_adapter.cpp, which parse
-- the text that the library prints of its book.
use matching_engine_benchmar.Common.{
  ℕ, zero, suc, ◌+◌, ◌-◌, ◌*◌, ◌%◌, ◌^◌, Bool, ◌&&◌, Option, none, some, List, [], ◌∷◌, leb, ◌==◌,
  if◌then◌else◌, length, ℤ, eqb_ℤ, int64_min, int64_max,
}
use matching_engine_benchmar.Bytes.{of_u64}
use matching_engine_benchmar.Text.Search.{cut}
use matching_engine_benchmar.CppOrderBook.{Library, Adapter}

abbrev pub separator : List ℕ
separator = b' ' ∷ b'|' ∷ b' ' ∷ []

abbrev pub tab : List ℕ
tab = b'\t' ∷ []

abbrev pub newline : List ℕ
newline = b'\n' ∷ []

-- `splitBidAsk`.
unfoldable pub split_bid_ask : List ℕ → List ℕ × List ℕ
split_bid_ask line = elim (cut separator line) [ none ↦ ([], []) | some parts ↦ parts ]

abbrev pub is_digit : ℕ → Bool
is_digit c = leb b'0' c && leb c b'9'

-- The loop of `parseU64`, which stops at the first character that is no digit.
unfoldable pub digit_loop : ℕ → List ℕ → ℕ
digit_loop v [] = v
digit_loop v (c ∷ cs) =
    let more = digit_loop ((v * 10 + (c - b'0')) % 2 ^ 64) cs in if is_digit c then more else v

unfoldable pub parse_u64 : List ℕ → Option ℕ
parse_u64 [] = none
parse_u64 (c ∷ cs) = if is_digit c then some (digit_loop 0 (c ∷ cs)) else none

-- The two numbers of a column.
unfoldable pub parse_column : List ℕ → Option (ℕ × ℕ)
parse_column part = elim (cut tab part) [
  | none ↦ none
  | some (front, rest) ↦ elim (parse_u64 front) [
    | none ↦ none
    | some a ↦ elim (parse_u64 rest) [ none ↦ none | some b ↦ some (a, b) ]
  ]
]

-- A price and a quantity.
unfoldable pub parse_bid_level : List ℕ → Option (ℤ × ℕ)
parse_bid_level part = elim (parse_column part) [
  | none ↦ none
  | some (qty, price) ↦ some (of_u64 price, qty)
]

unfoldable pub parse_ask_level : List ℕ → Option (ℤ × ℕ)
parse_ask_level part = elim (parse_column part) [
  | none ↦ none
  | some (price, qty) ↦ some (of_u64 price, qty)
]

-- The text up to the first line break.
unfoldable pub first_line : List ℕ → List ℕ
first_line dump = elim (cut newline dump) [ none ↦ dump | some parts ↦ parts.0 ]

-- What a line adds to the depth.
unfoldable pub add_line : ℤ → ℕ → List ℕ → ℕ → ℕ
add_line price side line total =
    let (bid_part, ask_part) = split_bid_ask line in
    elim (if side == 0 then parse_bid_level bid_part else parse_ask_level ask_part) [
      | none ↦ total
      | some (p, q) ↦ if eqb_ℤ p price then (total + q) % 2 ^ 64 else total
    ]

-- The loop over the lines, on fuel.
unfoldable pub depth_loop : ℕ → ℤ → ℕ → ℕ → List ℕ → ℕ
depth_loop zero price side total text = total
depth_loop (suc fuel) price side total [] = total
depth_loop (suc fuel) price side total (c ∷ cs) = elim (cut newline (c ∷ cs)) [
  | none ↦ add_line price side (c ∷ cs) total
  | some (line, rest) ↦ depth_loop fuel price side (add_line price side line total) rest
]

module _ {B D : Type 0} (lib : Library B D) where
  unfoldable pub engine_query_best_bid : Adapter B → ℤ
  engine_query_best_bid s =
      let (bid_part, ask_part) = split_bid_ask (first_line (lib.to_string s.book)) in
      elim (parse_bid_level bid_part) [ none ↦ int64_min | some (price, qty) ↦ price ]

  unfoldable pub engine_query_best_ask : Adapter B → ℤ
  engine_query_best_ask s =
      let (bid_part, ask_part) = split_bid_ask (first_line (lib.to_string s.book)) in
      elim (parse_ask_level ask_part) [ none ↦ int64_max | some (price, qty) ↦ price ]

  -- Each round consumes a character, so the length of the text is enough fuel.
  unfoldable pub engine_query_depth_at : ℤ → ℕ → Adapter B → ℕ
  engine_query_depth_at price side s =
      let dump = lib.to_string s.book in depth_loop (length dump) price side 0 dump
