-- ===== src/CppOrderBook/Columns.antt =====
-- The text that the library prints of a book, and the columns of its lines as the CppOrderBook adapter
-- parses them.
use matching_engine_benchmar.Common.{
  ℕ, ◌+◌, ◌-◌, ◌*◌, ◌%◌, ◌^◌, ◌<◌, ◌≡◌, refl, sym, ap, ◌∙◌, ◌≢◌, true, Option, none, some, List, [],
  ◌∷◌, ◌++◌, arith, if◌then◌else◌, All, All-append, ℤ, pos, eqb_ℤ,
}
use matching_engine_benchmar.Bytes.{of_u64}
use matching_engine_benchmar.Text.Decimal.{
  dec, dec-digits, dec-avoids, dec-cons, parse_dec, parse_loop, parse_dec-dec, IsDigit,
}
use matching_engine_benchmar.Text.Separated.{Lacks}
use matching_engine_benchmar.Text.Search.{cut, strip_prefix, cut-append}
use matching_engine_benchmar.CppOrderBook.Printed.{
  separator, split_bid_ask, is_digit, digit_loop, parse_u64, parse_column, parse_bid_level,
  parse_ask_level,
}

-- A price level of one side.
pub record Level : Type 0 where
  pub price : ℕ
  pub qty : ℕ

-- The values that the C types hold.
abbrev pub IsPlain : Level → Type 0
IsPlain l = (l.price < 2 ^ 63) × (l.qty < 2 ^ 64)

-- How `toString` of the library prints a book, by the comment over its parser: a line for each level,
-- best first, until both sides are exhausted; a bid that is missing is three tabs, an ask is nothing.
unfoldable pub bid_column : Option Level → List ℕ
bid_column none = b'\t' ∷ b'\t' ∷ b'\t' ∷ []
bid_column (some l) = dec l.qty ++ b'\t' ∷ dec l.price

unfoldable pub ask_column : Option Level → List ℕ
ask_column none = []
ask_column (some l) = dec l.price ++ b'\t' ∷ dec l.qty

unfoldable pub print_line : Option Level → Option Level → List ℕ
print_line b a = bid_column b ++ (separator ++ ask_column a)

unfoldable pub rows : List Level → List Level → List (Option Level × Option Level)
rows [] [] = []
rows (b ∷ bids) [] = (some b, none) ∷ rows bids []
rows [] (a ∷ asks) = (none, some a) ∷ rows [] asks
rows (b ∷ bids) (a ∷ asks) = (some b, some a) ∷ rows bids asks

unfoldable pub print_rows : List (Option Level × Option Level) → List ℕ
print_rows [] = []
print_rows (r ∷ rs) = print_line r.0 r.1 ++ b'\n' ∷ print_rows rs

unfoldable pub print_book : List Level → List Level → List ℕ
print_book bids asks = print_rows (rows bids asks)

-- The whole quantity at a price.
unfoldable pub quantity_at : ℤ → List Level → ℕ
quantity_at price [] = 0
quantity_at price (l ∷ ls) = quantity_at price ls + (if eqb_ℤ (pos l.price) price then l.qty else 0)

digit_loop-digits :
    (v : ℕ) (cs : List ℕ) → All IsDigit cs → digit_loop (v % 2 ^ 64) cs ≡ parse_loop v cs % 2 ^ 64
unfolding digit_loop parse_loop
digit_loop-digits v [] h = refl
digit_loop-digits v (c ∷ cs) h =
    let digit : is_digit c ≡ true = ground arith in
    let same : (v % 2 ^ 64 * 10 + (c - b'0')) % 2 ^ 64 ≡ (v * 10 + (c - b'0')) % 2 ^ 64 =
      omega arith in
    rw (digit, same) (digit_loop-digits (v * 10 + (c - b'0')) cs h.1)

-- The number that a numeral stands for is parsed back.
parse_u64-dec : (n : ℕ) → n < 2 ^ 64 → parse_u64 (dec n) ≡ some n
unfolding parse_u64 parse_dec
parse_u64-dec n h =
    let (d, ds, e) = dec-cons n in
    let digits : All IsDigit (d ∷ ds) = rw e at (dec-digits n) in
    let value : parse_loop 0 (d ∷ ds) ≡ n = rw e at (parse_dec-dec n (omega arith)) in
    let digit : is_digit d ≡ true = ground arith in
    let parsed = digit_loop-digits 0 (d ∷ ds) digits in
    rw (e, digit) (ap some (parsed ∙ omega arith))

parse_column-dec :
    (a b : ℕ) → a < 2 ^ 64 → b < 2 ^ 64 → parse_column (dec a ++ b'\t' ∷ dec b) ≡ some (a, b)
unfolding parse_column
parse_column-dec a b h k =
    rw
      (
        parse_column,
        cut-append b'\t' [] (dec a) (dec b) (dec-avoids b'\t' a (λ d. omega arith)),
        parse_u64-dec a h,
        parse_u64-dec b k,
      )
      refl

-- The level of a column, as the parsers give it.
abbrev pub shown : Option Level → Option (ℤ × ℕ)
shown none = none
shown (some l) = some (pos l.price, l.qty)

abbrev pub OnLevel : Option Level → Type 0
OnLevel none = Unit {0}
OnLevel (some l) = IsPlain l

of_u64-pos : (p : ℕ) → p < 2 ^ 63 → of_u64 p ≡ pos p
unfolding of_u64
of_u64-pos p h = ground arith

parse_bid_level-blank : parse_bid_level (b'\t' ∷ b'\t' ∷ b'\t' ∷ []) ≡ none
unfolding parse_bid_level parse_column cut strip_prefix parse_u64
parse_bid_level-blank = refl

pub parse_bid_level-bid_column :
    (b : Option Level) → OnLevel b → parse_bid_level (bid_column b) ≡ shown b
unfolding parse_bid_level bid_column
parse_bid_level-bid_column none h = parse_bid_level-blank
parse_bid_level-bid_column (some l) h =
    rw
      (
        parse_bid_level,
        bid_column,
        parse_column-dec l.qty l.price h.1 (omega arith),
        of_u64-pos l.price h.0,
      )
      refl

parse_ask_level-blank : parse_ask_level [] ≡ none
unfolding parse_ask_level parse_column cut
parse_ask_level-blank = refl

pub parse_ask_level-ask_column :
    (a : Option Level) → OnLevel a → parse_ask_level (ask_column a) ≡ shown a
unfolding parse_ask_level ask_column
parse_ask_level-ask_column none h = parse_ask_level-blank
parse_ask_level-ask_column (some l) h =
    rw
      (
        parse_ask_level,
        ask_column,
        parse_column-dec l.price l.qty (omega arith) h.1,
        of_u64-pos l.price h.0,
      )
      refl

Lacks-bid_column : (c : ℕ) (b : Option Level) → ¬ IsDigit c → c ≢ b'\t' → Lacks c (bid_column b)
unfolding bid_column
Lacks-bid_column c none h k =
    let other = λ (e : b'\t' ≡ c). k (sym e) in (other, (other, (other, tt)))
Lacks-bid_column c (some l) h k =
    All-append _ (dec l.qty) (b'\t' ∷ dec l.price) (dec-avoids c l.qty h)
      (λ e. k (sym e), dec-avoids c l.price h)

Lacks-ask_column : (c : ℕ) (a : Option Level) → ¬ IsDigit c → c ≢ b'\t' → Lacks c (ask_column a)
unfolding ask_column
Lacks-ask_column c none h k = tt
Lacks-ask_column c (some l) h k =
    All-append _ (dec l.price) (b'\t' ∷ dec l.qty) (dec-avoids c l.price h)
      (λ e. k (sym e), dec-avoids c l.qty h)

pub split_bid_ask-print_line :
    (b a : Option Level) → split_bid_ask (print_line b a) ≡ (bid_column b, ask_column a)
unfolding split_bid_ask print_line
split_bid_ask-print_line b a =
    let found : cut separator (bid_column b ++ (separator ++ ask_column a))
        ≡ some (bid_column b, ask_column a) =
      cut-append b' ' (b'|' ∷ b' ' ∷ []) (bid_column b) (ask_column a)
        (Lacks-bid_column b' ' b (λ d. omega arith) (λ (e : b' ' ≡ b'\t'). omega arith)) in
    ap (λ o. elim o [ none ↦ ([], []) | some parts ↦ parts ]) found

pub Lacks-print_line : (b a : Option Level) → Lacks b'\n' (print_line b a)
unfolding print_line
Lacks-print_line b a =
    All-append _ (bid_column b) (separator ++ ask_column a) (Lacks-bid_column b'\n' b digit other)
      (space, (bar, (space, Lacks-ask_column b'\n' a digit other)))
  where
    digit : ¬ IsDigit b'\n'
    digit d = omega arith

    other : ◌≢◌ {A = ℕ} b'\n' b'\t'
    other e = omega arith

    space : ◌≢◌ {A = ℕ} b' ' b'\n'
    space e = omega arith

    bar : ◌≢◌ {A = ℕ} b'|' b'\n'
    bar e = omega arith
