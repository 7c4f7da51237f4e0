-- ===== src/Correctness/Parse.antt =====
-- The canonical text determines what it reports: a reader gets every line back.
use matching_engine_benchmar.Common.{
  ℕ, ◌^◌, ◌<◌, ◌≡◌, refl, ap, ◌∙◌, Option, none, some, List, [], ◌∷◌, map, arith, ◌==◌,
  if◌then◌else◌, All, IsInt64,
}
use matching_engine_benchmar.Text.Decimal.{
  parse_dec, parse_dec_ℤ, parse_dec-dec, parse_dec_ℤ-dec_ℤ, parse_dec-digit,
}
use matching_engine_benchmar.Text.Separated.{join, split, split-join, Lacks}
use matching_engine_benchmar.Sort.{stable_sort}
use matching_engine_benchmar.Correctness.{CollectedReport, report_lt, build_canonical_text}
use matching_engine_benchmar.Correctness.Line.{
  Shown, order_ack, trade, cancel_ack, modify_ack, cancel_reject, modify_reject, fields, text_of,
  all_shown, render-all_shown, Lacks-text_of, fields-Lack,
}

-- The values that the C types of the shown fields hold.
abbrev pub InRange : Shown → Type 0
InRange (order_ack seq side id price qty) =
    (seq < 2 ^ 64) × (side < 256) × (id < 2 ^ 64) × IsInt64 price × (qty < 2 ^ 32)
InRange (trade seq price qty maker taker) =
    (seq < 2 ^ 64) × IsInt64 price × (qty < 2 ^ 32) × (maker < 2 ^ 64) × (taker < 2 ^ 64)
InRange (cancel_ack seq side id price) =
    (seq < 2 ^ 64) × (side < 256) × (id < 2 ^ 64) × IsInt64 price
InRange (modify_ack seq side id price qty) =
    (seq < 2 ^ 64) × (side < 256) × (id < 2 ^ 64) × IsInt64 price × (qty < 2 ^ 32)
InRange (cancel_reject seq id) = (seq < 2 ^ 64) × (id < 2 ^ 64)
InRange (modify_reject seq id) = (seq < 2 ^ 64) × (id < 2 ^ 64)

-- A reader of one line, by the number of its fields and the type in the first.
parse_fields : List (List ℕ) → Option Shown
parse_fields (t ∷ a ∷ b ∷ []) =
    if parse_dec t == 4
    then some (cancel_reject (parse_dec a) (parse_dec b))
    else some (modify_reject (parse_dec a) (parse_dec b))
parse_fields (t ∷ a ∷ b ∷ c ∷ d ∷ []) =
    some (cancel_ack (parse_dec a) (parse_dec b) (parse_dec c) (parse_dec_ℤ d))
parse_fields (t ∷ a ∷ b ∷ c ∷ d ∷ e ∷ []) =
    if parse_dec t == 0
    then some (order_ack (parse_dec a) (parse_dec b) (parse_dec c) (parse_dec_ℤ d) (parse_dec e))
    else if parse_dec t == 3
    then some (modify_ack (parse_dec a) (parse_dec b) (parse_dec c) (parse_dec_ℤ d) (parse_dec e))
    else some (trade (parse_dec a) (parse_dec_ℤ b) (parse_dec c) (parse_dec d) (parse_dec e))
parse_fields _ = none

parse_line : List ℕ → Option Shown
unfolding parse_fields
parse_line l = parse_fields (split b',' l)

-- The reader of the whole text; the empty text has no line.
pub parse_text : List ℕ → List (Option Shown)
parse_text [] = []
parse_text (c ∷ cs) = map parse_line (split b'\n' (c ∷ cs))

parse_fields-fields : (s : Shown) → InRange s → parse_fields (fields s) ≡ some s
unfolding parse_fields fields
parse_fields-fields (order_ack seq side id price qty) h = ground (
  arith,
  parse_dec-digit b'0',
  parse_dec-dec seq,
  parse_dec-dec side,
  parse_dec-dec id,
  parse_dec_ℤ-dec_ℤ price,
  parse_dec-dec qty,
)
parse_fields-fields (trade seq price qty maker taker) h = ground (
  arith,
  parse_dec-digit b'1',
  parse_dec-dec seq,
  parse_dec_ℤ-dec_ℤ price,
  parse_dec-dec qty,
  parse_dec-dec maker,
  parse_dec-dec taker,
)
parse_fields-fields (cancel_ack seq side id price) h = ground (
  arith,
  parse_dec-digit b'2',
  parse_dec-dec seq,
  parse_dec-dec side,
  parse_dec-dec id,
  parse_dec_ℤ-dec_ℤ price,
)
parse_fields-fields (modify_ack seq side id price qty) h = ground (
  arith,
  parse_dec-digit b'3',
  parse_dec-dec seq,
  parse_dec-dec side,
  parse_dec-dec id,
  parse_dec_ℤ-dec_ℤ price,
  parse_dec-dec qty,
)
parse_fields-fields (cancel_reject seq id) h =
    ground (arith, parse_dec-digit b'4', parse_dec-dec seq, parse_dec-dec id)
parse_fields-fields (modify_reject seq id) h =
    ground (arith, parse_dec-digit b'5', parse_dec-dec seq, parse_dec-dec id)

fields-cons : (s : Shown) → (f : List ℕ) × (fs : List (List ℕ)) × (fields s ≡ f ∷ fs)
unfolding fields
fields-cons (order_ack seq side id price qty) = (_, _, refl)
fields-cons (trade seq price qty maker taker) = (_, _, refl)
fields-cons (cancel_ack seq side id price) = (_, _, refl)
fields-cons (modify_ack seq side id price qty) = (_, _, refl)
fields-cons (cancel_reject seq id) = (_, _, refl)
fields-cons (modify_reject seq id) = (_, _, refl)

split-text_of : (s : Shown) → split b',' (text_of s) ≡ fields s
unfolding text_of
split-text_of s =
    let (f, fs, e) = fields-cons s in
    let lacks : All (Lacks b',') (f ∷ fs) =
      rw e at (fields-Lack b',' s (omega arith) (omega arith)) in
    rw e (split-join b',' f fs lacks)

parse_line-text_of : (s : Shown) → InRange s → parse_line (text_of s) ≡ some s
unfolding parse_line
parse_line-text_of s h = rw (split-text_of s) (parse_fields-fields s h)

All-Lacks : (ss : List Shown) → All (Lacks b'\n') (map text_of ss)
All-Lacks [] = tt
All-Lacks (s ∷ ss) = (Lacks-text_of s, All-Lacks ss)

map-parse_line : (ss : List Shown) → All InRange ss → map parse_line (map text_of ss) ≡ map some ss
map-parse_line [] h = refl
map-parse_line (s ∷ ss) h = rw (parse_line-text_of s h.0, map-parse_line ss h.1)

text_of-cons : (s : Shown) → (c : ℕ) × (cs : List ℕ) × (text_of s ≡ c ∷ cs)
unfolding text_of fields join
text_of-cons (order_ack seq side id price qty) = (_, _, refl)
text_of-cons (trade seq price qty maker taker) = (_, _, refl)
text_of-cons (cancel_ack seq side id price) = (_, _, refl)
text_of-cons (modify_ack seq side id price qty) = (_, _, refl)
text_of-cons (cancel_reject seq id) = (_, _, refl)
text_of-cons (modify_reject seq id) = (_, _, refl)

parse_text-split :
    (s : Shown) (ls : List (List ℕ))
    → parse_text (join b'\n' (text_of s ∷ ls))
      ≡ map parse_line (split b'\n' (join b'\n' (text_of s ∷ ls)))
unfolding parse_text join
parse_text-split s [] = let (c, cs, e) = text_of-cons s in rw e
parse_text-split s (l ∷ ls) = let (c, cs, e) = text_of-cons s in rw e

parse_text-join :
    (ss : List Shown) → All InRange ss → parse_text (join b'\n' (map text_of ss)) ≡ map some ss
parse_text-join [] h = unfold parse_text join in refl
parse_text-join (s ∷ ss) h =
    parse_text-split s (map text_of ss)
    ∙ ap (map parse_line) (split-join b'\n' (text_of s) (map text_of ss) (All-Lacks (s ∷ ss)))
    ∙ map-parse_line (s ∷ ss) h

-- A reader recovers, line by line, what the sorted stream reports.
pub parse_text-build_canonical_text :
    (rs : List CollectedReport)
    → All InRange (all_shown (stable_sort report_lt rs))
    → parse_text (build_canonical_text rs).0 ≡ map some (all_shown (stable_sort report_lt rs))
unfolding build_canonical_text
parse_text-build_canonical_text rs h =
    rw (render-all_shown (stable_sort report_lt rs)) (parse_text-join _ h)
