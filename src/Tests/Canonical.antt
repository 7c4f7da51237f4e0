-- ===== src/Tests/Canonical.antt =====
-- Two report streams that an engine may emit for the same two messages.
use matching_engine_benchmar.Common.{
  ℕ, ◌<◌, ◌≡◌, refl, ◌↔◌, some, List, [], ◌∷◌, map, arith, keep, length, All, pos,
}
use mathlib.Core.List.{Perm}
use matching_engine_benchmar.Sort.{stable_sort}
use matching_engine_benchmar.Text.Decimal.{dec, dec_ℤ}
use matching_engine_benchmar.Text.Separated.{join}
use matching_engine_benchmar.Correctness.{
  CollectedReport, report_lt, line, build_canonical_text, compute_canonical_hash,
}
use matching_engine_benchmar.Correctness.Order.{
  of_key, IsOrdered, compute_canonical_hash_interleaving, build_canonical_text-IsOrdered,
}
use matching_engine_benchmar.Correctness.Line.{all_shown, length-line-lt, shown}
use matching_engine_benchmar.Correctness.Parse.{
  parse_text, parse_text-build_canonical_text, InRange,
}
use matching_engine_benchmar.Correctness.Equal.{ReportFits, SameReports, build_canonical_text_iff}

abbrev report : ℕ → ℕ → ℕ → CollectedReport
report t s id = record {
  type = t;
  seq = s;
  side = 1;
  order_id = id;
  price_ticks = pos 33504;
  quantity = 7;
  maker_order_id = 4;
  taker_order_id = 5;
}

-- The trades before the acknowledgement, and the other way round.
abbrev trades_first : List CollectedReport
trades_first = report 1 12 8 ∷ report 1 12 9 ∷ report 0 12 5 ∷ report 2 3 1 ∷ []

abbrev ack_first : List CollectedReport
ack_first = report 2 3 1 ∷ report 0 12 5 ∷ report 1 12 8 ∷ report 1 12 9 ∷ []

same_streams : (s t : ℕ) → keep (of_key s t) trades_first ≡ keep (of_key s t) ack_first
same_streams s t = ground arith

trades_first-fit : All ReportFits trades_first
trades_first-fit = omega arith

ack_first-fit : All ReportFits ack_first
ack_first-fit = omega arith

abbrev cancel_text : List ℕ
cancel_text =
    b'2' ∷ b',' ∷ b'3' ∷ b',' ∷ b'1' ∷ b',' ∷ b'1' ∷ b',' ∷ b'3' ∷ b'3' ∷ b'5' ∷ b'0' ∷ b'4' ∷ []

cancel_line : line (report 2 3 1) ≡ some cancel_text
unfolding line dec dec_ℤ join
cancel_line = refl

compute_canonical_hash_interleaving_example :
    compute_canonical_hash (λ text. text) trades_first
    ≡ compute_canonical_hash (λ text. text) ack_first
compute_canonical_hash_interleaving_example =
    compute_canonical_hash_interleaving (λ text. text) trades_first ack_first same_streams

build_canonical_text-IsOrdered_example :
    Perm (build_canonical_text trades_first).1 trades_first
    × IsOrdered (build_canonical_text trades_first).1
    × ((s t : ℕ)
        → keep (of_key s t) (build_canonical_text trades_first).1 ≡ keep (of_key s t) trades_first)
build_canonical_text-IsOrdered_example = build_canonical_text-IsOrdered trades_first

length-line-lt_example : length cancel_text < 160
length-line-lt_example = length-line-lt (report 2 3 1) cancel_text cancel_line

build_canonical_text_iff_example :
    ((build_canonical_text trades_first).0 ≡ (build_canonical_text ack_first).0)
    ↔ SameReports trades_first ack_first
build_canonical_text_iff_example =
    build_canonical_text_iff trades_first ack_first trades_first-fit ack_first-fit

sorted-InRange : All InRange (all_shown (stable_sort report_lt trades_first))
unfolding stable_sort shown
sorted-InRange = omega arith

parse_text-build_canonical_text_example :
    parse_text (build_canonical_text trades_first).0
    ≡ map some (all_shown (stable_sort report_lt trades_first))
parse_text-build_canonical_text_example =
    parse_text-build_canonical_text trades_first sorted-InRange
