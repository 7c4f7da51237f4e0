-- ===== src/Correctness.antt =====
-- The canonical report text and its hash: src/correctness.cpp, and `CollectedReport` of
-- src/harness.h. SHA-256 is third-party code, a parameter.
pub mod Order
pub mod Line
pub mod Parse
pub mod Equal
use matching_engine_benchmar.Common.{
  ℕ, ◌+◌, Bool, true, false, not, Option, none, some, List, [], ◌∷◌, ◌++◌, ltb, ◌==◌, if◌then◌else◌,
  ℤ,
}
use matching_engine_benchmar.Abi.{
  me_order_ack, me_trade, me_cancel_ack, me_modify_ack, me_cancel_reject, me_modify_reject,
}
use matching_engine_benchmar.Sort.{stable_sort}
use matching_engine_benchmar.Text.Decimal.{dec, dec_ℤ}
use matching_engine_benchmar.Text.Separated.{join}
use matching_engine_benchmar.Workload.{Stream, Disk, fwrite}

pub record CollectedReport : Type 0 where
  pub type : ℕ
  pub seq : ℕ
  pub side : ℕ
  pub order_id : ℕ
  pub price_ticks : ℤ
  pub quantity : ℕ
  pub maker_order_id : ℕ
  pub taker_order_id : ℕ

-- The comparator of the sort: by sequence number, then by type.
abbrev pub report_lt : CollectedReport → CollectedReport → Bool
report_lt a b = if not (a.seq == b.seq) then ltb a.seq b.seq else ltb a.type b.type

-- One `snprintf` format: its fields, separated by commas.
abbrev pub comma_line : List (List ℕ) → Option (List ℕ)
comma_line fields = some (join b',' fields)

-- The line of a report, by its type; `none` is the `continue` on an unknown type.
unfoldable pub line : CollectedReport → Option (List ℕ)
line r =
    if r.type == me_order_ack
    then comma_line (
        (b'0' ∷ [])
        ∷ dec r.seq
        ∷ dec r.side
        ∷ dec r.order_id
        ∷ dec_ℤ r.price_ticks
        ∷ dec r.quantity
        ∷ [])
    else if r.type == me_trade
    then comma_line (
        (b'1' ∷ [])
        ∷ dec r.seq
        ∷ dec_ℤ r.price_ticks
        ∷ dec r.quantity
        ∷ dec r.maker_order_id
        ∷ dec r.taker_order_id
        ∷ [])
    else if r.type == me_cancel_ack
    then comma_line
        ((b'2' ∷ []) ∷ dec r.seq ∷ dec r.side ∷ dec r.order_id ∷ dec_ℤ r.price_ticks ∷ [])
    else if r.type == me_modify_ack
    then comma_line (
        (b'3' ∷ [])
        ∷ dec r.seq
        ∷ dec r.side
        ∷ dec r.order_id
        ∷ dec_ℤ r.price_ticks
        ∷ dec r.quantity
        ∷ [])
    else if r.type == me_cancel_reject
    then comma_line ((b'4' ∷ []) ∷ dec r.seq ∷ dec r.order_id ∷ [])
    else if r.type == me_modify_reject
    then comma_line ((b'5' ∷ []) ∷ dec r.seq ∷ dec r.order_id ∷ [])
    else none

-- What one round of the loop appends, after the separator unless it is the first line.
abbrev append_line : Bool → List ℕ → List ℕ → List ℕ
append_line first text l = if first then text ++ l else (text ++ b'\n' ∷ []) ++ l

-- The loop over the sorted reports, with its variables `first` and `text`.
unfoldable pub render : Bool → List ℕ → List CollectedReport → List ℕ
render first text [] = text
render first text (r ∷ rs) = elim (line r) [
  | none ↦ render first text rs
  | some l ↦ render false (append_line first text l) rs
]

-- `build_canonical_text`: the text, and the vector that it leaves sorted.
unfoldable pub build_canonical_text : List CollectedReport → List ℕ × List CollectedReport
build_canonical_text reports =
    let sorted = stable_sort report_lt reports in (render true [] sorted, sorted)

-- `compute_canonical_hash`, under the hash function of third_party/sha256.c.
unfoldable pub compute_canonical_hash :
    (List ℕ → List ℕ) → List CollectedReport → List ℕ × List CollectedReport
compute_canonical_hash sha256_hex reports =
    let (text, sorted) = build_canonical_text reports in (sha256_hex text, sorted)

-- `write_canonical_output`: its result and the file that it leaves. `fclose` is not looked at.
unfoldable pub write_canonical_output : Disk → List CollectedReport → Bool × Option (List ℕ)
write_canonical_output disk reports =
    let text = (build_canonical_text reports).0 in
    let (good, f) = fwrite text (record { written = []; room = disk.space }) in
    if disk.opens then (good, some f.written) else (false, none)
