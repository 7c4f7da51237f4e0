-- ===== src/Tests/Verdict.antt =====
-- A file of published hashes, and the verdict on two streams.
use matching_engine_benchmar.Common.{
  ℕ, ◌≡◌, refl, true, ◌&&◌, Option, none, some, List, [], ◌∷◌, arith, if◌then◌else◌, replicate, pos,
}
use matching_engine_benchmar.Correctness.{CollectedReport}
use matching_engine_benchmar.Verdict.{eq_bytes, is_hash, all_hex, hash_status, pass, fail, Checks}
use matching_engine_benchmar.Verdict.Write.{Outcomes, read_file, write_reference}
use matching_engine_benchmar.Verdict.Tokens.{IsToken}
use matching_engine_benchmar.Verdict.Merged.{hash_status-write_reference}

-- A rejected modify; the text does not show the quantity.
abbrev rejected : ℕ → List CollectedReport
rejected quantity =
    record {
      type = 5;
      seq = 3;
      side = 0;
      order_id = 1;
      price_ticks = pos 0;
      quantity = quantity;
      maker_order_id = 0;
      taker_order_id = 0;
    }
    ∷ []

abbrev rejected_text : List ℕ
rejected_text = b'5' ∷ b',' ∷ b'3' ∷ b',' ∷ b'1' ∷ []

abbrev some_hash : List ℕ
some_hash = replicate 64 b'a'

abbrev other_hash : List ℕ
other_hash = replicate 64 b'b'

-- A hash function: 64 digits by whether the text is the one of the rejected modify.
marked : List ℕ → List ℕ
marked text = if eq_bytes text rejected_text then some_hash else other_hash

abbrev hash_lines : List (Option (List ℕ × List ℕ))
hash_lines =
    none
    ∷ some (b'a' ∷ [], b'n' ∷ [])
    ∷ some (some_hash, b'n' ∷ [])
    ∷ some (some_hash, b's' ∷ [])
    ∷ []

abbrev all_good : Checks
all_good = record {
  audit_ran = true;
  audit_passed = true;
  affinity_ok = true;
  prestart_book_empty = true;
  prebuild_time_ok = true;
  report_buffer_ok = true;
  probe_time_ok = true;
  canonical_output_ok = true;
}

some_hash-is_hash : is_hash some_hash ≡ true
unfolding is_hash all_hex
some_hash-is_hash = refl

-- The tag `n`.
abbrev tag : List ℕ
tag = b'n' ∷ []

tag-IsToken : IsToken tag
tag-IsToken = record { is_some = refl; is_short = omega arith; is_plain = (refl, tt) }

abbrev all_well : Outcomes
all_well = record { opens = true; flushes = true; renames = true }

hash_status-write_reference_example :
    hash_status (read_file (write_reference all_well tag some_hash none).0) tag some_hash ≡ (
      if all_well.opens && all_well.flushes && all_well.renames && eq_bytes tag tag
      then (if eq_bytes some_hash some_hash then pass else fail)
      else hash_status (read_file none) tag some_hash)
hash_status-write_reference_example =
    hash_status-write_reference all_well tag some_hash none tag some_hash tag-IsToken
      some_hash-is_hash
