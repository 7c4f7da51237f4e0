-- ===== src/Tests/Generator.antt =====
-- A small source of draws, and the workload of two orders that it gives.
use Prim.Native.String.{String}
use text.Mathlib.Text.{◌==◌ as str_eq}
use matching_engine_benchmar.Common.{
  ℕ, ◌+◌, ◌-◌, ◌%◌, ◌^◌, ◌≤◌, ◌<◌, min, ◌≡◌, refl, ◌≢◌, true, some, List, [], ◌∷◌, arith, ltb,
  if◌then◌else◌, pos, ok,
}
use matching_engine_benchmar.Workload.{
  Disk, write_binary, load_workload, write_records, header_writes, record_writes, fwrite,
  fwrite_all,
}
use matching_engine_benchmar.Bytes.{le_bytes, to_u64}
use matching_engine_benchmar.Workload.RoundTrip.{all_loaded}
use matching_engine_benchmar.Sort.{stable_sort, IsSorted}
use matching_engine_benchmar.Generator.{
  Draws, uniform_int, sample, place, place_loop, iota, swap_at, shuffle_loop, modify_stage,
  dup_cancel_stage, cancel_stage, stale_modify_stage, expand, expand_loop, timeline, generate,
  ts_lt,
}
use matching_engine_benchmar.Generator.Shuffle.{IsScaled, count, count-shuffled}
use matching_engine_benchmar.Generator.Timeline.{generate-in_order}
use matching_engine_benchmar.Generator.Lives.{Phase, unsent, follow, of_order, generate-follows}
use matching_engine_benchmar.Generator.Accepted.{IsPriced}
use matching_engine_benchmar.Generator.Main.{
  Scenario, Exit, written, find_scenario, number_or, generator_main, generator_main-written,
}

-- Draws that walk through the numbers.
abbrev draws : Draws ℕ ℕ
draws = record {
  below = λ k r. (ltb (r % 100) k, r + 37);
  scaled = λ n r. (min (r % 50) (n - 1), r + 1);
  bucket = λ r. (r % 900, r + 3);
  lifetime = λ lvl r. (lvl + r % 50, r + 1);
  start_mid = 0;
  move = λ m r. (m + r, r + 2);
  mid_ticks = λ m. pos (33504 + m % 1000);
}

draws-IsScaled : IsScaled draws
draws-IsScaled n r h = omega arith

draws-IsPriced : IsPriced draws
draws-IsPriced m = omega arith

generate-in_order_example :
    (generate draws 3 5 ≡ timeline draws 3 5) × IsSorted ts_lt (timeline draws 3 5)
generate-in_order_example = generate-in_order draws 3 5

generate-follows_example :
    (q : Phase) × (follow unsent (of_order 2 (generate draws 3 5)) ≡ some q) × (q ≢ unsent)
generate-follows_example = generate-follows draws draws-IsScaled 3 1 5 (omega arith) (omega arith)

count-shuffled_example : count 1 (shuffle_loop draws 2 (iota 3 0) 5).0 ≡ 1
count-shuffled_example = count-shuffled draws draws-IsScaled 1 3 5 (omega arith) (omega arith)

abbrev roomy : Disk
roomy = record { opens = true; space = 1000; closes = true }

abbrev numeral : String → ℕ
numeral text = if str_eq text "2" then 2 else 5

abbrev arguments : List String
arguments = "2" ∷ "5" ∷ []

abbrev file_of : Exit → List ℕ
file_of (written bs) = bs
file_of e = []

abbrev main_file : List ℕ
main_file =
    file_of (
      generator_main numeral (λ sc n. draws) (λ seed. seed) roomy
        ("normal" ∷ "out.bin" ∷ arguments))

generator_main-written_example :
    (sc : Scenario) × (find_scenario "normal" ≡ some sc)
    × (2 ≤ 2)
    × (5 < 2 ^ 32)
    × (load_workload (some main_file) ≡ ok (all_loaded 0 (generate draws 2 5)))
unfolding generator_main find_scenario number_or generate timeline place_loop place sample
    uniform_int shuffle_loop swap_at iota expand_loop expand modify_stage cancel_stage
    dup_cancel_stage stale_modify_stage stable_sort write_binary header_writes write_records
    record_writes fwrite fwrite_all le_bytes to_u64
generator_main-written_example =
    generator_main-written numeral (λ sc n. draws) (λ seed. seed) roomy (λ sc n. draws-IsScaled)
      (λ sc n. draws-IsPriced) "normal" "out.bin" arguments main_file (omega arith) refl
