-- ===== src/Tests/WorkloadFile.antt =====
-- A workload of three messages, written and read back.
use matching_engine_benchmar.Common.{
  ℕ, ◌+◌, ◌*◌, ◌≤◌, ◌<◌, ◌≡◌, refl, true, ◌&&◌, Option, none, some, List, [], ◌∷◌, ◌++◌, arith, leb,
  length, take, All, pos, negsuc, ok, err,
}
use matching_engine_benchmar.Bytes.{le_bytes, to_u64}
use matching_engine_benchmar.Workload.{
  Msg, LoadError, load_workload, Disk, fwrite, fwrite_all, record_writes, write_records,
  header_writes, write_binary,
}
use matching_engine_benchmar.Workload.RoundTrip.{
  Fits, all_loaded, concat, records_bytes, load_workload-write_binary,
}
use matching_engine_benchmar.Workload.Truncated.{load_workload-truncated}
use matching_engine_benchmar.Workload.Space.{write_binary-outcome}
use matching_engine_benchmar.Workload.Accepted.{load_workload-ok}

abbrev small_timeline : List Msg
small_timeline =
    record {
      ts = pos 0;
      type = 0;
      side = 0;
      ioc = 0;
      qty = 7;
      order_id = 1;
      price_ticks = pos 33504;
    }
    ∷ record {
      ts = pos 1;
      type = 0;
      side = 1;
      ioc = 1;
      qty = 300;
      order_id = 2;
      price_ticks = pos 33500;
    }
    ∷ record {
      ts = pos 9;
      type = 1;
      side = 0;
      ioc = 0;
      qty = 7;
      order_id = 1;
      price_ticks = negsuc 2;
    }
    ∷ []

abbrev disk : Disk
disk = record { opens = true; space = 200; closes = true }

abbrev or_empty : Option (List ℕ) → List ℕ
or_empty none = []
or_empty (some bs) = bs

file : List ℕ
unfolding write_binary write_records fwrite_all fwrite header_writes record_writes le_bytes to_u64
file = or_empty (write_binary disk small_timeline).1

file_written : write_binary disk small_timeline ≡ (true, some file)
unfolding file
file_written = refl

small_timeline-Fits : All Fits small_timeline
small_timeline-Fits = omega arith

load_workload-write_binary_example : load_workload (some file) ≡ ok (all_loaded 0 small_timeline)
load_workload-write_binary_example =
    load_workload-write_binary disk small_timeline file (omega arith) (omega arith)
      small_timeline-Fits file_written

-- Half of the second record is missing.
load_workload-truncated_example :
    (e : LoadError) × (load_workload (
        some (
          take 76
            (concat (header_writes (length small_timeline)) ++ records_bytes 0 small_timeline)))
      ≡ err e)
load_workload-truncated_example =
    load_workload-truncated small_timeline 76 (omega arith) (omega arith) (omega arith)

load_workload-ok_example :
    (0 < length (all_loaded 0 small_timeline))
    × (length (all_loaded 0 small_timeline) ≤ 100000000)
    × All (λ w. w.type ≤ 2) (all_loaded 0 small_timeline)
load_workload-ok_example = load_workload-ok (some file) (all_loaded 0 small_timeline) (
    load_workload-write_binary disk small_timeline file (omega arith) (omega arith)
      small_timeline-Fits file_written)

write_binary-outcome_example :
    (write_binary disk small_timeline).0
    ≡ (true && (leb (16 + 40 * length small_timeline) 200 && true))
write_binary-outcome_example = write_binary-outcome disk small_timeline
