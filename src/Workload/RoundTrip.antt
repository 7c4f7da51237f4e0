-- ===== src/Workload/RoundTrip.antt =====
-- What the generator writes, the harness reads back.
use matching_engine_benchmar.Common.{
  ℕ, ◌+◌, ◌*◌, ◌%◌, ◌^◌, ◌≤◌, ◌<◌, ◌≡◌, refl, sym, ◌∙◌, true, some, List, [], ◌∷◌, ◌++◌, arith,
  length, length-append, All, IsInt64, ok,
}
use mathlib.Core.List.{append-nil, append_assoc}
use matching_engine_benchmar.Bytes.{
  le_bytes, from_le, to_u64, of_u64, split_at?, length-le_bytes, from_le-le_bytes, of_u64-to_u64,
  to_u64-lt, split_at?-append,
}
use matching_engine_benchmar.Workload.{
  WorkloadMsg, Msg, RawRecord, read_int, raw_of_bytes, read_records, decode_record, decode_records,
  load_body, load_workload, Stream, Disk, fwrite, fwrite_all, record_writes, write_records,
  header_writes, write_binary, workload_magic, workload_version, workload_max,
}

-- The values that the C types of the fields hold, with a type that the harness accepts.
pub record Fits (m : Msg) : Type 0 where
  pub type : m.type ≤ 2
  pub side : m.side < 256
  pub ioc : m.ioc < 256
  pub qty : m.qty < 2 ^ 32
  pub order_id : m.order_id < 2 ^ 64
  pub price_ticks : IsInt64 m.price_ticks

-- A message as it is read back, the `seq`-th of the file.
abbrev pub as_loaded : ℕ → Msg → WorkloadMsg
as_loaded seq m = record {
  type = m.type;
  side = m.side;
  ioc = m.ioc;
  qty = m.qty;
  seq = seq;
  order_id = m.order_id;
  price_ticks = m.price_ticks;
}

abbrev pub all_loaded : ℕ → List Msg → List WorkloadMsg
all_loaded seq [] = []
all_loaded seq (m ∷ ms) = as_loaded seq m ∷ all_loaded (seq + 1) ms

abbrev pub concat : List (List ℕ) → List ℕ
concat [] = []
concat (bs ∷ rest) = bs ++ concat rest

pub record_bytes : ℕ → Msg → List ℕ
record_bytes seq m = concat (record_writes seq m)

pub records_bytes : ℕ → List Msg → List ℕ
records_bytes seq [] = []
records_bytes seq (m ∷ ms) = record_bytes seq m ++ records_bytes (seq + 1) ms

abbrev raws : ℕ → List Msg → List RawRecord
raws seq [] = []
raws seq (m ∷ ms) = raw_of_bytes (record_bytes seq m) ∷ raws (seq + 1) ms

fwrite-written :
    (bs : List ℕ) (f : Stream) → (fwrite bs f).0 ≡ true → (fwrite bs f).1.written ≡ f.written ++ bs
unfolding fwrite
fwrite-written bs f h = ground arith

-- A chain of writes that succeeds has written each object whole, in order.
fwrite_all-written :
    (ws : List (List ℕ)) (f : Stream)
    → (fwrite_all ws f).0 ≡ true
    → (fwrite_all ws f).1.written ≡ f.written ++ concat ws
unfolding fwrite_all
fwrite_all-written [] f h = sym (append-nil f.written)
fwrite_all-written (bs ∷ rest) f h = ground (
  arith,
  fwrite-written bs f,
  fwrite_all-written rest (fwrite bs f).1,
  append_assoc f.written bs (concat rest),
)

write_records-written :
    (seq : ℕ) (ms : List Msg) (f : Stream)
    → (write_records seq ms f).0 ≡ true
    → (write_records seq ms f).1.written ≡ f.written ++ records_bytes seq ms
unfolding write_records records_bytes record_bytes
write_records-written seq [] f h = sym (append-nil f.written)
write_records-written seq (m ∷ ms) f h =
    let ws = record_writes seq m in
    ground (
      arith,
      fwrite_all-written ws f,
      write_records-written (seq + 1) ms (fwrite_all ws f).1,
      append_assoc f.written (concat ws) (records_bytes (seq + 1) ms),
    )

-- A file that was written without a failure holds the header and the records.
pub write_binary-bytes :
    (disk : Disk) (tl : List Msg) (bs : List ℕ)
    → write_binary disk tl ≡ (true, some bs)
    → bs ≡ concat (header_writes (length tl)) ++ records_bytes 0 tl
unfolding write_binary
write_binary-bytes disk tl bs h =
    let start : Stream = record { written = []; room = disk.space } in
    let ws = header_writes (length tl) in
    ground (arith, fwrite_all-written ws start, write_records-written 0 tl (fwrite_all ws start).1)

pub length-record_bytes : (seq : ℕ) (m : Msg) → length (record_bytes seq m) ≡ 40
unfolding record_bytes record_writes le_bytes
length-record_bytes seq m = refl

pub length-records_bytes :
    (seq : ℕ) (ms : List Msg) → length (records_bytes seq ms) ≡ 40 * length ms
unfolding records_bytes
length-records_bytes seq [] = refl
length-records_bytes seq (m ∷ ms) =
    rw length-append (omega (arith, length-record_bytes seq m, length-records_bytes (seq + 1) ms))

raw_of_bytes-type : (seq : ℕ) (m : Msg) → (raw_of_bytes (record_bytes seq m)).type ≡ m.type
unfolding raw_of_bytes record_bytes record_writes
raw_of_bytes-type seq m = refl

raw_of_bytes-record_bytes :
    (seq : ℕ) (m : Msg)
    → Fits m
    → seq < 2 ^ 64
    → decode_record (raw_of_bytes (record_bytes seq m)) ≡ as_loaded seq m
unfolding decode_record raw_of_bytes record_bytes record_writes le_bytes
raw_of_bytes-record_bytes seq m v h = λ i. record {
  type = m.type;
  side = m.side;
  ioc = m.ioc;
  qty = from_le-le_bytes 4 m.qty v.qty i;
  seq = from_le-le_bytes 8 seq h i;
  order_id = from_le-le_bytes 8 m.order_id v.order_id i;
  price_ticks = price i;
}
  where
    price : of_u64 (from_le (le_bytes 8 (to_u64 m.price_ticks))) ≡ m.price_ticks
    price =
        rw (from_le-le_bytes 8 (to_u64 m.price_ticks) (to_u64-lt m.price_ticks v.price_ticks))
          (of_u64-to_u64 m.price_ticks v.price_ticks)

read_records-records_bytes :
    (seq : ℕ) (ms : List Msg) → read_records (length ms) (records_bytes seq ms) ≡ some (raws seq ms)
unfolding read_records records_bytes
read_records-records_bytes seq [] = refl
read_records-records_bytes seq (m ∷ ms) =
    let split : split_at? 40 (record_bytes seq m ++ records_bytes (seq + 1) ms)
        ≡ some (record_bytes seq m, records_bytes (seq + 1) ms) =
      rw length-record_bytes at
        (split_at?-append (record_bytes seq m) (records_bytes (seq + 1) ms)) in
    ground (arith, split, read_records-records_bytes (seq + 1) ms)

decode_records-raws :
    (seq : ℕ) (ms : List Msg)
    → All Fits ms
    → seq + length ms ≤ 2 ^ 64
    → decode_records seq (raws seq ms) ≡ ok (all_loaded seq ms)
unfolding decode_records
decode_records-raws seq [] v h = refl
decode_records-raws seq (m ∷ ms) v h = ground (
  arith,
  raw_of_bytes-type seq m,
  raw_of_bytes-record_bytes seq m v.0,
  decode_records-raws (seq + 1) ms v.1,
)

-- The header that `write_binary` writes, read piece by piece.
read_int-le_bytes :
    (w n : ℕ) (rest : List ℕ) → n < 256 ^ w → read_int w (le_bytes w n ++ rest) ≡ some (n, rest)
unfolding read_int
read_int-le_bytes w n rest h =
    let split : split_at? w (le_bytes w n ++ rest) ≡ some (le_bytes w n, rest) =
      rw (length-le_bytes w n) at (split_at?-append (le_bytes w n) rest) in
    ground (arith, split, from_le-le_bytes w n h)

load_body-records_bytes :
    (tl : List Msg)
    → 0 < length tl
    → length tl ≤ workload_max
    → All Fits tl
    → load_body workload_magic workload_version (length tl) (records_bytes 0 tl)
      ≡ ok (all_loaded 0 tl)
unfolding load_body
load_body-records_bytes tl filled small v =
    ground (arith, read_records-records_bytes 0 tl, decode_records-raws 0 tl v)

header-bytes :
    (n : ℕ) (rest : List ℕ)
    → n < 2 ^ 32
    → concat (header_writes n) ++ rest
      ≡ le_bytes 8 workload_magic ++ (le_bytes 4 workload_version ++ (le_bytes 4 n ++ rest))
unfolding header_writes
header-bytes n rest h =
    let e : n % 2 ^ 32 ≡ n = omega arith in rw e (simp (append_assoc, append-nil))

pub load_workload-bytes :
    (n : ℕ) (rest : List ℕ)
    → n < 2 ^ 32
    → load_workload (some (concat (header_writes n) ++ rest))
      ≡ load_body workload_magic workload_version n rest
unfolding load_workload
load_workload-bytes n rest h =
    let counted = le_bytes 4 n ++ rest in
    let versioned = le_bytes 4 workload_version ++ counted in
    rw (
      header-bytes n rest h,
      read_int-le_bytes 8 workload_magic versioned (omega arith),
      read_int-le_bytes 4 workload_version counted (omega arith),
      read_int-le_bytes 4 n rest (omega arith),
    )

-- The workload that the generator writes without a failure is the workload that the harness reads,
-- message by message, each under its position as sequence number.
pub load_workload-write_binary :
    (disk : Disk) (tl : List Msg) (bs : List ℕ)
    → 0 < length tl
    → length tl ≤ workload_max
    → All Fits tl
    → write_binary disk tl ≡ (true, some bs)
    → load_workload (some bs) ≡ ok (all_loaded 0 tl)
load_workload-write_binary disk tl bs filled small v h = rw (write_binary-bytes disk tl bs h) (
    load_workload-bytes (length tl) (records_bytes 0 tl) (omega arith)
    ∙ load_body-records_bytes tl filled small v)
