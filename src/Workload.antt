-- ===== src/Workload.antt =====
-- The workload file: `load_workload` of src/harness.cpp, `write_binary` of workload/generator.cpp.
-- A file is its list of bytes. Messages on the error stream are left out; the kind of each failure
-- is kept as the error.
pub mod RoundTrip
pub mod Truncated
pub mod Accepted
pub mod Space
use matching_engine_benchmar.Common.{
  ℕ, zero, suc, ◌+◌, ◌-◌, ◌*◌, ◌%◌, ◌^◌, Bool, true, false, not, ◌&&◌, ◌||◌, Option, none, some,
  List, [], ◌∷◌, ◌++◌, ltb, leb, ◌==◌, if◌then◌else◌, length, get_or, take, drop, ℤ, Result, ok,
  ◌>>=◌, or_fail, check,
}
use matching_engine_benchmar.Bytes.{le_bytes, from_le, to_u64, of_u64, split_at?}

-- One decoded message of the harness, `WorkloadMsg` of src/harness.h.
pub record WorkloadMsg : Type 0 where
  pub type : ℕ
  pub side : ℕ
  pub ioc : ℕ
  pub qty : ℕ
  pub seq : ℕ
  pub order_id : ℕ
  pub price_ticks : ℤ

-- One message of the generator's timeline; `ts` is not written to the file.
pub record Msg : Type 0 where
  pub ts : ℤ
  pub type : ℕ
  pub side : ℕ
  pub ioc : ℕ
  pub qty : ℕ
  pub order_id : ℕ
  pub price_ticks : ℤ

-- `MSG_NEW`, `MSG_CANCEL` and `MSG_MODIFY`.
abbrev pub msg_new : ℕ
msg_new = 0

abbrev pub msg_cancel : ℕ
msg_cancel = 1

abbrev pub msg_modify : ℕ
msg_modify = 2

abbrev pub workload_magic : ℕ
workload_magic = 0x4D4542575F303031

abbrev pub workload_version : ℕ
workload_version = 1

abbrev pub workload_max : ℕ
workload_max = 100 * 1000 * 1000

-- The 40-byte record.
pub record RawRecord : Type 0 where
  pub type : ℕ
  pub side : ℕ
  pub ioc : ℕ
  pub pad : ℕ
  pub qty : ℕ
  pub seq : ℕ
  pub order_id : ℕ
  pub price_ticks : ℤ
  pub reserved : ℤ

pub data LoadError : Type 0 where
  cannot_open not_workload bad_version bad_count short_read : LoadError
  bad_type : ℕ → ℕ → LoadError

-- `fread` of one integer of `w` bytes.
unfoldable pub read_int : ℕ → List ℕ → Option (ℕ × List ℕ)
read_int w bs = elim (split_at? w bs) [ none ↦ none | some (x, rest) ↦ some (from_le x, rest) ]

-- A record at the byte offsets of the C struct.
unfoldable pub raw_of_bytes : List ℕ → RawRecord
raw_of_bytes r = record {
  type = get_or r 0 0;
  side = get_or r 1 0;
  ioc = get_or r 2 0;
  pad = get_or r 3 0;
  qty = from_le (take 4 (drop 4 r));
  seq = from_le (take 8 (drop 8 r));
  order_id = from_le (take 8 (drop 16 r));
  price_ticks = of_u64 (from_le (take 8 (drop 24 r)));
  reserved = of_u64 (from_le (take 8 (drop 32 r)));
}

-- `fread` of `n` records; `none` where it returns fewer.
unfoldable pub read_records : ℕ → List ℕ → Option (List RawRecord)
read_records zero bs = some []
read_records (suc n) bs = elim (split_at? 40 bs) [
  | none ↦ none
  | some (r, rest) ↦ elim (read_records n rest) [
    | none ↦ none
    | some rs ↦ some (raw_of_bytes r ∷ rs)
  ]
]

unfoldable pub decode_record : RawRecord → WorkloadMsg
decode_record r = record {
  type = r.type;
  side = r.side;
  ioc = r.ioc;
  qty = r.qty;
  seq = r.seq;
  order_id = r.order_id;
  price_ticks = r.price_ticks;
}

-- The loop over the records; `i` counts the records before.
unfoldable pub decode_records : ℕ → List RawRecord → Result LoadError (List WorkloadMsg)
decode_records i [] = ok []
decode_records i (r ∷ rs) =
    let rest = decode_records (i + 1) rs in
    check (leb r.type 2) (bad_type i r.type) (rest >>= λ ms. ok (decode_record r ∷ ms))

-- The body after the header: the three tests on the header, then the records.
unfoldable pub load_body : ℕ → ℕ → ℕ → List ℕ → Result LoadError (List WorkloadMsg)
load_body magic version count bs = check (magic == workload_magic) not_workload (
    check (version == workload_version) bad_version (
      check (not (count == 0 || ltb workload_max count)) bad_count
        (or_fail (read_records count bs) short_read >>= decode_records 0)))

-- `load_workload`; the argument is `none` where the file cannot be opened.
unfoldable pub load_workload : Option (List ℕ) → Result LoadError (List WorkloadMsg)
load_workload file = do
  b0 ← or_fail file cannot_open
  (magic, b1) ← or_fail (read_int 8 b0) not_workload
  (version, b2) ← or_fail (read_int 4 b1) not_workload
  (count, b3) ← or_fail (read_int 4 b2) not_workload
  load_body magic version count b3

-- The output file: what stands in it, and how many bytes go in before a write falls short.
pub record Stream : Type 0 where
  pub written : List ℕ
  pub room : ℕ

-- The environment of `write_binary`: does `fopen` succeed, how much fits, does `fclose` succeed.
pub record Disk : Type 0 where
  pub opens : Bool
  pub space : ℕ
  pub closes : Bool

-- `fwrite` of one object; it says whether the whole object was written.
unfoldable pub fwrite : List ℕ → Stream → Bool × Stream
fwrite bs f =
    if leb (length bs) f.room
    then (true, record { written = f.written ++ bs; room = f.room - length bs })
    else (false, record { written = f.written ++ take f.room bs; room = 0 })

-- A chain of writes by `&&`, which stops at the first that falls short.
unfoldable pub fwrite_all : List (List ℕ) → Stream → Bool × Stream
fwrite_all [] f = (true, f)
fwrite_all (bs ∷ rest) f =
    let (good, f') = fwrite bs f in
    let more = fwrite_all rest f' in if good then more else (false, f')

-- The six writes of a record: the four header bytes, then the fields.
unfoldable pub record_writes : ℕ → Msg → List (List ℕ)
record_writes seq m =
    (m.type ∷ m.side ∷ m.ioc ∷ 0 ∷ [])
    ∷ le_bytes 4 m.qty
    ∷ le_bytes 8 seq
    ∷ le_bytes 8 m.order_id
    ∷ le_bytes 8 (to_u64 m.price_ticks)
    ∷ le_bytes 8 0
    ∷ []

-- The loop over the timeline, `for (seq = 0; ok && seq < tl.size(); ++seq)`.
unfoldable pub write_records : ℕ → List Msg → Stream → Bool × Stream
write_records seq [] f = (true, f)
write_records seq (m ∷ ms) f =
    let (good, f') = fwrite_all (record_writes seq m) f in
    let more = write_records (seq + 1) ms f' in if good then more else (false, f')

-- The three writes of the header. The count is cut to 32 bits.
unfoldable pub header_writes : ℕ → List (List ℕ)
header_writes n =
    le_bytes 8 workload_magic ∷ le_bytes 4 workload_version ∷ le_bytes 4 (n % 2 ^ 32) ∷ []

-- `write_binary`: its result, and the file that it leaves, if it opened one.
unfoldable pub write_binary : Disk → List Msg → Bool × Option (List ℕ)
write_binary disk tl =
    let start : Stream = record { written = []; room = disk.space } in
    let (header_ok, f) = fwrite_all (header_writes (length tl)) start in
    let (records_ok, g) = write_records 0 tl f in
    let outcome : Bool × Stream = if header_ok then (records_ok, g) else (false, f) in
    if disk.opens then (outcome.0 && disk.closes, some outcome.1.written) else (false, none)
