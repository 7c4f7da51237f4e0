-- ===== src/Workload/Space.antt =====
-- When the generator's write succeeds: exactly when the device takes the whole file.
use matching_engine_benchmar.Common.{
  ℕ, ◌+◌, ◌-◌, ◌*◌, ◌≡◌, refl, Bool, true, ◌&&◌, List, [], ◌∷◌, arith, leb, length, length-append,
}
use matching_engine_benchmar.Bytes.{le_bytes}
use matching_engine_benchmar.Workload.{
  Msg, Stream, Disk, fwrite, fwrite_all, record_writes, write_records, header_writes, write_binary,
}
use matching_engine_benchmar.Workload.RoundTrip.{concat}

-- The outcome of a write of `n` bytes, and the room that it leaves.
pub record Takes (n : ℕ) (f : Stream) (r : Bool × Stream) : Type 0 where
  pub outcome : r.0 ≡ leb n f.room
  pub room : r.0 ≡ true → r.1.room ≡ f.room - n

fwrite-Takes : (bs : List ℕ) (f : Stream) → Takes (length bs) f (fwrite bs f)
unfolding fwrite
fwrite-Takes bs f = record { outcome = ground arith; room = λ h. ground arith }

fwrite_all-Takes :
    (ws : List (List ℕ)) (f : Stream) → Takes (length (concat ws)) f (fwrite_all ws f)
unfolding fwrite_all
fwrite_all-Takes [] f = record { outcome = ground arith; room = λ h. ground arith }
fwrite_all-Takes (bs ∷ rest) f =
    let first = fwrite-Takes bs f in
    let others = fwrite_all-Takes rest (fwrite bs f).1 in
    let size = length-append bs (concat rest) in
    record {
      outcome = ground (arith, first, others, size, first.outcome, others.outcome, first.room);
      room = λ h. ground (arith, size, first.outcome, others.outcome, first.room, others.room);
    }

record_writes-length : (seq : ℕ) (m : Msg) → length (concat (record_writes seq m)) ≡ 40
unfolding record_writes le_bytes
record_writes-length seq m = refl

write_records-Takes :
    (seq : ℕ) (ms : List Msg) (f : Stream) → Takes (40 * length ms) f (write_records seq ms f)
unfolding write_records
write_records-Takes seq [] f = record { outcome = ground arith; room = λ h. ground arith }
write_records-Takes seq (m ∷ ms) f =
    let ws = record_writes seq m in
    let first = fwrite_all-Takes ws f in
    let others = write_records-Takes (seq + 1) ms (fwrite_all ws f).1 in
    let size = record_writes-length seq m in
    record {
      outcome = ground (arith, size, first.outcome, others.outcome, first.room);
      room = λ h. ground (arith, size, first.outcome, others.outcome, first.room, others.room);
    }

header_writes-length : (n : ℕ) → length (concat (header_writes n)) ≡ 16
unfolding header_writes le_bytes
header_writes-length n = refl

-- The write succeeds exactly if the file opens, its 16 + 40 bytes a message fit, and it closes.
pub write_binary-outcome :
    (disk : Disk) (tl : List Msg)
    → (write_binary disk tl).0
      ≡ (disk.opens && (leb (16 + 40 * length tl) disk.space && disk.closes))
unfolding write_binary
write_binary-outcome disk tl =
    let start : Stream = record { written = []; room = disk.space } in
    let ws = header_writes (length tl) in
    let first = fwrite_all-Takes ws start in
    let others = write_records-Takes 0 tl (fwrite_all ws start).1 in
    let size = header_writes-length (length tl) in
    ground (arith, size, first.outcome, others.outcome, first.room)
