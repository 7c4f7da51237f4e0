-- ===== src/Workload/Accepted.antt =====
-- What a workload that the harness accepts looks like.
use matching_engine_benchmar.Common.{
  ℕ, zero, suc, ◌+◌, ◌≤◌, ◌<◌, ◌≡◌, refl, ◌⊎◌, inl, inr, Option, none, some, List, [], ◌∷◌, arith,
  Option-cases, length, All, Result, ok, err,
}
use matching_engine_benchmar.Bytes.{split_at?}
use matching_engine_benchmar.Workload.{
  WorkloadMsg, RawRecord, LoadError, read_int, read_records, decode_record, decode_records,
  load_body, load_workload, workload_max,
}

length-read_records :
    (n : ℕ) (bs : List ℕ) (rs : List RawRecord) → read_records n bs ≡ some rs → length rs ≡ n
unfolding read_records
length-read_records zero bs rs h = ground arith
length-read_records (suc n) bs rs h = elim (Option-cases (split_at? 40 bs)) [
  | inl e ↦ absurd (ground (arith, e))
  | inr (r, e) ↦ elim (Option-cases (read_records n r.1)) [
    | inl e' ↦ absurd (ground (arith, e, e'))
    | inr (rest, e') ↦ ground (arith, e, e', length-read_records n r.1 rest e')
  ]
]

Result-cases :
    (r : Result LoadError (List WorkloadMsg))
    → ((ws : List WorkloadMsg) × (r ≡ ok ws)) ⊎ ((e : LoadError) × (r ≡ err e))
Result-cases (ok ws) = inl (ws, refl)
Result-cases (err e) = inr (e, refl)

decode_records-ok :
    (i : ℕ) (rs : List RawRecord) (ws : List WorkloadMsg)
    → decode_records i rs ≡ ok ws
    → (length ws ≡ length rs) × All (λ w. w.type ≤ 2) ws
unfolding decode_records decode_record
decode_records-ok i [] ws h = ground arith
decode_records-ok i (r ∷ rs) ws h = elim (Result-cases (decode_records (i + 1) rs)) [
  | inr (e', e) ↦ absurd (ground (arith, e))
  | inl (rest, e) ↦ ground (arith, e, decode_records-ok (i + 1) rs rest e)
]

load_body-ok :
    (magic version count : ℕ) (bs : List ℕ) (ws : List WorkloadMsg)
    → load_body magic version count bs ≡ ok ws
    → (length ws ≡ count) × (0 < length ws) × (length ws ≤ workload_max) × All (λ w. w.type ≤ 2) ws
unfolding load_body
load_body-ok magic version count bs ws h = elim (Option-cases (read_records count bs)) [
  | inl e ↦ absurd (ground (arith, e))
  | inr (rs, e) ↦ ground (arith, e, length-read_records count bs rs e, decode_records-ok 0 rs ws)
]

-- A workload that is loaded has between one and `workload_max` messages, each of a known type.
pub load_workload-ok :
    (file : Option (List ℕ)) (ws : List WorkloadMsg)
    → load_workload file ≡ ok ws
    → (0 < length ws) × (length ws ≤ workload_max) × All (λ w. w.type ≤ 2) ws
unfolding load_workload
load_workload-ok none ws h = absurd (ground arith)
load_workload-ok (some bs) ws h = elim (Option-cases (read_int 8 bs)) [
  | inl e ↦ absurd (ground (arith, e))
  | inr (r1, e1) ↦ elim (Option-cases (read_int 4 r1.1)) [
    | inl e ↦ absurd (ground (arith, e1, e))
    | inr (r2, e2) ↦ elim (Option-cases (read_int 4 r2.1)) [
      | inl e ↦ absurd (ground (arith, e1, e2, e))
      | inr (r3, e3) ↦ ground (arith, e1, e2, e3, load_body-ok r1.0 r2.0 r3.0 r3.1 ws)
    ]
  ]
]
