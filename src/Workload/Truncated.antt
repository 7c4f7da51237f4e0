-- ===== src/Workload/Truncated.antt =====
-- A workload file that has been cut short is refused.
use native.Mathlib.Nat.{zero-add}
use native.Mathlib.Decide.{dec_lt}
use matching_engine_benchmar.Common.{
  ℕ, zero, suc, ◌+◌, ◌-◌, ◌*◌, ◌≤◌, ◌<◌, ◌≡◌, refl, sym, ap, subst, ◌∙◌, inl, inr, none, some, List,
  [], ◌∷◌, ◌++◌, arith, Option-cases, length, take, length-take, err,
}
use matching_engine_benchmar.Bytes.{le_bytes, split_at?, split_at?-short}
use matching_engine_benchmar.Workload.{
  Msg, LoadError, not_workload, short_read, read_int, read_records, load_body, load_workload,
  header_writes, workload_max,
}
use matching_engine_benchmar.Workload.RoundTrip.{
  concat, records_bytes, length-records_bytes, load_workload-bytes,
}

split_at?-length :
    (w : ℕ) (bs x rest : List ℕ) → split_at? w bs ≡ some (x, rest) → length bs ≡ w + length rest
unfolding split_at?
split_at?-length zero bs x rest h = ground arith
split_at?-length (suc w) [] x rest h = cc
split_at?-length (suc w) (b ∷ bs) x rest h = elim (Option-cases (split_at? w bs)) [
  | inl e ↦ absurd (ground arith)
  | inr (r, e) ↦ ground (arith, split_at?-length w bs r.0 r.1)
]

read_records-short : (n : ℕ) (bs : List ℕ) → length bs < 40 * n → read_records n bs ≡ none
unfolding read_records
read_records-short zero bs h = absurd (omega arith)
read_records-short (suc n) bs h = elim (Option-cases (split_at? 40 bs)) [
  | inl e ↦ ground (arith, e)
  | inr (r, e) ↦
      let cut = split_at?-length 40 bs r.0 r.1 e in ground (arith, e, cut, read_records-short n r.1)
]

read_int-short : (w : ℕ) (bs : List ℕ) → length bs < w → read_int w bs ≡ none
unfolding read_int
read_int-short w bs h = rw (split_at?-short w bs h, read_int)

read_int-length :
    (w n : ℕ) (bs rest : List ℕ) → read_int w bs ≡ some (n, rest) → length bs ≡ w + length rest
unfolding read_int
read_int-length w n bs rest h = elim (Option-cases (split_at? w bs)) [
  | inl e ↦ absurd (ground (arith, e))
  | inr (r, e) ↦ ground (arith, e, split_at?-length w bs r.0 r.1 e)
]

-- A file with no room for the header is no workload file.
load_workload-short_header :
    (bs : List ℕ) → length bs < 16 → load_workload (some bs) ≡ err not_workload
unfolding load_workload
load_workload-short_header bs h = elim (Option-cases (read_int 8 bs)) [
  | inl e ↦ rw e
  | inr (r, e) ↦
      let left = read_int-length 8 r.0 bs r.1 e in
      elim (Option-cases (read_int 4 r.1)) [
        | inl e' ↦ rw (e, e')
        | inr (r', e') ↦
            let left' = read_int-length 4 r'.0 r.1 r'.1 e' in
            rw (e, e', read_int-short 4 r'.1 (omega arith))
      ]
]

-- A file that holds fewer bytes than its header promises is a short read.
load_workload-short_body :
    (n : ℕ) (body : List ℕ)
    → 0 < n
    → n ≤ workload_max
    → length body < 40 * n
    → load_workload (some (concat (header_writes n) ++ body)) ≡ err short_read
unfolding load_body
load_workload-short_body n body filled small h =
    load_workload-bytes n body (omega arith) ∙ ground (arith, read_records-short n body h)

length-header : (n : ℕ) → length (concat (header_writes n)) ≡ 16
unfolding header_writes le_bytes
length-header n = refl

take-append {ℓ} :
    {A : Type ℓ} (k : ℕ) (xs ys : List A) → take (length xs + k) (xs ++ ys) ≡ xs ++ take k ys
take-append k [] ys = rw zero-add
take-append k (x ∷ xs) ys =
    let e : suc (length xs) + k ≡ suc (length xs + k) = omega arith in
    rw e (ap (◌∷◌ x) (take-append k xs ys))

-- No strict prefix of a written workload file is accepted.
pub load_workload-truncated :
    (tl : List Msg) (k : ℕ)
    → 0 < length tl
    → length tl ≤ workload_max
    → k < 16 + 40 * length tl
    → (e : LoadError) × (load_workload
          (some (take k (concat (header_writes (length tl)) ++ records_bytes 0 tl)))
        ≡ err e)
load_workload-truncated tl k filled small h = elim (dec_lt k 16) [
  | yes p ↦ (not_workload, load_workload-short_header _ (rw length-take (omega arith)))
  | no p ↦
      let n = length tl in
      let body = take (k - 16) (records_bytes 0 tl) in
      let e : k ≡ length (concat (header_writes n)) + (k - 16) = omega (arith, length-header n) in
      let cut : length body < 40 * n = rw length-take (omega (arith, length-records_bytes 0 tl)) in
      (
        short_read,
        subst
            (λ j.
              load_workload (some (take j (concat (header_writes n) ++ records_bytes 0 tl)))
              ≡ err short_read)
            (sym e) (rw take-append (load_workload-short_body n body filled small cut)),
      )
]
