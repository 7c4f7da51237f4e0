-- ===== src/Run/Batch.antt =====
-- Delivery in batches and delivery one message at a time are the same run.
use matching_engine_benchmar.Common.{
  ℕ, zero, suc, ◌+◌, ◌-◌, ◌%◌, ◌^◌, ◌≤◌, ◌<◌, ◌≡◌, refl, sym, ap, ◌∙◌, inl, inr, none, some, List,
  [], ◌∷◌, ◌++◌, map, arith, ltb, Bool-cases, length, take, drop, length-drop, length-map,
  drop-drop, take_all, drop_all,
}
use mathlib.Core.List.{append-nil, append_assoc}
use matching_engine_benchmar.Abi.{MeMsg, Report}
use matching_engine_benchmar.Workload.{WorkloadMsg}
use matching_engine_benchmar.Engine.{Engine, prepare, dispatch, dispatch_all, BatchInOrder}
use matching_engine_benchmar.Run.{
  Mode, Session, probe, deliver, message_loop, deliver_batch, batch_loop, window,
}

-- Probe indices that `audit_pick_indices` may give: rising, from `start` on, below `n`.
abbrev pub Rising : ℕ → ℕ → List ℕ → Type 0
Rising start n [] = Unit
Rising start n (b ∷ rest) = (start ≤ b) × (b < n) × Rising (b + 1) n rest

module _ (e : Engine) (mode : Mode) (workload : List WorkloadMsg) where
  deliver_list : List MeMsg → Session e.State → Session e.State
  deliver_list [] s = s
  deliver_list (p ∷ ps) s = deliver_list ps (deliver e mode workload p s)

  deliver_list-dispatch_all :
      (ps : List MeMsg) (s : Session e.State)
      → deliver_list ps s ≡ record s {
        engine = (dispatch_all e ps s.engine).0;
        reports = s.reports ++ (dispatch_all e ps s.engine).1;
      }
  unfolding deliver_list deliver dispatch_all
  deliver_list-dispatch_all [] s = ap (λ rs. record s { reports = rs }) (sym (append-nil s.reports))
  deliver_list-dispatch_all (p ∷ ps) s =
      let (st, rs) = dispatch e p s.engine in
      deliver_list-dispatch_all ps (deliver e mode workload p s)
      ∙ ap (λ l. record s { engine = (dispatch_all e ps st).0; reports = l })
          (append_assoc s.reports rs (dispatch_all e ps st).1)

  message_loop-segment :
      (k i b : ℕ) (ps : List MeMsg) (rest : List ℕ) (s : Session e.State)
      → b ≡ i + k
      → k < length ps
      → message_loop e mode workload i ps (b ∷ rest) s
        ≡ message_loop e mode workload
            (b + 1)
            (drop (suc k) ps)
            rest
            (probe e mode workload b (deliver_list (take (suc k) ps) s))
  unfolding message_loop deliver_list
  message_loop-segment k i b [] rest s h small = absurd (omega arith)
  message_loop-segment zero i b (p ∷ ps) rest s h small = ground arith
  message_loop-segment (suc k) i b (p ∷ ps) rest s h small =
      ground (arith, message_loop-segment k (i + 1) b ps rest (deliver e mode workload p s))

  message_loop-tail :
      (i : ℕ) (ps : List MeMsg) (s : Session e.State)
      → message_loop e mode workload i ps [] s ≡ deliver_list ps s
  unfolding message_loop deliver_list
  message_loop-tail i [] s = refl
  message_loop-tail i (p ∷ ps) s = message_loop-tail (i + 1) ps (deliver e mode workload p s)

  module _ (on_batch : List MeMsg → e.State → e.State × List Report)
      (contract : BatchInOrder e on_batch) (prepared : List MeMsg) where
    deliver_batch-deliver_list :
        (start n : ℕ) (s : Session e.State)
        → deliver_batch e mode workload on_batch prepared start n s
          ≡ deliver_list (take n (drop start prepared)) s
    unfolding deliver_batch
    deliver_batch-deliver_list start n s =
        rw (contract (take n (drop start prepared)) s.engine)
          (sym (deliver_list-dispatch_all (take n (drop start prepared)) s))

    batch_loop-message_loop :
        (start : ℕ) (idx : List ℕ) (s : Session e.State)
        → length prepared < 2 ^ 32
        → Rising start (length prepared) idx
        → batch_loop e mode workload on_batch prepared start idx s
          ≡ message_loop e mode workload start (drop start prepared) idx s
    unfolding batch_loop deliver_list
    batch_loop-message_loop start [] s small h = elim (Bool-cases (ltb start (length prepared))) [
      | inl e ↦
          let size : (length prepared - start) % 2 ^ 32 ≡ length prepared - start = omega arith in
          let whole : take (length prepared - start) (drop start prepared) ≡ drop start prepared =
            take_all _ _ (rw length-drop (omega arith)) in
          rw (e, size)
            (deliver_batch-deliver_list start (length prepared - start) s
              ∙ ap (λ ps. deliver_list ps s) whole
              ∙ sym (message_loop-tail start (drop start prepared) s))
      | inr e ↦
          let past : drop start prepared ≡ [] = drop_all start prepared (ground arith) in
          rw (e, past) (sym (message_loop-tail start [] s))
    ]
    batch_loop-message_loop start (b ∷ rest) s small h =
        let size : (2 ^ 64 + b - start + 1) % 2 ^ 64 % 2 ^ 32 ≡ suc (b - start) = omega arith in
        let s' = deliver_list (take (suc (b - start)) (drop start prepared)) s in
        let batch : deliver_batch e mode workload on_batch prepared start (suc (b - start)) s ≡ s' =
          deliver_batch-deliver_list start (suc (b - start)) s in
        let left : drop (suc (b - start)) (drop start prepared) ≡ drop (b + 1) prepared =
          drop-drop (suc (b - start)) start prepared ∙ ap (λ n. drop n prepared) (omega arith) in
        rw (size, batch)
          (batch_loop-message_loop (b + 1) rest (probe e mode workload b s') small h.2
            ∙ ap (λ ps. message_loop e mode workload (b + 1) ps rest (probe e mode workload b s'))
                (sym left)
            ∙ sym (
                message_loop-segment (b - start) start b (drop start prepared) rest s (omega arith)
                  (rw length-drop (omega arith))))

-- Batched delivery changes nothing: an engine that keeps the contract of `engine_on_batch` ends in
-- the same state, with the same reports and the same probes of its book, as if its messages came one
-- at a time, when the probe indices rise and lie in a workload of fewer than 2 ^ 32 messages.
pub window-batches :
    (e : Engine) (mode : Mode) (workload : List WorkloadMsg) (idx : List ℕ) (st : e.State)
    (on_batch : List MeMsg → e.State → e.State × List Report)
    → BatchInOrder e on_batch
    → length workload < 2 ^ 32
    → Rising 0 (length workload) idx
    → window e mode workload (some on_batch) idx st ≡ window e mode workload none idx st
unfolding window
window-batches e mode workload idx st on_batch contract small h =
    let prepared = map prepare workload in
    let size : length prepared ≡ length workload = length-map workload prepare in
    let start : Session e.State = record { engine = st; reports = []; snaps = [] } in
    let same : batch_loop e mode workload on_batch prepared 0 idx start
        ≡ message_loop e mode workload 0 prepared idx start =
      batch_loop-message_loop e mode workload on_batch contract prepared 0 idx start
        (omega (arith, size)) (rw size h) in
    rw same
