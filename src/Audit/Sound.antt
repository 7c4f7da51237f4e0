-- ===== src/Audit/Sound.antt =====
-- The audit is exact: it passes exactly if the engine under test answered as the baseline would.
use native.Mathlib.Nat.{zero-add}
use mathlib.Core.List.{append-nil, append_assoc}
use matching_engine_benchmar.Common.{
  ℕ, suc, ◌+◌, ◌*◌, ◌^◌, ◌<◌, ◌≡◌, refl, sym, ap, ◌∙◌, ◌↔◌, inl, inr, true, Option, none, some,
  List, [], ◌∷◌, ◌++◌, map, arith, ◌==◌, Bool-cases, length, get_elem?, drop, length-map, drop-drop,
  get_elem?-drop,
}
use matching_engine_benchmar.Abi.{MeMsg, Report}
use matching_engine_benchmar.Workload.{WorkloadMsg}
use matching_engine_benchmar.Engine.{Engine, prepare, prebuild_all, BatchInOrder}
use matching_engine_benchmar.Run.{
  audit, Session, QuerySnapshot, ask_book, probe, deliver, message_loop, window,
}
use matching_engine_benchmar.Run.Batch.{Rising, window-batches}
use matching_engine_benchmar.Run.Modes.{indices-window}
use matching_engine_benchmar.Audit.{AuditReport, blank_report, replay_loop, run_state_audit}
use matching_engine_benchmar.Audit.Replay.{
  question, questions, answers, questions-answers, replay_loop-Replays,
}

module _ (e : Engine) (workload : List WorkloadMsg) where
  probe-answers :
      (i : ℕ) (m : WorkloadMsg) (s : Session e.State)
      → get_elem? workload i ≡ some m
      → probe e audit workload i s ≡ record s {
        engine = (ask_book e i m s.engine).1;
        snaps = s.snaps ++ (ask_book e i m s.engine).0 ∷ [];
      }
  unfolding probe
  probe-answers i m s h = rw (h, probe)

  drop_next :
      (i : ℕ) (m : WorkloadMsg) (ms : List WorkloadMsg)
      → drop i workload ≡ m ∷ ms
      → drop (i + 1) workload ≡ ms
  drop_next i m ms h = sym (drop-drop 1 i workload) ∙ ap (drop 1) h

  found_next :
      (i : ℕ) (m : WorkloadMsg) (ms : List WorkloadMsg)
      → drop i workload ≡ m ∷ ms
      → get_elem? workload i ≡ some m
  found_next i m ms h =
      let there : i ≡ i + 0 = omega arith in
      ap (get_elem? workload) there
      ∙ sym (get_elem?-drop i 0 workload)
      ∙ ap (λ xs. get_elem? xs 0) h

  answers-nil : (i : ℕ) (ms : List WorkloadMsg) (st : e.State) → answers e i ms [] st ≡ []
  unfolding answers
  answers-nil i [] st = refl
  answers-nil i (m ∷ ms) st = refl

  snaps-message_loop :
      (i : ℕ) (ms : List WorkloadMsg) (idx : List ℕ) (s : Session e.State)
      → drop i workload ≡ ms
      → (message_loop e audit workload i (map prepare ms) idx s).snaps
        ≡ s.snaps ++ answers e i ms idx s.engine
  unfolding message_loop answers deliver
  snaps-message_loop i [] [] s h = sym (append-nil s.snaps)
  snaps-message_loop i [] (b ∷ rest) s h = sym (append-nil s.snaps)
  snaps-message_loop i (m ∷ ms) [] s h =
      let s' = deliver e audit workload (prepare m) s in
      snaps-message_loop (i + 1) ms [] s' (drop_next i m ms h)
      ∙ ap (λ qs. s.snaps ++ qs) (answers-nil (i + 1) ms s'.engine)
  snaps-message_loop i (m ∷ ms) (b ∷ rest) s h =
      let s' = deliver e audit workload (prepare m) s in
      let asked = ask_book e i m s'.engine in
      let probed = probe-answers i m s' (found_next i m ms h) in
      elim (Bool-cases (i == b)) [
        | inl t ↦
            rw (t, probed)
              (snaps-message_loop (i + 1) ms rest _ (drop_next i m ms h)
                ∙ append_assoc s.snaps (asked.0 ∷ []) (answers e (i + 1) ms rest asked.1))
        | inr t ↦ rw t (snaps-message_loop (i + 1) ms (b ∷ rest) s' (drop_next i m ms h))
      ]

  -- The entry point for batches, if there is one, keeps its contract.
  abbrev pub InOrder : Option (List MeMsg → e.State → e.State × List Report) → Type 0
  InOrder none = Unit
  InOrder (some f) = BatchInOrder e f

  -- The harness records the answers of the engine at the chosen points.
  pub snaps-window :
      (batches : Option (List MeMsg → e.State → e.State × List Report)) (idx : List ℕ)
      (st : e.State)
      → InOrder batches
      → length workload < 2 ^ 32
      → Rising 0 (length workload) idx
      → (window e audit workload batches idx st).snaps ≡ answers e 0 workload idx st
  unfolding window
  snaps-window none idx st c small h =
      snaps-message_loop 0 workload idx (record { engine = st; reports = []; snaps = [] }) refl
  snaps-window (some f) idx st c small h =
      ap (λ s. s.snaps) (window-batches e audit workload idx st f c small h)
      ∙ snaps-message_loop 0 workload idx (record { engine = st; reports = []; snaps = [] }) refl

-- The baseline as `run_state_audit` starts it.
abbrev pub baseline_start : (b : Engine) → List WorkloadMsg → b.State
baseline_start b workload = prebuild_all b (map prepare workload) (b.init 0)

run_state_audit-answers :
    (b : Engine) (workload : List WorkloadMsg) (idx : List ℕ) (uts : List QuerySnapshot)
    → Rising 0 (length workload) idx
    → 0 < length idx
    → map (λ q. q.index) uts ≡ idx
    → map question uts ≡ questions 0 workload idx
    → ((run_state_audit b workload uts).checks ≡ 3 * length idx)
      × (((run_state_audit b workload uts).passed ≡ true)
          ↔ (uts ≡ answers b 0 workload idx (baseline_start b workload)))
unfolding run_state_audit
run_state_audit-answers b workload idx [] h filled x y = absurd (omega (arith, ap length x))
run_state_audit-answers b workload idx (ut ∷ uts) h filled x y =
    let st = baseline_start b workload in
    let r0 : AuditReport = record blank_report { ran = true } in
    let replayed = replay_loop-Replays b 0 workload idx (ut ∷ uts) r0 st (rw zero-add h) x y in
    let r = (replay_loop b 0 workload (ut ∷ uts) r0 st).0 in
    let size : suc (length uts) ≡ length idx = sym (length-map (ut ∷ uts) _) ∙ ap length x in
    let checks : r.checks ≡ 3 * length idx = omega (arith, replayed.checks, size) in
    (
      checks,
      (
        λ passed. (replayed.clean (ground arith)).1,
        λ same. let none_found = replayed.same refl same in ground arith,
      ),
    )

module _ (e b : Engine) (workload : List WorkloadMsg)
    (batches : Option (List MeMsg → e.State → e.State × List Report)) (idx : List ℕ)
    (st : e.State) where
  -- The snapshots that an audited run of the engine under test records, and those that the same
  -- audited run of the baseline would record.
  abbrev pub under_test : List QuerySnapshot
  under_test = (window e audit workload batches idx st).snaps

  abbrev pub of_baseline : List QuerySnapshot
  of_baseline = (window b audit workload none idx (baseline_start b workload)).snaps

  -- The state audit makes three checks at each point, and passes exactly if the engine under test
  -- gave at every point the answers that the baseline gives there; for a choice of one or more points
  -- that rise in a workload of fewer than 2 ^ 32 messages.
  pub run_state_audit_iff :
      InOrder e workload batches
      → length workload < 2 ^ 32
      → Rising 0 (length workload) idx
      → 0 < length idx
      → ((run_state_audit b workload under_test).checks ≡ 3 * length idx)
        × (((run_state_audit b workload under_test).passed ≡ true) ↔ (under_test ≡ of_baseline))
  run_state_audit_iff c small h filled =
      let mine = snaps-window e workload batches idx st c small h in
      let theirs = snaps-window b workload none idx (baseline_start b workload) tt small h in
      rw theirs (
        run_state_audit-answers b workload idx under_test h filled
          (indices-window e workload audit batches idx st h)
          (ap (map question) mine ∙ questions-answers e 0 workload idx st))
