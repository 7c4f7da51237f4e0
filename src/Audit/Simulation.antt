-- ===== src/Audit/Simulation.antt =====
-- An engine that simulates the baseline passes the audit, whatever its own state looks like.
use matching_engine_benchmar.Common.{
  ℕ, ◌+◌, ◌^◌, ◌<◌, ◌≡◌, refl, sym, ◌∙◌, inl, inr, true, Option, none, List, [], ◌∷◌, ◌==◌,
  Bool-cases, length, ℤ,
}
use mathlib.Core.Path.{ap₂}
use matching_engine_benchmar.Abi.{
  NewOrder, Cancel, Modify, MeMsg, Report, new_msg, cancel_msg, modify_msg,
}
use matching_engine_benchmar.Workload.{WorkloadMsg}
use matching_engine_benchmar.Engine.{Engine, prepare, dispatch}
use matching_engine_benchmar.Run.{ask_book}
use matching_engine_benchmar.Run.Batch.{Rising}
use matching_engine_benchmar.Audit.{run_state_audit}
use matching_engine_benchmar.Audit.Replay.{answers}
use matching_engine_benchmar.Audit.Sound.{
  InOrder, baseline_start, snaps-window, under_test, run_state_audit_iff,
}

-- A relation between the states of two engines that every message keeps and under which both answer
-- every query alike.
pub record Simulates (e b : Engine) (R : e.State → b.State → Type 0) : Type 0 where
  pub on_new_order :
      (o : NewOrder) (s : e.State) (t : b.State)
      → R s t
      → R (e.on_new_order o s).0 (b.on_new_order o t).0
  pub on_cancel :
      (c : Cancel) (s : e.State) (t : b.State) → R s t → R (e.on_cancel c s).0 (b.on_cancel c t).0
  pub on_modify :
      (m : Modify) (s : e.State) (t : b.State) → R s t → R (e.on_modify m s).0 (b.on_modify m t).0
  pub best_bid :
      (s : e.State) (t : b.State)
      → R s t
      → ((e.query_best_bid s).0 ≡ (b.query_best_bid t).0)
        × R (e.query_best_bid s).1 (b.query_best_bid t).1
  pub best_ask :
      (s : e.State) (t : b.State)
      → R s t
      → ((e.query_best_ask s).0 ≡ (b.query_best_ask t).0)
        × R (e.query_best_ask s).1 (b.query_best_ask t).1
  pub depth_at :
      (p : ℤ) (d : ℕ) (s : e.State) (t : b.State)
      → R s t
      → ((e.query_depth_at p d s).0 ≡ (b.query_depth_at p d t).0)
        × R (e.query_depth_at p d s).1 (b.query_depth_at p d t).1

module _ (e b : Engine) (R : e.State → b.State → Type 0) (sim : Simulates e b R) where
  dispatch-Simulates :
      (p : MeMsg) (s : e.State) (t : b.State) → R s t → R (dispatch e p s).0 (dispatch b p t).0
  unfolding dispatch
  dispatch-Simulates (new_msg o) s t r = sim.on_new_order o s t r
  dispatch-Simulates (cancel_msg c) s t r = sim.on_cancel c s t r
  dispatch-Simulates (modify_msg m) s t r = sim.on_modify m s t r

  ask_book-Simulates :
      (i : ℕ) (m : WorkloadMsg) (s : e.State) (t : b.State)
      → R s t
      → ((ask_book e i m s).0 ≡ (ask_book b i m t).0) × R (ask_book e i m s).1 (ask_book b i m t).1
  unfolding ask_book
  ask_book-Simulates i m s t r =
      let (bid, r1) = sim.best_bid s t r in
      let (ask, r2) = sim.best_ask (e.query_best_bid s).1 (b.query_best_bid t).1 r1 in
      let (dep, r3) = sim.depth_at m.price_ticks m.side _ _ r2 in
      (
        λ j. record {
          index = i;
          best_bid = bid j;
          best_ask = ask j;
          probe_price = m.price_ticks;
          probe_side = m.side;
          depth = dep j;
        },
        r3,
      )

  answers-Simulates :
      (i : ℕ) (ms : List WorkloadMsg) (idx : List ℕ) (s : e.State) (t : b.State)
      → R s t
      → answers e i ms idx s ≡ answers b i ms idx t
  unfolding answers
  answers-Simulates i [] idx s t r = refl
  answers-Simulates i (m ∷ ms) [] s t r = refl
  answers-Simulates i (m ∷ ms) (x ∷ rest) s t r =
      let r' = dispatch-Simulates (prepare m) s t r in
      let (same, r'') = ask_book-Simulates i m _ _ r' in
      elim (Bool-cases (i == x)) [
        | inl h ↦ rw h (ap₂ ◌∷◌ same (answers-Simulates (i + 1) ms rest _ _ r''))
        | inr h ↦ rw h (answers-Simulates (i + 1) ms (x ∷ rest) _ _ r')
      ]

  -- An engine that simulates the baseline from the states in which the two runs start passes the
  -- state audit at every choice of points, batched delivery included.
  pub run_state_audit-Simulates :
      (workload : List WorkloadMsg)
      (batches : Option (List MeMsg → e.State → e.State × List Report)) (idx : List ℕ)
      (st : e.State)
      → InOrder e workload batches
      → length workload < 2 ^ 32
      → Rising 0 (length workload) idx
      → 0 < length idx
      → R st (baseline_start b workload)
      → (run_state_audit b workload (under_test e b workload batches idx st)).passed ≡ true
  run_state_audit-Simulates workload batches idx st c small h filled r =
      (run_state_audit_iff e b workload batches idx st c small h filled).1.1 (
        snaps-window e workload batches idx st c small h
        ∙ answers-Simulates 0 workload idx st (baseline_start b workload) r
        ∙ sym (snaps-window b workload none idx (baseline_start b workload) tt small h))
