-- ===== src/Audit/Replay.antt =====
-- The replay finds a mismatch exactly where the recorded answers differ from the baseline's own.
use matching_engine_benchmar.Common.{
  ℕ, suc, ◌+◌, ◌*◌, ◌≡◌, refl, ap, inl, inr, true, false, List, [], ◌∷◌, map, arith, ◌==◌,
  if◌then◌else◌, ==_iff, Bool-cases, length, ℤ,
}
use mathlib.Core.Path.{ap₂}
use matching_engine_benchmar.Workload.{WorkloadMsg}
use matching_engine_benchmar.Engine.{Engine, prepare, dispatch}
use matching_engine_benchmar.Run.{QuerySnapshot, ask_book}
use matching_engine_benchmar.Run.Batch.{Rising}
use matching_engine_benchmar.Audit.{AuditReport, compare_at, replay_loop}

-- What a probe asks: the price and the side.
abbrev pub question : QuerySnapshot → ℤ × ℕ
question q = (q.probe_price, q.probe_side)

-- The questions of the probes at `idx`, from message `i` on.
unfoldable pub questions : ℕ → List WorkloadMsg → List ℕ → List (ℤ × ℕ)
questions i [] idx = []
questions i (m ∷ ms) [] = []
questions i (m ∷ ms) (b ∷ rest) =
    let here = questions (i + 1) ms rest in
    let later = questions (i + 1) ms (b ∷ rest) in
    if i == b then (m.price_ticks, m.side) ∷ here else later

module _ (e : Engine) where
  -- The answers that an engine gives at the points `idx`.
  unfoldable pub answers : ℕ → List WorkloadMsg → List ℕ → e.State → List QuerySnapshot
  answers i [] idx st = []
  answers i (m ∷ ms) [] st = []
  answers i (m ∷ ms) (b ∷ rest) st =
      let st' = (dispatch e (prepare m) st).0 in
      let asked = ask_book e i m st' in
      let here = asked.0 ∷ answers (i + 1) ms rest asked.1 in
      let later = answers (i + 1) ms (b ∷ rest) st' in if i == b then here else later

  pub questions-answers :
      (i : ℕ) (ms : List WorkloadMsg) (idx : List ℕ) (st : e.State)
      → map question (answers i ms idx st) ≡ questions i ms idx
  unfolding questions answers ask_book
  questions-answers i [] idx st = refl
  questions-answers i (m ∷ ms) [] st = refl
  questions-answers i (m ∷ ms) (b ∷ rest) st =
      let st' = (dispatch e (prepare m) st).0 in
      elim (Bool-cases (i == b)) [
        | inl h ↦ rw h (
            ap (◌∷◌ (m.price_ticks, m.side))
              (questions-answers (i + 1) ms rest (ask_book e i m st').1))
        | inr h ↦ rw h (questions-answers (i + 1) ms (b ∷ rest) st')
      ]

  -- One comparison: three checks, and no new mismatch exactly if the snapshots are the same.
  record Compares (ut q : QuerySnapshot) (r r' : AuditReport) : Type 0 where
    checks : r'.checks ≡ r.checks + 3
    clean : r'.mismatches ≡ 0 → (r.mismatches ≡ 0) × (ut ≡ q)
    same : r.mismatches ≡ 0 → ut ≡ q → r'.mismatches ≡ 0

  compare_at-Compares :
      (ut : QuerySnapshot) (i : ℕ) (m : WorkloadMsg) (r : AuditReport) (st : e.State)
      → ut.index ≡ i
      → question ut ≡ (m.price_ticks, m.side)
      → ((compare_at e ut r st).1 ≡ (ask_book e i m st).1)
        × Compares ut (ask_book e i m st).0 r (compare_at e ut r st).0
  unfolding compare_at ask_book
  compare_at-Compares ut i m r st h k =
      let price : ut.probe_price ≡ m.price_ticks = ap (λ (x : ℤ × ℕ). x.0) k in
      let side : ut.probe_side ≡ m.side = ap (λ (x : ℤ × ℕ). x.1) k in
      let st2 = (e.query_best_ask (e.query_best_bid st).1).1 in
      let depth : (e.query_depth_at ut.probe_price ut.probe_side st2).0
          ≡ (e.query_depth_at m.price_ticks m.side st2).0 =
        ap₂ (λ p s. (e.query_depth_at p s st2).0) price side in
      (
        ap₂ (λ p s. (e.query_depth_at p s st2).1) price side,
        record { checks = refl; clean = λ z. ground arith; same = λ z q. ground arith },
      )

  -- The whole replay: three checks for each snapshot, and no new mismatch exactly if the snapshots are
  -- the baseline's own answers.
  pub record Replays (uts qs : List QuerySnapshot) (r r' : AuditReport) : Type 0 where
    pub checks : r'.checks ≡ r.checks + 3 * length uts
    pub clean : r'.mismatches ≡ 0 → (r.mismatches ≡ 0) × (uts ≡ qs)
    pub same : r.mismatches ≡ 0 → uts ≡ qs → r'.mismatches ≡ 0

  Replays-cons :
      (ut q : QuerySnapshot) (uts qs : List QuerySnapshot) (r r1 r2 : AuditReport)
      → Compares ut q r r1
      → Replays uts qs r1 r2
      → Replays (ut ∷ uts) (q ∷ qs) r r2
  Replays-cons ut q uts qs r r1 r2 c d = record {
    checks = omega (arith, c.checks, d.checks);
    clean = λ z.
        let (z1, tails) = d.clean z in let (z0, heads) = c.clean z1 in (z0, ap₂ ◌∷◌ heads tails);
    same = λ z e.
        let heads : ut ≡ q = cc in let tails : uts ≡ qs = cc in d.same (c.same z heads) tails;
  }

  pub replay_loop-Replays :
      (i : ℕ) (ms : List WorkloadMsg) (idx : List ℕ) (uts : List QuerySnapshot) (r : AuditReport)
      (st : e.State)
      → Rising i (i + length ms) idx
      → map (λ q. q.index) uts ≡ idx
      → map question uts ≡ questions i ms idx
      → Replays uts (answers i ms idx st) r (replay_loop e i ms uts r st).0
  unfolding replay_loop answers questions
  replay_loop-Replays i [] [] [] r st h x y = record {
    checks = omega arith;
    clean = λ z. (z, refl);
    same = λ z q. z;
  }
  replay_loop-Replays i [] [] (ut ∷ uts) r st h x y = absurd (cc)
  replay_loop-Replays i [] (b ∷ rest) uts r st h x y = absurd (omega arith)
  replay_loop-Replays i (m ∷ ms) [] [] r st h x y = record {
    checks = omega arith;
    clean = λ z. (z, refl);
    same = λ z q. z;
  }
  replay_loop-Replays i (m ∷ ms) [] (ut ∷ uts) r st h x y = absurd (cc)
  replay_loop-Replays i (m ∷ ms) (b ∷ rest) [] r st h x y = absurd (cc)
  replay_loop-Replays i (m ∷ ms) (b ∷ rest) (ut ∷ uts) r st h x y =
      let st' = (dispatch e (prepare m) st).0 in
      let size : i + 1 + length ms ≡ i + suc (length ms) = omega arith in
      let index : ut.index ≡ b = cc in
      let indices : map (λ q. q.index) uts ≡ rest = cc in
      elim (Bool-cases (i == b)) [
        | inl t ↦
            let hit : (ut.index == i) ≡ true = ground arith in
            let asks : question ut ∷ map question uts
                ≡ (m.price_ticks, m.side) ∷ questions (i + 1) ms rest =
              rw t at y in
            let first : question ut ≡ (m.price_ticks, m.side) = cc in
            let others : map question uts ≡ questions (i + 1) ms rest = cc in
            let at_i : ut.index ≡ i = ground arith in
            let (moved, compared) = compare_at-Compares ut i m r st' at_i first in
            let same_point : i ≡ b = (==_iff i b).0 t in
            let rising : Rising (i + 1) (i + 1 + length ms) rest =
              rw size (rw (← same_point) at h.2) in
            let asked = ask_book e i m st' in
            rw (t, hit, moved)
              (Replays-cons ut asked.0 uts _ r _ _ compared (
                replay_loop-Replays (i + 1) ms rest uts (compare_at e ut r st').0 asked.1 rising
                  indices others))
        | inr t ↦
            let miss : (ut.index == i) ≡ false = ground arith in
            let rising : Rising (i + 1) (i + 1 + length ms) (b ∷ rest) =
              rw size (ground arith, h.1, h.2) in
            rw (t, miss)
              (replay_loop-Replays (i + 1) ms (b ∷ rest) (ut ∷ uts) r st' rising x (rw t at y))
      ]
