-- ===== src/Audit.antt =====
-- The anti-cheat audit, src/audit.cpp: the choice of the probe points, and the replay of the workload
-- through a baseline engine whose answers are compared with the recorded ones. The thread count of
-- the process is input and output only.
pub mod Points
pub mod Replay
pub mod Sound
pub mod Simulation
use matching_engine_benchmar.Common.{
  ℕ, zero, suc, ◌+◌, ◌%◌, min, Bool, true, false, not, ◌&&◌, ◌||◌, Option, none, some, List, [],
  ◌∷◌, map, ltb, ◌==◌, if◌then◌else◌, length, ℤ, pos, pos_part, ltb_ℤ, eqb_ℤ,
}
use matching_engine_benchmar.Abi.{MeMsg}
use matching_engine_benchmar.Workload.{WorkloadMsg}
use matching_engine_benchmar.Engine.{Engine, prepare, dispatch, prebuild_all}
use matching_engine_benchmar.Run.{QuerySnapshot}

-- `std::set::insert`, over the elements in their order.
unfoldable pub set_insert : ℕ → List ℕ → List ℕ
set_insert x [] = x ∷ []
set_insert x (y ∷ ys) =
    if ltb x y then x ∷ y ∷ ys else if x == y then y ∷ ys else y ∷ set_insert x ys

-- `while (picked.size() < want) picked.insert(rng() % count);` on fuel. `rng` gives the words of the
-- generator from the `k`-th on; `none` means that the fuel ran out.
unfoldable pub pick_loop : ℕ → (ℕ → ℕ) → ℕ → ℕ → ℕ → List ℕ → Option (List ℕ)
pick_loop zero rng k count want picked = if ltb (length picked) want then none else some picked
pick_loop (suc fuel) rng k count want picked =
    let more = pick_loop fuel rng (k + 1) count want (set_insert (rng k % count) picked) in
    if ltb (length picked) want then more else some picked

-- `audit_pick_indices`, over the words of `std::mt19937_64` for its seed.
unfoldable pub audit_pick_indices : ℕ → (ℕ → ℕ) → ℕ → ℤ → Option (List ℕ)
audit_pick_indices fuel rng count n =
    if count == 0 || not (ltb_ℤ (pos 0) n)
    then some []
    else pick_loop fuel rng 0 count (min (pos_part n) count) []

pub data Note : Type 0 where
  no_note no_snapshots matched diverged : Note

-- `AuditReport`; the seed and the baseline's name are filled in by `main`.
pub record AuditReport : Type 0 where
  pub ran : Bool
  pub passed : Bool
  pub checks : ℕ
  pub mismatches : ℕ
  pub note : Note

abbrev pub blank_report : AuditReport
blank_report = record { ran = false; passed = false; checks = 0; mismatches = 0; note = no_note }

abbrev pub count_unless : Bool → ℕ → ℕ
count_unless good n = if good then n else n + 1

module _ (e : Engine) where
  -- The three answers of the baseline at a snapshot, compared with the recorded ones.
  -- The two counts, ints in the source, stay far below their bound: a run has few points, with three checks
  -- at each.
  unfoldable pub compare_at : QuerySnapshot → AuditReport → e.State → AuditReport × e.State
  compare_at ut r st =
      let (bb, st1) = e.query_best_bid st in
      let (ba, st2) = e.query_best_ask st1 in
      let (dp, st3) = e.query_depth_at ut.probe_price ut.probe_side st2 in
      let m1 = count_unless (eqb_ℤ bb ut.best_bid) r.mismatches in
      let m2 = count_unless (eqb_ℤ ba ut.best_ask) m1 in
      let m3 = count_unless (dp == ut.depth) m2 in
      (record r { checks = r.checks + 3; mismatches = m3 }, st3)

  -- The replay loop. `i` counts the messages before; the third argument is `under_test` from `cur` on.
  unfoldable pub replay_loop :
      ℕ → List WorkloadMsg → List QuerySnapshot → AuditReport → e.State → AuditReport × e.State
  replay_loop i [] uts r st = (r, st)
  replay_loop i (m ∷ ms) [] r st = (r, st)
  replay_loop i (m ∷ ms) (ut ∷ uts) r st =
      let st' = (dispatch e (prepare m) st).0 in
      let skipped = replay_loop (i + 1) ms (ut ∷ uts) r st' in
      let (r', st'') = compare_at ut r st' in
      let compared = replay_loop (i + 1) ms uts r' st'' in
      if ut.index == i then compared else skipped

  -- `run_state_audit`. The baseline's reports go to the null transport, which drops them.
  unfoldable pub run_state_audit : List WorkloadMsg → List QuerySnapshot → AuditReport
  run_state_audit workload [] = record blank_report { ran = true; note = no_snapshots }
  run_state_audit workload (ut ∷ uts) =
      let st = prebuild_all e (map prepare workload) (e.init 0) in
      let r = (replay_loop 0 workload (ut ∷ uts) (record blank_report { ran = true }) st).0 in
      let passed = ltb 0 r.checks && r.mismatches == 0 in
      record r { passed = passed; note = if passed then matched else diverged }
