-- ===== src/Run.antt =====
-- The timed window of `main` in src/harness.cpp: delivery of the workload with probes of the book,
-- one message at a time or in batches. Clocks are left out.
pub mod Batch
pub mod Modes
use matching_engine_benchmar.Common.{
  ℕ, ◌+◌, ◌-◌, ◌%◌, ◌^◌, Bool, ◌&&◌, Option, none, some, List, [], ◌∷◌, ◌++◌, map, ltb, ◌==◌,
  if◌then◌else◌, length, get_elem?, take, drop, ℤ, eqb_ℤ, int64_min, int64_max,
}
use matching_engine_benchmar.Abi.{MeMsg, Report}
use matching_engine_benchmar.Workload.{WorkloadMsg}
use matching_engine_benchmar.Engine.{Engine, prepare, dispatch, prebuild_all}

pub data Mode : Type 0 where
  perf audit : Mode

-- One probe of the book, `QuerySnapshot` of src/harness.h.
pub record QuerySnapshot : Type 0 where
  pub index : ℕ
  pub best_bid : ℤ
  pub best_ask : ℤ
  pub probe_price : ℤ
  pub probe_side : ℕ
  pub depth : ℕ

-- The engine, the reports that it has pushed, and the probes recorded.
pub record Session (S : Type 0) : Type 0 where
  pub engine : S
  pub reports : List Report
  pub snaps : List QuerySnapshot

abbrev pub push_snap : Mode → List QuerySnapshot → QuerySnapshot → List QuerySnapshot
push_snap perf snaps q = snaps
push_snap audit snaps q = snaps ++ q ∷ []

-- The answers of a book at one point, and the state that the three queries leave.
unfoldable pub ask_book : (e : Engine) → ℕ → WorkloadMsg → e.State → QuerySnapshot × e.State
ask_book e i m st =
    let (bid, st1) = e.query_best_bid st in
    let (ask, st2) = e.query_best_ask st1 in
    let (dep, st3) = e.query_depth_at m.price_ticks m.side st2 in
    (
      record {
        index = i;
        best_bid = bid;
        best_ask = ask;
        probe_price = m.price_ticks;
        probe_side = m.side;
        depth = dep;
      },
      st3,
    )

module _ (e : Engine) (mode : Mode) (workload : List WorkloadMsg) where
  -- `probe(i)`, after message `i`.
  unfoldable pub probe : ℕ → Session e.State → Session e.State
  probe i s = elim (get_elem? workload i) [
    | none ↦ s
    | some m ↦
        let (q, st) = ask_book e i m s.engine in
        record s { engine = st; snaps = push_snap mode s.snaps q }
  ]

  unfoldable pub deliver : MeMsg → Session e.State → Session e.State
  deliver p s =
      let (st, rs) = dispatch e p s.engine in record s { engine = st; reports = s.reports ++ rs }

  -- One message at a time. `i` counts the messages before; the third argument is `audit_idx` from
  -- `audit_cur` on.
  unfoldable pub message_loop : ℕ → List MeMsg → List ℕ → Session e.State → Session e.State
  message_loop i [] idx s = s
  message_loop i (p ∷ ps) [] s = message_loop (i + 1) ps [] (deliver p s)
  message_loop i (p ∷ ps) (b ∷ rest) s =
      let s' = deliver p s in
      let probed = message_loop (i + 1) ps rest (probe i s') in
      let unprobed = message_loop (i + 1) ps (b ∷ rest) s' in if i == b then probed else unprobed

  -- One call of `engine_on_batch`, on `n` messages from `start` on.
  unfoldable pub deliver_batch :
      (List MeMsg → e.State → e.State × List Report)
      → List MeMsg
      → ℕ
      → ℕ
      → Session e.State
      → Session e.State
  deliver_batch on_batch prepared start n s =
      let (st, rs) = on_batch (take n (drop start prepared)) s.engine in
      record s { engine = st; reports = s.reports ++ rs }

  -- In batches, each of which ends at the next probe index, and a tail after the last. The length of
  -- a batch is computed in `size_t` and cut to 32 bits.
  unfoldable pub batch_loop :
      (List MeMsg → e.State → e.State × List Report)
      → List MeMsg
      → ℕ
      → List ℕ
      → Session e.State
      → Session e.State
  batch_loop on_batch prepared start [] s =
      if ltb start (length prepared)
      then deliver_batch on_batch prepared start ((length prepared - start) % 2 ^ 32) s
      else s
  batch_loop on_batch prepared start (b ∷ rest) s = batch_loop on_batch prepared (b + 1) rest (
      probe b
        (deliver_batch on_batch prepared start ((2 ^ 64 + b - start + 1) % 2 ^ 64 % 2 ^ 32) s))

  -- The whole window: delivery in batches if there is an entry point for them, then the flush.
  unfoldable pub window :
      Option (List MeMsg → e.State → e.State × List Report) → List ℕ → e.State → Session e.State
  window batches audit_idx st =
      let prepared = map prepare workload in
      let start : Session e.State = record { engine = st; reports = []; snaps = [] } in
      let done : Session e.State = elim batches [
        | none ↦ message_loop 0 prepared audit_idx start
        | some on_batch ↦ batch_loop on_batch prepared 0 audit_idx start
      ] in
      let (flushed, rs) = e.flush done.engine in
      record done { engine = flushed; reports = done.reports ++ rs }

  -- The window with the entry points that the engine exports.
  unfoldable pub timed_run : List ℕ → e.State → Session e.State
  timed_run = window e.on_batch

-- `engine_init` with the nonce, the pre-build pass, and the pre-flight queries: is the book empty?
unfoldable pub set_up : (e : Engine) → ℕ → List WorkloadMsg → Bool × e.State
set_up e nonce workload =
    let st0 = prebuild_all e (map prepare workload) (e.init nonce) in
    let (pre_bid, st1) = e.query_best_bid st0 in
    let (pre_ask, st2) = e.query_best_ask st1 in
    (eqb_ℤ pre_bid int64_min && eqb_ℤ pre_ask int64_max, st2)
