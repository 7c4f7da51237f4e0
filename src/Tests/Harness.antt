-- ===== src/Tests/Harness.antt =====
-- A small engine, and the harness and the audit over it.
use matching_engine_benchmar.Common.{
  ℕ, ◌+◌, ◌*◌, ◌/◌, ◌%◌, ◌<◌, ◌≡◌, refl, ap, ◌↔◌, true, none, some, List, [], ◌∷◌, arith, length,
  pos,
}
use matching_engine_benchmar.Abi.{NewOrder, MeMsg, Report, me_order_ack}
use matching_engine_benchmar.Workload.{WorkloadMsg}
use matching_engine_benchmar.Engine.{Engine, BatchInOrder, dispatch_all, prebuild_all}
use matching_engine_benchmar.Run.{perf, audit, window}
use matching_engine_benchmar.Run.Batch.{Rising, window-batches}
use matching_engine_benchmar.Run.Modes.{Agree, indices, window-perf-audit, indices-window}
use matching_engine_benchmar.Audit.{audit_pick_indices, run_state_audit}
use matching_engine_benchmar.Audit.Points.{IsChoice, audit_pick_indices-IsChoice}
use matching_engine_benchmar.Audit.Sound.{
  under_test, of_baseline, baseline_start, run_state_audit_iff,
}
use matching_engine_benchmar.Audit.Simulation.{Simulates, run_state_audit-Simulates}

abbrev ack : NewOrder → Report
ack o = record {
  type = me_order_ack;
  side = o.side;
  sequence_number = o.sequence_number;
  order_id = o.order_id;
  price_ticks = o.price_ticks;
  quantity = o.quantity;
  maker_order_id = 0;
  taker_order_id = 0;
}

-- An engine that counts its new orders and shows the count as its best bid and as its depth.
abbrev counter : Engine
counter = record {
  State = ℕ;
  init = λ nonce. 0;
  on_new_order = λ o st. (st + 1, ack o ∷ []);
  on_cancel = λ c st. (st, []);
  on_modify = λ m st. (st, []);
  flush = λ st. (st, []);
  query_best_bid = λ st. (pos st, st);
  query_best_ask = λ st. (pos 0, st);
  query_depth_at = λ p d st. (st, st);
  prebuild = none;
  on_batch = none;
}

abbrev counter_batch : List MeMsg → ℕ → ℕ × List Report
counter_batch ps st = dispatch_all counter ps st

-- Another engine with the same answers: it keeps twice the count.
abbrev doubled : Engine
doubled = record {
  State = ℕ;
  init = λ nonce. 0;
  on_new_order = λ o st. (st + 2, []);
  on_cancel = λ c st. (st, []);
  on_modify = λ m st. (st, []);
  flush = λ st. (st, []);
  query_best_bid = λ st. (pos (st / 2), st);
  query_best_ask = λ st. (pos 0, st);
  query_depth_at = λ p d st. (st / 2, st);
  prebuild = none;
  on_batch = none;
}

abbrev new_order : ℕ → ℕ → WorkloadMsg
new_order seq id = record {
  type = 0;
  side = 0;
  ioc = 0;
  qty = 5;
  seq = seq;
  order_id = id;
  price_ticks = pos 33504;
}

abbrev workload : List WorkloadMsg
workload = new_order 0 1 ∷ new_order 1 2 ∷ record (new_order 2 1) { type = 1 } ∷ new_order 3 3 ∷ []

abbrev probes : List ℕ
probes = 1 ∷ 2 ∷ []

counter_batch-in_order : BatchInOrder counter counter_batch
counter_batch-in_order ps st = refl

probes-Rising : Rising 0 (length workload) probes
probes-Rising = omega arith

window-batches_example :
    window counter audit workload (some counter_batch) probes 0
    ≡ window counter audit workload none probes 0
window-batches_example =
    window-batches counter audit workload probes 0 counter_batch counter_batch-in_order
      (omega arith) probes-Rising

window-perf-audit_example :
    Agree counter workload
      (window counter perf workload (some counter_batch) probes 0)
      (window counter audit workload (some counter_batch) probes 0)
window-perf-audit_example = window-perf-audit counter workload (some counter_batch) probes 0

indices-window_example :
    indices counter workload (window counter audit workload (some counter_batch) probes 0) ≡ probes
indices-window_example =
    indices-window counter workload audit (some counter_batch) probes 0 probes-Rising

run_state_audit_iff_example :
    ((run_state_audit doubled workload
        (under_test counter doubled workload (some counter_batch) probes 0)).checks
      ≡ 6)
    × (((run_state_audit doubled workload
            (under_test counter doubled workload (some counter_batch) probes 0)).passed
          ≡ true)
        ↔ (under_test counter doubled workload (some counter_batch) probes 0
            ≡ of_baseline counter doubled workload (some counter_batch) probes 0))
run_state_audit_iff_example =
    run_state_audit_iff counter doubled workload (some counter_batch) probes 0
      counter_batch-in_order (omega arith) probes-Rising (omega arith)

abbrev IsDouble : ℕ → ℕ → Type 0
IsDouble s t = t ≡ 2 * s

counter-simulates : Simulates counter doubled IsDouble
counter-simulates = record {
  on_new_order = λ o s t r. omega arith;
  on_cancel = λ c s t r. r;
  on_modify = λ m s t r. r;
  best_bid = λ s t r. (ap pos (omega arith), r);
  best_ask = λ s t r. (refl, r);
  depth_at = λ p d s t r. (omega arith, r);
}

doubled_start : IsDouble 0 (baseline_start doubled workload)
unfolding prebuild_all
doubled_start = refl

run_state_audit-Simulates_example :
    (run_state_audit doubled workload
      (under_test counter doubled workload (some counter_batch) probes 0)).passed
    ≡ true
run_state_audit-Simulates_example =
    run_state_audit-Simulates counter doubled IsDouble counter-simulates workload
      (some counter_batch) probes 0 counter_batch-in_order (omega arith) probes-Rising (omega arith)
      doubled_start

-- A generator that counts up hits every residue.
counting_covers : (y : ℕ) → y < 10 → (j : ℕ) × (j < 10) × (j % 10 ≡ y)
counting_covers y h = (y, h, omega arith)

audit_pick_indices-IsChoice_example :
    (xs : List ℕ) × (audit_pick_indices 10 (λ j. j) 10 (pos 4) ≡ some xs) × IsChoice 10 4 xs
audit_pick_indices-IsChoice_example = audit_pick_indices-IsChoice 10 (λ j. j) 10 4 counting_covers
