-- ===== src/Drain.antt =====
-- The report hand-off: the transport operations of src/transport.cpp, and the drainer thread of
-- src/harness.cpp. The default transport is a wait-free queue of a library, a parameter; threads are
-- interleavings of pushes and drains.
pub mod Order
use matching_engine_benchmar.Common.{
  ℕ, zero, suc, ◌+◌, ◌^◌, Bool, true, Option, none, some, List, [], ◌∷◌, ◌++◌, ◌==◌, if◌then◌else◌,
}
use matching_engine_benchmar.Abi.{
  Report, me_order_ack, me_trade, me_cancel_ack, me_modify_ack, me_cancel_reject, me_modify_reject,
}
use matching_engine_benchmar.Correctness.{CollectedReport}

-- A transport over handles `Q`, `me_transport_t`. A push says whether the report was taken.
pub record Transport (Q : Type 0) : Type 0 where
  pub create : ℕ → Option Q
  pub push : Report → Q → Bool × Q
  pub drain : ℕ → Q → List Report × Q
  pub flush : Q → Q

-- The library queue behind `harness_default_transport`, `boost::lockfree::spsc_queue`.
pub record SpscQueue (Q : Type 0) : Type 0 where
  pub construct : ℕ → Option Q
  pub push : Report → Q → Bool × Q
  pub pop : ℕ → Q → List Report × Q

-- `harness_default_transport`: the entry points forward to the queue.
abbrev pub default_transport : {Q : Type 0} → SpscQueue Q → Transport Q
default_transport q = record { create = q.construct; push = q.push; drain = q.pop; flush = λ h. h }

-- `harness_null_transport`: takes every report and drops it.
abbrev pub null_transport : Transport (Unit {0})
null_transport = record {
  create = λ capacity. some tt;
  push = λ r h. (true, h);
  drain = λ n h. ([], h);
  flush = λ h. h;
}

abbrev pub queue_capacity : ℕ
queue_capacity = 2 ^ 20

abbrev pub drain_batch : ℕ
drain_batch = 256

-- `DrainState`, the tallies and the collected reports.
pub record DrainState : Type 0 where
  pub order_acks : ℕ
  pub trades : ℕ
  pub cancel_acks : ℕ
  pub modify_acks : ℕ
  pub cancel_rejects : ℕ
  pub modify_rejects : ℕ
  pub collected : List CollectedReport

abbrev pub start_state : DrainState
start_state = record {
  order_acks = 0;
  trades = 0;
  cancel_acks = 0;
  modify_acks = 0;
  cancel_rejects = 0;
  modify_rejects = 0;
  collected = [];
}

unfoldable pub collect : Report → CollectedReport
collect r = record {
  type = r.type;
  seq = r.sequence_number;
  side = r.side;
  order_id = r.order_id;
  price_ticks = r.price_ticks;
  quantity = r.quantity;
  maker_order_id = r.maker_order_id;
  taker_order_id = r.taker_order_id;
}

-- The `switch` on the type of one report.
unfoldable pub tally : ℕ → DrainState → DrainState
tally t s =
    if t == me_order_ack
    then record s { order_acks = s.order_acks + 1 }
    else if t == me_trade
    then record s { trades = s.trades + 1 }
    else if t == me_cancel_ack
    then record s { cancel_acks = s.cancel_acks + 1 }
    else if t == me_modify_ack
    then record s { modify_acks = s.modify_acks + 1 }
    else if t == me_cancel_reject
    then record s { cancel_rejects = s.cancel_rejects + 1 }
    else if t == me_modify_reject
    then record s { modify_rejects = s.modify_rejects + 1 }
    else s

unfoldable pub consume_one : Report → DrainState → DrainState
consume_one r s = tally r.type (record s { collected = s.collected ++ collect r ∷ [] })

-- `consume(n)`, over the reports of the batch.
unfoldable pub consume : List Report → DrainState → DrainState
consume [] s = s
consume (r ∷ rs) s = consume rs (consume_one r s)

module _ {Q : Type 0} (t : Transport Q) where
  -- The last loop of `drainer_main`: drain until nothing comes, on fuel.
  unfoldable pub drain_rest : ℕ → Q → DrainState → Option (Q × DrainState)
  drain_rest zero q s = none
  drain_rest (suc fuel) q s =
      let (batch, q') = t.drain drain_batch q in
      let more = drain_rest fuel q' (consume batch s) in
      elim batch [ [] ↦ some (q', s) | r ∷ rs ↦ more ]

-- What one of the two threads does next.
pub data Event : Type 0 where
  pushes : Report → Event
  drains : Event

module _ {Q : Type 0} (t : Transport Q) where
  -- A schedule of the engine's pushes and the drainer's rounds while the run lasts. A push that the
  -- queue refuses is tried again by a later event; the result lists the reports that were taken.
  unfoldable pub run_schedule :
      List Event → Q → DrainState → List Report → Q × DrainState × List Report
  run_schedule [] q s taken = (q, s, taken)
  run_schedule (pushes r ∷ es) q s taken =
      let (good, q') = t.push r q in run_schedule es q' s (if good then taken ++ r ∷ [] else taken)
  run_schedule (drains ∷ es) q s taken =
      let (batch, q') = t.drain drain_batch q in run_schedule es q' (consume batch s) taken

  -- The whole hand-off: the run, the flush of the transport, and the drainer's last loop. The result
  -- lists the reports that were taken, with the drainer's state.
  unfoldable pub hand_off : ℕ → List Event → Q → Option (List Report × DrainState)
  hand_off fuel es q =
      let (q', s, taken) = run_schedule es q start_state [] in
      elim (drain_rest t fuel (t.flush q') s) [ none ↦ none | some (q'', s') ↦ some (taken, s') ]
