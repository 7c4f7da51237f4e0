-- ===== src/Engine.antt =====
-- A loaded engine, `EngineLib` of src/harness.h: the ABI entry points of the shared object, over the
-- state that its globals make up. The engine is code outside the repository, so all of it is a
-- parameter. An entry point returns the new state and the reports that it pushed; a query may change
-- the state too. `none` stands for an optional symbol that is not exported.
use matching_engine_benchmar.Common.{
  ℕ, ◌≡◌, Option, none, some, List, [], ◌∷◌, ◌++◌, ◌==◌, if◌then◌else◌, ℤ,
}
use matching_engine_benchmar.Abi.{
  NewOrder, Cancel, Modify, MeMsg, new_msg, cancel_msg, modify_msg, Report,
}
use matching_engine_benchmar.Workload.{WorkloadMsg, msg_new, msg_cancel}

pub record Engine : Type 1 where
  pub State : Type 0
  pub init : ℕ → State
  pub on_new_order : NewOrder → State → State × List Report
  pub on_cancel : Cancel → State → State × List Report
  pub on_modify : Modify → State → State × List Report
  pub flush : State → State × List Report
  pub query_best_bid : State → ℤ × State
  pub query_best_ask : State → ℤ × State
  pub query_depth_at : ℤ → ℕ → State → ℕ × State
  pub prebuild : Option (MeMsg → State → State)
  pub on_batch : Option (List MeMsg → State → State × List Report)

-- The ABI struct of a workload message: the pre-build loop of `main`, and the same marshaling in
-- `feed` and `prebuild_msg` of src/audit.cpp.
unfoldable pub prepare : WorkloadMsg → MeMsg
prepare m =
    if m.type == msg_new
    then new_msg (record {
      order_id = m.order_id;
      sequence_number = m.seq;
      price_ticks = m.price_ticks;
      quantity = m.qty;
      side = m.side;
      ioc = m.ioc;
    })
    else if m.type == msg_cancel
    then cancel_msg (record { order_id = m.order_id; sequence_number = m.seq })
    else modify_msg (record {
      order_id = m.order_id;
      sequence_number = m.seq;
      new_price_ticks = m.price_ticks;
      new_quantity = m.qty;
      side = m.side;
    })

-- `dispatch`: one message to its entry point.
unfoldable pub dispatch : (e : Engine) → MeMsg → e.State → e.State × List Report
dispatch e (new_msg o) = e.on_new_order o
dispatch e (cancel_msg c) = e.on_cancel c
dispatch e (modify_msg md) = e.on_modify md

-- Every message to its entry point, in order: what one-at-a-time delivery of a run amounts to.
unfoldable pub dispatch_all : (e : Engine) → List MeMsg → e.State → e.State × List Report
dispatch_all e [] st = (st, [])
dispatch_all e (p ∷ ps) st =
    let (st1, first) = dispatch e p st in
    let (st2, others) = dispatch_all e ps st1 in (st2, first ++ others)

-- The contract of `engine_on_batch` in api/matching_engine_api.h: the same as one at a time.
abbrev pub BatchInOrder : (e : Engine) → (List MeMsg → e.State → e.State × List Report) → Type 0
BatchInOrder e on_batch = (ps : List MeMsg) (st : e.State) → on_batch ps st ≡ dispatch_all e ps st

-- The optional pre-build pass over the whole workload.
unfoldable pub prebuild_each : {S : Type 0} → (MeMsg → S → S) → List MeMsg → S → S
prebuild_each f [] st = st
prebuild_each f (p ∷ ps) st = prebuild_each f ps (f p st)

unfoldable pub prebuild_all : (e : Engine) → List MeMsg → e.State → e.State
unfolding prebuild_each
prebuild_all e ps st = elim e.prebuild [ none ↦ st | some f ↦ prebuild_each f ps st ]
