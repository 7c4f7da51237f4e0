-- ===== src/Tests/HandOff.antt =====
-- A queue of two slots, and the hand-off through it.
use matching_engine_benchmar.Common.{
  ℕ, ◌≡◌, refl, Bool, Option, none, some, List, [], ◌∷◌, ◌++◌, ltb, if◌then◌else◌, length, take,
  drop, pos,
}
use matching_engine_benchmar.Abi.{Report}
use matching_engine_benchmar.Drain.{
  SpscQueue, default_transport, hand_off, run_schedule, consume, consume_one, tally, drain_rest,
  Event, pushes, drains, DrainState,
}

abbrev push_two : Report → List Report → Bool × List Report
push_two r h = (ltb (length h) 2, if ltb (length h) 2 then h ++ r ∷ [] else h)

abbrev two_slots : SpscQueue (List Report)
two_slots = record {
  construct = λ capacity. some [];
  push = push_two;
  pop = λ n h. (take n h, drop n h);
}

held : List Report → List Report
held h = h

abbrev report : ℕ → ℕ → Report
report type sequence_number = record {
  type = type;
  side = 0;
  sequence_number = sequence_number;
  order_id = sequence_number;
  price_ticks = pos 100;
  quantity = 1;
  maker_order_id = 0;
  taker_order_id = 0;
}

-- The third push finds the queue full; the fourth one finds room again.
abbrev busy : List Event
busy =
    pushes (report 0 1)
    ∷ pushes (report 1 1)
    ∷ pushes (report 2 2)
    ∷ drains
    ∷ pushes (report 2 2)
    ∷ []

counts : Option (List Report × DrainState) → ℕ × ℕ × ℕ
counts none = (0, 0, 0)
counts (some (taken, s)) = (length taken, s.trades, s.cancel_acks)

hand_off-busy : counts (hand_off (default_transport two_slots) 10 busy []) ≡ (3, 1, 1)
unfolding hand_off run_schedule counts consume consume_one tally drain_rest
hand_off-busy = refl
