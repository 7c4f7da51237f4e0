-- ===== src/Drain/Order.antt =====
-- No report is lost, doubled or reordered between the engine and the canonical hash.
use matching_engine_benchmar.Common.{
  ℕ, ◌<◌, ◌≡◌, true, false, Option, some, List, [], ◌∷◌, ◌++◌, map, ◌==◌, keep, length,
}
use matching_engine_benchmar.Abi.{Report}
use matching_engine_benchmar.Correctness.{CollectedReport}
use matching_engine_benchmar.Drain.{Transport, DrainState, collect}

-- What the harness asks of a transport, stated over the reports in flight: a push that is taken adds
-- one at the end, a refused push changes nothing, and a drain hands out the oldest, at least one
-- unless there is none.
pub record IsFifo {Q : Type 0} (t : Transport Q) (held : Q → List Report) : Type 0 where
  pub push_taken :
      (r : Report) (q : Q) → (t.push r q).0 ≡ true → held (t.push r q).1 ≡ held q ++ r ∷ []
  pub push_refused : (r : Report) (q : Q) → (t.push r q).0 ≡ false → held (t.push r q).1 ≡ held q
  pub drain_front : (n : ℕ) (q : Q) → (t.drain n q).0 ++ held (t.drain n q).1 ≡ held q
  pub flush_kept : (q : Q) → held (t.flush q) ≡ held q
  pub drain_some : (n : ℕ) (q : Q) → 0 < n → (t.drain n q).0 ≡ [] → held q ≡ []

-- The number of reports of one type.
abbrev pub of_type : ℕ → List CollectedReport → ℕ
of_type t rs = length (keep (λ r. r.type == t) rs)

-- The tallies count the collected reports by type.
pub record IsTallied (s : DrainState) : Type 0 where
  pub order_acks : s.order_acks ≡ of_type 0 s.collected
  pub trades : s.trades ≡ of_type 1 s.collected
  pub cancel_acks : s.cancel_acks ≡ of_type 2 s.collected
  pub modify_acks : s.modify_acks ≡ of_type 3 s.collected
  pub cancel_rejects : s.cancel_rejects ≡ of_type 4 s.collected
  pub modify_rejects : s.modify_rejects ≡ of_type 5 s.collected

module _ {Q : Type 0} (t : Transport Q) (held : Q → List Report) (fifo : IsFifo t held) where
  -- What has been taken is what has been collected and what is still in flight.
  record IsHanded (q : Q) (s : DrainState) (taken : List Report) : Type 0 where
    split : s.collected ++ map collect (held q) ≡ map collect taken
    tallied : IsTallied s

  -- An answer of the drainer's last loop that has collected all of `taken`.
  abbrev IsDone : Option (Q × DrainState) → List Report → Type 0
  IsDone o taken =
      (q' : Q) × (s' : DrainState) × (o ≡ some (q', s'))
      × (s'.collected ≡ map collect taken)
      × IsTallied s'
