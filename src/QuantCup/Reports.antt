-- ===== src/QuantCup/Reports.antt =====
-- The reports of the matching: the fills that the execution callback pushes.
use mathlib.Core.List.{append-nil, append_assoc}
use matching_engine_benchmar.Common.{
  ℕ, ◌%◌, ◌^◌, ◌≡◌, refl, sym, ap, subst, ◌∙◌, inl, inr, List, [], ◌∷◌, ◌++◌, arith, ◌==◌,
  if◌then◌else◌, Bool-cases, Option-cases, get_elem?, All, All-append,
}
use matching_engine_benchmar.Abi.{MeMsg, Report}
use matching_engine_benchmar.QuantCup.{
  Adapter, TExecution, push_report, find_order, report_fill, hit_taker, hit_maker, execution,
  executions, decode_id,
}
use matching_engine_benchmar.Answers.{IsFill, IsAnswered}

module _ {B : Type 0} where
  -- The pushes of a step: fills of the current message, which stays the current one.
  pub record Fills (s s' : Adapter B) : Type 0 where
    pub fills : List Report
    pub pushed : s'.reports ≡ s.reports ++ fills
    pub are_fills : All (IsFill s.seq) fills
    pub same_seq : s'.seq ≡ s.seq

  pub hit_taker-reports :
      (qty : ℕ) (s : Adapter B)
      → ((hit_taker qty s).reports ≡ s.reports) × ((hit_taker qty s).seq ≡ s.seq)
  unfolding hit_taker
  hit_taker-reports qty s = ground arith

  pub hit_maker-reports :
      (id qty : ℕ) (s : Adapter B)
      → ((hit_maker id qty s).reports ≡ s.reports) × ((hit_maker id qty s).seq ≡ s.seq)
  unfolding hit_maker find_order
  hit_maker-reports id qty s = elim (Option-cases (get_elem? s.orders id)) [
    | inl e ↦ ground (arith, e)
    | inr (o, e) ↦ ground (arith, e)
  ]

  pub execution-Fills : (x : TExecution) (s : Adapter B) → Fills s (execution x s)
  unfolding execution report_fill push_report
  execution-Fills x s =
      let qty = x.size % 2 ^ 32 in
      let t = hit_taker-reports qty (report_fill x s) in
      let m = hit_maker-reports (decode_id x.trader) qty (hit_taker qty (report_fill x s)) in
      elim (Bool-cases (if s.taker_side == 0 then x.side == 1 else x.side == 0)) [
        | inl e ↦ rw e (record {
          fills = _;
          pushed = m.0 ∙ t.0;
          are_fills = ((refl, refl), tt);
          same_seq = m.1 ∙ t.1;
        })
        | inr e ↦ rw e (record {
          fills = [];
          pushed = sym (append-nil s.reports);
          are_fills = tt;
          same_seq = refl;
        })
      ]

  pub executions-Fills : (xs : List TExecution) (s : Adapter B) → Fills s (executions xs s)
  unfolding executions
  executions-Fills [] s = record {
    fills = [];
    pushed = sym (append-nil s.reports);
    are_fills = tt;
    same_seq = refl;
  }
  executions-Fills (x ∷ xs) s =
      let f = execution-Fills x s in
      let g = executions-Fills xs (execution x s) in
      record {
        fills = f.fills ++ g.fills;
        pushed =
            g.pushed ∙ ap (λ l. l ++ g.fills) f.pushed ∙ append_assoc s.reports f.fills g.fills;
        are_fills =
            All-append _ f.fills g.fills f.are_fills
              (subst (λ n. All (IsFill n) g.fills) f.same_seq g.are_fills);
        same_seq = g.same_seq ∙ f.same_seq;
      }

abbrev pub Answered : {B : Type 0} → MeMsg → Adapter B → Adapter B → Type 0
Answered m s s' = (rs : List Report) × (s'.reports ≡ s.reports ++ rs) × IsAnswered m rs
