-- ===== src/ExchangeCore/Single.antt =====
-- One message through its own entry point of the exchange-core adapter.
use matching_engine_benchmar.Common.{
  ℕ, ◌+◌, ◌-◌, ◌%◌, ◌^◌, ◌≤◌, ◌<◌, ◌≡◌, refl, sym, ap, ◌∙◌, inl, inr, Bool, true, false, not, none,
  some, List, [], ◌∷◌, ◌++◌, map, arith, ltb, ◌==◌, if◌then◌else◌, Bool-cases, Option-cases, length,
  length-set, get_or, take, get_or-set_self, ℤ, pos, ok, ◌>>=◌,
}
use mathlib.Core.List.{append-nil, append_assoc}
use matching_engine_benchmar.Abi.{
  NewOrder, Cancel, Modify, MeMsg, new_msg, cancel_msg, modify_msg, me_order_ack, me_cancel_ack,
  me_modify_ack, me_cancel_reject, me_modify_reject,
}
use matching_engine_benchmar.Answers.{ack_report}
use matching_engine_benchmar.ExchangeCore.{
  MatcherTradeEvent, IOrderBook, StageTrade, blank_trade, Adapter, as_jint, emit_ack,
  emit_staged_trades, push_report, staged_report, total,
}
use matching_engine_benchmar.ExchangeCore.Handlers.{
  side_of, stage_price, on_new, on_cancel, on_modify, cancel_residual, engine_on_new_order,
  engine_on_cancel, engine_on_modify, modified, handle,
}
use matching_engine_benchmar.ExchangeCore.Answer.{
  trades, filled, count_trades, staging, map-staging, total-staging, write_trades-Staged,
  residual_of, answer, IsFew, IsMatched, IsMessage,
}

pub as_jint_pos : (q : ℕ) → q < 2 ^ 31 → as_jint q ≡ pos q
as_jint_pos q h = ground (arith, h)

module _ {B : Type 0} where
  -- The residual of an order that is filled by at most its quantity.
  cancel_residual-reports :
      (o : NewOrder) (n : ℕ) (s : Adapter B)
      → IsMessage (new_msg o)
      → n ≤ o.quantity
      → cancel_residual o (n, s) ≡ record s { reports = s.reports ++ residual_of o n }
  unfolding cancel_residual emit_ack push_report
  cancel_residual-reports o n s h k = elim (Bool-cases (o.ioc == 1)) [
    | inl e ↦
        let set : (o.ioc == 0) ≡ false = ground (arith, e) in
        elim (Bool-cases (ltb n o.quantity)) [
          | inl l ↦
              let left : (o.quantity - n) % 2 ^ 32 ≡ o.quantity - n = omega (arith, h.0) in
              rw (set, l, e, left) refl
          | inr l ↦ rw (set, l, e) (λ i. record s { reports = sym (append-nil s.reports) i })
        ]
    | inr e ↦
        let unset : (o.ioc == 0) ≡ true = ground (arith, e, h.1) in
        rw (unset, e) (λ i. record s { reports = sym (append-nil s.reports) i })
  ]

module _ {B : Type 0} (lib : IOrderBook B) (law : IsMatched lib) where
  -- An order that is placed: its fills are staged, and then emitted.
  record Placed (oid seq : ℕ) (price : ℤ) (qty side ioc : ℕ) (s : Adapter B)
      (es : List MatcherTradeEvent) (b : B) : Type 0 where
    stage : List StageTrade
    room : length stage ≡ length s.stage
    done :
        on_new lib oid seq price qty side ioc s
        ≡ ok (count_trades es, record s { book = b; stage = stage })
    emitted : emit_staged_trades (count_trades es) (record s { book = b; stage = stage }) ≡ (
      filled es,
      record s { book = b; stage = stage; reports = s.reports ++ trades es oid seq },
    )

  on_new-Placed :
      (oid seq : ℕ) (price : ℤ) (qty side ioc : ℕ) (s : Adapter B)
      → qty < 2 ^ 31
      → 1024 ≤ length s.stage
      → count_trades (lib.new_order oid price (pos qty) (not (side == 0)) (ioc == 1) s.book).0
        ≤ 1024
      → let (es, b) = lib.new_order oid price (pos qty) (not (side == 0)) (ioc == 1) s.book in
        Placed oid seq price qty side ioc s es b
  unfolding on_new emit_staged_trades
  on_new-Placed oid seq price qty side ioc s h k few =
      let (es, b) = lib.new_order oid price (pos qty) (not (side == 0)) (ioc == 1) s.book in
      let sum = law.at_most oid qty price (not (side == 0)) (ioc == 1) s.book in
      let g = write_trades-Staged es oid seq 0 s.stage (omega (arith, few, k)) in
      let zero_more : 0 + count_trades es ≡ count_trades es = omega arith in
      let first : take (count_trades es) g.after ≡ staging es oid seq =
        ap (λ n. take n g.after) (sym zero_more) ∙ g.staged in
      record {
        stage = g.after;
        room = g.size;
        done = rw (as_jint_pos qty h) (
            ap (λ r. r >>= (λ p. ok (p.0, record s { book = b; stage = p.1 }))) g.done
            ∙ (λ i. ok (zero_more i, record s { book = b; stage = g.after })));
        emitted =
            (λ i. (
              total (first i),
              record s {
                book = b;
                stage = g.after;
                reports = s.reports ++ map staged_report (first i);
              },
            ))
            ∙ (λ i. (
              total-staging es oid seq (omega (arith, sum, h)) i,
              record s {
                book = b;
                stage = g.after;
                reports = s.reports ++ map-staging es oid seq i;
              },
            ));
      }

  -- One message, by its own entry point.
  pub record Handled (m : MeMsg) (s : Adapter B) : Type 0 where
    pub after : Adapter B
    pub done : handle lib m s ≡ ok after
    pub reports : after.reports ≡ s.reports ++ (answer lib m s.book).0
    pub book : after.book ≡ (answer lib m s.book).1
    pub room : length after.stage ≡ length s.stage

  on_new_order-Handled :
      (o : NewOrder) (s : Adapter B)
      → IsMessage (new_msg o)
      → 1024 ≤ length s.stage
      → IsFew lib (new_msg o) s.book
      → Handled (new_msg o) s
  unfolding IsFew handle engine_on_new_order answer emit_ack push_report
  on_new_order-Handled o s h k few =
      let ack =
        ack_report me_order_ack o.sequence_number o.order_id o.side o.price_ticks o.quantity in
      let acked = push_report ack s in
      let p =
        on_new-Placed o.order_id o.sequence_number o.price_ticks o.quantity o.side o.ioc acked h.0 k
          few in
      let (es, b) =
        lib.new_order o.order_id o.price_ticks (pos o.quantity) (not (o.side == 0)) (o.ioc == 1)
          s.book in
      let sum =
        law.at_most o.order_id o.quantity o.price_ticks (not (o.side == 0)) (o.ioc == 1) s.book in
      let ts = trades es o.order_id o.sequence_number in
      let traded : Adapter B = record acked {
        book = b;
        stage = p.stage;
        reports = acked.reports ++ ts;
      } in
      record {
        after = record traded { reports = traded.reports ++ residual_of o (filled es) };
        done =
            ap (λ r. r >>= (λ q. ok (cancel_residual o (emit_staged_trades q.0 q.1)))) p.done
            ∙ ap (λ q. ok (cancel_residual o q)) p.emitted
            ∙ ap ok (cancel_residual-reports o (filled es) traded h sum);
        reports =
            append_assoc (s.reports ++ ack ∷ []) ts (residual_of o (filled es))
            ∙ append_assoc s.reports (ack ∷ []) (ts ++ residual_of o (filled es));
        book = refl;
        room = p.room;
      }

  -- The report of a cancel, by what the helper answers.
  abbrev cancelled_by : Cancel → ℕ × Adapter B → Adapter B
  cancelled_by c (side, s1) =
      if not (side == 0)
      then push_report
          (ack_report me_cancel_ack c.sequence_number c.order_id (side - 1)
            (get_or s1.stage 0 blank_trade).price 0)
          s1
      else push_report (ack_report me_cancel_reject c.sequence_number c.order_id 0 (pos 0) 0) s1

  cancelled-side :
      (c : Cancel) (ask : Bool) (s1 : Adapter B)
      → cancelled_by c (side_of ask + 1, s1)
        ≡ push_report
            (ack_report me_cancel_ack c.sequence_number c.order_id
              (side_of ask)
              (get_or s1.stage 0 blank_trade).price
              0)
            s1
  cancelled-side c true s1 = refl
  cancelled-side c false s1 = refl

  on_cancel-Handled :
      (c : Cancel) (s : Adapter B) → 1024 ≤ length s.stage → Handled (cancel_msg c) s
  unfolding handle engine_on_cancel on_cancel answer emit_ack push_report
  on_cancel-Handled c s k =
      let cancelled = lib.cancel_order c.order_id s.book in
      elim (Option-cases cancelled.0) [
        | inl e ↦
            let s1 : Adapter B = record s { book = cancelled.1 } in
            record {
              after =
                  push_report (ack_report me_cancel_reject c.sequence_number c.order_id 0 (pos 0) 0)
                    s1;
              done = rw (on_cancel, e) refl;
              reports = rw (answer, e) refl;
              book = rw (answer, e) refl;
              room = refl;
            }
        | inr (r, e) ↦
            let s1 : Adapter B = record s { book = cancelled.1; stage = stage_price r.1 s.stage } in
            let found : on_cancel lib c.order_id s ≡ (side_of r.0 + 1, s1) =
              rw (on_cancel, e) refl in
            let priced : StageTrade = record (get_or s.stage 0 blank_trade) { price = r.1 } in
            let staged : (get_or s1.stage 0 blank_trade).price ≡ r.1 =
              ap (λ (t : StageTrade). t.price)
                (get_or-set_self s.stage 0 priced blank_trade (omega (arith, k))) in
            record {
              after =
                  push_report
                    (ack_report me_cancel_ack c.sequence_number c.order_id (side_of r.0) r.1 0) s1;
              done =
                  ap (λ p. ok (cancelled_by c p)) found
                  ∙ ap ok (cancelled-side c r.0 s1)
                  ∙ ap
                      (λ z. ok (
                        push_report
                          (ack_report me_cancel_ack c.sequence_number c.order_id (side_of r.0) z 0)
                          s1))
                      staged;
              reports = rw (answer, e) refl;
              book = rw (answer, e) refl;
              room = length-set s.stage 0 (record (get_or s.stage 0 blank_trade) { price = r.1 });
            }
      ]

  on_modify-Handled :
      (m : Modify) (s : Adapter B)
      → IsMessage (modify_msg m)
      → 1024 ≤ length s.stage
      → IsFew lib (modify_msg m) s.book
      → Handled (modify_msg m) s
  unfolding IsFew handle engine_on_modify on_modify answer emit_ack push_report modified
  on_modify-Handled m s h k few =
      let cancelled = lib.cancel_order m.order_id s.book in
      let s1 : Adapter B = record s { book = cancelled.1 } in
      let ack =
        ack_report me_modify_ack m.sequence_number m.order_id m.side m.new_price_ticks
          m.new_quantity in
      elim (Option-cases cancelled.0) [
        | inl e ↦
            let found : on_modify lib m.order_id m.sequence_number m.new_price_ticks m.new_quantity
                  m.side s
                ≡ ok (none, s1) =
              rw (on_modify, e) refl in
            record {
              after =
                  push_report (ack_report me_modify_reject m.sequence_number m.order_id 0 (pos 0) 0)
                    s1;
              done = ap (λ r. r >>= (λ p. ok (modified m p))) found;
              reports = rw (answer, e) refl;
              book = rw (answer, e) refl;
              room = refl;
            }
        | inr (r, e) ↦
            let few_fills = rw (IsFew, e) at few in
            let p =
              on_new-Placed m.order_id m.sequence_number m.new_price_ticks m.new_quantity m.side 0
                s1 h k few_fills in
            let placed =
              lib.new_order m.order_id m.new_price_ticks (pos m.new_quantity) (not (m.side == 0))
                false cancelled.1 in
            let ts = trades placed.0 m.order_id m.sequence_number in
            let staged : Adapter B = record s1 { book = placed.1; stage = p.stage } in
            let traded : Adapter B = record staged { reports = s.reports ++ ts } in
            let found : on_modify lib m.order_id m.sequence_number m.new_price_ticks m.new_quantity
                  m.side s
                ≡ ok (some (count_trades placed.0), staged) =
              (rw (on_modify, e) refl) ∙ ap (λ r. r >>= (λ p. ok (some p.0, p.1))) p.done in
            record {
              after = push_report ack traded;
              done =
                  ap (λ r. r >>= (λ p. ok (modified m p))) found
                  ∙ ap (λ q. ok (push_report ack q.1)) p.emitted;
              reports = rw (answer, e) (append_assoc s.reports ts (ack ∷ []));
              book = rw (answer, e) refl;
              room = p.room;
            }
      ]

  pub handle-Handled :
      (m : MeMsg) (s : Adapter B)
      → IsMessage m
      → 1024 ≤ length s.stage
      → IsFew lib m s.book
      → Handled m s
  handle-Handled (new_msg o) s h k few = on_new_order-Handled o s h k few
  handle-Handled (cancel_msg c) s h k few = on_cancel-Handled c s k
  handle-Handled (modify_msg m) s h k few = on_modify-Handled m s h k few
