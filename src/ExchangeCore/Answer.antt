-- ===== src/ExchangeCore/Answer.antt =====
-- What a message through the exchange-core adapter reports, and what it makes of the book, whichever way it
-- is delivered.
use matching_engine_benchmar.Common.{
  ℕ, zero, suc, ◌+◌, ◌-◌, ◌%◌, ◌^◌, ◌≤◌, ◌<◌, ◌≡◌, refl, sym, ap, ◌∙◌, Bool, true, false, not, ◌&&◌,
  none, some, List, [], ◌∷◌, ◌++◌, map, arith, ltb, ◌==◌, if◌then◌else◌, length, set, length-append,
  length-set, take, ℤ, pos, ok,
}
use mathlib.Core.List.{append-nil, append_assoc}
use matching_engine_benchmar.Abi.{
  NewOrder, MeMsg, new_msg, cancel_msg, modify_msg, Report, me_order_ack, me_cancel_ack,
  me_modify_ack, me_cancel_reject, me_modify_reject,
}
use matching_engine_benchmar.Answers.{ack_report, trade_report}
use matching_engine_benchmar.ExchangeCore.{
  MatcherTradeEvent, trade, other_event, IOrderBook, StageTrade, Adapter, out_cap, write_trades,
  staged_report, total,
}
use matching_engine_benchmar.ExchangeCore.Handlers.{side_of, rep, rep_trades}

-- The reports of the trades, and the sum of their sizes.
unfoldable pub trades : List MatcherTradeEvent → ℕ → ℕ → List Report
trades [] taker seq = []
trades (other_event ∷ es) taker seq = trades es taker seq
trades (trade price size maker ∷ es) taker seq =
    trade_report seq price (size % 2 ^ 32) maker taker ∷ trades es taker seq

unfoldable pub filled : List MatcherTradeEvent → ℕ
filled [] = 0
filled (other_event ∷ es) = filled es
filled (trade price size maker ∷ es) = filled es + size

unfoldable pub count_trades : List MatcherTradeEvent → ℕ
count_trades [] = 0
count_trades (other_event ∷ es) = count_trades es
count_trades (trade price size maker ∷ es) = suc (count_trades es)

pub length-trades :
    (es : List MatcherTradeEvent) (taker seq : ℕ) → length (trades es taker seq) ≡ count_trades es
unfolding trades count_trades
length-trades [] taker seq = refl
length-trades (other_event ∷ es) taker seq = length-trades es taker seq
length-trades (trade price size maker ∷ es) taker seq = ap suc (length-trades es taker seq)

-- The records of the trades.
unfoldable pub staging : List MatcherTradeEvent → ℕ → ℕ → List StageTrade
staging [] taker seq = []
staging (other_event ∷ es) taker seq = staging es taker seq
staging (trade price size maker ∷ es) taker seq =
    record { seq = seq; price = price; qty = size % 2 ^ 32; maker = maker; taker = taker }
    ∷ staging es taker seq

pub map-staging :
    (es : List MatcherTradeEvent) (taker seq : ℕ)
    → map staged_report (staging es taker seq) ≡ trades es taker seq
unfolding staging trades
map-staging [] taker seq = refl
map-staging (other_event ∷ es) taker seq = map-staging es taker seq
map-staging (trade price size maker ∷ es) taker seq =
    ap (λ l. trade_report seq price (size % 2 ^ 32) maker taker ∷ l) (map-staging es taker seq)

pub total-staging :
    (es : List MatcherTradeEvent) (taker seq : ℕ)
    → filled es < 2 ^ 32
    → total (staging es taker seq) ≡ filled es
unfolding staging total filled
total-staging [] taker seq h = refl
total-staging (other_event ∷ es) taker seq h = total-staging es taker seq h
total-staging (trade price size maker ∷ es) taker seq h =
    let more = total-staging es taker seq (omega (arith, h)) in rw more (omega (arith, h))

take-set :
    (n : ℕ) (x : StageTrade) (st : List StageTrade)
    → n < length st
    → take (suc n) (set st n x) ≡ take n st ++ x ∷ []
take-set n x [] h = absurd (omega (arith, h))
take-set zero x (y ∷ st) h = refl
take-set (suc n) x (y ∷ st) h = ap (λ l. y ∷ l) (take-set n x st (omega (arith, h)))

-- The trades are staged after the first `n` records.
pub record Staged (es : List MatcherTradeEvent) (taker seq n : ℕ) (st : List StageTrade)
    : Type 0 where
  pub after : List StageTrade
  pub done : write_trades es taker seq n st ≡ ok (n + count_trades es, after)
  pub size : length after ≡ length st
  pub staged : take (n + count_trades es) after ≡ take n st ++ staging es taker seq

pub write_trades-Staged :
    (es : List MatcherTradeEvent) (taker seq n : ℕ) (st : List StageTrade)
    → n + count_trades es ≤ length st
    → Staged es taker seq n st
unfolding write_trades staging count_trades
write_trades-Staged [] taker seq n st h =
    let same : n ≡ n + 0 = omega arith in
    record {
      after = st;
      done = λ i. ok (same i, st);
      size = refl;
      staged = ap (λ k. take k st) (sym same) ∙ sym (append-nil (take n st));
    }
write_trades-Staged (other_event ∷ es) taker seq n st h =
    let g = write_trades-Staged es taker seq n st h in
    record { after = g.after; done = g.done; size = g.size; staged = g.staged }
write_trades-Staged (trade price size maker ∷ es) taker seq n st h =
    let x : StageTrade = record {
      seq = seq;
      price = price;
      qty = size % 2 ^ 32;
      maker = maker;
      taker = taker;
    } in
    let fits : ltb n (length st) ≡ true = ground (arith, h) in
    let len = length-set st n x in
    let g = write_trades-Staged es taker seq (n + 1) (set st n x) (omega (arith, h, len)) in
    let next : n + 1 + count_trades es ≡ n + suc (count_trades es) = omega arith in
    let one_more : n + 1 ≡ suc n = omega arith in
    record {
      after = g.after;
      done = rw fits (g.done ∙ (λ i. ok (next i, g.after)));
      size = g.size ∙ len;
      staged =
          ap (λ k. take k g.after) (sym next)
          ∙ g.staged
          ∙ ap (λ l. l ++ staging es taker seq)
              (ap (λ k. take k (set st n x)) one_more ∙ take-set n x st (omega (arith, h)))
          ∙ append_assoc (take n st) (x ∷ []) (staging es taker seq);
    }

pub rep_trades-trades :
    {B : Type 0} (es : List MatcherTradeEvent) (taker seq : ℕ) (s : Adapter B)
    → length s.out + count_trades es ≤ out_cap
    → rep_trades es taker seq s ≡ ok (filled es, record s { out = s.out ++ trades es taker seq })
unfolding rep_trades rep trades filled count_trades
rep_trades-trades [] taker seq s h = λ i. ok (0, record s { out = sym (append-nil s.out) i })
rep_trades-trades (other_event ∷ es) taker seq s h = rep_trades-trades es taker seq s h
rep_trades-trades (trade price size maker ∷ es) taker seq s h =
    let r = trade_report seq price (size % 2 ^ 32) maker taker in
    let fits : ltb (length s.out) out_cap ≡ true = ground (arith, h) in
    let more =
      rep_trades-trades es taker seq (record s { out = s.out ++ r ∷ [] })
        (omega (arith, h, length-append s.out (r ∷ []))) in
    rw (fits, more)
      (λ i.
        ok (
          filled es + size,
          record s { out = append_assoc s.out (r ∷ []) (trades es taker seq) i },
        ))

abbrev pub residual_of : NewOrder → ℕ → List Report
residual_of o n =
    if o.ioc == 1 && ltb n o.quantity
    then ack_report me_cancel_ack o.sequence_number o.order_id o.side o.price_ticks (o.quantity - n)
      ∷ []
    else []

module _ {B : Type 0} (lib : IOrderBook B) where
  -- The reports of a message, and the book after it; quantities are below 2 ^ 31.
  unfoldable pub answer : MeMsg → B → List Report × B
  answer (new_msg o) b =
      let seq = o.sequence_number in
      let (es, b') =
        lib.new_order o.order_id o.price_ticks (pos o.quantity) (not (o.side == 0)) (o.ioc == 1)
          b in
      (
        ack_report me_order_ack seq o.order_id o.side o.price_ticks o.quantity
              ∷ trades es o.order_id seq
            ++ residual_of o (filled es),
        b',
      )
  answer (cancel_msg c) b =
      let (removed, b') = lib.cancel_order c.order_id b in
      elim removed [
        | none ↦ (ack_report me_cancel_reject c.sequence_number c.order_id 0 (pos 0) 0 ∷ [], b')
        | some r ↦
            (ack_report me_cancel_ack c.sequence_number c.order_id (side_of r.0) r.1 0 ∷ [], b')
      ]
  answer (modify_msg m) b =
      let seq = m.sequence_number in
      let (removed, b') = lib.cancel_order m.order_id b in
      elim removed [
        | none ↦ (ack_report me_modify_reject seq m.order_id 0 (pos 0) 0 ∷ [], b')
        | some r ↦
            let (es, b'') =
              lib.new_order m.order_id m.new_price_ticks (pos m.new_quantity) (not (m.side == 0))
                false b' in
            (
              trades es m.order_id seq
                  ++ ack_report me_modify_ack seq m.order_id m.side m.new_price_ticks m.new_quantity
                    ∷ [],
              b'',
            )
      ]

  -- The order that a message places has at most 1,024 fills.
  unfoldable pub IsFew : MeMsg → B → Type 0
  IsFew (new_msg o) b =
      count_trades
        (lib.new_order o.order_id o.price_ticks (pos o.quantity) (not (o.side == 0)) (o.ioc == 1)
          b).0
      ≤ 1024
  IsFew (cancel_msg c) b = Unit {0}
  IsFew (modify_msg m) b =
      let (removed, b') = lib.cancel_order m.order_id b in
      elim removed [
        | none ↦ Unit {0}
        | some r ↦
            count_trades
              (lib.new_order m.order_id m.new_price_ticks (pos m.new_quantity) (not (m.side == 0))
                false b').0
            ≤ 1024
      ]

  -- So does each order of a run of messages, on the book as the run finds it.
  unfoldable pub FewFills : List MeMsg → B → Type 0
  FewFills [] b = Unit {0}
  FewFills (m ∷ ms) b = IsFew m b × FewFills ms (answer m b).1

  -- What the adapter relies on: the fills of an order give at most its quantity.
  pub record IsMatched : Type 0 where
    pub at_most :
        (oid qty : ℕ) (price : ℤ) (ask ioc : Bool) (b : B)
        → filled (lib.new_order oid price (pos qty) ask ioc b).0 ≤ qty

-- A message as the ABI has it, with a quantity that is an int in Java.
abbrev pub IsMessage : MeMsg → Type 0
IsMessage (new_msg o) = (o.quantity < 2 ^ 31) × (o.ioc ≤ 1)
IsMessage (cancel_msg c) = Unit {0}
IsMessage (modify_msg m) = m.new_quantity < 2 ^ 31
