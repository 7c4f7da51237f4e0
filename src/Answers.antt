-- ===== src/Answers.antt =====
-- What the ABI asks of the reports that answer one message: an acknowledgement or a rejection, once, and
-- the message's sequence number in each. The adapters' handlers are shown to give that.
use mathlib.Core.List.{append-nil, append_assoc}
use matching_engine_benchmar.Common.{
  ℕ, ◌+◌, ◌≡◌, refl, sym, ap, ◌∙◌, inl, inr, Bool, false, ◌||◌, List, [], ◌∷◌, ◌++◌, arith, ◌==◌,
  Bool-cases, keep, length, All, All-append, ℤ,
}
use matching_engine_benchmar.Abi.{
  NewOrder, Modify, MeMsg, new_msg, cancel_msg, modify_msg, Report, me_order_ack, me_trade,
  me_cancel_ack, me_modify_ack, me_cancel_reject, me_modify_reject,
}

-- What stops an adapter: an abort on a price or on the number of orders, or an access outside a vector.
pub data Fault : Type 0 where
  price_out_of_range arena_exceeded out_of_bounds : Fault

-- A report that is no trade, as the adapters fill it in; the other fields are zero.
abbrev pub ack_report : ℕ → ℕ → ℕ → ℕ → ℤ → ℕ → Report
ack_report type seq order_id side price qty = record {
  type = type;
  side = side;
  sequence_number = seq;
  order_id = order_id;
  price_ticks = price;
  quantity = qty;
  maker_order_id = 0;
  taker_order_id = 0;
}

-- The report of a trade, for those adapters that leave the order id zero.
abbrev pub trade_report : ℕ → ℤ → ℕ → ℕ → ℕ → Report
trade_report seq price qty maker_id taker_id = record {
  type = me_trade;
  side = 0;
  sequence_number = seq;
  order_id = 0;
  price_ticks = price;
  quantity = qty;
  maker_order_id = maker_id;
  taker_order_id = taker_id;
}

abbrev pub sequence_of : MeMsg → ℕ
sequence_of (new_msg o) = o.sequence_number
sequence_of (cancel_msg c) = c.sequence_number
sequence_of (modify_msg m) = m.sequence_number

-- The reports that answer a message of each kind: an acknowledgement or a rejection.
abbrev pub is_answer : MeMsg → Report → Bool
is_answer (new_msg o) r = r.type == me_order_ack
is_answer (cancel_msg c) r = r.type == me_cancel_ack || r.type == me_cancel_reject
is_answer (modify_msg m) r = r.type == me_modify_ack || r.type == me_modify_reject

-- The report that accepts a message.
abbrev pub is_ack : MeMsg → Report → Bool
is_ack (new_msg o) r = r.type == me_order_ack
is_ack (cancel_msg c) r = r.type == me_cancel_ack
is_ack (modify_msg m) r = r.type == me_modify_ack

abbrev pub is_accepted : MeMsg → List Report → Bool
is_accepted m [] = false
is_accepted m (r ∷ rs) = is_ack m r || is_accepted m rs

-- Exactly one report answers the message, and all of them carry its sequence number.
pub record IsAnswered (m : MeMsg) (rs : List Report) : Type 0 where
  pub one : length (keep (is_answer m) rs) ≡ 1
  pub numbered : All (λ r. r.sequence_number ≡ sequence_of m) rs

-- A fill of the message with the number `seq`.
abbrev pub IsFill : ℕ → Report → Type 0
IsFill seq r = (r.type ≡ me_trade) × (r.sequence_number ≡ seq)

pub answers-append :
    (m : MeMsg) (xs ys : List Report)
    → length (keep (is_answer m) (xs ++ ys))
      ≡ length (keep (is_answer m) xs) + length (keep (is_answer m) ys)
answers-append m [] ys = omega arith
answers-append m (x ∷ xs) ys = elim (Bool-cases (is_answer m x)) [
  | inl e ↦ rw e (omega (arith, answers-append m xs ys))
  | inr e ↦ rw e (answers-append m xs ys)
]

pub trade-not_answer : (m : MeMsg) (r : Report) → r.type ≡ me_trade → is_answer m r ≡ false
trade-not_answer (new_msg o) r e = rw e refl
trade-not_answer (cancel_msg c) r e = rw e refl
trade-not_answer (modify_msg d) r e = rw e refl

pub answers-fills :
    (m : MeMsg) (seq : ℕ) (xs : List Report)
    → All (IsFill seq) xs
    → length (keep (is_answer m) xs) ≡ 0
answers-fills m seq [] h = refl
answers-fills m seq (x ∷ xs) h = rw (trade-not_answer m x h.0.0) (answers-fills m seq xs h.1)

pub fills-numbered :
    (seq : ℕ) (xs : List Report) → All (IsFill seq) xs → All (λ r. r.sequence_number ≡ seq) xs
fills-numbered seq [] h = tt
fills-numbered seq (x ∷ xs) h = (h.0.1, fills-numbered seq xs h.1)

-- The residual of an IOC order is the only report after the fills, a cancel acknowledgement.
abbrev pub IsResidual : NewOrder → List Report → Type 0
IsResidual o [] = Unit {0}
IsResidual o (r ∷ []) = (r.type ≡ me_cancel_ack) × (r.sequence_number ≡ o.sequence_number)
IsResidual o (r ∷ q ∷ rs) = ⊥

pub residual-answers :
    (o : NewOrder) (rs : List Report)
    → IsResidual o rs
    → (length (keep (is_answer (new_msg o)) rs) ≡ 0)
      × All (λ r. r.sequence_number ≡ o.sequence_number) rs
residual-answers o [] h = (refl, tt)
residual-answers o (r ∷ []) h = let type = h.0 in rw type (refl, (h.1, tt))
residual-answers o (r ∷ q ∷ rs) h = absurd h

-- Neither a fill nor a residual accepts a message: what holds of other reports holds of them.
pub fills-not_ack :
    (m : MeMsg) (P : Report → Type 0)
    → ((r : Report) → is_ack m r ≡ false → P r)
    → (seq : ℕ) (xs : List Report) → All (IsFill seq) xs
    → All P xs
fills-not_ack m P f seq [] h = tt
fills-not_ack m P f seq (x ∷ xs) h = (f x (not_ack m h.0.0), fills-not_ack m P f seq xs h.1)
  where
    not_ack : (m : MeMsg) → x.type ≡ me_trade → is_ack m x ≡ false
    not_ack (new_msg o) e = rw e refl
    not_ack (cancel_msg c) e = rw e refl
    not_ack (modify_msg d) e = rw e refl

pub residual-not_ack :
    (o : NewOrder) (P : Report → Type 0)
    → ((r : Report) → is_ack (new_msg o) r ≡ false → P r)
    → (rs : List Report) → IsResidual o rs
    → All P rs
residual-not_ack o P f [] h = tt
residual-not_ack o P f (r ∷ []) h = let type = h.0 in (f r (rw type refl), tt)
residual-not_ack o P f (r ∷ q ∷ rs) h = absurd h

-- The acknowledgement of a new order, its fills and its residual answer it.
pub new_order-IsAnswered :
    (o : NewOrder) (ack : Report) (fills rs : List Report)
    → ack.type ≡ me_order_ack
    → ack.sequence_number ≡ o.sequence_number
    → All (IsFill o.sequence_number) fills
    → IsResidual o rs
    → IsAnswered (new_msg o) (ack ∷ fills ++ rs)
new_order-IsAnswered o ack fills rs type seq f r =
    let none_of = answers-fills (new_msg o) o.sequence_number fills f in
    let (none_left, numbered) = residual-answers o rs r in
    let total = answers-append (new_msg o) fills rs in
    record {
      one = rw type (omega arith);
      numbered = (seq, All-append _ fills rs (fills-numbered o.sequence_number fills f) numbered);
    }

-- The fills of a modify and its acknowledgement answer it.
pub modify-IsAnswered :
    (m : Modify) (fills : List Report) (ack : Report)
    → ack.type ≡ me_modify_ack
    → ack.sequence_number ≡ m.sequence_number
    → All (IsFill m.sequence_number) fills
    → IsAnswered (modify_msg m) (fills ++ ack ∷ [])
modify-IsAnswered m fills ack type seq f =
    let none_of = answers-fills (modify_msg m) m.sequence_number fills f in
    let total = answers-append (modify_msg m) fills (ack ∷ []) in
    let last : length (keep (is_answer (modify_msg m)) (ack ∷ [])) ≡ 1 = rw type refl in
    record {
      one = omega arith;
      numbered = All-append _ fills (ack ∷ []) (fills-numbered m.sequence_number fills f) (seq, tt);
    }

-- The acknowledgement of a modify and its fills answer it, in the other order.
pub modify_first-IsAnswered :
    (m : Modify) (ack : Report) (fills : List Report)
    → ack.type ≡ me_modify_ack
    → ack.sequence_number ≡ m.sequence_number
    → All (IsFill m.sequence_number) fills
    → IsAnswered (modify_msg m) (ack ∷ fills)
modify_first-IsAnswered m ack fills type seq f =
    let none_of = answers-fills (modify_msg m) m.sequence_number fills f in
    record {
      one = rw type (omega arith);
      numbered = (seq, fills-numbered m.sequence_number fills f);
    }

-- The states of an adapter, with the reports that it has pushed.
module _ {S : Type 0} (reports : S → List Report) where
  -- A step pushes fills of the message with the number `seq`.
  pub record Fills (seq : ℕ) (s s' : S) : Type 0 where
    pub fills : List Report
    pub pushed : reports s' ≡ reports s ++ fills
    pub are_fills : All (IsFill seq) fills

  pub Fills-none : (seq : ℕ) (s : S) → Fills seq s s
  Fills-none seq s = record { fills = []; pushed = sym (append-nil (reports s)); are_fills = tt }

  pub Fills-trans : (seq : ℕ) (s s' s'' : S) → Fills seq s s' → Fills seq s' s'' → Fills seq s s''
  Fills-trans seq s s' s'' f g = record {
    fills = f.fills ++ g.fills;
    pushed = g.pushed ∙ ap (λ l. l ++ g.fills) f.pushed ∙ append_assoc (reports s) f.fills g.fills;
    are_fills = All-append _ f.fills g.fills f.are_fills g.are_fills;
  }
