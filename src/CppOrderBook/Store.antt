-- ===== src/CppOrderBook/Store.antt =====
-- The store of the shadows: what a write changes, and what the notifications of the library leave alone.
use matching_engine_benchmar.Common.{
  ℕ, ◌+◌, ◌-◌, ◌%◌, ◌^◌, ◌<◌, ◌≡◌, refl, sym, ap, subst, ◌∙◌, Bool, true, false, List, [], ◌∷◌,
  ◌==◌, if◌then◌else◌, get_or-grow, get_or-update_at, All,
}
use mathlib.Core.List.{append-nil}
use matching_engine_benchmar.Answers.{Fills, Fills-none, Fills-trans}
use matching_engine_benchmar.CppOrderBook.{
  Library, Adapter, Shadow, ExecutionReport, created, trade, canceled, rejected, blank_shadow, emit,
  emit_trade, shadow_slot, shadow_of, update_slot, fill_maker, from_dec_qty, from_dec_price,
  on_execution_report, on_execution_reports,
}

module _ {B : Type 0} where
  pub shadow_of-shadow_slot :
      (oid v : ℕ) (s : Adapter B)
      → oid < 2 ^ 64 - 1
      → shadow_of v (shadow_slot oid s) ≡ shadow_of v s
  unfolding shadow_of shadow_slot
  shadow_of-shadow_slot oid v s h = get_or-grow oid v blank_shadow s.shadow h

  -- A write changes the slot of its order and no other.
  pub shadow_of-update_slot :
      (oid v : ℕ) (f : Shadow → Shadow) (s : Adapter B)
      → oid < 2 ^ 64 - 1
      → shadow_of v (update_slot oid f s) ≡ (if oid == v then f (shadow_of v s) else shadow_of v s)
  unfolding shadow_of update_slot
  shadow_of-update_slot oid v f s h = get_or-update_at oid v blank_shadow f s.shadow h

-- A notification that is no trade.
abbrev pub IsQuiet : {D : Type 0} → ExecutionReport D → Type 0
IsQuiet created = Unit {0}
IsQuiet (trade maker_id taker_id qty price) = ⊥
IsQuiet (canceled qty) = Unit {0}
IsQuiet rejected = Unit {0}

-- A notification whose maker has a slot in 64 bits.
abbrev pub IsTold : {D : Type 0} → ExecutionReport D → Type 0
IsTold created = Unit {0}
IsTold (trade maker_id taker_id qty price) = maker_id < 2 ^ 64 - 1
IsTold (canceled qty) = Unit {0}
IsTold rejected = Unit {0}

pub quiet-IsTold : {D : Type 0} (xs : List (ExecutionReport D)) → All IsQuiet xs → All IsTold xs
quiet-IsTold [] h = tt
quiet-IsTold (created ∷ xs) h = (tt, quiet-IsTold xs h.1)
quiet-IsTold (trade maker_id taker_id qty price ∷ xs) h = absurd h.0
quiet-IsTold (canceled qty ∷ xs) h = (tt, quiet-IsTold xs h.1)
quiet-IsTold (rejected ∷ xs) h = (tt, quiet-IsTold xs h.1)

module _ {B D : Type 0} (lib : Library B D) where
  -- What notifications leave alone: the price and the side of every order, and the current message.
  pub record Notified (s s' : Adapter B) : Type 0 where
    pub price : (v : ℕ) → (shadow_of v s').price ≡ (shadow_of v s).price
    pub side : (v : ℕ) → (shadow_of v s').side ≡ (shadow_of v s).side
    pub seq : s'.cur_seq ≡ s.cur_seq
    pub filled : Fills (λ (t : Adapter B). t.reports) s.cur_seq s s'

  Notified-none : (s : Adapter B) → Notified s s
  Notified-none s = record {
    price = λ v. refl;
    side = λ v. refl;
    seq = refl;
    filled = Fills-none (λ (t : Adapter B). t.reports) s.cur_seq s;
  }

  Notified-trans : (s s' s'' : Adapter B) → Notified s s' → Notified s' s'' → Notified s s''
  Notified-trans s s' s'' n p = record {
    price = λ v. p.price v ∙ n.price v;
    side = λ v. p.side v ∙ n.side v;
    seq = p.seq ∙ n.seq;
    filled =
        let later = subst (λ seq. Fills (λ (t : Adapter B). t.reports) seq s' s'') n.seq p.filled in
        Fills-trans (λ (t : Adapter B). t.reports) s.cur_seq s s' s'' n.filled later;
  }

  fill_maker-same :
      (b : Bool) (q : ℕ) (x : Shadow)
      → ((if b then fill_maker lib q x else x).price ≡ x.price)
        × ((if b then fill_maker lib q x else x).side ≡ x.side)
  fill_maker-same true q x = (refl, refl)
  fill_maker-same false q x = (refl, refl)

  on_execution_report-Notified :
      (x : ExecutionReport D) (s : Adapter B) → IsTold x → Notified s (on_execution_report lib x s)
  unfolding on_execution_report emit_trade emit shadow_of update_slot shadow_slot
  on_execution_report-Notified created s h = Notified-none s
  on_execution_report-Notified (trade maker_id taker_id qty price) s h =
      let q = from_dec_qty lib qty in
      let s1 = emit_trade s.cur_seq maker_id taker_id (from_dec_price lib price) q s in
      let s2 : Adapter B = record s1 { taker_fill = (s1.taker_fill + q) % 2 ^ 64 } in
      let slot = λ (v : ℕ). shadow_of-update_slot maker_id v (fill_maker lib q) s2 h in
      record {
        price = λ v.
            ap (λ e. e.price) (slot v) ∙ (fill_maker-same (maker_id == v) q (shadow_of v s2)).0;
        side =
            λ v. ap (λ e. e.side) (slot v) ∙ (fill_maker-same (maker_id == v) q (shadow_of v s2)).1;
        seq = refl;
        filled = record { fills = _; pushed = refl; are_fills = ((refl, refl), tt) };
      }
  on_execution_report-Notified (canceled qty) s h = record {
    price = λ v. refl;
    side = λ v. refl;
    seq = refl;
    filled = record { fills = []; pushed = sym (append-nil s.reports); are_fills = tt };
  }
  on_execution_report-Notified rejected s h = Notified-none s

  pub on_execution_reports-Notified :
      (xs : List (ExecutionReport D)) (s : Adapter B)
      → All IsTold xs
      → Notified s (on_execution_reports lib xs s)
  unfolding on_execution_reports
  on_execution_reports-Notified [] s h = Notified-none s
  on_execution_reports-Notified (x ∷ xs) s h =
      let next = on_execution_report lib x s in
      Notified-trans s next _ (on_execution_report-Notified x s h.0)
        (on_execution_reports-Notified xs next h.1)

  -- Notifications without trades push nothing.
  pub on_execution_reports-quiet :
      (xs : List (ExecutionReport D)) (s : Adapter B)
      → All IsQuiet xs
      → (on_execution_reports lib xs s).reports ≡ s.reports
  unfolding on_execution_reports on_execution_report
  on_execution_reports-quiet [] s h = refl
  on_execution_reports-quiet (created ∷ xs) s h = on_execution_reports-quiet xs s h.1
  on_execution_reports-quiet (trade maker_id taker_id qty price ∷ xs) s h = absurd h.0
  on_execution_reports-quiet (canceled qty ∷ xs) s h =
      on_execution_reports-quiet xs (on_execution_report lib (canceled qty) s) h.1
  on_execution_reports-quiet (rejected ∷ xs) s h = on_execution_reports-quiet xs s h.1
