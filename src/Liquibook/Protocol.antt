-- ===== src/Liquibook/Protocol.antt =====
-- Each message is answered once, and the trades name the order that the message is about as the taker.
use mathlib.Core.List.{append-nil, append_assoc}
use matching_engine_benchmar.Common.{
  ℕ, zero, suc, ◌+◌, ◌≤◌, ◌<◌, ◌≡◌, refl, sym, ap, subst, ◌∙◌, inl, inr, false, not, ◌&&◌, Option,
  none, some, List, [], ◌∷◌, ◌++◌, arith, ltb, ◌==◌, if◌then◌else◌, Bool-cases, Option-cases,
  length, get_or, All, All-append, ok,
}
use matching_engine_benchmar.Abi.{
  NewOrder, Cancel, Modify, MeMsg, new_msg, cancel_msg, modify_msg, Report, me_trade, me_order_ack,
  me_modify_ack,
}
use matching_engine_benchmar.Answers.{
  ack_report, IsFill, IsAnswered, IsResidual, new_order-IsAnswered, modify-IsAnswered,
}
use matching_engine_benchmar.Liquibook.{
  Library, Adapter, push_report, emit_ack, find_order, resting, make_order, to_price,
}
use matching_engine_benchmar.Liquibook.Handlers.{
  residual, open_order, engine_on_new_order, cancel_order, engine_on_cancel, reinsert,
  engine_on_modify, handle,
}
use matching_engine_benchmar.Liquibook.Safe.{IsCounting, builds, HasSlot, enter-Entered}

abbrev pub order_of : MeMsg → ℕ
order_of (new_msg o) = o.order_id
order_of (cancel_msg c) = c.order_id
order_of (modify_msg m) = m.order_id

-- A trade names the order as its taker, and no other report names a taker.
abbrev pub IsLabelled : ℕ → Report → Type 0
IsLabelled id r = r.taker_order_id ≡ (if r.type == me_trade then id else 0)

fills-IsLabelled :
    (seq id : ℕ) (rs : List Report)
    → All (IsFill seq) rs
    → All (λ r. r.taker_order_id ≡ id) rs
    → All (IsLabelled id) rs
fills-IsLabelled seq id [] f t = tt
fills-IsLabelled seq id (r ∷ rs) f t =
    let type = f.0.0 in (rw type t.0, fills-IsLabelled seq id rs f.1 t.1)

module _ {B : Type 0} (lib : Library B) (last : B → ℕ) (counting : IsCounting lib last) where
  -- A handled message: its answer, the labels of its trades, and the sizes that the next one relies on.
  pub record Handled (m : MeMsg) (s s' : Adapter B) : Type 0 where
    pub answer : List Report
    pub pushed : s'.reports ≡ s.reports ++ answer
    pub answered : IsAnswered m answer
    pub labelled : All (IsLabelled (order_of m)) answer
    pub counted : last s'.book ≤ last s.book + builds (m ∷ [])
    pub labels : length s'.lb2ext ≡ length s.lb2ext
    pub slots : length s'.orders ≡ length s.orders

  residual-Handled :
      (o : NewOrder) (s : Adapter B)
      → (rs : List Report) × ((residual lib o s).reports ≡ s.reports ++ rs)
        × IsResidual o rs
        × All (IsLabelled o.order_id) rs
        × ((residual lib o s).book ≡ s.book)
        × ((residual lib o s).lb2ext ≡ s.lb2ext)
        × ((residual lib o s).orders ≡ s.orders)
  unfolding residual emit_ack push_report
  residual-Handled o s = elim (Bool-cases (not (o.ioc == 0) && ltb s.filled o.quantity)) [
    | inl e ↦ rw e (_, refl, (refl, refl), (refl, tt), refl, refl, refl)
    | inr e ↦ rw e ([], sym (append-nil s.reports), tt, tt, refl, refl, refl)
  ]

  engine_on_new_order-Handled :
      (o : NewOrder) (s : Adapter B)
      → last s.book + 1 < length s.lb2ext
      → o.order_id < length s.orders
      → (s' : Adapter B) × (engine_on_new_order lib o s ≡ ok s') × Handled (new_msg o) s s'
  unfolding engine_on_new_order make_order open_order emit_ack push_report builds
  engine_on_new_order-Handled o s h k =
      let ioc = not (o.ioc == 0) in
      let ack =
        ack_report me_order_ack o.sequence_number o.order_id o.side o.price_ticks o.quantity in
      let made =
        counting.construct_id (o.side == 0) (to_price lib o.price_ticks) o.quantity ioc s.book in
      let (lo, s1) =
        make_order lib (o.side == 0) o.price_ticks o.quantity ioc (open_order lib o s) in
      let (s2, e, f) =
        enter-Entered lib last counting lo o.order_id ioc s1 (omega (arith, made.1)) k in
      let (rs, settled, is_residual, labelled, book, lb2ext, orders) = residual-Handled o s2 in
      rw e (
        residual lib o s2,
        refl,
        record {
          answer = ack ∷ f.fills ++ rs;
          pushed =
              settled
              ∙ ap (λ l. l ++ rs) f.pushed
              ∙ append_assoc (s.reports ++ ack ∷ []) f.fills rs
              ∙ append_assoc s.reports (ack ∷ []) (f.fills ++ rs);
          answered = new_order-IsAnswered o ack f.fills rs refl refl f.are_fills is_residual;
          labelled = (
            refl,
            All-append _ f.fills rs (fills-IsLabelled _ o.order_id f.fills f.are_fills f.taken)
                labelled,
          );
          counted =
              let kept : last (residual lib o s2).book ≡ last s2.book = ap last book in
              omega (arith, kept, f.counted, made.1);
          labels = ap length lb2ext ∙ f.labels;
          slots = ap length orders ∙ f.slots;
        },
      )

  find_order-lt :
      (id : ℕ) (s : Adapter B) (lo : ℕ) → find_order id s ≡ some lo → id < length s.orders
  unfolding find_order
  find_order-lt id s lo e = inside s.orders id e
    where
      inside : (os : List (Option ℕ)) (i : ℕ) → get_or os i none ≡ some lo → i < length os
      inside [] i e = absurd (ground (arith, e))
      inside (x ∷ os) zero e = omega arith
      inside (x ∷ os) (suc i) e = let h = inside os i e in omega arith

  -- One report that answers by itself.
  single-Handled :
      (m : MeMsg) (s s' : Adapter B) (r : Report)
      → s'.reports ≡ s.reports ++ r ∷ []
      → IsAnswered m (r ∷ [])
      → IsLabelled (order_of m) r
      → last s'.book ≤ last s.book
      → s'.lb2ext ≡ s.lb2ext
      → s'.orders ≡ s.orders
      → Handled m s s'
  unfolding builds
  single-Handled m s s' r pushed answered labelled counted lb2ext orders = record {
    answer = r ∷ [];
    pushed = pushed;
    answered = answered;
    labelled = (labelled, tt);
    counted = elim m [
      | new_msg o ↦ omega arith
      | cancel_msg c ↦ omega arith
      | modify_msg d ↦ omega arith
    ];
    labels = ap length lb2ext;
    slots = ap length orders;
  }

  engine_on_cancel-Handled :
      (c : Cancel) (s : Adapter B) → Handled (cancel_msg c) s (engine_on_cancel lib c s)
  unfolding engine_on_cancel cancel_order emit_ack push_report
  engine_on_cancel-Handled c s =
      let alone =
        λ (r : Report) (a : IsAnswered (cancel_msg c) (r ∷ [])) (l : IsLabelled c.order_id r).
          single-Handled (cancel_msg c) s (push_report r s) r refl a l (omega arith) refl refl in
      elim (Option-cases (find_order c.order_id s)) [
        | inl e ↦
            rw (engine_on_cancel, e) (alone _ (record { one = refl; numbered = (refl, tt) }) refl)
        | inr (lo, e) ↦ elim (Bool-cases (resting lib lo s)) [
          | inl a ↦
              rw (engine_on_cancel, e, a)
                (single-Handled (cancel_msg c) s _ _ refl
                  (record { one = refl; numbered = (refl, tt) }) refl
                  (omega (arith, counting.cancel_last lo s.book)) refl refl)
          | inr a ↦
              rw (engine_on_cancel, e, a)
                (alone _ (record { one = refl; numbered = (refl, tt) }) refl)
        ]
      ]

  reinsert-Handled :
      (m : Modify) (cur : ℕ) (s : Adapter B)
      → s.seq ≡ m.sequence_number
      → last s.book + 1 < length s.lb2ext
      → m.order_id < length s.orders
      → (s' : Adapter B) × (reinsert lib m cur s ≡ ok s') × Handled (modify_msg m) s s'
  unfolding reinsert make_order cancel_order emit_ack push_report builds
  reinsert-Handled m cur s q h k =
      let ack =
        ack_report me_modify_ack m.sequence_number m.order_id m.side m.new_price_ticks
          m.new_quantity in
      let freed = counting.cancel_last cur s.book in
      let made =
        counting.construct_id (m.side == 0) (to_price lib m.new_price_ticks) m.new_quantity false
          (lib.cancel cur s.book) in
      let (lo, s1) =
        make_order lib (m.side == 0) m.new_price_ticks m.new_quantity false
          (cancel_order lib cur s) in
      let (s2, e, f) =
        enter-Entered lib last counting lo m.order_id false s1 (omega (arith, made.1, freed)) k in
      let are_fills = subst (λ n. All (IsFill n) f.fills) q f.are_fills in
      rw e (
        _,
        refl,
        record {
          answer = f.fills ++ ack ∷ [];
          pushed = ap (λ l. l ++ ack ∷ []) f.pushed ∙ append_assoc s.reports f.fills (ack ∷ []);
          answered = modify-IsAnswered m f.fills ack refl refl are_fills;
          labelled =
              All-append _ f.fills (ack ∷ [])
                (fills-IsLabelled m.sequence_number m.order_id f.fills are_fills f.taken)
                (refl, tt);
          counted = omega (arith, f.counted, made.1, freed);
          labels = f.labels;
          slots = f.slots;
        },
      )

  engine_on_modify-Handled :
      (m : Modify) (s : Adapter B)
      → last s.book + 1 < length s.lb2ext
      → (s' : Adapter B) × (engine_on_modify lib m s ≡ ok s') × Handled (modify_msg m) s s'
  unfolding engine_on_modify emit_ack push_report
  engine_on_modify-Handled m s h =
      let s0 : Adapter B = record s { seq = m.sequence_number; filled = 0 } in
      let alone =
        λ (r : Report) (a : IsAnswered (modify_msg m) (r ∷ [])) (l : IsLabelled m.order_id r).
          single-Handled (modify_msg m) s (push_report r s0) r refl a l (omega arith) refl refl in
      elim (Option-cases (find_order m.order_id s0)) [
        | inl e ↦
            rw (engine_on_modify, e)
              (_, refl, alone _ (record { one = refl; numbered = (refl, tt) }) refl)
        | inr (cur, e) ↦ elim (Bool-cases (resting lib cur s0)) [
          | inl a ↦
              let (s', done, v) =
                reinsert-Handled m cur s0 refl h (find_order-lt m.order_id s0 cur e) in
              rw (engine_on_modify, e, a)
                (
                  s',
                  done,
                  record {
                    answer = v.answer;
                    pushed = v.pushed;
                    answered = v.answered;
                    labelled = v.labelled;
                    counted = v.counted;
                    labels = v.labels;
                    slots = v.slots;
                  },
                )
          | inr a ↦
              rw (engine_on_modify, e, a)
                (_, refl, alone _ (record { one = refl; numbered = (refl, tt) }) refl)
        ]
      ]

  -- A message that the pre-build has made room for is handled without an access outside a vector, and
  -- pushes exactly one acknowledgement or rejection of its kind; every report that it pushes carries
  -- its sequence number, and every trade its order as the taker; for a library that counts its order
  -- objects.
  pub handle-Handled :
      (m : MeMsg) (s : Adapter B)
      → last s.book + builds (m ∷ []) < length s.lb2ext
      → HasSlot (length s.orders) m
      → (s' : Adapter B) × (handle lib m s ≡ ok s') × Handled m s s'
  unfolding handle builds
  handle-Handled (new_msg o) s h k = engine_on_new_order-Handled o s (omega arith) k
  handle-Handled (cancel_msg c) s h k =
      (engine_on_cancel lib c s, refl, engine_on_cancel-Handled c s)
  handle-Handled (modify_msg m) s h k = engine_on_modify-Handled m s (omega arith)
