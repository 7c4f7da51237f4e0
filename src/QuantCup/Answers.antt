-- ===== src/QuantCup/Answers.antt =====
-- The reports of one message: which ones the handlers push, and under which sequence number.
use mathlib.Core.List.{append-nil, append_assoc}
use matching_engine_benchmar.Common.{
  ℕ, ◌+◌, ◌≡◌, refl, sym, ap, subst, ◌∙◌, inl, inr, not, List, [], ◌∷◌, ◌++◌, ltb, ◌==◌, Bool-cases,
  Option-cases, length, get_elem?, All, ok, OnOk, OnOk-map,
}
use matching_engine_benchmar.Abi.{
  NewOrder, Modify, Cancel, MeMsg, new_msg, cancel_msg, modify_msg, Report, me_order_ack,
  me_modify_ack,
}
use matching_engine_benchmar.QuantCup.{
  Book, OrderState, Adapter, TOrder, emit_ack, push_report, find_order, store, price_ok, limit,
  cancel,
}
use matching_engine_benchmar.QuantCup.Handlers.{
  settle, open_order, new_order_with, rest_again, reinsert, modify_with, engine_on_new_order,
  engine_on_cancel, engine_on_modify, handle,
}
use matching_engine_benchmar.Answers.{
  IsAnswered, IsFill, IsResidual, new_order-IsAnswered, modify-IsAnswered,
}
use matching_engine_benchmar.QuantCup.Reports.{Fills, executions-Fills, Answered}

module _ {B : Type 0} (b : Book B) where
  limit-Fills : (qo : TOrder) (s : Adapter B) → Fills s (limit b qo s).1
  unfolding limit
  limit-Fills qo s =
      let (qcid, xs, book') = b.limit qo s.book in
      let f = executions-Fills xs (record s { book = book' }) in
      record { fills = f.fills; pushed = f.pushed; are_fills = f.are_fills; same_seq = f.same_seq }

  settle-IsResidual :
      (o : NewOrder) (qcid : ℕ) (s : Adapter B)
      → OnOk
          (λ s'. (rs : List Report) × (s'.reports ≡ s.reports ++ rs) × IsResidual o rs)
          (settle b o qcid s)
  unfolding settle store cancel emit_ack push_report
  settle-IsResidual o qcid s =
      let quiet : (rs : List Report) × (s.reports ≡ s.reports ++ rs) × IsResidual o rs =
        ([], sym (append-nil s.reports), tt) in
      elim (Bool-cases (not (o.ioc == 0))) [
        | inl e ↦ elim (Bool-cases (ltb 0 s.taker_left)) [
          | inl d ↦ rw (e, d) (_, refl, (refl, refl))
          | inr d ↦ rw (e, d) quiet
        ]
        | inr e ↦ elim (Bool-cases (ltb 0 s.taker_left)) [
          | inl d ↦ elim (Bool-cases (ltb o.order_id (length s.orders))) [
            | inl i ↦ rw (e, d, i) quiet
            | inr i ↦ rw (e, d, i) tt
          ]
          | inr d ↦ rw (e, d) quiet
        ]
      ]

  open_order-ack :
      (o : NewOrder) (s : Adapter B)
      → (r : Report) × ((open_order b o s).seq ≡ o.sequence_number)
        × (r.type ≡ me_order_ack)
        × (r.sequence_number ≡ o.sequence_number)
        × ((open_order b o s).reports ≡ s.reports ++ r ∷ [])
  unfolding open_order emit_ack push_report
  open_order-ack o s = (_, refl, refl, refl, refl)

  -- The reports of a new order: its acknowledgement, its fills, and the residual of an IOC order.
  new_order_with-Answered :
      (qo : TOrder) (o : NewOrder) (s : Adapter B)
      → OnOk (Answered (new_msg o) s) (new_order_with b qo o s)
  unfolding new_order_with
  new_order_with-Answered qo o s =
      let s1 = open_order b o s in
      let f = limit-Fills qo s1 in
      let (r, seq, type, number, opened) = open_order-ack o s in
      OnOk-map _ _ (settle b o (limit b qo s1).0 (limit b qo s1).1)
        (λ s' p. (
          r ∷ f.fills ++ p.0,
          p.1
              ∙ ap (λ l. l ++ p.0) (f.pushed ∙ ap (λ l. l ++ f.fills) opened)
              ∙ append_assoc (s.reports ++ r ∷ []) f.fills p.0
              ∙ append_assoc s.reports (r ∷ []) (f.fills ++ p.0),
          new_order-IsAnswered o r f.fills p.0 type number
              (subst (λ n. All (IsFill n) f.fills) seq f.are_fills) p.2,
        ))
        (settle-IsResidual o _ (limit b qo s1).1)

  rest_again-reports :
      (m : Modify) (qcid : ℕ) (o : OrderState) (s : Adapter B)
      → (r : Report) × ((rest_again b m qcid o s).reports ≡ s.reports ++ r ∷ [])
        × (r.type ≡ me_modify_ack)
        × (r.sequence_number ≡ m.sequence_number)
  unfolding rest_again emit_ack push_report
  rest_again-reports m qcid o s = (_, refl, refl, refl)

  reinsert-Answered :
      (qo : TOrder) (m : Modify) (o : OrderState) (s : Adapter B)
      → s.seq ≡ m.sequence_number
      → Answered (modify_msg m) s (reinsert b qo m o s)
  unfolding reinsert cancel
  reinsert-Answered qo m o s h =
      let s1 = record (cancel b o.qcid s) {
        taker_id = m.order_id;
        taker_left = m.new_quantity;
        taker_side = m.side;
      } in
      let f = limit-Fills qo s1 in
      let (r, pushed, type, number) = rest_again-reports m (limit b qo s1).0 o (limit b qo s1).1 in
      (
        f.fills ++ r ∷ [],
        pushed ∙ ap (λ l. l ++ r ∷ []) f.pushed ∙ append_assoc s.reports f.fills (r ∷ []),
        modify-IsAnswered m f.fills r type number
            (subst (λ n. All (IsFill n) f.fills) h f.are_fills),
      )

  modify_with-Answered :
      (qo : TOrder) (m : Modify) (s : Adapter B)
      → s.seq ≡ m.sequence_number
      → OnOk (Answered (modify_msg m) s) (modify_with b qo m s)
  unfolding modify_with find_order emit_ack push_report
  modify_with-Answered qo m s h = elim (Option-cases (get_elem? s.orders m.order_id)) [
    | inl e ↦ rw (e, modify_with) (_, refl, record { one = refl; numbered = (refl, tt) })
    | inr (o, e) ↦ elim (Bool-cases o.alive) [
      | inl d ↦ elim (Bool-cases (price_ok b m.new_price_ticks)) [
        | inl p ↦ rw (e, modify_with, d, p) (reinsert-Answered qo m _ s h)
        | inr p ↦ rw (e, modify_with, d, p) tt
      ]
      | inr d ↦ rw (e, modify_with, d) (_, refl, record { one = refl; numbered = (refl, tt) })
    ]
  ]

  engine_on_cancel-Answered :
      (c : Cancel) (s : Adapter B) → Answered (cancel_msg c) s (engine_on_cancel b c s)
  unfolding engine_on_cancel find_order emit_ack push_report cancel
  engine_on_cancel-Answered c s = elim (Option-cases (get_elem? s.orders c.order_id)) [
    | inl e ↦ rw (e, engine_on_cancel) (_, refl, record { one = refl; numbered = (refl, tt) })
    | inr (o, e) ↦ elim (Bool-cases o.alive) [
      | inl d ↦ rw (e, engine_on_cancel, d) (_, refl, record { one = refl; numbered = (refl, tt) })
      | inr d ↦ rw (e, engine_on_cancel, d) (_, refl, record { one = refl; numbered = (refl, tt) })
    ]
  ]

  handle-OnOk : (m : MeMsg) (s : Adapter B) → OnOk (Answered m s) (handle b m s)
  unfolding handle engine_on_new_order engine_on_modify
  handle-OnOk (new_msg o) s = elim (Option-cases (get_elem? s.pre s.pre_idx)) [
    | inl e ↦ rw e tt
    | inr (qo, e) ↦ rw e (new_order_with-Answered qo o (record s { pre_idx = s.pre_idx + 1 }))
  ]
  handle-OnOk (cancel_msg c) s = engine_on_cancel-Answered c s
  handle-OnOk (modify_msg m) s = elim (Option-cases (get_elem? s.pre_modify s.pre_modify_idx)) [
    | inl e ↦ rw e tt
    | inr (qo, e) ↦ rw e (
        modify_with-Answered qo m
          (record s { seq = m.sequence_number; pre_modify_idx = s.pre_modify_idx + 1 }) refl)
  ]

  -- A message that is handled without a fault pushes exactly one acknowledgement or rejection of its
  -- kind, and every report that it pushes carries its sequence number; what was pushed before stays.
  pub handle-IsAnswered :
      (m : MeMsg) (s s' : Adapter B)
      → handle b m s ≡ ok s'
      → (rs : List Report) × (s'.reports ≡ s.reports ++ rs) × IsAnswered m rs
  handle-IsAnswered m s s' h = subst (OnOk (Answered m s)) h (handle-OnOk m s)
