-- ===== src/QuantCup/Shadow.antt =====
-- The invariant of the shadow, which every entry point keeps: an order that rests has a quantity.
use matching_engine_benchmar.Common.{
  ℕ, zero, suc, ◌%◌, ◌^◌, ◌<◌, ◌≡◌, subst, inl, inr, true, false, not, some, List, [], ◌∷◌, arith,
  ltb, ◌==◌, if◌then◌else◌, ltb→lt, Bool-cases, Option-cases, length, get_elem?, set, get_or,
  replicate, All, OnOk,
}
use matching_engine_benchmar.Abi.{NewOrder, Modify, Cancel, MeMsg, new_msg, cancel_msg, modify_msg}
use matching_engine_benchmar.QuantCup.{
  Book, OrderState, Adapter, TOrder, TExecution, emit_ack, push_report, find_order, store, price_ok,
  limit, cancel, report_fill, hit_taker, hit_maker, execution, executions, decode_id, decrement,
}
use matching_engine_benchmar.QuantCup.Handlers.{
  settle, open_order, new_order_with, rest_again, reinsert, modify_with, engine_on_cancel,
}

-- A live order has a quantity, which fits its 32 bits.
abbrev pub IsSound : OrderState → Type 0
IsSound o = (o.alive ≡ true → 0 < o.qty) × (o.qty < 2 ^ 32)

All-set :
    (P : OrderState → Type 0) (os : List OrderState) (i : ℕ) (o : OrderState)
    → All P os
    → P o
    → All P (set os i o)
All-set P [] i o h p = tt
All-set P (x ∷ os) zero o h p = (p, h.1)
All-set P (x ∷ os) (suc i) o h p = (h.0, All-set P os i o h.1 p)

All-get_elem? :
    (P : OrderState → Type 0) (os : List OrderState) (i : ℕ) (o : OrderState)
    → All P os
    → get_elem? os i ≡ some o
    → P o
All-get_elem? P [] i o h e = absurd (ground (arith, e))
All-get_elem? P (x ∷ os) zero o h e = subst P (ground (arith, e)) h.0
All-get_elem? P (x ∷ os) (suc i) o h e = All-get_elem? P os i o h.1 e

All-get_or :
    (P : OrderState → Type 0) (os : List OrderState) (i : ℕ) (d : OrderState)
    → All P os
    → P d
    → P (get_or os i d)
All-get_or P [] i d h p = p
All-get_or P (x ∷ os) zero d h p = h.0
All-get_or P (x ∷ os) (suc i) d h p = All-get_or P os i d h.1 p

pub All-replicate : (P : OrderState → Type 0) (n : ℕ) (o : OrderState) → P o → All P (replicate n o)
All-replicate P zero o p = tt
All-replicate P (suc n) o p = (p, All-replicate P n o p)

decrement-IsSound : (qty : ℕ) (o : OrderState) → IsSound o → IsSound (decrement qty o)
unfolding decrement
decrement-IsSound qty o h = ground arith

module _ {B : Type 0} where
  -- All slots are sound, and the aggressor's remainder fits its 32 bits.
  pub record IsShadow (s : Adapter B) : Type 0 where
    pub slots : All IsSound s.orders
    pub left : s.taker_left < 2 ^ 32

  hit_taker-IsShadow : (qty : ℕ) (s : Adapter B) → IsShadow s → IsShadow (hit_taker qty s)
  unfolding hit_taker
  hit_taker-IsShadow qty s v = ground arith

  hit_maker-IsShadow : (id qty : ℕ) (s : Adapter B) → IsShadow s → IsShadow (hit_maker id qty s)
  unfolding hit_maker find_order
  hit_maker-IsShadow id qty s v = elim (Option-cases (get_elem? s.orders id)) [
    | inl e ↦ rw (e, hit_maker) v
    | inr (o, e) ↦
        let sound = All-get_elem? IsSound s.orders id o v.slots e in
        rw (e, hit_maker)
          (record {
            slots =
                All-set IsSound s.orders id (decrement qty o) v.slots
                  (decrement-IsSound qty o sound);
            left = v.left;
          })
  ]

  execution-IsShadow : (x : TExecution) (s : Adapter B) → IsShadow s → IsShadow (execution x s)
  unfolding execution report_fill push_report
  execution-IsShadow x s v =
      let qty = x.size % 2 ^ 32 in
      let v1 : IsShadow (report_fill x s) = record { slots = v.slots; left = v.left } in
      let hit = hit_maker-IsShadow (decode_id x.trader) qty _ (hit_taker-IsShadow qty _ v1) in
      elim (Bool-cases (if s.taker_side == 0 then x.side == 1 else x.side == 0)) [
        | inl e ↦ rw e hit
        | inr e ↦ rw e v
      ]

  executions-IsShadow :
      (xs : List TExecution) (s : Adapter B) → IsShadow s → IsShadow (executions xs s)
  unfolding executions
  executions-IsShadow [] s v = v
  executions-IsShadow (x ∷ xs) s v =
      executions-IsShadow xs (execution x s) (execution-IsShadow x s v)

-- The quantities of a message fit their C types.
abbrev pub HasQuantity : MeMsg → Type 0
HasQuantity (new_msg o) = o.quantity < 2 ^ 32
HasQuantity (cancel_msg c) = Unit {0}
HasQuantity (modify_msg m) = m.new_quantity < 2 ^ 32

module _ {B : Type 0} (b : Book B) where
  limit-IsShadow : (qo : TOrder) (s : Adapter B) → IsShadow s → IsShadow (limit b qo s).1
  unfolding limit
  limit-IsShadow qo s v =
      let (qcid, xs, book') = b.limit qo s.book in
      executions-IsShadow xs _ (record { slots = v.slots; left = v.left })

  settle-IsShadow :
      (o : NewOrder) (qcid : ℕ) (s : Adapter B) → IsShadow s → OnOk IsShadow (settle b o qcid s)
  unfolding settle store cancel emit_ack push_report
  settle-IsShadow o qcid s v = elim (Bool-cases (not (o.ioc == 0))) [
    | inl e ↦ elim (Bool-cases (ltb 0 s.taker_left)) [
      | inl d ↦ rw (e, d) (record { slots = v.slots; left = v.left })
      | inr d ↦ rw (e, d) v
    ]
    | inr e ↦ elim (Bool-cases (ltb 0 s.taker_left)) [
      | inl d ↦
          let some_left = ltb→lt 0 s.taker_left d in
          elim (Bool-cases (ltb o.order_id (length s.orders))) [
            | inl i ↦
                rw (e, d, i)
                  (record {
                    slots = All-set IsSound s.orders o.order_id _ v.slots (λ a. some_left, v.left);
                    left = v.left;
                  })
            | inr i ↦ rw (e, d, i) tt
          ]
      | inr d ↦ rw (e, d) v
    ]
  ]

  pub new_order_with-IsShadow :
      (qo : TOrder) (o : NewOrder) (s : Adapter B)
      → o.quantity < 2 ^ 32
      → IsShadow s
      → OnOk IsShadow (new_order_with b qo o s)
  unfolding new_order_with open_order emit_ack push_report
  new_order_with-IsShadow qo o s q v =
      let opened : IsShadow (open_order b o s) = record { slots = v.slots; left = q } in
      settle-IsShadow o _ _ (limit-IsShadow qo _ opened)

  rest_again-IsShadow :
      (m : Modify) (qcid : ℕ) (o : OrderState) (s : Adapter B)
      → IsSound o
      → IsShadow s
      → IsShadow (rest_again b m qcid o s)
  unfolding rest_again emit_ack push_report
  rest_again-IsShadow m qcid o s h v = elim (Bool-cases (ltb 0 s.taker_left)) [
    | inl d ↦
        let some_left = ltb→lt 0 s.taker_left d in
        rw d (record {
          slots = All-set IsSound s.orders m.order_id _ v.slots (λ a. some_left, v.left);
          left = v.left;
        })
    | inr d ↦
        let now = All-get_or IsSound s.orders m.order_id o v.slots h in
        let dead : IsSound (record (get_or s.orders m.order_id o) { alive = false }) =
          (λ a. absurd (ground (arith, a)), now.1) in
        rw d (record { slots = All-set IsSound s.orders m.order_id _ v.slots dead; left = v.left })
  ]

  reinsert-IsShadow :
      (qo : TOrder) (m : Modify) (o : OrderState) (s : Adapter B)
      → m.new_quantity < 2 ^ 32
      → IsSound o
      → IsShadow s
      → IsShadow (reinsert b qo m o s)
  unfolding reinsert cancel
  reinsert-IsShadow qo m o s q h v =
      rest_again-IsShadow m _ o _ h (limit-IsShadow qo _ (record { slots = v.slots; left = q }))

  pub modify_with-IsShadow :
      (qo : TOrder) (m : Modify) (s : Adapter B)
      → m.new_quantity < 2 ^ 32
      → IsShadow s
      → OnOk IsShadow (modify_with b qo m s)
  unfolding modify_with find_order emit_ack push_report
  modify_with-IsShadow qo m s q v = elim (Option-cases (get_elem? s.orders m.order_id)) [
    | inl e ↦ rw (e, modify_with) (record { slots = v.slots; left = v.left })
    | inr (o, e) ↦
        let sound = All-get_elem? IsSound s.orders m.order_id o v.slots e in
        elim (Bool-cases o.alive) [
          | inl d ↦ elim (Bool-cases (price_ok b m.new_price_ticks)) [
            | inl p ↦ simp (e, modify_with, d, p) (reinsert-IsShadow qo m o s q sound v)
            | inr p ↦ rw (e, modify_with, d, p) tt
          ]
          | inr d ↦ rw (e, modify_with, d) (record { slots = v.slots; left = v.left })
        ]
  ]

  pub engine_on_cancel-IsShadow :
      (c : Cancel) (s : Adapter B) → IsShadow s → IsShadow (engine_on_cancel b c s)
  unfolding engine_on_cancel find_order cancel emit_ack push_report
  engine_on_cancel-IsShadow c s v = elim (Option-cases (get_elem? s.orders c.order_id)) [
    | inl e ↦ rw (e, engine_on_cancel) (record { slots = v.slots; left = v.left })
    | inr (o, e) ↦
        let dead : IsSound (record o { alive = false; qty = 0 }) = ground arith in
        elim (Bool-cases o.alive) [
          | inl d ↦
              rw (e, engine_on_cancel, d)
                (record {
                  slots = All-set IsSound s.orders c.order_id _ v.slots dead;
                  left = v.left;
                })
          | inr d ↦ rw (e, engine_on_cancel, d) (record { slots = v.slots; left = v.left })
        ]
  ]
