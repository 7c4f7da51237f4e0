-- ===== src/ExchangeCore/Batched.antt =====
-- One message in a batch of the exchange-core adapter.
use matching_engine_benchmar.Common.{
  ℕ, ◌+◌, ◌-◌, ◌%◌, ◌^◌, ◌≤◌, ◌<◌, ◌≡◌, refl, sym, ap, ◌∙◌, inl, inr, true, false, not, ◌&&◌, [],
  ◌∷◌, ◌++◌, arith, ltb, ◌==◌, Bool-cases, Option-cases, length, length-append, ℤ, pos, ltb_ℤ,
  sub_nat, ok, ◌>>=◌,
}
use mathlib.Core.List.{append-nil, append_assoc}
use matching_engine_benchmar.Abi.{
  NewOrder, Cancel, Modify, MeMsg, new_msg, cancel_msg, modify_msg, Report, me_order_ack,
  me_cancel_ack, me_modify_ack,
}
use matching_engine_benchmar.Bytes.{to_u64, of_u64}
use matching_engine_benchmar.Answers.{ack_report}
use matching_engine_benchmar.ExchangeCore.{IOrderBook, Adapter, out_cap, as_jint}
use matching_engine_benchmar.ExchangeCore.Handlers.{rep, rep_trades}
use matching_engine_benchmar.ExchangeCore.Batch.{
  batch_residual, batch_new, batch_cancel, batch_modify, batch_handle,
}
use matching_engine_benchmar.ExchangeCore.Answer.{
  trades, filled, count_trades, rep_trades-trades, length-trades, residual_of, answer, IsFew,
  IsMatched, IsMessage,
}
use matching_engine_benchmar.ExchangeCore.Single.{as_jint_pos}

rep-ok :
    {B : Type 0} (r : Report) (s : Adapter B)
    → length s.out < out_cap
    → rep r s ≡ ok (record s { out = s.out ++ r ∷ [] })
unfolding rep
rep-ok r s h = let fits : ltb (length s.out) out_cap ≡ true = ground (arith, h) in rw fits refl

-- The comparison and the difference of a `long` and an `int`, where both are small.
residual_lt : (n q : ℕ) → q < 2 ^ 31 → n ≤ q → ltb_ℤ (of_u64 (n % 2 ^ 64)) (as_jint q) ≡ ltb n q
unfolding of_u64
residual_lt n q h k =
    let small : n % 2 ^ 64 ≡ n = omega (arith, h, k) in
    let signed : ltb n (2 ^ 63) ≡ true = ground (arith, h, k) in
    let jint = as_jint_pos q h in rw (jint, small, signed) (ground arith)

residual_left : (n q : ℕ) → q < 2 ^ 31 → n ≤ q → to_u64 (sub_nat (as_jint q) n) % 2 ^ 32 ≡ q - n
unfolding to_u64
residual_left n q h k = let jint = as_jint_pos q h in rw jint (ground (arith, h, k))

-- The residual of an order that is filled by at most its quantity.
batch_residual-out :
    {B : Type 0} (o : NewOrder) (n : ℕ) (s : Adapter B)
    → IsMessage (new_msg o)
    → n ≤ o.quantity
    → length s.out < out_cap
    → batch_residual o (n, s) ≡ ok (record s { out = s.out ++ residual_of o n })
unfolding batch_residual
batch_residual-out o n s h k l =
    let less = residual_lt n o.quantity h.0 k in
    let left = residual_left n o.quantity h.0 k in
    elim (Bool-cases (o.ioc == 1)) [
      | inl e ↦ elim (Bool-cases (ltb n o.quantity)) [
        | inl f ↦
            rw (e, less, f, left)
              (rep-ok
                (ack_report me_cancel_ack o.sequence_number o.order_id o.side o.price_ticks
                  (o.quantity - n))
                s l)
        | inr f ↦ rw (e, less, f) (λ i. ok (record s { out = sym (append-nil s.out) i }))
      ]
      | inr e ↦ rw e (λ i. ok (record s { out = sym (append-nil s.out) i }))
    ]

residual_of-length : (o : NewOrder) (n : ℕ) → length (residual_of o n) ≤ 1
residual_of-length o n = elim (Bool-cases (o.ioc == 1 && ltb n o.quantity)) [
  | inl e ↦ rw e (omega arith)
  | inr e ↦ rw e (omega arith)
]

module _ {B : Type 0} (lib : IOrderBook B) (law : IsMatched lib) where
  -- A message in a batch that has room for it.
  pub record Batched (m : MeMsg) (s : Adapter B) : Type 0 where
    pub done :
        batch_handle lib m s
        ≡ ok (record s { book = (answer lib m s.book).1; out = s.out ++ (answer lib m s.book).0 })
    pub few : length (answer lib m s.book).0 ≤ 2048

  batch_new-Batched :
      (o : NewOrder) (s : Adapter B)
      → IsMessage (new_msg o)
      → length s.out + 2048 ≤ out_cap
      → IsFew lib (new_msg o) s.book
      → Batched (new_msg o) s
  unfolding IsFew batch_handle batch_new answer
  batch_new-Batched o s h k few =
      let ack =
        ack_report me_order_ack o.sequence_number o.order_id o.side o.price_ticks o.quantity in
      let acked : Adapter B = record s { out = s.out ++ ack ∷ [] } in
      let placed =
        lib.new_order o.order_id o.price_ticks (pos o.quantity) (not (o.side == 0)) (o.ioc == 1)
          s.book in
      let sum =
        law.at_most o.order_id o.quantity o.price_ticks (not (o.side == 0)) (o.ioc == 1) s.book in
      let ts = trades placed.0 o.order_id o.sequence_number in
      let count = length-trades placed.0 o.order_id o.sequence_number in
      let size : length acked.out ≡ length s.out + 1 = length-append s.out (ack ∷ []) in
      let matched : Adapter B = record acked { book = placed.1 } in
      let traded : Adapter B = record matched { out = acked.out ++ ts } in
      let size' = length-append acked.out ts in
      let rest = residual_of o (filled placed.0) in
      let lib_new = λ (q : ℤ) (t : Adapter B).
        let (es, b) =
          lib.new_order o.order_id o.price_ticks q (not (o.side == 0)) (o.ioc == 1) t.book in
        rep_trades es o.order_id o.sequence_number (record t { book = b }) in
      record {
        done =
            ap (λ r. r >>= (λ t. lib_new (as_jint o.quantity) t) >>= batch_residual o)
              (rep-ok ack s (omega (arith, k)))
            ∙ ap (λ q. lib_new q acked >>= batch_residual o) (as_jint_pos o.quantity h.0)
            ∙ ap (λ r. r >>= batch_residual o)
                (rep_trades-trades placed.0 o.order_id o.sequence_number matched
                  (omega (arith, size, few, k)))
            ∙ batch_residual-out o (filled placed.0) traded h sum
                (omega (arith, size', size, few, k, count))
            ∙ (λ i. ok (record s {
              book = placed.1;
              out =
                  (append_assoc (s.out ++ ack ∷ []) ts rest
                      ∙ append_assoc s.out (ack ∷ []) (ts ++ rest))
                    i;
            }));
        few =
            omega
              (arith, length-append ts rest, residual_of-length o (filled placed.0), few, count);
      }

  batch_cancel-Batched :
      (c : Cancel) (s : Adapter B) → length s.out + 2048 ≤ out_cap → Batched (cancel_msg c) s
  unfolding batch_handle batch_cancel answer
  batch_cancel-Batched c s k =
      let cancelled = lib.cancel_order c.order_id s.book in
      let s1 : Adapter B = record s { book = cancelled.1 } in
      elim (Option-cases cancelled.0) [
        | inl e ↦ record {
          done = rw (answer, batch_cancel, e) (rep-ok _ s1 (omega (arith, k)));
          few = rw (answer, e) (omega arith);
        }
        | inr (r, e) ↦ record {
          done = rw (answer, batch_cancel, e) (rep-ok _ s1 (omega (arith, k)));
          few = rw (answer, e) (omega arith);
        }
      ]

  batch_modify-Batched :
      (m : Modify) (s : Adapter B)
      → IsMessage (modify_msg m)
      → length s.out + 2048 ≤ out_cap
      → IsFew lib (modify_msg m) s.book
      → Batched (modify_msg m) s
  unfolding IsFew batch_handle batch_modify answer
  batch_modify-Batched m s h k few =
      let cancelled = lib.cancel_order m.order_id s.book in
      let s1 : Adapter B = record s { book = cancelled.1 } in
      let ack =
        ack_report me_modify_ack m.sequence_number m.order_id m.side m.new_price_ticks
          m.new_quantity in
      let placed =
        lib.new_order m.order_id m.new_price_ticks (pos m.new_quantity) (not (m.side == 0)) false
          cancelled.1 in
      let ts = trades placed.0 m.order_id m.sequence_number in
      let count = length-trades placed.0 m.order_id m.sequence_number in
      let matched : Adapter B = record s { book = placed.1 } in
      let traded : Adapter B = record matched { out = s.out ++ ts } in
      let jint = as_jint_pos m.new_quantity h in
      elim (Option-cases cancelled.0) [
        | inl e ↦ record {
          done = rw (answer, batch_modify, e) (rep-ok _ s1 (omega (arith, k)));
          few = rw (answer, e) (omega arith);
        }
        | inr (r, e) ↦
            let few_fills : count_trades placed.0 ≤ 1024 = rw (IsFew, e) at few in
            record {
              done =
                  rw (answer, batch_modify, e, jint)
                    (ap (λ r. r >>= (λ p. rep ack p.1))
                        (rep_trades-trades placed.0 m.order_id m.sequence_number matched
                          (omega (arith, few_fills, k)))
                      ∙ rep-ok ack traded
                          (omega (arith, length-append s.out ts, few_fills, k, count))
                      ∙ (λ i. ok (record s {
                        book = placed.1;
                        out = append_assoc s.out ts (ack ∷ []) i;
                      })));
              few = rw (answer, e) (omega (arith, length-append ts (ack ∷ []), few_fills, count));
            }
      ]

  pub batch_handle-Batched :
      (m : MeMsg) (s : Adapter B)
      → IsMessage m
      → length s.out + 2048 ≤ out_cap
      → IsFew lib m s.book
      → Batched m s
  batch_handle-Batched (new_msg o) s h k few = batch_new-Batched o s h k few
  batch_handle-Batched (cancel_msg c) s h k few = batch_cancel-Batched c s k
  batch_handle-Batched (modify_msg m) s h k few = batch_modify-Batched m s h k few
