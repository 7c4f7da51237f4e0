-- ===== src/Kautenja/Mirror.antt =====
-- The shadows of the Kautenja adapter mirror the orders that rest in the library's book.
use matching_engine_benchmar.Common.{
  ℕ, ◌-◌, ◌^◌, ◌≤◌, ◌<◌, ◌≡◌, refl, sym, subst, ◌∙◌, ◌≢◌, inl, inr, true, false, not, List, [], ◌∷◌,
  ◌++◌, arith, ltb, ◌==◌, Bool-cases, ℤ,
}
use mathlib.Core.List.{append-nil}
use matching_engine_benchmar.Abi.{NewOrder, MeMsg, new_msg, cancel_msg, modify_msg, Report}
use matching_engine_benchmar.Answers.{IsResidual, Fills}
use matching_engine_benchmar.Kautenja.{
  Library, Adapter, Shadow, emit, emit_ack, shadow_of, update_slot, trade_hooks, to_engine_price,
}
use matching_engine_benchmar.Kautenja.Handlers.{residual, rest, take_out, submit_order, settle}
use matching_engine_benchmar.Kautenja.Shadows.{
  taken, total, IsBook, live, IsLive, shadow_of-update_slot, trade_hooks-Hooked, IsPriced,
  to_engine_price-lt, resting-IsMade,
}

pub eq_self : (v : ℕ) → (v == v) ≡ true
eq_self v = ground arith

eq_ne : (u v : ℕ) → u ≢ v → (u == v) ≡ false
eq_ne u v h = ground (arith, h)

-- A message other than the new order with an id.
abbrev pub NotEntered : ℕ → MeMsg → Type 0
NotEntered v (new_msg o) = o.order_id ≢ v
NotEntered v (cancel_msg c) = Unit {0}
NotEntered v (modify_msg m) = Unit {0}

residual-left :
    {B : Type 0} (qty t : ℕ) (s : Adapter B)
    → s.taker_fill ≡ t
    → t ≤ qty
    → qty < 2 ^ 32
    → qty - t ≡ residual qty s
unfolding residual
residual-left qty t s f h k = ground (arith, f, h, k)

residual-lt : {B : Type 0} (qty : ℕ) (s : Adapter B) → residual qty s < 2 ^ 32
unfolding residual
residual-lt qty s = ground arith

module _ {B : Type 0} (rests : B → ℕ → ℕ) where
  -- No order rests whose slot is out of reach.
  abbrev pub IsReached : B → Type 0
  IsReached b = (v : ℕ) → 2 ^ 64 - 1 ≤ v → rests b v ≡ 0

  -- The shadows stand for the quantities that rest in the book.
  pub record Mirrors (s : Adapter B) : Type 0 where
    pub same : (v : ℕ) → live (shadow_of v s) ≡ rests s.book v
    pub lives : (v : ℕ) → IsLive (shadow_of v s)

  -- The matching of an order that does not rest: only its own shadow is still to be written.
  pub record Limited (seq oid qty : ℕ) (s s' : Adapter B) : Type 0 where
    pub own_rests : rests s'.book oid ≡ residual qty s'
    pub own_live : live (shadow_of oid s') ≡ 0
    pub same : (v : ℕ) → oid ≢ v → live (shadow_of v s') ≡ rests s'.book v
    pub lives : (v : ℕ) → IsLive (shadow_of v s')
    pub kept_out : (v : ℕ) → rests s.book v ≡ 0 → oid ≢ v → rests s'.book v ≡ 0
    pub filled : Fills (λ (t : Adapter B). t.reports) seq s s'

  -- The end of a new order.
  pub record Settled (o : NewOrder) (s s' s'' : Adapter B) : Type 0 where
    pub last : List Report
    pub pushed : s''.reports ≡ s'.reports ++ last
    pub is_residual : IsResidual o last
    pub mirrors : Mirrors s''
    pub kept_out : (v : ℕ) → rests s.book v ≡ 0 → o.order_id ≢ v → rests s''.book v ≡ 0

module _ {B : Type 0} (lib : Library B) (rests : B → ℕ → ℕ) (book : IsBook lib rests) where
  pub submit_order-Limited :
      (seq oid side : ℕ) (price : ℤ) (qty : ℕ) (s : Adapter B)
      → Mirrors rests s
      → rests s.book oid ≡ 0
      → qty < 2 ^ 32
      → IsPriced price
      → IsReached rests s.book
      → Limited rests seq oid qty s (submit_order lib seq oid side price qty s)
  unfolding submit_order shadow_of residual
  submit_order-Limited seq oid side price qty s m h k p reached =
      let sell = not (side == 0) in
      let px = to_engine_price price in
      let px_lt = to_engine_price-lt price p in
      let (xs, book') = lib.limit sell oid qty px s.book in
      let s0 : Adapter B = record s { cur_seq = seq; taker_id = oid; taker_fill = 0 } in
      let below : (v : ℕ) → taken xs v ≤ live (shadow_of v s) = λ v.
        let t = book.limit_taken sell oid qty px s.book px_lt h v in omega (arith, t, m.same v) in
      let hooked = trade_hooks-Hooked 0 xs s0 refl below m.lives (
        resting-IsMade (rests s.book) reached xs
          (book.limit_makers sell oid qty px s.book px_lt h)) in
      let s1 = trade_hooks xs s0 in
      let sum = book.limit_total sell oid qty px s.book px_lt h in
      let fill : s1.taker_fill ≡ total xs = hooked.filled ∙ omega arith in
      let after = book.limit_rests sell oid qty px s.book px_lt h in
      let own : rests book' oid ≡ qty - total xs = rw (eq_self oid) at (after oid) in
      let other : (v : ℕ) → oid ≢ v → rests book' v ≡ rests s.book v - taken xs v =
        λ v ne. rw (eq_ne oid v ne) at (after v) in
      record {
        own_rests =
            own
            ∙ residual-left qty (total xs) (submit_order lib seq oid side price qty s) fill sum k;
        own_live = omega (arith, (hooked.lives oid).0, m.same oid);
        same = λ v ne. omega (arith, (hooked.lives v).0, m.same v, other v ne);
        lives = λ v. (hooked.lives v).1;
        kept_out = λ v z ne. omega (arith, other v ne);
        filled =
            let f = hooked.fills in
            record { fills = f.fills; pushed = f.pushed; are_fills = f.are_fills };
      }

  module _ {s' : Adapter B} where
    -- The write of the order's own slot, with what rests of it.
    pub written-Mirrors :
        (seq oid qty : ℕ) (f : Shadow → Shadow) (s : Adapter B)
        → oid < 2 ^ 64 - 1
        → Limited rests seq oid qty s s'
        → ((e : Shadow) → (live (f e) ≡ rests s'.book oid) × IsLive (f e))
        → Mirrors rests (update_slot oid f s')
    unfolding update_slot
    written-Mirrors seq oid qty f s i l h = record {
      same = λ v. elim (Bool-cases (oid == v)) [
        | inl e ↦
            let is : oid ≡ v = ground arith in
            rw (shadow_of-update_slot oid v f s' i, e)
              (subst (λ n. live (f (shadow_of v s')) ≡ rests s'.book n) is (h (shadow_of v s')).0)
        | inr e ↦
            let other : oid ≢ v = λ p. ground (arith, p, e) in
            rw (shadow_of-update_slot oid v f s' i, e) (l.same v other)
      ];
      lives = λ v. elim (Bool-cases (oid == v)) [
        | inl e ↦ rw (shadow_of-update_slot oid v f s' i, e) (h (shadow_of v s')).1
        | inr e ↦ rw (shadow_of-update_slot oid v f s' i, e) (l.lives v)
      ];
    }

    -- Nothing is left of the order, so nothing is to be written.
    unwritten-Mirrors :
        (seq oid qty : ℕ) (s : Adapter B)
        → Limited rests seq oid qty s s'
        → ltb 0 (residual qty s') ≡ false
        → Mirrors rests s'
    unwritten-Mirrors seq oid qty s l z = record {
      same = λ v. elim (Bool-cases (oid == v)) [
        | inl e ↦
            let is : oid ≡ v = ground arith in
            let none_left : rests s'.book oid ≡ 0 = ground (arith, l.own_rests, z) in
            subst (λ n. live (shadow_of n s') ≡ rests s'.book n) is (l.own_live ∙ sym none_left)
        | inr e ↦ l.same v (λ p. ground (arith, p, e))
      ];
      lives = l.lives;
    }

    -- What is left is taken out of the book again.
    removed-Mirrors :
        (seq oid qty : ℕ) (s : Adapter B)
        → Limited rests seq oid qty s s'
        → Mirrors rests (take_out lib oid s')
    unfolding take_out shadow_of
    removed-Mirrors seq oid qty s l = record {
      same = λ v. elim (Bool-cases (oid == v)) [
        | inl e ↦
            let is : oid ≡ v = ground arith in
            let gone : rests (lib.remove oid s'.book) v ≡ 0 =
              rw e at (book.remove_rests oid v s'.book) in
            subst (λ n. live (shadow_of n s') ≡ 0) is l.own_live ∙ sym gone
        | inr e ↦
            let kept : rests (lib.remove oid s'.book) v ≡ rests s'.book v =
              rw e at (book.remove_rests oid v s'.book) in
            l.same v (λ p. ground (arith, p, e)) ∙ sym kept
      ];
      lives = l.lives;
    }

  pub take_out-kept_out : (oid v : ℕ) (b : B) → rests b v ≡ 0 → rests (lib.remove oid b) v ≡ 0
  take_out-kept_out oid v b h = elim (Bool-cases (oid == v)) [
    | inl e ↦ rw e at (book.remove_rests oid v b)
    | inr e ↦ (rw e at (book.remove_rests oid v b)) ∙ h
  ]

  pub settle-Settled :
      (o : NewOrder) (s s' : Adapter B)
      → o.order_id < 2 ^ 64 - 1
      → Limited rests o.sequence_number o.order_id o.quantity s s'
      → Settled rests o s s' (settle lib o s')
  unfolding settle emit_ack emit take_out update_slot shadow_of
  settle-Settled o s s' i l =
      let left = residual o.quantity s' in
      let seq = o.sequence_number in
      let id = o.order_id in
      let same_mirrors = λ (z : ltb 0 left ≡ false). unwritten-Mirrors seq id o.quantity s l z in
      elim (Bool-cases (o.ioc == 0)) [
        | inl e ↦ elim (Bool-cases (ltb 0 left)) [
          | inl some_left ↦
              simp (settle, e, some_left)
                (record {
                  last = [];
                  pushed = sym (append-nil s'.reports);
                  is_residual = tt;
                  mirrors =
                      written-Mirrors seq id o.quantity (rest o.price_ticks o.side left) s i l
                        (λ x. (sym l.own_rests, sym some_left));
                  kept_out = l.kept_out;
                })
          | inr none_left ↦
              simp (settle, e, none_left)
                (record {
                  last = [];
                  pushed = sym (append-nil s'.reports);
                  is_residual = tt;
                  mirrors = same_mirrors none_left;
                  kept_out = l.kept_out;
                })
        ]
        | inr e ↦ elim (Bool-cases (ltb 0 left)) [
          | inl some_left ↦
              let there : lib.has id s'.book ≡ true =
                book.has_rests id s'.book (ground (arith, l.own_rests, some_left)) in
              simp (settle, e, some_left, there)
                (record {
                  last = _ ∷ [];
                  pushed = refl;
                  is_residual = (refl, refl);
                  mirrors =
                      let m = removed-Mirrors seq id o.quantity s l in
                      record { same = m.same; lives = m.lives };
                  kept_out = λ v z ne. take_out-kept_out id v s'.book (l.kept_out v z ne);
                })
          | inr none_left ↦
              simp (settle, e, none_left)
                (record {
                  last = [];
                  pushed = sym (append-nil s'.reports);
                  is_residual = tt;
                  mirrors = same_mirrors none_left;
                  kept_out = l.kept_out;
                })
        ]
      ]
