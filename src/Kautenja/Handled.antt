-- ===== src/Kautenja/Handled.antt =====
-- One message through the Kautenja adapter: it is answered by what rests in the library's book.
use matching_engine_benchmar.Common.{
  ℕ, ◌-◌, ◌^◌, ◌<◌, ◌≡◌, refl, sym, ap, ◌∙◌, inl, inr, Bool, true, false, List, [], ◌∷◌, ◌++◌,
  arith, ltb, ◌==◌, if◌then◌else◌, Bool-cases, get_or-replicate, All, All-append, pos,
}
use mathlib.Core.List.{append_assoc}
use matching_engine_benchmar.Abi.{
  NewOrder, Cancel, Modify, MeMsg, new_msg, cancel_msg, modify_msg, Report, me_order_ack,
  me_cancel_ack, me_modify_ack, me_cancel_reject, me_modify_reject,
}
use matching_engine_benchmar.Answers.{
  ack_report, is_ack, is_accepted, IsAnswered, new_order-IsAnswered, modify_first-IsAnswered,
  fills-not_ack, residual-not_ack,
}
use matching_engine_benchmar.Kautenja.{
  Library, Adapter, Shadow, blank_shadow, emit, emit_ack, shadow_of, update_slot, engine_init,
  shadow_init,
}
use matching_engine_benchmar.Kautenja.Handlers.{
  residual, dead, rest, is_alive, take_out, submit_order, on_new_order, on_cancel, reinsert,
  on_modify, handle,
}
use matching_engine_benchmar.Kautenja.Shadows.{
  IsBook, live, IsLive, IsPriced, shadow_of-update_slot, is_alive-shadow_of,
}
use matching_engine_benchmar.Kautenja.Mirror.{
  eq_self, NotEntered, IsReached, Mirrors, submit_order-Limited, written-Mirrors, take_out-kept_out,
  settle-Settled,
}

-- Whether a message is to be accepted when the orders rest as they do: each new order, and a cancel or a
-- modify of an order that rests.
abbrev pub accepts : MeMsg → (ℕ → ℕ) → Bool
accepts (new_msg o) r = true
accepts (cancel_msg c) r = ltb 0 (r c.order_id)
accepts (modify_msg m) r = ltb 0 (r m.order_id)

-- The quantity of the report that accepts a message: what the message asks for, or what a cancel takes out.
abbrev pub expected : MeMsg → (ℕ → ℕ) → ℕ
expected (new_msg o) r = o.quantity
expected (cancel_msg c) r = r c.order_id
expected (modify_msg m) r = m.new_quantity

abbrev pub IsExact : MeMsg → (ℕ → ℕ) → Report → Type 0
IsExact m r x = x.quantity ≡ (if is_ack m x then expected m r else x.quantity)

-- A message whose quantity fits its C type, whose price stays in 64 bits with the offset, and whose slot is
-- in reach.
abbrev pub IsFitting : MeMsg → Type 0
IsFitting (new_msg o) = (o.quantity < 2 ^ 32) × IsPriced o.price_ticks × (o.order_id < 2 ^ 64 - 1)
IsFitting (cancel_msg c) = c.order_id < 2 ^ 64 - 1
IsFitting (modify_msg m) =
    (m.new_quantity < 2 ^ 32) × IsPriced m.new_price_ticks × (m.order_id < 2 ^ 64 - 1)

-- A report that accepts nothing.
other-IsExact : (m : MeMsg) (r : ℕ → ℕ) (x : Report) → is_ack m x ≡ false → IsExact m r x
other-IsExact m r x e = rw e refl

module _ {B : Type 0} (rests : B → ℕ → ℕ) where
  -- A message that was handled.
  pub record Handled (m : MeMsg) (s s' : Adapter B) : Type 0 where
    pub mirrors : Mirrors rests s'
    pub answer : List Report
    pub pushed : s'.reports ≡ s.reports ++ answer
    pub answered : IsAnswered m answer
    pub truth : is_accepted m answer ≡ accepts m (rests s.book)
    pub exact : All (IsExact m (rests s.book)) answer
    pub kept_out : (v : ℕ) → rests s.book v ≡ 0 → NotEntered v m → rests s'.book v ≡ 0

  is_alive-rests :
      (oid : ℕ) (s : Adapter B) → Mirrors rests s → is_alive oid s ≡ ltb 0 (rests s.book oid)
  is_alive-rests oid s m = is_alive-shadow_of oid s ∙ m.lives oid ∙ ap (ltb 0) (m.same oid)

  remaining-rests :
      (oid : ℕ) (s : Adapter B)
      → Mirrors rests s
      → is_alive oid s ≡ true
      → (shadow_of oid s).remaining ≡ rests s.book oid
  remaining-rests oid s m h =
      let alive : (shadow_of oid s).alive ≡ true = sym (is_alive-shadow_of oid s) ∙ h in
      rw alive at (m.same oid)

-- What a modify writes into the slot of its order stands for what is left of it.
reinserted-live :
    (f : Shadow → Shadow) (left n : ℕ) (e : Shadow)
    → left ≡ n
    → (live (f e) ≡ left) × (ltb 0 left ≡ true → IsLive (f e))
    → (live ((if ltb 0 left then f else dead) e) ≡ n) × IsLive ((if ltb 0 left then f else dead) e)
reinserted-live f left n e h k = elim (Bool-cases (ltb 0 left)) [
  | inl more ↦ rw more (k.0 ∙ h, k.1 more)
  | inr none_left ↦ rw none_left (ground (arith, h), refl)
]

module _ {B : Type 0} (lib : Library B) (rests : B → ℕ → ℕ) (book : IsBook lib rests) where
  -- The order is out of the book, and its slot dead.
  taken_out-Mirrors :
      (oid : ℕ) (s : Adapter B)
      → oid < 2 ^ 64 - 1
      → Mirrors rests s
      → Mirrors rests (update_slot oid dead (take_out lib oid s))
  unfolding take_out shadow_of update_slot
  taken_out-Mirrors oid s i m =
      let slot = λ (v : ℕ). shadow_of-update_slot oid v dead (take_out lib oid s) i in
      record {
        same = λ v. elim (Bool-cases (oid == v)) [
          | inl e ↦
              let gone : rests (lib.remove oid s.book) v ≡ 0 =
                rw e at (book.remove_rests oid v s.book) in
              rw (slot v, e) (sym gone)
          | inr e ↦
              let kept : rests (lib.remove oid s.book) v ≡ rests s.book v =
                rw e at (book.remove_rests oid v s.book) in
              rw (slot v, e) (m.same v ∙ sym kept)
        ];
        lives = λ v. elim (Bool-cases (oid == v)) [
          | inl e ↦ rw (slot v, e) refl
          | inr e ↦ rw (slot v, e) (m.lives v)
        ];
      }

  on_new_order-Handled :
      (o : NewOrder) (s : Adapter B)
      → Mirrors rests s
      → rests s.book o.order_id ≡ 0
      → IsFitting (new_msg o)
      → IsReached rests s.book
      → Handled rests (new_msg o) s (on_new_order lib o s)
  unfolding on_new_order emit_ack emit shadow_of
  on_new_order-Handled o s m h (k, price, i) reached =
      let seq = o.sequence_number in
      let ack = ack_report me_order_ack seq o.order_id o.side o.price_ticks o.quantity in
      let acked = emit ack s in
      let l =
        submit_order-Limited lib rests book seq o.order_id o.side o.price_ticks o.quantity acked
          (record { same = m.same; lives = m.lives }) h k price reached in
      let f = l.filled in
      let t = settle-Settled lib rests book o acked _ i l in
      let other = other-IsExact (new_msg o) (rests s.book) in
      record {
        mirrors = t.mirrors;
        answer = ack ∷ f.fills ++ t.last;
        pushed =
            t.pushed
            ∙ ap (λ l. l ++ t.last) f.pushed
            ∙ append_assoc (s.reports ++ ack ∷ []) f.fills t.last
            ∙ append_assoc s.reports (ack ∷ []) (f.fills ++ t.last);
        answered = new_order-IsAnswered o ack f.fills t.last refl refl f.are_fills t.is_residual;
        truth = refl;
        exact = (
          refl,
          All-append _ f.fills t.last (fills-not_ack (new_msg o) _ other seq f.fills f.are_fills)
              (residual-not_ack o _ other t.last t.is_residual),
        );
        kept_out = t.kept_out;
      }

  on_cancel-Handled :
      (c : Cancel) (s : Adapter B)
      → Mirrors rests s
      → c.order_id < 2 ^ 64 - 1
      → Handled rests (cancel_msg c) s (on_cancel lib c s)
  unfolding on_cancel emit_ack emit take_out shadow_of update_slot
  on_cancel-Handled c s m i =
      let id = c.order_id in
      let e = shadow_of id s in
      let ack = ack_report me_cancel_ack c.sequence_number id e.side e.price e.remaining in
      let known = is_alive-rests rests id s m in
      let out = taken_out-Mirrors id s i m in
      elim (Bool-cases (is_alive id s)) [
        | inl h ↦
            simp (on_cancel, h)
              (record {
                mirrors = record { same = out.same; lives = out.lives };
                answer = ack ∷ [];
                pushed = refl;
                answered = record { one = refl; numbered = (refl, tt) };
                truth = sym h ∙ known;
                exact = (remaining-rests rests id s m h, tt);
                kept_out = λ v z ne. take_out-kept_out lib rests book id v s.book z;
              })
        | inr h ↦
            simp (on_cancel, h)
              (record {
                mirrors = record { same = m.same; lives = m.lives };
                answer = ack_report me_cancel_reject c.sequence_number id 0 (pos 0) 0 ∷ [];
                pushed = refl;
                answered = record { one = refl; numbered = (refl, tt) };
                truth = sym h ∙ known;
                exact = (refl, tt);
                kept_out = λ v z ne. z;
              })
      ]

  reinsert-Handled :
      (m : Modify) (s : Adapter B)
      → Mirrors rests s
      → is_alive m.order_id s ≡ true
      → IsFitting (modify_msg m)
      → IsReached rests s.book
      → Handled rests (modify_msg m) s (reinsert lib m s)
  unfolding reinsert emit_ack emit take_out shadow_of update_slot
  reinsert-Handled m s mirrors alive (k, price, i) reached =
      let id = m.order_id in
      let seq = m.sequence_number in
      let side = (shadow_of id s).side in
      let ack = ack_report me_modify_ack seq id side m.new_price_ticks m.new_quantity in
      let out = taken_out-Mirrors id s i mirrors in
      let gone : rests (lib.remove id s.book) id ≡ 0 =
        rw (eq_self id) at (book.remove_rests id id s.book) in
      let acked = emit ack (update_slot id dead (take_out lib id s)) in
      let matched = submit_order lib seq id side m.new_price_ticks m.new_quantity acked in
      let l =
        submit_order-Limited lib rests book seq id side m.new_price_ticks m.new_quantity acked
          (record { same = out.same; lives = out.lives }) gone k price
          (λ v h. take_out-kept_out lib rests book id v s.book (reached v h)) in
      let f = l.filled in
      let left = residual m.new_quantity matched in
      let written =
        written-Mirrors lib rests book seq id m.new_quantity
          (if ltb 0 left then rest m.new_price_ticks side left else dead) acked i l
          (λ e.
            reinserted-live (rest m.new_price_ticks side left) left _ e (sym l.own_rests)
              (refl, λ h. sym h)) in
      record {
        mirrors = record { same = written.same; lives = written.lives };
        answer = ack ∷ f.fills;
        pushed = f.pushed ∙ append_assoc s.reports (ack ∷ []) f.fills;
        answered = modify_first-IsAnswered m ack f.fills refl refl f.are_fills;
        truth = sym alive ∙ is_alive-rests rests id s mirrors;
        exact = (
          refl,
          fills-not_ack (modify_msg m) _ (other-IsExact (modify_msg m) (rests s.book)) seq f.fills
              f.are_fills,
        );
        kept_out = λ v z ne. elim (Bool-cases (id == v)) [
          | inl e ↦
              let is : id ≡ v = ground arith in
              let live_one : ltb 0 (rests s.book id) ≡ true =
                sym (is_alive-rests rests id s mirrors) ∙ alive in
              absurd (ground (arith, live_one, z, ap (rests s.book) is))
          | inr e ↦
              l.kept_out v (take_out-kept_out lib rests book id v s.book z)
                (λ p. ground (arith, p, e))
        ];
      }

  on_modify-Handled :
      (m : Modify) (s : Adapter B)
      → Mirrors rests s
      → IsFitting (modify_msg m)
      → IsReached rests s.book
      → Handled rests (modify_msg m) s (on_modify lib m s)
  unfolding on_modify emit_ack emit shadow_of
  on_modify-Handled m s mirrors k reached =
      let id = m.order_id in
      elim (Bool-cases (is_alive id s)) [
        | inl h ↦ simp (on_modify, h) (reinsert-Handled m s mirrors h k reached)
        | inr h ↦
            simp (on_modify, h)
              (record {
                mirrors = record { same = mirrors.same; lives = mirrors.lives };
                answer = ack_report me_modify_reject m.sequence_number id 0 (pos 0) 0 ∷ [];
                pushed = refl;
                answered = record { one = refl; numbered = (refl, tt) };
                truth = sym h ∙ is_alive-rests rests id s mirrors;
                exact = (refl, tt);
                kept_out = λ v z ne. z;
              })
      ]

  pub handle-Handled :
      (m : MeMsg) (s : Adapter B)
      → Mirrors rests s
      → IsFitting m
      → IsReached rests s.book
      → ((o : NewOrder) → m ≡ new_msg o → rests s.book o.order_id ≡ 0)
      → Handled rests m s (handle lib m s)
  unfolding handle
  handle-Handled (new_msg o) s m k reached fresh =
      on_new_order-Handled o s m (fresh o refl) k reached
  handle-Handled (cancel_msg c) s m k reached fresh = on_cancel-Handled c s m k
  handle-Handled (modify_msg d) s m k reached fresh = on_modify-Handled d s m k reached

  pub engine_init-Mirrors : Mirrors rests (engine_init lib)
  unfolding engine_init shadow_of
  engine_init-Mirrors = record {
    same = λ v. rw (get_or-replicate shadow_init v blank_shadow) (sym (book.empty_rests v));
    lives = λ v. rw (get_or-replicate shadow_init v blank_shadow) refl;
  }
