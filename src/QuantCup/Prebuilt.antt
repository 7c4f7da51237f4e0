-- ===== src/QuantCup/Prebuilt.antt =====
-- The pre-built orders: each message of the timed run consumes the one that was built for it.
use mathlib.Core.List.{append-nil, append_assoc}
use matching_engine_benchmar.Common.{
  ℕ, ◌+◌, ◌-◌, ◌*◌, ◌%◌, ◌^◌, ◌≤◌, ◌<◌, max, ◌≡◌, refl, sym, ap, ◌∙◌, inl, inr, true, false, some,
  List, [], ◌∷◌, ◌++◌, arith, leb, Bool-cases, length, get_elem?, length-append, drop, replicate,
  length-replicate, All, drop-drop, get_elem?-drop, Result, ok, ◌>>=◌,
}
use matching_engine_benchmar.Abi.{MeMsg, new_msg, cancel_msg, modify_msg, IsIndexed}
use matching_engine_benchmar.Answers.{Fault}
use matching_engine_benchmar.QuantCup.{
  Book, OrderState, blank_order, Adapter, TOrder, build_new, build_modify, engine_init, price_ok,
}
use matching_engine_benchmar.QuantCup.Handlers.{
  check_qc_arena, grow, engine_prebuild, new_order_with, engine_on_new_order, engine_on_cancel,
  modify_with, engine_on_modify, handle, engine_on_batch, prebuild_messages,
}
use matching_engine_benchmar.QuantCup.Frame.{
  new_order_with-Frame, modify_with-Frame, engine_on_cancel-Frame,
}

-- The orders that the messages need, in order: those of the new orders, and those of the modifies.
unfoldable pub new_orders : List MeMsg → List TOrder
new_orders [] = []
new_orders (new_msg o ∷ ms) = build_new o ∷ new_orders ms
new_orders (cancel_msg c ∷ ms) = new_orders ms
new_orders (modify_msg m ∷ ms) = new_orders ms

unfoldable pub reinserts : List MeMsg → List TOrder
reinserts [] = []
reinserts (new_msg o ∷ ms) = reinserts ms
reinserts (cancel_msg c ∷ ms) = reinserts ms
reinserts (modify_msg m ∷ ms) = build_modify m ∷ reinserts ms

-- A new order has a slot in the shadow.
abbrev pub HasSlot : ℕ → MeMsg → Type 0
HasSlot slots (new_msg o) = o.order_id < slots
HasSlot slots (cancel_msg c) = Unit {0}
HasSlot slots (modify_msg m) = Unit {0}

drop-suc :
    (n : ℕ) (xs : List TOrder) (x : TOrder) (ys : List TOrder)
    → drop n xs ≡ x ∷ ys
    → (get_elem? xs n ≡ some x) × (drop (n + 1) xs ≡ ys)
drop-suc n xs x ys e =
    let at : get_elem? xs (n + 0) ≡ some x =
      sym (get_elem?-drop n 0 xs) ∙ ap (λ l. get_elem? l 0) e in
    let after : drop (n + 1) xs ≡ ys = sym (drop-drop 1 n xs) ∙ ap (drop 1) e in
    (ground (arith, at), after)

module _ {B : Type 0} (b : Book B) where
  -- The handlers with each order built at its message: what the pre-build is to be equivalent to.
  pub handle_direct : MeMsg → Adapter B → Result Fault (Adapter B)
  handle_direct (new_msg o) s =
      new_order_with b (build_new o) o (record s { pre_idx = s.pre_idx + 1 })
  handle_direct (cancel_msg c) s = ok (engine_on_cancel b c s)
  handle_direct (modify_msg m) s =
      modify_with b (build_modify m) m
        (record s { seq = m.sequence_number; pre_modify_idx = s.pre_modify_idx + 1 })

  pub all_direct : List MeMsg → Adapter B → Result Fault (Adapter B)
  all_direct [] s = ok s
  all_direct (m ∷ ms) s = do s1 ← handle_direct m s; all_direct ms s1

  -- The price of a modify is in range, which the timed run checks.
  abbrev pub IsRepriced : MeMsg → Type 0
  IsRepriced (new_msg o) = Unit {0}
  IsRepriced (cancel_msg c) = Unit {0}
  IsRepriced (modify_msg m) = price_ok b m.new_price_ticks ≡ true

  -- The orders from the two indices on are the ones that the messages to come need.
  pub record IsAligned (ms : List MeMsg) (s : Adapter B) : Type 0 where
    pub news : drop s.pre_idx s.pre ≡ new_orders ms
    pub modifies : drop s.pre_modify_idx s.pre_modify ≡ reinserts ms

  -- What a successful pre-build of the messages has made of `s`.
  pub record IsBuilt (ms : List MeMsg) (s s' : Adapter B) : Type 0 where
    pub pre : s'.pre ≡ s.pre ++ new_orders ms
    pub pre_modify : s'.pre_modify ≡ s.pre_modify ++ reinserts ms
    pub pre_idx : s'.pre_idx ≡ s.pre_idx
    pub pre_modify_idx : s'.pre_modify_idx ≡ s.pre_modify_idx
    pub more_slots : length s.orders ≤ length s'.orders
    pub fits : All (HasSlot (length s'.orders)) ms

  -- The price of a new order is in range, which the pre-build checks.
  abbrev pub IsPriced : MeMsg → Type 0
  IsPriced (new_msg o) = price_ok b o.price_ticks ≡ true
  IsPriced (cancel_msg c) = Unit {0}
  IsPriced (modify_msg m) = Unit {0}

  grow-slots :
      (id : ℕ) (orders : List OrderState)
      → id < 2 ^ 64 - 1
      → (length orders ≤ length (grow b id orders)) × (id < length (grow b id orders))
  unfolding grow
  grow-slots id orders small = elim (Bool-cases (leb (length orders) id)) [
    | inl e ↦
        let n = max (length orders * 2) ((id + 1) % 2 ^ 64) - length orders in
        let next : (id + 1) % 2 ^ 64 ≡ id + 1 = omega (arith, small) in
        rw e (
          let total = length-append orders (replicate n blank_order) in
          let more = length-replicate n blank_order in
          (ground (arith, total, more, next), ground (arith, total, more, next)))
    | inr e ↦ rw e (ground arith)
  ]

  prebuild_messages-IsBuilt :
      (ms : List MeMsg) (s : Adapter B)
      → All IsPriced ms
      → All IsIndexed ms
      → s.limit_calls + (length (new_orders ms) + length (reinserts ms)) < b.max_num_orders
      → (s' : Adapter B) × (prebuild_messages b ms s ≡ ok s') × IsBuilt ms s s'
  unfolding prebuild_messages engine_prebuild check_qc_arena new_orders reinserts
  prebuild_messages-IsBuilt [] s ps ks h = (
    s,
    refl,
    record {
      pre = sym (append-nil s.pre);
      pre_modify = sym (append-nil s.pre_modify);
      pre_idx = refl;
      pre_modify_idx = refl;
      more_slots = omega arith;
      fits = tt;
    },
  )
  prebuild_messages-IsBuilt (new_msg o ∷ ms) s ps ks h =
      let room : leb b.max_num_orders (s.limit_calls + 1) ≡ false = ground arith in
      let s1 : Adapter B = record s {
        limit_calls = s.limit_calls + 1;
        pre = s.pre ++ build_new o ∷ [];
        orders = grow b o.order_id s.orders;
      } in
      let (s', e, v) = prebuild_messages-IsBuilt ms s1 ps.1 ks.1 (omega arith) in
      let slots = grow-slots o.order_id s.orders ks.0 in
      let priced : price_ok b o.price_ticks ≡ true = ps.0 in
      rw (priced, room)
        (
          s',
          e,
          record {
            pre = v.pre ∙ append_assoc s.pre (build_new o ∷ []) (new_orders ms);
            pre_modify = v.pre_modify;
            pre_idx = v.pre_idx;
            pre_modify_idx = v.pre_modify_idx;
            more_slots = ground (arith, slots.0, v.more_slots);
            fits = (ground (arith, slots.1, v.more_slots), v.fits);
          },
        )
  prebuild_messages-IsBuilt (cancel_msg c ∷ ms) s ps ks h =
      let (s', e, v) = prebuild_messages-IsBuilt ms s ps.1 ks.1 h in
      (
        s',
        e,
        record {
          pre = v.pre;
          pre_modify = v.pre_modify;
          pre_idx = v.pre_idx;
          pre_modify_idx = v.pre_modify_idx;
          more_slots = v.more_slots;
          fits = (tt, v.fits);
        },
      )
  prebuild_messages-IsBuilt (modify_msg m ∷ ms) s ps ks h =
      let room : leb b.max_num_orders (s.limit_calls + 1) ≡ false = ground arith in
      let s1 : Adapter B = record s {
        limit_calls = s.limit_calls + 1;
        pre_modify = s.pre_modify ++ build_modify m ∷ [];
      } in
      let (s', e, v) = prebuild_messages-IsBuilt ms s1 ps.1 ks.1 (omega arith) in
      rw room (
        s',
        e,
        record {
          pre = v.pre;
          pre_modify =
              v.pre_modify ∙ append_assoc s.pre_modify (build_modify m ∷ []) (reinserts ms);
          pre_idx = v.pre_idx;
          pre_modify_idx = v.pre_modify_idx;
          more_slots = v.more_slots;
          fits = (tt, v.fits);
        },
      )

  -- A step of the timed run at an aligned state is the direct step, does not fault, and leaves an
  -- aligned state.
  handle-IsAligned :
      (m : MeMsg) (ms : List MeMsg) (s : Adapter B)
      → IsAligned (m ∷ ms) s
      → HasSlot (length s.orders) m
      → IsRepriced m
      → (s' : Adapter B) × (handle b m s ≡ ok s')
        × (handle_direct m s ≡ ok s')
        × IsAligned ms s'
        × (length s'.orders ≡ length s.orders)
  unfolding handle handle_direct engine_on_new_order engine_on_modify new_orders reinserts
  handle-IsAligned (new_msg o) ms s a h p =
      let next = drop-suc s.pre_idx s.pre _ _ a.news in
      let (s', e, f) =
        new_order_with-Frame b (build_new o) o (record s { pre_idx = s.pre_idx + 1 }) h in
      let eq = next.0 in
      rw eq (
        s',
        e,
        e,
        record {
          news = rw (f.pre, f.pre_idx) next.1;
          modifies = rw (f.pre_modify, f.pre_modify_idx) a.modifies;
        },
        f.slots,
      )
  handle-IsAligned (cancel_msg c) ms s a h p =
      let f = engine_on_cancel-Frame b c s in
      (
        engine_on_cancel b c s,
        refl,
        refl,
        record {
          news = rw (f.pre, f.pre_idx) a.news;
          modifies = rw (f.pre_modify, f.pre_modify_idx) a.modifies;
        },
        f.slots,
      )
  handle-IsAligned (modify_msg m) ms s a h p =
      let next = drop-suc s.pre_modify_idx s.pre_modify _ _ a.modifies in
      let (s', e, f) =
        modify_with-Frame b (build_modify m) m
          (record s { seq = m.sequence_number; pre_modify_idx = s.pre_modify_idx + 1 }) p in
      let eq = next.0 in
      rw eq (
        s',
        e,
        e,
        record {
          news = rw (f.pre, f.pre_idx) a.news;
          modifies = rw (f.pre_modify, f.pre_modify_idx) next.1;
        },
        f.slots,
      )

  engine_on_batch-IsAligned :
      (ms : List MeMsg) (s : Adapter B)
      → IsAligned ms s
      → All (HasSlot (length s.orders)) ms
      → All IsRepriced ms
      → (s' : Adapter B) × (engine_on_batch b ms s ≡ ok s') × (all_direct ms s ≡ ok s')
  unfolding engine_on_batch all_direct
  engine_on_batch-IsAligned [] s a h p = (s, refl, refl)
  engine_on_batch-IsAligned (m ∷ ms) s a h p =
      let (s1, e, d, a1, slots) = handle-IsAligned m ms s a h.0 p.0 in
      let (s', e', d') = engine_on_batch-IsAligned ms s1 a1 (rw slots h.1) p.1 in
      rw (e, d) (s', e', d')

  -- A workload whose prices are in range and whose order ids are below 2 ^ 64 - 1, with fewer new orders
  -- and modifies than the arena has slots, is pre-built without a fault; its timed run then ends without a
  -- fault too, and in the state of a run that builds each native order at the message that it is for.
  pub engine_on_batch-prebuilt :
      (ms : List MeMsg)
      → All IsPriced ms
      → All IsRepriced ms
      → All IsIndexed ms
      → length (new_orders ms) + length (reinserts ms) < b.max_num_orders
      → (s : Adapter B) × (s' : Adapter B) × (prebuild_messages b ms (engine_init b) ≡ ok s)
        × (engine_on_batch b ms s ≡ ok s')
        × (all_direct ms s ≡ ok s')
  unfolding engine_init
  engine_on_batch-prebuilt ms ps rs ks h =
      let (s, e, v) = prebuild_messages-IsBuilt ms (engine_init b) ps ks (omega arith) in
      let aligned : IsAligned ms s = record {
        news = rw (v.pre, v.pre_idx) refl;
        modifies = rw (v.pre_modify, v.pre_modify_idx) refl;
      } in
      let (s', e', d') = engine_on_batch-IsAligned ms s aligned v.fits rs in (s, s', e, e', d')
