-- ===== src/CppOrderBook/Echo.antt =====
-- The CppOrderBook adapter answers each message, and echoes the price and the side that an order was
-- entered with, which the library does not report: its shadow keeps them.
use matching_engine_benchmar.Common.{
  ℕ, ◌-◌, ◌%◌, ◌^◌, ◌<◌, ◌≡◌, refl, sym, ap, subst, ◌∙◌, inl, inr, Bool, true, false, not, ◌&&◌,
  List, [], ◌∷◌, ◌++◌, ltb, ◌==◌, if◌then◌else◌, Bool-cases, All, All-append, ℤ, pos,
}
use mathlib.Core.List.{append-nil, append_assoc}
use mathlib.Core.Path.{fun_ext}
use matching_engine_benchmar.Abi.{
  NewOrder, Cancel, Modify, MeMsg, new_msg, cancel_msg, modify_msg, IsIndexed, Report, me_order_ack,
  me_cancel_ack, me_modify_ack, me_cancel_reject, me_modify_reject,
}
use matching_engine_benchmar.Answers.{
  ack_report, is_ack, is_accepted, IsAnswered, IsResidual, new_order-IsAnswered,
  modify_first-IsAnswered, fills-not_ack, residual-not_ack,
}
use matching_engine_benchmar.CppOrderBook.{
  Library, Adapter, Shadow, emit, emit_ack, shadow_slot, shadow_of, update_slot, to_dec_qty,
  to_dec_price,
}
use matching_engine_benchmar.CppOrderBook.Handlers.{
  submit_order, ask_cancel, residual, store_resting, start, settle, on_new_order, on_cancel,
  reinsert, on_modify, handle, engine_on_batch,
}
use matching_engine_benchmar.CppOrderBook.Store.{
  shadow_of-update_slot, shadow_of-shadow_slot, Notified, IsQuiet, IsTold, quiet-IsTold,
  on_execution_reports-Notified, on_execution_reports-quiet,
}

-- The price and the side with which each order was entered last.
abbrev pub Entries : Type 0
Entries = ℕ → ℤ × ℕ

-- The price and the side that the report that accepts a message shows: those of a new order, those with which the order was entered for
-- a cancel, and the new price with the side of the order for a modify.
abbrev pub echo : MeMsg → Entries → ℤ × ℕ
echo (new_msg o) es = (o.price_ticks, o.side)
echo (cancel_msg c) es = es c.order_id
echo (modify_msg m) es = (m.new_price_ticks, (es m.order_id).1)

abbrev pub shown : Report → ℤ × ℕ
shown r = (r.price_ticks, r.side)

abbrev pub IsEchoed : MeMsg → Entries → Report → Type 0
IsEchoed m es r = shown r ≡ (if is_ack m r then echo m es else shown r)

-- The entries after a message and its reports: an order that may rest is entered, and a modify that is
-- accepted enters its order again.
pub after : MeMsg → List Report → Entries → Entries
after (new_msg o) rs es v = if o.ioc == 0 && o.order_id == v then (o.price_ticks, o.side) else es v
after (cancel_msg c) rs es v = es v
after (modify_msg m) rs es v =
    if is_accepted (modify_msg m) rs && m.order_id == v
    then (m.new_price_ticks, (es m.order_id).1)
    else es v

-- A run that answers message after message, and echoes the entries.
pub Echoes : List MeMsg → Entries → List Report → List Report → Type 0
Echoes [] es before done = done ≡ before
Echoes (m ∷ ms) es before done =
    (rs : List Report) × IsAnswered m rs
    × All (IsEchoed m es) rs
    × Echoes ms (after m rs es) (before ++ rs) done

-- A report that accepts no message echoes nothing.
other-IsEchoed : (m : MeMsg) (es : Entries) (r : Report) → is_ack m r ≡ false → IsEchoed m es r
other-IsEchoed m es r e = rw e refl

module _ {B : Type 0} where
  -- The entries that the shadow keeps.
  abbrev pub entries : Adapter B → Entries
  entries s v = ((shadow_of v s).price, (shadow_of v s).side)

  -- A message that was handled: its answer, which echoes the entries, and the entries after it.
  pub record Echoed (IsHeld : B → Type 0) (m : MeMsg) (s s' : Adapter B) : Type 0 where
    pub held : IsHeld s'.book
    pub answer : List Report
    pub pushed : s'.reports ≡ s.reports ++ answer
    pub answered : IsAnswered m answer
    pub echoed : All (IsEchoed m (entries s)) answer
    pub entered : (v : ℕ) → entries s' v ≡ after m answer (entries s) v

  entries-update_slot :
      (oid v : ℕ) (f : Shadow → Shadow) (s : Adapter B)
      → oid < 2 ^ 64 - 1
      → entries (update_slot oid f s) v
        ≡ (if oid == v then ((f (shadow_of v s)).price, (f (shadow_of v s)).side) else entries s v)
  entries-update_slot oid v f s h = elim (Bool-cases (oid == v)) [
    | inl e ↦ rw e (ap (λ x. (x.price, x.side)) (rw e at (shadow_of-update_slot oid v f s h)))
    | inr e ↦ rw e (ap (λ x. (x.price, x.side)) (rw e at (shadow_of-update_slot oid v f s h)))
  ]

  entries-update_same :
      (oid v : ℕ) (f : Shadow → Shadow) (s : Adapter B)
      → oid < 2 ^ 64 - 1
      → ((x : Shadow) → ((f x).price ≡ x.price) × ((f x).side ≡ x.side))
      → entries (update_slot oid f s) v ≡ entries s v
  entries-update_same oid v f s i h = entries-update_slot oid v f s i ∙ same (oid == v)
    where
      same :
          (b : Bool)
          → (if b then ((f (shadow_of v s)).price, (f (shadow_of v s)).side) else entries s v)
            ≡ entries s v
      same true = let (p, q) = h (shadow_of v s) in λ i. (p i, q i)
      same false = refl

  -- The growth of the store enters nothing.
  entries-shadow_slot :
      (oid v : ℕ) (s : Adapter B) → oid < 2 ^ 64 - 1 → entries (shadow_slot oid s) v ≡ entries s v
  entries-shadow_slot oid v s h = ap (λ x. (x.price, x.side)) (shadow_of-shadow_slot oid v s h)

  -- The write of a resting order enters it.
  entries-store_resting :
      (oid : ℕ) (price : ℤ) (side left v : ℕ) (s : Adapter B)
      → oid < 2 ^ 64 - 1
      → entries (store_resting oid price side left s) v
        ≡ (if oid == v then (price, side) else entries s v)
  unfolding store_resting
  entries-store_resting oid price side left v s h = entries-update_slot oid v _ s h

  settle-IsResidual :
      (o : NewOrder) (s : Adapter B)
      → o.order_id < 2 ^ 64 - 1
      → (rs : List Report) × ((settle o s).reports ≡ s.reports ++ rs)
        × ((settle o s).book ≡ s.book)
        × IsResidual o rs
        × ((v : ℕ) → entries (settle o s) v ≡ after (new_msg o) rs (entries s) v)
  unfolding settle after store_resting update_slot shadow_slot emit_ack emit shadow_of
  settle-IsResidual o s h =
      let left = residual o.quantity s in
      elim (Bool-cases (o.ioc == 0)) [
        | inl e ↦ rw e (
          [],
          sym (append-nil s.reports),
          refl,
          tt,
          λ v. entries-store_resting o.order_id o.price_ticks o.side left v s h,
        )
        | inr e ↦ elim (Bool-cases (ltb 0 left)) [
          | inl more ↦ rw (e, more) (_, refl, refl, (refl, refl), λ v. refl)
          | inr more ↦ rw (e, more) ([], sym (append-nil s.reports), refl, tt, λ v. refl)
        ]
      ]

-- What the adapter relies on, for the books that `IsHeld` describes: orders with ids below 2 ^ 64 - 1 that
-- are added and cancelled lead from such a book to such a book; the makers of the trades have such ids; and a
-- cancel reports no trade.
pub record IsKeeper {B D : Type 0} (lib : Library B D) (IsHeld : B → Type 0) : Type 0 where
  pub added :
      (oid : ℕ) (sell : Bool) (qty price : D) (ioc : Bool) (b : B)
      → oid < 2 ^ 64 - 1
      → IsHeld b
      → All IsTold (lib.add_order oid sell qty price ioc b).0
        × IsHeld (lib.add_order oid sell qty price ioc b).1
  pub cancelled :
      (oid : ℕ) (b : B)
      → oid < 2 ^ 64 - 1
      → IsHeld b
      → All IsQuiet (lib.cancel_order oid b).0 × IsHeld (lib.cancel_order oid b).1

module _ {B D : Type 0} (lib : Library B D) (IsHeld : B → Type 0)
    (keeper : IsKeeper lib IsHeld) where
  submit_order-Notified :
      (oid side qty : ℕ) (price : ℤ) (ioc : Bool) (s : Adapter B)
      → oid < 2 ^ 64 - 1
      → IsHeld s.book
      → Notified lib s (submit_order lib oid side qty price ioc s)
        × IsHeld (submit_order lib oid side qty price ioc s).book
  unfolding submit_order shadow_of
  submit_order-Notified oid side qty price ioc s i h =
      let (xs, book') =
        lib.add_order oid (not (side == 0)) (to_dec_qty lib qty) (to_dec_price lib price) ioc
          s.book in
      let (told, held) =
        keeper.added oid (not (side == 0)) (to_dec_qty lib qty) (to_dec_price lib price) ioc s.book
          i h in
      let n = on_execution_reports-Notified lib xs s told in
      (
        record {
          price = n.price;
          side = n.side;
          seq = n.seq;
          filled = record {
            fills = n.filled.fills;
            pushed = n.filled.pushed;
            are_fills = n.filled.are_fills;
          };
        },
        held,
      )

  -- The verdict on a cancel pushes nothing and leaves the entries alone.
  ask_cancel-quiet :
      (oid : ℕ) (s : Adapter B)
      → oid < 2 ^ 64 - 1
      → IsHeld s.book
      → IsHeld (ask_cancel lib oid s).book
        × ((ask_cancel lib oid s).reports ≡ s.reports)
        × ((v : ℕ) → entries (ask_cancel lib oid s) v ≡ entries s v)
  unfolding ask_cancel shadow_of
  ask_cancel-quiet oid s i h =
      let (xs, book') = lib.cancel_order oid s.book in
      let asked : Adapter B = record s { cancel_ok = false; cancel_qty = 0 } in
      let (quiet, held) = keeper.cancelled oid s.book i h in
      let n = on_execution_reports-Notified lib xs asked (quiet-IsTold xs quiet) in
      (held, on_execution_reports-quiet lib xs asked quiet, λ v i. (n.price v i, n.side v i))

  on_new_order-Echoed :
      (o : NewOrder) (s : Adapter B)
      → o.order_id < 2 ^ 64 - 1
      → IsHeld s.book
      → Echoed IsHeld (new_msg o) s (on_new_order lib o s)
  unfolding on_new_order emit_ack emit start shadow_of after
  on_new_order-Echoed o s i h =
      let ioc = not (o.ioc == 0) in
      let ack =
        ack_report me_order_ack o.sequence_number o.order_id o.side o.price_ticks o.quantity in
      let st = start o.sequence_number (emit ack s) in
      let matched = submit_order lib o.order_id o.side o.quantity o.price_ticks ioc st in
      let (n, held) = submit_order-Notified o.order_id o.side o.quantity o.price_ticks ioc st i h in
      let kept : (v : ℕ) → entries matched v ≡ entries s v = λ v i. (n.price v i, n.side v i) in
      let f = n.filled in
      let (rs, pushed, same, is_residual, entered) = settle-IsResidual o matched i in
      record {
        held = subst IsHeld (sym same) held;
        answer = ack ∷ f.fills ++ rs;
        pushed =
            pushed
            ∙ ap (λ l. l ++ rs) f.pushed
            ∙ append_assoc (s.reports ++ ack ∷ []) f.fills rs
            ∙ append_assoc s.reports (ack ∷ []) (f.fills ++ rs);
        answered = new_order-IsAnswered o ack f.fills rs refl refl f.are_fills is_residual;
        echoed = (
          refl,
          All-append _ f.fills rs
              (fills-not_ack (new_msg o) _ (other-IsEchoed (new_msg o) (entries s))
                o.sequence_number f.fills f.are_fills)
              (residual-not_ack o _ (other-IsEchoed (new_msg o) (entries s)) rs is_residual),
        );
        entered = λ v.
            entered v
            ∙ ap (λ p. if o.ioc == 0 && o.order_id == v then (o.price_ticks, o.side) else p)
                (kept v);
      }

  on_cancel-Echoed :
      (c : Cancel) (s : Adapter B)
      → c.order_id < 2 ^ 64 - 1
      → IsHeld s.book
      → Echoed IsHeld (cancel_msg c) s (on_cancel lib c s)
  unfolding on_cancel emit_ack emit update_slot shadow_slot after shadow_of
  on_cancel-Echoed c s i h =
      let asked = ask_cancel lib c.order_id s in
      let (held, same, kept) = ask_cancel-quiet c.order_id s i h in
      let found = shadow_slot c.order_id asked in
      let e = shadow_of c.order_id found in
      let dead = λ (x : Shadow). record x { alive = false } in
      let ack =
        ack_report me_cancel_ack c.sequence_number c.order_id e.side e.price
          (found.cancel_qty % 2 ^ 32) in
      let reject = ack_report me_cancel_reject c.sequence_number c.order_id 0 (pos 0) 0 in
      elim (Bool-cases asked.cancel_ok) [
        | inl e ↦
            simp (on_cancel, e)
              (record {
                held = held;
                answer = ack ∷ [];
                pushed = ap (λ l. l ++ ack ∷ []) same;
                answered = record { one = refl; numbered = (refl, tt) };
                echoed = (entries-shadow_slot c.order_id c.order_id asked i ∙ kept c.order_id, tt);
                entered = λ v.
                    entries-update_same c.order_id v dead (emit ack found) i (λ x. (refl, refl))
                    ∙ entries-shadow_slot c.order_id v asked i
                    ∙ kept v;
              })
        | inr e ↦
            simp (on_cancel, e)
              (record {
                held = held;
                answer = reject ∷ [];
                pushed = ap (λ l. l ++ reject ∷ []) same;
                answered = record { one = refl; numbered = (refl, tt) };
                echoed = (refl, tt);
                entered = kept;
              })
      ]

  reinsert-Echoed :
      (m : Modify) (s asked : Adapter B)
      → m.order_id < 2 ^ 64 - 1
      → IsHeld asked.book
      → asked.reports ≡ s.reports
      → ((v : ℕ) → entries asked v ≡ entries s v)
      → Echoed IsHeld (modify_msg m) s (reinsert lib m asked)
  unfolding reinsert emit_ack emit start shadow_of after store_resting update_slot shadow_slot
  reinsert-Echoed m s asked i h same kept =
      let found = shadow_slot m.order_id asked in
      let side = (shadow_of m.order_id found).side in
      let ack =
        ack_report me_modify_ack m.sequence_number m.order_id side m.new_price_ticks
          m.new_quantity in
      let st = start m.sequence_number (emit ack found) in
      let matched = submit_order lib m.order_id side m.new_quantity m.new_price_ticks false st in
      let (n, held) =
        submit_order-Notified m.order_id side m.new_quantity m.new_price_ticks false st i h in
      let before : (v : ℕ) → entries found v ≡ entries s v =
        λ v. entries-shadow_slot m.order_id v asked i ∙ kept v in
      let through : (v : ℕ) → entries matched v ≡ entries s v =
        λ v. (λ i. (n.price v i, n.side v i)) ∙ before v in
      let echoes : (m.new_price_ticks, side) ≡ (m.new_price_ticks, (entries s m.order_id).1) =
        ap (λ p. (m.new_price_ticks, p.1)) (before m.order_id) in
      let f = n.filled in
      record {
        held = held;
        answer = ack ∷ f.fills;
        pushed =
            f.pushed
            ∙ ap (λ l. (l ++ ack ∷ []) ++ f.fills) same
            ∙ append_assoc s.reports (ack ∷ []) f.fills;
        answered = modify_first-IsAnswered m ack f.fills refl refl f.are_fills;
        echoed = (
          echoes,
          fills-not_ack (modify_msg m) _ (other-IsEchoed (modify_msg m) (entries s))
              m.sequence_number f.fills f.are_fills,
        );
        entered = λ v.
            entries-store_resting m.order_id m.new_price_ticks side
              (residual m.new_quantity matched) v matched i
            ∙ (λ i. if m.order_id == v then echoes i else through v i);
      }

  on_modify-Echoed :
      (m : Modify) (s : Adapter B)
      → m.order_id < 2 ^ 64 - 1
      → IsHeld s.book
      → Echoed IsHeld (modify_msg m) s (on_modify lib m s)
  unfolding on_modify emit_ack emit after shadow_of
  on_modify-Echoed m s i h =
      let asked = ask_cancel lib m.order_id s in
      let (held, same, kept) = ask_cancel-quiet m.order_id s i h in
      let reject = ack_report me_modify_reject m.sequence_number m.order_id 0 (pos 0) 0 in
      elim (Bool-cases asked.cancel_ok) [
        | inl e ↦ simp (on_modify, e) (reinsert-Echoed m s asked i held same kept)
        | inr e ↦
            simp (on_modify, e)
              (record {
                held = held;
                answer = reject ∷ [];
                pushed = ap (λ l. l ++ reject ∷ []) same;
                answered = record { one = refl; numbered = (refl, tt) };
                echoed = (refl, tt);
                entered = kept;
              })
      ]

  -- A message that the CppOrderBook adapter handles.
  pub handle-Echoed :
      (m : MeMsg) (s : Adapter B) → IsIndexed m → IsHeld s.book → Echoed IsHeld m s (handle lib m s)
  unfolding handle
  handle-Echoed (new_msg o) s i h = on_new_order-Echoed o s i h
  handle-Echoed (cancel_msg c) s i h = on_cancel-Echoed c s i h
  handle-Echoed (modify_msg m) s i h = on_modify-Echoed m s i h

  -- From any state whose book holds only orders with ids below 2 ^ 64 - 1, a run of messages through the
  -- CppOrderBook adapter answers each message with exactly one acknowledgement or rejection and numbers
  -- each report with it; and an accepted cancel shows the price and the side with which its order was
  -- entered last, by a new order that may rest or by an accepted modify, which shows the side of the order
  -- that it enters again; for order ids below 2 ^ 64 - 1, and a library that makes trades only with orders
  -- of such ids, and none during a cancel.
  pub engine_on_batch-Echoes :
      (ms : List MeMsg) (s : Adapter B)
      → All IsIndexed ms
      → IsHeld s.book
      → Echoes ms (entries s) s.reports (engine_on_batch lib ms s).reports
  unfolding engine_on_batch Echoes
  engine_on_batch-Echoes [] s i h = refl
  engine_on_batch-Echoes (m ∷ ms) s i h =
      let s1 = handle lib m s in
      let done = (engine_on_batch lib ms s1).reports in
      let v = handle-Echoed m s i.0 h in
      let es = after m v.answer (entries s) in
      let rest =
        subst (λ e. Echoes ms e s1.reports done) (fun_ext v.entered)
          (engine_on_batch-Echoes ms s1 i.1 v.held) in
      (v.answer, v.answered, v.echoed, subst (λ l. Echoes ms es l done) v.pushed rest)
