-- ===== src/Liquibook/Safe.antt =====
-- No vector of the adapter is ever accessed outside, since the pre-build sizes them all.
use mathlib.Core.List.{append-nil, append_assoc}
use matching_engine_benchmar.Common.{
  ℕ, ◌+◌, ◌≤◌, ◌<◌, ◌≡◌, refl, sym, ap, subst, ◌∙◌, Bool, some, List, [], ◌∷◌, ◌++◌, arith, lt→ltb,
  length, get_elem?, set, length-set, get_elem?-set_self, All, All-append, get_elem?-lt, ok,
}
use matching_engine_benchmar.Abi.{MeMsg, new_msg, cancel_msg, modify_msg, Report}
use matching_engine_benchmar.Answers.{IsFill}
use matching_engine_benchmar.Liquibook.{
  Library, FillEvent, Adapter, push_report, on_fill, on_fills, map_lb_id, map_ext_id, add,
}
use matching_engine_benchmar.Liquibook.Handlers.{enter}

-- What the adapter relies on: the ids of order objects count up from 1 as they are constructed, `last`
-- being the latest, and a match or a cancel constructs none; the taker of a fill is the order added.
pub record IsCounting {B : Type 0} (lib : Library B) (last : B → ℕ) : Type 0 where
  pub fresh_last : last lib.fresh ≡ 0
  pub construct_id :
      (buy : Bool) (price qty : ℕ) (ioc : Bool) (b : B)
      → let (lo, b') = lib.construct buy price qty ioc b in
        (lib.order_id_ b' lo ≡ last b + 1) × (last b' ≡ last b + 1)
  pub bounded : (b : B) (lo : ℕ) → lib.order_id_ b lo ≤ last b
  pub add_last : (lo : ℕ) (ioc : Bool) (b : B) → last (lib.add lo ioc b).1 ≡ last b
  pub add_taker : (lo : ℕ) (ioc : Bool) (b : B) → All (λ x. x.taker ≡ lo) (lib.add lo ioc b).0
  pub cancel_last : (lo : ℕ) (b : B) → last (lib.cancel lo b) ≡ last b

-- The number of order objects that messages construct, at most.
unfoldable pub builds : List MeMsg → ℕ
builds [] = 0
builds (new_msg o ∷ ms) = builds ms + 1
builds (cancel_msg c ∷ ms) = builds ms
builds (modify_msg m ∷ ms) = builds ms + 1

-- The order id of a message has a slot in the forward map; a modify only uses the slot that it read.
abbrev pub HasSlot : ℕ → MeMsg → Type 0
HasSlot slots (new_msg o) = o.order_id < slots
HasSlot slots (cancel_msg c) = Unit {0}
HasSlot slots (modify_msg m) = Unit {0}

module _ {B : Type 0} where
  -- What the listener leaves alone, and what it pushes: fills for the taker with the harness's id `ext`.
  pub record Noted (ext : ℕ) (s s' : Adapter B) : Type 0 where
    pub book : s'.book ≡ s.book
    pub orders : s'.orders ≡ s.orders
    pub lb2ext : s'.lb2ext ≡ s.lb2ext
    pub seq : s'.seq ≡ s.seq
    pub fills : List Report
    pub pushed : s'.reports ≡ s.reports ++ fills
    pub are_fills : All (IsFill s.seq) fills
    pub taken : All (λ r. r.taker_order_id ≡ ext) fills

  Noted-trans :
      (ext : ℕ) (s s' s'' : Adapter B) → Noted ext s s' → Noted ext s' s'' → Noted ext s s''
  Noted-trans ext s s' s'' f g = record {
    book = g.book ∙ f.book;
    orders = g.orders ∙ f.orders;
    lb2ext = g.lb2ext ∙ f.lb2ext;
    seq = g.seq ∙ f.seq;
    fills = f.fills ++ g.fills;
    pushed = g.pushed ∙ ap (λ l. l ++ g.fills) f.pushed ∙ append_assoc s.reports f.fills g.fills;
    are_fills =
        All-append _ f.fills g.fills f.are_fills
          (subst (λ n. All (IsFill n) g.fills) f.seq g.are_fills);
    taken = All-append _ f.fills g.fills f.taken g.taken;
  }

module _ {B : Type 0} (lib : Library B) (last : B → ℕ) (counting : IsCounting lib last) where
  on_fill-Noted :
      (ext : ℕ) (x : FillEvent) (s : Adapter B)
      → last s.book < length s.lb2ext
      → get_elem? s.lb2ext (lib.order_id_ s.book x.taker) ≡ some ext
      → (s' : Adapter B) × (on_fill lib x s ≡ ok s') × Noted ext s s'
  unfolding on_fill push_report
  on_fill-Noted ext x s h t =
      let small = counting.bounded s.book x.maker in
      let (maker_id, m) = get_elem?-lt s.lb2ext (lib.order_id_ s.book x.maker) (omega arith) in
      rw (m, t)
        (
          _,
          refl,
          record {
            book = refl;
            orders = refl;
            lb2ext = refl;
            seq = refl;
            fills = _;
            pushed = refl;
            are_fills = ((refl, refl), tt);
            taken = (refl, tt);
          },
        )

  on_fills-Noted :
      (ext lo : ℕ) (xs : List FillEvent) (s : Adapter B)
      → last s.book < length s.lb2ext
      → get_elem? s.lb2ext (lib.order_id_ s.book lo) ≡ some ext
      → All (λ x. x.taker ≡ lo) xs
      → (s' : Adapter B) × (on_fills lib xs s ≡ ok s') × Noted ext s s'
  unfolding on_fills
  on_fills-Noted ext lo [] s h t k = (
    s,
    refl,
    record {
      book = refl;
      orders = refl;
      lb2ext = refl;
      seq = refl;
      fills = [];
      pushed = sym (append-nil s.reports);
      are_fills = tt;
      taken = tt;
    },
  )
  on_fills-Noted ext lo (x ∷ xs) s h t k =
      let taker : get_elem? s.lb2ext (lib.order_id_ s.book x.taker) ≡ some ext =
        ap (λ p. get_elem? s.lb2ext (lib.order_id_ s.book p)) k.0 ∙ t in
      let (s1, e, f) = on_fill-Noted ext x s h taker in
      let (s2, e', g) =
        on_fills-Noted ext lo xs s1 (rw (f.book, f.lb2ext) h) (rw (f.book, f.lb2ext) t) k.1 in
      rw e (s2, e', Noted-trans ext s s1 s2 f g)

  -- What entering an order into the maps and the book does.
  pub record Entered (ext : ℕ) (s s' : Adapter B) : Type 0 where
    pub counted : last s'.book ≡ last s.book
    pub labels : length s'.lb2ext ≡ length s.lb2ext
    pub slots : length s'.orders ≡ length s.orders
    pub fills : List Report
    pub pushed : s'.reports ≡ s.reports ++ fills
    pub are_fills : All (IsFill s.seq) fills
    pub taken : All (λ r. r.taker_order_id ≡ ext) fills

  add-Entered :
      (ext lo : ℕ) (ioc : Bool) (s : Adapter B)
      → last s.book < length s.lb2ext
      → get_elem? s.lb2ext (lib.order_id_ s.book lo) ≡ some ext
      → (s' : Adapter B) × (add lib lo ioc s ≡ ok s') × Entered ext s s'
  unfolding add
  add-Entered ext lo ioc s h t =
      let (fills, book') = lib.add lo ioc s.book in
      let (s1, e, f) = on_fills-Noted ext lo fills s h t (counting.add_taker lo ioc s.book) in
      rw e (
        _,
        refl,
        record {
          counted = counting.add_last lo ioc s.book;
          labels = ap length f.lb2ext;
          slots = ap length f.orders;
          fills = f.fills;
          pushed = f.pushed;
          are_fills = f.are_fills;
          taken = f.taken;
        },
      )

  pub enter-Entered :
      (lo ext : ℕ) (ioc : Bool) (s : Adapter B)
      → last s.book < length s.lb2ext
      → ext < length s.orders
      → (s' : Adapter B) × (enter lib lo ext ioc s ≡ ok s') × Entered ext s s'
  unfolding enter map_lb_id map_ext_id
  enter-Entered lo ext ioc s h k =
      let i = lib.order_id_ s.book lo in
      let below : i < length s.lb2ext = omega (arith, counting.bounded s.book lo) in
      let room = lt→ltb i (length s.lb2ext) below in
      let slot = lt→ltb ext (length s.orders) k in
      let labels = length-set s.lb2ext i ext in
      let slots = length-set s.orders ext (some lo) in
      let s2 : Adapter B = record s {
        lb2ext = set s.lb2ext i ext;
        orders = set s.orders ext (some lo);
      } in
      let (s', e, f) =
        add-Entered ext lo ioc s2 (omega (arith, labels))
          (get_elem?-set_self s.lb2ext i ext below) in
      rw (room, slot)
        (
          s',
          e,
          record {
            counted = f.counted;
            labels = f.labels ∙ labels;
            slots = f.slots ∙ slots;
            fills = f.fills;
            pushed = f.pushed;
            are_fills = f.are_fills;
            taken = f.taken;
          },
        )
