-- ===== src/Liquibook/Whole.antt =====
-- The pre-build of a whole workload, and the run after it.
use matching_engine_benchmar.Common.{
  ℕ, ◌+◌, ◌-◌, ◌*◌, ◌%◌, ◌^◌, ◌≤◌, ◌<◌, max, ◌≡◌, refl, sym, ap, subst, ◌∙◌, inl, inr, none, List,
  [], ◌∷◌, ◌++◌, arith, leb, Bool-cases, length, length-replicate, length-resize, All, ok,
}
use matching_engine_benchmar.Abi.{MeMsg, new_msg, cancel_msg, modify_msg, IsIndexed, Report}
use matching_engine_benchmar.Answers.{IsAnswered}
use matching_engine_benchmar.Liquibook.{Library, Adapter, engine_init, initial_slots}
use matching_engine_benchmar.Liquibook.Handlers.{
  grow_labels, grow_orders, engine_prebuild, prebuild_messages, engine_on_batch,
}
use matching_engine_benchmar.Liquibook.Safe.{IsCounting, builds, HasSlot}
use matching_engine_benchmar.Liquibook.Protocol.{handle-Handled, IsLabelled, order_of}

module _ {B : Type 0} where
  -- What the pre-build leaves: more slots, more labels than objects to come, and the rest as it was.
  record Prebuilt (ms : List MeMsg) (s s' : Adapter B) : Type 0 where
    book : s'.book ≡ s.book
    built : s'.lb_built ≡ s.lb_built + builds ms
    roomy : s'.lb_built < length s'.lb2ext
    more_slots : length s.orders ≤ length s'.orders
    slots : All (HasSlot (length s'.orders)) ms

  grow_labels-roomy :
      (s : Adapter B)
      → s.lb_built < length s.lb2ext
      → (grow_labels s).lb_built < length (grow_labels s).lb2ext
  unfolding grow_labels
  grow_labels-roomy s h = elim (Bool-cases (leb (length s.lb2ext) (s.lb_built + 1))) [
    | inl e ↦
        rw e
          (omega (arith, length-resize (max (length s.lb2ext * 2) (s.lb_built + 1 + 1)) 0 s.lb2ext))
    | inr e ↦ rw e (ground arith)
  ]

  grow_orders-slots :
      (id : ℕ) (s : Adapter B)
      → id < 2 ^ 64 - 1
      → (length s.orders ≤ length (grow_orders id s).orders)
        × (id < length (grow_orders id s).orders)
  unfolding grow_orders
  grow_orders-slots id s small = elim (Bool-cases (leb (length s.orders) id)) [
    | inl e ↦
        let size = length-resize (max (length s.orders * 2) ((id + 1) % 2 ^ 64)) none s.orders in
        let next : (id + 1) % 2 ^ 64 ≡ id + 1 = omega (arith, small) in
        rw e (omega (arith, size, next), omega (arith, size, next))
    | inr e ↦ rw e (ground arith)
  ]

  prebuild_messages-Prebuilt :
      (ms : List MeMsg) (s : Adapter B)
      → s.lb_built < length s.lb2ext
      → All IsIndexed ms
      → Prebuilt ms s (prebuild_messages ms s)
  unfolding prebuild_messages engine_prebuild builds
  prebuild_messages-Prebuilt [] s h ks = record {
    book = refl;
    built = omega arith;
    roomy = h;
    more_slots = omega arith;
    slots = tt;
  }
  prebuild_messages-Prebuilt (new_msg o ∷ ms) s h ks =
      let s1 = grow_orders o.order_id s in
      let grown = grow_orders-slots o.order_id s ks.0 in
      let v =
        prebuild_messages-Prebuilt ms (grow_labels s1)
          (grow_labels-roomy s1 (unfold grow_orders in h)) ks.1 in
      record {
        book = v.book ∙ unfold grow_orders grow_labels in refl;
        built =
            let one : (grow_labels s1).lb_built ≡ s.lb_built + 1 =
              unfold grow_orders grow_labels in refl in
            omega (arith, v.built, one);
        roomy = v.roomy;
        more_slots =
            let kept : length (grow_labels s1).orders ≡ length s1.orders =
              unfold grow_labels in refl in
            omega (arith, v.more_slots, kept, grown.0);
        slots = (
          let kept : length (grow_labels s1).orders ≡ length s1.orders =
                unfold grow_labels in refl in
              omega (arith, v.more_slots, kept, grown.1),
          v.slots,
        );
      }
  prebuild_messages-Prebuilt (cancel_msg c ∷ ms) s h ks =
      let v = prebuild_messages-Prebuilt ms s h ks.1 in
      record {
        book = v.book;
        built = v.built;
        roomy = v.roomy;
        more_slots = v.more_slots;
        slots = (tt, v.slots);
      }
  prebuild_messages-Prebuilt (modify_msg m ∷ ms) s h ks =
      let v = prebuild_messages-Prebuilt ms (grow_labels s) (grow_labels-roomy s h) ks.1 in
      record {
        book = v.book ∙ unfold grow_labels in refl;
        built =
            let one : (grow_labels s).lb_built ≡ s.lb_built + 1 = unfold grow_labels in refl in
            omega (arith, v.built, one);
        roomy = v.roomy;
        more_slots =
            let kept : length (grow_labels s).orders ≡ length s.orders =
              unfold grow_labels in refl in
            omega (arith, v.more_slots, kept);
        slots = (tt, v.slots);
      }

prebuild_messages-reports :
    {B : Type 0} (ms : List MeMsg) (s : Adapter B) → (prebuild_messages ms s).reports ≡ s.reports
unfolding prebuild_messages engine_prebuild grow_labels grow_orders
prebuild_messages-reports [] s = refl
prebuild_messages-reports (new_msg o ∷ ms) s =
    prebuild_messages-reports ms (grow_labels (grow_orders o.order_id s))
prebuild_messages-reports (cancel_msg c ∷ ms) s = prebuild_messages-reports ms s
prebuild_messages-reports (modify_msg m ∷ ms) s = prebuild_messages-reports ms (grow_labels s)

-- A run that answers message after message, each with the reports that it pushes.
pub Run : List MeMsg → List Report → List Report → Type 0
Run [] before after = after ≡ before
Run (m ∷ ms) before after =
    (rs : List Report) × IsAnswered m rs
    × All (IsLabelled (order_of m)) rs
    × Run ms (before ++ rs) after

initial_slots-positive : 0 < initial_slots
unfolding initial_slots
initial_slots-positive = omega arith

-- What the run starts with.
engine_init-sizes :
    {B : Type 0} (lib : Library B)
    → ((engine_init lib).lb_built < length (engine_init lib).lb2ext)
      × ((engine_init lib).lb_built ≡ 0)
      × ((engine_init lib).book ≡ lib.fresh)
      × ((engine_init lib).reports ≡ [])
unfolding engine_init
engine_init-sizes lib = (rw size initial_slots-positive, refl, refl, refl)
  where
    size : length (engine_init lib).lb2ext ≡ initial_slots
    size = length-replicate {0} initial_slots 0

builds-cons : (m : MeMsg) (ms : List MeMsg) → builds (m ∷ ms) ≡ builds (m ∷ []) + builds ms
unfolding builds
builds-cons (new_msg o) ms = omega arith
builds-cons (cancel_msg c) ms = omega arith
builds-cons (modify_msg m) ms = omega arith

module _ {B : Type 0} (lib : Library B) (last : B → ℕ) (counting : IsCounting lib last) where
  batch-Run :
      (ms : List MeMsg) (s : Adapter B)
      → last s.book + builds ms < length s.lb2ext
      → All (HasSlot (length s.orders)) ms
      → (s' : Adapter B) × (engine_on_batch lib ms s ≡ ok s') × Run ms s.reports s'.reports
  unfolding engine_on_batch Run
  batch-Run [] s h k = (s, refl, refl)
  batch-Run (m ∷ ms) s h k =
      let first = builds-cons m ms in
      let (s1, e, v) = handle-Handled lib last counting m s (omega (arith, first)) k.0 in
      let (s', e', run) =
        batch-Run ms s1 (omega (arith, first, v.counted, v.labels))
          (subst (λ n. All (HasSlot n) ms) (sym v.slots) k.1) in
      rw e
        (s', e', (v.answer, v.answered, v.labelled, subst (λ l. Run ms l s'.reports) v.pushed run))

  -- After the pre-build of a workload, its run never accesses a vector outside, and answers each message
  -- with exactly one acknowledgement or rejection, each report under the message's sequence number and
  -- each trade with its order as the taker; for order ids below 2 ^ 64 - 1, and a library that counts its
  -- order objects.
  pub engine_on_batch-Run :
      (ms : List MeMsg)
      → All IsIndexed ms
      → (s : Adapter B) × (engine_on_batch lib ms (prebuild_messages ms (engine_init lib)) ≡ ok s)
        × Run ms [] s.reports
  engine_on_batch-Run ms ks =
      let start = engine_init lib in
      let (roomy, built, book, reports) = engine_init-sizes lib in
      let v = prebuild_messages-Prebuilt ms start roomy ks in
      let s = prebuild_messages ms start in
      let kept : last s.book ≡ 0 = ap last (v.book ∙ book) ∙ counting.fresh_last in
      let same : s.reports ≡ [] = prebuild_messages-reports ms start ∙ reports in
      let (s', e, run) = batch-Run ms s (omega (arith, kept, v.built, v.roomy, built)) v.slots in
      (s', e, subst (λ l. Run ms l s'.reports) same run)
