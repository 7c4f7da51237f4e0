-- ===== src/Generator/Lives.antt =====
-- The life of an order in the workload: its new message comes first and once, and what may follow.
use mathlib.Core.List.{append-nil}
use matching_engine_benchmar.Common.{
  ℕ, ◌+◌, ◌-◌, ◌^◌, ◌<◌, ◌≡◌, refl, ap, subst, ◌∙◌, ◌≢◌, ◌⊎◌, inl, inr, Bool, true, false, ◌&&◌,
  Option, none, some, List, [], ◌∷◌, ◌++◌, arith, ◌==◌, if◌then◌else◌, Bool-cases, Option-cases,
  keep, All, All-append, ℤ,
}
use matching_engine_benchmar.Workload.{Msg, msg_new, msg_cancel, msg_modify}
use matching_engine_benchmar.Generator.{
  Draws, PlacedOrder, Stage, message, modify_stage, dup_cancel_stage, cancel_stage,
  stale_modify_stage, expand, placed_at, expand_loop, timeline, generate, place_loop, shuffle_loop,
  iota,
}
use matching_engine_benchmar.Generator.Shuffle.{IsScaled, count, count-shuffled}
use matching_engine_benchmar.Generator.Timeline.{generate-in_order}

-- Where an order stands: not yet sent, resting, resting and modified, cancelled (with the modify and with
-- the duplicate cancel that it had), and with nothing more to come.
pub data Phase : Type 0 where
  unsent resting amended gone amended_gone amended_gone_twice over : Phase

-- The steps that an order may take. A message of another kind is refused.
unfoldable pub next : Phase → Msg → Option Phase
next unsent m =
    if m.type == msg_new
    then (if m.ioc == 1 then some over else if m.ioc == 0 then some resting else none)
    else none
next resting m =
    if m.type == msg_modify then some amended else if m.type == msg_cancel then some gone else none
next amended m = if m.type == msg_cancel then some amended_gone else none
next gone m = if m.type == msg_cancel then some over else none
next amended_gone m =
    if m.type == msg_cancel
    then some amended_gone_twice
    else if m.type == msg_modify
    then some over
    else none
next amended_gone_twice m = if m.type == msg_modify then some over else none
next over m = none

unfoldable pub follow : Phase → List Msg → Option Phase
follow p [] = some p
follow p (m ∷ ms) = elim (next p m) [ none ↦ none | some q ↦ follow q ms ]

follow-append :
    (p q : Phase) (xs ys : List Msg) → follow p xs ≡ some q → follow p (xs ++ ys) ≡ follow q ys
unfolding follow
follow-append p q [] ys e = ground (arith, e)
follow-append p q (x ∷ xs) ys e = elim (Option-cases (next p x)) [
  | inl n ↦ absurd (ground (arith, n, e))
  | inr (s, n) ↦ rw (follow, n) (follow-append s q xs ys (ground (arith, n, e)))
]

-- The messages of one order.
abbrev pub of_order : ℕ → List Msg → List Msg
of_order oid ms = keep (λ m. m.order_id == oid) ms

-- All messages of a stage belong to the order.
abbrev Belong : ℕ → List Msg → Type 0
Belong oid = All (λ m. m.order_id ≡ oid)

-- The messages of an order among its own, and among those of another.
of_order-own : (oid : ℕ) (ms : List Msg) → Belong oid ms → of_order oid ms ≡ ms
of_order-own oid [] h = refl
of_order-own oid (m ∷ ms) h = ground (arith, h.0, of_order-own oid ms h.1)

of_order-others :
    (oid other : ℕ) (ms : List Msg) → Belong other ms → other ≢ oid → of_order oid ms ≡ []
of_order-others oid other [] h n = refl
of_order-others oid other (m ∷ ms) h n = ground (arith, h.0, of_order-others oid other ms h.1 n)

of_order-append :
    (oid : ℕ) (xs ys : List Msg) → of_order oid (xs ++ ys) ≡ of_order oid xs ++ of_order oid ys
of_order-append oid [] ys = refl
of_order-append oid (x ∷ xs) ys = ground (arith, of_order-append oid xs ys)

-- A new order that is not immediate-or-cancel comes to rest.
follow-new :
    (n : PlacedOrder) (qty oid now : ℕ) (ms : List Msg)
    → follow unsent (message now msg_new n 0 qty oid n.price_ticks ∷ ms) ≡ follow resting ms
unfolding follow next
follow-new n qty oid now ms = refl

over_sent : over ≢ unsent
over_sent e = cc

module _ {R M : Type 0} (d : Draws R M) where
  -- The phase after the modify.
  abbrev after_modify : Stage R → Phase
  after_modify s = if s.happened then amended else resting

  modify_stage-follows :
      (n : PlacedOrder) (oid now : ℕ) (r : R)
      → let s = (modify_stage d n oid now r).0 in
        (follow resting s.msgs ≡ some (after_modify s)) × Belong oid s.msgs
  unfolding modify_stage follow next
  modify_stage-follows n oid now r = elim (Bool-cases (d.below 20 r).0) [
    | inl e ↦ rw e (refl, (refl, tt))
    | inr e ↦ rw e (refl, tt)
  ]

  -- The phase after the cancel and its duplicate: `m` and `c` say which happened before.
  dup_cancel_stage-follows :
      (n : PlacedOrder) (oid now : ℕ) (r : R)
      → let s = dup_cancel_stage d n oid now r in
        (follow gone s.msgs ≡ some (if s.happened then over else gone))
        × (follow amended_gone s.msgs
            ≡ some (if s.happened then amended_gone_twice else amended_gone))
        × Belong oid s.msgs
  unfolding dup_cancel_stage follow next
  dup_cancel_stage-follows n oid now r = elim (Bool-cases (d.below 2 r).0) [
    | inl e ↦ rw e (refl, refl, (refl, tt))
    | inr e ↦ rw e (refl, refl, tt)
  ]

  -- The stale modify finishes the life of an order that was modified and cancelled.
  stale_modify_stage-follows :
      (n : PlacedOrder) (oid : ℕ) (mprice : ℤ) (eligible : Bool) (now : ℕ) (r : R) (p : Phase)
      → (eligible ≡ true → (p ≡ amended_gone) ⊎ (p ≡ amended_gone_twice))
      → p ≢ unsent
      → let s = stale_modify_stage d n oid mprice eligible now r in
        ((q : Phase) × (follow p s.msgs ≡ some q) × (q ≢ unsent)) × Belong oid s.msgs
  unfolding stale_modify_stage follow next
  stale_modify_stage-follows n oid mprice false now r p h u = ((p, refl, u), tt)
  stale_modify_stage-follows n oid mprice true now r p h u = elim (Bool-cases (d.below 2 r).0) [
    | inl e ↦ elim (h refl) [
      | inl x ↦ rw (e, x) ((over, refl, λ y. cc), (refl, tt))
      | inr x ↦ rw (e, x) ((over, refl, λ y. cc), (refl, tt))
    ]
    | inr e ↦ rw e ((p, refl, u), tt)
  ]

  -- The cancel of an order that rests, modified or not.
  cancel_stage-follows :
      (n : PlacedOrder) (oid now : ℕ) (r : R) (modified : Bool)
      → let s = cancel_stage d n oid now r in
        ((q : Phase) × (follow (if modified then amended else resting) s.msgs ≡ some q)
          × (q ≢ unsent)
          × ((modified && s.happened) ≡ true → (q ≡ amended_gone) ⊎ (q ≡ amended_gone_twice)))
        × Belong oid s.msgs
  unfolding cancel_stage follow next
  cancel_stage-follows n oid now r modified =
      let (ttl, r2) = d.lifetime n.lvl (d.below 95 r).1 in
      let s = dup_cancel_stage d n oid (now + ttl) r2 in
      let (plain, amend, belong) = dup_cancel_stage-follows n oid (now + ttl) r2 in
      elim (Bool-cases (d.below 95 r).0) [
        | inl e ↦ elim (Bool-cases modified) [
          | inl m ↦ elim (Bool-cases s.happened) [
            | inl a ↦
                rw (e, m)
                  ((amended_gone_twice, amend ∙ rw a refl, λ y. cc, λ y. inr refl), (refl, belong))
            | inr a ↦
                rw (e, m)
                  ((amended_gone, amend ∙ rw a refl, λ y. cc, λ y. inl refl), (refl, belong))
          ]
          | inr m ↦ elim (Bool-cases s.happened) [
            | inl a ↦ rw (e, m) ((over, plain ∙ rw a refl, λ y. cc, λ y. cc), (refl, belong))
            | inr a ↦ rw (e, m) ((gone, plain ∙ rw a refl, λ y. cc, λ y. cc), (refl, belong))
          ]
        ]
        | inr e ↦ elim (Bool-cases modified) [
          | inl m ↦ rw (e, m) ((amended, refl, λ y. cc, λ y. cc), tt)
          | inr m ↦ rw (e, m) ((resting, refl, λ y. cc, λ y. cc), tt)
        ]
      ]

  expand-follows :
      (n : PlacedOrder) (oid now : ℕ) (r : R)
      → let s = expand d n oid now r in
        ((q : Phase) × (follow unsent s.msgs ≡ some q) × (q ≢ unsent)) × Belong oid s.msgs
  unfolding expand
  expand-follows n oid now r =
      let (is_ioc, r1) = d.below 15 r in
      let (amend, mprice) = modify_stage d n oid now r1 in
      let cancel = cancel_stage d n oid amend.now amend.rng in
      let eligible = amend.happened && cancel.happened in
      let stale = stale_modify_stage d n oid mprice eligible cancel.now cancel.rng in
      let (amends, amend_belong) = modify_stage-follows n oid now r1 in
      let ((p, cancels, sent, ready), cancel_belong) =
        cancel_stage-follows n oid amend.now amend.rng amend.happened in
      let ((q, stales, ended), stale_belong) =
        stale_modify_stage-follows n oid mprice eligible cancel.now cancel.rng p ready sent in
      let tail : follow resting (amend.msgs ++ (cancel.msgs ++ stale.msgs)) ≡ some q =
        follow-append resting (after_modify amend) amend.msgs _ amends
        ∙ follow-append (after_modify amend) p cancel.msgs stale.msgs cancels
        ∙ stales in
      let belong =
        All-append _ amend.msgs _ amend_belong
          (All-append _ cancel.msgs _ cancel_belong stale_belong) in
      elim (Bool-cases is_ioc) [
        | inl e ↦ rw e ((over, unfold follow next in refl, over_sent), (refl, tt))
        | inr e ↦ rw e ((q, follow-new n n.qty oid now _ ∙ tail, ended), (refl, belong))
      ]

  expand_loop-others :
      (news : List PlacedOrder) (order : List ℕ) (now : ℕ) (r : R) (v : ℕ)
      → count v order ≡ 0
      → of_order (v + 1) (expand_loop d news order now r) ≡ []
  unfolding expand_loop
  expand_loop-others news [] now r v h = refl
  expand_loop-others news (i ∷ order) now r v h =
      let life = expand d (placed_at d news i) (i + 1) now r in
      let belong = (expand-follows (placed_at d news i) (i + 1) now r).1 in
      let rest = expand_loop-others news order life.now life.rng v (ground arith) in
      of_order-append (v + 1) life.msgs _
      ∙ ap (λ l. l ++ of_order (v + 1) (expand_loop d news order life.now life.rng))
          (of_order-others (v + 1) (i + 1) life.msgs belong (λ (e : i + 1 ≡ v + 1). ground arith))
      ∙ rest

  -- The messages of an index that stands once in the order follow the steps of a life.
  expand_loop-follows :
      (news : List PlacedOrder) (order : List ℕ) (now : ℕ) (r : R) (v : ℕ)
      → count v order ≡ 1
      → (q : Phase) × (follow unsent (of_order (v + 1) (expand_loop d news order now r)) ≡ some q)
        × (q ≢ unsent)
  unfolding expand_loop
  expand_loop-follows news [] now r v h = absurd (omega arith)
  expand_loop-follows news (i ∷ order) now r v h =
      let life = expand d (placed_at d news i) (i + 1) now r in
      let ((q, follows, sent), belong) = expand-follows (placed_at d news i) (i + 1) now r in
      let split = of_order-append (v + 1) life.msgs (expand_loop d news order life.now life.rng) in
      elim (Bool-cases (i == v)) [
        | inl e ↦
            let same : i + 1 ≡ v + 1 = ground arith in
            let own =
              of_order-own (v + 1) life.msgs (subst (λ k. Belong k life.msgs) same belong) in
            let none_left = expand_loop-others news order life.now life.rng v (ground arith) in
            (
              q,
              ap (follow unsent) (
                    split
                    ∙ ap (λ l. l ++ of_order (v + 1) (expand_loop d news order life.now life.rng))
                        own
                    ∙ ap (λ l. life.msgs ++ l) none_left
                    ∙ append-nil life.msgs)
                  ∙ follows,
              sent,
            )
        | inr e ↦
            let (p, later, sent') =
              expand_loop-follows news order life.now life.rng v (ground arith) in
            let none_here =
              of_order-others (v + 1) (i + 1) life.msgs belong
                (λ (x : i + 1 ≡ v + 1). ground arith) in
            (
              p,
              ap (follow unsent) (
                    split
                    ∙ ap (λ l. l ++ of_order (v + 1) (expand_loop d news order life.now life.rng))
                        none_here)
                  ∙ later,
              sent',
            )
      ]

-- In a generated workload of fewer than 2 ^ 32 new orders, the messages of each order follow the steps
-- of a life: its new message comes first and once, nothing after it if it is immediate-or-cancel, then at
-- most one modify before the cancel, one duplicate cancel, and a stale modify only if it was modified and
-- cancelled; for scaled draws below their bound.
pub generate-follows :
    {R M : Type 0} (d : Draws R M)
    → IsScaled d
    → (count v : ℕ) (r : R) → v < count
    → count < 2 ^ 32
    → (q : Phase) × (follow unsent (of_order (v + 1) (generate d count r)) ≡ some q) × (q ≢ unsent)
unfolding timeline
generate-follows d scaled n v r h k =
    let (news, r1) = place_loop d n n 0 d.start_mid r in
    let (order, r2) = shuffle_loop d (n - 1) (iota n 0) r1 in
    let once : count v order ≡ 1 = count-shuffled d scaled v n r1 (omega arith) k ∙ ground arith in
    let (q, follows, sent) = expand_loop-follows d news order 0 r2 v once in
    let same = (generate-in_order d n r).0 in
    (q, ap (λ l. follow unsent (of_order (v + 1) l)) same ∙ follows, sent)
