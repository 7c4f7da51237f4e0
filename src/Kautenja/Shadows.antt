-- ===== src/Kautenja/Shadows.antt =====
-- What the hooks do to the shadows, and what the library promises of its book.
use matching_engine_benchmar.Common.{
  ℕ, zero, suc, ◌+◌, ◌-◌, ◌%◌, ◌^◌, ◌≤◌, ◌<◌, All, ℤ, pos, negsuc, ltb→lt, ◌≡◌, refl, ap, subst,
  ◌∙◌, inl, inr, Bool, true, false, none, some, List, [], ◌∷◌, arith, ltb, ◌==◌, if◌then◌else◌,
  Bool-cases, get_elem?, get_or, get_or-update_at,
}
use matching_engine_benchmar.Bytes.{to_u64}
use matching_engine_benchmar.Answers.{Fills, Fills-none, Fills-trans}
use matching_engine_benchmar.Kautenja.{
  Library, Adapter, Shadow, TradeHook, blank_shadow, emit, shadow_of, update_slot, fill_maker,
  trade_hook, trade_hooks, to_engine_price,
}
use matching_engine_benchmar.Kautenja.Handlers.{is_alive}

-- What the fills take from an order, and in all.
unfoldable pub taken : List TradeHook → ℕ → ℕ
taken [] v = 0
taken (x ∷ xs) v = taken xs v + (if x.maker_uid == v then x.fill_qty else 0)

unfoldable pub total : List TradeHook → ℕ
total [] = 0
total (x ∷ xs) = total xs + x.fill_qty

-- What the adapter relies on, `rests` being the quantity of an order that rests in the book: the library has
-- an order that rests; an order that is removed rests no more; an order that does not rest yet, at a price
-- other than 0, which is that of a market order, takes at most its quantity from orders that rest and have
-- it, and rests with what is left; and the rest of the book is as it was.
pub record IsBook {B : Type 0} (lib : Library B) (rests : B → ℕ → ℕ) : Type 0 where
  pub empty_rests : (v : ℕ) → rests lib.empty v ≡ 0
  pub has_rests : (v : ℕ) (b : B) → 0 < rests b v → lib.has v b ≡ true
  pub remove_rests :
      (uid v : ℕ) (b : B) → rests (lib.remove uid b) v ≡ (if uid == v then 0 else rests b v)
  pub limit_makers :
      (sell : Bool) (uid qty price : ℕ) (b : B)
      → 0 < price
      → rests b uid ≡ 0
      → All (λ x. 0 < rests b x.maker_uid) (lib.limit sell uid qty price b).0
  pub limit_total :
      (sell : Bool) (uid qty price : ℕ) (b : B)
      → 0 < price
      → rests b uid ≡ 0
      → total (lib.limit sell uid qty price b).0 ≤ qty
  pub limit_taken :
      (sell : Bool) (uid qty price : ℕ) (b : B)
      → 0 < price
      → rests b uid ≡ 0
      → (v : ℕ) → taken (lib.limit sell uid qty price b).0 v ≤ rests b v
  pub limit_rests :
      (sell : Bool) (uid qty price : ℕ) (b : B)
      → 0 < price
      → rests b uid ≡ 0
      → (v : ℕ)
      → rests (lib.limit sell uid qty price b).1 v ≡ (
          if uid == v
          then qty - total (lib.limit sell uid qty price b).0
          else rests b v - taken (lib.limit sell uid qty price b).0 v)

-- A fill of an order whose slot is in reach of 64 bits.
abbrev pub IsMade : TradeHook → Type 0
IsMade x = x.maker_uid < 2 ^ 64 - 1

pub resting-IsMade :
    (r : ℕ → ℕ)
    → ((v : ℕ) → 2 ^ 64 - 1 ≤ v → r v ≡ 0)
    → (xs : List TradeHook) → All (λ x. 0 < r x.maker_uid) xs
    → All IsMade xs
resting-IsMade r out [] h = tt
resting-IsMade r out (x ∷ xs) h = (
  elim (Bool-cases (ltb x.maker_uid (2 ^ 64 - 1))) [
    | inl e ↦ ltb→lt _ _ e
    | inr e ↦ absurd (omega (arith, h.0, out x.maker_uid (ground (arith, e))))
  ],
  resting-IsMade r out xs h.1,
)

-- A price whose sum with the offset stays in 64 bits, and is a price of the library.
abbrev pub IsPriced : ℤ → Type 0
IsPriced (pos n) = n < 2 ^ 63 - 2 ^ 30
IsPriced (negsuc n) = n + 1 < 2 ^ 30

pub to_engine_price-lt : (t : ℤ) → IsPriced t → 0 < to_engine_price t
unfolding to_engine_price to_u64
to_engine_price-lt (pos n) h = ground (arith, h)
to_engine_price-lt (negsuc n) h = ground (arith, h)

-- The quantity that a shadow stands for.
abbrev pub live : Shadow → ℕ
live e = if e.alive then e.remaining else 0

-- A shadow of a live order has a quantity.
abbrev pub IsLive : Shadow → Type 0
IsLive e = e.alive ≡ ltb 0 (live e)

fill_maker-IsLive :
    (q : ℕ) (e : Shadow)
    → q ≤ live e
    → IsLive e
    → (live (fill_maker q e) ≡ live e - q) × IsLive (fill_maker q e)
fill_maker-IsLive q e h k = elim (Bool-cases e.alive) [
  | inl a ↦ ground (arith, a, h, k)
  | inr a ↦ ground (arith, a, h, k)
]

module _ {B : Type 0} where
  pub shadow_of-update_slot :
      (oid v : ℕ) (f : Shadow → Shadow) (s : Adapter B)
      → oid < 2 ^ 64 - 1
      → shadow_of v (update_slot oid f s) ≡ (if oid == v then f (shadow_of v s) else shadow_of v s)
  unfolding shadow_of update_slot
  shadow_of-update_slot oid v f s i = get_or-update_at oid v blank_shadow f s.shadow i

  pub is_alive-shadow_of : (oid : ℕ) (s : Adapter B) → is_alive oid s ≡ (shadow_of oid s).alive
  unfolding is_alive shadow_of
  is_alive-shadow_of oid s = inside s.shadow oid
    where
      inside :
          (es : List Shadow) (i : ℕ)
          → elim (get_elem? es i) [ none ↦ false | some e ↦ e.alive ]
            ≡ (get_or es i blank_shadow).alive
      inside [] i = refl
      inside (e ∷ es) zero = refl
      inside (e ∷ es) (suc i) = inside es i

  -- The fills of a taker: the shadows of the makers, the sum, and the reports.
  pub record Hooked (t : ℕ) (xs : List TradeHook) (s s' : Adapter B) : Type 0 where
    pub lives :
        (v : ℕ)
        → (live (shadow_of v s') ≡ live (shadow_of v s) - taken xs v) × IsLive (shadow_of v s')
    pub filled : s'.taker_fill ≡ (t + total xs) % 2 ^ 64
    pub sides : (v : ℕ) → (shadow_of v s').side ≡ (shadow_of v s).side
    pub seq : s'.cur_seq ≡ s.cur_seq
    pub fills : Fills (λ (t : Adapter B). t.reports) s.cur_seq s s'

  trade_hook-shadow_of :
      (x : TradeHook) (v : ℕ) (s : Adapter B)
      → IsMade x
      → shadow_of v (trade_hook x s)
        ≡ (if x.maker_uid == v then fill_maker x.fill_qty (shadow_of v s) else shadow_of v s)
  unfolding trade_hook shadow_of emit update_slot
  trade_hook-shadow_of x v s i =
      get_or-update_at x.maker_uid v blank_shadow (fill_maker x.fill_qty) s.shadow i

  trade_hook-lives :
      (x : TradeHook) (v : ℕ) (s : Adapter B)
      → IsMade x
      → (if x.maker_uid == v then x.fill_qty else 0) ≤ live (shadow_of v s)
      → IsLive (shadow_of v s)
      → (live (shadow_of v (trade_hook x s))
          ≡ live (shadow_of v s) - (if x.maker_uid == v then x.fill_qty else 0))
        × IsLive (shadow_of v (trade_hook x s))
  trade_hook-lives x v s i h k = elim (Bool-cases (x.maker_uid == v)) [
    | inl e ↦
        rw (trade_hook-shadow_of x v s i, e)
          (fill_maker-IsLive x.fill_qty (shadow_of v s) (rw e at h) k)
    | inr e ↦ rw (trade_hook-shadow_of x v s i, e) (omega arith, k)
  ]

  trade_hook-Fills :
      (x : TradeHook) (s : Adapter B)
      → Fills (λ (t : Adapter B). t.reports) s.cur_seq s (trade_hook x s)
  unfolding trade_hook emit update_slot
  trade_hook-Fills x s = record { fills = _; pushed = refl; are_fills = ((refl, refl), tt) }

  trade_hook-seq :
      (x : TradeHook) (s : Adapter B)
      → ((trade_hook x s).cur_seq ≡ s.cur_seq)
        × ((trade_hook x s).taker_fill ≡ (s.taker_fill + x.fill_qty) % 2 ^ 64)
  unfolding trade_hook emit update_slot
  trade_hook-seq x s = (refl, refl)

  trade_hook-side :
      (x : TradeHook) (v : ℕ) (s : Adapter B)
      → IsMade x
      → (shadow_of v (trade_hook x s)).side ≡ (shadow_of v s).side
  trade_hook-side x v s i = elim (Bool-cases (x.maker_uid == v)) [
    | inl e ↦ rw (trade_hook-shadow_of x v s i, e) refl
    | inr e ↦ rw (trade_hook-shadow_of x v s i, e) refl
  ]

  pub trade_hooks-Hooked :
      (t : ℕ) (xs : List TradeHook) (s : Adapter B)
      → s.taker_fill ≡ t % 2 ^ 64
      → ((v : ℕ) → taken xs v ≤ live (shadow_of v s))
      → ((v : ℕ) → IsLive (shadow_of v s))
      → All IsMade xs
      → Hooked t xs s (trade_hooks xs s)
  unfolding trade_hooks taken total
  trade_hooks-Hooked t [] s f h k i = record {
    lives = λ v. (omega arith, k v);
    filled = f ∙ omega arith;
    sides = λ v. refl;
    seq = refl;
    fills = Fills-none (λ (t : Adapter B). t.reports) s.cur_seq s;
  }
  trade_hooks-Hooked t (x ∷ xs) s f h k i =
      let s1 = trade_hook x s in
      let (seq, fill) = trade_hook-seq x s in
      let one = λ (v : ℕ). trade_hook-lives x v s i.0 (omega (arith, h v)) (k v) in
      let filled : s1.taker_fill ≡ (t + x.fill_qty) % 2 ^ 64 = fill ∙ omega (arith, f) in
      let g =
        trade_hooks-Hooked (t + x.fill_qty) xs s1 filled (λ v. omega (arith, (one v).0, h v))
          (λ v. (one v).1) i.1 in
      record {
        lives = λ v. (omega (arith, (g.lives v).0, (one v).0), (g.lives v).1);
        filled = g.filled ∙ ap (λ n. n % 2 ^ 64) (omega arith);
        sides = λ v. g.sides v ∙ trade_hook-side x v s i.0;
        seq = g.seq ∙ seq;
        fills =
            let later =
              subst (λ n. Fills (λ (t : Adapter B). t.reports) n s1 (trade_hooks xs s1)) seq
                g.fills in
            Fills-trans (λ (t : Adapter B). t.reports) s.cur_seq s s1 _ (trade_hook-Fills x s)
              later;
      }
