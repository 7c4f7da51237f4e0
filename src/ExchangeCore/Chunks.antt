-- ===== src/ExchangeCore/Chunks.antt =====
-- A run of messages through the exchange-core adapter: in a batch, or one after the other.
use matching_engine_benchmar.Common.{
  ℕ, suc, ◌+◌, ◌-◌, ◌*◌, ◌^◌, ◌≤◌, ◌<◌, ◌≡◌, refl, sym, ap, subst, ◌∙◌, inl, inr, List, [], ◌∷◌,
  ◌++◌, arith, true, ◌%◌, ltb, lt→ltb, Bool-cases, length, length-append, take, All, ok, ◌>>=◌,
}
use mathlib.Core.List.{append-nil, append_assoc}
use matching_engine_benchmar.Abi.{MeMsg, Report}
use matching_engine_benchmar.ExchangeCore.{IOrderBook, Adapter, out_cap, reserve}
use matching_engine_benchmar.ExchangeCore.Handlers.{deliver_each}
use matching_engine_benchmar.ExchangeCore.Batch.{batch_loop, pack, consumed_of, written_of}
use matching_engine_benchmar.ExchangeCore.Answer.{answer, FewFills, IsMatched, IsMessage}
use matching_engine_benchmar.ExchangeCore.Single.{handle-Handled}
use matching_engine_benchmar.ExchangeCore.Batched.{batch_handle-Batched}

module _ {B : Type 0} (lib : IOrderBook B) where
  -- The reference: the answers to a run of messages, and the book after it.
  unfoldable pub run : List MeMsg → B → List Report × B
  run [] b = ([], b)
  run (m ∷ ms) b = let (rs, b1) = answer lib m b in let (more, b2) = run ms b1 in (rs ++ more, b2)

  pub run-append :
      (xs ys : List MeMsg) (b : B)
      → run (xs ++ ys) b ≡ ((run xs b).0 ++ (run ys (run xs b).1).0, (run ys (run xs b).1).1)
  unfolding run
  run-append [] ys b = refl
  run-append (x ∷ xs) ys b =
      let (rs, b1) = answer lib x b in
      let later = run-append xs ys b1 in
      ap (λ p. (rs ++ p.0, p.1)) later ∙ (λ i.
        (sym (append_assoc rs (run xs b1).0 (run ys (run xs b1).1).0) i, (run ys (run xs b1).1).1))

  -- The rest of a run after some of its messages.
  pub FewFills-append :
      (xs ys : List MeMsg) (b : B) → FewFills lib (xs ++ ys) b → FewFills lib ys (run xs b).1
  unfolding run FewFills
  FewFills-append [] ys b h = h
  FewFills-append (x ∷ xs) ys b h = FewFills-append xs ys (answer lib x b).1 h.1

module _ {B : Type 0} (lib : IOrderBook B) (law : IsMatched lib) where
  -- One message after the other.
  pub record Delivered (ms : List MeMsg) (s : Adapter B) : Type 0 where
    pub after : Adapter B
    pub done : deliver_each lib ms s ≡ ok after
    pub reports : after.reports ≡ s.reports ++ (run lib ms s.book).0
    pub book : after.book ≡ (run lib ms s.book).1

  pub deliver_each-Delivered :
      (ms : List MeMsg) (s : Adapter B)
      → All IsMessage ms
      → 1024 ≤ length s.stage
      → FewFills lib ms s.book
      → Delivered ms s
  unfolding deliver_each run FewFills
  deliver_each-Delivered [] s h k few = record {
    after = s;
    done = refl;
    reports = sym (append-nil s.reports);
    book = refl;
  }
  deliver_each-Delivered (m ∷ ms) s h k few =
      let one = handle-Handled lib law m s h.0 k few.0 in
      let g =
        deliver_each-Delivered ms one.after h.1 (omega (arith, k, one.room))
          (subst (FewFills lib ms) (sym one.book) few.1) in
      record {
        after = g.after;
        done = ap (λ r. r >>= (λ s1. deliver_each lib ms s1)) one.done ∙ g.done;
        reports =
            g.reports
            ∙ (λ i. one.reports i ++ (run lib ms (one.book i)).0)
            ∙ append_assoc s.reports (answer lib m s.book).0 (run lib ms (answer lib m s.book).1).0;
        book = g.book ∙ ap (λ b. (run lib ms b).1) one.book;
      }

  -- A call of the batch: the first `taken` messages of the list.
  pub record Looped (ms : List MeMsg) (i : ℕ) (s : Adapter B) : Type 0 where
    pub taken : ℕ
    pub most : taken ≤ length ms
    pub progress : length s.out + 2048 ≤ out_cap → 0 < length ms → 0 < taken
    pub done :
        batch_loop lib ms i s
        ≡ ok (
          i + taken,
          record s {
            book = (run lib (take taken ms) s.book).1;
            out = s.out ++ (run lib (take taken ms) s.book).0;
          },
        )
    pub fits : length (s.out ++ (run lib (take taken ms) s.book).0) ≤ out_cap

  -- A call that ends at once.
  stopped :
      (ms : List MeMsg) (i : ℕ) (s : Adapter B)
      → batch_loop lib ms i s ≡ ok (i, s)
      → length s.out ≤ out_cap
      → (length s.out + 2048 ≤ out_cap → 0 < length ms → 0 < 0)
      → Looped ms i s
  unfolding run
  stopped ms i s e k p =
      let same : i ≡ i + 0 = omega arith in
      record {
        taken = 0;
        most = omega arith;
        progress = p;
        done = e ∙ (λ j. ok (same j, record s { out = sym (append-nil s.out) j }));
        fits = subst (λ l. length l ≤ out_cap) (sym (append-nil s.out)) k;
      }

  pub batch_loop-Looped :
      (ms : List MeMsg) (i : ℕ) (s : Adapter B)
      → All IsMessage ms
      → length s.out ≤ out_cap
      → (i + length ms) * 40 < 2 ^ 31
      → FewFills lib ms s.book
      → Looped ms i s
  unfolding batch_loop run FewFills
  batch_loop-Looped [] i s h k n fills =
      stopped [] i s refl k (λ room more. absurd (omega (arith, more)))
  batch_loop-Looped (m ∷ ms) i s h k n fills =
      elim (Bool-cases (ltb (out_cap - length s.out) reserve)) [
        | inl full ↦
            stopped (m ∷ ms) i s (rw full refl) k (λ room more. absurd (ground (arith, room, full)))
        | inr room ↦
            let b = batch_handle-Batched lib law m s h.0 (ground (arith, room, k)) fills.0 in
            let small : ltb (i * 40 % 2 ^ 32) (2 ^ 31) ≡ true = lt→ltb _ _ (omega (arith, n)) in
            let (rs, b1) = answer lib m s.book in
            let s1 : Adapter B = record s { book = b1; out = s.out ++ rs } in
            let few = b.few in
            let g =
              batch_loop-Looped ms (i + 1) s1 h.1
                (ground (arith, length-append s.out rs, few, room, k)) (omega (arith, n)) fills.1 in
            let (more, b2) = run lib (take g.taken ms) b1 in
            let next : i + 1 + g.taken ≡ i + suc g.taken = omega arith in
            let one = b.done in
            record {
              taken = suc g.taken;
              most = omega (arith, g.most);
              progress = λ x y. omega arith;
              done =
                  rw (room, small, one)
                    (g.done ∙ (λ j.
                      ok (next j, record s { book = b2; out = append_assoc s.out rs more j })));
              fits = subst (λ l. length l ≤ out_cap) (append_assoc s.out rs more) g.fits;
            }
      ]

-- What the two halves of the call's result say.
pub pack-consumed :
    (i w : ℕ) → i < 2 ^ 31 → w < 2 ^ 32 → (consumed_of (pack i w) ≡ i) × (written_of (pack i w) ≡ w)
pack-consumed i w h k =
    let whole : pack i w ≡ i * 2 ^ 32 + w = omega (arith, h, k) in
    rw whole (omega (arith, h, k), omega (arith, h, k))
