-- ===== src/ExchangeCore/Equal.antt =====
-- The batch of the exchange-core adapter against its other entry points.
use matching_engine_benchmar.Common.{
  ℕ, zero, suc, ◌+◌, ◌-◌, ◌*◌, ◌^◌, ◌≤◌, ◌<◌, ◌≡◌, refl, sym, ap, subst, ◌∙◌, inl, inr, true, false,
  List, [], ◌∷◌, ◌++◌, arith, ltb, leb, Bool-cases, length, take, drop, take-append-drop,
  length-drop, All, drop-drop, take_all, drop_all, ok, ◌>>=◌,
}
use mathlib.Core.List.{append-nil, append_assoc}
use matching_engine_benchmar.Abi.{MeMsg, Report}
use matching_engine_benchmar.ExchangeCore.{IOrderBook, Adapter, out_cap}
use matching_engine_benchmar.ExchangeCore.Handlers.{deliver_each}
use matching_engine_benchmar.ExchangeCore.Batch.{
  on_batch, chunk_loop, engine_on_batch, pack, consumed_of, written_of,
}
use matching_engine_benchmar.ExchangeCore.Answer.{FewFills, IsMatched, IsMessage}
use matching_engine_benchmar.ExchangeCore.Chunks.{
  run, run-append, FewFills-append, deliver_each-Delivered, batch_loop-Looped, pack-consumed,
}

All-drop : {A : Type 0} (P : A → Type 0) (n : ℕ) (xs : List A) → All P xs → All P (drop n xs)
All-drop P zero xs h = h
All-drop P (suc n) [] h = tt
All-drop P (suc n) (x ∷ xs) h = All-drop P n xs h.1

out_cap_bounds : (2048 ≤ out_cap) × (out_cap < 2 ^ 32)
unfolding out_cap
out_cap_bounds = (omega arith, omega arith)

module _ {B : Type 0} (lib : IOrderBook B) (law : IsMatched lib) where
  -- The rest of the messages, in as many calls as it takes.
  record Chunked (fuel : ℕ) (msgs : List MeMsg) (start : ℕ) (s : Adapter B) : Type 0 where
    after : Adapter B
    done : chunk_loop lib fuel msgs start s ≡ ok after
    reports : after.reports ≡ s.reports ++ (run lib (drop start msgs) s.book).0
    book : after.book ≡ (run lib (drop start msgs) s.book).1

  ended :
      (fuel : ℕ) (msgs : List MeMsg) (start : ℕ) (s : Adapter B)
      → ltb start (length msgs) ≡ false
      → chunk_loop lib fuel msgs start s ≡ ok s
      → Chunked fuel msgs start s
  unfolding run
  ended fuel msgs start s e d =
      let none_left : drop start msgs ≡ [] = drop_all start msgs (ground (arith, e)) in
      record {
        after = s;
        done = d;
        reports = rw none_left (sym (append-nil s.reports));
        book = rw none_left refl;
      }

  -- A round that consumes messages.
  chunk_loop-next :
      (fuel : ℕ) (msgs : List MeMsg) (start next packed : ℕ) (out : List Report) (s s1 : Adapter B)
      → ltb start (length msgs) ≡ true
      → on_batch lib msgs start s ≡ ok (packed, s1)
      → consumed_of packed ≡ next
      → take (written_of packed) s1.out ≡ out
      → leb next start ≡ false
      → chunk_loop lib (suc fuel) msgs start s
        ≡ chunk_loop lib fuel msgs next (record s1 { reports = s1.reports ++ out })
  unfolding chunk_loop
  chunk_loop-next fuel msgs start next packed out s s1 e called to whole onward =
      rw (e, called, to, whole, onward) refl

  chunk_loop-Chunked :
      (fuel : ℕ) (msgs : List MeMsg) (start : ℕ) (s : Adapter B)
      → All IsMessage msgs
      → length msgs * 40 < 2 ^ 31
      → FewFills lib (drop start msgs) s.book
      → start ≤ length msgs
      → length msgs - start ≤ fuel
      → Chunked fuel msgs start s
  unfolding chunk_loop
  chunk_loop-Chunked zero msgs start s h k few l f =
      let e : ltb start (length msgs) ≡ false = ground (arith, l, f) in
      ended zero msgs start s e (rw e refl)
  chunk_loop-Chunked (suc fuel) msgs start s h k few l f =
      elim (Bool-cases (ltb start (length msgs))) [
        | inr e ↦ ended (suc fuel) msgs start s e (rw e refl)
        | inl e ↦
            let left = drop start msgs in
            let size = length-drop start msgs in
            let g =
              batch_loop-Looped lib law left start (record s { out = [] })
                (All-drop IsMessage start msgs h) (omega arith) (omega (arith, size, k, l)) few in
            let (out, b) = run lib (take g.taken left) s.book in
            let next = start + g.taken in
            let s1 : Adapter B = record s { book = b; out = out } in
            let drained : Adapter B = record s1 { reports = s.reports ++ out } in
            let moved : 0 < g.taken = g.progress (out_cap_bounds.0) (ground (arith, size, e)) in
            let (to, written) =
              pack-consumed next (length out) (omega (arith, g.most, size, k, l))
                (omega (arith, g.fits, out_cap_bounds.1)) in
            let called : on_batch lib msgs start s ≡ ok (pack next (length out), s1) =
              unfold on_batch in
              ap (λ r. r >>= (λ p. ok (pack p.0 (length p.1.out), p.1))) g.done in
            let split : run lib left s.book
                ≡ (out ++ (run lib (drop next msgs) b).0, (run lib (drop next msgs) b).1) =
              ap (λ l. run lib l s.book) (sym (take-append-drop g.taken left))
              ∙ run-append lib (take g.taken left) (drop g.taken left) s.book
              ∙ ap (λ l. (out ++ (run lib l b).0, (run lib l b).1))
                  (drop-drop g.taken start msgs) in
            let few_more : FewFills lib (drop next msgs) b =
              subst (λ l. FewFills lib l b) (drop-drop g.taken start msgs)
                (FewFills-append lib (take g.taken left) (drop g.taken left) s.book
                  (subst (λ l. FewFills lib l s.book) (sym (take-append-drop g.taken left)) few)) in
            let onward : leb next start ≡ false = ground (arith, moved) in
            let later =
              chunk_loop-Chunked fuel msgs next drained h k few_more
                (omega (arith, g.most, size, l)) (omega (arith, moved, f)) in
            record {
              after = later.after;
              done =
                  chunk_loop-next fuel msgs start next (pack next (length out)) out s s1 e called to
                    (ap (λ n. take n out) written ∙ take_all (length out) out (omega arith)) onward
                  ∙ later.done;
              reports =
                  later.reports
                  ∙ append_assoc s.reports out (run lib (drop next msgs) b).0
                  ∙ ap (λ p. s.reports ++ p.0) (sym split);
              book = later.book ∙ ap (λ p. p.1) (sym split);
            }
      ]

  -- Through the exchange-core adapter, the messages one after the other and in a batch are both delivered
  -- whole, with the same reports in the same order, and they leave the same book; for messages whose offsets
  -- are ints, with quantities below 2 ^ 31 and flags of 0 or 1, none of whose orders has more than 1,024
  -- fills on the book that it comes to, and a library that fills at most an order's quantity; with the
  -- staging buffer at its size.
  pub engine_on_batch-deliver_each :
      (msgs : List MeMsg) (s : Adapter B)
      → All IsMessage msgs
      → length msgs * 40 < 2 ^ 31
      → FewFills lib msgs s.book
      → 1024 ≤ length s.stage
      → (single : Adapter B) × (batch : Adapter B) × (deliver_each lib msgs s ≡ ok single)
        × (engine_on_batch lib msgs s ≡ ok batch)
        × (single.reports ≡ batch.reports)
        × (single.book ≡ batch.book)
  unfolding engine_on_batch
  engine_on_batch-deliver_each msgs s h k few l =
      let d = deliver_each-Delivered lib law msgs s h l few in
      let c = chunk_loop-Chunked (length msgs) msgs 0 s h k few (omega arith) (omega arith) in
      (d.after, c.after, d.done, c.done, d.reports ∙ sym c.reports, d.book ∙ sym c.book)
