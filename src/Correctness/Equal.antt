-- ===== src/Correctness/Equal.antt =====
-- When two report streams have the same canonical text.
use matching_engine_benchmar.Common.{
  ℕ, ◌^◌, ◌<◌, ◌≡◌, refl, sym, ap, ◌∙◌, ◌↔◌, inl, inr, Bool, false, not, ◌&&◌, some, List, [], ◌∷◌,
  map, arith, ltb, ◌==◌, if◌then◌else◌, Option-cases, keep, All, IsInt64,
}
use matching_engine_benchmar.Sort.{StrictWeak, stable_sort, stable_sort-All, IsSorted, same}
use matching_engine_benchmar.Sort.Unique.{sorted_unique}
use matching_engine_benchmar.Sort.Stable.{stable_sort-IsSorted}
use matching_engine_benchmar.Text.Separated.{join}
use matching_engine_benchmar.Correctness.{CollectedReport, report_lt, build_canonical_text}
use matching_engine_benchmar.Correctness.Order.{
  report_order, of_key, build_canonical_text-IsOrdered, keep_congr,
}
use matching_engine_benchmar.Correctness.Line.{
  Shown, order_ack, trade, cancel_ack, modify_ack, cancel_reject, modify_reject, shown, text_of,
  all_shown, render-all_shown,
}
use matching_engine_benchmar.Correctness.Parse.{
  InRange, parse_text, parse_text-build_canonical_text,
}

-- The values that the C types of a report hold.
pub record ReportFits (r : CollectedReport) : Type 0 where
  pub seq : r.seq < 2 ^ 64
  pub side : r.side < 256
  pub order_id : r.order_id < 2 ^ 64
  pub price_ticks : IsInt64 r.price_ticks
  pub quantity : r.quantity < 2 ^ 32
  pub maker_order_id : r.maker_order_id < 2 ^ 64
  pub taker_order_id : r.taker_order_id < 2 ^ 64

shown-InRange : (r : CollectedReport) (s : Shown) → ReportFits r → shown r ≡ some s → InRange s
unfolding shown
shown-InRange r (order_ack seq side id price qty) v h = ground arith
shown-InRange r (trade seq price qty maker taker) v h = ground arith
shown-InRange r (cancel_ack seq side id price) v h = ground arith
shown-InRange r (modify_ack seq side id price qty) v h = ground arith
shown-InRange r (cancel_reject seq id) v h = ground arith
shown-InRange r (modify_reject seq id) v h = ground arith

all_shown-InRange : (rs : List CollectedReport) → All ReportFits rs → All InRange (all_shown rs)
all_shown-InRange [] v = tt
all_shown-InRange (r ∷ rs) v = elim (Option-cases (shown r)) [
  | inl e ↦ rw (e, all_shown) (all_shown-InRange rs v.1)
  | inr (s, e) ↦ rw (e, all_shown) (shown-InRange r s v.0 e, all_shown-InRange rs v.1)
]

-- The key by which a line is sorted.
pub shown_seq : Shown → ℕ
shown_seq (order_ack seq side id price qty) = seq
shown_seq (trade seq price qty maker taker) = seq
shown_seq (cancel_ack seq side id price) = seq
shown_seq (modify_ack seq side id price qty) = seq
shown_seq (cancel_reject seq id) = seq
shown_seq (modify_reject seq id) = seq

pub shown_type : Shown → ℕ
shown_type (order_ack seq side id price qty) = 0
shown_type (trade seq price qty maker taker) = 1
shown_type (cancel_ack seq side id price) = 2
shown_type (modify_ack seq side id price qty) = 3
shown_type (cancel_reject seq id) = 4
shown_type (modify_reject seq id) = 5

shown_key :
    (r : CollectedReport) (s : Shown)
    → shown r ≡ some s
    → (shown_seq s ≡ r.seq) × (shown_type s ≡ r.type)
unfolding shown shown_seq shown_type
shown_key r (order_ack seq side id price qty) h = ground arith
shown_key r (trade seq price qty maker taker) h = ground arith
shown_key r (cancel_ack seq side id price) h = ground arith
shown_key r (modify_ack seq side id price qty) h = ground arith
shown_key r (cancel_reject seq id) h = ground arith
shown_key r (modify_reject seq id) h = ground arith

abbrev shown_lt : Shown → Shown → Bool
shown_lt a b =
    if not (shown_seq a == shown_seq b)
    then ltb (shown_seq a) (shown_seq b)
    else ltb (shown_type a) (shown_type b)

shown_order : StrictWeak shown_lt
shown_order = record { asymm = λ a b h. ground arith; neg_trans = λ a b c h k. ground arith }

abbrev shown_of_key : ℕ → ℕ → Shown → Bool
shown_of_key s t a = shown_seq a == s && shown_type a == t

all_shown-keep :
    (s t : ℕ) (rs : List CollectedReport)
    → all_shown (keep (of_key s t) rs) ≡ keep (shown_of_key s t) (all_shown rs)
all_shown-keep s t [] = refl
all_shown-keep s t (r ∷ rs) = elim (Option-cases (shown r)) [
  | inl e ↦ ground (arith, e, all_shown-keep s t rs)
  | inr (a, e) ↦ ground (arith, e, shown_key r a e, all_shown-keep s t rs)
]

all_shown-not-lt :
    (r : CollectedReport) (a : Shown) (rs : List CollectedReport)
    → shown r ≡ some a
    → All (λ y. report_lt y r ≡ false) rs
    → All (λ b. shown_lt b a ≡ false) (all_shown rs)
all_shown-not-lt r a [] e h = tt
all_shown-not-lt r a (y ∷ rs) e h = elim (Option-cases (shown y)) [
  | inl e' ↦ rw (e', all_shown) (all_shown-not-lt r a rs e h.1)
  | inr (b, e') ↦
      rw (e', all_shown)
        (ground (arith, shown_key r a e, shown_key y b e', h.0), all_shown-not-lt r a rs e h.1)
]

all_shown-IsSorted :
    (rs : List CollectedReport) → IsSorted report_lt rs → IsSorted shown_lt (all_shown rs)
all_shown-IsSorted [] h = tt
all_shown-IsSorted (r ∷ rs) h = elim (Option-cases (shown r)) [
  | inl e ↦ rw (e, all_shown) (all_shown-IsSorted rs h.1)
  | inr (a, e) ↦ rw (e, all_shown) (all_shown-not-lt r a rs e h.0, all_shown-IsSorted rs h.1)
]

map-some-injective : (xs ys : List Shown) → map some xs ≡ map some ys → xs ≡ ys
map-some-injective [] [] h = refl
map-some-injective [] (y ∷ ys) h = cc
map-some-injective (x ∷ xs) [] h = cc
map-some-injective (x ∷ xs) (y ∷ ys) h = cc (map-some-injective xs ys (cc))

module _ (xs ys : List CollectedReport) where
  -- What the two streams report of each type on each message, in order, is the same.
  abbrev pub SameReports : Type 0
  SameReports = (s t : ℕ) → all_shown (keep (of_key s t) xs) ≡ all_shown (keep (of_key s t) ys)

  SortedShown : Type 0
  SortedShown = all_shown (stable_sort report_lt xs) ≡ all_shown (stable_sort report_lt ys)

  key_of_sorted :
      (s t : ℕ) (zs : List CollectedReport)
      → keep (shown_of_key s t) (all_shown (stable_sort report_lt zs))
        ≡ all_shown (keep (of_key s t) zs)
  unfolding build_canonical_text
  key_of_sorted s t zs =
      sym (all_shown-keep s t (stable_sort report_lt zs))
      ∙ ap all_shown ((build_canonical_text-IsOrdered zs).2 s t)

  sorted_of_same : SameReports → SortedShown
  unfolding SortedShown
  sorted_of_same h =
      sorted_unique shown_order _ _ (all_shown-IsSorted _ (stable_sort-IsSorted report_order xs))
        (all_shown-IsSorted _ (stable_sort-IsSorted report_order ys))
        λ a.
          let s = shown_seq a in
          let t = shown_type a in
          keep_congr (same shown_lt a) (shown_of_key s t) _ (λ b. ground arith)
          ∙ key_of_sorted s t xs
          ∙ h s t
          ∙ sym (key_of_sorted s t ys)
          ∙ sym (keep_congr (same shown_lt a) (shown_of_key s t) _ (λ b. ground arith))

  same_of_sorted : SortedShown → SameReports
  unfolding SortedShown
  same_of_sorted e s t =
      sym (key_of_sorted s t xs) ∙ ap (keep (shown_of_key s t)) e ∙ key_of_sorted s t ys

  -- Two report streams have the same canonical text exactly if, for each message and each report
  -- type, they report the same in the same order.
  pub build_canonical_text_iff :
      All ReportFits xs
      → All ReportFits ys
      → ((build_canonical_text xs).0 ≡ (build_canonical_text ys).0) ↔ SameReports
  unfolding SortedShown
  build_canonical_text_iff hx hy = (
    λ e. same_of_sorted (
        map-some-injective _ _ (
          sym (parse_text-build_canonical_text xs (in_range xs hx))
          ∙ ap parse_text e
          ∙ parse_text-build_canonical_text ys (in_range ys hy))),
    λ h.
        unfold build_canonical_text in
        (render-all_shown (stable_sort report_lt xs)
          ∙ ap (λ ss. join b'\n' (map text_of ss)) (sorted_of_same h)
          ∙ sym (render-all_shown (stable_sort report_lt ys))),
  )
    where
      in_range :
          (zs : List CollectedReport)
          → All ReportFits zs
          → All InRange (all_shown (stable_sort report_lt zs))
      in_range zs v = all_shown-InRange _ (stable_sort-All report_lt ReportFits zs v)
