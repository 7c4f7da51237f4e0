-- ===== src/Correctness/Order.antt =====
-- The canonical order does not depend on the order in which the reports of one message come.
use matching_engine_benchmar.Common.{
  ℕ, ◌≤◌, ◌<◌, ◌≡◌, refl, sym, ◌∙◌, ◌⊎◌, inl, inr, Bool, false, ◌&&◌, List, [], ◌∷◌, arith, ◌==◌,
  Bool-cases, keep, All, pos,
}
use mathlib.Core.List.{Perm}
use matching_engine_benchmar.Sort.{StrictWeak, stable_sort, same, IsSorted, stable_sort-perm}
use matching_engine_benchmar.Sort.Stable.{stable_sort-IsSorted, keep-stable_sort}
use matching_engine_benchmar.Sort.Unique.{stable_sort_unique}
use matching_engine_benchmar.Correctness.{
  CollectedReport, report_lt, build_canonical_text, compute_canonical_hash,
}

pub report_order : StrictWeak report_lt
report_order = record { asymm = λ a b h. ground arith; neg_trans = λ a b c h k. ground arith }

-- The reports of one type on one message.
abbrev pub of_key : ℕ → ℕ → CollectedReport → Bool
of_key s t r = r.seq == s && r.type == t

same-of_key : (a r : CollectedReport) → same report_lt a r ≡ of_key a.seq a.type r
same-of_key a r = ground arith

pub keep_congr {ℓ} :
    {A : Type ℓ} (p q : A → Bool) (xs : List A) → ((x : A) → p x ≡ q x) → keep p xs ≡ keep q xs
keep_congr p q [] h = refl
keep_congr p q (x ∷ xs) h = rw (h x, keep_congr p q xs h)

-- Two streams with the same reports of each type on each message, in the same order within a type
-- and a message, have the same canonical text and so the same hash, however they interleave them.
pub compute_canonical_hash_interleaving :
    (sha256_hex : List ℕ → List ℕ) (xs ys : List CollectedReport)
    → ((s t : ℕ) → keep (of_key s t) xs ≡ keep (of_key s t) ys)
    → compute_canonical_hash sha256_hex xs ≡ compute_canonical_hash sha256_hex ys
unfolding compute_canonical_hash build_canonical_text
compute_canonical_hash_interleaving sha256_hex xs ys h =
    let e : stable_sort report_lt xs ≡ stable_sort report_lt ys =
      stable_sort_unique report_order xs ys λ a.
        keep_congr (same report_lt a) (of_key a.seq a.type) xs (same-of_key a)
        ∙ h a.seq a.type
        ∙ sym (keep_congr (same report_lt a) (of_key a.seq a.type) ys (same-of_key a)) in
    rw e

-- A report on an earlier message, or on the same one and of no larger type.
abbrev pub Precedes : CollectedReport → CollectedReport → Type 0
Precedes a b = (a.seq < b.seq) ⊎ ((a.seq ≡ b.seq) × (a.type ≤ b.type))

-- Each report precedes all that come after it.
abbrev pub IsOrdered : List CollectedReport → Type 0
IsOrdered [] = Unit {0}
IsOrdered (r ∷ rs) = All (Precedes r) rs × IsOrdered rs

not_lt-Precedes : (a b : CollectedReport) → report_lt b a ≡ false → Precedes a b
not_lt-Precedes a b h = elim (Bool-cases (b.seq == a.seq)) [
  | inl e ↦ inr (ground (arith, e), ground (arith, e, h))
  | inr e ↦ inl (ground (arith, e, h))
]

IsSorted-IsOrdered : (rs : List CollectedReport) → IsSorted report_lt rs → IsOrdered rs
IsSorted-IsOrdered [] h = tt
IsSorted-IsOrdered (r ∷ rs) h = (all rs h.0, IsSorted-IsOrdered rs h.1)
  where
    all : (ys : List CollectedReport) → All (λ y. report_lt y r ≡ false) ys → All (Precedes r) ys
    all [] k = tt
    all (y ∷ ys) k = (not_lt-Precedes r y k.0, all ys k.1)

-- The canonical order keeps every report, puts each before those on later messages, and before those of
-- larger types on the same message, and keeps the order among the reports of one type on one message.
pub build_canonical_text-IsOrdered :
    (xs : List CollectedReport)
    → Perm (build_canonical_text xs).1 xs
      × IsOrdered (build_canonical_text xs).1
      × ((s t : ℕ) → keep (of_key s t) (build_canonical_text xs).1 ≡ keep (of_key s t) xs)
unfolding build_canonical_text
build_canonical_text-IsOrdered xs = (
  stable_sort-perm report_lt xs,
  IsSorted-IsOrdered (stable_sort report_lt xs) (stable_sort-IsSorted report_order xs),
  λ s t. kept s t,
)
  where
    kept : (s t : ℕ) → keep (of_key s t) (stable_sort report_lt xs) ≡ keep (of_key s t) xs
    kept s t =
        let a : CollectedReport = record {
          type = t;
          seq = s;
          side = 0;
          order_id = 0;
          price_ticks = pos 0;
          quantity = 0;
          maker_order_id = 0;
          taker_order_id = 0;
        } in
        sym (keep_congr (same report_lt a) (of_key s t) (stable_sort report_lt xs) (same-of_key a))
        ∙ keep-stable_sort report_order a xs
        ∙ keep_congr (same report_lt a) (of_key s t) xs (same-of_key a)
