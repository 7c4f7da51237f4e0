-- ===== src/Correctness/Line.antt =====
-- What a line of the canonical text shows, and that it fits the buffer of the rendering.
use matching_engine_benchmar.Common.{
  ℕ, ◌<◌, ◌≡◌, refl, sym, ap, ◌≢◌, inl, inr, true, false, Option, none, some, List, [], ◌∷◌, ◌++◌,
  map, arith, ◌==◌, if◌then◌else◌, Option-cases, length, length-append, All, ℤ,
}
use mathlib.Core.List.{append-nil, append_assoc}
use matching_engine_benchmar.Text.Decimal.{
  dec, dec_ℤ, length-dec-le, length-dec_ℤ-le, dec-avoids, dec_ℤ-avoids, IsDigit,
}
use matching_engine_benchmar.Text.Separated.{join, Lacks, Lacks-join}
use matching_engine_benchmar.Correctness.{CollectedReport, line, render}

-- The content of a line, by report type.
pub data Shown : Type 0 where
  order_ack : ℕ → ℕ → ℕ → ℤ → ℕ → Shown
  trade : ℕ → ℤ → ℕ → ℕ → ℕ → Shown
  cancel_ack : ℕ → ℕ → ℕ → ℤ → Shown
  modify_ack : ℕ → ℕ → ℕ → ℤ → ℕ → Shown
  cancel_reject : ℕ → ℕ → Shown
  modify_reject : ℕ → ℕ → Shown

-- The part of a report that the contract covers; `none` for a type outside it.
unfoldable pub shown : CollectedReport → Option Shown
shown r =
    if r.type == 0
    then some (order_ack r.seq r.side r.order_id r.price_ticks r.quantity)
    else if r.type == 1
    then some (trade r.seq r.price_ticks r.quantity r.maker_order_id r.taker_order_id)
    else if r.type == 2
    then some (cancel_ack r.seq r.side r.order_id r.price_ticks)
    else if r.type == 3
    then some (modify_ack r.seq r.side r.order_id r.price_ticks r.quantity)
    else if r.type == 4
    then some (cancel_reject r.seq r.order_id)
    else if r.type == 5
    then some (modify_reject r.seq r.order_id)
    else none

-- The comma-separated fields of a line.
unfoldable pub fields : Shown → List (List ℕ)
fields (order_ack seq side id price qty) =
    (b'0' ∷ []) ∷ dec seq ∷ dec side ∷ dec id ∷ dec_ℤ price ∷ dec qty ∷ []
fields (trade seq price qty maker taker) =
    (b'1' ∷ []) ∷ dec seq ∷ dec_ℤ price ∷ dec qty ∷ dec maker ∷ dec taker ∷ []
fields (cancel_ack seq side id price) = (b'2' ∷ []) ∷ dec seq ∷ dec side ∷ dec id ∷ dec_ℤ price ∷ []
fields (modify_ack seq side id price qty) =
    (b'3' ∷ []) ∷ dec seq ∷ dec side ∷ dec id ∷ dec_ℤ price ∷ dec qty ∷ []
fields (cancel_reject seq id) = (b'4' ∷ []) ∷ dec seq ∷ dec id ∷ []
fields (modify_reject seq id) = (b'5' ∷ []) ∷ dec seq ∷ dec id ∷ []

unfoldable pub text_of : Shown → List ℕ
text_of s = join b',' (fields s)

pub line-shown :
    (r : CollectedReport) → line r ≡ (elim (shown r) [ none ↦ none | some s ↦ some (text_of s) ])
unfolding line shown text_of fields
line-shown r = ground arith

-- The lines of a stream, in its order.
abbrev pub all_shown : List CollectedReport → List Shown
all_shown [] = []
all_shown (r ∷ rs) = elim (shown r) [ none ↦ all_shown rs | some s ↦ s ∷ all_shown rs ]

-- What follows the first line: each further line behind a line break.
broken : List (List ℕ) → List ℕ
broken [] = []
broken (l ∷ ls) = b'\n' ∷ (l ++ broken ls)

join-broken : (l : List ℕ) (ls : List (List ℕ)) → join b'\n' (l ∷ ls) ≡ l ++ broken ls
unfolding join broken
join-broken l [] = sym (append-nil l)
join-broken l (g ∷ ls) = ap (λ t. l ++ b'\n' ∷ t) (join-broken g ls)

render-false :
    (text : List ℕ) (rs : List CollectedReport)
    → render false text rs ≡ text ++ broken (map text_of (all_shown rs))
unfolding render broken
render-false text [] = sym (append-nil text)
render-false text (r ∷ rs) = elim (Option-cases (shown r)) [
  | inl e ↦ ground (arith, line-shown r, e, render-false text rs)
  | inr (s, e) ↦
      let rest = broken (map text_of (all_shown rs)) in
      let regroup : ((text ++ b'\n' ∷ []) ++ text_of s) ++ rest
          ≡ text ++ (b'\n' ∷ (text_of s ++ rest)) =
        simp append_assoc in
      ground (arith, line-shown r, e, render-false ((text ++ b'\n' ∷ []) ++ text_of s) rs, regroup)
]

-- The rendering loop joins the lines of the reports that the contract covers.
pub render-all_shown :
    (rs : List CollectedReport) → render true [] rs ≡ join b'\n' (map text_of (all_shown rs))
unfolding render
render-all_shown [] = unfold join in refl
render-all_shown (r ∷ rs) = elim (Option-cases (shown r)) [
  | inl e ↦ ground (arith, line-shown r, e, render-all_shown rs)
  | inr (s, e) ↦
      let ls = map text_of (all_shown rs) in
      ground (arith, line-shown r, e, render-false (text_of s) rs, join-broken (text_of s) ls)
]

length-text_of : (s : Shown) → length (text_of s) < 160
unfolding text_of fields join
length-text_of (order_ack seq side id price qty) =
    simp length-append (omega (arith, length-dec-le, length-dec_ℤ-le))
length-text_of (trade seq price qty maker taker) =
    simp length-append (omega (arith, length-dec-le, length-dec_ℤ-le))
length-text_of (cancel_ack seq side id price) =
    simp length-append (omega (arith, length-dec-le, length-dec_ℤ-le))
length-text_of (modify_ack seq side id price qty) =
    simp length-append (omega (arith, length-dec-le, length-dec_ℤ-le))
length-text_of (cancel_reject seq id) =
    simp length-append (omega (arith, length-dec-le, length-dec_ℤ-le))
length-text_of (modify_reject seq id) =
    simp length-append (omega (arith, length-dec-le, length-dec_ℤ-le))

-- Every line and its terminator fit the 160 bytes of the buffer, so `snprintf` cuts none.
pub length-line-lt : (r : CollectedReport) (l : List ℕ) → line r ≡ some l → length l < 160
length-line-lt r l h = elim (Option-cases (shown r)) [
  | inl e ↦ absurd (ground (arith, line-shown r, e))
  | inr (s, e) ↦ ground (arith, line-shown r, e, length-text_of s)
]

-- A character that is no digit and no sign occurs in no field.
tag-avoids : (c n : ℕ) → ¬ IsDigit c → IsDigit n → Lacks c (n ∷ [])
tag-avoids c n h d = (λ e. h (rw e at d), tt)

pub fields-Lack : (c : ℕ) (s : Shown) → ¬ IsDigit c → c ≢ b'-' → All (Lacks c) (fields s)
unfolding fields
fields-Lack c (order_ack seq side id price qty) h k = (
  tag-avoids c b'0' h (omega arith),
  (
    dec-avoids c seq h,
    (
      dec-avoids c side h,
      (dec-avoids c id h, (dec_ℤ-avoids c price h k, (dec-avoids c qty h, tt))),
    ),
  ),
)
fields-Lack c (trade seq price qty maker taker) h k = (
  tag-avoids c b'1' h (omega arith),
  (
    dec-avoids c seq h,
    (
      dec_ℤ-avoids c price h k,
      (dec-avoids c qty h, (dec-avoids c maker h, (dec-avoids c taker h, tt))),
    ),
  ),
)
fields-Lack c (cancel_ack seq side id price) h k = (
  tag-avoids c b'2' h (omega arith),
  (dec-avoids c seq h, (dec-avoids c side h, (dec-avoids c id h, (dec_ℤ-avoids c price h k, tt)))),
)
fields-Lack c (modify_ack seq side id price qty) h k = (
  tag-avoids c b'3' h (omega arith),
  (
    dec-avoids c seq h,
    (
      dec-avoids c side h,
      (dec-avoids c id h, (dec_ℤ-avoids c price h k, (dec-avoids c qty h, tt))),
    ),
  ),
)
fields-Lack c (cancel_reject seq id) h k =
    (tag-avoids c b'4' h (omega arith), (dec-avoids c seq h, (dec-avoids c id h, tt)))
fields-Lack c (modify_reject seq id) h k =
    (tag-avoids c b'5' h (omega arith), (dec-avoids c seq h, (dec-avoids c id h, tt)))

-- A line has no line break in it.
pub Lacks-text_of : (s : Shown) → Lacks b'\n' (text_of s)
unfolding text_of
Lacks-text_of s =
    Lacks-join b'\n' b',' (fields s) (omega arith) (fields-Lack b'\n' s (omega arith) (omega arith))
