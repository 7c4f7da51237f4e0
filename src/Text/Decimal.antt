-- ===== src/Text/Decimal.antt =====
-- Decimal numbers as `%llu`, `%u` and `%lld` write them. Twenty rounds are enough for 64 bits,
-- since 2 ^ 64 < 10 ^ 20.
use native.Mathlib.Nat.{pow-suc}
use matching_engine_benchmar.Common.{
  ℕ, zero, suc, ◌+◌, ◌-◌, ◌*◌, ◌/◌, ◌%◌, ◌^◌, ◌≤◌, ◌<◌, ◌≡◌, refl, sym, ap, ◌∙◌, ◌≢◌, inl, inr,
  true, List, [], ◌∷◌, arith, ltb, ◌==◌, if◌then◌else◌, lt→ltb, tests, Bool-cases, length, All, ℤ,
  pos, negsuc, IsInt64,
}

dec_loop : ℕ → ℕ → List ℕ → List ℕ
dec_loop zero n acc = acc
dec_loop (suc f) n acc =
    let rest = dec_loop f (n / 10) ((b'0' + n % 10) ∷ acc) in
    if ltb n 10 then (b'0' + n) ∷ acc else rest

-- `%llu` and `%u`.
unfoldable pub dec : ℕ → List ℕ
unfolding dec_loop
dec n = dec_loop 20 n []

-- `%lld`.
unfoldable pub dec_ℤ : ℤ → List ℕ
unfolding dec
dec_ℤ (pos n) = dec n
dec_ℤ (negsuc n) = b'-' ∷ dec (suc n)

unfoldable pub parse_loop : ℕ → List ℕ → ℕ
parse_loop v [] = v
parse_loop v (c ∷ cs) = parse_loop (v * 10 + (c - b'0')) cs

unfoldable pub parse_dec : List ℕ → ℕ
parse_dec cs = parse_loop 0 cs

pub parse_dec_ℤ : List ℕ → ℤ
parse_dec_ℤ [] = pos 0
parse_dec_ℤ (c ∷ cs) = if c == b'-' then negsuc (parse_dec cs - 1) else pos (parse_dec (c ∷ cs))

abbrev pub IsDigit : ℕ → Type 0
IsDigit c = (b'0' ≤ c) × (c < b'0' + 10)

dec_loop-digits : (f n : ℕ) (acc : List ℕ) → All IsDigit acc → All IsDigit (dec_loop f n acc)
unfolding dec_loop
dec_loop-digits zero n acc h = h
dec_loop-digits (suc f) n acc h = elim (Bool-cases (ltb n 10)) [
  | inl e ↦ rw e ((omega arith, omega (tests, e)), h)
  | inr e ↦
      rw e (dec_loop-digits f (n / 10) ((b'0' + n % 10) ∷ acc) ((omega arith, omega arith), h))
]

length-dec_loop : (f n : ℕ) (acc : List ℕ) → length (dec_loop f n acc) ≤ f + length acc
unfolding dec_loop
length-dec_loop zero n acc = omega arith
length-dec_loop (suc f) n acc = ground (arith, length-dec_loop f (n / 10) ((b'0' + n % 10) ∷ acc))

parse_loop-dec_loop :
    (f n : ℕ) (acc : List ℕ)
    → n < 10 ^ suc f
    → parse_loop 0 (dec_loop (suc f) n acc) ≡ parse_loop n acc
unfolding dec_loop parse_loop
parse_loop-dec_loop zero n acc h =
    let last : ltb n 10 ≡ true = lt→ltb n 10 (omega arith) in
    rw last (ap (λ v. parse_loop v acc) (omega arith))
parse_loop-dec_loop (suc f) n acc h =
    let bound : n < 10 ^ suc f * 10 = rw (← pow-suc) h in
    elim (Bool-cases (ltb n 10)) [
      | inl e ↦ rw e (ap (λ v. parse_loop v acc) (omega arith))
      | inr e ↦ rw e (
          parse_loop-dec_loop f (n / 10) ((b'0' + n % 10) ∷ acc) (omega arith)
          ∙ ap (λ v. parse_loop v acc) (omega arith))
    ]

dec_loop-cons :
    (f n c : ℕ) (acc : List ℕ) → (d : ℕ) × (ds : List ℕ) × (dec_loop f n (c ∷ acc) ≡ d ∷ ds)
unfolding dec_loop
dec_loop-cons zero n c acc = (c, acc, refl)
dec_loop-cons (suc f) n c acc = elim (Bool-cases (ltb n 10)) [
  | inl e ↦ (b'0' + n, c ∷ acc, rw e)
  | inr e ↦ let (d, ds, eq) = dec_loop-cons f (n / 10) (b'0' + n % 10) (c ∷ acc) in (d, ds, rw e eq)
]

-- The text of a number has a first digit.
pub dec-cons : (n : ℕ) → (d : ℕ) × (ds : List ℕ) × (dec n ≡ d ∷ ds)
unfolding dec
dec-cons n = elim (Bool-cases (ltb n 10)) [
  | inl e ↦ (b'0' + n, [], rw e)
  | inr e ↦ let (d, ds, eq) = dec_loop-cons 19 (n / 10) (b'0' + n % 10) [] in (d, ds, rw e eq)
]

pub parse_dec-dec : (n : ℕ) → n < 10 ^ 20 → parse_dec (dec n) ≡ n
unfolding parse_dec parse_loop dec
parse_dec-dec n h = parse_loop-dec_loop 19 n [] h

pub parse_dec-digit : (c : ℕ) → parse_dec (c ∷ []) ≡ c - b'0'
unfolding parse_dec parse_loop
parse_dec-digit c = omega arith

pub dec-digits : (n : ℕ) → All IsDigit (dec n)
unfolding dec
dec-digits n = dec_loop-digits 20 n [] tt

pub length-dec-le : (n : ℕ) → length (dec n) ≤ 20
unfolding dec
length-dec-le n = length-dec_loop 20 n []

pub length-dec_ℤ-le : (a : ℤ) → length (dec_ℤ a) ≤ 21
unfolding dec_ℤ
length-dec_ℤ-le (pos n) = omega (arith, length-dec-le n)
length-dec_ℤ-le (negsuc n) = omega (arith, length-dec-le (suc n))

pub parse_dec_ℤ-dec_ℤ : (a : ℤ) → IsInt64 a → parse_dec_ℤ (dec_ℤ a) ≡ a
unfolding dec_ℤ parse_dec_ℤ
parse_dec_ℤ-dec_ℤ (pos n) h =
    let (d, ds, e) = dec-cons n in
    let digit : All IsDigit (d ∷ ds) = rw e at (dec-digits n) in
    let value : parse_dec (d ∷ ds) ≡ n = rw e at (parse_dec-dec n (omega arith)) in
    rw (e, parse_dec_ℤ) (ground (arith, value, digit))
parse_dec_ℤ-dec_ℤ (negsuc n) h = ground (arith, parse_dec-dec (suc n))

pub All-map_lem {ℓ κ} :
    {P : ℕ → Type ℓ} {Q : ℕ → Type κ} (f : (c : ℕ) → P c → Q c) (cs : List ℕ) → All P cs → All Q cs
All-map_lem f [] h = tt
All-map_lem f (c ∷ cs) h = (f c h.0, All-map_lem f cs h.1)

-- The characters of a signed number: digits and the sign.
pub dec-avoids : (c n : ℕ) → ¬ IsDigit c → All (λ x. x ≢ c) (dec n)
dec-avoids c n h = All-map_lem (λ x d e. h (rw e at d)) (dec n) (dec-digits n)

pub dec_ℤ-avoids : (c : ℕ) (a : ℤ) → ¬ IsDigit c → c ≢ b'-' → All (λ x. x ≢ c) (dec_ℤ a)
unfolding dec_ℤ
dec_ℤ-avoids c (pos n) h k = dec-avoids c n h
dec_ℤ-avoids c (negsuc n) h k = (λ e. k (sym e), dec-avoids c (suc n) h)
