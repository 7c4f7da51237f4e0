-- ===== src/Command/Identity.antt =====
-- The names tell every two runs apart.
use matching_engine_benchmar.Common.{
  ℕ, ◌^◌, ◌<◌, ◌≡◌, refl, sym, ap, subst, ◌∙◌, ◌⊎◌, inl, inr, List, [], ◌∷◌, ◌++◌, arith, length,
  length-append, drop, All,
}
use matching_engine_benchmar.Text.Decimal.{dec, dec-digits, IsDigit, parse_dec, parse_dec-dec}
use matching_engine_benchmar.Command.{orders, bin, reports_txt, workload_path, want_tag}

abbrev tail_of : List ℕ → List ℕ
tail_of [] = []
tail_of (x ∷ xs) = xs

abbrev head_of : List ℕ → ℕ
head_of [] = 0
head_of (x ∷ xs) = x

-- A text that ends with a character that is no digit.
EndsPlain : List ℕ → Type 0
EndsPlain [] = ⊥
EndsPlain (x ∷ []) = ¬ IsDigit x
EndsPlain (x ∷ y ∷ zs) = EndsPlain (y ∷ zs)

append-EndsPlain : (xs sep : List ℕ) → EndsPlain sep → EndsPlain (xs ++ sep)
unfolding EndsPlain
append-EndsPlain [] sep h = h
append-EndsPlain (x ∷ []) [] h = absurd h
append-EndsPlain (x ∷ []) (y ∷ ys) h = h
append-EndsPlain (x ∷ y ∷ xs) sep h = append-EndsPlain (y ∷ xs) sep h

digits-EndsPlain : (zs d : List ℕ) → EndsPlain zs → All IsDigit (zs ++ d) → ⊥
unfolding EndsPlain
digits-EndsPlain [] d h k = h
digits-EndsPlain (x ∷ []) d h k = h k.0
digits-EndsPlain (x ∷ y ∷ zs) d h k = digits-EndsPlain (y ∷ zs) d h k.1

-- The digits at the end of a text are told apart from what comes before.
digits-apart :
    (xs ys d e : List ℕ)
    → EndsPlain xs
    → EndsPlain ys
    → All IsDigit d
    → All IsDigit e
    → xs ++ d ≡ ys ++ e
    → (xs ≡ ys) × (d ≡ e)
unfolding EndsPlain
digits-apart [] ys d e h k p q eq = absurd h
digits-apart (x ∷ xs) [] d e h k p q eq = absurd k
digits-apart (x ∷ []) (y ∷ []) d e h k p q eq = (ap (λ l. head_of l ∷ []) eq, ap tail_of eq)
digits-apart (x ∷ []) (y ∷ z ∷ ys) d e h k p q eq =
    absurd (digits-EndsPlain (z ∷ ys) e k (subst (All IsDigit) (ap tail_of eq) p))
digits-apart (x ∷ z ∷ xs) (y ∷ []) d e h k p q eq =
    absurd (digits-EndsPlain (z ∷ xs) d h (subst (All IsDigit) (sym (ap tail_of eq)) q))
digits-apart (x ∷ x' ∷ xs) (y ∷ y' ∷ ys) d e h k p q eq =
    let (same, digits) = digits-apart (x' ∷ xs) (y' ∷ ys) d e h k p q (ap tail_of eq) in
    let first : x ≡ y = ap head_of eq in (λ i. first i ∷ same i, digits)

append_cancel : (xs ys s : List ℕ) → xs ++ s ≡ ys ++ s → xs ≡ ys
append_cancel [] [] s e = refl
append_cancel [] (y ∷ ys) s e =
    let size : length s ≡ length (y ∷ ys ++ s) = ap length e in
    absurd (omega (arith, size, length-append ys s))
append_cancel (x ∷ xs) [] s e =
    let size : length (x ∷ xs ++ s) ≡ length s = ap length e in
    absurd (omega (arith, size, length-append xs s))
append_cancel (x ∷ xs) (y ∷ ys) s e =
    let first : x ≡ y = ap head_of e in
    let rest = append_cancel xs ys s (ap tail_of e) in λ i. first i ∷ rest i

dec_injective : (a b : ℕ) → a < 2 ^ 64 → b < 2 ^ 64 → dec a ≡ dec b → a ≡ b
dec_injective a b h k e =
    sym (parse_dec-dec a (omega arith)) ∙ ap parse_dec e ∙ parse_dec-dec b (omega arith)

-- A name with two numbers, each after a separator, determines them and what comes first.
numbered-injective :
    (x y sep sep' suffix : List ℕ) (a b c d : ℕ)
    → EndsPlain sep
    → EndsPlain sep'
    → a < 2 ^ 64
    → b < 2 ^ 64
    → c < 2 ^ 64
    → d < 2 ^ 64
    → x ++ sep ++ dec a ++ sep' ++ dec b ++ suffix ≡ y ++ sep ++ dec c ++ sep' ++ dec d ++ suffix
    → (x ≡ y) × (a ≡ c) × (b ≡ d)
numbered-injective x y sep sep' suffix a b c d s s' ha hb hc hd e =
    let whole =
      append_cancel (x ++ sep ++ dec a ++ sep' ++ dec b) (y ++ sep ++ dec c ++ sep' ++ dec d) suffix
        e in
    let (left, last) =
      digits-apart (x ++ sep ++ dec a ++ sep') (y ++ sep ++ dec c ++ sep') (dec b) (dec d)
        (append-EndsPlain _ sep' s') (append-EndsPlain _ sep' s') (dec-digits b) (dec-digits d)
        whole in
    let inner = append_cancel (x ++ sep ++ dec a) (y ++ sep ++ dec c) sep' left in
    let (front, middle) =
      digits-apart (x ++ sep) (y ++ sep) (dec a) (dec c) (append-EndsPlain _ sep s)
        (append-EndsPlain _ sep s) (dec-digits a) (dec-digits c) inner in
    (append_cancel x y sep front, dec_injective a c ha hc middle, dec_injective b d hb hd last)

orders_cancel : (x y : List ℕ) → orders ++ x ≡ orders ++ y → x ≡ y
orders_cancel x y e = ap (λ l. drop 7 l) e

-- Two runs with the same workload file, or with the same tag of the published hash, have the same scenario, seed and count; for
-- seeds and counts of 64 bits.
pub workload_path-want_tag :
    (scenario scenario' : List ℕ) (seed count seed' count' : ℕ)
    → seed < 2 ^ 64
    → count < 2 ^ 64
    → seed' < 2 ^ 64
    → count' < 2 ^ 64
    → (workload_path scenario seed count ≡ workload_path scenario' seed' count')
      ⊎ (want_tag scenario seed count ≡ want_tag scenario' seed' count')
    → (scenario ≡ scenario') × (seed ≡ seed') × (count ≡ count')
unfolding workload_path want_tag EndsPlain
workload_path-want_tag s s' a b c d ha hb hc hd (inl e) =
    let (x, y, z) =
      numbered-injective (orders ++ s) (orders ++ s') (b'_' ∷ b's' ∷ []) (b'_' ∷ b'n' ∷ []) bin a b
        c d (λ h. omega arith) (λ h. omega arith) ha hb hc hd e in
    (orders_cancel s s' x, y, z)
workload_path-want_tag s s' a b c d ha hb hc hd (inr e) =
    numbered-injective s s' (b'_' ∷ b's' ∷ b'e' ∷ b'e' ∷ b'd' ∷ [])
      (b'_' ∷ b'c' ∷ b'o' ∷ b'u' ∷ b'n' ∷ b't' ∷ []) reports_txt a b c d (λ h. omega arith)
      (λ h. omega arith) ha hb hc hd e
