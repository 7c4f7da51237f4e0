-- ===== src/Generator/Shuffle.antt =====
-- The shuffle keeps every index, once each.
use matching_engine_benchmar.Common.{
  ℕ, zero, suc, ◌+◌, ◌-◌, ◌%◌, ◌^◌, ◌≤◌, ◌<◌, ◌≡◌, refl, ap, ◌∙◌, inl, inr, ◌&&◌, some, List, [],
  ◌∷◌, arith, ltb, leb, ◌==◌, if◌then◌else◌, Bool-cases, keep, length, get_elem?, set, length-set,
  get_elem?-set_self, get_elem?-set_ne, get_or, All,
}
use matching_engine_benchmar.Generator.{Draws, uniform_int, iota, swap_at, shuffle_loop}

-- How often a number stands in a list.
abbrev pub count : ℕ → List ℕ → ℕ
count v xs = length (keep (λ x. x == v) xs)

-- One entry's share in a count.
abbrev hit : ℕ → ℕ → ℕ
hit v x = if x == v then 1 else 0

-- An overwritten entry leaves the count and the new one joins it.
count-set :
    (v : ℕ) (xs : List ℕ) (i x old : ℕ)
    → get_elem? xs i ≡ some old
    → count v (set xs i x) + hit v old ≡ count v xs + hit v x
count-set v [] i x old e = absurd (ground (arith, e))
count-set v (y ∷ xs) zero x old e = ground (arith, e)
count-set v (y ∷ xs) (suc i) x old e = ground (arith, count-set v xs i x old e)

get_or-lt : (xs : List ℕ) (i d : ℕ) → i < length xs → get_elem? xs i ≡ some (get_or xs i d)
get_or-lt [] i d h = absurd (omega arith)
get_or-lt (x ∷ xs) zero d h = refl
get_or-lt (x ∷ xs) (suc i) d h = get_or-lt xs i d (omega arith)

-- The entry at `j` after the entry at `i` was overwritten by it.
get_elem?-copied :
    (xs : List ℕ) (i j : ℕ)
    → i < length xs
    → j < length xs
    → get_elem? (set xs i (get_or xs j 0)) j ≡ some (get_or xs j 0)
get_elem?-copied xs i j h k = elim (Bool-cases (i == j)) [
  | inl e ↦ let same : i ≡ j = ground arith in rw same (get_elem?-set_self xs j (get_or xs j 0) k)
  | inr e ↦
      get_elem?-set_ne xs (get_or xs j 0) (λ (same : i ≡ j). ground arith) ∙ get_or-lt xs j 0 k
]

count-swap_at :
    (v i j : ℕ) (xs : List ℕ)
    → i < length xs
    → j < length xs
    → count v (swap_at i j xs) ≡ count v xs
unfolding swap_at
count-swap_at v i j xs h k =
    let first = count-set v xs i (get_or xs j 0) (get_or xs i 0) (get_or-lt xs i 0 h) in
    let second =
      count-set v (set xs i (get_or xs j 0)) j (get_or xs i 0) (get_or xs j 0)
        (get_elem?-copied xs i j h k) in
    omega (arith, first, second)

length-swap_at : (i j : ℕ) (xs : List ℕ) → length (swap_at i j xs) ≡ length xs
unfolding swap_at
length-swap_at i j xs = length-set (set xs i (get_or xs j 0)) j _ ∙ length-set xs i _

-- What the scaled draw is documented to do: a uniform draw below 1, times `n`, is below `n`.
abbrev pub IsScaled : {R M : Type 0} → Draws R M → Type 0
IsScaled {R = R} d = (n : ℕ) (r : R) → 0 < n → (d.scaled n r).0 < n

module _ {R M : Type 0} (d : Draws R M) (scaled : IsScaled d) where
  pub uniform_int-within :
      (lo hi : ℕ) (r : R)
      → lo ≤ hi
      → hi < 2 ^ 32 - 1
      → (lo ≤ (uniform_int d lo hi r).0) × ((uniform_int d lo hi r).0 ≤ hi)
  unfolding uniform_int
  uniform_int-within lo hi r h k =
      let n = (hi + 1 - lo) % 2 ^ 32 in
      let positive : 0 < n = omega arith in let draw = scaled n r positive in omega arith

  pub count-shuffle_loop :
      (v i : ℕ) (order : List ℕ) (r : R)
      → i < 2 ^ 32 - 1
      → (0 < i → i < length order)
      → count v (shuffle_loop d i order r).0 ≡ count v order
  unfolding shuffle_loop
  count-shuffle_loop v zero order r h k = refl
  count-shuffle_loop v (suc i) order r h k =
      let inside : suc i < length order = k (omega arith) in
      let (j, r') = uniform_int d 0 (suc i) r in
      let drawn = (uniform_int-within 0 (suc i) r (omega arith) h).1 in
      count-shuffle_loop v i (swap_at (suc i) j order) r' (omega arith)
        (λ p. omega (arith, length-swap_at (suc i) j order))
      ∙ count-swap_at v (suc i) j order inside (omega arith)

count-iota :
    (v n start : ℕ) → count v (iota n start) ≡ (if leb start v && ltb v (start + n) then 1 else 0)
unfolding iota
count-iota v zero start = ground arith
count-iota v (suc n) start = ground (arith, count-iota v n (start + 1))

pub length-iota : (n start : ℕ) → length (iota n start) ≡ n
unfolding iota
length-iota zero start = refl
length-iota (suc n) start = ap suc (length-iota n (start + 1))

-- Every index below the count stands in the shuffled order exactly once, and no other index does; for a
-- count between 1 and 2 ^ 32 - 1, and scaled draws below their bound.
pub count-shuffled :
    {R M : Type 0} (d : Draws R M)
    → IsScaled d
    → (v n : ℕ) (r : R) → 0 < n
    → n < 2 ^ 32
    → count v (shuffle_loop d (n - 1) (iota n 0) r).0 ≡ (if ltb v n then 1 else 0)
count-shuffled d scaled v n r h k =
    count-shuffle_loop d scaled v (n - 1) (iota n 0) r (omega arith)
      (λ p. omega (arith, length-iota n 0))
    ∙ count-iota v n 0
    ∙ ground arith

-- A list whose entries are all counted below a bound.
All-of-count : (n : ℕ) (xs : List ℕ) → ((v : ℕ) → 0 < count v xs → v < n) → All (λ x. x < n) xs
All-of-count n [] h = tt
All-of-count n (x ∷ xs) h = (h x (ground arith), All-of-count n xs (λ v p. h v (ground arith)))

pub shuffled-below :
    {R M : Type 0} (d : Draws R M)
    → IsScaled d
    → (n : ℕ) (r : R) → 0 < n
    → n < 2 ^ 32
    → All (λ x. x < n) (shuffle_loop d (n - 1) (iota n 0) r).0
shuffled-below d scaled n r h k =
    All-of-count n _ (λ v p. let e = count-shuffled d scaled v n r h k in ground arith)

pub length-shuffle_loop :
    {R M : Type 0} (d : Draws R M) (i : ℕ) (order : List ℕ) (r : R)
    → length (shuffle_loop d i order r).0 ≡ length order
unfolding shuffle_loop
length-shuffle_loop d zero order r = refl
length-shuffle_loop d (suc i) order r =
    let (j, r') = uniform_int d 0 (suc i) r in
    length-shuffle_loop d i (swap_at (suc i) j order) r' ∙ length-swap_at (suc i) j order
