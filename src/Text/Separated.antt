-- ===== src/Text/Separated.antt =====
-- Fields between separators: joining, and splitting at each separator.
use matching_engine_benchmar.Common.{
  ℕ, ◌≡◌, refl, sym, ap, ◌≢◌, List, [], ◌∷◌, ◌++◌, arith, ◌==◌, if◌then◌else◌, All, All-append,
}

unfoldable pub join : ℕ → List (List ℕ) → List ℕ
join c [] = []
join c (f ∷ []) = f
join c (f ∷ g ∷ rest) = f ++ c ∷ join c (g ∷ rest)

-- The character goes to the front of the first field.
abbrev cons_first : ℕ → List (List ℕ) → List (List ℕ)
cons_first x [] = (x ∷ []) ∷ []
cons_first x (f ∷ fs) = (x ∷ f) ∷ fs

pub split : ℕ → List ℕ → List (List ℕ)
split c [] = [] ∷ []
split c (x ∷ xs) = if x == c then [] ∷ split c xs else cons_first x (split c xs)

-- No separator in the text.
abbrev pub Lacks : ℕ → List ℕ → Type 0
Lacks c = All (λ x. x ≢ c)

split-Lacks : (c : ℕ) (f : List ℕ) → Lacks c f → split c f ≡ f ∷ []
unfolding split
split-Lacks c [] h = refl
split-Lacks c (x ∷ f) h = ground (arith, split-Lacks c f h.1)

split-append : (c : ℕ) (f rest : List ℕ) → Lacks c f → split c (f ++ c ∷ rest) ≡ f ∷ split c rest
unfolding split
split-append c [] rest h = ground arith
split-append c (x ∷ f) rest h = ground (arith, split-append c f rest h.1)

pub split-join :
    (c : ℕ) (f : List ℕ) (fs : List (List ℕ))
    → All (Lacks c) (f ∷ fs)
    → split c (join c (f ∷ fs)) ≡ f ∷ fs
unfolding join
split-join c f [] h = split-Lacks c f h.0
split-join c f (g ∷ fs) h =
    rw (split-append c f (join c (g ∷ fs)) h.0) (ap (◌∷◌ f) (split-join c g fs h.1))

pub Lacks-join : (c d : ℕ) (fs : List (List ℕ)) → c ≢ d → All (Lacks c) fs → Lacks c (join d fs)
unfolding join
Lacks-join c d [] n h = tt
Lacks-join c d (f ∷ []) n h = h.0
Lacks-join c d (f ∷ g ∷ rest) n h =
    All-append _ f (d ∷ join d (g ∷ rest)) h.0 (λ e. n (sym e), Lacks-join c d (g ∷ rest) n h.1)
