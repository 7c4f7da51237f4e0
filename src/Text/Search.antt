-- ===== src/Text/Search.antt =====
-- Searching a text for a separator, as `std::string_view::find` and `substr` cut it.
use matching_engine_benchmar.Common.{
  ℕ, ◌≡◌, refl, ◌≢◌, Option, none, some, List, [], ◌∷◌, ◌++◌, arith, ◌==◌, if◌then◌else◌,
}
use matching_engine_benchmar.Text.Separated.{Lacks}

-- What follows a prefix.
unfoldable pub strip_prefix : List ℕ → List ℕ → Option (List ℕ)
strip_prefix [] xs = some xs
strip_prefix (p ∷ ps) [] = none
strip_prefix (p ∷ ps) (x ∷ xs) = if x == p then strip_prefix ps xs else none

-- The texts before and after the first place of a separator; `none` where it does not occur.
unfoldable pub cut : List ℕ → List ℕ → Option (List ℕ × List ℕ)
cut sep [] = none
cut sep (x ∷ xs) = elim (strip_prefix sep (x ∷ xs)) [
  | some rest ↦ some ([], rest)
  | none ↦ elim (cut sep xs) [ none ↦ none | some (before, rest) ↦ some (x ∷ before, rest) ]
]

strip_prefix-append : (ps xs : List ℕ) → strip_prefix ps (ps ++ xs) ≡ some xs
unfolding strip_prefix
strip_prefix-append [] xs = refl
strip_prefix-append (p ∷ ps) xs = ground (arith, strip_prefix-append ps xs)

strip_prefix-ne : (c x : ℕ) (cs xs : List ℕ) → x ≢ c → strip_prefix (c ∷ cs) (x ∷ xs) ≡ none
unfolding strip_prefix
strip_prefix-ne c x cs xs h = ground arith

-- A text without the first character of the separator is cut where the separator follows it.
pub cut-append :
    (c : ℕ) (cs f rest : List ℕ) → Lacks c f → cut (c ∷ cs) (f ++ (c ∷ cs ++ rest)) ≡ some (f, rest)
unfolding cut
cut-append c cs [] rest h = rw (cut, strip_prefix-append (c ∷ cs) rest) refl
cut-append c cs (x ∷ f) rest h =
    rw (cut, strip_prefix-ne c x cs (f ++ (c ∷ cs ++ rest)) h.0, cut-append c cs f rest h.1) refl

pub cut-Lacks : (c : ℕ) (cs f : List ℕ) → Lacks c f → cut (c ∷ cs) f ≡ none
unfolding cut
cut-Lacks c cs [] h = refl
cut-Lacks c cs (x ∷ f) h = rw (cut, strip_prefix-ne c x cs f h.0, cut-Lacks c cs f h.1) refl
