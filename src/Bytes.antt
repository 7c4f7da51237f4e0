-- ===== src/Bytes.antt =====
-- Fixed-width little-endian integers, as `fwrite` and `fread` of an integer object store them.
use native.Mathlib.Nat.{pow-suc}
use matching_engine_benchmar.Common.{
  ℕ, zero, suc, ◌+◌, ◌-◌, ◌*◌, ◌/◌, ◌%◌, ◌^◌, ◌<◌, ◌≡◌, refl, ap, List, [], ◌∷◌, ◌++◌, Option, none,
  some, arith, length, ltb, if◌then◌else◌, ℤ, pos, negsuc, IsInt64,
}

-- The `w` low bytes of `n`, least significant first.
unfoldable pub le_bytes : ℕ → ℕ → List ℕ
le_bytes zero n = []
le_bytes (suc w) n = n % 256 ∷ le_bytes w (n / 256)

unfoldable pub from_le : List ℕ → ℕ
from_le [] = 0
from_le (b ∷ bs) = b + 256 * from_le bs

-- An `int64_t` by its bit pattern.
unfoldable pub to_u64 : ℤ → ℕ
to_u64 (pos n) = n
to_u64 (negsuc n) = 2 ^ 64 - 1 - n

unfoldable pub of_u64 : ℕ → ℤ
of_u64 w = if ltb w (2 ^ 63) then pos w else negsuc (2 ^ 64 - 1 - w)

-- The first `w` bytes and the rest; `none` where fewer are left.
unfoldable pub split_at? : ℕ → List ℕ → Option (List ℕ × List ℕ)
split_at? zero bs = some ([], bs)
split_at? (suc w) [] = none
split_at? (suc w) (b ∷ bs) = elim (split_at? w bs) [
  | none ↦ none
  | some (front, rest) ↦ some (b ∷ front, rest)
]

pub length-le_bytes : (w n : ℕ) → length (le_bytes w n) ≡ w
unfolding le_bytes
length-le_bytes zero n = refl
length-le_bytes (suc w) n = ap suc (length-le_bytes w (n / 256))

pub from_le-le_bytes : (w n : ℕ) → n < 256 ^ w → from_le (le_bytes w n) ≡ n
unfolding le_bytes from_le
from_le-le_bytes zero n h = omega arith
from_le-le_bytes (suc w) n h =
    let bound : n < 256 ^ w * 256 = rw (← pow-suc) h in
    omega (arith, from_le-le_bytes w (n / 256) (omega arith))

pub of_u64-to_u64 : (a : ℤ) → IsInt64 a → of_u64 (to_u64 a) ≡ a
unfolding of_u64 to_u64
of_u64-to_u64 a h = ground arith

pub to_u64-lt : (a : ℤ) → IsInt64 a → to_u64 a < 2 ^ 64
unfolding to_u64
to_u64-lt a h = ground arith

pub split_at?-append : (xs ys : List ℕ) → split_at? (length xs) (xs ++ ys) ≡ some (xs, ys)
unfolding split_at?
split_at?-append [] ys = refl
split_at?-append (x ∷ xs) ys = rw (split_at?-append xs ys)

-- Too few bytes are a short read.
pub split_at?-short : (w : ℕ) (bs : List ℕ) → length bs < w → split_at? w bs ≡ none
unfolding split_at?
split_at?-short zero bs h = absurd (omega arith)
split_at?-short (suc w) [] h = refl
split_at?-short (suc w) (b ∷ bs) h = rw (split_at?-short w bs (omega arith))
