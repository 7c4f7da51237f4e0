-- ===== src/Verdict/Tokens.antt =====
-- The lines of the file of published hashes as tokens: what is scanned can be printed, and scanned again.
use matching_engine_benchmar.Common.{
  ℕ, zero, suc, ◌≤◌, ◌≡◌, refl, inl, inr, Bool, true, false, Option, none, some, List, [], ◌∷◌,
  ◌++◌, map, arith, Bool-cases, Option-cases, length, All, All-append,
}
use matching_engine_benchmar.Verdict.{
  eq_bytes, all_hex, is_hash, find, emplace, read_lines, read_hash_file,
}
use matching_engine_benchmar.Verdict.Write.{
  is_blank, skip_blanks, token, both, scan_line, read_file, assign, lt_bytes, place, in_order,
  print_line,
}

abbrev IsPlain : List ℕ → Type 0
IsPlain = All (λ c. is_blank c ≡ false)

abbrev pub is_nil : List ℕ → Bool
is_nil [] = true
is_nil (x ∷ xs) = false

-- A text that a line can show as one token.
pub record IsToken (t : List ℕ) : Type 0 where
  pub is_some : is_nil t ≡ false
  pub is_short : length t ≤ 255
  pub is_plain : IsPlain t

token-IsPlain : (n : ℕ) (cs : List ℕ) → (length (token n cs).0 ≤ n) × IsPlain (token n cs).0
unfolding token
token-IsPlain zero cs = (omega arith, tt)
token-IsPlain (suc n) [] = (omega arith, tt)
token-IsPlain (suc n) (c ∷ cs) = elim (Bool-cases (is_blank c)) [
  | inl e ↦ rw e (omega arith, tt)
  | inr e ↦ let (short, plain) = token-IsPlain n cs in rw e (omega (arith, short), (e, plain))
]

-- A token before a blank.
token-append :
    (n : ℕ) (w : List ℕ) (c : ℕ) (rest : List ℕ)
    → length w ≤ n
    → IsPlain w
    → is_blank c ≡ true
    → token n (w ++ c ∷ rest) ≡ (w, c ∷ rest)
unfolding token
token-append zero [] c rest h p b = refl
token-append zero (x ∷ w) c rest h p b = absurd (omega (arith, h))
token-append (suc n) [] c rest h p b = rw b refl
token-append (suc n) (x ∷ w) c rest h p b =
    let plain = p.0 in
    let more = token-append n w c rest (omega (arith, h)) p.1 b in rw (plain, more) refl

skip_blanks-plain :
    (w rest : List ℕ) → is_nil w ≡ false → IsPlain w → skip_blanks (w ++ rest) ≡ w ++ rest
unfolding skip_blanks
skip_blanks-plain [] rest e p = absurd (ground (arith, e))
skip_blanks-plain (x ∷ w) rest e p = let plain = p.0 in rw plain refl

both_tokens : (h t : List ℕ) → is_nil h ≡ false → is_nil t ≡ false → both h t ≡ some (h, t)
both_tokens [] t a b = absurd (ground (arith, a))
both_tokens (c ∷ h) [] a b = absurd (ground (arith, b))
both_tokens (c ∷ h) (d ∷ t) a b = refl

pub scan_line-print_line :
    (t h : List ℕ) → IsToken t → IsToken h → scan_line (print_line (t, h)) ≡ some (h, t)
unfolding scan_line print_line
scan_line-print_line t h p q =
    let first = skip_blanks-plain h (b' ' ∷ b' ' ∷ (t ++ b'\n' ∷ [])) q.is_some q.is_plain in
    let h_token = token-append 255 h b' ' (b' ' ∷ (t ++ b'\n' ∷ [])) q.is_short q.is_plain refl in
    let second : skip_blanks (b' ' ∷ b' ' ∷ (t ++ b'\n' ∷ [])) ≡ t ++ b'\n' ∷ [] =
      unfold skip_blanks in skip_blanks-plain t (b'\n' ∷ []) p.is_some p.is_plain in
    let t_token = token-append 255 t b'\n' [] p.is_short p.is_plain refl in
    rw (first, h_token, second, t_token) (both_tokens h t q.is_some p.is_some)

-- An entry that a line can show.
abbrev pub IsEntry : List ℕ × List ℕ → Type 0
IsEntry e = IsToken e.0 × (is_hash e.1 ≡ true)

abbrev IsScanned : Option (List ℕ × List ℕ) → Type 0
IsScanned none = Unit {0}
IsScanned (some e) = IsToken e.1

both-IsScanned : (h t : List ℕ) → length t ≤ 255 → IsPlain t → IsScanned (both h t)
both-IsScanned [] t l p = tt
both-IsScanned (c ∷ h) [] l p = tt
both-IsScanned (c ∷ h) (d ∷ t) l p = record { is_some = refl; is_short = l; is_plain = p }

scan_line-IsScanned : (line : List ℕ) → IsScanned (scan_line line)
unfolding scan_line
scan_line-IsScanned line =
    let more = skip_blanks (token 255 (skip_blanks line)).1 in
    let (short, plain) = token-IsPlain 255 more in
    both-IsScanned (token 255 (skip_blanks line)).0 (token 255 more).0 short plain

emplace-IsEntry :
    (t h : List ℕ) (es : List (List ℕ × List ℕ))
    → IsToken t
    → is_hash h ≡ true
    → All IsEntry es
    → All IsEntry (emplace t h es)
unfolding emplace
emplace-IsEntry t h es p q k = elim (Option-cases (find t es)) [
  | inl e ↦ rw (emplace, e) (All-append IsEntry es ((t, h) ∷ []) k ((p, q), tt))
  | inr (g, e) ↦ rw (emplace, e) k
]

read_lines-IsEntry :
    (ls : List (Option (List ℕ × List ℕ))) (out : List (List ℕ × List ℕ))
    → All IsScanned ls
    → All IsEntry out
    → All IsEntry (read_lines ls out)
unfolding read_lines
read_lines-IsEntry [] out h k = k
read_lines-IsEntry (none ∷ ls) out h k = read_lines-IsEntry ls out h.1 k
read_lines-IsEntry (some (g, t) ∷ ls) out h k = elim (Bool-cases (is_hash g)) [
  | inl e ↦ rw e (read_lines-IsEntry ls (emplace t g out) h.1 (emplace-IsEntry t g out h.0 e k))
  | inr e ↦ rw e (read_lines-IsEntry ls out h.1 k)
]

pub read_file-IsEntry : (file : Option (List (List ℕ))) → All IsEntry (read_file file)
unfolding read_file read_hash_file
read_file-IsEntry none = tt
read_file-IsEntry (some ls) = read_lines-IsEntry (map scan_line ls) [] (scanned ls) tt
  where
    scanned : (ls : List (List ℕ)) → All IsScanned (map scan_line ls)
    scanned [] = tt
    scanned (l ∷ ls) = (scan_line-IsScanned l, scanned ls)

pub assign-IsEntry :
    (tag hash : List ℕ) (es : List (List ℕ × List ℕ))
    → IsEntry (tag, hash)
    → All IsEntry es
    → All IsEntry (assign tag hash es)
unfolding assign
assign-IsEntry tag hash [] e k = (e, tt)
assign-IsEntry tag hash (x ∷ es) e k = elim (Bool-cases (eq_bytes x.0 tag)) [
  | inl p ↦ rw p ((k.0.0, e.1), k.1)
  | inr p ↦ rw p (k.0, assign-IsEntry tag hash es e k.1)
]

pub in_order-IsEntry : (es : List (List ℕ × List ℕ)) → All IsEntry es → All IsEntry (in_order es)
unfolding in_order
in_order-IsEntry [] h = tt
in_order-IsEntry (e ∷ es) h = placed e (in_order es) h.0 (in_order-IsEntry es h.1)
  where
    placed :
        (e : List ℕ × List ℕ) (xs : List (List ℕ × List ℕ))
        → IsEntry e
        → All IsEntry xs
        → All IsEntry (place e xs)
    placed e [] p q = (p, tt)
    placed e (x ∷ xs) p q = elim (Bool-cases (lt_bytes x.0 e.0)) [
      | inl l ↦ rw l (q.0, placed e xs p q.1)
      | inr l ↦ rw l (p, q)
    ]

hex-IsPlain : (h : List ℕ) → all_hex h ≡ true → IsPlain h
unfolding all_hex
hex-IsPlain [] k = tt
hex-IsPlain (x ∷ xs) k = (ground (arith, k), hex-IsPlain xs (ground (arith, k)))

pub hash-IsToken : (h : List ℕ) → is_hash h ≡ true → IsToken h
unfolding is_hash
hash-IsToken h e = record {
  is_some = some_hex h (ground arith);
  is_short = ground arith;
  is_plain = hex-IsPlain h (ground arith);
}
  where
    some_hex : (h : List ℕ) → length h ≡ 64 → is_nil h ≡ false
    some_hex [] k = absurd (omega (arith, k))
    some_hex (x ∷ xs) k = refl
