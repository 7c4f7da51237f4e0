-- ===== src/Verdict/Write.antt =====
-- The write of the reference in src/harness.cpp: the file of published hashes with the hash of the run merged
-- in. A file is the list of its lines, as `fgets` gives them: those that are written have fewer than 511
-- bytes.
use matching_engine_benchmar.Common.{
  ℕ, zero, suc, Bool, true, false, ◌&&◌, ◌||◌, Option, none, some, List, [], ◌∷◌, ◌++◌, map, ltb,
  leb, ◌==◌, if◌then◌else◌,
}
use matching_engine_benchmar.Verdict.{eq_bytes, read_hash_file, Status, reference_written}

abbrev pub is_blank : ℕ → Bool
is_blank c = c == b' ' || leb 9 c && leb c 13

unfoldable pub skip_blanks : List ℕ → List ℕ
skip_blanks [] = []
skip_blanks (c ∷ cs) = if is_blank c then skip_blanks cs else c ∷ cs

-- At most `n` characters up to a blank, and what follows: `%255s` of `sscanf`, after the blanks.
unfoldable pub token : ℕ → List ℕ → List ℕ × List ℕ
token zero cs = ([], cs)
token (suc n) [] = ([], [])
token (suc n) (c ∷ cs) =
    let (t, more) = token n cs in if is_blank c then ([], c ∷ cs) else (c ∷ t, more)

abbrev pub both : List ℕ → List ℕ → Option (List ℕ × List ℕ)
both [] t = none
both (c ∷ h) [] = none
both (c ∷ h) (d ∷ t) = some (c ∷ h, d ∷ t)

-- The two first tokens of a line, if it has two.
unfoldable pub scan_line : List ℕ → Option (List ℕ × List ℕ)
scan_line line =
    let (h, more) = token 255 (skip_blanks line) in
    let (t, rest) = token 255 (skip_blanks more) in both h t

-- `read_hash_file` of a file, or of none.
unfoldable pub read_file : Option (List (List ℕ)) → List (List ℕ × List ℕ)
read_file none = read_hash_file none
read_file (some ls) = read_hash_file (some (map scan_line ls))

-- `entries[tag] = hash`.
unfoldable pub assign : List ℕ → List ℕ → List (List ℕ × List ℕ) → List (List ℕ × List ℕ)
assign tag hash [] = (tag, hash) ∷ []
assign tag hash (e ∷ es) = if eq_bytes e.0 tag then (e.0, hash) ∷ es else e ∷ assign tag hash es

-- The order of the keys of a `std::map`.
unfoldable pub lt_bytes : List ℕ → List ℕ → Bool
lt_bytes [] [] = false
lt_bytes [] (y ∷ ys) = true
lt_bytes (x ∷ xs) [] = false
lt_bytes (x ∷ xs) (y ∷ ys) = ltb x y || x == y && lt_bytes xs ys

abbrev pub place : List ℕ × List ℕ → List (List ℕ × List ℕ) → List (List ℕ × List ℕ)
place e [] = e ∷ []
place e (x ∷ xs) = if lt_bytes x.0 e.0 then x ∷ place e xs else e ∷ x ∷ xs

-- The entries in the order in which the map is gone through.
unfoldable pub in_order : List (List ℕ × List ℕ) → List (List ℕ × List ℕ)
in_order [] = []
in_order (e ∷ es) = place e (in_order es)

unfoldable pub print_line : List ℕ × List ℕ → List ℕ
print_line e = e.1 ++ b' ' ∷ b' ' ∷ (e.0 ++ b'\n' ∷ [])

-- Whether the temporary file can be opened, flushed and renamed. The calls of `fprintf` and `fclose`, whose
-- results the program does not look at, are taken to succeed.
pub record Outcomes : Type 0 where
  pub opens : Bool
  pub flushes : Bool
  pub renames : Bool

-- The file after the write, and the status of the run.
unfoldable pub write_reference :
    Outcomes → List ℕ → List ℕ → Option (List (List ℕ)) → Option (List (List ℕ)) × Status
write_reference out want_tag computed file =
    let entries = assign want_tag computed (read_file file) in
    let written = map print_line (in_order entries) in
    if out.opens
    then (if out.flushes && out.renames
        then (some written, reference_written)
        else (file, reference_written))
    else (file, reference_written)
