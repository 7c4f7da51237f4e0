-- ===== src/Verdict.antt =====
-- The verdict of src/harness.cpp: the published hashes that are read before the engine is loaded, the
-- status of the run's hash, and the conditions of a valid run. Texts are lists of bytes.
pub mod Published
pub mod Write
pub mod Tokens
pub mod Merged
use matching_engine_benchmar.Common.{
  ℕ, ◌+◌, Bool, true, false, ◌&&◌, ◌||◌, Option, none, some, List, [], ◌∷◌, ◌++◌, leb, ◌==◌,
  if◌then◌else◌, length,
}
use matching_engine_benchmar.Run.{Mode, perf, audit}

-- Equality of two strings.
unfoldable pub eq_bytes : List ℕ → List ℕ → Bool
eq_bytes [] [] = true
eq_bytes [] (y ∷ ys) = false
eq_bytes (x ∷ xs) [] = false
eq_bytes (x ∷ xs) (y ∷ ys) = x == y && eq_bytes xs ys

-- A lowercase hexadecimal digit.
abbrev pub is_hex : ℕ → Bool
is_hex c = leb 48 c && leb c 57 || leb 97 c && leb c 102

unfoldable pub all_hex : List ℕ → Bool
all_hex [] = true
all_hex (c ∷ cs) = is_hex c && all_hex cs

-- The test on the first token of a line.
unfoldable pub is_hash : List ℕ → Bool
is_hash h = length h == 64 && all_hex h

-- `find` of the map, an association list of tags and hashes.
unfoldable pub find : List ℕ → List (List ℕ × List ℕ) → Option (List ℕ)
find tag [] = none
find tag (e ∷ es) = if eq_bytes e.0 tag then some e.1 else find tag es

-- `emplace`, which keeps the entry that is there.
unfoldable pub emplace : List ℕ → List ℕ → List (List ℕ × List ℕ) → List (List ℕ × List ℕ)
emplace tag hash es = elim (find tag es) [ none ↦ es ++ (tag, hash) ∷ [] | some h ↦ es ]

-- The loop of `read_hash_file` over the lines. `sscanf` gives the two first tokens of a line, the hash
-- and the tag, or `none` where there are fewer.
unfoldable pub read_lines :
    List (Option (List ℕ × List ℕ)) → List (List ℕ × List ℕ) → List (List ℕ × List ℕ)
read_lines [] out = out
read_lines (none ∷ ls) out = read_lines ls out
read_lines (some (h, t) ∷ ls) out = read_lines ls (if is_hash h then emplace t h out else out)

-- `read_hash_file`; the argument is `none` where the file cannot be opened.
unfoldable pub read_hash_file : Option (List (Option (List ℕ × List ℕ))) → List (List ℕ × List ℕ)
read_hash_file none = []
read_hash_file (some ls) = read_lines ls []

pub data Status : Type 0 where
  reference_written no_reference pass fail : Status

-- The status of a run that does not write the reference.
unfoldable pub hash_status : List (List ℕ × List ℕ) → List ℕ → List ℕ → Status
hash_status entries want_tag computed = elim (find want_tag entries) [
  | none ↦ no_reference
  | some expected ↦ if eq_bytes expected computed then pass else fail
]

-- The other findings of a run that the verdict looks at.
pub record Checks : Type 0 where
  pub audit_ran : Bool
  pub audit_passed : Bool
  pub affinity_ok : Bool
  pub prestart_book_empty : Bool
  pub prebuild_time_ok : Bool
  pub report_buffer_ok : Bool
  pub probe_time_ok : Bool
  pub canonical_output_ok : Bool

unfoldable pub is_pass : Status → Bool
is_pass reference_written = false
is_pass no_reference = false
is_pass pass = true
is_pass fail = false

unfoldable pub audit_ok : Mode → Checks → Bool
audit_ok perf c = true
audit_ok audit c = c.audit_ran && c.audit_passed

-- `valid`.
unfoldable pub is_valid : Mode → Status → Checks → Bool
is_valid mode status c =
    is_pass status
    && audit_ok mode c
    && c.affinity_ok
    && c.prestart_book_empty
    && c.prebuild_time_ok
    && c.report_buffer_ok
    && c.probe_time_ok
    && c.canonical_output_ok
