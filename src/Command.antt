-- ===== src/Command.antt =====
-- The names that src/harness.cpp makes of a run: the file of its workload, the command that generates it,
-- and the tag of its published hash. Texts are lists of bytes.
pub mod Identity
pub mod Words
pub mod Flags
pub mod Arguments
pub mod Accepted
pub mod Spelled
pub mod Naming
use matching_engine_benchmar.Common.{
  ℕ, ◌+◌, ◌-◌, ◌/◌, Bool, true, false, ◌&&◌, ◌||◌, Option, none, some, List, [], ◌∷◌, ◌++◌, leb,
  ◌==◌, if◌then◌else◌,
}
use matching_engine_benchmar.Text.Decimal.{dec}

-- The characters that the scenario may have: letters, digits, `_` and `-`.
unfoldable pub is_name_char : ℕ → Bool
is_name_char c =
    leb b'a' c && leb c b'z'
    || leb b'A' c && leb c b'Z'
    || leb b'0' c && leb c b'9'
    || c == b'_'
    || c == b'-'

unfoldable pub all_name_chars : List ℕ → Bool
all_name_chars [] = true
all_name_chars (c ∷ cs) = is_name_char c && all_name_chars cs

-- The test on the scenario, which is not empty either.
unfoldable pub scenario_ok : List ℕ → Bool
scenario_ok [] = false
scenario_ok (c ∷ cs) = all_name_chars (c ∷ cs)

abbrev pub orders : List ℕ
orders = b'o' ∷ b'r' ∷ b'd' ∷ b'e' ∷ b'r' ∷ b's' ∷ b'_' ∷ []

abbrev pub bin : List ℕ
bin = b'.' ∷ b'b' ∷ b'i' ∷ b'n' ∷ []

abbrev pub reports_txt : List ℕ
reports_txt = b'_' ∷ b'r' ∷ b'e' ∷ b'p' ∷ b'o' ∷ b'r' ∷ b't' ∷ b's' ∷ b'.' ∷ b't' ∷ b'x' ∷ b't' ∷ []

abbrev pub generator : List ℕ
generator = b'.' ∷ b'/' ∷ b'g' ∷ b'e' ∷ b'n' ∷ b'e' ∷ b'r' ∷ b'a' ∷ b't' ∷ b'o' ∷ b'r' ∷ []

-- `workload_path`: orders_<scenario>_s<seed>_n<count>.bin
unfoldable pub workload_path : List ℕ → ℕ → ℕ → List ℕ
workload_path scenario seed count =
    orders ++ scenario ++ (b'_' ∷ b's' ∷ []) ++ dec seed ++ (b'_' ∷ b'n' ∷ []) ++ dec count ++ bin

-- `want_tag`: <scenario>_seed<seed>_count<count>_reports.txt
unfoldable pub want_tag : List ℕ → ℕ → ℕ → List ℕ
want_tag scenario seed count =
    scenario
    ++ (b'_' ∷ b's' ∷ b'e' ∷ b'e' ∷ b'd' ∷ [])
    ++ dec seed
    ++ (b'_' ∷ b'c' ∷ b'o' ∷ b'u' ∷ b'n' ∷ b't' ∷ [])
    ++ dec count
    ++ reports_txt

-- `cmd`, which the shell splits at blanks.
unfoldable pub command : List ℕ → ℕ → ℕ → List ℕ
command scenario seed count =
    generator
    ++ b' '
      ∷ (scenario
          ++ b' ' ∷ (workload_path scenario seed count ++ b' ' ∷ (dec count ++ b' ' ∷ dec seed)))

-- Before the workload is looked up: the file and the command, or a refusal.
unfoldable pub workload_request : List ℕ → ℕ → ℕ → Option (List ℕ × List ℕ)
workload_request scenario seed count =
    if scenario_ok scenario
    then some (workload_path scenario seed count, command scenario seed count)
    else none
