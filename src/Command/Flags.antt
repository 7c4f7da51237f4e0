-- ===== src/Command/Flags.antt =====
-- The words of the command line of src/harness.cpp, and `perf`, `audit` and `normal`.
use matching_engine_benchmar.Common.{ℕ, List, [], ◌∷◌}

abbrev pub engine_flag : List ℕ
engine_flag = b'-' ∷ b'-' ∷ b'e' ∷ b'n' ∷ b'g' ∷ b'i' ∷ b'n' ∷ b'e' ∷ []

abbrev pub baseline_flag : List ℕ
baseline_flag = b'-' ∷ b'-' ∷ b'b' ∷ b'a' ∷ b's' ∷ b'e' ∷ b'l' ∷ b'i' ∷ b'n' ∷ b'e' ∷ []

abbrev pub scenario_flag : List ℕ
scenario_flag = b'-' ∷ b'-' ∷ b's' ∷ b'c' ∷ b'e' ∷ b'n' ∷ b'a' ∷ b'r' ∷ b'i' ∷ b'o' ∷ []

abbrev pub seed_flag : List ℕ
seed_flag = b'-' ∷ b'-' ∷ b's' ∷ b'e' ∷ b'e' ∷ b'd' ∷ []

abbrev pub count_flag : List ℕ
count_flag = b'-' ∷ b'-' ∷ b'c' ∷ b'o' ∷ b'u' ∷ b'n' ∷ b't' ∷ []

abbrev pub matcher_core_flag : List ℕ
matcher_core_flag =
    b'-' ∷ b'-' ∷ b'm' ∷ b'a' ∷ b't' ∷ b'c' ∷ b'h' ∷ b'e' ∷ b'r' ∷ b'-' ∷ b'c' ∷ b'o' ∷ b'r' ∷ b'e'
    ∷ []

abbrev pub drainer_core_flag : List ℕ
drainer_core_flag =
    b'-' ∷ b'-' ∷ b'd' ∷ b'r' ∷ b'a' ∷ b'i' ∷ b'n' ∷ b'e' ∷ b'r' ∷ b'-' ∷ b'c' ∷ b'o' ∷ b'r' ∷ b'e'
    ∷ []

abbrev pub write_reference_flag : List ℕ
write_reference_flag =
    b'-' ∷ b'-' ∷ b'w' ∷ b'r' ∷ b'i' ∷ b't' ∷ b'e' ∷ b'-' ∷ b'r' ∷ b'e' ∷ b'f' ∷ b'e' ∷ b'r' ∷ b'e'
    ∷ b'n' ∷ b'c' ∷ b'e' ∷ []

abbrev pub write_canonical_output_flag : List ℕ
write_canonical_output_flag =
    b'-' ∷ b'-' ∷ b'w' ∷ b'r' ∷ b'i' ∷ b't' ∷ b'e' ∷ b'-' ∷ b'c' ∷ b'a' ∷ b'n' ∷ b'o' ∷ b'n' ∷ b'i'
    ∷ b'c' ∷ b'a' ∷ b'l' ∷ b'-' ∷ b'o' ∷ b'u' ∷ b't' ∷ b'p' ∷ b'u' ∷ b't' ∷ []

abbrev pub mode_flag : List ℕ
mode_flag = b'-' ∷ b'-' ∷ b'm' ∷ b'o' ∷ b'd' ∷ b'e' ∷ []

abbrev pub perf_name : List ℕ
perf_name = b'p' ∷ b'e' ∷ b'r' ∷ b'f' ∷ []

abbrev pub audit_name : List ℕ
audit_name = b'a' ∷ b'u' ∷ b'd' ∷ b'i' ∷ b't' ∷ []

abbrev pub normal_name : List ℕ
normal_name = b'n' ∷ b'o' ∷ b'r' ∷ b'm' ∷ b'a' ∷ b'l' ∷ []
