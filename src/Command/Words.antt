-- ===== src/Command/Words.antt =====
-- The command that generates a workload has exactly its five words, whatever the scenario.
use matching_engine_benchmar.Common.{ℕ, ◌<◌, ◌≡◌, ◌≢◌, Bool, true, ◌||◌, List, [], ◌∷◌, ◌==◌, All}
use matching_engine_benchmar.Command.{is_name_char}

-- A character that the shell takes as it is: one of a scenario, a dot or a slash.
abbrev pub is_plain : ℕ → Bool
is_plain c = is_name_char c || (c == b'.' || c == b'/')

abbrev pub IsPlainWord : List ℕ → Type 0
IsPlainWord = All (λ c. is_plain c ≡ true)

-- What a shell takes for itself: its operators, quotes, patterns, expansions, comments and blanks.
abbrev specials : List ℕ
specials =
    b'|' ∷ b'&' ∷ b';' ∷ b'<' ∷ b'>' ∷ b'(' ∷ b')' ∷ b'$' ∷ b'`' ∷ 92 ∷ 34 ∷ 39 ∷ b' ' ∷ 9 ∷ 10
    ∷ b'*' ∷ b'?' ∷ b'[' ∷ b']' ∷ b'#' ∷ b'~' ∷ b'=' ∷ b'%' ∷ b'!' ∷ b'{' ∷ b'}' ∷ b'^' ∷ []

-- A printed character that a shell has no use for.
abbrev pub IsLiteral : ℕ → Type 0
IsLiteral c = (32 < c) × (c < 127) × All (λ s. c ≢ s) specials
