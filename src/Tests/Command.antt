-- ===== src/Tests/Command.antt =====
-- The names of a run of the scenario `a`.
use matching_engine_benchmar.Common.{
  ℕ, ◌≡◌, refl, ap, inl, true, Option, some, List, [], ◌∷◌, arith, ℤ, pos, ok,
}
use matching_engine_benchmar.Text.Decimal.{parse_dec, parse_dec-dec}
use matching_engine_benchmar.Run.{audit}
use matching_engine_benchmar.Verdict.{eq_bytes}
use matching_engine_benchmar.Command.Flags.{write_reference_flag, engine_flag, baseline_flag}
use matching_engine_benchmar.Command.Arguments.{
  Text, Options, defaults, parse_arguments, argument_loop, effect_of, check_options,
  path_is_under_reference,
}
use matching_engine_benchmar.Command.Accepted.{IsAccepted}
use matching_engine_benchmar.Command.Spelled.{IsNumeral, spelled, parse_arguments-spelled}
use matching_engine_benchmar.Command.Naming.{
  engine_path, engine_name, after_slash, strip, so, adapter, engine_name-engine_path,
}
use matching_engine_benchmar.Command.Identity.{workload_path-want_tag}

abbrev scenario : List ℕ
scenario = b'a' ∷ []

workload_path-want_tag_example :
    (scenario ≡ scenario) × (◌≡◌ {A = ℕ} 23 23) × (◌≡◌ {A = ℕ} 1000 1000)
workload_path-want_tag_example =
    workload_path-want_tag scenario scenario 23 1000 23 1000 (omega arith) (omega arith)
      (omega arith) (omega arith) (inl refl)

-- `atoi` on numerals without a sign, and a file system that resolves each path to one part.
abbrev atoi : Text → ℤ
atoi t = pos (parse_dec t)

numeral : IsNumeral parse_dec atoi
numeral = record {
  reads_u64 = λ n h. parse_dec-dec n (omega arith);
  reads_int = λ n h. ap pos (parse_dec-dec n (omega arith));
}

abbrev canonical : Text → Option (List Text)
canonical t = some (t ∷ [])

abbrev reference : Option (List Text)
reference = some ((b'r' ∷ []) ∷ [])

-- An audit of the engine `e`, with its output in `o`.
abbrev audited : Options
audited = record defaults {
  engine_arg = b'e' ∷ [];
  canonical_output_path = b'o' ∷ [];
  canonical_output_requested = true;
  mode = audit;
}

audited-IsAccepted : IsAccepted canonical reference audited
audited-IsAccepted = record {
  is_named = refl;
  is_requested = refl;
  is_outside = λ e. record {
    directory = (b'r' ∷ []) ∷ [];
    parts = (b'o' ∷ []) ∷ [];
    is_reference = refl;
    is_output = refl;
    is_apart = λ rest f. absurd (ground (arith, f));
  };
  is_single = λ e. absurd (ground (arith, e));
  is_by_baseline = λ e. absurd (ground (arith, e));
}

parse_arguments-spelled_example :
    parse_arguments canonical reference parse_dec atoi (spelled audited 2 3) ≡ ok audited
parse_arguments-spelled_example =
    parse_arguments-spelled parse_dec atoi numeral canonical reference audited 2 3 (omega arith)
      (omega arith) (omega arith) (omega arith) refl refl audited-IsAccepted

-- The reference asked for with a baseline `b` and an engine `e`.
abbrev both_given : Options
both_given = record defaults {
  engine_arg = b'e' ∷ [];
  baseline = b'b' ∷ [];
  write_reference = true;
}

abbrev both_arguments : List Text
both_arguments = write_reference_flag ∷ engine_flag ∷ (b'e' ∷ []) ∷ baseline_flag ∷ (b'b' ∷ []) ∷ []

both_given-parsed :
    parse_arguments canonical reference parse_dec atoi both_arguments ≡ ok both_given
unfolding parse_arguments argument_loop effect_of check_options eq_bytes path_is_under_reference
both_given-parsed = refl

-- The engine is what is loaded, under the name of the baseline.
both_given-loaded : (engine_path both_given ≡ b'e' ∷ []) × (engine_name both_given ≡ b'b' ∷ [])
unfolding engine_path engine_name after_slash strip eq_bytes
both_given-loaded = (refl, refl)

short_name : (strip so (b'b' ∷ []) ≡ b'b' ∷ []) × (strip adapter (b'b' ∷ []) ≡ b'b' ∷ [])
unfolding strip eq_bytes
short_name = (refl, refl)

engine_name-engine_path_example :
    (engine_name (record defaults { baseline = b'b' ∷ [] }) ≡ b'b' ∷ [])
    × (engine_name
          (record defaults { engine_arg = engine_path (record defaults { baseline = b'b' ∷ [] }) })
        ≡ b'b' ∷ [])
    × (engine_path
          (record defaults { engine_arg = engine_path (record defaults { baseline = b'b' ∷ [] }) })
        ≡ engine_path (record defaults { baseline = b'b' ∷ [] }))
engine_name-engine_path_example =
    engine_name-engine_path (b'b' ∷ []) (λ e. omega arith, tt) refl short_name.0 short_name.1
