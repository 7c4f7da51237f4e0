-- ===== src/Command/Spelled.antt =====
-- Every choice of options that the command line of src/harness.cpp may let through can be asked for.
use matching_engine_benchmar.Common.{
  ℕ, ◌^◌, ◌<◌, ◌≡◌, refl, sym, ◌∙◌, Bool, true, false, not, Option, List, [], ◌∷◌, ◌++◌,
  if◌then◌else◌, ℤ, pos, ok,
}
use mathlib.Core.Bool.{false≢true}
use matching_engine_benchmar.Run.{Mode, perf, audit}
use matching_engine_benchmar.Text.Decimal.{dec}
use matching_engine_benchmar.Verdict.{eq_bytes}
use matching_engine_benchmar.Command.Flags.{
  engine_flag, baseline_flag, scenario_flag, seed_flag, count_flag, matcher_core_flag,
  drainer_core_flag, write_reference_flag, write_canonical_output_flag, mode_flag, perf_name,
  audit_name,
}
use matching_engine_benchmar.Command.Arguments.{
  Text, is_empty, Options, defaults, effect_of, argument_loop, parse_arguments,
}
use matching_engine_benchmar.Command.Accepted.{IsAccepted, IsAccepted-check_options}

-- `strtoull` and `atoi` read the numerals of their types.
pub record IsNumeral (strtoull : Text → ℕ) (atoi : Text → ℤ) : Type 0 where
  pub reads_u64 : (n : ℕ) → n < 2 ^ 64 → strtoull (dec n) ≡ n
  pub reads_int : (n : ℕ) → n < 2 ^ 31 → atoi (dec n) ≡ pos n

abbrev mode_name : Mode → Text
mode_name perf = perf_name
mode_name audit = audit_name

-- The arguments that ask for all the options.
pub spelled : Options → ℕ → ℕ → List Text
spelled o matcher drainer =
    engine_flag
      ∷ o.engine_arg
      ∷ baseline_flag
      ∷ o.baseline
      ∷ scenario_flag
      ∷ o.scenario
      ∷ seed_flag
      ∷ dec o.seed
      ∷ count_flag
      ∷ dec o.count
      ∷ matcher_core_flag
      ∷ dec matcher
      ∷ drainer_core_flag
      ∷ dec drainer
      ∷ mode_flag
      ∷ mode_name o.mode
      ∷ (if o.write_reference then write_reference_flag ∷ [] else [])
    ++ (if o.canonical_output_requested
        then write_canonical_output_flag ∷ o.canonical_output_path ∷ []
        else [])

module _ (strtoull : Text → ℕ) (atoi : Text → ℤ) (numeral : IsNumeral strtoull atoi) where
  last_arguments :
      (o : Options) (write requested : Bool) (path : Text) (mode : Mode)
      → requested ≡ not (is_empty path)
      → argument_loop strtoull atoi
          (mode_flag ∷ mode_name mode ∷ (if write then write_reference_flag ∷ [] else [])
            ++ (if requested then write_canonical_output_flag ∷ path ∷ [] else []))
          (record o {
            canonical_output_path = [];
            write_reference = false;
            canonical_output_requested = false;
            mode = perf;
          })
        ≡ ok (record o {
          canonical_output_path = path;
          write_reference = write;
          canonical_output_requested = requested;
          mode = mode;
        })
  unfolding argument_loop effect_of eq_bytes
  last_arguments o true true path perf e = refl
  last_arguments o true false [] perf e = refl
  last_arguments o true false (c ∷ path) perf e = absurd (false≢true e)
  last_arguments o true true path audit e = refl
  last_arguments o true false [] audit e = refl
  last_arguments o true false (c ∷ path) audit e = absurd (false≢true e)
  last_arguments o false true path perf e = refl
  last_arguments o false false [] perf e = refl
  last_arguments o false false (c ∷ path) perf e = absurd (false≢true e)
  last_arguments o false true path audit e = refl
  last_arguments o false false [] audit e = refl
  last_arguments o false false (c ∷ path) audit e = absurd (false≢true e)

  argument_loop-spelled :
      (o : Options) (matcher drainer : ℕ)
      → o.seed < 2 ^ 64
      → o.count < 2 ^ 64
      → matcher < 2 ^ 31
      → drainer < 2 ^ 31
      → o.matcher_core ≡ pos matcher
      → o.drainer_core ≡ pos drainer
      → o.canonical_output_requested ≡ not (is_empty o.canonical_output_path)
      → argument_loop strtoull atoi (spelled o matcher drainer) defaults ≡ ok o
  unfolding argument_loop effect_of spelled eq_bytes
  argument_loop-spelled o matcher drainer a b c d m r e =
      let read : Options = record o {
        seed = strtoull (dec o.seed);
        count = strtoull (dec o.count);
        matcher_core = atoi (dec matcher);
        drainer_core = atoi (dec drainer);
      } in
      let seed = numeral.reads_u64 o.seed a in
      let count = numeral.reads_u64 o.count b in
      let matcher_core = numeral.reads_int matcher c ∙ sym m in
      let drainer_core = numeral.reads_int drainer d ∙ sym r in
      last_arguments read o.write_reference o.canonical_output_requested o.canonical_output_path
        o.mode e
      ∙ (λ i. ok (record o {
        seed = seed i;
        count = count i;
        matcher_core = matcher_core i;
        drainer_core = drainer_core i;
      }))

  -- Options that name an engine or a baseline, ask for the canonical output just when it has a path, which is
  -- not under the reference directory, and for the reference only with a baseline and without such an
  -- output, are what the program reads from the arguments that spell them out; for numerals that are read
  -- as they are written, seeds and counts of 64 bits, and cores below 2 ^ 31.
  pub parse_arguments-spelled :
      (canonical : Text → Option (List Text)) (reference : Option (List Text)) (o : Options)
      (matcher drainer : ℕ)
      → o.seed < 2 ^ 64
      → o.count < 2 ^ 64
      → matcher < 2 ^ 31
      → drainer < 2 ^ 31
      → o.matcher_core ≡ pos matcher
      → o.drainer_core ≡ pos drainer
      → IsAccepted canonical reference o
      → parse_arguments canonical reference strtoull atoi (spelled o matcher drainer) ≡ ok o
  unfolding parse_arguments
  parse_arguments-spelled canonical reference o matcher drainer a b c d m r h =
      rw (argument_loop-spelled o matcher drainer a b c d m r h.is_requested)
        (IsAccepted-check_options canonical reference o h)
