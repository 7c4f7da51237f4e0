-- ===== src/Command/Arguments.antt =====
-- The command line of src/harness.cpp: the loop over the arguments, the checks on what they ask for
-- together, and the path and the name of the engine. Each refusal ends the program with exit code 2.
use matching_engine_benchmar.Common.{
  ℕ, Bool, true, false, not, ◌&&◌, Option, none, some, List, [], ◌∷◌, if◌then◌else◌, ℤ, pos, Result,
  ok, err, ◌>>=◌, check,
}
use matching_engine_benchmar.Run.{Mode, perf, audit}
use matching_engine_benchmar.Verdict.{eq_bytes}
use matching_engine_benchmar.Command.Flags.{
  engine_flag, baseline_flag, scenario_flag, seed_flag, count_flag, matcher_core_flag,
  drainer_core_flag, write_reference_flag, write_canonical_output_flag, mode_flag, perf_name,
  audit_name, normal_name,
}

abbrev pub Text : Type 0
Text = List ℕ

abbrev pub is_empty : {A : Type 0} → List A → Bool
is_empty [] = true
is_empty (x ∷ xs) = false

-- The locals of `main`.
pub record Options : Type 0 where
  pub engine_arg : Text
  pub baseline : Text
  pub scenario : Text
  pub canonical_output_path : Text
  pub seed : ℕ
  pub count : ℕ
  pub matcher_core : ℤ
  pub drainer_core : ℤ
  pub write_reference : Bool
  pub canonical_output_requested : Bool
  pub mode : Mode

abbrev pub defaults : Options
defaults = record {
  engine_arg = [];
  baseline = [];
  scenario = normal_name;
  canonical_output_path = [];
  seed = 23;
  count = 1000000;
  matcher_core = pos 2;
  drainer_core = pos 3;
  write_reference = false;
  canonical_output_requested = false;
  mode = perf;
}

pub data Refusal : Type 0 where
  unknown_mode unknown_argument : Text → Refusal
  usage empty_output two_outputs output_under_reference reference_of_engine : Refusal

-- What an argument does: it takes the next one, or the empty text after the last; or it stands alone; or
-- it is refused.
pub data Effect : Type 0 where
  takes_next : (Text → Options → Result Refusal Options) → Effect
  stands_alone : (Options → Options) → Effect
  refused : Effect

abbrev pub set_mode : Text → Options → Result Refusal Options
set_mode m o =
    if eq_bytes m perf_name
    then ok (record o { mode = perf })
    else if eq_bytes m audit_name
    then ok (record o { mode = audit })
    else err (unknown_mode m)

-- `path_is_under_reference`: the parts of the paths as the file system resolves them, none on an error.
abbrev pub starts_with : List Text → List Text → Bool
starts_with [] output = true
starts_with (part ∷ reference) [] = false
starts_with (part ∷ reference) (other ∷ output) =
    eq_bytes part other && starts_with reference output

abbrev pub is_under : Option (List Text) → Option (List Text) → Bool
is_under none output = true
is_under (some reference) none = true
is_under (some reference) (some output) = starts_with reference output

-- `strtoull` at base 10 and `atoi`.
module _ (strtoull : Text → ℕ) (atoi : Text → ℤ) where
  unfoldable pub effect_of : Text → Effect
  effect_of a =
      if eq_bytes a engine_flag
      then takes_next (λ x o. ok (record o { engine_arg = x }))
      else if eq_bytes a baseline_flag
      then takes_next (λ x o. ok (record o { baseline = x }))
      else if eq_bytes a scenario_flag
      then takes_next (λ x o. ok (record o { scenario = x }))
      else if eq_bytes a seed_flag
      then takes_next (λ x o. ok (record o { seed = strtoull x }))
      else if eq_bytes a count_flag
      then takes_next (λ x o. ok (record o { count = strtoull x }))
      else if eq_bytes a matcher_core_flag
      then takes_next (λ x o. ok (record o { matcher_core = atoi x }))
      else if eq_bytes a drainer_core_flag
      then takes_next (λ x o. ok (record o { drainer_core = atoi x }))
      else if eq_bytes a write_reference_flag
      then stands_alone (λ o. record o { write_reference = true })
      else if eq_bytes a write_canonical_output_flag
      then takes_next
          (λ x o. ok (record o { canonical_output_requested = true; canonical_output_path = x }))
      else if eq_bytes a mode_flag
      then takes_next set_mode
      else refused

  unfoldable pub argument_loop : List Text → Options → Result Refusal Options
  argument_loop [] o = ok o
  argument_loop (a ∷ []) o = elim (effect_of a) [
    | takes_next f ↦ f [] o
    | stands_alone g ↦ ok (g o)
    | refused ↦ err (unknown_argument a)
  ]
  argument_loop (a ∷ x ∷ more) o = elim (effect_of a) [
    | takes_next f ↦ f x o >>= (λ o'. argument_loop more o')
    | stands_alone g ↦ argument_loop (x ∷ more) (g o)
    | refused ↦ err (unknown_argument a)
  ]

-- `std::filesystem::weakly_canonical` on the output path and on `reference`.
module _ (canonical : Text → Option (List Text)) (reference : Option (List Text)) where
  unfoldable pub path_is_under_reference : Text → Bool
  path_is_under_reference path = is_under reference (canonical path)

  -- The checks after the loop.
  unfoldable pub check_options : Options → Result Refusal Options
  check_options o =
      let named_output = not (is_empty o.canonical_output_path) in
      check (not (is_empty o.engine_arg && is_empty o.baseline)) usage (
        check (not (o.canonical_output_requested && not named_output)) empty_output (
          check (not (o.write_reference && named_output)) two_outputs (
            check (not (named_output && path_is_under_reference o.canonical_output_path))
              output_under_reference
              (check (not (o.write_reference && is_empty o.baseline)) reference_of_engine (ok o)))))

  unfoldable pub parse_arguments : (Text → ℕ) → (Text → ℤ) → List Text → Result Refusal Options
  parse_arguments strtoull atoi args = argument_loop strtoull atoi args defaults >>= check_options
