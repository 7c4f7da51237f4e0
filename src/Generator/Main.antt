-- ===== src/Generator/Main.antt =====
-- `main` of workload/generator.cpp: the command line, the generation and the write of the file.
use Prim.Native.String.{String}
use text.Mathlib.Text.{◌==◌ as str_eq}
use matching_engine_benchmar.Common.{
  ℕ, zero, suc, ◌-◌, ◌*◌, ◌^◌, ◌≤◌, ◌<◌, ◌≡◌, inl, inr, Bool, true, Option, none, some, List, [],
  ◌∷◌, arith, ltb, if◌then◌else◌, Option-cases, ok,
}
use matching_engine_benchmar.Workload.{Disk, write_binary, load_workload}
use matching_engine_benchmar.Workload.RoundTrip.{all_loaded}
use matching_engine_benchmar.Generator.{Draws, generate}
use matching_engine_benchmar.Generator.Shuffle.{IsScaled}
use matching_engine_benchmar.Generator.Accepted.{IsPriced, load_workload-generate}

-- The rows of `SCENARIOS`, by their names.
pub data Scenario : Type 0 where
  static normal swing_25 swing_40 flash_crash : Scenario

unfoldable pub find_scenario : String → Option Scenario
find_scenario name =
    if str_eq name "static"
    then some static
    else if str_eq name "normal"
    then some normal
    else if str_eq name "swing-25"
    then some swing_25
    else if str_eq name "swing-40"
    then some swing_40
    else if str_eq name "flash-crash"
    then some flash_crash
    else none

abbrev pub default_count : ℕ
default_count = 1000000

abbrev pub default_seed : ℕ
default_seed = 23

-- What ends the program: its exit code is 2 for the first four, 1 for the fifth, else 0.
pub data Exit : Type 0 where
  usage unknown_scenario bad_count bad_seed write_failed : Exit
  written : List ℕ → Exit

-- An argument that may be left out; `numeral` is `strtoull` at base 10.
unfoldable pub number_or : (String → ℕ) → ℕ → ℕ → List String → ℕ
number_or numeral default zero [] = default
number_or numeral default zero (a ∷ more) = numeral a
number_or numeral default (suc i) [] = default
number_or numeral default (suc i) (a ∷ more) = number_or numeral default i more

-- How the program ends by what the write says, with the file that it leaves.
abbrev pub exit_of : Bool × Option (List ℕ) → Exit
exit_of (good, none) = write_failed
exit_of (good, some bs) = if good then written bs else write_failed

module _ {R M : Type 0} (numeral : String → ℕ) (draws : Scenario → ℕ → Draws R M) (seeded : ℕ → R)
    (disk : Disk) where
  -- The arguments after the program's name. The draws depend on the scenario and the count, by way of
  -- the walk's volatility, and the state of the generator on the seed.
  unfoldable pub generator_main : List String → Exit
  generator_main [] = usage
  generator_main (scenario ∷ []) = usage
  generator_main (scenario ∷ out_path ∷ rest) =
      let count = number_or numeral default_count 0 rest in
      let seed = number_or numeral default_seed 1 rest in
      elim (find_scenario scenario) [
        | none ↦ unknown_scenario
        | some sc ↦
            if ltb count 2
            then bad_count
            else if ltb (2 ^ 32 - 1) seed
            then bad_seed
            else exit_of (write_binary disk (generate (draws sc count) count (seeded seed)))
      ]

  -- A run that ends well was given a scenario that is known, a count of at least 2 and a seed of 32 bits,
  -- and the file that it leaves is the generated workload, which the harness accepts for up to
  -- 20,000,000 new orders; for scaled draws below their bound and mid-prices of at most 62 bits.
  pub generator_main-written :
      ((sc : Scenario) (n : ℕ) → IsScaled (draws sc n))
      → ((sc : Scenario) (n : ℕ) → IsPriced (draws sc n))
      → (scenario out_path : String) (rest : List String) (bs : List ℕ)
      → number_or numeral default_count 0 rest ≤ 20 * 1000 * 1000
      → generator_main (scenario ∷ out_path ∷ rest) ≡ written bs
      → let count = number_or numeral default_count 0 rest in
        let seed = number_or numeral default_seed 1 rest in
        (sc : Scenario) × (find_scenario scenario ≡ some sc)
        × (2 ≤ count)
        × (seed < 2 ^ 32)
        × (load_workload (some bs)
            ≡ ok (all_loaded 0 (generate (draws sc count) count (seeded seed))))
  unfolding generator_main
  generator_main-written scaled priced scenario out_path rest bs few e =
      let count = number_or numeral default_count 0 rest in
      let seed = number_or numeral default_seed 1 rest in
      elim (Option-cases (find_scenario scenario)) [
        | inl n ↦ absurd (ground (arith, n, e))
        | inr (sc, s) ↦
            let out = write_binary disk (generate (draws sc count) count (seeded seed)) in
            let wrote = written_by count seed out bs (ground (arith, s, e)) in
            (
              sc,
              s,
              wrote.0,
              wrote.1,
              load_workload-generate (draws sc count) (scaled sc count) (priced sc count) count
                  (seeded seed) disk bs (omega (arith, wrote.0)) few wrote.2,
            )
      ]
    where
      written_by :
          (count seed : ℕ) (out : Bool × Option (List ℕ)) (bs : List ℕ)
          → (if ltb count 2
              then bad_count
              else if ltb (2 ^ 32 - 1) seed
              then bad_seed
              else exit_of out)
            ≡ written bs
          → (2 ≤ count) × (seed < 2 ^ 32) × (out ≡ (true, some bs))
      written_by count seed (good, none) bs e = absurd (ground (arith, e))
      written_by count seed (good, some cs) bs e = ground (arith, e)
