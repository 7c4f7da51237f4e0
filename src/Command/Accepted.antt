-- ===== src/Command/Accepted.antt =====
-- The options that the command line of src/harness.cpp lets through, and how each is asked for.
use matching_engine_benchmar.Common.{
  ◌≡◌, refl, sym, ◌∙◌, ◌≢◌, inl, inr, Bool, true, false, not, ◌&&◌, ◌||◌, Option, some, List, [],
  ◌∷◌, ◌++◌, Bool-cases, ok, OnOk,
}
use mathlib.Core.Bool.{false≢true}
use matching_engine_benchmar.Verdict.{eq_bytes}
use matching_engine_benchmar.Verdict.Published.{eq_bytes→eq}
use matching_engine_benchmar.Command.Arguments.{
  Text, is_empty, Options, Effect, takes_next, stands_alone, refused, starts_with, is_under,
  path_is_under_reference, check_options,
}

-- Where the parts of a directory and of an output path are known, and the output is not below the
-- directory.
pub record IsOutside (reference output : Option (List Text)) : Type 0 where
  pub directory : List Text
  pub parts : List Text
  pub is_reference : reference ≡ some directory
  pub is_output : output ≡ some parts
  pub is_apart : (rest : List Text) → parts ≢ directory ++ rest

-- Options that are let through: they name an engine or a baseline; an output that was asked for has a path,
-- which is outside the reference directory; and the reference is written for a baseline, without such an
-- output.
pub record IsAccepted (canonical : Text → Option (List Text)) (reference : Option (List Text))
    (o : Options) : Type 0 where
  pub is_named : (is_empty o.engine_arg && is_empty o.baseline) ≡ false
  pub is_requested : o.canonical_output_requested ≡ not (is_empty o.canonical_output_path)
  pub is_outside :
      is_empty o.canonical_output_path ≡ false
      → IsOutside reference (canonical o.canonical_output_path)
  pub is_single : o.write_reference ≡ true → is_empty o.canonical_output_path ≡ true
  pub is_by_baseline : o.write_reference ≡ true → is_empty o.baseline ≡ false

starts_with-rest :
    (ds ps : List Text) → starts_with ds ps ≡ true → (rest : List Text) × (ps ≡ ds ++ rest)
starts_with-rest [] ps h = (ps, refl)
starts_with-rest (d ∷ ds) [] h = absurd (false≢true h)
starts_with-rest (d ∷ ds) (p ∷ ps) h = elim (Bool-cases (eq_bytes d p)) [
  | inl e ↦
      let (rest, f) = starts_with-rest ds ps (rw e at h) in
      (rest, λ i. sym (eq_bytes→eq d p e) i ∷ f i)
  | inr e ↦ absurd (false≢true (rw e at h))
]

IsOutside-is_under :
    (reference output : Option (List Text))
    → IsOutside reference output
    → is_under reference output ≡ false
IsOutside-is_under reference output h = elim (Bool-cases (starts_with h.directory h.parts)) [
  | inl e ↦ let (rest, f) = starts_with-rest h.directory h.parts e in absurd (h.is_apart rest f)
  | inr e ↦ (λ i. is_under (h.is_reference i) (h.is_output i)) ∙ e
]

-- An output path comes with the request.
abbrev IsAsked : Options → Type 0
IsAsked o = (o.canonical_output_requested || is_empty o.canonical_output_path) ≡ true

AsksEffect : Effect → Type 0
AsksEffect (takes_next f) = (x : Text) (o : Options) → IsAsked o → OnOk IsAsked (f x o)
AsksEffect (stands_alone g) = (o : Options) → IsAsked o → IsAsked (g o)
AsksEffect refused = Unit {0}

module _ (canonical : Text → Option (List Text)) (reference : Option (List Text)) where
  pub IsAccepted-check_options :
      (o : Options) → IsAccepted canonical reference o → check_options canonical reference o ≡ ok o
  unfolding check_options path_is_under_reference
  IsAccepted-check_options o h =
      let named = h.is_named in
      let asked = h.is_requested in
      elim (Bool-cases o.write_reference) [
        | inl w ↦
            let p = h.is_single w in let b = h.is_by_baseline w in rw (named, asked, w, p, b) refl
        | inr w ↦ elim (Bool-cases (is_empty o.canonical_output_path)) [
          | inl p ↦ rw (named, asked, w, p) refl
          | inr p ↦
              let out =
                IsOutside-is_under reference (canonical o.canonical_output_path) (h.is_outside p) in
              rw (named, asked, w, p, out) refl
        ]
      ]
