-- ===== src/Command/Naming.antt =====
-- The path and the name of the engine, in src/harness.cpp.
use matching_engine_benchmar.Common.{
  ◌-◌, ◌≡◌, refl, sym, ap, ◌∙◌, ◌≢◌, true, false, not, ◌&&◌, [], ◌∷◌, ◌++◌, arith, leb, ◌==◌,
  if◌then◌else◌, length, length-append, take, drop, All, All-append, take-length-append,
  drop-length-append,
}
use mathlib.Core.List.{append_assoc}
use matching_engine_benchmar.Verdict.{eq_bytes}
use matching_engine_benchmar.Verdict.Published.{eq_bytes_self}
use matching_engine_benchmar.Command.Arguments.{Text, is_empty, Options, defaults}

abbrev pub so : Text
so = b'.' ∷ b's' ∷ b'o' ∷ []

abbrev pub adapter : Text
adapter = b'_' ∷ b'a' ∷ b'd' ∷ b'a' ∷ b'p' ∷ b't' ∷ b'e' ∷ b'r' ∷ []

-- An engine given by its path comes before a baseline.
unfoldable pub engine_path : Options → Text
engine_path o =
    if not (is_empty o.engine_arg)
    then o.engine_arg
    else b'.' ∷ b'/' ∷ (o.baseline ++ (adapter ++ so))

-- What stands after the last slash, `kept` where there is none.
unfoldable pub after_slash : Text → Text → Text
after_slash [] kept = kept
after_slash (c ∷ cs) kept = if c == b'/' then after_slash cs cs else after_slash cs kept

-- The name less a suffix that ends it, which is where `rfind` finds it last.
unfoldable pub strip : Text → Text → Text
strip suf name =
    let n = length name - length suf in
    if leb (length suf) (length name) && eq_bytes (drop n name) suf then take n name else name

unfoldable pub engine_name : Options → Text
engine_name o =
    let b = if not (is_empty o.baseline) then o.baseline else o.engine_arg in
    strip adapter (strip so (after_slash b b))

abbrev IsPlain : Text → Type 0
IsPlain = All (λ c. c ≢ b'/')

after_slash-plain : (cs kept : Text) → IsPlain cs → after_slash cs kept ≡ kept
unfolding after_slash
after_slash-plain [] kept h = refl
after_slash-plain (c ∷ cs) kept h =
    let other : (c == b'/') ≡ false = ground (arith, h.0) in
    rw other (after_slash-plain cs kept h.1)

strip-append : (suf name : Text) → strip suf (name ++ suf) ≡ name
unfolding strip
strip-append suf name =
    let size = length-append name suf in
    let n : length (name ++ suf) - length suf ≡ length name = omega arith in
    let fits : leb (length suf) (length (name ++ suf)) ≡ true = ground (arith, size) in
    rw (fits, n, drop-length-append name suf, eq_bytes_self suf) (take-length-append name suf)

-- The adapter of a baseline, given by its path instead, has the baseline's own name, and the adapter is
-- loaded from the same path; for a baseline whose name has no slash and ends with neither suffix.
pub engine_name-engine_path :
    (b : Text)
    → IsPlain b
    → is_empty b ≡ false
    → strip so b ≡ b
    → strip adapter b ≡ b
    → let given : Options = record defaults { baseline = b } in
      let path = engine_path given in
      let by_path : Options = record defaults { engine_arg = path } in
      (engine_name given ≡ b) × (engine_name by_path ≡ b) × (engine_path by_path ≡ path)
unfolding engine_name engine_path after_slash
engine_name-engine_path b plain some_name x y =
    let file = b ++ (adapter ++ so) in
    let suffix_plain : IsPlain (adapter ++ so) = (
      (λ e. omega arith),
      (
        (λ e. omega arith),
        (
          (λ e. omega arith),
          (
            (λ e. omega arith),
            (
              (λ e. omega arith),
              (
                (λ e. omega arith),
                (
                  (λ e. omega arith),
                  (
                    (λ e. omega arith),
                    ((λ e. omega arith), ((λ e. omega arith), ((λ e. omega arith), tt))),
                  ),
                ),
              ),
            ),
          ),
        ),
      ),
    ) in
    let stripped : strip so file ≡ b ++ adapter =
      ap (strip so) (sym (append_assoc b adapter so)) ∙ strip-append so (b ++ adapter) in
    (
      rw some_name (
          ap (λ t. strip adapter (strip so t)) (after_slash-plain b b plain)
          ∙ ap (strip adapter) x
          ∙ y),
      ap (λ t. strip adapter (strip so t))
            (after_slash-plain file file (All-append _ b (adapter ++ so) plain suffix_plain))
          ∙ ap (strip adapter) stripped
          ∙ strip-append adapter b,
      refl,
    )
