-- ===== src/Verdict/Published.antt =====
-- A valid run against the published hash.
use matching_engine_benchmar.Common.{
  ℕ, ◌≡◌, refl, sym, ap, subst, ◌∙◌, inl, inr, true, ◌&&◌, Option, none, some, List, [], ◌∷◌, ◌++◌,
  arith, if◌then◌else◌, Bool-cases, Option-cases,
}
use matching_engine_benchmar.Run.{Mode}
use matching_engine_benchmar.Verdict.{
  eq_bytes, is_hash, find, emplace, read_lines, read_hash_file, Checks, audit_ok,
}

-- The hash of the first line for the tag that has one.
unfoldable pub first_published : List ℕ → List (Option (List ℕ × List ℕ)) → Option (List ℕ)
first_published tag [] = none
first_published tag (none ∷ ls) = first_published tag ls
first_published tag (some (h, t) ∷ ls) =
    if is_hash h && eq_bytes t tag then some h else first_published tag ls

pub eq_bytes_self : (xs : List ℕ) → eq_bytes xs xs ≡ true
unfolding eq_bytes
eq_bytes_self [] = refl
eq_bytes_self (x ∷ xs) = ground (arith, eq_bytes_self xs)

pub eq_bytes→eq : (xs ys : List ℕ) → eq_bytes xs ys ≡ true → xs ≡ ys
unfolding eq_bytes
eq_bytes→eq [] [] h = refl
eq_bytes→eq [] (y ∷ ys) h = absurd (ground arith)
eq_bytes→eq (x ∷ xs) [] h = absurd (ground arith)
eq_bytes→eq (x ∷ xs) (y ∷ ys) h = ground (arith, eq_bytes→eq xs ys)

-- The first of two options that has a value.
abbrev or_else : Option (List ℕ) → Option (List ℕ) → Option (List ℕ)
or_else none o = o
or_else (some h) o = some h

or_else-none : (o : Option (List ℕ)) → or_else o none ≡ o
or_else-none none = refl
or_else-none (some h) = refl

or_else-some :
    (o : Option (List ℕ)) (h : List ℕ) (p : Option (List ℕ))
    → or_else (or_else o (some h)) p ≡ or_else o (some h)
or_else-some none h p = refl
or_else-some (some g) h p = refl

find-append :
    (tag : List ℕ) (es : List (List ℕ × List ℕ)) (t h : List ℕ)
    → find tag (es ++ (t, h) ∷ []) ≡ or_else (find tag es) (if eq_bytes t tag then some h else none)
unfolding find
find-append tag [] t h = refl
find-append tag (e ∷ es) t h = elim (Bool-cases (eq_bytes e.0 tag)) [
  | inl p ↦ rw p refl
  | inr p ↦ rw p (find-append tag es t h)
]

find-emplace :
    (tag : List ℕ) (es : List (List ℕ × List ℕ)) (t h : List ℕ)
    → find tag (emplace t h es) ≡ or_else (find tag es) (if eq_bytes t tag then some h else none)
unfolding emplace
find-emplace tag es t h = elim (Option-cases (find t es)) [
  | inl e ↦ rw (emplace, e) (find-append tag es t h)
  | inr (g, e) ↦ elim (Bool-cases (eq_bytes t tag)) [
    | inl p ↦
        let found : find tag es ≡ some g =
          subst (λ k. find k es ≡ some g) (eq_bytes→eq t tag p) e in
        rw (emplace, e, p, found) refl
    | inr p ↦ rw (emplace, e, p) (sym (or_else-none (find tag es)))
  ]
]

find-read_lines :
    (tag : List ℕ) (ls : List (Option (List ℕ × List ℕ))) (out : List (List ℕ × List ℕ))
    → find tag (read_lines ls out) ≡ or_else (find tag out) (first_published tag ls)
unfolding read_lines first_published
find-read_lines tag [] out = sym (or_else-none (find tag out))
find-read_lines tag (none ∷ ls) out = find-read_lines tag ls out
find-read_lines tag (some (h, t) ∷ ls) out = elim (Bool-cases (is_hash h)) [
  | inr e ↦ rw e (find-read_lines tag ls out)
  | inl e ↦
      let rest = find-read_lines tag ls (emplace t h out) in
      let more = find-emplace tag out t h in
      elim (Bool-cases (eq_bytes t tag)) [
        | inl p ↦
            rw (e, p)
              (rest
                ∙ ap (λ o. or_else o (first_published tag ls))
                    (more ∙ ap (or_else (find tag out)) (rw p refl))
                ∙ or_else-some (find tag out) h _)
        | inr p ↦
            rw (e, p)
              (rest
                ∙ ap (λ o. or_else o (first_published tag ls))
                    (more ∙ ap (or_else (find tag out)) (rw p refl) ∙ or_else-none (find tag out)))
      ]
]

pub find-read_hash_file :
    (tag : List ℕ) (ls : List (Option (List ℕ × List ℕ)))
    → find tag (read_hash_file (some ls)) ≡ first_published tag ls
unfolding read_hash_file find
find-read_hash_file tag ls = find-read_lines tag ls []

-- The checks of a run other than its hash.
pub record AllHold (mode : Mode) (c : Checks) : Type 0 where
  pub audited : audit_ok mode c ≡ true
  pub pinned : c.affinity_ok ≡ true
  pub empty_before : c.prestart_book_empty ≡ true
  pub prebuilt_fast : c.prebuild_time_ok ≡ true
  pub buffer_kept : c.report_buffer_ok ≡ true
  pub probed_fast : c.probe_time_ok ≡ true
  pub output_written : c.canonical_output_ok ≡ true
