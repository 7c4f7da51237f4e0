-- ===== src/Verdict/Merged.antt =====
-- What a run reads from the file of published hashes after the reference was written.
use matching_engine_benchmar.Common.{
  ℕ, ◌≡◌, refl, sym, ap, ◌∙◌, ◌≢◌, inl, inr, true, false, ◌&&◌, Option, none, some, List, [], ◌∷◌,
  map, arith, if◌then◌else◌, Bool-cases, Option-cases, All,
}
use matching_engine_benchmar.Verdict.{
  eq_bytes, is_hash, find, Status, no_reference, pass, fail, hash_status,
}
use matching_engine_benchmar.Verdict.Published.{
  first_published, eq_bytes_self, eq_bytes→eq, find-read_hash_file,
}
use matching_engine_benchmar.Verdict.Write.{
  scan_line, read_file, assign, lt_bytes, place, in_order, print_line, Outcomes, write_reference,
}
use matching_engine_benchmar.Verdict.Tokens.{
  IsToken, IsEntry, scan_line-print_line, read_file-IsEntry, assign-IsEntry, in_order-IsEntry,
  hash-IsToken,
}

eq_bytes_ne : (a b : List ℕ) → a ≢ b → eq_bytes a b ≡ false
eq_bytes_ne a b h = elim (Bool-cases (eq_bytes a b)) [
  | inl e ↦ absurd (h (eq_bytes→eq a b e))
  | inr e ↦ e
]

find-assign :
    (t tag hash : List ℕ) (es : List (List ℕ × List ℕ))
    → find t (assign tag hash es) ≡ (if eq_bytes tag t then some hash else find t es)
unfolding find assign
find-assign t tag hash [] = refl
find-assign t tag hash (e ∷ es) = elim (Bool-cases (eq_bytes e.0 tag)) [
  | inl p ↦
      let same = eq_bytes→eq e.0 tag p in
      elim (Bool-cases (eq_bytes tag t)) [
        | inl q ↦ rw (p, ap (λ k. eq_bytes k t) same, q) refl
        | inr q ↦ rw (p, ap (λ k. eq_bytes k t) same, q) refl
      ]
  | inr p ↦
      let later = find-assign t tag hash es in
      elim (Bool-cases (eq_bytes e.0 t)) [
        | inl q ↦
            let other : eq_bytes tag t ≡ false = eq_bytes_ne tag t (λ r. ground (
              arith,
              p,
              eq_bytes_self tag,
              ap (λ k. eq_bytes k tag) (eq_bytes→eq e.0 t q ∙ sym r),
            )) in
            rw (p, q, other) refl
        | inr q ↦ rw (p, q) later
      ]
]

lt_bytes_self : (a : List ℕ) → lt_bytes a a ≡ false
unfolding lt_bytes
lt_bytes_self [] = refl
lt_bytes_self (x ∷ xs) = ground (arith, lt_bytes_self xs)

find-place :
    (t : List ℕ) (e : List ℕ × List ℕ) (xs : List (List ℕ × List ℕ))
    → find t (place e xs) ≡ find t (e ∷ xs)
unfolding find
find-place t e [] = refl
find-place t e (x ∷ xs) = elim (Bool-cases (lt_bytes x.0 e.0)) [
  | inl l ↦
      let later = find-place t e xs in
      elim (Bool-cases (eq_bytes x.0 t)) [
        | inl q ↦
            let other : eq_bytes e.0 t ≡ false = eq_bytes_ne e.0 t (λ r. ground (
              arith,
              l,
              lt_bytes_self e.0,
              ap (λ k. lt_bytes k e.0) (eq_bytes→eq x.0 t q ∙ sym r),
            )) in
            rw (l, q, other) refl
        | inr q ↦ rw (l, q) later
      ]
  | inr l ↦ rw l refl
]

find-in_order : (t : List ℕ) (es : List (List ℕ × List ℕ)) → find t (in_order es) ≡ find t es
unfolding in_order find
find-in_order t [] = refl
find-in_order t (e ∷ es) =
    find-place t e (in_order es)
    ∙ ap (λ o. if eq_bytes e.0 t then some e.1 else o) (find-in_order t es)

first_published-print_line :
    (t : List ℕ) (es : List (List ℕ × List ℕ))
    → All IsEntry es
    → first_published t (map scan_line (map print_line es)) ≡ find t es
unfolding first_published find
first_published-print_line t [] h = refl
first_published-print_line t ((tag, hash) ∷ es) h =
    let shown = scan_line-print_line tag hash h.0.0 (hash-IsToken hash h.0.1) in
    let good = h.0.1 in
    let later = first_published-print_line t es h.1 in
    elim (Bool-cases (eq_bytes tag t)) [
      | inl e ↦ rw (shown, first_published, good, e) refl
      | inr e ↦ rw (shown, first_published, good, e) later
    ]

-- What is found in the file that the write leaves, when it goes well.
find-written :
    (t tag computed : List ℕ) (file : Option (List (List ℕ)))
    → IsEntry (tag, computed)
    → find t (read_file (some (map print_line (in_order (assign tag computed (read_file file))))))
      ≡ (if eq_bytes tag t then some computed else find t (read_file file))
unfolding read_file
find-written t tag computed file h =
    let es = assign tag computed (read_file file) in
    let good =
      in_order-IsEntry es
        (assign-IsEntry tag computed (read_file file) h (read_file-IsEntry file)) in
    find-read_hash_file t (map scan_line (map print_line (in_order es)))
    ∙ first_published-print_line t (in_order es) good
    ∙ find-in_order t es
    ∙ find-assign t tag computed (read_file file)

abbrev status_by : Option (List ℕ) → List ℕ → Status
status_by none run = no_reference
status_by (some expected) run = if eq_bytes expected run then pass else fail

hash_status-find :
    (es : List (List ℕ × List ℕ)) (t run : List ℕ)
    → hash_status es t run ≡ status_by (find t es) run
unfolding hash_status
hash_status-find es t run = elim (Option-cases (find t es)) [
  | inl e ↦ rw (hash_status, e) refl
  | inr (h, e) ↦ rw (hash_status, e) refl
]

-- After the reference of a run was written, a run with the same tag passes just when it has the same hash,
-- and a run with another tag has the status that it would have had before; where the temporary file cannot be
-- opened, flushed and renamed, so has each run; for a tag of 1 to 255 characters without blanks, and a
-- hash of 64 hexadecimal digits.
pub hash_status-write_reference :
    (out : Outcomes) (tag computed : List ℕ) (file : Option (List (List ℕ))) (t run : List ℕ)
    → IsToken tag
    → is_hash computed ≡ true
    → hash_status (read_file (write_reference out tag computed file).0) t run ≡ (
        if out.opens && out.flushes && out.renames && eq_bytes tag t
        then (if eq_bytes computed run then pass else fail)
        else hash_status (read_file file) t run)
unfolding write_reference
hash_status-write_reference out tag computed file t run p q =
    let written = some (map print_line (in_order (assign tag computed (read_file file)))) in
    let found = find-written t tag computed file (p, q) in
    let after : hash_status (read_file written) t run
        ≡ status_by (if eq_bytes tag t then some computed else find t (read_file file)) run =
      hash_status-find (read_file written) t run ∙ ap (λ o. status_by o run) found in
    let before = hash_status-find (read_file file) t run in
    elim (Bool-cases out.opens) [
      | inr a ↦ rw a refl
      | inl a ↦ elim (Bool-cases out.flushes) [
        | inr b ↦ rw (a, b) refl
        | inl b ↦ elim (Bool-cases out.renames) [
          | inr c ↦ rw (a, b, c) refl
          | inl c ↦ elim (Bool-cases (eq_bytes tag t)) [
            | inl d ↦ rw (a, b, c, d) (rw d at after)
            | inr d ↦ rw (a, b, c, d) ((rw d at after) ∙ sym before)
          ]
        ]
      ]
    ]
