-- ===== src/Run/Modes.antt =====
-- A measured run and an audited run are the same to the engine, and only the second records.
use matching_engine_benchmar.Common.{
  ℕ, suc, ◌+◌, ◌-◌, ◌%◌, ◌^◌, ◌≤◌, ◌<◌, ◌≡◌, refl, sym, ap, ◌∙◌, ◌⊎◌, inl, inr, true, false, Option,
  none, some, List, [], ◌∷◌, ◌++◌, map, arith, ltb, ◌==◌, ==_iff, Bool-cases, length, length-map,
  get_elem?-lt,
}
use mathlib.Core.Path.{ap₂}
use native.Mathlib.Nat.{zero-add}
use mathlib.Core.List.{append-nil, append_assoc, map-append}
use matching_engine_benchmar.Abi.{MeMsg, Report}
use matching_engine_benchmar.Workload.{WorkloadMsg}
use matching_engine_benchmar.Engine.{Engine, prepare}
use matching_engine_benchmar.Run.{
  Mode, perf, audit, Session, ask_book, probe, deliver, message_loop, deliver_batch, batch_loop,
  window,
}
use matching_engine_benchmar.Run.Batch.{Rising}

module _ (e : Engine) (workload : List WorkloadMsg) where
  -- Two sessions that the engine cannot tell apart.
  abbrev pub Agree : Session e.State → Session e.State → Type 0
  Agree s t = (s.engine ≡ t.engine) × (s.reports ≡ t.reports)

  probe-Agree :
      (i : ℕ) (s t : Session e.State)
      → Agree s t
      → Agree (probe e perf workload i s) (probe e audit workload i t)
  unfolding probe
  probe-Agree i s t h = ground arith

  deliver-Agree :
      (p : MeMsg) (s t : Session e.State)
      → Agree s t
      → Agree (deliver e perf workload p s) (deliver e audit workload p t)
  unfolding deliver
  deliver-Agree p s t h = ground arith

  deliver_batch-Agree :
      (f : List MeMsg → e.State → e.State × List Report) (prepared : List MeMsg) (start n : ℕ)
      (s t : Session e.State)
      → Agree s t
      → Agree
          (deliver_batch e perf workload f prepared start n s)
          (deliver_batch e audit workload f prepared start n t)
  unfolding deliver_batch
  deliver_batch-Agree f prepared start n s t h = ground arith

  message_loop-Agree :
      (i : ℕ) (ps : List MeMsg) (idx : List ℕ) (s t : Session e.State)
      → Agree s t
      → Agree (message_loop e perf workload i ps idx s) (message_loop e audit workload i ps idx t)
  unfolding message_loop
  message_loop-Agree i [] idx s t h = h
  message_loop-Agree i (p ∷ ps) [] s t h =
      message_loop-Agree (i + 1) ps [] _ _ (deliver-Agree p s t h)
  message_loop-Agree i (p ∷ ps) (b ∷ rest) s t h =
      let delivered = deliver-Agree p s t h in
      elim (Bool-cases (i == b)) [
        | inl e ↦ rw e (message_loop-Agree (i + 1) ps rest _ _ (probe-Agree i _ _ delivered))
        | inr e ↦ rw e (message_loop-Agree (i + 1) ps (b ∷ rest) _ _ delivered)
      ]

  batch_loop-Agree :
      (f : List MeMsg → e.State → e.State × List Report) (prepared : List MeMsg) (start : ℕ)
      (idx : List ℕ) (s t : Session e.State)
      → Agree s t
      → Agree
          (batch_loop e perf workload f prepared start idx s)
          (batch_loop e audit workload f prepared start idx t)
  unfolding batch_loop
  batch_loop-Agree f prepared start [] s t h = elim (Bool-cases (ltb start (length prepared))) [
    | inl e ↦ rw e (deliver_batch-Agree f prepared start _ s t h)
    | inr e ↦ rw e h
  ]
  batch_loop-Agree f prepared start (b ∷ rest) s t h =
      batch_loop-Agree f prepared (b + 1) rest _ _
        (probe-Agree b _ _ (deliver_batch-Agree f prepared start _ s t h))

  -- A measured run and an audited run with the same probe points leave the engine in the same state
  -- and push the same reports, whichever way the messages are delivered.
  pub window-perf-audit :
      (batches : Option (List MeMsg → e.State → e.State × List Report)) (idx : List ℕ)
      (st : e.State)
      → Agree (window e perf workload batches idx st) (window e audit workload batches idx st)
  unfolding window
  window-perf-audit none idx st =
      let start : Session e.State = record { engine = st; reports = []; snaps = [] } in
      let same = message_loop-Agree 0 (map prepare workload) idx start start (refl, refl) in
      (ap (λ x. (e.flush x).0) same.0, ap₂ (λ x rs. rs ++ (e.flush x).1) same.0 same.1)
  window-perf-audit (some f) idx st =
      let start : Session e.State = record { engine = st; reports = []; snaps = [] } in
      let same = batch_loop-Agree f (map prepare workload) 0 idx start start (refl, refl) in
      (ap (λ x. (e.flush x).0) same.0, ap₂ (λ x rs. rs ++ (e.flush x).1) same.0 same.1)

  -- The probe points, in the order of the probes.
  abbrev pub points : Mode → List ℕ → List ℕ
  points perf idx = []
  points audit idx = idx

  -- The indices of the probes recorded so far.
  abbrev pub indices : Session e.State → List ℕ
  indices s = map (λ q. q.index) s.snaps

  indices-probe :
      (mode : Mode) (i : ℕ) (s : Session e.State)
      → i < length workload
      → indices (probe e mode workload i s) ≡ indices s ++ points mode (i ∷ [])
  unfolding probe ask_book
  indices-probe perf i s h =
      let (m, found) = get_elem?-lt workload i h in rw (found, probe) (sym (append-nil (indices s)))
  indices-probe audit i s h =
      let (m, found) = get_elem?-lt workload i h in rw (found, probe) (map-append _ s.snaps _)

  points-cons :
      (mode : Mode) (b : ℕ) (rest : List ℕ)
      → points mode (b ∷ []) ++ points mode rest ≡ points mode (b ∷ rest)
  points-cons perf b rest = refl
  points-cons audit b rest = refl

  indices-message_loop :
      (mode : Mode) (i : ℕ) (ps : List MeMsg) (idx : List ℕ) (s : Session e.State)
      → Rising i (i + length ps) idx
      → i + length ps ≤ length workload
      → indices (message_loop e mode workload i ps idx s) ≡ indices s ++ points mode idx
  unfolding message_loop deliver
  indices-message_loop perf i [] [] s h k = sym (append-nil (indices s))
  indices-message_loop audit i [] [] s h k = sym (append-nil (indices s))
  indices-message_loop mode i [] (b ∷ rest) s h k = absurd (omega arith)
  indices-message_loop mode i (p ∷ ps) [] s h k =
      indices-message_loop mode (i + 1) ps [] (deliver e mode workload p s) tt (omega arith)
  indices-message_loop mode i (p ∷ ps) (b ∷ rest) s h k =
      let s' = deliver e mode workload p s in
      let size : i + 1 + length ps ≡ i + suc (length ps) = omega arith in
      elim (Bool-cases (i == b)) [
        | inl e' ↦
            let same : i ≡ b = (==_iff i b).0 e' in
            let rising : Rising (i + 1) (i + 1 + length ps) rest = rw size (rw (← same) at h.2) in
            rw e' (
              indices-message_loop mode (i + 1) ps rest (probe e mode workload i s') rising
                (omega arith)
              ∙ ap (λ l. l ++ points mode rest) (indices-probe mode i s' (omega arith))
              ∙ append_assoc (indices s) (points mode (i ∷ [])) (points mode rest)
              ∙ ap (λ l. indices s ++ l) (points-cons mode i rest)
              ∙ ap (λ j. indices s ++ points mode (j ∷ rest)) same)
        | inr e' ↦
            let rising : Rising (i + 1) (i + 1 + length ps) (b ∷ rest) =
              rw size (ground arith, h.1, h.2) in
            rw e' (indices-message_loop mode (i + 1) ps (b ∷ rest) s' rising (omega arith))
      ]

  indices-batch_loop :
      (mode : Mode) (f : List MeMsg → e.State → e.State × List Report) (prepared : List MeMsg)
      (start : ℕ) (idx : List ℕ) (s : Session e.State)
      → Rising start (length workload) idx
      → indices (batch_loop e mode workload f prepared start idx s) ≡ indices s ++ points mode idx
  unfolding batch_loop deliver_batch
  indices-batch_loop mode f prepared start [] s h =
      nothing mode (Bool-cases (ltb start (length prepared)))
    where
      nothing :
          (mode' : Mode)
          → (ltb start (length prepared) ≡ true) ⊎ (ltb start (length prepared) ≡ false)
          → indices (batch_loop e mode workload f prepared start [] s)
            ≡ indices s ++ points mode' []
      nothing perf (inl e') = rw (append-nil, e')
      nothing perf (inr e') = rw (append-nil, e')
      nothing audit (inl e') = rw (append-nil, e')
      nothing audit (inr e') = rw (append-nil, e')
  indices-batch_loop mode f prepared start (b ∷ rest) s h =
      let n = (2 ^ 64 + b - start + 1) % 2 ^ 64 % 2 ^ 32 in
      let s' = deliver_batch e mode workload f prepared start n s in
      indices-batch_loop mode f prepared (b + 1) rest (probe e mode workload b s') h.2
      ∙ ap (λ l. l ++ points mode rest) (indices-probe mode b s' (omega arith))
      ∙ append_assoc (indices s) (points mode (b ∷ [])) (points mode rest)
      ∙ ap (λ l. indices s ++ l) (points-cons mode b rest)

  -- An audited run records one probe at each of the chosen points, in order, and a measured run
  -- records none, whichever way the messages are delivered, if the points rise and lie in the workload.
  pub indices-window :
      (mode : Mode) (batches : Option (List MeMsg → e.State → e.State × List Report)) (idx : List ℕ)
      (st : e.State)
      → Rising 0 (length workload) idx
      → indices (window e mode workload batches idx st) ≡ points mode idx
  unfolding window
  indices-window mode none idx st h =
      let prepared = map prepare workload in
      let size : length prepared ≡ length workload = length-map workload prepare in
      indices-message_loop mode 0 prepared idx (record { engine = st; reports = []; snaps = [] })
        (rw (size, zero-add) h) (omega (arith, size))
  indices-window mode (some f) idx st h =
      indices-batch_loop mode f (map prepare workload) 0 idx
        (record { engine = st; reports = []; snaps = [] }) h
