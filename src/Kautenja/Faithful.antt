-- ===== src/Kautenja/Faithful.antt =====
-- The runs of the Kautenja adapter: what it answers is what rests in the library's book.
use matching_engine_benchmar.Common.{
  ℕ, ◌≡◌, refl, subst, ◌⊎◌, inl, inr, List, [], ◌∷◌, ◌++◌, arith, ◌==◌, Bool-cases, All,
}
use matching_engine_benchmar.Abi.{NewOrder, MeMsg, new_msg, cancel_msg, modify_msg, Report}
use matching_engine_benchmar.Answers.{is_accepted, IsAnswered}
use matching_engine_benchmar.Kautenja.{Library, Adapter, engine_init}
use matching_engine_benchmar.Kautenja.Handlers.{handle, engine_on_batch}
use matching_engine_benchmar.Kautenja.Shadows.{IsBook}
use matching_engine_benchmar.Kautenja.Mirror.{NotEntered, IsReached, Mirrors}
use matching_engine_benchmar.Kautenja.Handled.{
  accepts, IsExact, IsFitting, handle-Handled, engine_init-Mirrors,
}

-- A new order's id is not that of a later new order.
abbrev pub IsFresh : MeMsg → List MeMsg → Type 0
IsFresh (new_msg o) ms = All (NotEntered o.order_id) ms
IsFresh (cancel_msg c) ms = Unit {0}
IsFresh (modify_msg m) ms = Unit {0}

-- A workload that enters each order once.
unfoldable pub IsWorkload : List MeMsg → Type 0
IsWorkload [] = Unit {0}
IsWorkload (m ∷ ms) = IsFitting m × IsFresh m ms × IsWorkload ms

module _ {B : Type 0} (lib : Library B) (rests : B → ℕ → ℕ) where
  -- The new orders of a workload do not rest yet.
  abbrev IsPending : List MeMsg → B → Type 0
  IsPending ms b = (v : ℕ) → (rests b v ≡ 0) ⊎ All (NotEntered v) ms

  -- A run of messages that are answered by what rests in the book when they arrive.
  pub Faithful : List MeMsg → Adapter B → Adapter B → Type 0
  Faithful [] s done = done ≡ s
  Faithful (m ∷ ms) s done =
      (rs : List Report) × ((handle lib m s).reports ≡ s.reports ++ rs)
      × IsAnswered m rs
      × (is_accepted m rs ≡ accepts m (rests s.book))
      × All (IsExact m (rests s.book)) rs
      × Faithful ms (handle lib m s) done

module _ {B : Type 0} (lib : Library B) (rests : B → ℕ → ℕ) (book : IsBook lib rests) where
  -- A new order of the rest of the workload still does not rest.
  stays-IsPending :
      (m : MeMsg) (ms : List MeMsg) (s s' : Adapter B)
      → IsPending lib rests (m ∷ ms) s.book
      → IsFresh m ms
      → ((v : ℕ) → rests s.book v ≡ 0 → NotEntered v m → rests s'.book v ≡ 0)
      → IsPending lib rests ms s'.book
  stays-IsPending (new_msg o) ms s s' p fresh kept v = elim (Bool-cases (o.order_id == v)) [
    | inl e ↦ inr (subst (λ n. All (NotEntered n) ms) (ground arith) fresh)
    | inr e ↦ elim (p v) [ inl z ↦ inl (kept v z (λ q. ground (arith, q, e))) | inr k ↦ inr k.1 ]
  ]
  stays-IsPending (cancel_msg c) ms s s' p fresh kept v = elim (p v) [
    | inl z ↦ inl (kept v z tt)
    | inr k ↦ inr k.1
  ]
  stays-IsPending (modify_msg d) ms s s' p fresh kept v = elim (p v) [
    | inl z ↦ inl (kept v z tt)
    | inr k ↦ inr k.1
  ]

  entered-IsPending :
      (m : MeMsg) (ms : List MeMsg) (b : B)
      → IsPending lib rests (m ∷ ms) b
      → (o : NewOrder) → m ≡ new_msg o
      → rests b o.order_id ≡ 0
  entered-IsPending m ms b p o e = elim (p o.order_id) [
    | inl z ↦ z
    | inr k ↦ absurd ((subst (NotEntered o.order_id) e k.0) refl)
  ]

  -- No order with an id out of reach comes to rest.
  stays-IsReached :
      (m : MeMsg) (s s' : Adapter B)
      → IsFitting m
      → ((v : ℕ) → rests s.book v ≡ 0 → NotEntered v m → rests s'.book v ≡ 0)
      → IsReached rests s.book
      → IsReached rests s'.book
  stays-IsReached (new_msg o) s s' f kept r v h = kept v (r v h) (λ e. omega (arith, e, f.2, h))
  stays-IsReached (cancel_msg c) s s' f kept r v h = kept v (r v h) tt
  stays-IsReached (modify_msg d) s s' f kept r v h = kept v (r v h) tt

  run-Faithful :
      (ms : List MeMsg) (s : Adapter B)
      → Mirrors rests s
      → IsReached rests s.book
      → IsPending lib rests ms s.book
      → IsWorkload ms
      → Faithful lib rests ms s (engine_on_batch lib ms s)
  unfolding Faithful engine_on_batch IsWorkload
  run-Faithful [] s m r p w = refl
  run-Faithful (x ∷ ms) s m r p (fits, fresh, w) =
      let h = handle-Handled lib rests book x s m fits r (entered-IsPending x ms s.book p) in
      (
        h.answer,
        h.pushed,
        h.answered,
        h.truth,
        h.exact,
        run-Faithful ms (handle lib x s) h.mirrors
            (stays-IsReached x s (handle lib x s) fits h.kept_out r)
            (stays-IsPending x ms s (handle lib x s) p fresh h.kept_out) w,
      )

  -- From its start, a run of messages through the Kautenja adapter answers each message with exactly one
  -- acknowledgement or rejection, accepts a cancel or a modify just when its order rests in the library's
  -- book at that moment, and acknowledges a cancel with the quantity that rests, a new order and a modify
  -- with the quantity asked for; for a workload that enters each id once, with ids below 2 ^ 64 - 1,
  -- quantities of 32 bits, and prices that stay positive and in 64 bits with the offset, and a library that
  -- keeps the quantities that rest as it tells the trade hook.
  pub engine_on_batch-Faithful :
      (ms : List MeMsg)
      → IsWorkload ms
      → Faithful lib rests ms (engine_init lib) (engine_on_batch lib ms (engine_init lib))
  engine_on_batch-Faithful ms w =
      run-Faithful ms (engine_init lib) (engine_init-Mirrors lib rests book) (λ v h. initial v)
        (λ v. inl (initial v)) w
    where
      initial : (v : ℕ) → rests (engine_init lib).book v ≡ 0
      initial v = unfold engine_init in book.empty_rests v
