-- ===== src/BStack/Iterate.antt =====
-- Iteration over a bounded stack (bstack_reset, bstack_next and bstack_free of src/bstack.c).
use salvium_pool.Prelude.{
  ℕ, zero, suc, ◌+◌, ◌-◌, ◌%◌, ◌^◌, ◌<◌, ◌≡◌, ap, ap₂, ◌∙◌, sym, ◌≢◌, inl, inr, none, some, List,
  [], ◌∷◌, get_or, arith, if◌then◌else◌, Bool-cases, ◌==◌,
}
use salvium_pool.BStack.{
  BStack, dec, next_index, bstack_top, bstack_drop, bstack_reset, bstack_next, bstack_free,
  next_loop, has_recycle, slot,
}
use salvium_pool.BStack.Ring.{newest}
use salvium_pool.BStack.Invariant.{IsValid, CursorIn}
use salvium_pool.BStack.Refine.{contents}

module _ {A : Type 0} (zero_item : A) where
  -- the items that an iteration has still to come to
  abbrev pub remaining : BStack A → List A
  remaining q = newest zero_item q.b q.c (q.n - (q.cc - q.ni)) q.ni

  next_index-eq :
      (q : BStack A)
      → IsValid q
      → CursorIn q
      → q.ni ≢ 0
      → next_index zero_item q (q.ni - 1) ≡ (q.n - (q.cc - q.ni) - 1) % q.c
  next_index-eq q v h ne = ap (λ t. t % q.c) (omega (arith, v.held, v.pushed, v.word, v.word_c))

  remaining-done : (q : BStack A) → q.ni ≡ 0 → remaining q ≡ []
  remaining-done q e = ap (λ t. newest zero_item q.b q.c (q.n - (q.cc - q.ni)) t) e

  remaining-step :
      (q : BStack A)
      → IsValid q
      → CursorIn q
      → q.ni ≢ 0
      → remaining q
        ≡ slot zero_item q (next_index zero_item q (q.ni - 1))
          ∷ remaining (record q { ni = q.ni - 1 })
  remaining-step q v h ne =
      ap (λ t. newest zero_item q.b q.c (q.n - (q.cc - q.ni)) t)
        (let e : q.ni ≡ suc (q.ni - 1) = omega arith in e)
      ∙ ap₂ (λ i t. get_or q.b i zero_item ∷ newest zero_item q.b q.c t (q.ni - 1))
          (sym (next_index-eq q v h ne))
          (let e : q.n - (q.cc - q.ni) - 1 ≡ q.n - (q.cc - (q.ni - 1)) = omega (arith, v.pushed) in
            e)

  -- `bstack_next` returns the next item of the iteration and moves past it, and NULL exactly when
  -- no item is left.
  pub bstack_next-remaining :
      (q : BStack A)
      → IsValid q
      → CursorIn q
      → let (p, q') = bstack_next zero_item q in
        remaining q
        ≡ elim p as (λ _. List A) [ none ↦ [] | some i ↦ slot zero_item q i ∷ remaining q' ]
  unfolding bstack_next
  bstack_next-remaining q v h = elim (Bool-cases (q.ni == 0)) [
    | inl done ↦ ground (arith, remaining-done q (ground arith))
    | inr more ↦ ground (arith, remaining-step q v h (ground arith))
  ]

  stepped-IsValid : (q : BStack A) → IsValid q → IsValid (record q { ni = q.ni - 1 })
  stepped-IsValid q v = ground arith

  pub next_loop-remaining :
      (fuel : ℕ) (q : BStack A)
      → IsValid q
      → CursorIn q
      → q.ni < fuel
      → next_loop zero_item fuel q ≡ remaining q
  unfolding next_loop bstack_next
  next_loop-remaining zero q v h lt = absurd (omega arith)
  next_loop-remaining (suc fuel) q v h lt = elim (Bool-cases (q.ni == 0)) [
    | inl done ↦ ground (arith, remaining-done q (ground arith))
    | inr more ↦ ground (
      arith,
      remaining-step q v h (ground arith),
      next_loop-remaining fuel (record q { ni = q.ni - 1 }) (stepped-IsValid q v) (omega arith)
          (ground arith),
    )
  ]

  -- `bstack_reset` and then `bstack_next` until NULL visit the items held, newest first, each once.
  pub next_loop-reset :
      (q : BStack A)
      → IsValid q
      → next_loop zero_item (q.cc + 1) (bstack_reset zero_item q) ≡ contents zero_item q
  unfolding bstack_reset
  next_loop-reset q v =
      next_loop-remaining (q.cc + 1) (record q { ni = q.cc }) (ground arith) (omega arith)
        (omega arith)
      ∙ ap (λ t. newest zero_item q.b q.c t q.cc)
          (let e : q.n - (q.cc - q.cc) ≡ q.n = omega arith in e)

  -- `bstack_free` recycles exactly the items held, newest first, if there is a recycle function.
  pub bstack_free_refines :
      (q : BStack A)
      → IsValid q
      → bstack_free zero_item q ≡ (if has_recycle q.rf then contents zero_item q else [])
  unfolding bstack_free
  bstack_free_refines q v = ground (arith, next_loop-reset q v)

  -- `bstack_drop` does not move the iteration back: when the next item to come is the newest one,
  -- `bstack_next` after it still returns the slot that was just dropped and recycled.
  pub bstack_next-drop :
      (q : BStack A)
      → IsValid q
      → q.ni ≡ q.cc
      → q.cc ≢ 0
      → (bstack_next zero_item (bstack_drop zero_item q).1).0 ≡ bstack_top zero_item q
  unfolding bstack_next bstack_drop bstack_top
  bstack_next-drop q v full ne = ground (arith, same_slot)
    where
      same_slot : (dec q.n + 2 ^ 64 - (q.cc - 1 + 2 ^ 64 - (q.ni - 1)) % 2 ^ 64) % 2 ^ 64 ≡ dec q.n
      same_slot = omega (arith, v.word)
