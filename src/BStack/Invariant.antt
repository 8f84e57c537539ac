-- ===== src/BStack/Invariant.antt =====
-- The representation invariant of `bstack_t` (src/bstack.c) and the operations that keep it.
use salvium_pool.Prelude.{
  ℕ, ◌+◌, ◌%◌, ◌^◌, ◌≤◌, ◌<◌, ◌≡◌, Option, length, arith, length-set, length-replicate,
}
use salvium_pool.BStack.{
  BStack, dec, item_or_zero, bstack_new, bstack_push, bstack_drop, bstack_reset, bstack_next,
  run_recycle, slot,
}

-- The buffer has `c` slots, at least one; no more items are held than fit or were pushed.
pub record IsValid {A : Type 0} (q : BStack A) : Type 0 where
  pub room : 0 < q.c
  pub buffer : length q.b ≡ q.c
  pub held : q.cc ≤ q.c
  pub pushed : q.cc ≤ q.n
  pub word : q.n < 2 ^ 64
  pub word_c : q.c < 2 ^ 64

-- The iteration's count of items still to come is within the items held.
abbrev pub CursorIn : {A : Type 0} → BStack A → Type 0
CursorIn q = q.ni ≤ q.cc

module _ {A : Type 0} (zero_item : A) where
  pub bstack_new-IsValid :
      (count : ℕ) (rf : Option (A → A))
      → 0 < count
      → count < 2 ^ 64
      → IsValid (bstack_new zero_item count rf)
  unfolding bstack_new
  bstack_new-IsValid count rf pc w = record {
    room = pc;
    buffer = length-replicate count zero_item;
    held = omega arith;
    pushed = omega arith;
    word = omega arith;
    word_c = w;
  }

  -- A push keeps the invariant as long as fewer than 2 ^ 64 - 1 items were pushed, and restarts the
  -- iteration within it.
  pub bstack_push-IsValid :
      (q : BStack A) (item : Option A)
      → IsValid q
      → q.n + 1 < 2 ^ 64
      → IsValid (bstack_push zero_item q item).2 × CursorIn (bstack_push zero_item q item).2
  unfolding bstack_push
  bstack_push-IsValid q item v w =
      ground (arith, length-set q.b (q.n % q.c) (item_or_zero zero_item item))

  pub bstack_drop-IsValid : (q : BStack A) → IsValid q → IsValid (bstack_drop zero_item q).1
  unfolding bstack_drop
  bstack_drop-IsValid q v =
      ground (
        arith,
        length-set q.b (dec q.n % q.c) (run_recycle q.rf (slot zero_item q (dec q.n % q.c))),
      )

  pub bstack_reset-IsValid :
      (q : BStack A)
      → IsValid q
      → IsValid (bstack_reset zero_item q) × CursorIn (bstack_reset zero_item q)
  unfolding bstack_reset
  bstack_reset-IsValid q v = ground arith

  pub bstack_next-IsValid :
      (q : BStack A)
      → IsValid q
      → CursorIn q
      → IsValid (bstack_next zero_item q).1 × CursorIn (bstack_next zero_item q).1
  unfolding bstack_next
  bstack_next-IsValid q v h = ground arith
