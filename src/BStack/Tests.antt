-- ===== src/BStack/Tests.antt =====
-- Runs of src/bstack.c's model on a stack of two slots.
use salvium_pool.Prelude.{ℕ, ◌≡◌, refl, some, [], ◌∷◌, arith}
use salvium_pool.BStack.{
  BStack, bstack_new, bstack_push, bstack_drop, bstack_top, bstack_reset, bstack_next, bstack_free,
  next_loop, slot,
}
use salvium_pool.BStack.Invariant.{IsValid, CursorIn, bstack_push-IsValid}
use salvium_pool.BStack.Refine.{contents, bstack_push_refines, bstack_drop_refines}
use salvium_pool.BStack.Iterate.{next_loop-reset, bstack_free_refines, bstack_next-drop}

-- 1, 2 and 3 pushed: 1 is gone, and the oldest item left stands in slot 1.
abbrev pushed_thrice : BStack ℕ
pushed_thrice = record { c = 2; cc = 2; n = 3; ni = 2; rf = some (λ _. 0); b = 3 ∷ 2 ∷ [] }

pushed_thrice-IsValid : IsValid pushed_thrice
pushed_thrice-IsValid = record {
  room = omega arith;
  buffer = refl;
  held = omega arith;
  pushed = omega arith;
  word = omega arith;
  word_c = omega arith;
}

contents-pushed_thrice : contents 0 pushed_thrice ≡ 3 ∷ 2 ∷ []
contents-pushed_thrice = refl

three_pushes :
    (bstack_push 0
      (bstack_push 0 (bstack_push 0 (bstack_new 0 2 (some (λ _. 0))) (some 1)).2 (some 2)).2
      (some 3)).2
    ≡ pushed_thrice
unfolding bstack_new bstack_push
three_pushes = refl

visit_all : next_loop 0 3 (bstack_reset 0 pushed_thrice) ≡ 3 ∷ 2 ∷ []
unfolding next_loop bstack_reset
visit_all = refl

bstack_push-IsValid_run :
    IsValid (bstack_push 0 pushed_thrice (some 4)).2
    × CursorIn (bstack_push 0 pushed_thrice (some 4)).2
bstack_push-IsValid_run =
    bstack_push-IsValid 0 pushed_thrice (some 4) pushed_thrice-IsValid (omega arith)

bstack_push_refines_example :
    let (p, recycled, q') = bstack_push 0 pushed_thrice (some 4) in
    (contents 0 q' ≡ 4 ∷ 3 ∷ [])
    × (recycled ≡ 2 ∷ [])
    × (slot 0 q' p ≡ 4)
    × (bstack_top 0 q' ≡ some p)
bstack_push_refines_example =
    bstack_push_refines 0 pushed_thrice (some 4) pushed_thrice-IsValid (omega arith)

bstack_drop_refines_run :
    let (recycled, q') = bstack_drop 0 pushed_thrice in
    (contents 0 q' ≡ 2 ∷ []) × (recycled ≡ 3 ∷ []) × (q'.cc ≡ 1)
bstack_drop_refines_run = bstack_drop_refines 0 pushed_thrice pushed_thrice-IsValid

next_loop-reset_run : next_loop 0 3 (bstack_reset 0 pushed_thrice) ≡ 3 ∷ 2 ∷ []
next_loop-reset_run = next_loop-reset 0 pushed_thrice pushed_thrice-IsValid

bstack_free_refines_run : bstack_free 0 pushed_thrice ≡ 3 ∷ 2 ∷ []
bstack_free_refines_run = bstack_free_refines 0 pushed_thrice pushed_thrice-IsValid

bstack_next-drop_run :
    (bstack_next 0 (bstack_drop 0 pushed_thrice).1).0 ≡ bstack_top 0 pushed_thrice
bstack_next-drop_run =
    bstack_next-drop 0 pushed_thrice pushed_thrice-IsValid refl (λ e. omega arith)
