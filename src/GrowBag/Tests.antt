-- ===== src/GrowBag/Tests.antt =====
-- Runs of the growing bag's model.
use salvium_pool.Prelude.{ℕ, zero, suc, ◌≤◌, ◌≡◌, ◌≢◌, refl, true, false, some, [], ◌∷◌, arith}
use salvium_pool.GrowBag.{
  GBag, Realloc, gbag_new, occupied, gbag_occupied, scan, grow, gbag_get, gbag_put, first_loop,
  next_loop, gbag_first, gbag_next, each_item,
}
use salvium_pool.GrowBag.Invariant.{IsValid, gbag_new-IsValid}
use salvium_pool.GrowBag.Get.{Fresh, gbag_get-Fresh}
use salvium_pool.GrowBag.Put.{Freed, gbag_put-Freed}
use salvium_pool.GrowBag.Iterate.{occupied_from, each_item-gbag_first}

-- A bag of two cells of two bytes, of which the first is in use.
abbrev bag : GBag
bag = record {
  z = 2;
  max = 2;
  ref = 1;
  cells = (0 ∷ 7 ∷ []) ∷ (0 ∷ 0 ∷ []) ∷ [];
  e = 1;
  n = 1;
  ni = 0;
  recycles = true;
  moves = true;
}

free_above : (i : ℕ) → 1 ≤ i → gbag_occupied bag i ≡ false
unfolding gbag_occupied occupied
free_above zero h = absurd (omega arith)
free_above (suc zero) h = refl
free_above (suc (suc i)) h = refl

abbrev bag-IsValid : IsValid bag
bag-IsValid = record {
  size = refl;
  end_le = omega arith;
  next_le = omega arith;
  free_above = free_above;
}

in_place-ne-failed : Realloc.in_place ≢ Realloc.failed
in_place-ne-failed e = cc

gbag_get-Fresh_example : Fresh bag (gbag_get Realloc.in_place bag)
gbag_get-Fresh_example =
    gbag_get-Fresh bag Realloc.in_place bag-IsValid in_place-ne-failed (omega arith) (omega arith)

gbag_put-Freed_run : Freed bag 0 (gbag_put bag 0)
gbag_put-Freed_run = gbag_put-Freed bag 0 bag-IsValid (omega arith) (omega arith) (omega arith)

each_item-gbag_first_example : each_item 3 (gbag_first bag).1 ≡ occupied_from bag 0 2
each_item-gbag_first_example = each_item-gbag_first bag 3 bag-IsValid (omega arith)

gbag_new-IsValid_run : IsValid (gbag_new 25 8 false false)
gbag_new-IsValid_run = gbag_new-IsValid 25 8 false false

-- The second cell is given out and written, then the bag has to grow.
abbrev written : GBag
written = record bag { ref = 2; n = 2; e = 2; cells = (0 ∷ 7 ∷ []) ∷ (3 ∷ 0 ∷ []) ∷ [] }

second : (gbag_get Realloc.in_place bag).item ≡ some 1
unfolding gbag_get scan gbag_occupied occupied
second = refl

third : (gbag_get (Realloc.elsewhere 9) written).item ≡ some 2
unfolding gbag_get scan gbag_occupied occupied grow
third = refl

third_moves : (gbag_get (Realloc.elsewhere 9) written).moved ≡ true
unfolding gbag_get scan gbag_occupied occupied grow
third_moves = refl

items : each_item 3 (gbag_first written).1 ≡ 0 ∷ 1 ∷ []
unfolding each_item gbag_first gbag_next first_loop next_loop gbag_occupied occupied
items = refl
