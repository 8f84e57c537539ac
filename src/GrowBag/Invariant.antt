-- ===== src/GrowBag/Invariant.antt =====
-- What holds of a growing bag (src/growbag.c) between calls, and cells of zero bytes.
use salvium_pool.Prelude.{
  ℕ, zero, suc, ◌+◌, ◌-◌, ◌≤◌, ◌<◌, ◌≡◌, ◌∙◌, refl, ap, Bool, false, List, [], ◌∷◌, ◌++◌, replicate,
  get_or, length, arith, length-replicate, get_or-replicate, get_or-append_left,
  get_or-append_right,
}
use salvium_pool.GrowBag.{Cell, GBag, zeroed, gbag_new, occupied, gbag_occupied}

-- The memory has `max` cells and no occupied cell lies at `e` or beyond it.
pub record IsValid (gb : GBag) : Type 0 where
  pub size : length gb.cells ≡ gb.max
  pub end_le : gb.e ≤ gb.max
  pub next_le : gb.n ≤ gb.max
  pub free_above : (i : ℕ) → gb.e ≤ i → gbag_occupied gb i ≡ false

pub zeroed_free : (z : ℕ) → occupied (zeroed z) ≡ false
unfolding occupied
zeroed_free zero = refl
zeroed_free (suc z) = zeroed_free z

-- A cell outside the memory reads as free.
pub get_or_past : (l : List Cell) (i : ℕ) (d : Cell) → length l ≤ i → get_or l i d ≡ d
get_or_past [] i d h = refl
get_or_past (x ∷ l) zero d h = absurd (omega arith)
get_or_past (x ∷ l) (suc i) d h = get_or_past l i d (omega arith)

-- A new bag is valid, and all its cells are free.
pub gbag_new-IsValid :
    (count size : ℕ) (recycles moves : Bool) → IsValid (gbag_new count size recycles moves)
unfolding gbag_new gbag_occupied
gbag_new-IsValid count size recycles moves = record {
  size = length-replicate count (zeroed size);
  end_le = omega arith;
  next_le = omega arith;
  free_above = λ i h. ap occupied (get_or-replicate count i (zeroed size)) ∙ zeroed_free size;
}

-- The memory after growing: the old cells, then free ones.
pub grown_old :
    (l : List Cell) (count i : ℕ) (d : Cell)
    → i < length l
    → get_or (l ++ replicate count d) i d ≡ get_or l i d
grown_old l count i d h = get_or-append_left l (replicate count d) i d h

pub grown_new :
    (l : List Cell) (count i : ℕ) (d : Cell)
    → length l ≤ i
    → get_or (l ++ replicate count d) i d ≡ d
grown_new l count i d h =
    ap (λ k. get_or (l ++ replicate count d) k d) split
    ∙ get_or-append_right l (replicate count d) (i - length l) d
    ∙ get_or-replicate count (i - length l) d
  where
    split : i ≡ length l + (i - length l)
    split = omega arith
