-- ===== src/GrowBag/Put.antt =====
-- gbag_put of src/growbag.c: the cell that is freed, and the others.
use salvium_pool.Prelude.{
  ℕ, ◌+◌, ◌^◌, ◌<◌, ◌≡◌, ◌≢◌, ◌∙◌, refl, sym, ap, false, List, [], ◌∷◌, get_or, set, arith, inl,
  inr, Bool-cases, ◌==◌, if◌then◌else◌, length-set, get_or-set_self, get_or-set_ne,
}
use salvium_pool.GrowBag.{Cell, GBag, zeroed, occupied, gbag_occupied, cell, gbag_put}
use salvium_pool.GrowBag.Invariant.{IsValid, zeroed_free}

-- What `gbag_put` does to a bag: it frees the item's cell and no other.
pub record Freed (gb : GBag) (item : ℕ) (out : List Cell × GBag) : Type 0 where
  pub free : gbag_occupied out.1 item ≡ false
  pub kept : (i : ℕ) → i ≢ item → cell out.1 i ≡ cell gb i
  pub counted : out.1.ref + 1 ≡ gb.ref
  pub recycled : out.0 ≡ (if gb.recycles then cell gb item ∷ [] else [])
  pub next : out.1.n ≡ item
  pub valid : IsValid out.1

module _ (gb : GBag) (item : ℕ) (v : IsValid gb) (h : item < gb.max) where
  cells_kept :
      (i : ℕ)
      → i ≢ item
      → get_or (set gb.cells item (zeroed gb.z)) i (zeroed gb.z) ≡ get_or gb.cells i (zeroed gb.z)
  cells_kept i ne = get_or-set_ne gb.cells item i (zeroed gb.z) (zeroed gb.z) (λ e. ne (sym e))

  cell_free : occupied (get_or (set gb.cells item (zeroed gb.z)) item (zeroed gb.z)) ≡ false
  cell_free =
      ap occupied
        (get_or-set_self gb.cells item (zeroed gb.z) (zeroed gb.z) (omega (arith, v.size)))
      ∙ zeroed_free gb.z

  -- On a valid bag that has given out at least one item, `gbag_put` frees the item's cell, changes no
  -- other cell, counts one item less, hands the old cell to the recycle callback if there is one, and
  -- leaves the bag valid; the next `gbag_get` starts at the freed cell.
  pub gbag_put-Freed : 0 < gb.ref → gb.ref < 2 ^ 64 → Freed gb item (gbag_put gb item)
  unfolding gbag_put gbag_occupied
  gbag_put-Freed pos small = record {
    free = cell_free;
    kept = cells_kept;
    counted = omega arith;
    recycled = refl;
    next = refl;
    valid = record {
      size = length-set gb.cells item (zeroed gb.z) ∙ v.size;
      end_le = ground (arith, v.end_le);
      next_le = omega arith;
      free_above = λ i l. elim (Bool-cases (i == item)) [
        | inl same ↦
            ap (λ k. occupied (get_or (set gb.cells item (zeroed gb.z)) k (zeroed gb.z)))
              (ground (arith, same))
            ∙ cell_free
        | inr other ↦
            ap occupied (cells_kept i (λ e. ground (arith, other, e)))
            ∙ v.free_above i (ground (arith, l, other))
      ];
    };
  }
