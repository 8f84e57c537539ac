-- ===== src/GrowBag/Get.antt =====
-- gbag_get of src/growbag.c: the search for a free cell, and the growth of the bag.
use salvium_pool.Prelude.{
  ℕ, zero, suc, ◌+◌, ◌*◌, ◌%◌, ◌^◌, ◌≤◌, ◌<◌, ◌≡◌, ◌≢◌, ◌∙◌, refl, sym, ap, Bool, true, false,
  Option, none, some, List, ◌++◌, replicate, get_or, length, arith, inl, inr, ◌⊎◌, Bool-cases, ltb,
  leb, ◌==◌, if◌then◌else◌, if_elim, ◌&&◌, length-append, length-replicate,
}
use salvium_pool.GrowBag.{
  Cell, GBag, Got, Realloc, zeroed, occupied, gbag_occupied, cell, scan, grow, wrap, gbag_get,
}
use salvium_pool.GrowBag.Invariant.{IsValid, zeroed_free, get_or_past, grown_old, grown_new}

-- the bag after a scan has come to the free cell `i`
abbrev take_cell : GBag → ℕ → GBag
take_cell gb i = record gb { ref = gb.ref + 1; n = i + 1; e = if leb gb.e i then i + 1 else gb.e }

-- What a scan comes to: a free cell, or the end, with every cell before it occupied.
data Scanned (gb : GBag) (end : ℕ) (out : Option ℕ × GBag) : Type 0 where
  found :
      (i : ℕ)
      → gb.n ≤ i
      → i < end
      → gbag_occupied gb i ≡ false
      → out ≡ (some i, take_cell gb i)
      → Scanned gb end out
  full :
      ((i : ℕ) → gb.n ≤ i → i < end → gbag_occupied gb i ≡ true)
      → out ≡ (none, record gb { n = end })
      → Scanned gb end out

module _ (end : ℕ) where
  scan_end : (fuel : ℕ) (gb : GBag) → gb.n ≡ end → scan end fuel gb ≡ (none, record gb { n = end })
  unfolding scan
  scan_end zero gb e = ap {B = Option ℕ × GBag} (λ k. (none, record gb { n = k })) e
  scan_end (suc fuel) gb e =
      ground (arith, ap {B = Option ℕ × GBag} (λ k. (none, record gb { n = k })) e)

  -- A cell that the loop passes.
  scan_pass :
      (fuel : ℕ) (gb : GBag)
      → gb.n < end
      → gbag_occupied gb gb.n ≡ true
      → Scanned (record gb { n = gb.n + 1 }) end (scan end fuel (record gb { n = gb.n + 1 }))
      → Scanned gb end (scan end (suc fuel) gb)
  unfolding scan gbag_occupied
  scan_pass fuel gb h o (Scanned.found i low high free e) =
      Scanned.found i (omega arith) high free (ground (arith, o, e))
  scan_pass fuel gb h o (Scanned.full all e) = Scanned.full rest (ground (arith, o, e))
    where
      rest : (i : ℕ) → gb.n ≤ i → i < end → occupied (cell gb i) ≡ true
      rest i low high = elim (Bool-cases (gb.n == i)) [
        | inl same ↦ ap (λ k. occupied (cell gb k)) (ground (arith, same)) ∙ o
        | inr other ↦ all i (ground (arith, other)) high
      ]

  scan_free :
      (fuel : ℕ) (gb : GBag)
      → gb.n < end
      → gbag_occupied gb gb.n ≡ false
      → scan end (suc fuel) gb ≡ (some gb.n, take_cell gb gb.n)
  unfolding scan
  scan_free fuel gb h o = ground (arith, o)

  scan-Scanned :
      (fuel : ℕ) (gb : GBag) → gb.n ≤ end → end ≤ gb.n + fuel → Scanned gb end (scan end fuel gb)
  scan-Scanned zero gb low enough =
      Scanned.full (λ i l h. absurd (omega arith)) (scan_end zero gb (omega arith))
  scan-Scanned (suc fuel) gb low enough = elim (Bool-cases (gb.n == end)) [
    | inl same ↦
        Scanned.full (λ i l h. absurd (ground (arith, same)))
          (scan_end (suc fuel) gb (ground (arith, same)))
    | inr other ↦ elim (Bool-cases (gbag_occupied gb gb.n)) [
      | inl o ↦
          scan_pass fuel gb (ground (arith, other)) o
            (scan-Scanned fuel (record gb { n = gb.n + 1 }) (ground (arith, other)) (omega arith))
      | inr free ↦
          Scanned.found gb.n (omega arith) (ground (arith, other)) free
            (scan_free fuel gb (ground (arith, other)) free)
    ]
  ]

-- A successful `gbag_get`: the item is a free cell inside the bag, no cell has changed, one more is given
-- out, and the bag has grown only if all cells were given out or none was free.
pub record Fresh (gb : GBag) (got : Got) : Type 0 where
  pub index : ℕ
  pub returned : got.item ≡ some index
  pub inside : index < got.bag.max
  pub below : index < got.bag.e
  pub free : gbag_occupied got.bag index ≡ false
  pub kept : (i : ℕ) → cell got.bag i ≡ cell gb i
  pub counted : got.bag.ref ≡ gb.ref + 1
  pub valid : IsValid got.bag
  pub grown :
      (got.bag.max ≡ gb.max)
      ⊎ (gb.ref ≡ gb.max)
      ⊎ ((i : ℕ) → i < gb.max → gbag_occupied gb i ≡ true)

take_cell-Fresh :
    (gb : GBag) (i : ℕ)
    → IsValid gb
    → i < gb.max
    → gbag_occupied gb i ≡ false
    → Fresh gb (record { item = some i; bag = take_cell gb i; moved = false })
unfolding gbag_occupied
take_cell-Fresh gb i v h free = record {
  index = i;
  returned = refl;
  inside = h;
  below = ground arith;
  free = free;
  kept = λ k. refl;
  counted = refl;
  valid = record {
    size = v.size;
    end_le = ground (arith, v.end_le);
    next_le = omega arith;
    free_above = λ k l. v.free_above k (ground (arith, l));
  };
  grown = inl refl;
}

-- Every cell reads the same in the memory that has grown.
grown_kept :
    (l : List Cell) (count i : ℕ) (d : Cell) → get_or (l ++ replicate count d) i d ≡ get_or l i d
grown_kept l count i d = elim (Bool-cases (ltb i (length l))) [
  | inl old ↦ grown_old l count i d (ground (arith, old))
  | inr new ↦
      grown_new l count i d (ground (arith, new)) ∙ sym (get_or_past l i d (ground (arith, new)))
]

-- the bag after it has grown
abbrev grown_bag : GBag → ℕ → GBag
grown_bag gb ni = record gb {
  max = gb.max * 2 % 2 ^ 64;
  ref = gb.ref + 1;
  cells = gb.cells ++ replicate gb.max (zeroed gb.z);
  n = gb.max + 1;
  e = gb.max + 1;
  ni = ni;
}

grown_bag-IsValid :
    (gb : GBag) (ni : ℕ) → IsValid gb → 0 < gb.max → gb.max * 2 < 2 ^ 64 → IsValid (grown_bag gb ni)
unfolding gbag_occupied
grown_bag-IsValid gb ni v pos fits = record {
  size = omega (
    arith,
    length-append gb.cells (replicate gb.max (zeroed gb.z)),
    length-replicate gb.max (zeroed gb.z),
    v.size,
  );
  end_le = omega arith;
  next_le = omega arith;
  free_above = λ i h.
      ap occupied (grown_new gb.cells gb.max i (zeroed gb.z) (omega (arith, v.size)))
      ∙ zeroed_free gb.z;
}

grown_bag-Fresh :
    (gb : GBag) (ni : ℕ) (moved : Bool)
    → IsValid gb
    → 0 < gb.max
    → gb.max * 2 < 2 ^ 64
    → (gb.ref ≡ gb.max) ⊎ ((i : ℕ) → i < gb.max → gbag_occupied gb i ≡ true)
    → Fresh gb (record { item = some gb.max; bag = grown_bag gb ni; moved = moved })
unfolding gbag_occupied
grown_bag-Fresh gb ni moved v pos fits why = record {
  index = gb.max;
  returned = refl;
  inside = omega arith;
  below = omega arith;
  free =
      ap occupied (grown_new gb.cells gb.max gb.max (zeroed gb.z) (omega (arith, v.size)))
      ∙ zeroed_free gb.z;
  kept = λ i. grown_kept gb.cells gb.max i (zeroed gb.z);
  counted = refl;
  valid = grown_bag-IsValid gb ni v pos fits;
  grown = inr why;
}

grow-Fresh :
    (gb : GBag) (k : ℕ) (realloc : Realloc)
    → IsValid gb
    → realloc ≢ Realloc.failed
    → 0 < gb.max
    → gb.max * 2 < 2 ^ 64
    → (gb.ref ≡ gb.max) ⊎ ((i : ℕ) → i < gb.max → gbag_occupied gb i ≡ true)
    → Fresh gb (grow realloc (record gb { n = k }))
unfolding grow
grow-Fresh gb k Realloc.failed v ok pos fits why = absurd (ok refl)
grow-Fresh gb k Realloc.in_place v ok pos fits why =
    grown_bag-Fresh gb gb.ni (gb.moves && false) v pos fits why
grow-Fresh gb k (Realloc.elsewhere ni) v ok pos fits why =
    grown_bag-Fresh gb ni (gb.moves && true) v pos fits why

module _ (gb : GBag) (realloc : Realloc) (v : IsValid gb) (ok : realloc ≢ Realloc.failed)
    (pos : 0 < gb.max) (fits : gb.max * 2 < 2 ^ 64) where
  -- The scan from the start, when the one from `n` has found nothing.
  wrap-Fresh :
      ((i : ℕ) → gb.n ≤ i → i < gb.max → gbag_occupied gb i ≡ true)
      → Fresh gb (wrap realloc gb.n (record gb { n = gb.max }))
  unfolding wrap gbag_occupied
  wrap-Fresh above =
      if_elim (Fresh gb) (gb.n == 0) (grow realloc (record gb { n = gb.max })) _
        (λ start.
          grow-Fresh gb gb.max realloc v ok pos fits
            (inr (λ i h. above i (ground (arith, start)) h)))
        (λ later. elim (scan-Scanned gb.n gb.n (record gb { n = 0 }) (omega arith) (omega arith)) [
          | Scanned.found i low high free e ↦
              rw (e, ap (λ r. r.1) e) (take_cell-Fresh gb i v (omega (arith, v.next_le)) free)
          | Scanned.full below e ↦
              rw (e, ap (λ r. r.1) e)
                (grow-Fresh gb gb.n realloc v ok pos fits (
                  inr (λ i h. elim (Bool-cases (ltb i gb.n)) [
                    | inl b ↦ below i (omega arith) (ground (arith, b))
                    | inr a ↦ above i (ground (arith, a)) h
                  ])))
        ])

  -- On a valid bag with at least one cell, `gbag_get` succeeds if `realloc` does and the doubled number
  -- of cells fits in a `size_t`: the item is a free cell of the bag, every cell reads as before, one
  -- more is given out, the bag is valid, and it has grown only if all cells were given out or occupied.
  pub gbag_get-Fresh : Fresh gb (gbag_get realloc gb)
  unfolding gbag_get
  gbag_get-Fresh =
      if_elim (Fresh gb) (gb.ref == gb.max) (grow realloc gb) _
        (λ all_out. grow-Fresh gb gb.n realloc v ok pos fits (inl (ground (arith, all_out))))
        (λ some_left. elim (scan-Scanned gb.max gb.max gb v.next_le (omega arith)) [
          | Scanned.found i low high free e ↦
              rw (e, ap (λ r. r.1) e) (take_cell-Fresh gb i v high free)
          | Scanned.full above e ↦ rw (e, ap (λ r. r.1) e) (wrap-Fresh above)
        ])
