-- ===== src/GrowBag/Iterate.antt =====
-- gbag_first and gbag_next of src/growbag.c: the loop over the occupied cells of a bag.
use salvium_pool.Prelude.{
  ℕ, zero, suc, ◌+◌, ◌-◌, ◌≤◌, ◌<◌, ◌≡◌, ◌∙◌, refl, sym, ap, true, false, Option, none, some, List,
  [], ◌∷◌, arith, inl, inr, Bool-cases, if◌then◌else◌,
}
use salvium_pool.GrowBag.{
  GBag, gbag_occupied, first_loop, next_loop, gbag_first, gbag_next, each_item,
}
use salvium_pool.GrowBag.Invariant.{IsValid}

-- the occupied cells among `count` cells from `s` on
abbrev pub occupied_from : GBag → ℕ → ℕ → List ℕ
occupied_from gb s zero = []
occupied_from gb s (suc count) =
    let rest = occupied_from gb (s + 1) count in if gbag_occupied gb s then s ∷ rest else rest

-- the bag with `ni` moved
abbrev at_item : GBag → ℕ → GBag
at_item gb ni = record gb { ni = ni }

same_cells :
    (gb : GBag) (ni s count : ℕ) → occupied_from (at_item gb ni) s count ≡ occupied_from gb s count
unfolding gbag_occupied
same_cells gb ni s zero = refl
same_cells gb ni s (suc count) =
    ap (λ rest. if gbag_occupied gb s then s ∷ rest else rest) (same_cells gb ni (s + 1) count)

-- What a scan for the next item comes to, in terms of the cells that it has before it.
data Scanned (gb : GBag) (s count : ℕ) (out : Option ℕ × GBag) : Type 0 where
  found :
      (i rest : ℕ)
      → s ≤ i
      → i + 1 + rest ≡ s + count
      → occupied_from gb s count ≡ i ∷ occupied_from gb (i + 1) rest
      → out ≡ (some i, at_item gb (i + 1))
      → Scanned gb s count out
  ended :
      occupied_from gb s count ≡ [] → out ≡ (none, at_item gb (s + count)) → Scanned gb s count out

occupied_pass :
    (gb : GBag) (s count : ℕ)
    → gbag_occupied gb s ≡ false
    → occupied_from gb s (suc count) ≡ occupied_from (at_item gb (s + 1)) (s + 1) count
occupied_pass gb s count o = rw o (sym (same_cells gb (s + 1) (s + 1) count))

loop_pass :
    (gb : GBag) (s count : ℕ)
    → gbag_occupied gb s ≡ false
    → gb.ni ≡ s
    → next_loop s (suc count) gb ≡ next_loop (s + 1) count (at_item gb (s + 1))
unfolding next_loop
loop_pass gb s count o e = rw o (ap (λ k. next_loop (s + 1) count (at_item gb (k + 1))) e)

next_pass :
    (gb : GBag) (s count : ℕ)
    → gbag_occupied gb s ≡ false
    → gb.ni ≡ s
    → Scanned (at_item gb (s + 1)) (s + 1) count (next_loop (s + 1) count (at_item gb (s + 1)))
    → Scanned gb s (suc count) (next_loop s (suc count) gb)
next_pass gb s count o e (Scanned.found i rest least sum l r) =
    Scanned.found i rest (omega arith) (omega arith)
      (occupied_pass gb s count o ∙ l ∙ ap (λ k. i ∷ k) (same_cells gb (s + 1) (i + 1) rest))
      (loop_pass gb s count o e ∙ r)
next_pass gb s count o e (Scanned.ended l r) = Scanned.ended (occupied_pass gb s count o ∙ l) (
    loop_pass gb s count o e
    ∙ r
    ∙ ap {B = Option ℕ × GBag} (λ k. (none, at_item gb k)) (omega arith))

next_here :
    (gb : GBag) (s count : ℕ)
    → gbag_occupied gb s ≡ true
    → gb.ni ≡ s
    → Scanned gb s (suc count) (next_loop s (suc count) gb)
unfolding next_loop
next_here gb s count o e =
    Scanned.found s count (omega arith) (omega arith) (rw o refl)
      (rw o (ap {B = Option ℕ × GBag} (λ k. (some s, at_item gb (k + 1))) e))

next_end : (gb : GBag) (s : ℕ) → gb.ni ≡ s → Scanned gb s zero (next_loop s zero gb)
unfolding next_loop
next_end gb s e =
    Scanned.ended refl (ap {B = Option ℕ × GBag} (λ k. (none, at_item gb k)) (omega (arith, e)))

next_loop-Scanned :
    (gb : GBag) (s count : ℕ) → gb.ni ≡ s → Scanned gb s count (next_loop s count gb)
next_loop-Scanned gb s zero e = next_end gb s e
next_loop-Scanned gb s (suc count) e = elim (Bool-cases (gbag_occupied gb s)) [
  | inl o ↦ next_here gb s count o e
  | inr o ↦ next_pass gb s count o e (next_loop-Scanned (at_item gb (s + 1)) (s + 1) count refl)
]

each_step :
    (fuel i : ℕ) (gb gb' : GBag)
    → next_loop gb.ni (gb.e - gb.ni) gb ≡ (some i, gb')
    → each_item (suc fuel) gb ≡ i ∷ each_item fuel gb'
unfolding each_item gbag_next
each_step fuel i gb gb' r = rw (each_item, r) (ap (λ x. i ∷ each_item fuel x.1) r)

each_stop :
    (fuel : ℕ) (gb gb' : GBag)
    → next_loop gb.ni (gb.e - gb.ni) gb ≡ (none, gb')
    → each_item (suc fuel) gb ≡ []
unfolding each_item gbag_next
each_stop fuel gb gb' r = rw (each_item, r) refl

-- The loop from the item that the bag stands at.
each_item_from :
    (fuel : ℕ) (gb : GBag)
    → gb.ni ≤ gb.e
    → gb.e - gb.ni < fuel
    → each_item fuel gb ≡ occupied_from gb gb.ni (gb.e - gb.ni)
each_item_from zero gb low m = absurd (omega arith)
each_item_from (suc fuel) gb low m = elim (next_loop-Scanned gb gb.ni (gb.e - gb.ni) refl) [
  | Scanned.found i rest least sum l r ↦
      each_step fuel i gb (at_item gb (i + 1)) r
      ∙ ap (λ k. i ∷ k)
          (each_item_from fuel (at_item gb (i + 1)) (let h : i + 1 ≤ gb.e = omega arith in h)
              (let h : gb.e - (i + 1) < fuel = omega arith in h)
            ∙ same_cells gb (i + 1) (i + 1) (gb.e - (i + 1))
            ∙ ap (λ k. occupied_from gb (i + 1) k) (omega arith))
      ∙ sym l
  | Scanned.ended l r ↦ each_stop fuel gb (at_item gb (gb.ni + (gb.e - gb.ni))) r ∙ sym l
]

-- What `gbag_first` sets `ni` to, in terms of the cells that it has before it.
first_loop_skips :
    (gb : GBag) (s count : ℕ)
    → (k : ℕ) × ((first_loop s count gb).1 ≡ at_item gb k)
      × (k ≤ s + count)
      × (occupied_from gb s count ≡ occupied_from gb k (s + count - k))
unfolding first_loop
first_loop_skips gb s zero =
    (s, refl, omega arith, let e : 0 ≡ s + 0 - s = omega arith in ap (occupied_from gb s) e)
first_loop_skips gb s (suc count) = elim (Bool-cases (gbag_occupied gb s)) [
  | inl o ↦ (
    s,
    rw o refl,
    omega arith,
    let e : suc count ≡ s + suc count - s = omega arith in ap (occupied_from gb s) e,
  )
  | inr o ↦
      let (k, e, h, l) = first_loop_skips gb (s + 1) count in
      (k, rw o e, omega arith, rw o (l ∙ ap (λ n. occupied_from gb k n) (omega arith)))
]

occupied_none :
    (gb : GBag) (s count : ℕ)
    → ((i : ℕ) → s ≤ i → gbag_occupied gb i ≡ false)
    → occupied_from gb s count ≡ []
occupied_none gb s zero h = refl
occupied_none gb s (suc count) h =
    rw (h s (omega arith)) (occupied_none gb (s + 1) count (λ i l. h i (omega arith)))

-- Nothing is occupied from `e` on.
occupied_upto :
    (gb : GBag) (s count more : ℕ)
    → ((i : ℕ) → s + count ≤ i → gbag_occupied gb i ≡ false)
    → occupied_from gb s (count + more) ≡ occupied_from gb s count
occupied_upto gb s zero more h =
    ap (λ k. occupied_from gb s k) (let e : 0 + more ≡ more = omega arith in e)
    ∙ occupied_none gb s more (λ i l. h i (omega arith))
occupied_upto gb s (suc count) more h =
    ap (λ k. occupied_from gb s k)
      (let e : suc count + more ≡ suc (count + more) = omega arith in e)
    ∙ ap (λ rest. if gbag_occupied gb s then s ∷ rest else rest)
        (occupied_upto gb (s + 1) count more (λ i l. h i (omega arith)))

-- After `gbag_first`, the loop over `gbag_next` comes to the occupied cells of a valid bag, each once,
-- in the order of memory, and to no other, if it may take one round more than there are cells.
pub each_item-gbag_first :
    (gb : GBag) (fuel : ℕ)
    → IsValid gb
    → gb.max < fuel
    → each_item fuel (gbag_first gb).1 ≡ occupied_from gb 0 gb.max
unfolding gbag_first
each_item-gbag_first gb fuel v m =
    let (k, e, h, l) = first_loop_skips gb 0 gb.e in
    ap (each_item fuel) e
    ∙ each_item_from fuel (at_item gb k) (let b : k ≤ gb.e = omega arith in b)
        (let b : gb.e - k < fuel = omega (arith, v.end_le) in b)
    ∙ same_cells gb k k (gb.e - k)
    ∙ ap (λ n. occupied_from gb k n) (let b : gb.e - k ≡ 0 + gb.e - k = omega arith in b)
    ∙ sym l
    ∙ sym (occupied_upto gb 0 gb.e (gb.max - gb.e) (λ i b. v.free_above i (omega arith)))
    ∙ ap (λ n. occupied_from gb 0 n)
        (let b : gb.e + (gb.max - gb.e) ≡ gb.max = omega (arith, v.end_le) in b)
