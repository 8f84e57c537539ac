-- ===== src/BStack.antt =====
-- src/bstack.c: the bounded stack that keeps the newest `count` items in a ring of slots.
-- A pointer into the buffer is the index of its slot; the bytes of an item are a value of `A`,
-- `zero_item` is the item whose bytes are all 0, and a `size_t` counter wraps at 2 ^ 64.
-- The recycle function is kept as what it does to the slot; a call of it is reported as the item
-- that it was given.
pub mod Ring
pub mod Invariant
pub mod Refine
pub mod Iterate
mod Tests
use salvium_pool.Prelude.{
  ℕ, zero, suc, ◌+◌, ◌-◌, ◌%◌, ◌^◌, Bool, true, false, Option, none, some, List, [], ◌∷◌, ltb, ◌==◌,
  if◌then◌else◌, ◌&&◌, get_or, set, replicate,
}

abbrev pub size_max : ℕ
size_max = 2 ^ 64

-- `n++` and `--n` on a `size_t`
abbrev pub inc : ℕ → ℕ
inc n = (n + 1) % 2 ^ 64

abbrev pub dec : ℕ → ℕ
dec n = (n + 2 ^ 64 - 1) % 2 ^ 64

pub record BStack (A : Type 0) : Type 0 where
  pub c : ℕ
  pub cc : ℕ
  pub n : ℕ
  pub ni : ℕ
  pub rf : Option (A → A)
  pub b : List A

module _ {A : Type 0} where
  abbrev pub has_recycle : Option (A → A) → Bool
  has_recycle none = false
  has_recycle (some _) = true

  abbrev pub run_recycle : Option (A → A) → A → A
  run_recycle none x = x
  run_recycle (some f) x = f x

module _ {A : Type 0} (zero_item : A) where
  pub bstack_new : ℕ → Option (A → A) → BStack A
  bstack_new count recycle = record {
    c = count;
    cc = 0;
    n = 0;
    ni = 0;
    rf = recycle;
    b = replicate count zero_item;
  }

  abbrev pub slot : BStack A → ℕ → A
  slot q i = get_or q.b i zero_item

  -- `item` is copied in, or the slot is cleared when it is NULL.
  abbrev pub item_or_zero : Option A → A
  item_or_zero none = zero_item
  item_or_zero (some x) = x

  -- The pointer that is returned, the items that were recycled, the new stack.
  pub bstack_push : BStack A → Option A → ℕ × List A × BStack A
  bstack_push q item =
      let idx = q.n % q.c in
      let cc' = if ltb q.cc q.c then q.cc + 1 else q.cc in
      let recycled = if has_recycle q.rf && (q.cc == q.c) then slot q idx ∷ [] else [] in
      (
        idx,
        recycled,
        record q { b = set q.b idx (item_or_zero item); n = inc q.n; cc = cc'; ni = cc' },
      )

  pub bstack_drop : BStack A → List A × BStack A
  bstack_drop q =
      let idx = dec q.n % q.c in
      if q.cc == 0 then ([], q) else (
        if has_recycle q.rf then slot q idx ∷ [] else [],
        record q { cc = q.cc - 1; n = dec q.n; b = set q.b idx (run_recycle q.rf (slot q idx)) },
      )

  pub bstack_top : BStack A → Option ℕ
  bstack_top q = if q.cc == 0 then none else some (dec q.n % q.c)

  pub bstack_count : BStack A → ℕ
  bstack_count q = q.cc

  pub bstack_reset : BStack A → BStack A
  bstack_reset q = record q { ni = q.cc }

  -- `cc - ni` and the subtraction from `n` are on `size_t`, so both wrap.
  abbrev pub next_index : BStack A → ℕ → ℕ
  next_index q ni = (q.n + 2 ^ 64 - (q.cc + 2 ^ 64 - ni) % 2 ^ 64) % 2 ^ 64 % q.c

  pub bstack_next : BStack A → Option ℕ × BStack A
  bstack_next q =
      if q.ni == 0 then (none, q) else (some (next_index q (q.ni - 1)), record q { ni = q.ni - 1 })

  -- The loop `while ((pb = bstack_next(q)))`, each item handed to the caller's body; `fuel` bounds
  -- the rounds.
  pub next_loop : ℕ → BStack A → List A
  unfolding bstack_next
  next_loop zero q = []
  next_loop (suc fuel) q =
      let (p, q') = bstack_next q in
      let rest = next_loop fuel q' in elim p [ none ↦ [] | some i ↦ slot q i ∷ rest ]

  pub bstack_free : BStack A → List A
  bstack_free q = if has_recycle q.rf then next_loop (q.cc + 1) (bstack_reset q) else []
