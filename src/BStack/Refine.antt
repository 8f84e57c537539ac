-- ===== src/BStack/Refine.antt =====
-- src/bstack.c as a list of at most `count` items, newest first.
use native.Mathlib.Nat.{mod-eq-sub-mod}
use salvium_pool.Prelude.{
  ℕ, zero, suc, ◌+◌, ◌-◌, ◌%◌, ◌^◌, ◌≤◌, ◌<◌, ◌≡◌, ap, ◌∙◌, sym, ◌≢◌, inl, inr, Option, none, some,
  List, [], ◌∷◌, length, get_or, set, take, take_all, get_or-set_self, arith, if◌then◌else◌,
  Bool-cases, ltb, ◌==◌, ltb→lt, ◌&&◌,
}
use salvium_pool.Prelude.Mod.{mod_lt}
use salvium_pool.BStack.{
  BStack, inc, dec, item_or_zero, bstack_push, bstack_drop, bstack_top, has_recycle, run_recycle,
  slot,
}
use salvium_pool.BStack.Ring.{newest, length-newest, newest-set, newest-push, take-newest}
use salvium_pool.BStack.Invariant.{IsValid}

-- The specification: a list, newest first, cut to the capacity.
module _ {A : Type 0} where
  abbrev pub keep_newest : ℕ → A → List A → List A
  keep_newest c x l = take c (x ∷ l)

  abbrev pub tail : List A → List A
  tail [] = []
  tail (x ∷ l) = l

  -- the items that a full stack gives up to a push: the oldest one
  abbrev pub last_of : List A → List A
  last_of [] = []
  last_of (x ∷ []) = x ∷ []
  last_of (x ∷ y ∷ l) = last_of (y ∷ l)

  abbrev pub top_of : List A → List A
  top_of [] = []
  top_of (x ∷ l) = x ∷ []

module _ {A : Type 0} (zero_item : A) where
  abbrev pub contents : BStack A → List A
  contents q = newest zero_item q.b q.c q.n q.cc

  pub last_of-newest :
      (b : List A) (c n k : ℕ)
      → suc k ≤ n
      → last_of (newest zero_item b c n (suc k)) ≡ get_or b ((n - 1 - k) % c) zero_item ∷ []
  last_of-newest b c n zero h = ap (λ t. get_or b (t % c) zero_item ∷ []) (omega arith)
  last_of-newest b c n (suc k) h =
      last_of-newest b c (n - 1) k (omega arith)
      ∙ ap (λ t. get_or b (t % c) zero_item ∷ []) (omega arith)

  no_wrap : (n : ℕ) → n + 1 < 2 ^ 64 → inc n ≡ n + 1
  no_wrap n h = omega arith

  dec-eq : (n : ℕ) → 0 < n → n < 2 ^ 64 → dec n ≡ n - 1
  dec-eq n p h = omega arith

  take-cons : (c : ℕ) (x : A) (l : List A) → 0 < c → take c (x ∷ l) ≡ x ∷ take (c - 1) l
  take-cons zero x l h = absurd (omega arith)
  take-cons (suc c) x l h = ap (λ t. x ∷ take t l) (omega arith)

  -- After a push the newest items are the new one and as many of the old ones as there is room for.
  newest_after_push :
      (q : BStack A) (x : A) (k : ℕ)
      → IsValid q
      → q.n + 1 < 2 ^ 64
      → suc k ≤ q.c
      → k ≤ q.cc
      → newest zero_item (set q.b (q.n % q.c) x) q.c (inc q.n) (suc k) ≡ x ∷ take k (contents q)
  newest_after_push q x k v w kc kcc =
      ap (λ t. newest zero_item (set q.b (q.n % q.c) x) q.c t (suc k)) (no_wrap q.n w)
      ∙ newest-push zero_item q.b q.c q.n k x v.room v.buffer (omega arith) (omega arith)
      ∙ ap (λ t. x ∷ t) (sym (take-newest zero_item q.b q.c q.n q.cc k kcc))

  -- the number of items held after a push
  abbrev held_after : BStack A → ℕ
  held_after q = if ltb q.cc q.c then q.cc + 1 else q.cc

  contents-push :
      (q : BStack A) (x : A)
      → IsValid q
      → q.n + 1 < 2 ^ 64
      → newest zero_item (set q.b (q.n % q.c) x) q.c (inc q.n) (held_after q)
        ≡ keep_newest q.c x (contents q)
  contents-push q x v w = elim (Bool-cases (ltb q.cc q.c)) [
    | inl room ↦ rw (
      room,
      size (q.cc + 1) (q.cc) (omega arith),
      newest_after_push q x q.cc v w (ltb→lt _ _ room) (omega arith),
      take-cons q.c x (contents q) v.room,
      take_all (contents q) q.cc (omega (arith, len)),
      take_all (contents q) (q.c - 1) (omega (arith, len, ltb→lt _ _ room)),
    )
    | inr full ↦ rw (
      full,
      size q.cc (q.c - 1) (ground arith),
      newest_after_push q x (q.c - 1) v w (omega (arith, v.room)) (ground arith),
      take-cons q.c x (contents q) v.room,
    )
  ]
    where
      len : length (contents q) ≡ q.cc
      len = length-newest zero_item q.b q.c q.n q.cc

      size :
          (m k : ℕ)
          → m ≡ suc k
          → newest zero_item (set q.b (q.n % q.c) x) q.c (inc q.n) m
            ≡ newest zero_item (set q.b (q.n % q.c) x) q.c (inc q.n) (suc k)
      size m k e = ap (λ t. newest zero_item (set q.b (q.n % q.c) x) q.c (inc q.n) t) e

  -- The slot that a push to a full stack takes is that of the oldest item.
  oldest-slot :
      (q : BStack A)
      → IsValid q
      → q.cc ≡ q.c
      → last_of (contents q) ≡ slot zero_item q (q.n % q.c) ∷ []
  oldest-slot q v full =
      ap (λ t. last_of (newest zero_item q.b q.c q.n t)) cut
      ∙ last_of-newest q.b q.c q.n (q.cc - 1) (omega arith)
      ∙ ap (λ t. get_or q.b t zero_item ∷ []) same
    where
      cut : q.cc ≡ suc (q.cc - 1)
      cut = omega arith

      same : (q.n - 1 - (q.cc - 1)) % q.c ≡ q.n % q.c
      same =
          ap (λ t. t % q.c) (omega arith) ∙ sym (mod-eq-sub-mod {n = q.n} {m = q.c} (omega arith))

  -- `bstack_push` prepends the item and keeps the newest `c`; a full stack with a recycle function
  -- recycles its oldest item, and only that one; the pointer returned is that of the new top item.
  pub bstack_push_refines :
      (q : BStack A) (item : Option A)
      → IsValid q
      → q.n + 1 < 2 ^ 64
      → let (p, recycled, q') = bstack_push zero_item q item in
        (contents q' ≡ keep_newest q.c (item_or_zero zero_item item) (contents q))
        × (recycled ≡ (if has_recycle q.rf && (q.cc == q.c) then last_of (contents q) else []))
        × (slot zero_item q' p ≡ item_or_zero zero_item item)
        × (bstack_top zero_item q' ≡ some p)
  unfolding bstack_push bstack_top
  bstack_push_refines q item v w = (
    contents-push q (item_or_zero zero_item item) v w,
    ground (arith, oldest-slot q v),
    get_or-set_self q.b (q.n % q.c) (item_or_zero zero_item item) zero_item
        (omega (arith, mod_lt q.n q.c v.room)),
    ground arith,
  )

  -- A stack that is not empty: its newest item, and the others below it.
  contents-cons :
      (q : BStack A)
      → q.cc ≢ 0
      → IsValid q
      → contents q
        ≡ slot zero_item q (dec q.n % q.c) ∷ newest zero_item q.b q.c (dec q.n) (q.cc - 1)
  contents-cons q ne v =
      ap (λ t. newest zero_item q.b q.c q.n t) (let e : q.cc ≡ suc (q.cc - 1) = omega arith in e)
      ∙ ap (λ t. get_or q.b (t % q.c) zero_item ∷ newest zero_item q.b q.c t (q.cc - 1))
          (sym (dec-eq q.n (omega (arith, v.pushed)) v.word))

  -- What `bstack_drop` writes into the slot that it frees is not seen below it.
  below-set :
      (q : BStack A) (x : A)
      → q.cc ≢ 0
      → IsValid q
      → newest zero_item (set q.b (dec q.n % q.c) x) q.c (dec q.n) (q.cc - 1)
        ≡ newest zero_item q.b q.c (dec q.n) (q.cc - 1)
  below-set q x ne v =
      newest-set zero_item q.b q.c (dec q.n) (dec q.n) (q.cc - 1) x v.room (omega arith)
        (omega arith) (omega arith)

  -- `bstack_drop` takes the newest item off and recycles it if there is a recycle function; an
  -- empty stack is left as it is.
  pub bstack_drop_refines :
      (q : BStack A)
      → IsValid q
      → let (recycled, q') = bstack_drop zero_item q in
        (contents q' ≡ tail (contents q))
        × (recycled ≡ (if has_recycle q.rf then top_of (contents q) else []))
        × (q'.cc ≡ q.cc - 1)
  unfolding bstack_drop
  bstack_drop_refines q v = elim (Bool-cases (q.cc == 0)) [
    | inl empty ↦ ground arith
    | inr more ↦ ground (
      arith,
      contents-cons q (ground arith) v,
      below-set q (run_recycle q.rf (slot zero_item q (dec q.n % q.c))) (ground arith) v,
    )
  ]

  -- `bstack_top` points at the newest item, and is NULL exactly for an empty stack.
  pub bstack_top_refines :
      (q : BStack A)
      → IsValid q
      → elim (bstack_top zero_item q) as (λ _. List A) [
        | none ↦ []
        | some p ↦ slot zero_item q p ∷ []
      ]
        ≡ top_of (contents q)
  unfolding bstack_top
  bstack_top_refines q v = elim (Bool-cases (q.cc == 0)) [
    | inl empty ↦ ground arith
    | inr more ↦ ground (arith, contents-cons q (ground arith) v)
  ]
