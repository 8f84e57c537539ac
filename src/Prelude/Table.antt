-- ===== src/Prelude/Table.antt =====
-- A hash table as the list of its entries in the order of their insertion: a search by key, a deletion,
-- a change of the entry that a search finds, and sums over the entries, which these operations change
-- by what they do to one entry.
use salvium_pool.Prelude.Tests.{◌==◌, if◌then◌else◌, Bool-cases, if_elim}
use salvium_pool.Prelude.Lists.{length, All}
use Prim.Native.Nat.{ℕ, suc, ◌+◌, ◌≤◌}
use mathlib.Core.Path.{◌≡◌, refl, sym, ap, subst}
use mathlib.Core.Logic.{inl, inr}
use mathlib.Core.List.{List, [], ◌∷◌, ◌++◌}
use mathlib.Core.Bool.{true, false}
use mathlib.Core.Option.{Option, none, some, some-injective}
use native.Mathlib.Omega.{arith}

module _ {ℓ} {A : Type ℓ} where
  abbrev pub total : (A → ℕ) → List A → ℕ
  total weight [] = 0
  total weight (x ∷ xs) = weight x + total weight xs

  pub total-append :
      (weight : A → ℕ) (xs ys : List A)
      → total weight (xs ++ ys) ≡ total weight xs + total weight ys
  total-append weight [] ys = omega arith
  total-append weight (x ∷ xs) ys = omega (arith, total-append weight xs ys)

  pub All-append {κ} :
      (P : A → Type κ) (xs : List A) (y : A) → All P xs → P y → All P (xs ++ y ∷ [])
  All-append P [] y hs h = (h, tt)
  All-append P (x ∷ xs) y (h', hs) h = (h', All-append P xs y hs h)

  pub length-total : (xs : List A) → length xs ≡ total (λ x. 1) xs
  length-total [] = refl
  length-total (x ∷ xs) = omega (arith, length-total xs)

  pub total_le-length :
      (weight : A → ℕ) (xs : List A) → ((x : A) → weight x ≤ 1) → total weight xs ≤ length xs
  total_le-length weight [] h = omega arith
  total_le-length weight (x ∷ xs) h = omega (arith, h x, total_le-length weight xs h)

module _ {ℓ} {A : Type ℓ} (key : A → ℕ) where
  abbrev pub find : ℕ → List A → Option A
  find k [] = none
  find k (x ∷ xs) = if key x == k then some x else find k xs

  abbrev pub remove : ℕ → List A → List A
  remove k [] = []
  remove k (x ∷ xs) = let rest = remove k xs in if key x == k then xs else x ∷ rest

  abbrev pub modify : ℕ → (A → A) → List A → List A
  modify k f [] = []
  modify k f (x ∷ xs) = let rest = modify k f xs in if key x == k then f x ∷ xs else x ∷ rest

  pub find-key : (k : ℕ) (xs : List A) (x : A) → find k xs ≡ some x → key x ≡ k
  find-key k [] x e = ground arith
  find-key k (y ∷ ys) x e = elim (Bool-cases (key y == k)) [
    | inl c ↦ ground (arith, c, e)
    | inr c ↦ find-key k ys x (rw c at e)
  ]

  -- What all the entries have, the entry that is found has.
  pub find-All {κ} :
      (P : A → Type κ) (k : ℕ) (xs : List A) (x : A) → find k xs ≡ some x → All P xs → P x
  find-All P k [] x e hs = absurd (ground arith)
  find-All P k (y ∷ ys) x e (h, hs) = elim (Bool-cases (key y == k)) [
    | inl c ↦ subst P (some-injective _ _ (rw c at e)) h
    | inr c ↦ find-All P k ys x (rw c at e) hs
  ]

  -- No entry under the key that the search misses counts for anything.
  pub total_missing :
      (weight : A → ℕ) (k : ℕ) (xs : List A)
      → find k xs ≡ none
      → ((x : A) → (key x == k) ≡ false → weight x ≡ 0)
      → total weight xs ≡ 0
  total_missing weight k [] e h = refl
  total_missing weight k (x ∷ xs) e h = elim (Bool-cases (key x == k)) [
    | inl c ↦ absurd (ground (arith, c))
    | inr c ↦ ground (arith, h x c, total_missing weight k xs (rw c at e) h)
  ]

  -- A deletion takes away what its entry counted, and a change puts something else in its place.
  pub total-remove :
      (weight : A → ℕ) (k : ℕ) (xs : List A) (x : A)
      → find k xs ≡ some x
      → total weight (remove k xs) + weight x ≡ total weight xs
  total-remove weight k [] x e = absurd (ground arith)
  total-remove weight k (y ∷ ys) x e = elim (Bool-cases (key y == k)) [
    | inl c ↦ rw (c, sym (some-injective _ _ (rw c at e))) (omega arith)
    | inr c ↦ rw c (omega (arith, total-remove weight k ys x (rw c at e)))
  ]

  pub total-modify :
      (weight : A → ℕ) (k : ℕ) (f : A → A) (xs : List A) (x : A)
      → find k xs ≡ some x
      → total weight (modify k f xs) + weight x ≡ total weight xs + weight (f x)
  total-modify weight k f [] x e = absurd (ground arith)
  total-modify weight k f (y ∷ ys) x e = elim (Bool-cases (key y == k)) [
    | inl c ↦ rw (c, sym (some-injective _ _ (rw c at e))) (omega arith)
    | inr c ↦ rw c (omega (arith, total-modify weight k f ys x (rw c at e)))
  ]

  pub All-remove {κ} : (P : A → Type κ) (k : ℕ) (xs : List A) → All P xs → All P (remove k xs)
  All-remove P k [] hs = tt
  All-remove P k (x ∷ xs) (h, hs) =
      if_elim (All P) (key x == k) xs (x ∷ remove k xs) (λ c. hs) (λ c. (h, All-remove P k xs hs))

  pub All-modify {κ} :
      (P : A → Type κ) (k : ℕ) (f : A → A) (xs : List A) (x : A)
      → find k xs ≡ some x
      → P (f x)
      → All P xs
      → All P (modify k f xs)
  All-modify P k f [] x e new hs = tt
  All-modify P k f (y ∷ ys) x e new (h, hs) = elim (Bool-cases (key y == k)) [
    | inl c ↦ rw (c, some-injective _ _ (rw c at e)) (new, hs)
    | inr c ↦ rw c (h, All-modify P k f ys x (rw c at e) new hs)
  ]

  pub length-remove :
      (k : ℕ) (xs : List A) (x : A) → find k xs ≡ some x → suc (length (remove k xs)) ≡ length xs
  length-remove k xs x e =
      omega (arith, length-total xs, length-total (remove k xs), total-remove (λ x. 1) k xs x e)

  pub length-modify : (k : ℕ) (f : A → A) (xs : List A) → length (modify k f xs) ≡ length xs
  length-modify k f [] = refl
  length-modify k f (x ∷ xs) =
      if_elim (λ l. length l ≡ length (x ∷ xs)) (key x == k) (f x ∷ xs) (x ∷ modify k f xs)
        (λ c. refl) (λ c. omega (arith, length-modify k f xs))

  -- A change that keeps the key is what a search finds afterwards.
  pub find-modify :
      (k : ℕ) (f : A → A) (xs : List A) (x : A)
      → find k xs ≡ some x
      → key (f x) ≡ key x
      → find k (modify k f xs) ≡ some (f x)
  find-modify k f [] x e same = absurd (ground arith)
  find-modify k f (y ∷ ys) x e same = elim (Bool-cases (key y == k)) [
    | inl c ↦
        let it : y ≡ x = some-injective _ _ (rw c at e) in
        let kept : (key (f y) == k) ≡ true = rw (it, same, sym it) c in
        rw (c, kept) (ap (λ z. some (f z)) it)
    | inr c ↦ rw (c, c) (find-modify k f ys x (rw c at e) same)
  ]
