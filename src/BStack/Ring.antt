-- ===== src/BStack/Ring.antt =====
-- The buffer of a bounded stack read back from the newest slot, and what a write to the next slot
-- does to it.
use salvium_pool.Prelude.{
  ℕ, zero, suc, ◌+◌, ◌-◌, ◌%◌, ◌≤◌, ◌<◌, ◌≡◌, refl, ap, ap₂, ◌∙◌, ◌≢◌, List, [], ◌∷◌, length,
  get_or, set, take, arith, get_or-set_self, get_or-set_ne,
}
use salvium_pool.Prelude.Mod.{mod-ne, mod_lt}

module _ {A : Type 0} (zero_item : A) where
  -- the `k` newest of the items pushed so far, when `n` have been pushed, newest first
  abbrev pub newest : List A → ℕ → ℕ → ℕ → List A
  newest b c n zero = []
  newest b c n (suc k) = get_or b ((n - 1) % c) zero_item ∷ newest b c (n - 1) k

  pub length-newest : (b : List A) (c n k : ℕ) → length (newest b c n k) ≡ k
  length-newest b c n zero = refl
  length-newest b c n (suc k) = ap suc (length-newest b c (n - 1) k)

  -- A write to slot `m % c` is not seen by the `k` items below `n`, if they are within `c` of `m`.
  pub newest-set :
      (b : List A) (c m n k : ℕ) (v : A)
      → 0 < c
      → n ≤ m
      → k ≤ n
      → m + k < c + n
      → newest (set b (m % c) v) c n k ≡ newest b c n k
  newest-set b c m n zero v pc nm kn close = refl
  newest-set b c m n (suc k) v pc nm kn close =
      ap₂ ◌∷◌ (get_or-set_ne b (m % c) ((n - 1) % c) v zero_item apart)
        (newest-set b c m (n - 1) k v pc (omega arith) (omega arith) (omega arith))
    where
      gap : m ≡ n - 1 + (m - (n - 1))
      gap = omega arith

      apart : m % c ≢ (n - 1) % c
      apart e =
          mod-ne c (n - 1) (m - (n - 1)) pc (omega arith) (omega arith)
            (ap (λ t. t % c) (omega arith) ∙ e)

  -- After the push of `v` the newest items are `v` and those before it.
  pub newest-push :
      (b : List A) (c n k : ℕ) (v : A)
      → 0 < c
      → length b ≡ c
      → k ≤ n
      → k < c
      → newest (set b (n % c) v) c (n + 1) (suc k) ≡ v ∷ newest b c n k
  newest-push b c n k v pc lb kn kc =
      ap₂ ◌∷◌ (ap (λ t. get_or (set b (n % c) v) (t % c) zero_item) back ∙ written) (
        ap (λ t. newest (set b (n % c) v) c t k) back
        ∙ newest-set b c n n k v pc (omega arith) kn (omega arith))
    where
      back : n + 1 - 1 ≡ n
      back = omega arith

      written : get_or (set b (n % c) v) (n % c) zero_item ≡ v
      written = get_or-set_self b (n % c) v zero_item (omega (arith, mod_lt n c pc))

  -- Fewer of the newest items are a prefix.
  pub take-newest : (b : List A) (c n k j : ℕ) → j ≤ k → take j (newest b c n k) ≡ newest b c n j
  take-newest b c n k zero h = refl
  take-newest b c n zero (suc j) h = absurd (omega arith)
  take-newest b c n (suc k) (suc j) h =
      ap (λ t. get_or b ((n - 1) % c) zero_item ∷ t) (take-newest b c (n - 1) k j (omega arith))

  -- The item at depth `i` stands in slot `(n - 1 - i) % c`.
  pub get_or-newest :
      (b : List A) (c n k i : ℕ)
      → i < k
      → k ≤ n
      → get_or (newest b c n k) i zero_item ≡ get_or b ((n - 1 - i) % c) zero_item
  get_or-newest b c n zero i h kn = absurd (omega arith)
  get_or-newest b c n (suc k) zero h kn = ap (λ t. get_or b (t % c) zero_item) (omega arith)
  get_or-newest b c n (suc k) (suc i) h kn =
      get_or-newest b c (n - 1) k i (omega arith) (omega arith)
      ∙ ap (λ t. get_or b (t % c) zero_item) (omega arith)
