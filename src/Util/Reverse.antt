-- ===== src/Util/Reverse.antt =====
-- reverse_bin of src/util.c: two indices that walk towards each other and swap.
use mathlib.Core.List.{reverse, reverse-append}
use native.Mathlib.Decide.{dec_lt}
use salvium_pool.Prelude.{
  ℕ, zero, suc, ◌+◌, ◌-◌, ◌%◌, ◌^◌, ◌*◌, ◌≤◌, ◌<◌, ◌≡◌, refl, ap, ◌∙◌, sym, List, [], ◌∷◌, length,
  get_or, set, arith, ltb, leb, ◌==◌, ◌&&◌, if◌then◌else◌, length-set, get_or-set_self,
  get_or-set_ne, eq_of_get_or, length-append, get_or-append_left, get_or-append_right, ◌++◌,
}

abbrev pub swap : List ℕ → ℕ → ℕ → List ℕ
swap bin i j = set (set bin i (get_or bin j 0)) j (get_or bin i 0)

-- `while (start < end)`; `start++` and `end--` run only below and above the other index, so neither
-- wraps. The fuel bounds the rounds.
pub reverse_loop : ℕ → List ℕ → ℕ → ℕ → List ℕ
reverse_loop zero bin start end' = bin
reverse_loop (suc fuel) bin start end' =
    let rest = reverse_loop fuel (swap bin start end') (start + 1) (end' - 1) in
    if ltb start end' then rest else bin

-- `end = len-1` on a size_t wraps for `len == 0`.
pub reverse_bin : List ℕ → ℕ → List ℕ
reverse_bin bin len = reverse_loop len bin 0 ((len + 2 ^ 64 - 1) % 2 ^ 64)

length-reverse_loop :
    (fuel : ℕ) (bin : List ℕ) (s e : ℕ) → length (reverse_loop fuel bin s e) ≡ length bin
unfolding reverse_loop
length-reverse_loop zero bin s e = refl
length-reverse_loop (suc fuel) bin s e = ground (
  arith,
  length-reverse_loop fuel (swap bin s e) (s + 1) (e - 1),
  length-set (set bin s (get_or bin e 0)) e (get_or bin s 0),
  length-set bin s (get_or bin e 0),
)

-- A byte after a swap of two different indices in range.
get_or-swap :
    (bin : List ℕ) (s e i : ℕ)
    → s < e
    → e < length bin
    → get_or (swap bin s e) i 0
      ≡ (if i == s then get_or bin e 0 else if i == e then get_or bin s 0 else get_or bin i 0)
get_or-swap bin s e i lt room = ground (
  arith,
  get_or-set_self (set bin s (get_or bin e 0)) e (get_or bin s 0) 0,
  get_or-set_ne (set bin s (get_or bin e 0)) e i (get_or bin s 0) 0,
  get_or-set_self bin s (get_or bin e 0) 0,
  get_or-set_ne bin s i (get_or bin e 0) 0,
  length-set bin s (get_or bin e 0),
)

length-swap : (bin : List ℕ) (s e : ℕ) → length (swap bin s e) ≡ length bin
length-swap bin s e =
    length-set (set bin s (get_or bin e 0)) e (get_or bin s 0) ∙ length-set bin s (get_or bin e 0)

-- The loop mirrors the bytes between `s` and `e` and leaves the others.
get_or-reverse_loop :
    (fuel : ℕ) (bin : List ℕ) (s e i : ℕ)
    → e < length bin
    → e < s + 2 * fuel + 1
    → get_or (reverse_loop fuel bin s e) i 0
      ≡ (if leb s i && leb i e then get_or bin (s + e - i) 0 else get_or bin i 0)
unfolding reverse_loop
get_or-reverse_loop zero bin s e i room h = ground (arith, λ (p : s ≤ i) (q : i ≤ e). middle p q)
  where
    middle : s ≤ i → i ≤ e → s + e - i ≡ i
    middle p q = omega arith
get_or-reverse_loop (suc fuel) bin s e i room h = ground (
  arith,
  get_or-reverse_loop fuel (swap bin s e) (s + 1) (e - 1) i,
  length-swap bin s e,
  get_or-swap bin s e i,
  get_or-swap bin s e (s + 1 + (e - 1) - i),
)

length-reverse : (bin : List ℕ) → length (reverse bin) ≡ length bin
length-reverse [] = refl
length-reverse (b ∷ bin) =
    ap length (reverse-append (b ∷ []) bin)
    ∙ omega (arith, length-append (reverse bin) (b ∷ []), length-reverse bin)

get_or-reverse :
    (bin : List ℕ) (i : ℕ)
    → i < length bin
    → get_or (reverse bin) i 0 ≡ get_or bin (length bin - 1 - i) 0
get_or-reverse [] i h = absurd (omega arith)
get_or-reverse (b ∷ bin) i h =
    ap (λ t. get_or t i 0) (reverse-append (b ∷ []) bin) ∙ elim (dec_lt i (length bin)) [
      | yes p ↦
          get_or-append_left (reverse bin) (b ∷ []) i 0 (omega (arith, length-reverse bin))
          ∙ get_or-reverse bin i p
          ∙ ap (λ k. get_or (b ∷ bin) k 0)
              (let e : suc (length bin - 1 - i) ≡ suc (length bin) - 1 - i = omega arith in e)
      | no p ↦
          ap (λ k. get_or (reverse bin ++ (b ∷ [])) k 0)
            (let e : i ≡ length (reverse bin) + 0 = omega (arith, length-reverse bin) in e)
          ∙ get_or-append_right (reverse bin) (b ∷ []) 0 0
          ∙ ap (λ k. get_or (b ∷ bin) k 0) (let e : 0 ≡ suc (length bin) - 1 - i = omega arith in e)
    ]

-- `reverse_bin` reverses a non-empty array of bytes in place.
pub reverse_bin-eq-reverse :
    (bin : List ℕ)
    → 0 < length bin
    → length bin < 2 ^ 64
    → reverse_bin bin (length bin) ≡ reverse bin
unfolding reverse_bin
reverse_bin-eq-reverse bin pos word =
    eq_of_get_or (reverse_bin bin (length bin)) (reverse bin) 0
      (length-reverse_loop (length bin) bin 0 last ∙ sym (length-reverse bin)) pointwise
  where
    last : ℕ
    last = (length bin + 2 ^ 64 - 1) % 2 ^ 64

    pointwise :
        (i : ℕ)
        → i < length (reverse_bin bin (length bin))
        → get_or (reverse_bin bin (length bin)) i 0 ≡ get_or (reverse bin) i 0
    pointwise i lt = ground (
      arith,
      get_or-reverse_loop (length bin) bin 0 last i,
      get_or-reverse bin i,
      length-reverse_loop (length bin) bin 0 last,
    )
