-- ===== src/Difficulty/Word.antt =====
-- target_to_hex of src/pool.c: the text of a target and the number that a miner reads from it.
use salvium_pool.Prelude.{
  ℕ, zero, suc, ◌+◌, ◌-◌, ◌*◌, ◌/◌, ◌%◌, ◌^◌, ◌<◌, ◌≤◌, ◌≡◌, ◌∙◌, refl, sym, ap, ap₂, some, List,
  [], ◌∷◌, ◌++◌, All, arith, ltb, if◌then◌else◌, Bool-cases, inl, inr, length, Bits.bit_and_below,
  Bits.bit_and_above,
}
use native.Mathlib.Nat.{div-div-eq-div-mul, div-le_self}
use salvium_pool.Util.Hex.{bin_to_hex, hex_to_bin, hex_to_bin-bin_to_hex, length-bin_to_hex, IsByte}
use salvium_pool.Difficulty.{le_bytes, base_diff, bn_div, target_to_hex}

-- The number that little-endian bytes stand for.
unfoldable pub of_le : List ℕ → ℕ
of_le [] = 0
of_le (b ∷ bs) = b + 256 * of_le bs

pub le_bytes-IsByte : (size value : ℕ) → All IsByte (le_bytes size value)
unfolding le_bytes
le_bytes-IsByte zero value = tt
le_bytes-IsByte (suc size) value = (omega arith, le_bytes-IsByte size (value / 256))

pub length-le_bytes : (size value : ℕ) → length (le_bytes size value) ≡ size
unfolding le_bytes
length-le_bytes zero value = refl
length-le_bytes (suc size) value = ap suc (length-le_bytes size (value / 256))

of_le-le_bytes_4 : (value : ℕ) → value < 2 ^ 32 → of_le (le_bytes 4 value) ≡ value
unfolding of_le le_bytes
of_le-le_bytes_4 value h = omega arith

of_le-le_bytes_8 : (value : ℕ) → value < 2 ^ 64 → of_le (le_bytes 8 value) ≡ value
unfolding of_le le_bytes
of_le-le_bytes_8 value h = omega arith

-- The quotient of 2 ^ 256 - 1, shifted, is the quotient of 2 ^ 32 - 1.
shifted : (target : ℕ) → base_diff / target / 2 ^ 224 ≡ (2 ^ 32 - 1) / target
shifted target =
    div-div-eq-div-mul base_diff target (2 ^ 224)
    ∙ ap (λ k. base_diff / k) (omega arith)
    ∙ sym (div-div-eq-div-mul base_diff (2 ^ 224) target)
    ∙ ap (λ k. k / target) refl

fits : (target : ℕ) → (2 ^ 32 - 1) / target % 2 ^ 32 ≡ (2 ^ 32 - 1) / target
fits target = grind arith

narrow :
    (target : ℕ)
    → 1 ≤ target
    → target < 2 ^ 32
    → target_to_hex target ≡ bin_to_hex (le_bytes 4 ((2 ^ 32 - 1) / target))
unfolding target_to_hex bn_div
narrow target low h = ground (
  arith,
  bit_and_below 32 target (2 ^ 32 - 1) h,
  ap (λ q. bin_to_hex (le_bytes 4 (q % 2 ^ 32))) (shifted target),
  ap (λ q. bin_to_hex (le_bytes 4 q)) (fits target),
)

wide :
    (target : ℕ)
    → 2 ^ 32 ≤ target
    → target < 2 ^ 64
    → target_to_hex target ≡ bin_to_hex (le_bytes 8 target)
unfolding target_to_hex
wide target low h = ground (arith, bit_and_above 32 32 target low h)

decodes :
    (text bytes mem : List ℕ)
    → All IsByte bytes
    → text ≡ bin_to_hex bytes
    → hex_to_bin (text ++ (0 ∷ mem)) (length bytes) ≡ some bytes
decodes text bytes mem h e =
    ap₂ (λ t n. hex_to_bin (t ++ (0 ∷ mem)) n) e no_room ∙ hex_to_bin-bin_to_hex bytes mem 0 h
  where
    no_room : length bytes ≡ length bytes + 0
    no_room = omega arith

-- The number that the text of a target stands for.
abbrev pub sent_word : ℕ → ℕ
sent_word target = if ltb target (2 ^ 32) then (2 ^ 32 - 1) / target else target

-- The text of a target other than 0 and below 2 ^ 64, with whatever follows its end: if the target needs
-- more than 32 bits, it is that of eight bytes and decodes to the little-endian bytes of the target itself;
-- otherwise it is that of four bytes, and decodes to those of the quotient of 2 ^ 32 - 1 by the target.
pub target_to_hex-hex_to_bin :
    (target : ℕ) (mem : List ℕ)
    → 1 ≤ target
    → target < 2 ^ 64
    → (bytes : List ℕ) × (hex_to_bin (target_to_hex target ++ (0 ∷ mem)) (length bytes)
        ≡ some bytes)
      × (length bytes ≡ (if ltb target (2 ^ 32) then 4 else 8))
      × (length (target_to_hex target) ≡ 2 * length bytes)
      × (of_le bytes ≡ sent_word target)
target_to_hex-hex_to_bin target mem low h = elim (Bool-cases (ltb target (2 ^ 32))) [
  | inl small ↦
      let bytes = le_bytes 4 ((2 ^ 32 - 1) / target) in
      (
        bytes,
        decodes (target_to_hex target) bytes mem (le_bytes-IsByte 4 ((2 ^ 32 - 1) / target))
            (narrow target low (ground (arith, small))),
        rw small (length-le_bytes 4 ((2 ^ 32 - 1) / target)),
        ap length (narrow target low (ground (arith, small))) ∙ length-bin_to_hex bytes,
        rw small (
            of_le-le_bytes_4 ((2 ^ 32 - 1) / target)
              (omega (arith, div-le_self (2 ^ 32 - 1) target))),
      )
  | inr large ↦ (
    le_bytes 8 target,
    decodes (target_to_hex target) (le_bytes 8 target) mem (le_bytes-IsByte 8 target)
        (wide target (ground (arith, large)) h),
    rw large (length-le_bytes 8 target),
    ap length (wide target (ground (arith, large)) h) ∙ length-bin_to_hex (le_bytes 8 target),
    rw large (of_le-le_bytes_8 target h),
  )
]
