-- ===== src/Util/Hex.antt =====
-- is_hex_string, hex_to_bin and bin_to_hex of src/util.c. A byte is a number below 256. A C string is
-- the memory from its first byte on, its terminating 0 included; a read past that memory is a fault.
use Prim.Native.Nat.{bit_or}
use mathlib.Core.Option
use salvium_pool.Prelude.{
  ℕ, zero, suc, ◌+◌, ◌*◌, ◌/◌, ◌%◌, ◌-◌, ◌<◌, ◌≡◌, refl, ap, ◌∙◌, ◌≢◌, ◌↔◌, inl, inr, Bool, true,
  false, ◌&&◌, ◌||◌, Option, none, some, List, [], ◌∷◌, ◌++◌, length, All, arith, leb, ltb, ◌==◌,
  ==_iff, if◌then◌else◌, Bool-cases, passes, passes_at,
}

-- `isxdigit` in the C locale
pub is_xdigit : ℕ → Bool
is_xdigit ch =
    (leb b'0' ch && leb ch b'9') || (leb b'A' ch && leb ch b'F') || (leb b'a' ch && leb ch b'f')

-- 0, -1 and -2
pub data HexCheck : Type 0 where
  hex empty not_hex : HexCheck

-- the loop of `is_hex_string`, on the bytes before the terminating 0
all_xdigits : List ℕ → HexCheck
unfolding is_xdigit
all_xdigits [] = hex
all_xdigits (ch ∷ str) = let rest = all_xdigits str in if is_xdigit ch then rest else not_hex

unfoldable pub is_hex_string : List ℕ → HexCheck
unfolding all_xdigits
is_hex_string [] = empty
is_hex_string (ch ∷ str) = all_xdigits (ch ∷ str)

-- the table `h2d`, 0 at every byte that is no hexadecimal digit
pub h2d : ℕ → ℕ
h2d ch =
    if leb b'0' ch && leb ch b'9'
    then ch - b'0'
    else if leb b'A' ch && leb ch b'F'
    then ch - b'A' + 10
    else if leb b'a' ch && leb ch b'f'
    then ch - b'a' + 10
    else 0

-- `*bin = h2d[hi] << 4; *bin |= h2d[lo]` into an unsigned char
pub hex_pair : ℕ → ℕ → ℕ
unfolding h2d
hex_pair hi lo = bit_or (h2d hi * 16 % 256) (h2d lo)

-- The bytes that are written; `none` where the loop reads past the memory it was given.
unfoldable pub hex_to_bin : List ℕ → ℕ → Option (List ℕ)
unfolding hex_pair
hex_to_bin mem zero = some []
hex_to_bin [] (suc bin_size) = none
hex_to_bin (hi ∷ []) (suc bin_size) = if hi == 0 then some [] else none
hex_to_bin (hi ∷ lo ∷ mem) (suc bin_size) =
    let rest = hex_to_bin mem bin_size in
    if hi == 0 then some [] else Option.map (λ bs. hex_pair hi lo ∷ bs) rest

-- the string "0123456789abcdef", indexed by a number below 16
pub hex_chars : ℕ → ℕ
hex_chars d = if ltb d 10 then b'0' + d else b'a' + (d - 10)

unfoldable pub bin_to_hex : List ℕ → List ℕ
unfolding hex_chars
bin_to_hex [] = []
bin_to_hex (b ∷ bin) = hex_chars (b / 16 % 16) ∷ hex_chars (b % 16) ∷ bin_to_hex bin

abbrev pub IsByte : ℕ → Type 0
IsByte b = b < 256

pub length-bin_to_hex : (bin : List ℕ) → length (bin_to_hex bin) ≡ 2 * length bin
unfolding bin_to_hex
length-bin_to_hex [] = omega arith
length-bin_to_hex (b ∷ bin) = omega (arith, length-bin_to_hex bin)

pair_table : passes (λ b. hex_pair (hex_chars (b / 16 % 16)) (hex_chars (b % 16)) == b) 256 ≡ true
unfolding passes hex_pair hex_chars
pair_table = refl

hex_pair-hex_chars :
    (b : ℕ) → IsByte b → hex_pair (hex_chars (b / 16 % 16)) (hex_chars (b % 16)) ≡ b
hex_pair-hex_chars b h = (==_iff _ b).0 (
    passes_at (λ b. hex_pair (hex_chars (b / 16 % 16)) (hex_chars (b % 16)) == b) b 256 h
      pair_table)

hex_chars-ne-zero : (d : ℕ) → (hex_chars d == 0) ≡ false
unfolding hex_chars
hex_chars-ne-zero d = ground arith

-- The terminating 0 ends the loop.
stops_at_nul : (mem : List ℕ) (bin_size : ℕ) → hex_to_bin (0 ∷ mem) bin_size ≡ some []
unfolding hex_to_bin
stops_at_nul mem zero = refl
stops_at_nul [] (suc bin_size) = refl
stops_at_nul (x ∷ mem) (suc bin_size) = refl

-- What `bin_to_hex` writes, `hex_to_bin` reads back, whatever follows the text in memory, and whether
-- the room for the bytes is exact or larger (the terminating 0 then ends the loop).
pub hex_to_bin-bin_to_hex :
    (bin mem : List ℕ) (room : ℕ)
    → All IsByte bin
    → hex_to_bin (bin_to_hex bin ++ (0 ∷ mem)) (length bin + room) ≡ some bin
unfolding hex_to_bin bin_to_hex
hex_to_bin-bin_to_hex [] mem room h = stops_at_nul mem (0 + room)
hex_to_bin-bin_to_hex (b ∷ bin) mem room h =
    ap
      (λ k.
        hex_to_bin (hex_chars (b / 16 % 16) ∷ hex_chars (b % 16) ∷ (bin_to_hex bin ++ (0 ∷ mem))) k)
      (let e : suc (length bin) + room ≡ suc (length bin + room) = omega arith in e)
    ∙ rw (
      hex_chars-ne-zero (b / 16 % 16),
      hex_to_bin-bin_to_hex bin mem room h.1,
      hex_pair-hex_chars b h.0,
    )

-- Every character that `bin_to_hex` writes is a hexadecimal digit, so `is_hex_string` accepts its
-- output, the empty one excepted.
hex_chars-xdigit : (d : ℕ) → d < 16 → is_xdigit (hex_chars d) ≡ true
unfolding is_xdigit hex_chars
hex_chars-xdigit d h = ground arith

all_xdigits-bin_to_hex : (bin : List ℕ) → all_xdigits (bin_to_hex bin) ≡ hex
unfolding all_xdigits bin_to_hex
all_xdigits-bin_to_hex [] = refl
all_xdigits-bin_to_hex (b ∷ bin) = rw (
  hex_chars-xdigit (b / 16 % 16) (omega arith),
  hex_chars-xdigit (b % 16) (omega arith),
  all_xdigits-bin_to_hex bin,
)

pub is_hex_string-bin_to_hex : (b : ℕ) (bin : List ℕ) → is_hex_string (bin_to_hex (b ∷ bin)) ≡ hex
unfolding is_hex_string bin_to_hex all_xdigits
is_hex_string-bin_to_hex b bin = all_xdigits-bin_to_hex (b ∷ bin)

all_xdigits_sound : (str : List ℕ) → all_xdigits str ≡ hex → All (λ ch. is_xdigit ch ≡ true) str
unfolding all_xdigits
all_xdigits_sound [] h = tt
all_xdigits_sound (ch ∷ str) h = elim (Bool-cases (is_xdigit ch)) [
  | inl good ↦ (good, all_xdigits_sound str (ground arith))
  | inr bad ↦ ground arith
]

all_xdigits_complete : (str : List ℕ) → All (λ ch. is_xdigit ch ≡ true) str → all_xdigits str ≡ hex
unfolding all_xdigits
all_xdigits_complete [] h = refl
all_xdigits_complete (ch ∷ str) h = rw (h.0, all_xdigits_complete str h.1)

-- `is_hex_string` accepts exactly the non-empty strings all of whose characters are hexadecimal
-- digits.
pub is_hex_string_iff :
    (str : List ℕ) → (is_hex_string str ≡ hex) ↔ ((str ≢ []) × All (λ ch. is_xdigit ch ≡ true) str)
unfolding is_hex_string
is_hex_string_iff [] = (λ h. cc, λ h. absurd (h.0 refl))
is_hex_string_iff (ch ∷ str) =
    (λ h. (λ e. cc, all_xdigits_sound (ch ∷ str) h), λ h. all_xdigits_complete (ch ∷ str) h.1)
