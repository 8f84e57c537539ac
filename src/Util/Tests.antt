-- ===== src/Util/Tests.antt =====
-- Runs of src/util.c's model.
use mathlib.Core.List.{reverse}
use salvium_pool.Prelude.{
  ℕ, ◌+◌, ◌-◌, ◌%◌, ◌^◌, ◌↔◌, ◌≢◌, true, All, ◌≡◌, refl, none, some, List, [], ◌∷◌, ◌++◌, arith,
  take, drop,
}
use salvium_pool.Util.Hex.{
  is_xdigit, hex, not_hex, is_hex_string, hex_to_bin, bin_to_hex, hex_to_bin-bin_to_hex,
  is_hex_string_iff,
}
use salvium_pool.Util.Reverse.{reverse_bin, reverse_bin-eq-reverse}
use salvium_pool.Util.Varint.{read_varint, write_varint, read_varint-write_varint}
use salvium_pool.Util.Text.{
  stecpy_all, trim, IsTrim, skip_start, skip_end, stecpy_all-fitting, trim-IsTrim,
}

abbrev bytes : List ℕ
bytes = 0x0a ∷ 0xff ∷ []

hex_of_bytes : bin_to_hex bytes ≡ b'0' ∷ b'a' ∷ b'f' ∷ b'f' ∷ []
unfolding bin_to_hex
hex_of_bytes = refl

odd_text_reads_past : hex_to_bin (b'a' ∷ []) 1 ≡ none
unfolding hex_to_bin
odd_text_reads_past = refl

no_hex : is_hex_string (b'a' ∷ b'g' ∷ []) ≡ not_hex
unfolding is_hex_string
no_hex = refl

hex_to_bin-bin_to_hex_example : hex_to_bin (bin_to_hex bytes ++ (0 ∷ 7 ∷ [])) (2 + 3) ≡ some bytes
hex_to_bin-bin_to_hex_example = hex_to_bin-bin_to_hex bytes (7 ∷ []) 3 (omega arith)

reverse_bin-eq-reverse_run : reverse_bin (1 ∷ 2 ∷ 3 ∷ []) 3 ≡ reverse (1 ∷ 2 ∷ 3 ∷ [])
reverse_bin-eq-reverse_run = reverse_bin-eq-reverse (1 ∷ 2 ∷ 3 ∷ []) (omega arith) (omega arith)

varint_300 : write_varint 300 ≡ 0xac ∷ 0x02 ∷ []
unfolding write_varint
varint_300 = refl

read_varint-write_varint_example : read_varint (write_varint 300 ++ (9 ∷ [])) ≡ some (300 % 2 ^ 56)
read_varint-write_varint_example = read_varint-write_varint 300 (9 ∷ [])

stecpy_all-fitting_run :
    (stecpy_all ((b'a' ∷ b'b' ∷ []) ∷ (b'c' ∷ []) ∷ []) 3).0 ≡ b'a' ∷ b'b' ∷ b'c' ∷ []
stecpy_all-fitting_run = stecpy_all-fitting (b'a' ∷ b'b' ∷ []) ((b'c' ∷ []) ∷ []) 3

trimmed : trim (32 ∷ b'a' ∷ 9 ∷ b'b' ∷ 10 ∷ []) ≡ b'a' ∷ 9 ∷ b'b' ∷ []
unfolding trim
trimmed = refl

abbrev padded : List ℕ
padded = 32 ∷ b'a' ∷ 10 ∷ []

trim-IsTrim_run :
    let s = skip_start padded in
    let e = skip_end padded s 3 in IsTrim padded s e × (trim padded ≡ take (e - s) (drop s padded))
trim-IsTrim_run = trim-IsTrim padded

is_hex_string_iff_run :
    (is_hex_string (b'a' ∷ []) ≡ hex)
    ↔ ((◌≢◌ {A = List ℕ} (97 ∷ []) []) × All (λ ch. is_xdigit ch ≡ true) (b'a' ∷ []))
is_hex_string_iff_run = is_hex_string_iff (b'a' ∷ [])
