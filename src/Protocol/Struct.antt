-- ===== src/Protocol/Struct.antt =====
-- A struct that is copied out of memory and back, in the messages of src/pool.c.
use salvium_pool.Prelude.{
  ℕ, zero, suc, ◌/◌, ◌^◌, ◌<◌, ◌≡◌, refl, ap, ap₂, List, [], ◌∷◌, ◌++◌, length, take, drop, All,
  arith, append_assoc, length-append,
}
use salvium_pool.Difficulty.{le_bytes}
use salvium_pool.Difficulty.Word.{of_le, length-le_bytes}
use salvium_pool.Protocol.{Fields, struct_bytes, read_fields, sum}

-- The value of a field has room in its bytes.
abbrev pub Fits : ℕ × ℕ → Type 0
Fits (size, value) = value < 256 ^ size

pub of_le-le_bytes : (size value : ℕ) → value < 256 ^ size → of_le (le_bytes size value) ≡ value
unfolding of_le le_bytes
of_le-le_bytes zero value h = omega arith
of_le-le_bytes (suc size) value h =
    let below : value / 256 < 256 ^ size = grind arith in
    omega (arith, of_le-le_bytes size (value / 256) below)

take-append_le : {A : Type 0} (xs ys : List A) (n : ℕ) → length xs ≡ n → take n (xs ++ ys) ≡ xs
take-append_le [] ys zero e = refl
take-append_le [] ys (suc n) e = absurd (omega arith)
take-append_le (x ∷ xs) ys zero e = absurd (omega arith)
take-append_le (x ∷ xs) ys (suc n) e = ap (λ l. x ∷ l) (take-append_le xs ys n (omega arith))

pub drop-append : {A : Type 0} (xs ys : List A) (n : ℕ) → length xs ≡ n → drop n (xs ++ ys) ≡ ys
drop-append [] ys zero e = refl
drop-append [] ys (suc n) e = absurd (omega arith)
drop-append (x ∷ xs) ys zero e = absurd (omega arith)
drop-append (x ∷ xs) ys (suc n) e = drop-append xs ys n (omega arith)

abbrev pub sizes_of : Fields → List ℕ
sizes_of [] = []
sizes_of ((size, value) ∷ fields) = size ∷ sizes_of fields

abbrev pub values_of : Fields → List ℕ
values_of [] = []
values_of ((size, value) ∷ fields) = value ∷ values_of fields

pub length-struct_bytes : (fields : Fields) → length (struct_bytes fields) ≡ sum (sizes_of fields)
unfolding struct_bytes
length-struct_bytes [] = refl
length-struct_bytes ((size, value) ∷ fields) = omega (
  arith,
  length-append (le_bytes size value) (struct_bytes fields),
  length-le_bytes size value,
  length-struct_bytes fields,
)

-- The fields that fit are read back, whatever comes after them.
pub read_fields-struct_bytes :
    (fields : Fields) (rest : List ℕ)
    → All Fits fields
    → read_fields (sizes_of fields) (struct_bytes fields ++ rest) ≡ values_of fields
unfolding read_fields struct_bytes
read_fields-struct_bytes [] rest hs = refl
read_fields-struct_bytes ((size, value) ∷ fields) rest (h, hs) =
    let split = append_assoc (le_bytes size value) (struct_bytes fields) rest in
    let first =
      take-append_le (le_bytes size value) (struct_bytes fields ++ rest) size
        (length-le_bytes size value) in
    let others =
      drop-append (le_bytes size value) (struct_bytes fields ++ rest) size
        (length-le_bytes size value) in
    rw (split, first, others)
      (ap₂ ◌∷◌ (of_le-le_bytes size value h) (read_fields-struct_bytes fields rest hs))
