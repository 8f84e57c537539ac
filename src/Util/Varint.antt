-- ===== src/Util/Varint.antt =====
-- read_varint and write_varint of src/util.c: seven bits to a byte, the least significant first, at
-- most eight bytes.
use Prim.Native.Nat.{bit_or}
use native.Mathlib.Nat.{add-mul-mod_self_left, mod-eq_of_lt, div-add-mod}
use native.Mathlib.Numerals.{towards_suc}
use salvium_pool.Prelude.{
  ℕ, zero, suc, ◌+◌, ◌*◌, ◌/◌, ◌%◌, ◌^◌, ◌≤◌, ◌<◌, ◌≡◌, refl, ap, sym, ◌∙◌, inl, inr, true, false,
  Option, none, some, List, [], ◌∷◌, ◌++◌, arith, leb, ◌==◌, if◌then◌else◌, Bool-cases, passes,
  passes_at, ==_iff,
}
use salvium_pool.Prelude.Mod.{mod_lt}
use salvium_pool.Prelude.Bits.{bit_or_above}

-- The loop of `write_varint` with `c` as its counter: `v & 0x7f` is the remainder by 128, and `c--` is
-- reached only when bits are left. The byte that ends the loop is marked too if bits are left then.
write_loop : ℕ → ℕ → List ℕ
write_loop zero v = (if v / 128 == 0 then v % 128 else bit_or (v % 128) 0x80) ∷ []
write_loop (suc c) v =
    let rest = write_loop c (v / 128) in
    if v / 128 == 0 then v % 128 ∷ [] else bit_or (v % 128) 0x80 ∷ rest

unfoldable pub write_varint : ℕ → List ℕ
unfolding write_loop
write_varint v = write_loop 7 v

-- The loop of `read_varint`: `s` is the shift, `c` the counter. `none` is a read past the memory.
read_loop : ℕ → ℕ → ℕ → List ℕ → Option ℕ
read_loop c r s [] = none
read_loop zero r s (b ∷ mem) = some (bit_or r (b % 128 * 2 ^ s % 2 ^ 64))
read_loop (suc c) r s (b ∷ mem) =
    let r' = bit_or r (b % 128 * 2 ^ s % 2 ^ 64) in
    let rest = read_loop c r' (s + 7) mem in if leb 128 b then rest else some r'

-- Bytes are below 256, so `*b & 0x80` is the test that the byte is at least 128.
pub read_varint : List ℕ → Option ℕ
unfolding read_loop
read_varint mem = read_loop 7 0 0 mem

mark_table : passes (λ x. bit_or x 0x80 == x + 128) 128 ≡ true
unfolding passes
mark_table = refl

mark : (x : ℕ) → x < 128 → bit_or x 0x80 ≡ x + 128
mark x h = (==_iff _ _).0 (passes_at (λ x. bit_or x 0x80 == x + 128) x 128 h mark_table)

-- what `c + 1` bytes can hold
abbrev capacity : ℕ → ℕ
capacity zero = 128
capacity (suc c) = 128 * capacity c

mod_split : (v m : ℕ) → 0 < m → v % (128 * m) ≡ v % 128 + 128 * (v / 128 % m)
mod_split v m h =
    ap (λ t. t % (128 * m))
      (let e : v ≡ v % 128 + 128 * (v / 128 % m) + 128 * m * (v / 128 / m) = whole in e)
    ∙ add-mul-mod_self_left (v % 128 + 128 * (v / 128 % m)) (128 * m) (v / 128 / m)
    ∙ mod-eq_of_lt (omega (arith, mod_lt (v / 128) m h))
  where
    whole : v ≡ v % 128 + 128 * (v / 128 % m) + 128 * m * (v / 128 / m)
    whole = omega (arith, ap (λ (t : ℕ). 128 * t) (div-add-mod (v / 128) m))

capacity_pos : (c : ℕ) → 0 < capacity c
capacity_pos zero = omega arith
capacity_pos (suc c) = omega (arith, capacity_pos c)

two-pow-add_seven : (s : ℕ) → 2 ^ (s + 7) ≡ 128 * 2 ^ s
two-pow-add_seven s = simp towards_suc (omega arith)

-- Seven bits shifted above the bits of `r` are added to it, and none is shifted out.
or_shifted :
    (r s x : ℕ)
    → x < 128
    → r < 2 ^ s
    → 2 ^ s * 128 ≤ 2 ^ 64
    → bit_or r (x * 2 ^ s % 2 ^ 64) ≡ r + x * 2 ^ s
or_shifted r s x small h room =
    rw (mod-eq_of_lt {n = x * 2 ^ s} {m = 2 ^ 64} fits) (bit_or_above s r x h)
  where
    fits : x * 2 ^ s < 2 ^ 64
    fits = grind arith

room_one : (c p : ℕ) → p * capacity (suc c) ≤ 2 ^ 64 → p * 128 ≤ 2 ^ 64
room_one c p h = grind (arith, capacity_pos c)

room_rest : (c s : ℕ) → 2 ^ s * capacity (suc c) ≤ 2 ^ 64 → 2 ^ (s + 7) * capacity c ≤ 2 ^ 64
room_rest c s h = rw (two-pow-add_seven s) (grind arith)

last_byte : (v : ℕ) → (if v / 128 == 0 then v % 128 else bit_or (v % 128) 0x80) % 128 ≡ v % 128
last_byte v = ground (arith, mark (v % 128))

-- the sum of a byte's part and of what the bytes after it bring
join_parts :
    (r p v m : ℕ) → 0 < m → r + v % 128 * p + v / 128 % m * (128 * p) ≡ r + v % (128 * m) * p
join_parts r p v m h = rw (mod_split v m h) (omega arith)

fits_shift : (r s x : ℕ) → x < 128 → r < 2 ^ s → r + x * 2 ^ s < 2 ^ (s + 7)
fits_shift r s x small h = rw (two-pow-add_seven s) (grind arith)

low_marked : (v : ℕ) → leb 128 (v % 128) ≡ false
low_marked v = ground arith

high_marked : (v : ℕ) → leb 128 (v % 128 + 128) ≡ true
high_marked v = ground arith

mod_twice : (v : ℕ) → v % 128 % 128 ≡ v % 128
mod_twice v = omega arith

mod_marked : (v : ℕ) → (v % 128 + 128) % 128 ≡ v % 128
mod_marked v = omega arith

mod_small : (v m : ℕ) → v / 128 ≡ 0 → 0 < m → v % (128 * m) ≡ v % 128
mod_small v m e h = rw (mod_split v m h, e) (omega (arith, mod-eq_of_lt {n = 0} {m = m} h))

read-write_loop :
    (c r s v : ℕ) (mem : List ℕ)
    → r < 2 ^ s
    → 2 ^ s * capacity c ≤ 2 ^ 64
    → read_loop c r s (write_loop c v ++ mem) ≡ some (r + v % capacity c * 2 ^ s)
unfolding read_loop write_loop
read-write_loop zero r s v mem h room =
    rw (last_byte v) (ap some (or_shifted r s (v % 128) (omega arith) h room))
read-write_loop (suc c) r s v mem h room = elim (Bool-cases (v / 128 == 0)) [
  | inl done ↦
      rw
        (
          done,
          low_marked v,
          mod_twice v,
          or_shifted r s (v % 128) (omega arith) h (room_one c (2 ^ s) room),
        )
        (ap (λ t. some (r + t * 2 ^ s))
          (sym (mod_small v (capacity c) (ground arith) (capacity_pos c))))
  | inr more ↦
      rw
        (
          more,
          mark (v % 128) (omega arith),
          high_marked v,
          mod_marked v,
          or_shifted r s (v % 128) (omega arith) h (room_one c (2 ^ s) room),
          read-write_loop c (r + v % 128 * 2 ^ s) (s + 7) (v / 128) mem
              (fits_shift r s (v % 128) (omega arith) h) (room_rest c s room),
          two-pow-add_seven s,
        )
        (ap some (join_parts r (2 ^ s) v (capacity c) (capacity_pos c)))
]

-- `read_varint` gives back what `write_varint` wrote, cut to its low 56 bits: all of it for a number
-- below 2 ^ 56, whatever follows in memory.
pub read_varint-write_varint :
    (v : ℕ) (mem : List ℕ) → read_varint (write_varint v ++ mem) ≡ some (v % 2 ^ 56)
unfolding read_varint write_varint
read_varint-write_varint v mem =
    read-write_loop 7 0 0 v mem (omega arith) (omega arith) ∙ ap some (omega arith)
