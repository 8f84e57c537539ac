-- ===== src/Protocol/Sent.antt =====
-- The bytes of messages between two pools of src/pool.c, one after another, and the first bytes of one more.
use salvium_pool.Prelude.{
  ℕ, zero, suc, ◌+◌, ◌-◌, ◌<◌, ◌≤◌, ◌≡◌, refl, ap, true, false, List, [], ◌∷◌, ◌++◌, length, take,
  All, ltb, arith, length-append,
}
use salvium_pool.Pool.Types.{Message}
use salvium_pool.Protocol.{
  Fields, fields_of, struct_bytes, sum, msgbin, Round, wait, took, with_struct, upstream_round,
  trusted_round, encode, type_of,
}
use salvium_pool.Protocol.Struct.{
  Fits, sizes_of, values_of, length-struct_bytes, read_fields-struct_bytes, drop-append,
}

pub length-take : {A : Type 0} (n : ℕ) (xs : List A) → n ≤ length xs → length (take n xs) ≡ n
length-take zero xs h = refl
length-take (suc n) [] h = absurd (omega arith)
length-take (suc n) (x ∷ xs) h = ap suc (length-take n xs (omega arith))

-- A message that a round takes whole, and waits for while only a part of it has come.
abbrev pub Reads : (ℕ → List ℕ → Round) → Message → Type 0
Reads round m =
    ((rest : List ℕ) → round (type_of m) (encode m ++ rest) ≡ took m rest)
    × ((k : ℕ) → 9 + k < length (encode m) → round (type_of m) (take (9 + k) (encode m)) ≡ wait)

module _ (make : List ℕ → Message) (fields : Fields) (type : ℕ) where
  abbrev frame : List ℕ
  frame = msgbin ++ type ∷ struct_bytes fields

  whole :
      (rest : List ℕ)
      → All Fits fields
      → with_struct (sizes_of fields) make (frame ++ rest) ≡ took (make (values_of fields)) rest
  unfolding with_struct
  whole rest fit =
      let size = length-struct_bytes fields in
      let come : ltb (length (frame ++ rest) - 9) (sum (sizes_of fields)) ≡ false =
        ground (arith, size, length-append (struct_bytes fields) rest) in
      rw
        (
          with_struct,
          come,
          read_fields-struct_bytes fields rest fit,
          drop-append (struct_bytes fields) rest (sum (sizes_of fields)) size,
        )
        refl

  part :
      (k : ℕ)
      → 9 + k < length frame
      → with_struct (sizes_of fields) make (take (9 + k) frame) ≡ wait
  unfolding with_struct
  part k less =
      let size = length-struct_bytes fields in
      let cut = length-take (9 + k) frame (omega arith) in
      let missing : ltb (length (take (9 + k) frame) - 9) (sum (sizes_of fields)) ≡ true =
        ground (arith, size, cut) in
      rw (with_struct, missing) refl

-- The messages that a pool sends to one further down, and those that it sends further up.
abbrev pub IsForUpstream : Message → Type 0
IsForUpstream (Message.stats s) = Unit
IsForUpstream (Message.balance amount address) = Unit
IsForUpstream _ = ⊥

abbrev pub IsForTrusted : Message → Type 0
IsForTrusted (Message.stats s) = ⊥
IsForTrusted (Message.balance amount address) = ⊥
IsForTrusted _ = Unit

pub upstream_round-Reads :
    (m : Message) → IsForUpstream m → All Fits (fields_of m) → Reads upstream_round m
unfolding upstream_round encode type_of fields_of
upstream_round-Reads (Message.stats s) h fit = (
  λ rest. whole _ (fields_of (Message.stats s)) 5 rest fit,
  part _ (fields_of (Message.stats s)) 5,
)
upstream_round-Reads (Message.balance amount address) h fit = (
  λ rest. whole _ (fields_of (Message.balance amount address)) 6 rest fit,
  part _ (fields_of (Message.balance amount address)) 6,
)
upstream_round-Reads Message.ping h fit = absurd h
upstream_round-Reads (Message.connect count) h fit = absurd h
upstream_round-Reads Message.disconnect h fit = absurd h
upstream_round-Reads (Message.share s) h fit = absurd h
upstream_round-Reads (Message.block b) h fit = absurd h

pub trusted_round-Reads :
    (m : Message) → IsForTrusted m → All Fits (fields_of m) → Reads trusted_round m
unfolding trusted_round encode type_of fields_of struct_bytes
trusted_round-Reads (Message.stats s) h fit = absurd h
trusted_round-Reads (Message.balance amount address) h fit = absurd h
trusted_round-Reads Message.ping h fit = (λ rest. refl, λ k less. absurd (omega arith))
trusted_round-Reads (Message.connect count) h fit = (
  λ rest. whole _ (fields_of (Message.connect count)) 1 rest fit,
  part _ (fields_of (Message.connect count)) 1,
)
trusted_round-Reads Message.disconnect h fit = (λ rest. refl, λ k less. absurd (omega arith))
trusted_round-Reads (Message.share s) h fit = (
  λ rest. whole _ (fields_of (Message.share s)) 3 rest fit,
  part _ (fields_of (Message.share s)) 3,
)
trusted_round-Reads (Message.block b) h fit = (
  λ rest. whole _ (fields_of (Message.block b)) 4 rest fit,
  part _ (fields_of (Message.block b)) 4,
)
