-- ===== src/Protocol.antt =====
-- The protocol between pools in src/pool.c: a message is the bytes of `msgbin`, a byte for its type and the bytes
-- of a struct, and a reader takes messages from an `evbuffer` while whole ones are there. An `evbuffer`
-- is the list of its bytes; a struct is its fields as a 64-bit little-endian machine lays them out,
-- with the padding, and a text in it is the number that its bytes make up.
pub mod Struct
pub mod Frames
pub mod Sent
pub mod Stream
use salvium_pool.Prelude.{
  ℕ, zero, suc, ◌+◌, ◌-◌, Bool, true, false, Option, none, some, List, [], ◌∷◌, ◌++◌, length,
  get_or, take, drop, map, ◌||◌, ltb, ◌==◌, if◌then◌else◌,
}
use salvium_pool.Pool.Types.{Address, Share, Block, PoolStats, Message}
use salvium_pool.Difficulty.{le_bytes}
use salvium_pool.Difficulty.Word.{of_le}

abbrev pub msgbin : List ℕ
msgbin = 0x4D ∷ 0x4E ∷ 0x52 ∷ 0x4F ∷ 0x50 ∷ 0x4F ∷ 0x4F ∷ 0x4C ∷ []

-- `enum msgbin_type`
unfoldable pub type_of : Message → ℕ
type_of Message.ping = 0
type_of (Message.connect count) = 1
type_of Message.disconnect = 2
type_of (Message.share s) = 3
type_of (Message.block b) = 4
type_of (Message.stats s) = 5
type_of (Message.balance amount address) = 6

-- the fields of a struct: how many bytes each has, and its value
abbrev pub Fields : Type 0
Fields = List (ℕ × ℕ)

abbrev pub share_fields : Share → Fields
share_fields s = (8, s.height) ∷ (8, s.difficulty) ∷ (128, s.address) ∷ (8, s.timestamp) ∷ []

abbrev pub block_fields : Block → Fields
block_fields b =
    (8, b.height)
    ∷ (64, b.hash)
    ∷ (64, b.prev_hash)
    ∷ (8, b.difficulty)
    ∷ (4, b.status)
    ∷ (4, 0)
    ∷ (8, b.reward)
    ∷ (8, b.timestamp)
    ∷ []

abbrev pub stats_fields : PoolStats → Fields
stats_fields s =
    (8, s.network_difficulty)
    ∷ (8, s.network_hashrate)
    ∷ (8, s.network_height)
    ∷ (4, s.connected_accounts)
    ∷ (4, 0)
    ∷ (8, s.pool_hashrate)
    ∷ (8, s.round_hashes)
    ∷ (4, s.pool_blocks_found)
    ∷ (4, 0)
    ∷ (8, s.last_block_found)
    ∷ (8, s.last_template_fetched)
    ∷ []

unfoldable pub fields_of : Message → Fields
fields_of Message.ping = []
fields_of (Message.connect count) = (4, count) ∷ []
fields_of Message.disconnect = []
fields_of (Message.share s) = share_fields s
fields_of (Message.block b) = block_fields b
fields_of (Message.stats s) = stats_fields s
fields_of (Message.balance amount address) = (8, amount) ∷ (128, address) ∷ []

-- `memcpy` from a struct
unfoldable pub struct_bytes : Fields → List ℕ
struct_bytes [] = []
struct_bytes ((size, value) ∷ fields) = le_bytes size value ++ struct_bytes fields

-- what the functions that send a message put into the output
unfoldable pub encode : Message → List ℕ
encode m = msgbin ++ type_of m ∷ struct_bytes (fields_of m)

-- `memcpy` to a struct, of fields of these sizes
unfoldable pub read_fields : List ℕ → List ℕ → List ℕ
read_fields [] bytes = []
read_fields (size ∷ sizes) bytes = of_le (take size bytes) ∷ read_fields sizes (drop size bytes)

abbrev pub share_of_fields : List ℕ → Share
share_of_fields v = record {
  height = get_or v 0 0;
  difficulty = get_or v 1 0;
  address = get_or v 2 0;
  timestamp = get_or v 3 0;
}

abbrev pub block_of_fields : List ℕ → Block
block_of_fields v = record {
  height = get_or v 0 0;
  hash = get_or v 1 0;
  prev_hash = get_or v 2 0;
  difficulty = get_or v 3 0;
  status = get_or v 4 0;
  reward = get_or v 6 0;
  timestamp = get_or v 7 0;
}

abbrev pub stats_of_fields : List ℕ → PoolStats
stats_of_fields v = record {
  network_difficulty = get_or v 0 0;
  network_hashrate = get_or v 1 0;
  network_height = get_or v 2 0;
  connected_accounts = get_or v 3 0;
  pool_hashrate = get_or v 5 0;
  round_hashes = get_or v 6 0;
  pool_blocks_found = get_or v 7 0;
  last_block_found = get_or v 9 0;
  last_template_fetched = get_or v 10 0;
}

-- What a round of a reader's loop does: it waits for more, gives the input up, or takes a message.
pub data Round : Type 0 where
  wait : Round
  give_up : Round
  took : Message → List ℕ → Round

abbrev pub sum : List ℕ → ℕ
sum [] = 0
sum (n ∷ ns) = n + sum ns

abbrev pub share_sizes : List ℕ
share_sizes = 8 ∷ 8 ∷ 128 ∷ 8 ∷ []

abbrev pub block_sizes : List ℕ
block_sizes = 8 ∷ 64 ∷ 64 ∷ 8 ∷ 4 ∷ 4 ∷ 8 ∷ 8 ∷ []

abbrev pub stats_sizes : List ℕ
stats_sizes = 8 ∷ 8 ∷ 8 ∷ 4 ∷ 4 ∷ 8 ∷ 8 ∷ 4 ∷ 4 ∷ 8 ∷ 8 ∷ []

-- A message with a struct after its first nine bytes, if the whole of it has come.
unfoldable pub with_struct : List ℕ → (List ℕ → Message) → List ℕ → Round
with_struct sizes make input =
    let rest = drop 9 input in
    if ltb (length input - 9) (sum sizes)
    then wait
    else took (make (read_fields sizes rest)) (drop (sum sizes) rest)

-- the `switch` of `upstream_on_read`
unfoldable pub upstream_round : ℕ → List ℕ → Round
upstream_round type input =
    if type == 5
    then with_struct stats_sizes (λ v. Message.stats (stats_of_fields v)) input
    else if type == 6
    then with_struct (8 ∷ 128 ∷ []) (λ v. Message.balance (get_or v 0 0) (get_or v 1 0)) input
    else give_up

-- the `switch` of `trusted_on_read`, to which a request for statistics is a ping
unfoldable pub trusted_round : ℕ → List ℕ → Round
trusted_round type input =
    if (type == 0) || (type == 5)
    then took Message.ping (drop 9 input)
    else if type == 1
    then with_struct (4 ∷ []) (λ v. Message.connect (get_or v 0 0)) input
    else if type == 2
    then took Message.disconnect (drop 9 input)
    else if type == 3
    then with_struct share_sizes (λ v. Message.share (share_of_fields v)) input
    else if type == 4
    then with_struct block_sizes (λ v. Message.block (block_of_fields v)) input
    else give_up

-- `evbuffer_search`, and the two `switch` statements with what they do to a state: `handle` a message, or
-- give the connection up.
module _ (evbuffer_search : List ℕ → List ℕ → Option ℕ) (round : ℕ → List ℕ → Round) {S : Type 0}
    (handle : Message → S → S) (give_up_on : S → S) where
  -- the loop of both readers, on fuel, with the input that is left
  unfoldable pub on_read : ℕ → List ℕ → S → List ℕ × S
  on_read zero input s = (input, s)
  on_read (suc fuel) input s =
      if ltb (length input) 9 then (input, s) else elim (evbuffer_search input msgbin) [
        | none ↦ ([], give_up_on s)
        | some pos ↦ elim (round (get_or input 8 0) input) [
          | wait ↦ (input, s)
          | give_up ↦ ([], give_up_on s)
          | took m rest ↦ on_read fuel rest (handle m s)
        ]
      ]
