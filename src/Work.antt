-- ===== src/Work.antt =====
-- What miner_on_submit of src/pool.c works with: the fields of a submission, the job that it names, the
-- block that it makes of the job's template, and the difficulty of a hash.
use salvium_pool.Prelude.{
  ℕ, suc, ◌+◌, ◌-◌, ◌*◌, ◌/◌, ◌%◌, ◌^◌, Bool, true, false, Option, none, some, List, [], ◌∷◌, ◌++◌,
  get_or, set, not, ◌&&◌, ◌||◌, ◌==◌, leb, if◌then◌else◌,
}
use salvium_pool.Pool.Types.{BlockTemplate, Job, Client}
use salvium_pool.Util.Hex.{hex_to_bin}
use salvium_pool.Util.Reverse.{reverse_bin}
use salvium_pool.Difficulty.{le_bytes, base_diff, bn_div}

-- The functions of src/xmr.cpp that are called, which lead into libraries outside the repository.
pub record Crypto : Type 0 where
  pub get_hashing_blob : List ℕ → Option (List ℕ)
  pub get_rx_hash : ℕ → List ℕ → List ℕ
  pub get_hash : List ℕ → ℕ → ℕ → List ℕ
  pub get_block_hash : List ℕ → ℕ

-- The fields of the message; `nonce` is what `strtoul` makes of its text.
pub record Request : Type 0 where
  pub nonce : Option ℕ
  pub result_hex : List ℕ
  pub job_id : List ℕ
  pub pool_nonce : ℕ
  pub worker_nonce : ℕ

-- MODE_SELF_SELECT
abbrev pub mode_self_select : ℕ
mode_self_select = 1

-- `memcmp` with as many bytes as the first text has
unfoldable pub same_bytes : List ℕ → List ℕ → Bool
same_bytes [] [] = true
same_bytes [] (y ∷ ys) = false
same_bytes (x ∷ xs) [] = false
same_bytes (x ∷ xs) (y ∷ ys) = (x == y) && same_bytes xs ys

-- The index of the first job with the id.
unfoldable pub find_id : List ℕ → List Job → Option ℕ
find_id jid [] = none
find_id jid (job ∷ jobs) = elim (same_bytes job.id jid) [
  | true ↦ some 0
  | false ↦ elim (find_id jid jobs) [ none ↦ none | some i ↦ some (suc i) ]
]

-- `client_find_job`, of a text of 32 characters
unfoldable pub client_find_job : List Job → List ℕ → Option ℕ
client_find_job jobs job_id = elim (hex_to_bin (job_id ++ 0 ∷ []) 16) [
  | none ↦ none
  | some jid ↦ find_id jid jobs
]

-- `ntohl` on a little-endian machine, of the lowest 32 bits
pub ntohl : ℕ → ℕ
ntohl v = v % 256 * 2 ^ 24 + v / 256 % 256 * 2 ^ 16 + v / 2 ^ 16 % 256 * 2 ^ 8 + v / 2 ^ 24 % 256

-- `memcpy` into a block
pub write : List ℕ → ℕ → List ℕ → List ℕ
write block offset [] = block
write block offset (b ∷ bytes) = write (set block offset b) (offset + 1) bytes

-- The number that a miner's four nonces make up in a `uint128_t`.
pub submission : ℕ → ℕ → ℕ → ℕ → ℕ
submission nonce extra_nonce pool_nonce worker_nonce =
    nonce + extra_nonce * 2 ^ 32 + pool_nonce * 2 ^ 64 + worker_nonce * 2 ^ 96

unfoldable pub already_submitted : ℕ → List ℕ → Bool
already_submitted sub [] = false
already_submitted sub (s ∷ submissions) = (s == sub) || already_submitted sub submissions

-- The block with what the pool and a proxy put in the reserved space.
unfoldable pub fill_reserved : {D : Type 0} → Client D → ℕ → Request → Job → BlockTemplate → List ℕ
fill_reserved client instance_id request job bt =
    let block = write bt.block_blob bt.reserved_offset (le_bytes 4 job.extra_nonce) in
    let block = write block (bt.reserved_offset + 4) (le_bytes 4 instance_id) in
    let proxied = write block (bt.reserved_offset + 8) (le_bytes 4 request.pool_nonce) in
    let proxied = write proxied (bt.reserved_offset + 12) (le_bytes 4 request.worker_nonce) in
    if client.mode == mode_self_select
    then bt.block_blob
    else if client.is_xnp
    then proxied
    else block

-- The nonces of a proxy count only outside the mode in which the miner selects its template.
unfoldable pub submission_of : {D : Type 0} → Client D → Request → Job → ℕ → ℕ
submission_of client request job nonce =
    let proxied = client.is_xnp && not (client.mode == mode_self_select) in
    submission nonce job.extra_nonce (if proxied then request.pool_nonce else 0)
      (if proxied then request.worker_nonce else 0)

pub pow_variant : List ℕ → ℕ
pow_variant block =
    let major_version = get_or block 0 0 % 256 in
    if leb 7 major_version then major_version - 6 else 0

-- the hash that the pool computes
pub pow_hash : Crypto → BlockTemplate → List ℕ → List ℕ → List ℕ
pow_hash crypto bt block hashing_blob =
    if leb 3 (pow_variant block)
    then crypto.get_rx_hash bt.seed_hash hashing_blob
    else crypto.get_hash hashing_blob (pow_variant block) bt.height

-- `BN_bin2bn`: the bytes with the highest first
pub of_be : ℕ → List ℕ → ℕ
of_be value [] = value
of_be value (b ∷ bytes) = of_be (value * 256 + b) bytes

-- `reverse_bin(result_hash, 32)` and the number of its bytes
pub hash_number : List ℕ → ℕ
hash_number hash = of_be 0 (reverse_bin hash 32)

-- `hd`, the difficulty that a hash meets
pub hash_difficulty : List ℕ → ℕ
hash_difficulty hash = bn_div base_diff (hash_number hash)
