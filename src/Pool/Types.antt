-- ===== src/Pool/Types.antt =====
-- The records of src/pool.c. An address or a hash is only copied and compared, so it is a number, and 0
-- is the empty string; a `uint64_t`, a `uint32_t` and a `time_t` are numbers.
use salvium_pool.Prelude.{ℕ, Bool, Option, List}

-- `enum block_status`, which the code also combines as bits
abbrev pub block_locked : ℕ
block_locked = 0

abbrev pub block_unlocked : ℕ
block_unlocked = 1

abbrev pub block_orphaned : ℕ
block_orphaned = 2

abbrev pub Address : Type 0
Address = ℕ

-- `share_t`
pub record Share : Type 0 where
  pub height : ℕ
  pub difficulty : ℕ
  pub address : Address
  pub timestamp : ℕ

-- `block_t`
pub record Block : Type 0 where
  pub height : ℕ
  pub hash : ℕ
  pub prev_hash : ℕ
  pub difficulty : ℕ
  pub status : ℕ
  pub reward : ℕ
  pub timestamp : ℕ

-- `payment_t`
pub record Payment : Type 0 where
  pub amount : ℕ
  pub timestamp : ℕ
  pub address : Address

-- The fields of `config_t` that the modelled parts read; `D` is the type `double`. An upstream host
-- is only tested for being set.
pub record Config (D : Type 0) : Type 0 where
  pub pool_fee_wallet : Address
  pub pool_start_diff : ℕ
  pub pool_min_diff : ℕ
  pub pool_fixed_diff : ℕ
  pub pool_nicehash_diff : ℕ
  pub share_mul : D
  pub retarget_time : ℕ
  pub retarget_ratio : D
  pub pool_fee : D
  pub payment_threshold : D
  pub has_upstream : Bool
  pub disable_payouts : Bool
  pub disable_hash_check : Bool

-- `hr_stats_t`; a `double` average for each interval
pub record HrStats (D : Type 0) : Type 0 where
  pub last_calc : ℕ
  pub diff_since : ℕ
  pub avg : List D

-- `block_template_t`, without the sizes of its texts
pub record BlockTemplate : Type 0 where
  pub hashing_blob : List ℕ
  pub block_blob : List ℕ
  pub difficulty : ℕ
  pub height : ℕ
  pub prev_hash : ℕ
  pub reserved_offset : ℕ
  pub seed_hash : ℕ
  pub next_seed_hash : ℕ
  pub tx_count : ℕ

-- `job_t`, with its submissions as a list
pub record Job : Type 0 where
  pub id : List ℕ
  pub blob : List ℕ
  pub block_template : Option BlockTemplate
  pub extra_nonce : ℕ
  pub target : ℕ
  pub submissions : List ℕ
  pub miner_template : Option BlockTemplate

-- The fields of `client_t` that the modelled parts read, without the stack of its jobs.
pub record Client (D : Type 0) : Type 0 where
  pub fd : ℕ
  pub address : Address
  pub hashes : ℕ
  pub hr_stats : HrStats D
  pub connected_since : ℕ
  pub is_xnp : Bool
  pub is_nicehash : Bool
  pub mode : ℕ
  pub bad_shares : ℕ
  pub downstream : Bool
  pub downstream_accounts : ℕ
  pub req_diff : ℕ

-- `account_t`
pub record Account (D : Type 0) : Type 0 where
  pub address : Address
  pub worker_count : ℕ
  pub connected_since : ℕ
  pub hashes : ℕ
  pub hr_stats : HrStats D

-- `pool_stats_t` of src/webui.h
pub record PoolStats : Type 0 where
  pub network_difficulty : ℕ
  pub network_hashrate : ℕ
  pub network_height : ℕ
  pub connected_accounts : ℕ
  pub pool_hashrate : ℕ
  pub round_hashes : ℕ
  pub pool_blocks_found : ℕ
  pub last_block_found : ℕ
  pub last_template_fetched : ℕ

-- What a pool and the pools below it say to each other, by `enum msgbin_type`.
pub data Message : Type 0 where
  ping : Message
  connect : ℕ → Message
  disconnect : Message
  share : Share → Message
  block : Block → Message
  stats : PoolStats → Message
  balance : ℕ → Address → Message
