-- ===== src/Submit/Tests.antt =====
-- Runs of the submission handler's model.
use salvium_pool.Prelude.{ℕ, false, none, some, List, [], ◌∷◌, ◌++◌, replicate}
use salvium_pool.Pool.Types.{Config, HrStats, BlockTemplate, Job, Client}
use salvium_pool.Pool.Rational.{rational}
use salvium_pool.Work.{Crypto, Request}
use salvium_pool.Submit.{Effect, Miner, with_template}

abbrev config : Config (ℕ × ℕ)
config = record {
  pool_fee_wallet = 0;
  pool_start_diff = 100;
  pool_min_diff = 50;
  pool_fixed_diff = 0;
  pool_nicehash_diff = 0;
  share_mul = (2, 1);
  retarget_time = 120;
  retarget_ratio = (1, 2);
  pool_fee = (0, 1);
  payment_threshold = (1, 10);
  has_upstream = false;
  disable_payouts = false;
  disable_hash_check = false;
}

-- Every blob hashes to 2 ^ 248, which has a difficulty of 255.
abbrev hash : List ℕ
hash = replicate 31 0 ++ 1 ∷ []

abbrev crypto : Crypto
crypto = record {
  get_hashing_blob = λ block. some block;
  get_rx_hash = λ seed blob. hash;
  get_hash = λ blob variant height. hash;
  get_block_hash = λ block. 77;
}

abbrev stats : HrStats (ℕ × ℕ)
stats = record { last_calc = 1000; diff_since = 0; avg = replicate 6 (1, 1) }

abbrev client : Client (ℕ × ℕ)
client = record {
  fd = 5;
  address = 3;
  hashes = 0;
  hr_stats = stats;
  connected_since = 1000;
  is_xnp = false;
  is_nicehash = false;
  mode = 0;
  bad_shares = 2;
  downstream = false;
  downstream_accounts = 0;
  req_diff = 0;
}

abbrev template : BlockTemplate
template = record {
  hashing_blob = [];
  block_blob = replicate 60 0;
  difficulty = 1100;
  height = 7;
  prev_hash = 1;
  reserved_offset = 44;
  seed_hash = 2;
  next_seed_hash = 0;
  tx_count = 0;
}

abbrev job : Job
job = record {
  id = replicate 16 0x11;
  blob = [];
  block_template = some template;
  extra_nonce = 1;
  target = 200;
  submissions = [];
  miner_template = none;
}

abbrev miner : Miner (ℕ × ℕ)
miner = record {
  client = client;
  jobs = job ∷ [];
  account_hashes = 0;
  account_stats = stats;
  round_hashes = 10;
}

abbrev request : Request
request = record {
  nonce = some 5;
  result_hex = replicate 63 b'0' ++ b'1' ∷ [];
  job_id = replicate 32 b'1';
  pool_nonce = 0;
  worker_nonce = 0;
}

-- what a client gets early, with a number of its own
abbrev early : Client (ℕ × ℕ) → Job
early c = record job { id = replicate 16 0x22; extra_nonce = 2 }

abbrev first : Miner (ℕ × ℕ) × List Effect
first = with_template rational config crypto false 1030 early 4 request 5 0 job template miner
