-- ===== src/Blocks/Tests.antt =====
-- Runs of process_blocks's model on a database in memory.
use salvium_pool.Prelude.{ℕ, zero, suc, ◌≡◌, refl, true, false, none, some, List, [], ◌∷◌, arith}
use salvium_pool.Pool.Types.{Config, Share, Block}
use salvium_pool.Pool.Rational.{rational}
use salvium_pool.Pool.Lmdb.{pdb_txn_begin}
use salvium_pool.Pool.Memory.{Memory, memory_db, memory_db-IsReliable, memory_db-HasBlocks}
use salvium_pool.Balance.{balance_add}
use salvium_pool.Payout.{
  fee_of, raw_amount, gross_amount, pay_fee, pay_share, round, pay_loop, finish, payout_block,
}
use salvium_pool.Payout.Spec.{IsSane, credits, credit_all}
use salvium_pool.Blocks.{
  process_blocks, each_header, scan, visit, settle_payout, orphaned, unlocked,
}
use salvium_pool.Blocks.Settle.{settle_all, owed_headers, AllPayable, process_blocks-settles}
use salvium_pool.Blocks.Again.{process_blocks-again}

abbrev config : Config (ℕ × ℕ)
config = record {
  pool_fee_wallet = 0;
  pool_start_diff = 100;
  pool_min_diff = 50;
  pool_fixed_diff = 0;
  pool_nicehash_diff = 0;
  share_mul = (2, 1);
  retarget_time = 120;
  retarget_ratio = (1, 2);
  pool_fee = (0, 1);
  payment_threshold = (1, 10);
  has_upstream = false;
  disable_payouts = false;
  disable_hash_check = false;
}

config-IsSane : IsSane rational config
unfolding fee_of
config-IsSane = record { fee_le = λ amount. omega arith }

abbrev block_of : ℕ → ℕ → ℕ → ℕ → Block
block_of hash prev_hash status reward = record {
  height = 1;
  hash = hash;
  prev_hash = prev_hash;
  difficulty = 100;
  status = status;
  reward = reward;
  timestamp = 6;
}

-- At height 1 the chain's block, one that lost to it, and one that was paid before.
abbrev stored : List Block
stored = block_of 70 69 0 500 ∷ block_of 71 69 0 500 ∷ block_of 70 69 1 500 ∷ []

abbrev blocks : ℕ → List Block
blocks zero = []
blocks (suc zero) = stored
blocks (suc (suc h)) = []

abbrev shares : ℕ → List Share
shares zero = record { height = 0; difficulty = 300; address = 4; timestamp = 5 } ∷ []
shares (suc h) = record { height = 1; difficulty = 40; address = 3; timestamp = 5 } ∷ []

abbrev memory : Memory
memory = record { balances = λ a. none; shares = shares; blocks = blocks; payments = λ a. [] }

abbrev header : Block
header = block_of 70 69 0 600

-- The loser is orphaned; the header's reward of 600 is shared 120 to 480.
settled_table :
    settle_all (header ∷ []) blocks 1
    ≡ block_of 70 69 1 600 ∷ block_of 71 69 2 500 ∷ block_of 70 69 1 500 ∷ []
settled_table = refl

owed_credits : owed_headers rational config shares (header ∷ []) blocks ≡ (3, 120) ∷ (4, 480) ∷ []
unfolding credits fee_of raw_amount
owed_credits = refl

payable : AllPayable rational config shares 9 9 (header ∷ []) blocks
unfolding raw_amount
payable = omega arith

process_blocks-settles_example :
    (out : ℕ × Memory) × (process_blocks rational memory_db config 9 true 9 (header ∷ []) memory
      ≡ some out)
    × (out.0 ≡ 0)
    × (out.1.blocks ≡ settle_all (header ∷ []) blocks)
    × (out.1.balances
        ≡ credit_all (λ a. none) (owed_headers rational config shares (header ∷ []) blocks))
    × (out.1.shares ≡ shares)
process_blocks-settles_example =
    process_blocks-settles rational memory_db config memory_db-IsReliable memory_db-HasBlocks
      config-IsSane 9 9 (header ∷ []) memory payable

first_run :
    (out : ℕ × Memory) × (process_blocks rational memory_db config 9 true 9 (header ∷ []) memory
      ≡ some out)
unfolding process_blocks each_header scan visit settle_payout orphaned unlocked payout_block finish
    pay_loop round pay_share gross_amount raw_amount fee_of pay_fee balance_add pdb_txn_begin
first_run = (_, refl)

payable_again :
    AllPayable rational config first_run.0.1.shares 9 9 (header ∷ []) first_run.0.1.blocks
unfolding first_run raw_amount
payable_again = omega arith

process_blocks-again_example :
    (second : ℕ × Memory) × (process_blocks rational memory_db config 9 true 9
        (header ∷ [])
        first_run.0.1
      ≡ some second)
    × (second.1.blocks ≡ first_run.0.1.blocks)
    × (second.1.balances ≡ first_run.0.1.balances)
process_blocks-again_example =
    process_blocks-again rational memory_db config memory_db-IsReliable memory_db-HasBlocks
      config-IsSane 9 9 (header ∷ []) memory first_run.0 payable payable_again first_run.1
