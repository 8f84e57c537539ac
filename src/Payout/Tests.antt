-- ===== src/Payout/Tests.antt =====
-- Runs of payout_block's model on a database in memory.
use salvium_pool.Prelude.{
  ℕ, zero, suc, ◌≤◌, ◌≡◌, refl, false, Option, none, some, All, List, [], ◌∷◌, arith,
}
use salvium_pool.Pool.Types.{Config, Share, Block}
use salvium_pool.Pool.Rational.{rational}
use salvium_pool.Pool.Lmdb.{CursorOp}
use salvium_pool.Pool.Memory.{Memory, memory_db, memory_db-IsReliable}
use salvium_pool.Balance.{balance_add}
use salvium_pool.Pool.Lmdb.{pdb_txn_begin}
use salvium_pool.Payout.{
  Round, Next, fee_of, raw_amount, gross_amount, pay_fee, pay_share, round, pay_loop, payout_block,
}
use salvium_pool.Payout.Spec.{IsSane, credits, credit_all, sum, Credit, IsSmall}
use salvium_pool.Payout.Bounds.{Within, state_of, pay_loop-Within}
use salvium_pool.Payout.Loop.{payout_block-credits, payout_block-reward, window}

-- shares count double, and the pool takes one per cent
abbrev pub config : Config (ℕ × ℕ)
config = record {
  pool_fee_wallet = 9;
  pool_start_diff = 100;
  pool_min_diff = 50;
  pool_fixed_diff = 0;
  pool_nicehash_diff = 0;
  share_mul = (2, 1);
  retarget_time = 120;
  retarget_ratio = (1, 2);
  pool_fee = (1, 100);
  payment_threshold = (1, 10);
  has_upstream = false;
  disable_payouts = false;
  disable_hash_check = false;
}

abbrev pub share_of : ℕ → ℕ → Share
share_of difficulty address = record {
  height = 2;
  difficulty = difficulty;
  address = address;
  timestamp = 5;
}

abbrev pub block : Block
block = record {
  height = 2;
  hash = 70;
  prev_hash = 69;
  difficulty = 500;
  status = 0;
  reward = 1000;
  timestamp = 6;
}

-- two shares at height 2, none at 1, two at 0 of which the reward covers the first only in part
abbrev pub shares : ℕ → List Share
shares zero = share_of 700 3 ∷ share_of 100 4 ∷ []
shares (suc zero) = []
shares (suc (suc h)) = share_of 200 3 ∷ share_of 300 4 ∷ []

abbrev pub memory : Memory
memory = record { balances = λ a. none; shares = shares; blocks = λ h. []; payments = λ a. [] }

fee_le : (amount : ℕ) → fee_of rational config amount ≤ amount
unfolding fee_of
fee_le amount = omega arith

pub config-IsSane : IsSane rational config
config-IsSane = record { fee_le = fee_le }

credited_amounts :
    credits rational config block 0
      (window rational memory_db config block memory_db-IsReliable config-IsSane memory)
    ≡ (9, 2) ∷ (3, 198) ∷ (9, 3) ∷ (4, 297) ∷ (9, 5) ∷ (3, 495) ∷ []
unfolding credits fee_of raw_amount
credited_amounts = refl

-- a loop that has still the whole reward to pay, at the block's height
abbrev start : Round memory_db
start = record {
  height = 2;
  op = CursorOp.set;
  total_paid = 0;
  cursor = record { shares_left = []; block_key = 0; block_index = 0 };
  txn = memory;
}

abbrev nine_rounds : Round memory_db → Option (Next memory_db)
nine_rounds r = pay_loop rational memory_db config block 9 r

loop_ends : (n : Next memory_db) × (nine_rounds start ≡ some n)
unfolding pay_loop round pay_share gross_amount raw_amount fee_of pay_fee balance_add pdb_txn_begin
loop_ends = (
  Next.break_loop (record start {
    height = 0;
    op = CursorOp.next_dup;
    total_paid = 1000;
    cursor = record { shares_left = []; block_key = 0; block_index = 0 };
    txn = record memory { balances = _ };
  }),
  refl,
)

small :
    All
      (IsSmall rational config block)
      (window rational memory_db config block memory_db-IsReliable config-IsSane memory)
unfolding raw_amount
small = omega arith

pay_loop-Within_example :
    Within rational config block memory_db (state_of rational config block memory_db loop_ends.0)
pay_loop-Within_example =
    pay_loop-Within rational config block memory_db 9 start loop_ends.0 (omega arith) (omega arith)
      loop_ends.1

payout_block-credits_example :
    (out : ℕ × Memory) × (payout_block rational memory_db config block 7 memory ≡ some out)
    × (out.0 ≡ 0)
    × (out.1.balances
        ≡ credit_all
            (λ a. none)
            (credits rational config block 0
              (share_of 200 3 ∷ share_of 300 4 ∷ share_of 700 3 ∷ share_of 100 4 ∷ [])))
payout_block-credits_example =
    payout_block-credits rational memory_db config block memory_db-IsReliable config-IsSane 7 memory
      small (omega arith)

payout_block-reward_example :
    (out : ℕ × Memory) × (added : List Credit) × (payout_block rational memory_db config block 7
        memory
      ≡ some out)
    × (out.1.balances ≡ credit_all (λ a. none) added)
    × (sum added ≤ 1000)
payout_block-reward_example =
    payout_block-reward rational memory_db config block memory_db-IsReliable config-IsSane 7 memory
      small (omega arith)
