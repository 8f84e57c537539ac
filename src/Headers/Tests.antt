-- ===== src/Headers/Tests.antt =====
-- Runs of the model of block headers.
use salvium_pool.Prelude.{ℕ, ◌≡◌, ◌⊎◌, refl, false, none, some, List, [], ◌∷◌, arith}
use salvium_pool.Pool.Types.{Share, Block, PoolStats}
use salvium_pool.Pool.Memory.{Memory, memory_db, one_ne_zero}
use salvium_pool.Shares.{ScanOp, ShareDb}
use salvium_pool.Headers.{
  DaemonRequest, BlockScans, get_block_template, get_block_header_by_height, startup_loop,
  round_loop, rpc_on_last_block_header,
}
use salvium_pool.Headers.Start.{Gives, startup_loop-due, round_loop-since}
use salvium_pool.Headers.Last.{
  IsDescending, IsNewTop, IsOldNews, SeesTop, AsksFor, rpc_on_last_block_header-IsDescending,
}

abbrev block : ℕ → ℕ → Block
block height status = record {
  height = height;
  hash = 70;
  prev_hash = 69;
  difficulty = 100;
  status = status;
  reward = 0;
  timestamp = height;
}

abbrev share : ℕ → Share
share time = record { height = 7; difficulty = 50; address = 3; timestamp = time }

abbrev stats : PoolStats
stats = record {
  network_difficulty = 1000;
  network_hashrate = 8;
  network_height = 7;
  connected_accounts = 0;
  pool_hashrate = 0;
  round_hashes = 5;
  pool_blocks_found = 0;
  last_block_found = 9;
  last_template_fetched = 0;
}

abbrev memory : Memory
memory = record { balances = λ a. none; shares = λ h. []; blocks = λ h. []; payments = λ a. [] }

-- A scan is the list that is left; it starts after what the test gives it first.
abbrev next_block : List Block → ℕ × Block × List Block
next_block [] = (1, block 0 0, [])
next_block (b ∷ blocks) = (0, b, blocks)

abbrev scans : BlockScans memory_db
scans = record {
  Scan = List Block;
  scan_open = λ t. (0, []);
  scan_get = λ op t scan. next_block scan;
}

abbrev next_share : List Share → ℕ × Share × List Share
next_share [] = (1, share 0, [])
next_share (s ∷ shares) = (0, s, shares)

abbrev tables : ShareDb memory_db
tables = record {
  Scan = List Share;
  scan_open = λ t. (0, []);
  scan_get = λ op t scan. next_share scan;
}

block_steps :
    (txn : Memory) (scan blocks : List Block)
    → scan ≡ blocks
    → Gives (λ s. s) (scans.scan_get ScanOp.next txn scan) blocks
block_steps txn scan [] e = rw e one_ne_zero
block_steps txn scan (b ∷ blocks) e = rw e (refl, refl, refl)

share_steps :
    (txn : Memory) (scan shares : List Share)
    → scan ≡ shares
    → Gives (λ s. s) (tables.scan_get ScanOp.prev txn scan) shares
share_steps txn scan [] e = rw e one_ne_zero
share_steps txn scan (s ∷ shares) e = rw e (refl, refl, refl)

startup_loop-due_run :
    startup_loop memory_db scans false 100 4 memory
      (0, block 20 0, block 30 2 ∷ block 90 0 ∷ [])
      stats
    ≡ some (
      record stats { pool_blocks_found = 3; last_block_found = 90 },
      get_block_header_by_height 20 ∷ [],
    )
startup_loop-due_run =
    startup_loop-due memory_db scans (λ s. s) block_steps 100 4 memory
      (0, block 20 0, block 30 2 ∷ block 90 0 ∷ []) stats
      (block 20 0 ∷ block 30 2 ∷ block 90 0 ∷ []) (refl, refl, refl) (omega arith) (omega arith)

round_loop-since_example :
    round_loop memory_db tables 9 4 memory (0, share 12, share 11 ∷ share 8 ∷ []) 5 ≡ some 105
round_loop-since_example =
    round_loop-since memory_db tables (λ s. s) share_steps 9 4 memory
      (0, share 12, share 11 ∷ share 8 ∷ []) 5 (share 12 ∷ share 11 ∷ share 8 ∷ [])
      (refl, refl, refl) (omega arith) (omega arith)

abbrev reported : List Block × PoolStats × List DaemonRequest
reported = rpc_on_last_block_header (some 77) (some (block 100 0)) (block 99 0 ∷ []) stats

rpc_on_last_block_header-IsDescending_example :
    IsDescending reported.0
    × SeesTop reported.0 reported.1
    × ((IsNewTop (block 100 0) (block 99 0 ∷ [])
          × (reported.0 ≡ block 100 0 ∷ block 99 0 ∷ [])
          × AsksFor (block 100 0) reported.2)
        ⊎ (IsOldNews (block 100 0) (block 99 0 ∷ [])
            × (reported.0 ≡ block 99 0 ∷ [])
            × (reported.2 ≡ get_block_template ∷ [])))
rpc_on_last_block_header-IsDescending_example =
    rpc_on_last_block_header-IsDescending (some 77) (block 100 0) (block 99 0 ∷ []) stats
      (omega arith) tt
