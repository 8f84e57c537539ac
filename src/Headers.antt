-- ===== src/Headers.antt =====
-- What src/pool.c does with the daemon's block headers: rpc_on_last_block_header with startup_payout and
-- startup_scan_round_shares, rpc_on_block_headers_range, rpc_on_block_header_by_height and
-- rpc_on_block_submitted. An answer is the header that is parsed from it, none where the daemon
-- reports an error; the stack of headers is a list of at most four, newest first.
pub mod Start
pub mod Last
mod Tests
use salvium_pool.Prelude.{
  ℕ, zero, suc, ◌+◌, ◌-◌, ◌/◌, ◌%◌, ◌^◌, Bool, true, false, Option, none, some, List, [], ◌∷◌, ◌++◌,
  length, take, drop, not, ◌&&◌, ◌||◌, ◌==◌, ltb, leb, if◌then◌else◌,
}
use salvium_pool.Pool.Types.{Config, Share, Block, PoolStats, block_locked}
use salvium_pool.Pool.Double.{Double}
use salvium_pool.Pool.Lmdb.{Lmdb, pdb_txn_begin}
use salvium_pool.Shares.{ScanOp, ShareDb}
use salvium_pool.Store.{StoreDb, store_block}

-- BLOCK_TIME, BLOCK_HEADERS_MAX and BLOCK_HEADERS_RANGE
abbrev pub block_time : ℕ
block_time = 120

abbrev pub block_headers_max : ℕ
block_headers_max = 4

abbrev pub block_headers_range : ℕ
block_headers_range = 10

-- the requests that are sent to the daemon
pub data DaemonRequest : Type 0 where
  get_block_template : DaemonRequest
  get_block_headers_range : ℕ → ℕ → DaemonRequest
  get_block_header_by_height : ℕ → DaemonRequest

-- What startup_payout uses of LMDB beside `Pool.Lmdb`: a scan of the table of blocks.
pub record BlockScans (db : Lmdb) : Type 1 where
  pub Scan : Type 0
  pub scan_open : db.Txn → ℕ × Scan
  pub scan_get : ScanOp → db.Txn → Scan → ℕ × Block × Scan

module _ (db : Lmdb) (scans : BlockScans db) where
  -- `while (1)` over the stored blocks, from what the cursor gives; `none` is out of fuel
  unfoldable pub startup_loop :
      Bool
      → ℕ
      → ℕ
      → db.Txn
      → ℕ × Block × scans.Scan
      → PoolStats
      → Option (PoolStats × List DaemonRequest)
  startup_loop upstream height zero txn got stats = none
  startup_loop upstream height (suc fuel) txn (rc, block, scan) stats =
      let counted = record stats {
        pool_blocks_found = (stats.pool_blocks_found + 1) % 2 ^ 32;
        last_block_found = if upstream then stats.last_block_found else block.timestamp;
      } in
      let rest =
        startup_loop upstream height fuel txn (scans.scan_get ScanOp.next txn scan) counted in
      if not (rc == 0) then some (stats, []) else elim rest [
        | none ↦ none
        | some (stats', requests) ↦ some (
          stats',
          if ltb height ((block.height + 60) % 2 ^ 64)
              then requests
              else if not (block.status == block_locked)
              then requests
              else get_block_header_by_height block.height ∷ requests,
        )
      ]

  unfoldable pub startup_payout :
      Bool → ℕ → ℕ → db.Txn → PoolStats → Option (PoolStats × List DaemonRequest)
  startup_payout upstream height fuel env stats =
      let txn = db.child env in
      let (opened, scan) = scans.scan_open txn in
      let looped =
        startup_loop upstream height fuel txn (scans.scan_get ScanOp.first txn scan)
          (record stats { pool_blocks_found = 0 }) in
      if not (pdb_txn_begin db env == 0)
      then some (stats, [])
      else if not (opened == 0)
      then some (stats, [])
      else looped

module _ (db : Lmdb) (tables : ShareDb db) where
  -- `while (1)` back over the stored shares to the last block that was found
  unfoldable pub round_loop : ℕ → ℕ → db.Txn → ℕ × Share × tables.Scan → ℕ → Option ℕ
  round_loop last_block_found zero txn got round_hashes = none
  round_loop last_block_found (suc fuel) txn (rc, share, scan) round_hashes =
      let rest =
        round_loop last_block_found fuel txn (tables.scan_get ScanOp.prev txn scan)
          ((round_hashes + share.difficulty) % 2 ^ 64) in
      if not (rc == 0)
      then some round_hashes
      else if ltb last_block_found share.timestamp
      then rest
      else some round_hashes

  unfoldable pub startup_scan_round_shares : Bool → ℕ → db.Txn → PoolStats → Option PoolStats
  startup_scan_round_shares has_upstream fuel env stats =
      let txn = db.child env in
      let (opened, scan) = tables.scan_open txn in
      let looped =
        round_loop stats.last_block_found fuel txn (tables.scan_get ScanOp.last txn scan)
          stats.round_hashes in
      if has_upstream
      then some stats
      else if not (pdb_txn_begin db env == 0)
      then some stats
      else if not (opened == 0)
      then some stats
      else elim looped [ none ↦ none | some hashes ↦ some (record stats { round_hashes = hashes }) ]

-- whether the header is above the newest one
unfoldable pub is_above : Block → List Block → Bool
is_above block [] = true
is_above block (top ∷ headers) = ltb top.height block.height

unfoldable pub push_header : Block → List Block → List Block
push_header block headers = take block_headers_max (block ∷ headers)

-- the network's difficulty, hashrate and height
unfoldable pub network_stats : Block → PoolStats → PoolStats
network_stats top stats = record stats {
  network_difficulty = top.difficulty;
  network_hashrate = top.difficulty / block_time;
  network_height = top.height;
}

-- the newest header, or the one that is pushed when there is none
unfoldable pub newest_header : Block → List Block → Block
newest_header block [] = block
newest_header block (top ∷ headers) = if ltb top.height block.height then block else top

-- What rpc_on_last_block_header asks of the daemon; the start goes below 0 and back for the lowest height.
unfoldable pub next_requests : Bool → Block → List DaemonRequest
next_requests height_changed top =
    let end = top.height - 60 in
    let start = (end + 2 ^ 64 - block_headers_range + 1) % 2 ^ 64 in
    get_block_template
    ∷ (if height_changed && leb (block_headers_range + 60 - 1) top.height
        then get_block_headers_range start end ∷ []
        else [])

-- `update_pool_hr` on the statistics: the sum over the clients (`Relay.sum_hr`), none while there is a
-- connection to a pool further up.
unfoldable pub set_pool_hr : Option ℕ → PoolStats → PoolStats
set_pool_hr none stats = stats
set_pool_hr (some hr) stats = record stats { pool_hashrate = hr }

-- rpc_on_last_block_header after start-up.
unfoldable pub rpc_on_last_block_header :
    Option ℕ → Option Block → List Block → PoolStats → List Block × PoolStats × List DaemonRequest
rpc_on_last_block_header hr none headers stats = (headers, stats, [])
rpc_on_last_block_header hr (some block) headers stats =
    let changed = is_above block headers in
    let top = newest_header block headers in
    (
      if changed then push_header block headers else headers,
      set_pool_hr hr (network_stats top stats),
      next_requests changed top,
    )

-- The first header, with what start-up does before the rest.
unfoldable pub on_first_header :
    (db : Lmdb)
    → BlockScans db
    → ShareDb db
    → Bool
    → Bool
    → Option ℕ
    → ℕ
    → db.Txn
    → Block
    → PoolStats
    → Option (List Block × PoolStats × List DaemonRequest)
on_first_header db scans tables upstream has_upstream hr fuel env block stats =
    elim (startup_payout db scans upstream block.height fuel env stats) [
      | none ↦ none
      | some (paid, requests) ↦
          elim (startup_scan_round_shares db tables has_upstream fuel env paid) [
            | none ↦ none
            | some scanned ↦
                let (headers, stats', later) =
                  rpc_on_last_block_header hr (some block) [] scanned in
                some (headers, stats', requests ++ later)
          ]
    ]

-- The array of headers after a range has been read into its start; process_blocks then goes over the
-- whole of it.
unfoldable pub read_range : List Block → List Block → List Block
read_range headers array = headers ++ drop (length headers) array

-- `rpc_on_block_submitted`, whatever the daemon answers
unfoldable pub rpc_on_block_submitted :
    (db : Lmdb) → StoreDb db → Bool → Block → db.Txn → PoolStats → db.Txn × PoolStats
rpc_on_block_submitted db stores upstream b env stats =
    let found = record stats { pool_blocks_found = (stats.pool_blocks_found + 1) % 2 ^ 32 } in
    (
      (store_block db stores b.height b env).1,
      if upstream
          then found
          else (record found { last_block_found = b.timestamp; round_hashes = 0 }),
    )
