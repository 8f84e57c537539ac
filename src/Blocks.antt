-- ===== src/Blocks.antt =====
-- process_blocks of src/pool.c: the block headers that the daemon reports settle the stored blocks at
-- their heights, and a block that is unlocked is paid out.
pub mod Fate
pub mod Visit
pub mod Scan
pub mod Settle
pub mod Again
mod Tests
use salvium_pool.Prelude.{
  ℕ, zero, suc, ◌≡◌, Bool, Option, none, some, List, [], ◌∷◌, not, ◌==◌, bit_or, bit_and,
  if◌then◌else◌,
}
use salvium_pool.Pool.Types.{Config, Block, block_locked, block_unlocked, block_orphaned}
use salvium_pool.Pool.Double.{Double}
use salvium_pool.Pool.Lmdb.{Lmdb, CursorOp, pdb_txn_begin}
use salvium_pool.Payout.{payout_block}

-- `nb.status |= BLOCK_ORPHANED`
pub orphaned : Block → Block
orphaned sb = record sb { status = bit_or sb.status block_orphaned }

-- `nb.status |= BLOCK_UNLOCKED; nb.reward = ib->reward`
pub unlocked : Block → Block → Block
unlocked ib sb = record sb { status = bit_or sb.status block_unlocked; reward = ib.reward }

module _ (fp : Double) (db : Lmdb) (config : Config fp.D) (fuel : ℕ) where
  open db use {Txn, Cursor, block_put, block_get}

  -- `mdb_cursor_put(cursor, &key, &new_val, MDB_CURRENT)`, of which the code is not looked at
  abbrev put_current : Block → Block → Cursor → Txn → Txn
  put_current ib nb cursor txn = (block_put ib.height nb txn cursor).1

  -- The block is paid out, and put if that succeeded.
  pub settle_payout : Block → Block → Cursor → Txn → Option Txn
  settle_payout ib nb cursor txn = elim (payout_block fp db config nb fuel txn) [
    | none ↦ none
    | some out ↦ some (if out.0 == 0 then put_current ib nb cursor out.1 else out.1)
  ]

  -- The rest of a round for a stored block `sb` that was found.
  pub visit : Block → Block → Cursor → Txn → Option Txn
  visit ib sb cursor txn =
      if not (sb.status == block_locked)
      then some txn
      else if not (ib.hash == sb.hash)
      then some (put_current ib (orphaned sb) cursor txn)
      else if not (ib.prev_hash == sb.prev_hash)
      then some (put_current ib (orphaned sb) cursor txn)
      else if not (bit_and ib.status block_orphaned == 0)
      then some (put_current ib (orphaned sb) cursor txn)
      else if config.has_upstream
      then some (put_current ib (unlocked ib sb) cursor txn)
      else settle_payout ib (unlocked ib sb) cursor txn

  -- `while (1)` for one header: the stored blocks at its height; `none` when the fuel is used up.
  pub scan : ℕ → CursorOp → Block → Cursor → Txn → Option (Cursor × Txn)
  scan zero op ib cursor txn = none
  scan (suc rounds) op ib cursor txn =
      let (rc, sb, cursor') = block_get op ib.height txn cursor in
      let visited = visit ib sb cursor' txn in
      let after : Option (Cursor × Txn) = elim visited [
        | none ↦ none
        | some txn' ↦ scan rounds CursorOp.next_dup ib cursor' txn'
      ] in
      if not (rc == 0) then some (cursor', txn) else after

  -- `for (size_t i=0; i<count; i++)`
  pub each_header : ℕ → List Block → Cursor → Txn → Option Txn
  each_header rounds [] cursor txn = some txn
  each_header rounds (ib ∷ blocks) cursor txn = elim (scan rounds CursorOp.set ib cursor txn) [
    | none ↦ none
    | some (cursor', txn') ↦ each_header rounds blocks cursor' txn'
  ]

  -- The code, and the database afterwards; only the process with `abattoir` settles blocks.
  pub process_blocks : Bool → ℕ → List Block → Txn → Option (ℕ × Txn)
  process_blocks abattoir rounds blocks parent =
      let txn = db.child parent in
      let begun = pdb_txn_begin db parent in
      let (opened, cursor) = db.block_cursor txn in
      let settled = each_header rounds blocks cursor txn in
      let committed : Option (ℕ × Txn) = elim settled [
        | none ↦ none
        | some txn' ↦ some (db.txn_commit txn' parent)
      ] in
      if not abattoir
      then some (0, parent)
      else if not (begun == 0)
      then some (begun, parent)
      else if not (opened == 0)
      then some (opened, parent)
      else committed
