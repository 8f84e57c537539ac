-- ===== src/Store.antt =====
-- store_share, store_block and account_balance of src/pool.c: single transactions that append a share or a
-- block under a height, or read a balance.
pub mod Append
mod Tests
use salvium_pool.Prelude.{ℕ, Bool, not, ◌==◌, if◌then◌else◌}
use salvium_pool.Pool.Types.{Address, Share, Block}
use salvium_pool.Pool.Lmdb.{Lmdb, pdb_txn_begin}

-- What these functions use of LMDB beside `Pool.Lmdb`: a put with MDB_APPENDDUP under a height.
pub record StoreDb (db : Lmdb) : Type 1 where
  pub share_append : ℕ → Share → db.Txn → ℕ × db.Txn
  pub block_append : ℕ → Block → db.Txn → ℕ × db.Txn

module _ (db : Lmdb) where
  -- What the two functions share once their cursor is open or has failed to open: the put is committed,
  -- and an error of it aborts the transaction.
  pub commit_append : ℕ → ℕ → ℕ × db.Txn → db.Txn → ℕ × db.Txn
  commit_append begun opened put env =
      if not (begun == 0)
      then (begun, env)
      else if not (opened == 0)
      then (opened, env)
      else if not (put.0 == 0)
      then (put.0, env)
      else db.txn_commit put.1 env

  module _ (stores : StoreDb db) where
    pub store_share : ℕ → Share → db.Txn → ℕ × db.Txn
    store_share height share env =
        let txn = db.child env in
        commit_append (pdb_txn_begin db env) (db.share_cursor txn).0
          (stores.share_append height share txn) env

    pub store_block : ℕ → Block → db.Txn → ℕ × db.Txn
    store_block height block env =
        let txn = db.child env in
        commit_append (pdb_txn_begin db env) (db.block_cursor txn).0
          (stores.block_append height block txn) env

  -- The balance that the web page shows; `too_long` is the test of the address's length.
  pub account_balance : Bool → Address → db.Txn → ℕ
  account_balance too_long address env =
      let txn = db.child env in
      let (rc, balance) = db.balance_get address txn in
      if too_long
      then 0
      else if not (pdb_txn_begin db env == 0)
      then 0
      else if not (db.balance_cursor txn == 0)
      then 0
      else if not (rc == 0)
      then 0
      else balance
