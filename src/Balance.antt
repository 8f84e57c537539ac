-- ===== src/Balance.antt =====
-- balance_add of src/pool.c, the one writer of credits to the table of balances.
pub mod Credit
mod Tests
use salvium_pool.Prelude.{ℕ, ◌+◌, ◌%◌, ◌^◌, ◌==◌, if◌then◌else◌}
use salvium_pool.Pool.Types.{Address}
use salvium_pool.Pool.Lmdb.{Lmdb, pdb_txn_begin}

module _ (db : Lmdb) where
  open db use {Txn, not_found, child, txn_commit, balance_cursor, balance_get, balance_put}

  -- What is put for a code of the lookup: a new entry, or the old amount and the new one together.
  abbrev pub put_amount : ℕ × ℕ → Address → ℕ → Txn → Txn
  put_amount (rc, current) address amount txn =
      (balance_put address (if rc == not_found then amount else (current + amount) % 2 ^ 64) txn).1

  -- The code and the parent's contents. The code of the put is logged and then replaced by that of the
  -- commit.
  unfoldable pub balance_add : Address → ℕ → Txn → ℕ × Txn
  balance_add address amount parent =
      let begun = pdb_txn_begin db parent in
      let txn = child parent in
      let opened = balance_cursor txn in
      let found = balance_get address txn in
      let rc = found.0 in
      if begun == 0
      then (if opened == 0
          then (if rc == not_found
              then txn_commit (put_amount found address amount txn) parent
              else if rc == 0
              then txn_commit (put_amount found address amount txn) parent
              else (rc, parent))
          else (opened, parent))
      else (begun, parent)
