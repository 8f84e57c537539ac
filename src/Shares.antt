-- ===== src/Shares.antt =====
-- The sums over stored shares of src/pool.c that the web page shows: account_pplns_shares and
-- pool_pplns_shares go back from the newest share to a time, account_total_shares goes over all.
pub mod Sums
mod Tests
use salvium_pool.Prelude.{
  ℕ, zero, suc, ◌+◌, ◌-◌, ◌*◌, ◌%◌, ◌^◌, Bool, true, false, Option, none, some, not, ◌==◌, ltb,
  if◌then◌else◌,
}
use salvium_pool.Pool.Types.{Address, Share}
use salvium_pool.Pool.Lmdb.{Lmdb, pdb_txn_begin}

-- MDB_FIRST, MDB_NEXT, MDB_LAST and MDB_PREV on the table of shares.
pub data ScanOp : Type 0 where
  first : ScanOp
  next : ScanOp
  last : ScanOp
  prev : ScanOp

-- What these functions use of LMDB beside `Pool.Lmdb`.
pub record ShareDb (db : Lmdb) : Type 1 where
  pub Scan : Type 0
  pub scan_open : db.Txn → ℕ × Scan
  pub scan_get : ScanOp → db.Txn → Scan → ℕ × Share × Scan

abbrev pub is_of : Address → Share → Bool
is_of address share = share.address == address

abbrev pub any_share : Share → Bool
any_share share = true

-- A `time_t` that goes below 0 is 0 here; no share is older.
abbrev pub a_day_before : ℕ → ℕ
a_day_before now = now - 24 * 3600

module _ (db : Lmdb) (tables : ShareDb db) where
  open tables use {Scan, scan_open, scan_get}

  -- `while (1)` with a cutoff time; `counts` is the test of the address, and `none` is out of fuel.
  pub sum_since : (Share → Bool) → ℕ → ℕ → ℕ → ScanOp → db.Txn → Scan → Option ℕ
  sum_since counts cutoff_time zero total_shares op txn scan = none
  sum_since counts cutoff_time (suc fuel) total_shares op txn scan =
      let (rc, share, scan') = scan_get op txn scan in
      let total =
        if counts share then (total_shares + share.difficulty) % 2 ^ 64 else total_shares in
      let rest = sum_since counts cutoff_time fuel total ScanOp.prev txn scan' in
      if not (rc == 0)
      then some total_shares
      else if ltb share.timestamp cutoff_time
      then some total_shares
      else rest

  -- `while (1)` over all shares
  pub sum_all : (Share → Bool) → ℕ → ℕ → ScanOp → db.Txn → Scan → Option ℕ
  sum_all counts zero total_shares op txn scan = none
  sum_all counts (suc fuel) total_shares op txn scan =
      let (rc, share, scan') = scan_get op txn scan in
      let total =
        if counts share then (total_shares + share.difficulty) % 2 ^ 64 else total_shares in
      let rest = sum_all counts fuel total ScanOp.next txn scan' in
      if not (rc == 0) then some total_shares else rest

  -- The loop's total, or 0 if the transaction or the cursor is refused.
  pub opened_sum : db.Txn → Option ℕ → Option ℕ
  opened_sum env total =
      if not (pdb_txn_begin db env == 0)
      then some 0
      else if not ((scan_open (db.child env)).0 == 0)
      then some 0
      else total

  pub pool_pplns_shares : ℕ → ℕ → db.Txn → Option ℕ
  pool_pplns_shares fuel now env =
      let txn = db.child env in
      opened_sum env
        (sum_since any_share (a_day_before now) fuel 0 ScanOp.last txn (scan_open txn).1)

  -- `too_long` is the test of the address's length.
  pub account_pplns_shares : ℕ → ℕ → Bool → Address → db.Txn → Option ℕ
  account_pplns_shares fuel now too_long address env =
      let txn = db.child env in
      let total =
        opened_sum env
          (sum_since (is_of address) (a_day_before now) fuel 0 ScanOp.last txn (scan_open txn).1) in
      if too_long then some 0 else total

  pub account_total_shares : ℕ → Bool → Address → db.Txn → Option ℕ
  account_total_shares fuel too_long address env =
      let txn = db.child env in
      let total =
        opened_sum env (sum_all (is_of address) fuel 0 ScanOp.first txn (scan_open txn).1) in
      if too_long then some 0 else total
