-- ===== src/Payments.antt =====
-- send_payments and rpc_on_wallet_transferred of src/pool.c: the balances that reach the threshold are
-- sent to the wallet as payments, and when it has answered they are taken off the balances and stored.
-- The bag of payments is the list of its items in the order of memory, which `GrowBag.Iterate` shows the
-- loops over it to follow.
pub mod Collect
pub mod Deduct
pub mod Transferred
pub mod Cycle
mod Tests
use salvium_pool.Prelude.{
  ℕ, zero, suc, ◌+◌, ◌-◌, ◌≡◌, Bool, none, some, List, [], ◌∷◌, ◌||◌, not, Option, ◌==◌, ltb, leb,
  if◌then◌else◌,
}
use mathlib.Core.Option
use salvium_pool.Pool.Types.{Address, Config, Payment}
use salvium_pool.Pool.Double.{Double}
use salvium_pool.Pool.Lmdb.{Lmdb, pdb_txn_begin}

-- The cursor operations on a whole table: MDB_FIRST and MDB_NEXT.
pub data TableOp : Type 0 where
  first : TableOp
  next : TableOp

-- What these functions use of LMDB beside `Pool.Lmdb`: reading the table of balances from its start, and
-- appending to the table of payments.
pub record PaymentDb (db : Lmdb) : Type 1 where
  pub Scan : Type 0
  pub scan_open : db.Txn → ℕ × Scan
  pub scan_get : TableOp → db.Txn → Scan → ℕ × Address × ℕ × Scan
  pub payment_cursor : db.Txn → ℕ
  pub payment_put : Payment → db.Txn → ℕ × db.Txn

-- `1000000000000 * config.payment_threshold`
pub threshold_of : (fp : Double) → Config fp.D → ℕ
threshold_of fp config = fp.to_u64 (fp.mul (fp.of_u64 1000000000000) config.payment_threshold)

module _ (db : Lmdb) (tables : PaymentDb db) where
  open tables use {Scan, scan_get, payment_put}

  -- `while (1)` of `send_payments`; `none` when the fuel is used up.
  pub collect : ℕ → ℕ → TableOp → db.Txn → Scan → Option (List Payment)
  collect zero threshold op txn scan = none
  collect (suc fuel) threshold op txn scan =
      let (rc, address, amount, scan') = scan_get op txn scan in
      let rest = collect fuel threshold TableOp.next txn scan' in
      let payment : Payment = record { amount = amount; timestamp = 0; address = address } in
      if not (rc == 0)
      then some []
      else if ltb amount threshold
      then rest
      else Option.map (λ l. payment ∷ l) rest

  -- The code, and the payments of the request that is sent to the wallet, if there are any.
  pub send_payments : (fp : Double) → Config fp.D → ℕ → db.Txn → Option (ℕ × List Payment)
  send_payments fp config fuel env =
      let begun = pdb_txn_begin db env in
      let txn = db.child env in
      let (opened, scan) = tables.scan_open txn in
      let collected = collect fuel (threshold_of fp config) TableOp.first txn scan in
      if config.has_upstream || config.disable_payouts
      then some (0, [])
      else if not (begun == 0)
      then some (begun, [])
      else if not (opened == 0)
      then some (opened, [])
      else Option.map (λ l. (0, l)) collected

  -- One payment taken off its balance; the code of the put is only logged.
  pub deduct : Payment → db.Txn → db.Txn
  deduct p txn =
      let (rc, current) = db.balance_get p.address txn in
      let left = if leb p.amount current then current - p.amount else 0 in
      if not (rc == 0) then txn else (db.balance_put p.address left txn).1

  pub deduct_loop : List Payment → db.Txn → db.Txn
  deduct_loop [] txn = txn
  deduct_loop (p ∷ bag) txn = deduct_loop bag (deduct p txn)

  -- The payments are stored with the time of the answer.
  pub store_loop : ℕ → List Payment → db.Txn → db.Txn
  store_loop now [] txn = txn
  store_loop now (p ∷ bag) txn =
      store_loop now bag (payment_put (record p { timestamp = now }) txn).1

  -- The second transaction.
  pub store_payments : ℕ → List Payment → db.Txn → db.Txn
  store_payments now bag env =
      let txn = db.child env in
      let stored = db.txn_commit (store_loop now bag txn) env in
      if not (pdb_txn_begin db env == 0)
      then env
      else if not (tables.payment_cursor txn == 0)
      then env
      else if not (stored.0 == 0)
      then env
      else stored.1

  -- The database after the wallet's answer. An error in the answer is only logged.
  pub rpc_on_wallet_transferred : ℕ → List Payment → db.Txn → db.Txn
  rpc_on_wallet_transferred now bag env =
      let txn = db.child env in
      let deducted = db.txn_commit (deduct_loop bag txn) env in
      if not (pdb_txn_begin db env == 0)
      then env
      else if not (db.balance_cursor txn == 0)
      then env
      else if not (deducted.0 == 0)
      then env
      else store_payments now bag deducted.1
