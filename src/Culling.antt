-- ===== src/Culling.antt =====
-- timer_on_10m of src/pool.c: every ten minutes payments are sent, and shares that are too old are deleted from the
-- start of the table of shares.
pub mod Oldest
mod Tests
use salvium_pool.Prelude.{
  leb, ◌||◌, ℕ, zero, suc, ◌+◌, ◌-◌, ◌*◌, ◌%◌, ◌^◌, Bool, Option, none, some, List, not, ◌==◌, ltb,
  if◌then◌else◌,
}
use salvium_pool.Pool.Types.{Config, Share, Payment}
use salvium_pool.Pool.Double.{Double}
use salvium_pool.Pool.Lmdb.{Lmdb, pdb_txn_begin}
use salvium_pool.Payments.{PaymentDb, TableOp, send_payments}

-- What the loop uses of LMDB beside `Pool.Lmdb`: MDB_FIRST and MDB_NEXT on the table of shares, and
-- mdb_cursor_del, which leaves the cursor before the share that follows.
pub record CullDb (db : Lmdb) : Type 1 where
  pub Sweep : Type 0
  pub sweep_open : db.Txn → ℕ × Sweep
  pub sweep_get : TableOp → db.Txn → Sweep → ℕ × Share × Sweep
  pub sweep_delete : db.Txn → Sweep → ℕ × db.Txn × Sweep

-- How the loop is left: through `break`, with the count of shares deleted, or to `abort`.
pub data Culled (db : Lmdb) : Type 0 where
  break_loop : ℕ → db.Txn → Culled db
  abort : ℕ → Culled db

module _ (db : Lmdb) (table : CullDb db) where
  open db use {Txn, not_found}
  open table use {Sweep, sweep_get, sweep_delete}

  -- `while (1)`; `none` when the fuel is used up.
  unfoldable pub cull_loop : ℕ → ℕ → ℕ → TableOp → Txn → Sweep → Option (Culled db)
  cull_loop zero cut cc op txn cursor = none
  cull_loop (suc fuel) cut cc op txn cursor =
      let (rc, share, cursor') = sweep_get op txn cursor in
      let (rc', txn', cursor'') = sweep_delete txn cursor' in
      let next = cull_loop fuel cut ((cc + 1) % 2 ^ 64) TableOp.next txn' cursor'' in
      if not (rc == 0)
      then (if rc == not_found then some (break_loop cc txn) else some (abort rc))
      else if not (ltb share.timestamp cut)
      then some (break_loop cc txn)
      else if not (rc' == 0)
      then some (abort rc')
      else next

  -- `now - config.cull_shares * 86400`: the product is an `int32_t`, and wraps around as one. A time before
  -- the start of the epoch is as good as its start, since no share is older.
  unfoldable pub cut_of : ℕ → ℕ → ℕ
  cut_of cull_shares now =
      let product = cull_shares * 86400 % 2 ^ 32 in
      if ltb product (2 ^ 31) then now - product else now + (2 ^ 32 - product)

  -- What the parent sees then; an error of the commit is only logged.
  unfoldable pub finish_cull : Txn → Culled db → Txn
  finish_cull env (break_loop cc txn) =
      let committed = db.txn_commit txn env in if committed.0 == 0 then committed.1 else env
  finish_cull env (abort rc) = env

  -- The part from `culling old shares` on. `cull_shares` is the word of an `int32_t`, so it is below 1
  -- for 0 and from 2 ^ 31 on.
  unfoldable pub cull : ℕ → ℕ → ℕ → Txn → Option Txn
  cull fuel cull_shares now env =
      let txn = db.child env in
      let (opened, cursor) = table.sweep_open txn in
      let looped = cull_loop fuel (cut_of cull_shares now) 0 TableOp.first txn cursor in
      if ltb cull_shares 1 || leb (2 ^ 31) cull_shares
      then some env
      else if not (pdb_txn_begin db env == 0)
      then some env
      else if not (opened == 0)
      then some env
      else elim looped [ none ↦ none | some culled ↦ some (finish_cull env culled) ]

  -- The payments that are asked for, with the code of send_payments, and the database after the culling.
  unfoldable pub timer_on_10m :
      (fp : Double)
      → Config fp.D
      → PaymentDb db
      → ℕ
      → ℕ
      → ℕ
      → Txn
      → Option ((ℕ × List Payment) × Txn)
  timer_on_10m fp config tables fuel cull_shares now env =
      elim (send_payments db tables fp config fuel env) [
        | none ↦ none
        | some sent ↦ elim (cull fuel cull_shares now env) [
          | none ↦ none
          | some env' ↦ some (sent, env')
        ]
      ]
