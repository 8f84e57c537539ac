-- ===== src/Store/Append.antt =====
-- What store_share and store_block of src/pool.c do to the database, with and without faults, and what
-- account_balance reads.
use salvium_pool.Prelude.{
  ℕ, ◌≤◌, ◌≡◌, inl, inr, ◌∙◌, refl, sym, ap, Bool, true, false, [], ◌∷◌, ◌++◌, All, ◌==◌,
  if◌then◌else◌, Option-cases, arith, subst,
}
use salvium_pool.Pool.Types.{Address, Share, Block}
use salvium_pool.Pool.Lmdb.{Lmdb, IsReliable, HasBlocks, BlockTable, replace, pdb_txn_begin}
use salvium_pool.Balance.Credit.{held}
use salvium_pool.Store.{StoreDb, commit_append, store_share, store_block, account_balance}

-- Appends without faults: what is not older than the others of its height is stored behind them.
pub record HasAppends (db : Lmdb) (ok : IsReliable db) (store : HasBlocks db ok)
    (stores : StoreDb db) : Type 0 where
  pub share_ok :
      (h : ℕ) (s : Share) (t : db.Txn)
      → All (λ q. q.timestamp ≤ s.timestamp) (ok.shares_at t h)
      → ((stores.share_append h s t).0 ≡ 0)
        × ((k : ℕ)
            → ok.shares_at (stores.share_append h s t).1 k
              ≡ (if k == h then ok.shares_at t h ++ s ∷ [] else ok.shares_at t k))
        × (ok.balance (stores.share_append h s t).1 ≡ ok.balance t)
  pub block_ok :
      (h : ℕ) (b : Block) (t : db.Txn)
      → All (λ q. q.timestamp ≤ b.timestamp) (store.blocks_at t h)
      → ((stores.block_append h b t).0 ≡ 0)
        × (store.blocks_at (stores.block_append h b t).1
            ≡ replace (store.blocks_at t) h (store.blocks_at t h ++ b ∷ []))

module _ (db : Lmdb) where
  committed :
      (begun opened : ℕ) (put : ℕ × db.Txn) (env : db.Txn)
      → begun ≡ 0
      → opened ≡ 0
      → put.0 ≡ 0
      → commit_append db begun opened put env ≡ db.txn_commit put.1 env
  unfolding commit_append
  committed begun opened put env b o p = ground (arith, b, o, p)

module _ (db : Lmdb) (ok : IsReliable db) (store : HasBlocks db ok) (stores : StoreDb db)
    (has : HasAppends db ok store stores) where
  open ok use {balance, shares_at}
  open store use {blocks_at}

  -- Over a database without faults, a share that is not older than those stored at its height is stored
  -- behind them; the shares at other heights and the balances stay as they were.
  pub store_share-appends :
      (height : ℕ) (share : Share) (env : db.Txn)
      → All (λ q. q.timestamp ≤ share.timestamp) (shares_at env height)
      → ((store_share db stores height share env).0 ≡ 0)
        × ((k : ℕ)
            → shares_at (store_share db stores height share env).1 k
              ≡ (if k == height then shares_at env height ++ share ∷ [] else shares_at env k))
        × (balance (store_share db stores height share env).1 ≡ balance env)
  unfolding store_share
  store_share-appends height share env old =
      let txn = db.child env in
      let put = stores.share_append height share txn in
      let old' : All (λ q. q.timestamp ≤ share.timestamp) (shares_at txn height) =
        subst (λ f. All (λ q. q.timestamp ≤ share.timestamp) (f height)) (sym (ok.child_shares env))
          old in
      let (code, table, same) = has.share_ok height share txn old' in
      let e =
        committed db (pdb_txn_begin db env) (db.share_cursor txn).0 put env (ok.begin_ok env)
          (ok.share_cursor_ok txn) code in
      (
        ap (λ o. o.0) e ∙ ok.commit_ok put.1 env,
        λ k.
            ap (λ o. shares_at o.1 k) e
            ∙ ap (λ f. f k) (ok.commit_shares put.1 env)
            ∙ table k
            ∙ ap (λ f. if k == height then f height ++ share ∷ [] else f k) (ok.child_shares env),
        ap (λ o. balance o.1) e ∙ ok.commit_balance put.1 env ∙ same ∙ ok.child_balance env,
      )

  -- Over a database without faults, a block that is not older than those stored at its height is stored
  -- behind them, and no other height changes.
  pub store_block-appends :
      (height : ℕ) (block : Block) (env : db.Txn)
      → All (λ q. q.timestamp ≤ block.timestamp) (blocks_at env height)
      → ((store_block db stores height block env).0 ≡ 0)
        × (blocks_at (store_block db stores height block env).1
            ≡ replace (blocks_at env) height (blocks_at env height ++ block ∷ []))
  unfolding store_block
  store_block-appends height block env old =
      let txn = db.child env in
      let put = stores.block_append height block txn in
      let old' : All (λ q. q.timestamp ≤ block.timestamp) (blocks_at txn height) =
        subst (λ f. All (λ q. q.timestamp ≤ block.timestamp) (f height))
          (sym (store.framed.child_kept env)) old in
      let (code, table) = has.block_ok height block txn old' in
      let e =
        committed db (pdb_txn_begin db env) (db.block_cursor txn).0 put env (ok.begin_ok env)
          (store.cursor_ok txn) code in
      (
        ap (λ o. o.0) e ∙ ok.commit_ok put.1 env,
        ap (λ o. blocks_at o.1) e
            ∙ store.framed.commit_kept put.1 env
            ∙ table
            ∙ ap (λ (f : BlockTable). replace f height (f height ++ block ∷ []))
                (store.framed.child_kept env),
      )

  -- Over a database without faults, `account_balance` shows what an account holds, and 0 for one without
  -- an entry or for an address that is too long.
  pub account_balance-held :
      (too_long : Bool) (address : Address) (env : db.Txn)
      → account_balance db too_long address env
        ≡ (if too_long then 0 else held (balance env address))
  unfolding account_balance
  account_balance-held true address env = refl
  account_balance-held false address env = elim (Option-cases (balance env address)) [
    | inl missing ↦ rw missing (
        ground (
          arith,
          ok.not_found_ne,
          ok.begin_ok env,
          ok.balance_cursor_ok (db.child env),
          ok.get_missing address (db.child env)
              (ap (λ f. f address) (ok.child_balance env) ∙ missing),
        ))
    | inr (v, found) ↦ rw found (
        ground (
          arith,
          ok.begin_ok env,
          ok.balance_cursor_ok (db.child env),
          ok.get_found address v (db.child env)
              (ap (λ f. f address) (ok.child_balance env) ∙ found),
        ))
  ]
