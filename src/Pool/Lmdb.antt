-- ===== src/Pool/Lmdb.antt =====
-- What src/pool.c uses of LMDB, as an interface. A transaction is the contents that it sees; a call
-- returns LMDB's code, 0 for success, beside its result. Nothing is assumed here: `IsReliable` says what
-- the calls do when no fault occurs, and only theorems that need it take it.
use salvium_pool.Prelude.{
  ℕ, ◌≡◌, ◌≢◌, Option, none, some, List, [], ◌∷◌, ◌==◌, if◌then◌else◌, suc, get_elem?,
  set as set_elem,
}
use salvium_pool.Pool.Types.{Address, Share, Block}

-- the cursor operations that the code uses
pub data CursorOp : Type 0 where
  set : CursorOp
  next_dup : CursorOp

pub record Lmdb : Type 1 where
  pub Txn : Type 0
  pub Cursor : Type 0
  -- the codes MDB_NOTFOUND and MDB_MAP_RESIZED
  pub not_found : ℕ
  pub map_resized : ℕ
  -- mdb_txn_begin under a parent: its code, and the child that sees what the parent sees
  pub txn_begin : Txn → ℕ
  pub set_mapsize : Txn → ℕ
  pub txn_begin_resized : Txn → ℕ
  pub child : Txn → Txn
  -- mdb_txn_commit of a child into its parent; an abort leaves the parent as it is
  pub txn_commit : Txn → Txn → ℕ × Txn
  -- mdb_cursor_open and mdb_cursor_get on the table of shares; MDB_SET takes the height
  pub share_cursor : Txn → ℕ × Cursor
  pub share_get : CursorOp → ℕ → Txn → Cursor → ℕ × Share × Cursor
  -- the table of balances: the cursor, MDB_SET at an address, and a put
  pub balance_cursor : Txn → ℕ
  pub balance_get : Address → Txn → ℕ × ℕ
  pub balance_put : Address → ℕ → Txn → ℕ × Txn
  -- the table of blocks; a put with MDB_CURRENT replaces what the cursor stands on
  pub block_cursor : Txn → ℕ × Cursor
  pub block_get : CursorOp → ℕ → Txn → Cursor → ℕ × Block × Cursor
  pub block_put : ℕ → Block → Txn → Cursor → ℕ × Txn

module _ (db : Lmdb) where
  open db use {Txn, map_resized, txn_begin, set_mapsize, txn_begin_resized}

  -- `pdb_txn_begin`: a map that another process has grown is adopted, and the call is made again.
  unfoldable pub pdb_txn_begin : Txn → ℕ
  pdb_txn_begin parent =
      let rc = txn_begin parent in
      let rc' = set_mapsize parent in
      if rc == map_resized then (if rc' == 0 then txn_begin_resized parent else rc') else rc

abbrev pub Balances : Type 0
Balances = Address → Option ℕ

-- A map with one entry changed.
abbrev pub update : Balances → Address → ℕ → Balances
update f a v b = if a == b then some v else f b

-- LMDB without faults, seen through the contents of a transaction: `balance` is the table of balances,
-- `shares_at` the shares under a height in their order, and `pending` what a cursor has still to come
-- to among the duplicates of its key.
pub record IsReliable (db : Lmdb) : Type 0 where
  pub balance : db.Txn → Balances
  pub shares_at : db.Txn → ℕ → List Share
  pub pending : db.Cursor → List Share
  pub not_found_ne : db.not_found ≢ 0
  pub begin_ok : (t : db.Txn) → pdb_txn_begin db t ≡ 0
  pub child_balance : (t : db.Txn) → balance (db.child t) ≡ balance t
  pub child_shares : (t : db.Txn) → shares_at (db.child t) ≡ shares_at t
  pub commit_ok : (c t : db.Txn) → (db.txn_commit c t).0 ≡ 0
  pub commit_balance : (c t : db.Txn) → balance (db.txn_commit c t).1 ≡ balance c
  pub commit_shares : (c t : db.Txn) → shares_at (db.txn_commit c t).1 ≡ shares_at c
  pub balance_cursor_ok : (t : db.Txn) → db.balance_cursor t ≡ 0
  pub get_missing :
      (a : Address) (t : db.Txn) → balance t a ≡ none → (db.balance_get a t).0 ≡ db.not_found
  pub get_found : (a v : ℕ) (t : db.Txn) → balance t a ≡ some v → db.balance_get a t ≡ (0, v)
  pub put_ok : (a v : ℕ) (t : db.Txn) → (db.balance_put a v t).0 ≡ 0
  pub put_balance :
      (a v : ℕ) (t : db.Txn) → balance (db.balance_put a v t).1 ≡ update (balance t) a v
  pub put_shares : (a v : ℕ) (t : db.Txn) → shares_at (db.balance_put a v t).1 ≡ shares_at t
  pub share_cursor_ok : (t : db.Txn) → (db.share_cursor t).0 ≡ 0
  pub set_none :
      (h : ℕ) (t : db.Txn) (c : db.Cursor)
      → shares_at t h ≡ []
      → (db.share_get CursorOp.set h t c).0 ≡ db.not_found
  pub set_some :
      (h : ℕ) (t : db.Txn) (c : db.Cursor) (x : Share) (l : List Share)
      → shares_at t h ≡ x ∷ l
      → ((db.share_get CursorOp.set h t c).0 ≡ 0)
        × ((db.share_get CursorOp.set h t c).1 ≡ x)
        × (pending (db.share_get CursorOp.set h t c).2 ≡ l)
  pub next_none :
      (h : ℕ) (t : db.Txn) (c : db.Cursor)
      → pending c ≡ []
      → (db.share_get CursorOp.next_dup h t c).0 ≡ db.not_found
  pub next_some :
      (h : ℕ) (t : db.Txn) (c : db.Cursor) (x : Share) (l : List Share)
      → pending c ≡ x ∷ l
      → ((db.share_get CursorOp.next_dup h t c).0 ≡ 0)
        × ((db.share_get CursorOp.next_dup h t c).1 ≡ x)
        × (pending (db.share_get CursorOp.next_dup h t c).2 ≡ l)

-- The parts of the database that beginning and committing a transaction keep, and that a put into the
-- table of balances does not touch.
pub record IsFramed (db : Lmdb) {A : Type 0} (f : db.Txn → A) : Type 0 where
  pub child_kept : (t : db.Txn) → f (db.child t) ≡ f t
  pub commit_kept : (c t : db.Txn) → f (db.txn_commit c t).1 ≡ f c
  pub put_kept : (a v : ℕ) (t : db.Txn) → f (db.balance_put a v t).1 ≡ f t

-- The blocks under each height, in the order of their timestamps.
abbrev pub BlockTable : Type 0
BlockTable = ℕ → List Block

-- A table with the blocks of one height replaced.
abbrev pub replace : BlockTable → ℕ → List Block → BlockTable
replace f h l k = if k == h then l else f k

-- the index that a cursor operation goes to, from the one it stands on
abbrev pub block_index_of : CursorOp → ℕ → ℕ
block_index_of CursorOp.set i = 0
block_index_of CursorOp.next_dup i = suc i

-- MDB_NEXT_DUP needs a cursor that stands under the key.
abbrev pub StandsAt : CursorOp → ℕ → ℕ → Type 0
StandsAt CursorOp.set h key = Unit
StandsAt CursorOp.next_dup h key = key ≡ h

-- The table of blocks without faults. A put with MDB_CURRENT replaces the block that the cursor stands
-- on by one that sorts in the same place, which is to say with the same timestamp.
pub record HasBlocks (db : Lmdb) (ok : IsReliable db) : Type 0 where
  pub blocks_at : db.Txn → BlockTable
  pub key : db.Cursor → ℕ
  pub at : db.Cursor → ℕ
  pub framed : IsFramed db blocks_at
  pub cursor_ok : (t : db.Txn) → (db.block_cursor t).0 ≡ 0
  pub get_none :
      (op : CursorOp) (h : ℕ) (t : db.Txn) (c : db.Cursor)
      → StandsAt op h (key c)
      → get_elem? (blocks_at t h) (block_index_of op (at c)) ≡ none
      → (db.block_get op h t c).0 ≡ db.not_found
  pub get_some :
      (op : CursorOp) (h : ℕ) (t : db.Txn) (c : db.Cursor) (b : Block)
      → StandsAt op h (key c)
      → get_elem? (blocks_at t h) (block_index_of op (at c)) ≡ some b
      → ((db.block_get op h t c).0 ≡ 0)
        × ((db.block_get op h t c).1 ≡ b)
        × (key (db.block_get op h t c).2 ≡ h)
        × (at (db.block_get op h t c).2 ≡ block_index_of op (at c))
  pub put_block :
      (h : ℕ) (b old : Block) (t : db.Txn) (c : db.Cursor)
      → key c ≡ h
      → get_elem? (blocks_at t h) (at c) ≡ some old
      → old.timestamp ≡ b.timestamp
      → blocks_at (db.block_put h b t c).1
        ≡ replace (blocks_at t) h (set_elem (blocks_at t h) (at c) b)
  pub put_balance :
      (h : ℕ) (b : Block) (t : db.Txn) (c : db.Cursor)
      → ok.balance (db.block_put h b t c).1 ≡ ok.balance t
  pub put_shares :
      (h : ℕ) (b : Block) (t : db.Txn) (c : db.Cursor)
      → ok.shares_at (db.block_put h b t c).1 ≡ ok.shares_at t
